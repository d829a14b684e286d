-- ===== src/Core/BlobAllocator/Stored.antt =====
-- What an allocation stores, and what it leaves alone (core/alloc.h).
use agentc.Core.Reader.{SlabId}
use agentc.Core.BlobAllocator.{
  BlobSlab, BlobAllocator, Memory, num_slabs, blob_slab_bytes, null_id, is_id, copy, put_slab,
  owned_slab, appended, sid_at, fits, place, allocate,
}
use agentc.Prelude.{
  ℕ, zero, suc, ◌+◌, ◌-◌, ◌%◌, ◌<◌, ◌≤◌, ◌≡◌, refl, sym, ap, ◌∙◌, ◌⊎◌, inl, inr, true, Bytes, List,
  [], ◌∷◌, Option, none, some, length, ltb, ◌==◌, ◌||◌, get_elem?, arith, Bool-cases, Option-cases,
  leb→le, if_cases, ==_iff, subst,
}

abbrev pub Slabs : Type 0
Slabs = ℕ → Option BlobSlab

-- A slab holds at most 65536 bytes, and 0:0 is never given out.
pub record IsValid (slabs : Slabs) : Type 0 where
  pub bounded : (i : ℕ) (s : BlobSlab) → slabs i ≡ some s → s.count ≤ 65536
  pub reserved : (s : BlobSlab) → slabs 0 ≡ some s → 0 < s.count
  pub limited : (i : ℕ) (s : BlobSlab) → slabs i ≡ some s → i < 4096

-- `after` has the counted bytes of `before`.
pub record Keeps (before after : BlobSlab) : Type 0 where
  pub counted : before.count ≤ after.count
  pub same : (j : ℕ) → j < before.count → after.bytes j ≡ before.bytes j

abbrev pub Extends : Slabs → Slabs → Type 0
Extends a b = (i : ℕ) (s : BlobSlab) → a i ≡ some s → (t : BlobSlab) × (b i ≡ some t) × Keeps s t

Keeps-refl : (s : BlobSlab) → Keeps s s
Keeps-refl s = record { counted = omega arith; same = λ j h. refl }

pub Extends-refl : (a : Slabs) → Extends a a
Extends-refl a i s e = (s, e, Keeps-refl s)

pub Extends-trans : (a b c : Slabs) → Extends a b → Extends b c → Extends a c
Extends-trans a b c h k i s e =
    let (t, f, p) = h i s e in
    let (u, g, q) = k i t f in
    let counts = p.counted in
    let more = q.counted in
    (u, g, record { counted = omega arith; same = λ j l. q.same j (omega arith) ∙ p.same j l })

-- The blob stands at its id, in counted bytes that no blob had before.
pub record Placed (contents : Bytes) (before after : Slabs) (sid : SlabId) : Type 0 where
  pub slab : BlobSlab
  pub at : after sid.index ≡ some slab
  pub inside : sid.offset + length contents ≤ slab.count
  pub index : sid.index < 4096
  pub offset : sid.offset < 65536
  pub named : is_id sid ≡ true
  pub new : (s : BlobSlab) → before sid.index ≡ some s → s.count ≤ sid.offset
  pub stored :
      (j : ℕ) → j < length contents → get_elem? contents j ≡ some (slab.bytes (sid.offset + j))

copy_before :
    (at : ℕ) (contents : Bytes) (memory : Memory) (j : ℕ)
    → j < at
    → copy at contents memory j ≡ memory j
unfolding copy
copy_before at contents memory j h = ground arith

get_elem?-lt :
    {A : Type 0} (xs : List A) (j : ℕ) → j < length xs → (x : A) × (get_elem? xs j ≡ some x)
get_elem?-lt [] j h = absurd (omega arith)
get_elem?-lt (x ∷ xs) zero h = (x, refl)
get_elem?-lt (x ∷ xs) (suc j) h = get_elem?-lt xs j (omega arith)

copy_inside :
    (at : ℕ) (contents : Bytes) (memory : Memory) (j : ℕ)
    → j < length contents
    → get_elem? contents j ≡ some (copy at contents memory (at + j))
unfolding copy
copy_inside at contents memory j h =
    let (x, e) = get_elem?-lt contents j h in
    let shifted : at + j - at ≡ j = omega arith in ground (arith, e, shifted)

Extends-put_slab :
    (slabs : Slabs) (i : ℕ) (t : BlobSlab)
    → ((s : BlobSlab) → slabs i ≡ some s → Keeps s t)
    → Extends slabs (put_slab i t slabs)
Extends-put_slab slabs i t h j s e = elim (Bool-cases (j == i)) [
  | inl same ↦ let p = (==_iff j i).0 same in (t, rw same refl, h s (ap slabs (sym p) ∙ e))
  | inr other ↦ (s, rw other e, Keeps-refl s)
]

IsValid-put_slab :
    (slabs : Slabs) (i : ℕ) (t : BlobSlab)
    → IsValid slabs
    → i < 4096
    → t.count ≤ 65536
    → (i ≡ 0 → 0 < t.count)
    → IsValid (put_slab i t slabs)
IsValid-put_slab slabs i t v b h k = record {
  bounded = λ j s. ground (arith, v.bounded j s);
  reserved = λ s. ground (arith, v.reserved s, k);
  limited = λ j s. ground (arith, v.limited j s);
}

put_slab_self : (i : ℕ) (t : BlobSlab) (slabs : Slabs) → put_slab i t slabs i ≡ some t
put_slab_self i t slabs = ground arith

sid_at-named :
    (i : ℕ) (slab : BlobSlab)
    → slab.count < 65536
    → (i ≡ 0 → 0 < slab.count)
    → is_id (sid_at i slab) ≡ true
sid_at-named i slab h k =
    let same : slab.count % 65536 ≡ slab.count = omega arith in ground (arith, same, k)

-- A blob is placed with regard to what the slabs held before, too.
Placed-Extends :
    (contents : Bytes) (a b after : Slabs) (sid : SlabId)
    → Extends a b
    → Placed contents b after sid
    → Placed contents a after sid
Placed-Extends contents a b after sid h p = record {
  slab = p.slab;
  at = p.at;
  inside = p.inside;
  index = p.index;
  offset = p.offset;
  named = p.named;
  stored = p.stored;
  new = λ s e.
      let (t, f, k) = h sid.index s e in let c = k.counted in let n = p.new t f in omega arith;
}

module _ (fresh : ℕ → Memory) where
  -- the slab that the loop has at hand
  record Owned (slabs : Slabs) (i : ℕ) (slab : BlobSlab) : Type 0 where
    pub bounded : slab.count ≤ 65536
    pub reserved : i ≡ 0 → 0 < slab.count
    pub same : (s : BlobSlab) → slabs i ≡ some s → Keeps s slab

  owned : (slabs : Slabs) (i : ℕ) → IsValid slabs → Owned slabs i (owned_slab fresh i (slabs i))
  owned slabs i v = elim (Option-cases (slabs i)) [
    | inl none' ↦ rw none' (record {
      bounded = ground arith;
      reserved = ground arith;
      same = λ s e. absurd (let no : none ≡ some s = sym none' ∙ e in cc);
    })
    | inr (t, e) ↦ rw e (record {
      bounded = v.bounded i t e;
      reserved = λ z. v.reserved t (ap slabs (sym z) ∙ e);
      same = λ s f.
          (let g : some t ≡ some s = sym e ∙ f in
            let h : t ≡ s = cc in subst (λ u. Keeps s u) (sym h) (Keeps-refl s));
    })
  ]

  pub record Allocated (contents : Bytes) (before : Slabs) (sid : SlabId) (after : Slabs)
      : Type 0 where
    pub extended : Extends before after
    pub valid : IsValid after
    pub outcome : (sid ≡ null_id) ⊎ Placed contents before after sid

  place_here :
      (contents : Bytes) (slabs : Slabs) (i : ℕ) (slab : BlobSlab)
      → IsValid slabs
      → Owned slabs i slab
      → i < 4096
      → 0 < length contents
      → slab.count + length contents ≤ 65536
      → Allocated contents slabs (sid_at i slab) (put_slab i (appended contents slab) slabs)
  place_here contents slabs i slab v o b l f =
      let same : slab.count % 65536 ≡ slab.count = omega arith in
      let length_lem : (appended contents slab).count ≡ slab.count + length contents = refl in
      record {
        extended = Extends-put_slab slabs i (appended contents slab) (λ s e.
            let k = o.same s e in
            let c = k.counted in
            record {
              counted = omega arith;
              same = λ j h. copy_before slab.count contents slab.bytes j (omega arith) ∙ k.same j h;
            });
        valid = IsValid-put_slab slabs i (appended contents slab) v b f (λ z. omega arith);
        outcome = inr (record {
          slab = appended contents slab;
          at = put_slab_self i (appended contents slab) slabs;
          inside = omega arith;
          index = b;
          offset = omega arith;
          named = sid_at-named i slab (omega arith) o.reserved;
          new = λ s e. let c = (o.same s e).counted in omega arith;
          stored = λ j h. rw same (copy_inside slab.count contents slab.bytes j h);
        });
      }

  -- The loop over the slabs places a blob, or finds room in none.
  place-lem :
      (n i : ℕ) (contents : Bytes) (slabs : Slabs)
      → IsValid slabs
      → 0 < length contents
      → length contents ≤ 65536
      → n + i ≤ 4096
      → Allocated contents slabs
          (place fresh n i contents slabs).0
          (place fresh n i contents slabs).1
  unfolding place
  place-lem zero i contents slabs v l h b = record {
    extended = Extends-refl slabs;
    valid = v;
    outcome = inl refl;
  }
  place-lem (suc n) i contents slabs v l h b =
      let slab = owned_slab fresh i (slabs i) in
      let o = owned slabs i v in
      let bounded = o.bounded in
      elim (Bool-cases (fits contents slab)) [
        | inl room ↦
            rw (place, room)
              (place_here contents slabs i slab v o (omega arith) l
                (let le = leb→le _ _ room in omega arith))
        | inr full ↦
            let next = put_slab i slab slabs in
            let step = Extends-put_slab slabs i slab o.same in
            let r =
              place-lem n (suc i) contents next
                (IsValid-put_slab slabs i slab v (omega arith) o.bounded o.reserved) l h
                (omega arith) in
            rw (place, full)
              (record {
                extended = Extends-trans slabs next _ step r.extended;
                valid = r.valid;
                outcome = elim r.outcome [
                  | inl e ↦ inl e
                  | inr p ↦ inr (Placed-Extends contents slabs next _ _ step p)
                ];
              })
      ]

  -- An allocation gives the null id and leaves all blobs as they are, or places its bytes at an id that
  -- is not null, in memory that no blob had; it keeps the bytes of every other blob, and the checkpoints.
  pub allocate-Allocated :
      (contents : Bytes) (blobs : BlobAllocator)
      → IsValid blobs.slabs
      → Allocated contents blobs.slabs
          (allocate fresh contents blobs).0
          (allocate fresh contents blobs).1.slabs
        × ((allocate fresh contents blobs).1.checkpoint_stack ≡ blobs.checkpoint_stack)
        × ((allocate fresh contents blobs).1.checkpoint_watermarks ≡ blobs.checkpoint_watermarks)
  unfolding allocate
  allocate-Allocated contents blobs v =
      if_cases
        (λ (r : SlabId × BlobAllocator).
          Allocated contents blobs.slabs r.0 r.1.slabs
          × (r.1.checkpoint_stack ≡ blobs.checkpoint_stack)
          × (r.1.checkpoint_watermarks ≡ blobs.checkpoint_watermarks))
        ((length contents == 0) || ltb blob_slab_bytes (length contents)) _ _
        (λ refused. (
          record { extended = Extends-refl blobs.slabs; valid = v; outcome = inl refl },
          refl,
          refl,
        ))
        (λ taken. (
          place-lem num_slabs 0 contents blobs.slabs v (ground arith) (ground arith) (omega arith),
          refl,
          refl,
        ))
