-- ===== src/Core/SlotAllocator/Fresh/Search.antt =====
-- What the searches for a free slot find (core/alloc.h).
use agentc.Core.Reader.{SlabId}
use agentc.Core.BlobAllocator.{is_id}
use agentc.Core.SlotAllocator.{
  slab_size, Slab, Slabs, new_slab, put, sid, use_of, mem, free_offset, owned, start_offset,
  append_only, first_free,
}
use agentc.Core.SlotAllocator.Watermark.{IsAbove}
use agentc.Prelude.{
  ℕ, zero, suc, ◌+◌, ◌-◌, ◌<◌, ◌≤◌, ◌≡◌, ◌≢◌, refl, sym, ap, ◌∙◌, inl, inr, Bool, true, false, not,
  ◌&&◌, ◌||◌, List, [], Option, none, some, ltb, ◌==◌, arith, Bool-cases, Option-cases, ltb→lt,
  subst, ==_iff, if◌then◌else◌,
}

-- How many of the first `n` slots are in use.
unfoldable pub used : ℕ → (ℕ → ℕ) → ℕ
used zero in_use = 0
used (suc n) in_use = (if in_use n == 0 then 0 else 1) + used n in_use

-- A slab's count is at least its number of used slots.
pub record IsCounted (slabs : Slabs) : Type 0 where
  pub counts : (i : ℕ) (s : Slab) → slabs i ≡ some s → used 1024 s.in_use ≤ s.count
  pub limited : (i : ℕ) (s : Slab) → slabs i ≡ some s → i < 4096

abbrev pub SameUse : Slabs → Slabs → Type 0
SameUse a b = (i o : ℕ) → use_of (b i) o ≡ use_of (a i) o

pub record Found (before : Slabs) (si : SlabId) (after : Slabs) : Type 0 where
  pub index : si.index < 4096
  pub offset : si.offset < 1024
  pub slab : Slab
  pub there : after si.index ≡ some slab
  pub free : slab.in_use si.offset ≡ 0
  pub same : SameUse before after
  pub counted : IsCounted after

used_nothing : (n : ℕ) → used n (λ _. 0) ≡ 0
unfolding used
used_nothing zero = refl
used_nothing (suc n) = omega (arith, used_nothing n)

-- A slab with fewer used slots than slots has a free one.
used_full : (n : ℕ) (in_use : ℕ → ℕ) → ((o : ℕ) → o < n → 0 < in_use o) → used n in_use ≡ n
unfolding used
used_full zero in_use h = refl
used_full (suc n) in_use h =
    let here = h n (omega arith) in
    let r = used_full n in_use (λ o l. h o (omega arith)) in ground arith

record FoundOffset (skip_null : Bool) (n o i : ℕ) (in_use : ℕ → ℕ) (found : Option ℕ) : Type 0 where
  pub range : (x : ℕ) → found ≡ some x → (o ≤ x) × (x < o + n)
  pub free : (x : ℕ) → found ≡ some x → in_use x ≡ 0
  pub named : (x : ℕ) → found ≡ some x → skip_null ≡ true → is_id (sid i x) ≡ true

abbrev taken : Bool → ℕ → ℕ → (ℕ → ℕ) → List SlabId → Bool
taken skip_null i o in_use protected =
    (skip_null && not (is_id (sid i o))) || (not (in_use o == 0)) || mem (sid i o) protected

free_offset-FoundOffset :
    (skip_null : Bool) (n o i : ℕ) (in_use : ℕ → ℕ) (protected : List SlabId)
    → FoundOffset skip_null n o i in_use (free_offset skip_null n o i in_use protected)
unfolding free_offset
free_offset-FoundOffset skip_null zero o i in_use protected = record {
  range = λ x e. absurd cc;
  free = λ x e. absurd cc;
  named = λ x e. absurd cc;
}
free_offset-FoundOffset skip_null (suc n) o i in_use protected =
    let r = free_offset-FoundOffset skip_null n (suc o) i in_use protected in
    elim (Bool-cases (taken skip_null i o in_use protected)) [
      | inl busy ↦
          rw (free_offset, busy)
            (record {
              range = λ x e. let l = r.range x e in (omega (arith, l.0), omega (arith, l.1));
              free = r.free;
              named = r.named;
            })
      | inr idle ↦
          rw (free_offset, idle)
            (record {
              range = λ x e. let p : o ≡ x = cc in (omega arith, omega arith);
              free = λ x e. let p : o ≡ x = cc in ap in_use (sym p) ∙ ground arith;
              named =
                  λ x e h. let p : o ≡ x = cc in ap (λ y. is_id (sid i y)) (sym p) ∙ ground arith;
            })
    ]

-- Without protected slots, a search that finds nothing has seen used slots only.
free_offset-none :
    (n o i : ℕ) (in_use : ℕ → ℕ)
    → free_offset false n o i in_use [] ≡ none
    → (x : ℕ) → o ≤ x
    → x < o + n
    → 0 < in_use x
unfolding free_offset
free_offset-none zero o i in_use e x h k = absurd (omega arith)
free_offset-none (suc n) o i in_use e x h k = elim (Bool-cases (in_use o == 0)) [
  | inl idle ↦ absurd (let no : some o ≡ none = rw (free_offset, idle) at e in cc)
  | inr busy ↦
      let e' : free_offset false n (suc o) i in_use [] ≡ none = rw (free_offset, busy) at e in
      elim (Bool-cases (x == o)) [
        | inl same ↦ subst (λ y. 0 < in_use y) (sym ((==_iff x o).0 same)) (ground arith)
        | inr other ↦ free_offset-none n (suc o) i in_use e' x (ground arith) (omega arith)
      ]
]

owned_use : (slab : Option Slab) (o : ℕ) → (owned slab).in_use o ≡ use_of slab o
owned_use none o = refl
owned_use (some slab) o = refl

SameUse-put : (slabs : Slabs) (i : ℕ) → SameUse slabs (put i (owned (slabs i)) slabs)
SameUse-put slabs i j o = elim (Bool-cases (j == i)) [
  | inl same ↦
      rw same (owned_use (slabs i) o ∙ ap (λ x. use_of (slabs x) o) (sym ((==_iff j i).0 same)))
  | inr other ↦ rw other
]

owned_counted :
    (slabs : Slabs) (i : ℕ)
    → IsCounted slabs
    → used 1024 (owned (slabs i)).in_use ≤ (owned (slabs i)).count
owned_counted slabs i c = elim (Option-cases (slabs i)) [
  | inl none' ↦ rw none' (let z = used_nothing 1024 in omega arith)
  | inr (s, e) ↦ rw e (c.counts i s e)
]

pub IsCounted-put :
    (slabs : Slabs) (i : ℕ) (t : Slab)
    → IsCounted slabs
    → i < 4096
    → used 1024 t.in_use ≤ t.count
    → IsCounted (put i t slabs)
IsCounted-put slabs i t c l h = record {
  counts = λ j s e. elim (Bool-cases (j == i)) [
    | inl same ↦
        let e' : some t ≡ some s = rw same at e in
        let p : t ≡ s = cc in subst (λ x. used 1024 x.in_use ≤ x.count) p h
    | inr other ↦ let e' : slabs j ≡ some s = rw other at e in c.counts j s e'
  ];
  limited = λ j s e. elim (Bool-cases (j == i)) [
    | inl same ↦ let p = (==_iff j i).0 same in omega arith
    | inr other ↦ let e' : slabs j ≡ some s = rw other at e in c.limited j s e'
  ];
}

pub put_self : (i : ℕ) (t : Slab) (slabs : Slabs) → put i t slabs i ≡ some t
put_self i t slabs = ground arith

start-IsAbove :
    (mark : SlabId) (i x : ℕ)
    → mark.index ≤ i
    → start_offset mark i ≤ x
    → is_id (sid i x) ≡ true
    → IsAbove mark (sid i x)
start-IsAbove mark i x h k m = ground arith

-- What the append only search finds is free and above the watermark.
pub append_only-Found :
    (n i : ℕ) (mark : SlabId) (protected : List SlabId) (slabs : Slabs) (si : SlabId)
    (after : Slabs)
    → IsCounted slabs
    → n + i ≤ 4096
    → mark.index ≤ i
    → append_only n i mark protected slabs ≡ some (si, after)
    → Found slabs si after × IsAbove mark si
unfolding append_only
append_only-Found zero i mark protected slabs si after c b l e = absurd cc
append_only-Found (suc n) i mark protected slabs si after c b l e =
    let slab = owned (slabs i) in
    let next = put i slab slabs in
    let o = start_offset mark i in
    let f = free_offset-FoundOffset true (slab_size - o) o i slab.in_use protected in
    let c' = IsCounted-put slabs i slab c (omega arith) (owned_counted slabs i c) in
    let same = SameUse-put slabs i in
    elim (Option-cases (free_offset true (slab_size - o) o i slab.in_use protected)) [
      | inl none' ↦
          let e' : append_only n (suc i) mark protected next ≡ some (si, after) =
            rw (append_only, none') at e in
          let (g, a) =
            append_only-Found n (suc i) mark protected next si after c' (omega arith) (omega arith)
              e' in
          (
            record {
              index = g.index;
              offset = g.offset;
              slab = g.slab;
              there = g.there;
              free = g.free;
              same = λ j x. g.same j x ∙ same j x;
              counted = g.counted;
            },
            a,
          )
      | inr (x, found) ↦
          let e' : some (sid i x, next) ≡ some (si, after) = rw (append_only, found) at e in
          let q : (sid i x, next) ≡ (si, after) = cc in
          let r = f.range x found in
          let fits : x < 1024 = omega (arith, r.0, r.1) in
          subst (λ (p : SlabId × Slabs). Found slabs p.0 p.1 × IsAbove mark p.0) q
            (
              record {
                index = omega arith;
                offset = fits;
                slab = slab;
                there = put_self i slab slabs;
                free = f.free x found;
                same = same;
                counted = c';
              },
              start-IsAbove mark i x l r.0 (f.named x found refl),
            )
    ]

-- A slab that is not full has a free slot that the inner loop finds.
finds_free :
    (slabs : Slabs) (i : ℕ) (slab : Slab)
    → IsCounted slabs
    → slabs i ≡ some slab
    → slab.count < 1024
    → free_offset false slab_size 0 i slab.in_use [] ≢ none
finds_free slabs i slab c e l none' =
    let full =
      used_full 1024 slab.in_use
        (λ o k. free_offset-none slab_size 0 i slab.in_use none' o (omega arith) (omega arith)) in
    let h = c.counts i slab e in omega arith

-- What the search without a checkpoint finds is free.
pub first_free-Found :
    (n i second : ℕ) (slabs : Slabs) (si : SlabId) (after : Slabs)
    → IsCounted slabs
    → n + i ≤ 4096
    → second < 1024
    → first_free n i second [] slabs ≡ some (si, after)
    → Found slabs si after
unfolding first_free
first_free-Found zero i second slabs si after c b l e = absurd cc
first_free-Found (suc n) i second slabs si after c b l e = elim (Option-cases (slabs i)) [
  | inl none' ↦
      let e' : some (sid i second, put i new_slab slabs) ≡ some (si, after) =
        rw (first_free, none') at e in
      let q : (sid i second, put i new_slab slabs) ≡ (si, after) = cc in
      let made : owned (slabs i) ≡ new_slab = rw none' refl in
      subst (λ (p : SlabId × Slabs). Found slabs p.0 p.1) q
        (record {
          index = omega arith;
          offset = l;
          slab = new_slab;
          there = put_self i new_slab slabs;
          free = refl;
          same = subst (λ t. SameUse slabs (put i t slabs)) made (SameUse-put slabs i);
          counted =
              subst (λ t. IsCounted (put i t slabs)) made
                (IsCounted-put slabs i (owned (slabs i)) c (omega arith) (owned_counted slabs i c));
        })
  | inr (slab, there) ↦ elim (Bool-cases (ltb slab.count slab_size)) [
    | inr full ↦
        let e' : first_free n (suc i) 0 [] slabs ≡ some (si, after) =
          rw (first_free, there, full) at e in
        first_free-Found n (suc i) 0 slabs si after c (omega arith) (omega arith) e'
    | inl room ↦
        let search = free_offset false slab_size 0 i slab.in_use [] in
        elim (Option-cases search) [
          | inl none' ↦ absurd (finds_free slabs i slab c there (ltb→lt slab.count 1024 room) none')
          | inr (x, found) ↦
              let f = free_offset-FoundOffset false slab_size 0 i slab.in_use [] in
              let r = f.range x found in
              let e' : some (sid i x, slabs) ≡ some (si, after) =
                rw (first_free, there, room, found) at e in
              let q : (sid i x, slabs) ≡ (si, after) = cc in
              subst (λ (p : SlabId × Slabs). Found slabs p.0 p.1) q
                (record {
                  index = omega arith;
                  offset = omega (arith, r.1);
                  slab = slab;
                  there = there;
                  free = f.free x found;
                  same = λ j o. refl;
                  counted = c;
                })
        ]
  ]
]
