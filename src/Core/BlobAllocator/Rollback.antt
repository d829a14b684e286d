-- ===== src/Core/BlobAllocator/Rollback.antt =====
-- A rollback to a checkpoint, over the allocations between (core/alloc.h).
use agentc.Core.Reader.{SlabId}
use agentc.Core.BlobAllocator.{
  BlobSlab, BlobAllocator, Memory, num_slabs, Checkpoint, highest, checkpoint, rollback, recount,
  cut, is_current, allocate, allocate_all,
}
use agentc.Core.BlobAllocator.Stored.{
  Slabs, IsValid, Extends, Extends-refl, Extends-trans, allocate-Allocated,
}
use agentc.Prelude.{
  ℕ, zero, suc, ◌%◌, ◌<◌, ◌≡◌, refl, sym, ap, ◌∙◌, inl, inr, true, false, Bool, Bytes, List, [],
  ◌∷◌, Option, none, some, length, ltb, ◌==◌, arith, Bool-cases, Option-cases, ltb→lt, ==_iff,
}

-- The highest slab, its count, and nothing above it.
record Highest (n : ℕ) (slabs : Slabs) (mark : SlabId) (top : BlobSlab) : Type 0 where
  pub offset : mark.offset ≡ top.count % 65536
  pub above : (i : ℕ) → mark.index < i → i < n → slabs i ≡ none

below_suc :
    (n : ℕ) (slabs : Slabs)
    → slabs n ≡ none
    → ((i : ℕ) (s : BlobSlab) → slabs i ≡ some s → i < suc n)
    → (i : ℕ) (s : BlobSlab) → slabs i ≡ some s
    → i < n
below_suc n slabs gone h i s e = elim (Bool-cases (i == n)) [
  | inl same ↦ absurd (
      let p = (==_iff i n).0 same in let no : none ≡ some s = sym gone ∙ ap slabs (sym p) ∙ e in cc)
  | inr other ↦ let l = h i s e in ground arith
]

highest-lem :
    (n : ℕ) (slabs : Slabs) (top : BlobSlab)
    → slabs (highest n slabs).index ≡ some top
    → ((i : ℕ) (s : BlobSlab) → slabs i ≡ some s → i < n)
    → Highest n slabs (highest n slabs) top
unfolding highest
highest-lem zero slabs top e h = absurd (let l = h 0 top e in omega arith)
highest-lem (suc n) slabs top e h = elim (Option-cases (slabs n)) [
  | inl gone ↦
      let e' : slabs (highest n slabs).index ≡ some top = rw (highest, gone) at e in
      let r = highest-lem n slabs top e' (below_suc n slabs gone h) in
      rw (highest, gone)
        (record {
          offset = r.offset;
          above = λ i l m. elim (Bool-cases (i == n)) [
            | inl same ↦ ap slabs ((==_iff i n).0 same) ∙ gone
            | inr other ↦ r.above i l (ground arith)
          ];
        })
  | inr (s, f) ↦
      let e' : slabs n ≡ some top = rw (highest, f) at e in
      let g : some s ≡ some top = sym f ∙ e' in
      let same : s ≡ top = cc in
      rw (highest, f)
        (record { offset = ap (λ t. t.count % 65536) same; above = λ i l m. absurd (omega arith) })
]

module _ (fresh : ℕ → Memory) where
  record Grown (before after : BlobAllocator) : Type 0 where
    pub extended : Extends before.slabs after.slabs
    pub valid : IsValid after.slabs
    pub stack : after.checkpoint_stack ≡ before.checkpoint_stack

  allocate_all-Grown :
      (cs : List Bytes) (blobs : BlobAllocator)
      → IsValid blobs.slabs
      → Grown blobs (allocate_all fresh cs blobs)
  allocate_all-Grown [] blobs v = record {
    extended = Extends-refl blobs.slabs;
    valid = v;
    stack = refl;
  }
  allocate_all-Grown (c ∷ cs) blobs v =
      let one = allocate-Allocated fresh c blobs v in
      let more = allocate_all-Grown cs (allocate fresh c blobs).1 one.0.valid in
      record {
        extended = Extends-trans blobs.slabs _ _ one.0.extended more.extended;
        valid = more.valid;
        stack = more.stack ∙ one.1;
      }

-- The slabs `after` the cut of the slabs `grown` at a watermark that was the highest slab of `before`.
-- Allocations fill the first slab with room: what they put below the watermark stays.
pub record Restored (mark : SlabId) (before grown after : Slabs) : Type 0 where
  pub extended : Extends before after
  pub valid : IsValid after
  pub lower : (i : ℕ) → i < mark.index → after i ≡ grown i
  pub level :
      (s t : BlobSlab) → before mark.index ≡ some s → after mark.index ≡ some t → t.count ≡ s.count
  pub freed : (i : ℕ) (s : BlobSlab) → mark.index < i → after i ≡ some s → s.count ≡ 0

recount_inv :
    (n : ℕ) (o : Option BlobSlab) (s : BlobSlab)
    → recount n o ≡ some s
    → (t : BlobSlab) × (o ≡ some t) × (s ≡ record t { count = n })
recount_inv n none s e = absurd cc
recount_inv n (some t) s e = (t, refl, cc)

-- Where a slab of the cut comes from.
record Cut (mark : SlabId) (after : Slabs) (i : ℕ) (s : BlobSlab) : Type 0 where
  pub slab : BlobSlab
  pub origin : after i ≡ some slab
  pub higher : mark.index < i → s.count ≡ 0
  pub level : i ≡ mark.index → s.count ≡ mark.offset
  pub lower : i < mark.index → s.count ≡ slab.count

cut_inv :
    (mark : SlabId) (after : Slabs) (i : ℕ) (s : BlobSlab)
    → cut mark after i ≡ some s
    → Cut mark after i s
cut_inv mark after i s e = elim (Bool-cases (ltb mark.index i)) [
  | inl up ↦
      let e' : recount 0 (after i) ≡ some s = rw up at e in
      let (t, f, g) = recount_inv 0 (after i) s e' in
      record {
        slab = t;
        origin = f;
        higher = λ l. ap (λ b. b.count) g;
        level = λ p. absurd (let l = ltb→lt mark.index i up in omega arith);
        lower = λ p. absurd (let l = ltb→lt mark.index i up in omega arith);
      }
  | inr down ↦ elim (Bool-cases (i == mark.index)) [
    | inl there ↦
        let e' : recount mark.offset (after i) ≡ some s = rw (down, there) at e in
        let (t, f, g) = recount_inv mark.offset (after i) s e' in
        record {
          slab = t;
          origin = f;
          higher = λ l. ground arith;
          level = λ p. ap (λ b. b.count) g;
          lower = λ p. ground arith;
        }
    | inr other ↦
        let e' : after i ≡ some s = rw (down, other) at e in
        record {
          slab = s;
          origin = e';
          higher = λ l. ground arith;
          level = λ p. ground arith;
          lower = λ p. refl;
        }
  ]
]

cut-Restored :
    (mark : SlabId) (top : BlobSlab) (before after : Slabs)
    → IsValid before
    → IsValid after
    → Extends before after
    → Highest 4096 before mark top
    → before mark.index ≡ some top
    → top.count < 65536
    → Restored mark before after (cut mark after)
cut-Restored mark top before after v w x m e room = record {
  extended = λ i s f. elim (Bool-cases (ltb mark.index i)) [
    | inl higher ↦ absurd (
        let limit = v.limited i s f in
        let l = ltb→lt mark.index i higher in
        let no : none ≡ some s = sym (m.above i l limit) ∙ f in cc)
    | inr low ↦
        let (t, g, k) = x i s f in
        elim (Bool-cases (i == mark.index)) [
          | inl there ↦
              let p = (==_iff i mark.index).0 there in
              let o = m.offset in
              let both : some s ≡ some top = sym f ∙ ap before p ∙ e in
              let same : s ≡ top = cc in
              let equal = ap (λ b. b.count) same in
              (
                record t { count = mark.offset },
                rw (low, there, g),
                record { counted = omega arith; same = k.same },
              )
          | inr other ↦ (t, rw (low, other) g, k)
        ]
  ];
  valid = record {
    bounded = λ i s f.
        let c = cut_inv mark after i s f in
        let b = w.bounded i c.slab c.origin in ground (arith, c.higher, c.level, c.lower, m.offset);
    reserved = λ s f.
        let c = cut_inv mark after 0 s f in
        let r = w.reserved c.slab c.origin in
        let z = λ (p : 0 ≡ mark.index). v.reserved top (ap before p ∙ e) in
        ground (arith, c.level, c.lower, m.offset, z);
    limited = λ i s f. w.limited i _ (cut_inv mark after i s f).origin;
  };
  lower = λ i l.
      let low : ltb mark.index i ≡ false = ground arith in
      let other : (i == mark.index) ≡ false = ground arith in rw (low, other) refl;
  level = λ s t f g.
      let c = (cut_inv mark after mark.index t g).level refl in
      let both : some s ≡ some top = sym f ∙ e in
      let same : s ≡ top = cc in
      let equal = ap (λ b. b.count) same in let o = m.offset in omega arith;
  freed = λ i s l f. (cut_inv mark after i s f).higher l;
}

-- What a rollback leaves: it succeeds, no blob of before the checkpoint has lost a byte, the slab of the
-- watermark counts what it counted, no slab above holds a byte, those below are as `grown` has them, and
-- the checkpoint is gone.
pub record RolledBack (mark : SlabId) (before : BlobAllocator) (grown : Slabs)
    (result : Bool × BlobAllocator) : Type 0 where
  pub done : result.0 ≡ true
  pub slabs : Restored mark before.slabs grown result.1.slabs
  pub stack : result.1.checkpoint_stack ≡ before.checkpoint_stack

abbrev back_to : SlabId → BlobAllocator → Checkpoint
back_to mark before = record {
  depth = suc (length before.checkpoint_stack);
  valid = true;
  watermark = mark;
}

rollback_lem :
    (mark : SlabId) (n : ℕ) (before after : BlobAllocator)
    → after.checkpoint_stack ≡ n ∷ before.checkpoint_stack
    → Restored mark before.slabs after.slabs (cut mark after.slabs)
    → RolledBack mark before after.slabs (rollback (back_to mark before) after)
unfolding rollback
rollback_lem mark n before after e r =
    let current : is_current (back_to mark before) after ≡ true = rw e (ground arith) in
    rw (rollback, current) (record { done = refl; slabs = r; stack = rw e })

module _ (fresh : ℕ → Memory) where
  -- A checkpoint, any allocations and the rollback to it keep every byte that was stored before, give the
  -- highest slab of before its count back, empty the slabs above it and end the checkpoint, where that
  -- slab was not full. The slabs below it stay as the allocations left them.
  pub rollback-RolledBack :
      (blobs : BlobAllocator) (cs : List Bytes) (top : BlobSlab)
      → IsValid blobs.slabs
      → blobs.slabs (highest num_slabs blobs.slabs).index ≡ some top
      → top.count < 65536
      → RolledBack
          (highest num_slabs blobs.slabs)
          blobs
          (allocate_all fresh cs (checkpoint blobs).1).slabs
          (rollback (checkpoint blobs).0 (allocate_all fresh cs (checkpoint blobs).1))
  unfolding checkpoint
  rollback-RolledBack blobs cs top v e room =
      let started = (checkpoint blobs).1 in
      let g = allocate_all-Grown fresh cs started v in
      let h = highest-lem num_slabs blobs.slabs top e (λ i s f. v.limited i s f) in
      rollback_lem _ _ blobs _ g.stack
        (cut-Restored _ top blobs.slabs _ v g.valid g.extended h e room)
