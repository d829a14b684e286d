-- ===== src/Core/SlotAllocator/Fresh.antt =====
-- The slot that an allocation gives (core/alloc.h).
pub mod Search
use agentc.Core.Reader.{SlabId}
use agentc.Core.BlobAllocator.{num_slabs, is_id}
use agentc.Core.SlotAllocator.{
  slab_size, Slab, Slabs, Allocator, put, sid_eq, use_of, refs, owned, current_high_watermark,
  allocate_append_only_raw, retain_in, counted, logged, allocated, alloc_raw, first_free,
}
use agentc.Core.SlotAllocator.Watermark.{IsAbove, refs_inside, watermark_index}
use agentc.Core.SlotAllocator.Fresh.Search.{
  used, IsCounted, SameUse, Found, IsCounted-put, put_self, append_only-Found, first_free-Found,
}
use agentc.Prelude.{
  ℕ, zero, suc, ◌+◌, ◌-◌, ◌<◌, ◌≤◌, ◌≡◌, refl, sym, ap, ◌∙◌, inl, inr, true, false, ◌&&◌, List, [],
  ◌∷◌, Option, none, some, length, ltb, ◌==◌, if◌then◌else◌, arith, Bool-cases, Option-cases,
  lt→ltb, if_cases, subst, ==_iff,
}

pub record IsValid (a : Allocator) : Type 0 where
  pub counted : IsCounted a.slabs
  pub idle : length a.checkpoint_stack ≡ 0 → a.protected ≡ []

-- A slot that was free is in use once, above the watermark under a checkpoint; no other slot changes.
pub record Given (a : Allocator) (si : SlabId) (b : Allocator) : Type 0 where
  pub index : si.index < 4096
  pub offset : si.offset < 1024
  pub free : refs a.slabs si ≡ 0
  pub held : refs b.slabs si ≡ 1
  pub other : (t : SlabId) → sid_eq t si ≡ false → refs b.slabs t ≡ refs a.slabs t
  pub above : 0 < length a.checkpoint_stack → IsAbove (current_high_watermark a.slabs) si
  pub valid : IsValid b
  pub stack : b.checkpoint_stack ≡ a.checkpoint_stack
  pub flags : b.checkpoint_append_only ≡ a.checkpoint_append_only

abbrev retained : ℕ → (ℕ → ℕ) → ℕ → ℕ
retained o in_use j = if (j == o) && ltb o slab_size then in_use j + 1 else in_use j

used_retained_below :
    (n o : ℕ) (in_use : ℕ → ℕ) → n ≤ o → used n (retained o in_use) ≡ used n in_use
unfolding used
used_retained_below zero o in_use h = refl
used_retained_below (suc n) o in_use h = ground (arith, used_retained_below n o in_use)

used_retained : (n o : ℕ) (in_use : ℕ → ℕ) → used n (retained o in_use) ≤ suc (used n in_use)
unfolding used
used_retained zero o in_use = omega arith
used_retained (suc n) o in_use =
    ground (arith, used_retained n o in_use, used_retained_below n o in_use)

use_of-put :
    (slabs : Slabs) (i : ℕ) (t : Slab) (j o : ℕ)
    → use_of (put i t slabs j) o ≡ (if j == i then t.in_use o else use_of (slabs j) o)
use_of-put slabs i t j o = ground arith

abbrev with_slabs : Allocator → Slabs → Allocator
with_slabs a slabs = record a { slabs = slabs }

Given-logged :
    (a : Allocator) (si : SlabId) (b : Allocator) → Given a si b → Given a si (logged si b)
Given-logged a si b g =
    if_cases (λ c. Given a si c) (length b.checkpoint_stack == 0) b _ (λ _. g)
      (λ _. record {
        index = g.index;
        offset = g.offset;
        free = g.free;
        held = g.held;
        other = g.other;
        above = g.above;
        valid = record { counted = g.valid.counted; idle = g.valid.idle };
        stack = g.stack;
        flags = g.flags;
      })

sid_eq_refl : (si : SlabId) → sid_eq si si ≡ true
sid_eq_refl si = ground arith

-- the slot of a slab, counted once more
use_of_retained :
    (slabs : Slabs) (si : SlabId) (slab : Slab) (t : SlabId)
    → slabs si.index ≡ some slab
    → si.offset < 1024
    → use_of (put si.index (retain_in si.offset (counted slab)) slabs t.index) t.offset
      ≡ (if sid_eq t si then slab.in_use si.offset + 1 else use_of (slabs t.index) t.offset)
use_of_retained slabs si slab t e l = elim (Bool-cases (t.index == si.index)) [
  | inr other ↦ rw other
  | inl same ↦
      let p = (==_iff t.index si.index).0 same in
      let here : use_of (slabs t.index) t.offset ≡ slab.in_use t.offset =
        ap (λ x. use_of (slabs x) t.offset) p ∙ ap (λ x. use_of x t.offset) e in
      let inside = lt→ltb si.offset 1024 l in
      elim (Bool-cases (t.offset == si.offset)) [
        | inl there ↦
            let q = (==_iff t.offset si.offset).0 there in
            rw (same, there, inside) (ap (λ x. slab.in_use x + 1) q)
        | inr away ↦ rw (same, away) (sym here)
      ]
]

pub refs_same :
    (a b : Slabs) (t : SlabId)
    → use_of (b t.index) t.offset ≡ use_of (a t.index) t.offset
    → refs b t ≡ refs a t
unfolding refs
refs_same a b t h = ap (λ u. if ltb t.index num_slabs && ltb t.offset slab_size then u else 0) h

Given-put :
    (a : Allocator) (si : SlabId) (slabs : Slabs) (slab : Slab)
    → IsValid a
    → slabs si.index ≡ some slab
    → Found a.slabs si slabs
    → (0 < length a.checkpoint_stack → IsAbove (current_high_watermark a.slabs) si)
    → Given a si (with_slabs a (put si.index (retain_in si.offset (counted slab)) slabs))
Given-put a si slabs slab v there f above =
    let after = put si.index (retain_in si.offset (counted slab)) slabs in
    let same : f.slab ≡ slab = (let e : some f.slab ≡ some slab = sym f.there ∙ there in cc) in
    let zero_use : slab.in_use si.offset ≡ 0 =
      ap (λ (x : Slab). x.in_use si.offset) (sym same) ∙ f.free in
    let was : use_of (slabs si.index) si.offset ≡ 0 = rw there zero_use in
    let count = f.counted.counts si.index slab there in
    record {
      index = f.index;
      offset = f.offset;
      free = refs_inside a.slabs si f.index f.offset ∙ sym (f.same si.index si.offset) ∙ was;
      held =
          refs_inside after si f.index f.offset
          ∙ use_of_retained slabs si slab si there f.offset
          ∙ rw (sid_eq_refl si, zero_use);
      other = λ t n.
          refs_same a.slabs after t
            (use_of_retained slabs si slab t there f.offset ∙ rw n (f.same t.index t.offset));
      above = above;
      valid = record {
        counted =
            IsCounted-put slabs si.index (retain_in si.offset (counted slab)) f.counted f.index
              (let u = used_retained 1024 si.offset slab.in_use in omega arith);
        idle = v.idle;
      };
      stack = refl;
      flags = refl;
    }

given :
    (a : Allocator) (si : SlabId) (slabs : Slabs)
    → IsValid a
    → Found a.slabs si slabs
    → (0 < length a.checkpoint_stack → IsAbove (current_high_watermark a.slabs) si)
    → Given a si (
        logged si (
          with_slabs a
            (put si.index (retain_in si.offset (counted (owned (slabs si.index)))) slabs)))
given a si slabs v f above =
    let there : slabs si.index ≡ some (owned (slabs si.index)) = rw f.there refl in
    Given-logged a si _ (Given-put a si slabs (owned (slabs si.index)) v there f above)

-- An allocation comes from a search that found its slot.
Given-allocated :
    (a : Allocator) (found : Option (SlabId × Slabs)) (si : SlabId) (b : Allocator)
    → IsValid a
    → ((t : SlabId) (slabs : Slabs)
        → found ≡ some (t, slabs)
        → Found a.slabs t slabs
          × (0 < length a.checkpoint_stack → IsAbove (current_high_watermark a.slabs) t))
    → allocated a found ≡ some (si, b)
    → Given a si b
Given-allocated a none si b v h e = absurd cc
Given-allocated a (some (t, slabs)) si b v h e =
    let g = h t slabs refl in
    let last =
      logged t
        (with_slabs a (put t.index (retain_in t.offset (counted (owned (slabs t.index)))) slabs)) in
    let q : (t, last) ≡ (si, b) = cc in
    subst (λ (p : SlabId × Allocator). Given a p.0 p.1) q (given a t slabs v g.0 g.1)

to_the_last : (m : ℕ) → m < 4096 → num_slabs - m + m ≤ 4096
to_the_last m h = omega arith

append-Found :
    (a : Allocator) (t : SlabId) (slabs : Slabs)
    → IsValid a
    → allocate_append_only_raw a.protected a.slabs ≡ some (t, slabs)
    → Found a.slabs t slabs × IsAbove (current_high_watermark a.slabs) t
unfolding allocate_append_only_raw
append-Found a t slabs v e =
    let mark = current_high_watermark a.slabs in
    append_only-Found (num_slabs - mark.index) mark.index mark a.protected a.slabs t slabs v.counted
      (to_the_last mark.index (watermark_index a.slabs)) (omega arith) e

-- A slot that `allocRaw` gives was free and is in use once; it lies above the high watermark where a
-- checkpoint is open, every other slot keeps its references, and the counts stay in order.
pub alloc_raw-Given :
    (a : Allocator) (si : SlabId) (b : Allocator)
    → IsValid a
    → alloc_raw a ≡ some (si, b)
    → Given a si b
unfolding alloc_raw
alloc_raw-Given a si b v e = elim (Bool-cases (length a.checkpoint_stack == 0)) [
  | inl idle ↦
      let z = (==_iff (length a.checkpoint_stack) 0).0 idle in
      Given-allocated a (first_free num_slabs 0 0 a.protected a.slabs) si b v
        (λ t slabs f.
          let f' : first_free num_slabs 0 0 [] a.slabs ≡ some (t, slabs) =
            ap (λ p. first_free num_slabs 0 0 p a.slabs) (sym (v.idle z)) ∙ f in
          (
            first_free-Found num_slabs 0 0 a.slabs t slabs v.counted (omega arith) (omega arith) f',
            λ l. absurd (omega arith),
          ))
        (rw idle at e)
  | inr busy ↦
      Given-allocated a (allocate_append_only_raw a.protected a.slabs) si b v
        (λ t slabs f. let g = append-Found a t slabs v f in (g.0, λ l. g.1)) (rw busy at e)
]
