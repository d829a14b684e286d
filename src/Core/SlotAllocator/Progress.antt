-- ===== src/Core/SlotAllocator/Progress.antt =====
-- An allocation without a checkpoint does not fail while a slab can be made (core/alloc.h).
use agentc.Core.Reader.{SlabId}
use agentc.Core.BlobAllocator.{num_slabs}
use agentc.Core.SlotAllocator.{
  slab_size, Slab, Slabs, sid, put, new_slab, Allocator, free_offset, first_free, allocated,
  alloc_raw,
}
use agentc.Prelude.{
  ℕ, zero, suc, ◌+◌, ◌<◌, ◌≤◌, ◌≡◌, ◌≢◌, refl, sym, ap, ◌∙◌, inl, inr, true, false, List, Option,
  none, some, length, ltb, ◌==◌, arith, Bool-cases, Option-cases, ==_iff,
}

some_ne : (p : SlabId × Slabs) → some p ≢ none
some_ne p e = cc

-- A slab that is missing is not the one at hand.
suc_le :
    (slabs : Slabs) (i k : ℕ) (slab : Slab)
    → slabs i ≡ some slab
    → slabs k ≡ none
    → i ≤ k
    → suc i ≤ k
suc_le slabs i k slab there gone h = elim (Bool-cases (i == k)) [
  | inl same ↦
      absurd (let no : some slab ≡ none = sym there ∙ ap slabs ((==_iff i k).0 same) ∙ gone in cc)
  | inr other ↦ ground arith
]

allocated-none :
    (a : Allocator) (found : Option (SlabId × Slabs)) → allocated a found ≡ none → found ≡ none
allocated-none a none e = refl
allocated-none a (some p) e = absurd cc

first_free-gives :
    (n i second k : ℕ) (protected : List SlabId) (slabs : Slabs)
    → i ≤ k
    → k < i + n
    → slabs k ≡ none
    → first_free n i second protected slabs ≢ none
unfolding first_free
first_free-gives zero i second k protected slabs h l e f = omega arith
first_free-gives (suc n) i second k protected slabs h l e f = elim (Option-cases (slabs i)) [
  | inl gone ↦ some_ne (sid i second, put i new_slab slabs) (rw (first_free, gone) at f)
  | inr (slab, there) ↦
      let next = λ (x : ℕ).
        first_free-gives n (suc i) x k protected slabs (suc_le slabs i k slab there e h)
          (omega arith) e in
      elim (Bool-cases (ltb slab.count slab_size)) [
        | inr full ↦ next 0 (rw (first_free, there, full) at f)
        | inl room ↦ elim (Option-cases (free_offset false slab_size 0 i slab.in_use protected)) [
          | inl none' ↦ next slab_size (rw (first_free, there, room, none') at f)
          | inr (x, found) ↦ some_ne (sid i x, slabs) (rw (first_free, there, room, found) at f)
        ]
      ]
]

-- With no checkpoint open and a slab not yet made, `allocRaw` gives a slot.
pub alloc_raw-gives :
    (a : Allocator) (k : ℕ)
    → length a.checkpoint_stack ≡ 0
    → k < 4096
    → a.slabs k ≡ none
    → alloc_raw a ≢ none
unfolding alloc_raw
alloc_raw-gives a k idle l e f =
    let idle' : (length a.checkpoint_stack == 0) ≡ true = (==_iff _ 0).1 idle in
    let f' : allocated a (first_free num_slabs 0 0 a.protected a.slabs) ≡ none = rw idle' at f in
    first_free-gives num_slabs 0 0 k a.protected a.slabs (omega arith) (omega arith) e
      (allocated-none a _ f')
