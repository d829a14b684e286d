-- ===== src/Core/SlotAllocator.antt =====
-- Allocator<T> on the heap (core/alloc.h), for a type T with a trivial destructor, so that a slot is its
-- count of references, and with no slot marked static immortal. A throw of bad_alloc is `none`.
pub mod Watermark
pub mod Fresh
pub mod Progress
pub mod Transactions
pub mod Rollback
use agentc.Core.Reader.{SlabId}
use agentc.Core.BlobAllocator.{num_slabs, null_id, is_id}
use agentc.Prelude.{
  ℕ, zero, suc, ◌+◌, ◌-◌, Bool, true, false, not, ◌&&◌, ◌||◌, List, [], ◌∷◌, ◌++◌, Option, none,
  some, length, ltb, ◌==◌, if◌then◌else◌, take,
}

abbrev pub slab_size : ℕ
slab_size = 1024

pub record Slab : Type 0 where
  pub count : ℕ
  pub in_use : ℕ → ℕ

abbrev pub Slabs : Type 0
Slabs = ℕ → Option Slab

pub record Allocator : Type 0 where
  pub slabs : Slabs
  pub allocation_log : List SlabId
  pub checkpoint_stack : List ℕ
  pub checkpoint_watermarks : List SlabId
  pub checkpoint_append_only : List Bool
  pub protected : List SlabId
  pub used_fast_path : Bool
  pub used_strict_fast_path : Bool

-- `new Slab()`: the counts are zeros
abbrev pub new_slab : Slab
new_slab = record { count = 0; in_use = λ _. 0 }

abbrev pub put : ℕ → Slab → Slabs → Slabs
put i slab slabs j = if j == i then some slab else slabs j

abbrev pub sid : ℕ → ℕ → SlabId
sid i o = record { index = i; offset = o }

abbrev pub use_of : Option Slab → ℕ → ℕ
use_of none o = 0
use_of (some slab) o = slab.in_use o

unfoldable pub refs : Slabs → SlabId → ℕ
refs slabs si =
    if ltb si.index num_slabs && ltb si.offset slab_size
    then use_of (slabs si.index) si.offset
    else 0

abbrev pub sid_eq : SlabId → SlabId → Bool
sid_eq a b = (a.index == b.index) && (a.offset == b.offset)

abbrev pub mem : SlabId → List SlabId → Bool
mem si [] = false
mem si (s ∷ more) = sid_eq s si || mem si more

-- The inner loop of `currentHighWatermark`: the highest used offset below `n`.
unfoldable pub top_offset : ℕ → (ℕ → ℕ) → Option ℕ
top_offset zero in_use = none
top_offset (suc o) in_use =
    let rest = top_offset o in_use in if ltb 0 (in_use o) then some o else rest

abbrev pub top_of : Option Slab → Option ℕ
top_of none = none
top_of (some slab) = top_offset slab_size slab.in_use

abbrev pub or_lower : ℕ → Option ℕ → SlabId → SlabId
or_lower i none lower = lower
or_lower i (some o) lower = sid i o

-- the slabs below `n`, from the highest
unfoldable pub high_watermark : ℕ → Slabs → SlabId
unfolding top_offset
high_watermark zero slabs = null_id
high_watermark (suc i) slabs = or_lower i (top_of (slabs i)) (high_watermark i slabs)

unfoldable pub current_high_watermark : Slabs → SlabId
unfolding high_watermark
current_high_watermark slabs = high_watermark num_slabs slabs

-- The first slot from offset `o` that is free and not protected, with `n` offsets to come. The append
-- only search passes over 0:0.
unfoldable pub free_offset : Bool → ℕ → ℕ → ℕ → (ℕ → ℕ) → List SlabId → Option ℕ
free_offset skip_null zero o i in_use protected = none
free_offset skip_null (suc n) o i in_use protected =
    let rest = free_offset skip_null n (suc o) i in_use protected in
    if (skip_null && not (is_id (sid i o))) || (not (in_use o == 0)) || mem (sid i o) protected
    then rest
    else some o

abbrev pub owned : Option Slab → Slab
owned none = new_slab
owned (some slab) = slab

abbrev pub start_offset : SlabId → ℕ → ℕ
start_offset mark i =
    if is_id mark && (i == mark.index)
    then mark.offset + 1
    else if not (is_id mark) && (i == 0)
    then 1
    else 0

abbrev placed_or : ℕ → Slabs → Option ℕ → Option (SlabId × Slabs) → Option (SlabId × Slabs)
placed_or i slabs none rest = rest
placed_or i slabs (some o) rest = some (sid i o, slabs)

-- the loop of `allocateAppendOnlyRaw`, with `n` slabs to come
unfoldable pub append_only : ℕ → ℕ → SlabId → List SlabId → Slabs → Option (SlabId × Slabs)
unfolding free_offset
append_only zero i mark protected slabs = none
append_only (suc n) i mark protected slabs =
    let slab = owned (slabs i) in
    let next = put i slab slabs in
    let o = start_offset mark i in
    placed_or i next (free_offset true (slab_size - o) o i slab.in_use protected)
      (append_only n (suc i) mark protected next)

unfoldable pub allocate_append_only_raw : List SlabId → Slabs → Option (SlabId × Slabs)
unfolding append_only current_high_watermark
allocate_append_only_raw protected slabs =
    let mark = current_high_watermark slabs in
    append_only (num_slabs - mark.index) mark.index mark protected slabs

-- The search of `allocRaw`. `second` is what the inner loop left: a slab that is not full and has no
-- free slot leaves the end, 1024.
unfoldable pub first_free : ℕ → ℕ → ℕ → List SlabId → Slabs → Option (SlabId × Slabs)
unfolding free_offset
first_free zero i second protected slabs = none
first_free (suc n) i second protected slabs =
    let after_full = first_free n (suc i) 0 protected slabs in
    let after_used = first_free n (suc i) slab_size protected slabs in
    elim (slabs i) [
      | none ↦ some (sid i second, put i new_slab slabs)
      | some slab ↦
          if ltb slab.count slab_size
          then placed_or i slabs (free_offset false slab_size 0 i slab.in_use protected) after_used
          else after_full
    ]

-- `modrefs(si)`, of one reference, and only where there is such a slot
abbrev pub retain_in : ℕ → Slab → Slab
retain_in o slab = record slab {
  in_use = λ j. if (j == o) && ltb o slab_size then slab.in_use j + 1 else slab.in_use j;
}

abbrev pub counted : Slab → Slab
counted slab = record slab { count = slab.count + 1 }

abbrev pub logged : SlabId → Allocator → Allocator
logged si a =
    if length a.checkpoint_stack == 0
    then a
    else record a { allocation_log = a.allocation_log ++ si ∷ [] }

-- the end of `allocRaw`, behind the label `allocated`
abbrev pub allocated : Allocator → Option (SlabId × Slabs) → Option (SlabId × Allocator)
allocated a none = none
allocated a (some (si, slabs)) = some (
  si,
  logged si (record a {
    slabs = put si.index (retain_in si.offset (counted (owned (slabs si.index)))) slabs;
  }),
)

unfoldable pub alloc_raw : Allocator → Option (SlabId × Allocator)
unfolding allocate_append_only_raw first_free
alloc_raw a = allocated a (
    if length a.checkpoint_stack == 0
    then first_free num_slabs 0 0 a.protected a.slabs
    else allocate_append_only_raw a.protected a.slabs)

-- one allocation after the other, as long as there is room
unfoldable pub alloc_times : ℕ → Allocator → Option Allocator
alloc_times zero a = some a
alloc_times (suc n) a = elim (alloc_raw a) [ none ↦ none | some (si, b) ↦ alloc_times n b ]
