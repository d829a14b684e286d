-- ===== src/Core/SlotAllocator/Transactions.antt =====
-- Checkpoints of Allocator<T>, their rollback and commit, and the release of a slot (core/alloc.h).
use agentc.Core.Reader.{SlabId}
use agentc.Core.BlobAllocator.{is_id}
use agentc.Core.SlotAllocator.{Slab, Slabs, Allocator, put, refs, owned, current_high_watermark}
use agentc.Prelude.{
  ℕ, zero, suc, ◌+◌, ◌-◌, ◌%◌, ◌^◌, Bool, true, false, not, ◌&&◌, List, [], ◌∷◌, Option, none, some,
  length, ltb, ◌==◌, if◌then◌else◌, take,
}

pub record Checkpoint : Type 0 where
  pub log_start : ℕ
  pub depth : ℕ
  pub valid : Bool
  pub watermark : SlabId

-- The top of a stack is its first entry.
unfoldable pub checkpoint : Allocator → Checkpoint × Allocator
checkpoint a =
    let mark = current_high_watermark a.slabs in
    let stack = length a.allocation_log ∷ a.checkpoint_stack in
    (
      record {
        log_start = length a.allocation_log;
        depth = length stack;
        valid = true;
        watermark = mark;
      },
      record a {
        checkpoint_stack = stack;
        checkpoint_watermarks = mark ∷ a.checkpoint_watermarks;
        checkpoint_append_only = true ∷ a.checkpoint_append_only;
        used_fast_path = false;
        used_strict_fast_path = false;
      },
    )

abbrev pub pop_back {ℓ} : {A : Type ℓ} → List A → List A
pop_back [] = []
pop_back (a ∷ more) = more

-- the entry on top, against what the checkpoint says of it
abbrev pub top_is : ℕ → List ℕ → Bool
top_is n [] = false
top_is n (m ∷ more) = n == m

abbrev pub top_flag : List Bool → Bool
top_flag [] = false
top_flag (b ∷ more) = b

abbrev pub is_current : Checkpoint → Allocator → Bool
is_current cp a =
    cp.valid && (cp.depth == length a.checkpoint_stack) && top_is cp.log_start a.checkpoint_stack

-- `invalidateCheckpointFastPath`
abbrev pub all_false : List Bool → List Bool
all_false [] = []
all_false (b ∷ more) = false ∷ all_false more

abbrev pub zero_from : ℕ → Slab → ℕ → ℕ
zero_from start slab o = if ltb o start then slab.in_use o else 0

abbrev pub emptied : Option Slab → Option Slab
emptied none = none
emptied (some slab) = some (record { count = 0; in_use = λ _. 0 })

-- slab 0 without a watermark
abbrev pub first_emptied : Option Slab → Option Slab
first_emptied none = none
first_emptied (some slab) =
    some (record { count = if ltb 0 (slab.in_use 0) then 1 else 0; in_use = zero_from 1 slab })

abbrev pub reset_above : ℕ → Option Slab → Option Slab
reset_above o none = none
reset_above o (some slab) = some (record { count = o + 1; in_use = zero_from (o + 1) slab })

-- `rollbackStrictAppendOnlyFromWatermark`
unfoldable pub strict_reset : SlabId → Slabs → Slabs
strict_reset mark slabs i =
    if ltb mark.index i
    then emptied (slabs i)
    else if not (is_id mark) && (i == 0)
    then first_emptied (slabs i)
    else if is_id mark && (i == mark.index)
    then reset_above mark.offset (slabs i)
    else slabs i

unfoldable pub drop_reference : ℕ → (ℕ → ℕ) → ℕ → ℕ
drop_reference o in_use j = if j == o then in_use j - 1 else in_use j

-- `--count` of a `size_t`
abbrev pub less_one : ℕ → ℕ
less_one n = (n + (2 ^ 64 - 1)) % 2 ^ 64

abbrev pub protect : SlabId → Allocator → Allocator
protect si a = if length a.checkpoint_stack == 0 then a else record a {
  protected = si ∷ a.protected;
  checkpoint_append_only = all_false a.checkpoint_append_only;
}

-- a slot's last reference is gone: the slab loses one, and goes with its last slot
abbrev pub freed : SlabId → Slab → Allocator → Bool × Allocator
freed si slab a =
    let a = protect si a in
    if less_one slab.count == 0
    then (true, record a { slabs = λ j. if j == si.index then none else a.slabs j })
    else (
      false,
      record a { slabs = put si.index (record slab { count = less_one slab.count }) a.slabs },
    )

unfoldable pub deallocate : SlabId → Allocator → Bool × Allocator
unfolding refs drop_reference
deallocate si a =
    if is_id si && ltb 0 (refs a.slabs si)
    then (let slab = owned (a.slabs si.index) in
        let less = record slab { in_use = drop_reference si.offset slab.in_use } in
        if less.in_use si.offset == 0
        then freed si less a
        else (false, record a { slabs = put si.index less a.slabs }))
    else (false, a)

-- `rollbackAllocation`
unfoldable pub rollback_allocation : SlabId → Allocator → Allocator
unfolding deallocate
rollback_allocation si a =
    if refs a.slabs si == 0
    then a
    else (let slab = owned (a.slabs si.index) in
        let one = λ (j : ℕ). if j == si.offset then 1 else slab.in_use j in
        (deallocate si
          (record a { slabs = put si.index (record slab { in_use = one }) a.slabs })).1)

-- the log from its end, down to where the checkpoint found it
abbrev pub rollback_each : List SlabId → Allocator → Allocator
rollback_each [] a = a
rollback_each (si ∷ log) a = rollback_allocation si (rollback_each log a)

abbrev drop_log : ℕ → List SlabId → List SlabId
drop_log zero log = log
drop_log (suc n) [] = []
drop_log (suc n) (si ∷ log) = drop_log n log

abbrev pub ended : Allocator → Allocator
ended a =
    if length a.checkpoint_stack == 0 then record a { allocation_log = []; protected = [] } else a

abbrev pub popped : Allocator → Allocator
popped a = record a {
  checkpoint_stack = pop_back a.checkpoint_stack;
  checkpoint_watermarks = pop_back a.checkpoint_watermarks;
  checkpoint_append_only = pop_back a.checkpoint_append_only;
}

unfoldable pub commit : Checkpoint → Allocator → Bool × Allocator
commit cp a =
    if is_current cp a
    then (true, record (ended (popped a)) { used_strict_fast_path = false })
    else (false, a)

-- The state that the two ways of undoing leave, before the checkpoint is taken off.
abbrev pub undone : Checkpoint → Allocator → Allocator
undone cp a =
    if top_flag a.checkpoint_append_only
    then record a {
      slabs = strict_reset cp.watermark a.slabs;
      used_fast_path = true;
      used_strict_fast_path = true;
    }
    else rollback_each (drop_log cp.log_start a.allocation_log)
        (record a { used_fast_path = false; used_strict_fast_path = false })

unfoldable pub rollback : Checkpoint → Allocator → Bool × Allocator
unfolding strict_reset rollback_allocation
rollback cp a =
    if is_current cp a
    then (let u = undone cp a in
        (true, ended (popped (record u { allocation_log = take cp.log_start u.allocation_log }))))
    else (false, a)
