-- ===== src/Core/SlotTests.antt =====
-- Runs of the slot allocator at concrete inputs.
use agentc.Core.SlotAllocator.{
  Allocator, sid, put, retain_in, counted, new_slab, first_free, alloc_raw, alloc_times,
}
use agentc.Core.SlotAllocator.Transactions.{checkpoint, rollback}
use agentc.Core.SlotAllocator.Fresh.{IsValid, Given, alloc_raw-Given}
use agentc.Core.SlotAllocator.Progress.{alloc_raw-gives}
use agentc.Core.SlotAllocator.Rollback.{Undone, rollback-Undone}
use agentc.Prelude.{◌≡◌, ◌≢◌, refl, false, [], Option, none, some, arith}

abbrev pub no_slots : Allocator
no_slots = record {
  slabs = λ _. none;
  allocation_log = [];
  checkpoint_stack = [];
  checkpoint_watermarks = [];
  checkpoint_append_only = [];
  protected = [];
  used_fast_path = false;
  used_strict_fast_path = false;
}

no_slots-IsValid : IsValid no_slots
no_slots-IsValid = record {
  counted = record { counts = λ i s e. absurd cc; limited = λ i s e. absurd cc };
  idle = λ z. refl;
}

-- The first slot, 0:0, is the sentinel.
abbrev pub sentinel : Allocator
sentinel = record no_slots {
  slabs = put 0 (retain_in 0 (counted new_slab)) (put 0 new_slab no_slots.slabs);
}

first_alloc : alloc_raw no_slots ≡ some (sid 0 0, sentinel)
unfolding alloc_raw first_free
first_alloc = refl

alloc_raw-Given_example : Given no_slots (sid 0 0) sentinel
alloc_raw-Given_example = alloc_raw-Given no_slots (sid 0 0) sentinel no_slots-IsValid first_alloc

pub sentinel-IsValid : IsValid sentinel
sentinel-IsValid = alloc_raw-Given_example.valid

alloc_raw-gives_example : alloc_raw sentinel ≢ none
alloc_raw-gives_example = alloc_raw-gives sentinel 1 refl (omega arith) refl

abbrev pub got : Allocator → Option Allocator → Allocator
got a none = a
got a (some b) = b

-- Two slots above the sentinel.
pub two_more : Allocator
unfolding alloc_times
two_more = got no_slots (alloc_times 2 (checkpoint sentinel).1)

pub two_allocs : alloc_times 2 (checkpoint sentinel).1 ≡ some two_more
unfolding two_more alloc_times alloc_raw checkpoint
two_allocs = refl

rollback-Undone_example : Undone sentinel (rollback (checkpoint sentinel).0 two_more)
rollback-Undone_example = rollback-Undone sentinel two_more 2 sentinel-IsValid two_allocs
