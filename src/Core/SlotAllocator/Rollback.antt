-- ===== src/Core/SlotAllocator/Rollback.antt =====
-- A rollback over allocations gives every slot its references of before (core/alloc.h).
use agentc.Core.Reader.{SlabId}
use agentc.Core.BlobAllocator.{null_id}
use agentc.Core.SlotAllocator.{
  Slab, Slabs, Allocator, use_of, refs, sid_eq, current_high_watermark, alloc_raw, alloc_times,
}
use agentc.Core.SlotAllocator.Watermark.{IsAbove, refs_above, watermark_used}
use agentc.Core.SlotAllocator.Fresh.{IsValid, Given, refs_same, alloc_raw-Given}
use agentc.Core.SlotAllocator.Transactions.{
  Checkpoint, checkpoint, is_current, emptied, first_emptied, reset_above, strict_reset, ended,
  popped, pop_back, top_flag, undone, rollback,
}
use agentc.Prelude.{
  ℕ, zero, suc, ◌+◌, ◌<◌, ◌≡◌, refl, sym, ap, ◌∙◌, ◌⊎◌, inl, inr, Bool, true, false, List, ◌∷◌,
  Option, none, some, length, ltb, ◌==◌, if◌then◌else◌, arith, Option-cases, subst, take, if_cases,
}

IsAbove-cases : (mark t : SlabId) → IsAbove mark t ⊎ ¬ IsAbove mark t
IsAbove-cases mark t = ground arith

IsAbove-trans : (a b c : SlabId) → ¬ IsAbove b a → IsAbove b c → IsAbove a c
IsAbove-trans a b c h k = ground arith

IsAbove-null : (m t : SlabId) → IsAbove m t → IsAbove null_id t
IsAbove-null m t h = ground arith

-- What allocations under a checkpoint with this watermark leave.
record Grown (mark : SlabId) (a b : Allocator) : Type 0 where
  pub kept : (t : SlabId) → ¬ IsAbove mark t → refs b.slabs t ≡ refs a.slabs t
  pub valid : IsValid b
  pub stack : b.checkpoint_stack ≡ a.checkpoint_stack
  pub flags : b.checkpoint_append_only ≡ a.checkpoint_append_only

-- The watermark is still used, or null, so that the slots given later lie above it.
abbrev IsHeld : SlabId → Allocator → Type 0
IsHeld mark a = (mark ≡ null_id) ⊎ (0 < refs a.slabs mark)

Given-IsAbove :
    (mark : SlabId) (a : Allocator) (si : SlabId) (b : Allocator)
    → IsHeld mark a
    → 0 < length a.checkpoint_stack
    → Given a si b
    → IsAbove mark si
Given-IsAbove mark a si b (inl z) l g =
    rw z (IsAbove-null (current_high_watermark a.slabs) si (g.above l))
Given-IsAbove mark a si b (inr u) l g =
    IsAbove-trans mark (current_high_watermark a.slabs) si
      (λ k. let z = refs_above a.slabs mark k in omega arith) (g.above l)

sid_eq-IsAbove : (mark t si : SlabId) → ¬ IsAbove mark t → IsAbove mark si → sid_eq t si ≡ false
sid_eq-IsAbove mark t si h k = ground arith

IsAbove-irreflexive : (mark : SlabId) → ¬ IsAbove mark mark
IsAbove-irreflexive mark h = ground arith

alloc_times-Grown :
    (n : ℕ) (mark : SlabId) (a b : Allocator)
    → IsValid a
    → IsHeld mark a
    → 0 < length a.checkpoint_stack
    → alloc_times n a ≡ some b
    → Grown mark a b
unfolding alloc_times
alloc_times-Grown zero mark a b v held l e =
    let p : a ≡ b = cc in
    subst (λ c. Grown mark a c) p
      (record { kept = λ t h. refl; valid = v; stack = refl; flags = refl })
alloc_times-Grown (suc n) mark a b v held l e = elim (Option-cases (alloc_raw a)) [
  | inl none' ↦ absurd (let no : none ≡ some b = rw (alloc_times, none') at e in cc)
  | inr ((si, c), found) ↦
      let g = alloc_raw-Given a si c v found in
      let e' : alloc_times n c ≡ some b = rw (alloc_times, found) at e in
      let up = Given-IsAbove mark a si c held l g in
      let same = λ (t : SlabId) (h : ¬ IsAbove mark t). g.other t (sid_eq-IsAbove mark t si h up) in
      let held' : IsHeld mark c = elim held [
        | inl z ↦ inl z
        | inr u ↦ inr (rw (same mark (IsAbove-irreflexive mark)) u)
      ] in
      let r = alloc_times-Grown n mark c b g.valid held' (rw g.stack l) e' in
      record {
        kept = λ t h. r.kept t h ∙ same t h;
        valid = r.valid;
        stack = r.stack ∙ g.stack;
        flags = r.flags ∙ g.flags;
      }
]

use_of-emptied : (s : Option Slab) (o : ℕ) → use_of (emptied s) o ≡ 0
use_of-emptied none o = refl
use_of-emptied (some s) o = refl

use_of-first_emptied :
    (s : Option Slab) (o : ℕ) → use_of (first_emptied s) o ≡ (if ltb o 1 then use_of s o else 0)
use_of-first_emptied none o = ground arith
use_of-first_emptied (some s) o = refl

use_of-reset_above :
    (m : ℕ) (s : Option Slab) (o : ℕ)
    → use_of (reset_above m s) o ≡ (if ltb o (m + 1) then use_of s o else 0)
use_of-reset_above m none o = ground arith
use_of-reset_above m (some s) o = refl

refs_zero : (slabs : Slabs) (t : SlabId) → use_of (slabs t.index) t.offset ≡ 0 → refs slabs t ≡ 0
unfolding refs
refs_zero slabs t h = ground (arith, h)

-- The reset clears the slots above the watermark and no others.
reset_clears :
    (mark : SlabId) (slabs : Slabs) (t : SlabId)
    → IsAbove mark t
    → use_of (strict_reset mark slabs t.index) t.offset ≡ 0
unfolding strict_reset
reset_clears mark slabs t h = ground (
  arith,
  use_of-emptied (slabs t.index) t.offset,
  use_of-first_emptied (slabs t.index) t.offset,
  use_of-reset_above mark.offset (slabs t.index) t.offset,
)

reset_keeps :
    (mark : SlabId) (slabs : Slabs) (t : SlabId)
    → ¬ IsAbove mark t
    → use_of (strict_reset mark slabs t.index) t.offset ≡ use_of (slabs t.index) t.offset
unfolding strict_reset
reset_keeps mark slabs t h = ground (
  arith,
  use_of-emptied (slabs t.index) t.offset,
  use_of-first_emptied (slabs t.index) t.offset,
  use_of-reset_above mark.offset (slabs t.index) t.offset,
)

-- What a rollback leaves: it succeeds, every slot has its references of before, and the checkpoint is
-- gone.
pub record Undone (before : Allocator) (result : Bool × Allocator) : Type 0 where
  pub done : result.0 ≡ true
  pub restored : (t : SlabId) → refs result.1.slabs t ≡ refs before.slabs t
  pub stack : result.1.checkpoint_stack ≡ before.checkpoint_stack

ended_slabs : (a : Allocator) → (ended a).slabs ≡ a.slabs
ended_slabs a =
    if_cases (λ b. b.slabs ≡ a.slabs) (length a.checkpoint_stack == 0) _ a (λ _. refl) (λ _. refl)

ended_stack : (a : Allocator) → (ended a).checkpoint_stack ≡ a.checkpoint_stack
ended_stack a =
    if_cases (λ b. b.checkpoint_stack ≡ a.checkpoint_stack) (length a.checkpoint_stack == 0) _ a
      (λ _. refl) (λ _. refl)

reset_restores :
    (mark : SlabId) (a b : Allocator)
    → ((t : SlabId) → IsAbove mark t → refs a.slabs t ≡ 0)
    → ((t : SlabId) → ¬ IsAbove mark t → refs b.slabs t ≡ refs a.slabs t)
    → (t : SlabId) → refs (strict_reset mark b.slabs) t ≡ refs a.slabs t
reset_restores mark a b free kept t = elim (IsAbove-cases mark t) [
  | inl up ↦
      refs_zero (strict_reset mark b.slabs) t (reset_clears mark b.slabs t up) ∙ sym (free t up)
  | inr low ↦
      refs_same b.slabs (strict_reset mark b.slabs) t (reset_keeps mark b.slabs t low) ∙ kept t low
]

undone_slabs :
    (cp : Checkpoint) (b : Allocator)
    → top_flag b.checkpoint_append_only ≡ true
    → (undone cp b).slabs ≡ strict_reset cp.watermark b.slabs
undone_slabs cp b h = rw h refl

undone_stack :
    (cp : Checkpoint) (b : Allocator)
    → top_flag b.checkpoint_append_only ≡ true
    → (undone cp b).checkpoint_stack ≡ b.checkpoint_stack
undone_stack cp b h = rw h refl

finish_rollback :
    (a u : Allocator) (n : ℕ) (log : List SlabId)
    → ((t : SlabId) → refs u.slabs t ≡ refs a.slabs t)
    → u.checkpoint_stack ≡ n ∷ a.checkpoint_stack
    → Undone a (true, ended (popped (record u { allocation_log = log })))
finish_rollback a u n log r st =
    let last = popped (record u { allocation_log = log }) in
    record {
      done = refl;
      restored = λ t. ap (λ s. refs s t) (ended_slabs last) ∙ r t;
      stack = ended_stack last ∙ ap pop_back st;
    }

rollback_lem :
    (cp : Checkpoint) (a b : Allocator)
    → cp.valid ≡ true
    → cp.depth ≡ suc (length a.checkpoint_stack)
    → b.checkpoint_stack ≡ cp.log_start ∷ a.checkpoint_stack
    → b.checkpoint_append_only ≡ true ∷ a.checkpoint_append_only
    → ((t : SlabId) → refs (strict_reset cp.watermark b.slabs) t ≡ refs a.slabs t)
    → Undone a (rollback cp b)
unfolding rollback
rollback_lem cp a b v d st fl r =
    let current : is_current cp b ≡ true = rw (v, st) (ground arith) in
    let top : top_flag b.checkpoint_append_only ≡ true = rw fl refl in
    rw (rollback, current)
      (finish_rollback a (undone cp b) cp.log_start (take cp.log_start (undone cp b).allocation_log)
        (λ t. ap (λ s. refs s t) (undone_slabs cp b top) ∙ r t) (undone_stack cp b top ∙ st))

-- A checkpoint, any number of allocations and the rollback to it give every slot the references that it
-- had before the checkpoint.
pub rollback-Undone :
    (a b : Allocator) (n : ℕ)
    → IsValid a
    → alloc_times n (checkpoint a).1 ≡ some b
    → Undone a (rollback (checkpoint a).0 b)
unfolding checkpoint
rollback-Undone a b n v e =
    let mark = current_high_watermark a.slabs in
    let started = (checkpoint a).1 in
    let v' : IsValid started = record { counted = v.counted; idle = λ z. absurd (omega arith) } in
    let g =
      alloc_times-Grown n mark started b v'
        (elim (watermark_used a.slabs) [ inl z ↦ inl z | inr u ↦ inr u.2 ]) (omega arith) e in
    rollback_lem (checkpoint a).0 a b refl refl g.stack g.flags
      (reset_restores mark a b (λ t up. refs_above a.slabs t up) g.kept)
