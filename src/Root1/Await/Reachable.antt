-- ===== src/Root1/Await/Reachable.antt =====
-- Root1AwaitScheduler (edict/root1_await_scheduler.cpp) as a transition system: park, cancel, drop and
-- pollAndResume in any order, with any broker and any events at a poll. loadState, which starts a
-- scheduler from a saved state, is not among the steps.
use agentc.Root1.Descriptor.{MailboxDescriptor}
use agentc.Root1.Broker.{Broker}
use agentc.Root1.Await.{Scheduler, cancelled, new_scheduler, park, cancel, drop, poll_and_resume}
use agentc.Root1.Await.Indexed.{IsIndexed, park-IsIndexed, drop-IsIndexed, mark_terminal-IsIndexed}
use agentc.Root1.Await.Polled.{poll_and_resume-IsIndexed}
use agentc.Prelude.{ℕ, ◌+◌, ◌^◌, ◌<◌, ◌≡◌, refl, sym, subst, List, Option, lookup}

pub data Reachable : Scheduler → Type 0 where
  initial : {s : Scheduler} → s ≡ new_scheduler → Reachable s
  parks :
      {s t : Scheduler} (participant : ℕ) (resume : Option (List MailboxDescriptor → ℕ))
      → Reachable s
      → s.next_id + 1 < 2 ^ 64
      → t ≡ (park participant resume s).1
      → Reachable t
  cancels : {s t : Scheduler} (h : ℕ) → Reachable s → t ≡ (cancel h s).1 → Reachable t
  drops : {s t : Scheduler} (h : ℕ) → Reachable s → t ≡ (drop h s).1 → Reachable t
  polls :
      {s t : Scheduler} (events : List ℕ) (timeout_ms : ℕ) (b : Broker)
      → Reachable s
      → t ≡ (poll_and_resume events timeout_ms b s).2
      → Reachable t

pub new_scheduler-IsIndexed : IsIndexed new_scheduler
unfolding lookup
new_scheduler-IsIndexed = record { indexed = λ h p. refl; fresh = λ h l. refl }

cancel-IsIndexed : (h : ℕ) (s : Scheduler) → IsIndexed s → IsIndexed (cancel h s).1
unfolding cancel
cancel-IsIndexed h s v = mark_terminal-IsIndexed h cancelled s v refl

-- In every state that park, cancel, drop and pollAndResume lead to from a new scheduler, with handles
-- below 2^64, the index names exactly the continuations that are parked, each under its participant.
pub Reachable-IsIndexed : (s : Scheduler) → Reachable s → IsIndexed s
Reachable-IsIndexed s (initial q) = subst IsIndexed (sym q) new_scheduler-IsIndexed
Reachable-IsIndexed t (parks {s = s} participant resume r l q) =
    subst IsIndexed (sym q) (park-IsIndexed participant resume s l (Reachable-IsIndexed s r))
Reachable-IsIndexed t (cancels {s = s} h r q) =
    subst IsIndexed (sym q) (cancel-IsIndexed h s (Reachable-IsIndexed s r))
Reachable-IsIndexed t (drops {s = s} h r q) =
    subst IsIndexed (sym q) (drop-IsIndexed h s (Reachable-IsIndexed s r))
Reachable-IsIndexed t (polls {s = s} events timeout_ms b r q) =
    subst IsIndexed (sym q)
      (poll_and_resume-IsIndexed events timeout_ms b s (Reachable-IsIndexed s r))
