-- ===== src/Root1/Await/TimedOut.antt =====
-- Polls of the scheduler (edict/root1_await_scheduler.cpp) that end without a ready participant.
use agentc.Root1.Broker.{Broker, mem}
use agentc.Root1.Polling.{poll_ready_participants}
use agentc.Root1.Await.{
  timeout, ParkedContinuation, Scheduler, mark_found, mark_terminal, parked_handles, time_out,
  poll_and_resume,
}
use agentc.Root1.Await.Indexed.{is_parked_at}
use agentc.Prelude.{
  ℕ, ◌<◌, ◌≡◌, refl, true, false, not, ◌&&◌, List, [], ◌∷◌, Option, none, some, ◌==◌, Map, nat_eq,
  lookup, lookup-insert, arith,
}

mem-parked_handles :
    (h : ℕ) (m : Map ℕ ParkedContinuation)
    → is_parked_at (lookup h m) ≡ true
    → mem h (parked_handles m) ≡ true
unfolding lookup
mem-parked_handles h [] e = ground (arith, e)
mem-parked_handles h ((k, c) ∷ m) e = ground (arith, e, mem-parked_handles h m)

is_parked_at-mark_found :
    (h k : ℕ) (s : Scheduler) (found : Option ParkedContinuation)
    → lookup h s.continuations ≡ found
    → is_parked_at (lookup k (mark_found h timeout s found).1.continuations)
      ≡ not (h == k) && is_parked_at (lookup k s.continuations)
is_parked_at-mark_found h k s none e = ground (arith, e)
is_parked_at-mark_found h k s (some c) e =
    ground (arith, e, lookup-insert h k (record c { state = timeout }) s.continuations)

is_parked_at-time_out :
    (k : ℕ) (hs : List ℕ) (s : Scheduler)
    → is_parked_at (lookup k (time_out hs s).1.continuations)
      ≡ not (mem k hs) && is_parked_at (lookup k s.continuations)
unfolding time_out mark_terminal
is_parked_at-time_out k [] s = refl
is_parked_at-time_out k (h ∷ hs) s = ground (
  arith,
  is_parked_at-time_out k hs (mark_terminal h timeout s).1,
  is_parked_at-mark_found h k s (lookup h s.continuations) refl,
)

-- A poll with a timeout above 0 that finds no ready participant leaves no continuation parked.
pub poll_and_resume-none_parked :
    (events : List ℕ) (timeout_ms h : ℕ) (b : Broker) (s : Scheduler)
    → (poll_ready_participants events b).0 ≡ []
    → 0 < timeout_ms
    → is_parked_at (lookup h (poll_and_resume events timeout_ms b s).2.continuations) ≡ false
unfolding poll_and_resume
poll_and_resume-none_parked events timeout_ms h b s quiet l =
    let after = is_parked_at-time_out h (parked_handles s.continuations) s in
    ground (arith, quiet, l, after, mem-parked_handles h s.continuations)
