-- ===== src/Root1/AwaitTests.antt =====
-- Runs of the scheduler of continuations at concrete inputs.
use agentc.Root1.Descriptor.{new_descriptor}
use agentc.Root1.Broker.Reachable.{new_broker}
use agentc.Root1.Await.{
  Scheduler, new_scheduler, handles_of, park, drop, new_result, wake_with, poll_and_resume,
}
use agentc.Root1.Await.Indexed.{IsIndexed, waits, park-IsIndexed}
use agentc.Root1.Await.Polled.{wake_with-none_parked}
use agentc.Root1.Await.TimedOut.{poll_and_resume-none_parked}
use agentc.Root1.Await.Indexed.{is_parked_at}
use agentc.Root1.Polling.{poll_ready_participants}
use agentc.Root1.Await.Reachable.{Reachable, initial, parks, polls, drops, Reachable-IsIndexed}
use agentc.Prelude.{◌≡◌, refl, false, [], ◌∷◌, nat_eq, none, arith, lookup, insert}

new_scheduler-IsIndexed : IsIndexed new_scheduler
unfolding lookup
new_scheduler-IsIndexed = record { indexed = λ h p. refl; fresh = λ h l. refl }

-- one continuation waits for the participant 7
abbrev one_parked : Scheduler
one_parked = (park 7 none new_scheduler).1

one_parked-IsIndexed : IsIndexed one_parked
one_parked-IsIndexed = park-IsIndexed 7 none new_scheduler (omega arith) new_scheduler-IsIndexed

parked_handle : handles_of 7 one_parked ≡ 1 ∷ []
unfolding park lookup insert
parked_handle = refl

wake_with-none_parked_example :
    waits 7 (
      lookup ⦃e = nat_eq⦄ 1
        (wake_with 7 (new_descriptor ∷ []) (new_result (7 ∷ [])) one_parked).1.continuations)
    ≡ false
wake_with-none_parked_example =
    wake_with-none_parked 7 1 new_descriptor [] (new_result (7 ∷ [])) one_parked
      one_parked-IsIndexed

quiet : (poll_ready_participants [] new_broker).0 ≡ []
unfolding poll_ready_participants
quiet = refl

poll_and_resume-none_parked_example :
    is_parked_at
      (lookup ⦃e = nat_eq⦄ 1 (poll_and_resume [] 5 new_broker one_parked).2.continuations)
    ≡ false
poll_and_resume-none_parked_example =
    poll_and_resume-none_parked [] 5 1 new_broker one_parked quiet (omega arith)

-- one continuation is parked, a poll times out and the continuation is dropped
abbrev one_dropped : Scheduler
one_dropped = (drop 1 (poll_and_resume [] 5 new_broker one_parked).2).1

one_dropped-Reachable : Reachable one_dropped
one_dropped-Reachable =
    drops 1 (polls [] 5 new_broker (parks 7 none (initial refl) (omega arith) refl) refl) refl

Reachable-IsIndexed_example : IsIndexed one_dropped
Reachable-IsIndexed_example = Reachable-IsIndexed one_dropped one_dropped-Reachable
