-- ===== src/Root1/Await/Polled.antt =====
-- The polls of the scheduler (edict/root1_await_scheduler.cpp) and its index of parked continuations.
use agentc.Root1.Descriptor.{MailboxDescriptor}
use agentc.Root1.Broker.{Broker, mem}
use agentc.Root1.Messages.{drain_mailbox_descriptors}
use agentc.Root1.Polling.{poll_ready_participants}
use agentc.Root1.Await.{
  ParkedContinuation, Scheduler, PollResult, is_parked, handles_of, counted, new_result,
  parked_handles, given, deliver_found, deliver, wake_with, wake_one, wake, poll_and_resume,
}
use agentc.Root1.Await.Indexed.{IsIndexed, is_parked_at, waits, time_out-IsIndexed}
use agentc.Prelude.{
  ℕ, ◌≤◌, ◌≡◌, refl, sym, ap, ◌∙◌, true, false, ◌&&◌, List, [], ◌∷◌, Option, none, some, ltb, ◌==◌,
  length, nat_eq, lookup, insert, erase, lookup-insert, lookup-erase, arith, inl, inr, Bool-cases,
  Option-cases,
}

-- The handles `hs` of one participant are still to be given what it received, and are out of the index.
record Pending (p : ℕ) (hs : List ℕ) (s : Scheduler) : Type 0 where
  pub others :
      (h q : ℕ) → (p == q) ≡ false → mem h (handles_of q s) ≡ waits q (lookup h s.continuations)
  pub own : (h : ℕ) → waits p (lookup h s.continuations) ≡ true → mem h hs ≡ true
  pub mine :
      (h : ℕ) (c : ParkedContinuation)
      → mem h hs ≡ true
      → lookup h s.continuations ≡ some c
      → is_parked c.state ≡ true
      → c.participant ≡ p
  pub cleared : handles_of p s ≡ []
  pub fresh : (h : ℕ) → s.next_id ≤ h → lookup h s.continuations ≡ none

given-parked :
    (ds : List MailboxDescriptor) (c : ParkedContinuation) → is_parked (given ds c).state ≡ false
given-parked ds c = elim (Option-cases c.resume) [ inl n ↦ rw n refl | inr (f, e) ↦ rw e refl ]

own-inserted :
    (p h : ℕ) (hs : List ℕ) (ds : List MailboxDescriptor) (c d : ParkedContinuation) (s : Scheduler)
    → Pending p (h ∷ hs) s
    → is_parked (given ds c).state ≡ false
    → (k : ℕ) → mem k hs ≡ true
    → lookup k (insert h (given ds c) s.continuations) ≡ some d
    → is_parked d.state ≡ true
    → d.participant ≡ p
own-inserted p h hs ds c d s v idle k m l w =
    let stored = sym (lookup-insert h k (given ds c) s.continuations) ∙ l in
    elim (Bool-cases (h == k)) [
      | inl same ↦
          (let found : some (given ds c) ≡ some d = rw (same) at stored in
            let state : is_parked (given ds c).state ≡ is_parked d.state = ap is_parked_at found in
            ground (arith, state, idle, w))
      | inr apart ↦
          (let found : lookup k s.continuations ≡ some d = rw (apart) at stored in
            v.mine k d (ground (arith, m)) found w)
    ]

Pending-deliver_found :
    (p h : ℕ) (hs : List ℕ) (ds : List MailboxDescriptor) (s : Scheduler)
    (found : Option ParkedContinuation)
    → Pending p (h ∷ hs) s
    → lookup h s.continuations ≡ found
    → Pending p hs (deliver_found h ds s found)
Pending-deliver_found p h hs ds s none v e = record {
  others = v.others;
  own = λ k w. ground (arith, v.own k w, e);
  mine = λ k c m l w. v.mine k c (ground arith) l w;
  cleared = v.cleared;
  fresh = v.fresh;
}
Pending-deliver_found p h hs ds s (some c) v e = elim (Bool-cases (is_parked c.state)) [
  | inr idle ↦ rw idle (record {
    others = v.others;
    own = λ k w. ground (arith, v.own k w, e);
    mine = λ k d m l w. v.mine k d (ground arith) l w;
    cleared = v.cleared;
    fresh = v.fresh;
  })
  | inl waiting ↦
      let q = v.mine h c (ground arith) e waiting in
      let idle = given-parked ds c in
      rw waiting (record {
        others = λ k r n.
            ground
              (arith, v.others k r n, e, q, idle, lookup-insert h k (given ds c) s.continuations);
        own = λ k w. ground (arith, v.own k, idle, lookup-insert h k (given ds c) s.continuations);
        mine = λ k d m l w. own-inserted p h hs ds c d s v idle k m l w;
        cleared = v.cleared;
        fresh =
            λ k l. ground (arith, v.fresh k l, e, lookup-insert h k (given ds c) s.continuations);
      })
]

Pending-deliver :
    (p : ℕ) (hs : List ℕ) (ds : List MailboxDescriptor) (r : PollResult) (s : Scheduler)
    → Pending p hs s
    → Pending p [] (deliver hs ds r s).1
unfolding deliver
Pending-deliver p [] ds r s v = v
Pending-deliver p (h ∷ hs) ds r s v =
    Pending-deliver p hs ds (counted r (lookup h s.continuations))
      (deliver_found h ds s (lookup h s.continuations))
      (Pending-deliver_found p h hs ds s (lookup h s.continuations) v refl)

-- With no handle left to give to, the index is whole again.
IsIndexed-delivered : (p : ℕ) (s : Scheduler) → Pending p [] s → IsIndexed s
IsIndexed-delivered p s v = record {
  indexed = λ h q. elim (Bool-cases (p == q)) [
    | inr apart ↦ v.others h q apart
    | inl same ↦ ground (arith, v.own h, v.cleared, same)
  ];
  fresh = v.fresh;
}

waits-participant : (p : ℕ) (c : ParkedContinuation) → waits p (some c) ≡ true → c.participant ≡ p
waits-participant p c w = ground (arith, w)

Pending-start :
    (p : ℕ) (s : Scheduler)
    → IsIndexed s
    → Pending p (handles_of p s) (record s { by_participant = erase p s.by_participant })
Pending-start p s v = record {
  others = λ h q n. ground (arith, v.indexed h q, lookup-erase p q s.by_participant, n);
  own = λ h w. v.indexed h p ∙ w;
  mine = λ h c m l w. ground (arith, v.indexed h p, m, l, w);
  cleared = ground (arith, lookup-erase p p s.by_participant);
  fresh = v.fresh;
}

IsIndexed-wake_with :
    (p : ℕ) (ds : List MailboxDescriptor) (r : PollResult) (s : Scheduler)
    → IsIndexed s
    → IsIndexed (wake_with p ds r s).1
IsIndexed-wake_with p [] r s v = v
IsIndexed-wake_with p (d ∷ ds) r s v =
    let cleared : Scheduler = record s { by_participant = erase p s.by_participant } in
    IsIndexed-delivered p (deliver (handles_of p s) (d ∷ ds) r cleared).1
      (Pending-deliver p (handles_of p s) (d ∷ ds) r cleared (Pending-start p s v))

IsIndexed-wake_one :
    (p : ℕ) (hs : List ℕ) (r : PollResult) (b : Broker) (s : Scheduler)
    → IsIndexed s
    → IsIndexed (wake_one p hs r b s).2
IsIndexed-wake_one p [] r b s v = v
IsIndexed-wake_one p (h ∷ hs) r b s v =
    IsIndexed-wake_with p (drain_mailbox_descriptors p b).0 r s v

wake-IsIndexed :
    (ps : List ℕ) (r : PollResult) (b : Broker) (s : Scheduler)
    → IsIndexed s
    → IsIndexed (wake ps r b s).2
unfolding wake
wake-IsIndexed [] r b s v = v
wake-IsIndexed (p ∷ ps) r b s v =
    let woken = wake_one p (handles_of p s) r b s in
    wake-IsIndexed ps woken.0 woken.1 woken.2 (IsIndexed-wake_one p (handles_of p s) r b s v)

-- A poll, with a timeout or not, keeps the index of the parked continuations.
pub poll_and_resume-IsIndexed :
    (events : List ℕ) (timeout_ms : ℕ) (b : Broker) (s : Scheduler)
    → IsIndexed s
    → IsIndexed (poll_and_resume events timeout_ms b s).2
unfolding poll_and_resume
poll_and_resume-IsIndexed events timeout_ms b s v =
    let polled = poll_ready_participants events b in
    elim (Bool-cases ((length polled.0 == 0) && ltb 0 timeout_ms)) [
      | inl ended ↦ rw (ended) (time_out-IsIndexed (parked_handles s.continuations) s v)
      | inr woken ↦ rw (woken) (wake-IsIndexed polled.0 (new_result polled.0) polled.1 s v)
    ]

-- A participant that has received something leaves none of its continuations parked.
pub wake_with-none_parked :
    (p h : ℕ) (d : MailboxDescriptor) (ds : List MailboxDescriptor) (r : PollResult) (s : Scheduler)
    → IsIndexed s
    → waits p (lookup h (wake_with p (d ∷ ds) r s).1.continuations) ≡ false
wake_with-none_parked p h d ds r s v =
    let cleared : Scheduler = record s { by_participant = erase p s.by_participant } in
    let t : Scheduler = (deliver (handles_of p s) (d ∷ ds) r cleared).1 in
    let done : Pending p [] t =
      Pending-deliver p (handles_of p s) (d ∷ ds) r cleared (Pending-start p s v) in
    ground (arith, done.own h)
