-- ===== src/Root1/Await/Indexed.antt =====
-- The index of the scheduler (edict/root1_await_scheduler.h, byParticipant_), by which a poll finds the
-- continuations that wait.
use agentc.Root1.Descriptor.{MailboxDescriptor}
use agentc.Root1.Broker.{or_empty, mem}
use agentc.Root1.Await.{
  ContinuationState, timeout, ParkedContinuation, Scheduler, is_parked, handles_of, parked_at, park,
  without, put_handles, without_entry, remove_from_participant_index, mark_found, mark_terminal,
  drop_found, drop, time_out,
}
use agentc.Prelude.{
  ℕ, ◌+◌, ◌^◌, ◌<◌, ◌≤◌, ◌≡◌, refl, Bool, true, false, ◌&&◌, List, [], ◌∷◌, ◌++◌, Option, none,
  some, ◌==◌, if◌then◌else◌, Map, nat_eq, lookup, insert, lookup-insert, lookup-erase, arith, inl,
  inr, Bool-cases,
}

abbrev pub waits : ℕ → Option ParkedContinuation → Bool
waits participant none = false
waits participant (some c) = (c.participant == participant) && is_parked c.state

abbrev pub is_parked_at : Option ParkedContinuation → Bool
is_parked_at none = false
is_parked_at (some c) = is_parked c.state

pub record IsIndexed (s : Scheduler) : Type 0 where
  pub indexed : (h p : ℕ) → mem h (handles_of p s) ≡ waits p (lookup h s.continuations)
  pub fresh : (h : ℕ) → s.next_id ≤ h → lookup h s.continuations ≡ none

mem-append_one :
    (h k : ℕ) (hs : List ℕ) → mem h (hs ++ k ∷ []) ≡ (if h == k then true else mem h hs)
mem-append_one h k [] = ground arith
mem-append_one h k (x ∷ hs) = ground (arith, mem-append_one h k hs)

mem-without : (h k : ℕ) (hs : List ℕ) → mem h (without k hs) ≡ (if h == k then false else mem h hs)
mem-without h k [] = ground arith
mem-without h k (x ∷ hs) = ground (arith, mem-without h k hs)

-- A new continuation is parked and indexed under its participant.
pub park-IsIndexed :
    (participant : ℕ) (resume : Option (List MailboxDescriptor → ℕ)) (s : Scheduler)
    → s.next_id + 1 < 2 ^ 64
    → IsIndexed s
    → IsIndexed (park participant resume s).1
unfolding park
park-IsIndexed participant resume s l v =
    let absent = v.fresh s.next_id (omega arith) in
    elim (Bool-cases (participant == 0)) [
      | inl z ↦ rw (park, z) v
      | inr nz ↦
          rw (park, nz, absent)
            (record {
              indexed = λ h p. ground (
                arith,
                v.indexed h p,
                v.indexed h participant,
                mem-append_one h s.next_id (handles_of participant s),
                lookup-insert participant p (handles_of participant s ++ s.next_id ∷ [])
                    s.by_participant,
                lookup-insert s.next_id h (parked_at s.next_id participant resume) s.continuations,
                absent,
              );
              fresh = λ h k. ground (
                arith,
                v.fresh h,
                lookup-insert s.next_id h (parked_at s.next_id participant resume) s.continuations,
              );
            })
    ]

handles-put :
    (p q : ℕ) (hs : List ℕ) (m : Map ℕ (List ℕ))
    → or_empty (lookup q (put_handles p hs m)) ≡ (if p == q then hs else or_empty (lookup q m))
handles-put p q [] m = ground (arith, lookup-erase p q m)
handles-put p q (h ∷ hs) m = ground (arith, lookup-insert p q (h ∷ hs) m)

handles-without_entry :
    (h p q : ℕ) (entry : Option (List ℕ)) (m : Map ℕ (List ℕ))
    → lookup p m ≡ entry
    → or_empty (lookup q (without_entry h p entry m))
      ≡ (if p == q then without h (or_empty entry) else or_empty (lookup q m))
handles-without_entry h p q none m e = ground (arith, e)
handles-without_entry h p q (some hs) m e = handles-put p q (without h hs) m

handles-removed :
    (h p q : ℕ) (m : Map ℕ (List ℕ))
    → or_empty (lookup q (remove_from_participant_index h p m))
      ≡ (if p == q then without h (or_empty (lookup p m)) else or_empty (lookup q m))
unfolding remove_from_participant_index
handles-removed h p q m = handles-without_entry h p q (lookup p m) m refl

-- for a continuation that is no longer parked, and out of the index of its participant
IsIndexed-ended :
    (h : ℕ) (c d : ParkedContinuation) (s : Scheduler)
    → IsIndexed s
    → lookup h s.continuations ≡ some c
    → is_parked d.state ≡ false
    → IsIndexed (record s {
      continuations = insert h d s.continuations;
      by_participant = remove_from_participant_index h c.participant s.by_participant;
    })
IsIndexed-ended h c d s v e n = record {
  indexed = λ k p. ground (
    arith,
    v.indexed k p,
    v.indexed k c.participant,
    e,
    n,
    handles-removed h c.participant p s.by_participant,
    mem-without k h (handles_of c.participant s),
    lookup-insert h k d s.continuations,
  );
  fresh = λ k l. ground (arith, v.fresh k l, e, lookup-insert h k d s.continuations);
}

IsIndexed-mark_found :
    (h : ℕ) (st : ContinuationState) (s : Scheduler) (found : Option ParkedContinuation)
    → IsIndexed s
    → lookup h s.continuations ≡ found
    → is_parked st ≡ false
    → IsIndexed (mark_found h st s found).1
IsIndexed-mark_found h st s none v e n = v
IsIndexed-mark_found h st s (some c) v e n = elim (Bool-cases (is_parked c.state)) [
  | inl waiting ↦ rw waiting (IsIndexed-ended h c (record c { state = st }) s v e n)
  | inr not_waiting ↦ rw not_waiting v
]

pub mark_terminal-IsIndexed :
    (h : ℕ) (st : ContinuationState) (s : Scheduler)
    → IsIndexed s
    → is_parked st ≡ false
    → IsIndexed (mark_terminal h st s).1
unfolding mark_terminal
mark_terminal-IsIndexed h st s v n = IsIndexed-mark_found h st s (lookup h s.continuations) v refl n

IsIndexed-drop_found :
    (h : ℕ) (s : Scheduler) (found : Option ParkedContinuation)
    → IsIndexed s
    → lookup h s.continuations ≡ found
    → IsIndexed (drop_found h s found).1
IsIndexed-drop_found h s none v e = v
IsIndexed-drop_found h s (some c) v e = record {
  indexed = λ k p. ground (
    arith,
    v.indexed k p,
    v.indexed k c.participant,
    e,
    handles-removed h c.participant p s.by_participant,
    mem-without k h (handles_of c.participant s),
    lookup-erase h k s.continuations,
  );
  fresh = λ k l. ground (arith, v.fresh k l, e, lookup-erase h k s.continuations);
}

-- The continuation is out of the table and of the index.
pub drop-IsIndexed : (h : ℕ) (s : Scheduler) → IsIndexed s → IsIndexed (drop h s).1
unfolding drop
drop-IsIndexed h s v = IsIndexed-drop_found h s (lookup h s.continuations) v refl

pub time_out-IsIndexed : (hs : List ℕ) (s : Scheduler) → IsIndexed s → IsIndexed (time_out hs s).1
unfolding time_out
time_out-IsIndexed [] s v = v
time_out-IsIndexed (h ∷ hs) s v =
    time_out-IsIndexed hs (mark_terminal h timeout s).1 (mark_terminal-IsIndexed h timeout s v refl)
