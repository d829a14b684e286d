-- ===== src/Root1/Broker/HandOver.antt =====
-- What a release and an acquisition do to a resource, its queue and the mailboxes.
use agentc.Root1.Resource.{ResourceKey, key_eq, owner, is_contended, contend, try_acquire_unlocked}
use agentc.Root1.Descriptor.{BrokerEvent}
use agentc.Root1.Broker.{
  Broker, acquired, queued, invalid_participant, ParticipantRecord, is_valid_participant, queue,
  acquire_or_queue, acquire_or_queue_locked, has_more, grant_event, enqueue,
}
use agentc.Prelude.{
  ℕ, ◌<◌, ◌/◌, ◌^◌, ◌≡◌, ◌≢◌, refl, true, false, ◌⊎◌, inl, inr, List, [], ◌∷◌, ◌++◌, Option, none,
  some, ◌==◌, ==_iff, lookup, lookup-insert, nat_eq, beq_refl, arith, Bool-cases,
}

abbrev pub NoneValid : Broker → List ℕ → Type 0
NoneValid b [] = Unit
NoneValid b (p ∷ ps) = (is_valid_participant b p ≡ false) × NoneValid b ps

abbrev events_of : Option ParticipantRecord → List BrokerEvent
events_of none = []
events_of (some r) = r.mailbox

-- the events that wait for a participant
abbrev pub mailbox_of : ℕ → Broker → List BrokerEvent
mailbox_of p b = events_of (lookup p b.participants)

-- What the release of a resource leads to.
pub record IsHandedOver (key : ResourceKey) (state : ℕ) (b b' : Broker) : Type 0 where
  pub gone : List ℕ
  pub next : ℕ
  pub split : queue b key ≡ gone ++ next ∷ queue b' key
  pub invalid : NoneValid b gone
  pub valid : is_valid_participant b next ≡ true
  pub owned : owner (b'.words state) ≡ next
  pub flagged : is_contended (b'.words state) ≡ has_more (queue b' key)
  pub told : mailbox_of next b' ≡ mailbox_of next b ++ grant_event key b.next_grant_token ∷ []

pub record IsFree (key : ResourceKey) (state : ℕ) (b b' : Broker) : Type 0 where
  pub invalid : NoneValid b (queue b key)
  pub owned : b'.words state ≡ 0
  pub waiting : queue b' key ≡ []

-- The outcome of an acquisition and when it is the outcome, for a participant's id below 2^63. A
-- participant acquires what is free or its own, is the owner then, and the queue is as it was. It is
-- queued, where it is valid and another holds the resource: it waits behind the others, the owner
-- stays and the resource is contended. The broker is left as it is where the id is 0, or is not valid
-- and the resource is not free.
pub acquire_or_queue-lem :
    (key : ResourceKey) (state p : ℕ) (b : Broker)
    → p < 2 ^ 63
    → ((p ≢ 0)
        × ((b.words state ≡ 0) ⊎ ((is_valid_participant b p ≡ true) × (owner (b.words state) ≡ p)))
        × ((acquire_or_queue key state p b).0 ≡ acquired)
        × (owner ((acquire_or_queue key state p b).1.words state) ≡ p)
        × (queue (acquire_or_queue key state p b).1 key ≡ queue b key))
      ⊎ ((p ≢ 0)
          × (b.words state ≢ 0)
          × (is_valid_participant b p ≡ true)
          × (owner (b.words state) ≢ p)
          × ((acquire_or_queue key state p b).0 ≡ queued)
          × (owner ((acquire_or_queue key state p b).1.words state) ≡ owner (b.words state))
          × (is_contended ((acquire_or_queue key state p b).1.words state) ≡ true)
          × (queue (acquire_or_queue key state p b).1 key ≡ enqueue (queue b key) p))
      ⊎ (((p ≡ 0) ⊎ ((b.words state ≢ 0) × (is_valid_participant b p ≡ false)))
          × (acquire_or_queue key state p b ≡ (invalid_participant, b)))
unfolding acquire_or_queue acquire_or_queue_locked try_acquire_unlocked
acquire_or_queue-lem key state p b small =
    let here : (state == state) ≡ true = (==_iff state state).1 refl in
    elim (Bool-cases (p == 0)) [
      | inl e ↦ inr (inr (inl ((==_iff p 0).0 e), rw (acquire_or_queue, e) refl))
      | inr e ↦
          let known : p ≢ 0 = λ q. ground arith in
          elim (Bool-cases (b.words state == 0)) [
            | inl f ↦ inl (
                rw (acquire_or_queue, e, f, here)
                  (known, inl ((==_iff _ _).0 f), refl, omega arith, refl))
            | inr f ↦
                let held : b.words state ≢ 0 = λ q. ground arith in
                elim (Bool-cases (is_valid_participant b p)) [
                  | inr g ↦ inr (
                      inr (
                        rw (acquire_or_queue, e, f, acquire_or_queue_locked, g)
                          (inr (held, refl), refl)))
                  | inl g ↦ elim (Bool-cases (owner (b.words state) == p)) [
                    | inl h ↦ inl (
                        rw (acquire_or_queue, e, f, acquire_or_queue_locked, g, h)
                          (known, inr (refl, (==_iff _ _).0 h), refl, (==_iff _ _).0 h, refl))
                    | inr h ↦
                        let set : contend (b.words state) / 2 ^ 63 ≡ 1 = omega arith in
                        let other : owner (b.words state) ≢ p = λ q. ground arith in
                        inr (
                          inl (
                            rw
                              (
                                acquire_or_queue,
                                e,
                                f,
                                acquire_or_queue_locked,
                                g,
                                h,
                                here,
                                set,
                                lookup-insert key key (enqueue (queue b key) p) b.waiters,
                                beq_refl key,
                              )
                              (known, held, refl, other, refl, omega arith, refl, refl)))
                  ]
                ]
          ]
    ]
