-- ===== src/Root1/Broker/Quiet.antt =====
-- The operations of the broker that leave the owners and the queues alone.
use agentc.Root1.Resource.{ResourceKey, key_eq, owner}
use agentc.Root1.Descriptor.{MailboxDescriptor}
use agentc.Root1.Broker.{Broker, ParticipantRecord, is_valid_participant}
use agentc.Root1.Leases.{register_lease, renew_lease, heartbeat_participant, holds}
use agentc.Root1.Messages.{
  send_mailbox_message, send_mailbox_descriptor, drain_mailbox, drain_mailbox_descriptors,
}
use agentc.Root1.Broker.Frame.{
  SameOwners, SameOwners-refl, SameOwners-trans, SameOwners-push_event, SameOwners-push_descriptor,
  valid-insert,
}
use agentc.Prelude.{
  ℕ, ◌≡◌, refl, some, ◌==◌, Bytes, lookup, insert, nat_eq, Bool-cases, Option-cases, inl, inr,
}

kept :
    (b b' : Broker)
    → b'.words ≡ b.words
    → b'.waiters ≡ b.waiters
    → b'.participants ≡ b.participants
    → b'.next_participant ≡ b.next_participant
    → SameOwners b b'
kept b b' words waiters participants ids = record {
  words = words;
  waiters = waiters;
  valid = λ p. rw (participants) refl;
  ids = ids;
}

pub SameOwners-register_lease :
    (k : ResourceKey) (a p t : ℕ) (b : Broker) → SameOwners b (register_lease k a p t b).1
unfolding register_lease
SameOwners-register_lease k a p t b = elim (Bool-cases (p == 0)) [
  | inl e ↦ rw (register_lease, e) (SameOwners-refl b)
  | inr e ↦ elim (Bool-cases (is_valid_participant b p)) [
    | inr f ↦ rw (register_lease, e, f) (SameOwners-refl b)
    | inl f ↦ elim (Bool-cases (owner (b.words a) == p)) [
      | inr g ↦ rw (register_lease, e, f, g) (SameOwners-refl b)
      | inl g ↦ rw (register_lease, e, f, g) (kept b _ refl refl refl refl)
    ]
  ]
]

pub SameOwners-renew_lease :
    (k : ResourceKey) (p t : ℕ) (b : Broker) → SameOwners b (renew_lease k p t b).1
unfolding renew_lease
SameOwners-renew_lease k p t b = elim (Bool-cases (p == 0)) [
  | inl e ↦ rw (renew_lease, e) (SameOwners-refl b)
  | inr e ↦ elim (Option-cases (lookup k b.leases)) [
    | inl f ↦ rw (renew_lease, e, f) (SameOwners-refl b)
    | inr (lease, f) ↦ elim (Bool-cases (holds b lease p)) [
      | inl g ↦ rw (renew_lease, e, f, g) (kept b _ refl refl refl refl)
      | inr g ↦ rw (renew_lease, e, f, g) (SameOwners-refl b)
    ]
  ]
]

pub SameOwners-heartbeat_participant :
    (p t : ℕ) (b : Broker) → SameOwners b (heartbeat_participant p t b).1
unfolding heartbeat_participant
SameOwners-heartbeat_participant p t b = elim (Bool-cases (p == 0)) [
  | inl e ↦ rw (heartbeat_participant, e) (SameOwners-refl b)
  | inr e ↦ rw (heartbeat_participant, e) (kept b _ refl refl refl refl)
]

pub SameOwners-send_mailbox_message :
    (p : ℕ) (payload : Bytes) (n : ℕ) (b : Broker)
    → SameOwners b (send_mailbox_message p payload n b).1
unfolding send_mailbox_message
SameOwners-send_mailbox_message p payload n b = elim (Bool-cases (is_valid_participant b p)) [
  | inr e ↦ rw (send_mailbox_message, e) (SameOwners-refl b)
  | inl e ↦
      rw (send_mailbox_message, e)
        (SameOwners-trans b _ _ (SameOwners-push_descriptor p _ b) (SameOwners-push_event p _ _))
]

pub SameOwners-send_mailbox_descriptor :
    (p : ℕ) (d : MailboxDescriptor) (b : Broker) → SameOwners b (send_mailbox_descriptor p d b).1
unfolding send_mailbox_descriptor
SameOwners-send_mailbox_descriptor p d b = elim (Bool-cases (is_valid_participant b p)) [
  | inr e ↦ rw (send_mailbox_descriptor, e) (SameOwners-refl b)
  | inl e ↦ rw (send_mailbox_descriptor, e) (SameOwners-push_descriptor p d b)
]

pub replaced :
    (p : ℕ) (r s : ParticipantRecord) (b : Broker)
    → lookup p b.participants ≡ some s
    → SameOwners b (record b { participants = insert p r b.participants })
replaced p r s b e = record {
  words = refl;
  waiters = refl;
  valid = λ q. valid-insert p q r s b.participants e;
  ids = refl;
}

pub SameOwners-drain_mailbox : (p : ℕ) (b : Broker) → SameOwners b (drain_mailbox p b).1
unfolding drain_mailbox
SameOwners-drain_mailbox p b = elim (Option-cases (lookup p b.participants)) [
  | inl e ↦ rw (drain_mailbox, e) (SameOwners-refl b)
  | inr (s, e) ↦ rw (drain_mailbox, e) (replaced p _ s b e)
]

pub SameOwners-drain_mailbox_descriptors :
    (p : ℕ) (b : Broker) → SameOwners b (drain_mailbox_descriptors p b).1
unfolding drain_mailbox_descriptors
SameOwners-drain_mailbox_descriptors p b = elim (Option-cases (lookup p b.participants)) [
  | inl e ↦ rw (drain_mailbox_descriptors, e) (SameOwners-refl b)
  | inr (s, e) ↦ rw (drain_mailbox_descriptors, e) (replaced p _ s b e)
]
