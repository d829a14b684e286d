-- ===== src/Root1/Broker/Frame.antt =====
-- What the messages of the broker leave alone: words, queues and who is a participant.
use agentc.Root1.Mailbox.{MailboxRing}
use agentc.Root1.Descriptor.{MailboxDescriptor, BrokerEvent}
use agentc.Root1.Resource.{ResourceKey}
use agentc.Root1.Broker.{
  Broker, ParticipantRecord, is_some, is_valid_participant, push_event, push_descriptor,
  pushed_descriptor, grant, emplace,
}
use agentc.Prelude.{
  ℕ, Bool, true, false, some, ◌≡◌, ◌⊎◌, refl, ◌∙◌, Map, lookup, insert, lookup-insert, nat_eq, ◌==◌,
  ==_iff, arith, Option-cases, Bool-cases, inl, inr,
}

pub record SameOwners (b b' : Broker) : Type 0 where
  pub words : b'.words ≡ b.words
  pub waiters : b'.waiters ≡ b.waiters
  pub valid : (p : ℕ) → is_valid_participant b' p ≡ is_valid_participant b p
  pub ids : b'.next_participant ≡ b.next_participant

pub SameOwners-refl : (b : Broker) → SameOwners b b
SameOwners-refl b = record { words = refl; waiters = refl; valid = λ p. refl; ids = refl }

pub SameOwners-trans : (a b c : Broker) → SameOwners a b → SameOwners b c → SameOwners a c
SameOwners-trans a b c h k = record {
  words = k.words ∙ h.words;
  waiters = k.waiters ∙ h.waiters;
  valid = λ p. k.valid p ∙ h.valid p;
  ids = k.ids ∙ h.ids;
}

pub valid-insert :
    (p q : ℕ) (r s : ParticipantRecord) (m : Map ℕ ParticipantRecord)
    → lookup p m ≡ some s
    → is_some (lookup q (insert p r m)) ≡ is_some (lookup q m)
valid-insert p q r s m e = rw (lookup-insert p q r m) (ground (arith, ==_iff p q))

pub SameOwners-push_event :
    (p : ℕ) (event : BrokerEvent) (b : Broker) → SameOwners b (push_event p event b)
unfolding push_event
SameOwners-push_event p event b = elim (Option-cases (lookup p b.participants)) [
  | inl e ↦ rw (push_event, e) (SameOwners-refl b)
  | inr (r, e) ↦
      rw (push_event, e)
        (record {
          words = refl;
          waiters = refl;
          valid = λ q. valid-insert p q _ r b.participants e;
          ids = refl;
        })
]

SameOwners-pushed :
    (p : ℕ) (r : ParticipantRecord) (o : Bool × MailboxRing MailboxDescriptor) (b : Broker)
    → lookup p b.participants ≡ some r
    → SameOwners b (pushed_descriptor p r o b).1
SameOwners-pushed p r (false, ring) b e = SameOwners-refl b
SameOwners-pushed p r (true, ring) b e = record {
  words = refl;
  waiters = refl;
  valid = λ q. valid-insert p q _ r b.participants e;
  ids = refl;
}

pub SameOwners-push_descriptor :
    (p : ℕ) (d : MailboxDescriptor) (b : Broker) → SameOwners b (push_descriptor p d b).1
unfolding push_descriptor
SameOwners-push_descriptor p d b = elim (Option-cases (lookup p b.participants)) [
  | inl e ↦ rw (push_descriptor, e) (SameOwners-refl b)
  | inr (r, e) ↦ rw (push_descriptor, e) (SameOwners-pushed p r _ b e)
]

pub SameOwners-grant : (key : ResourceKey) (next : ℕ) (b : Broker) → SameOwners b (grant key next b)
SameOwners-grant key next b =
    SameOwners-trans b _ _ (record { words = refl; waiters = refl; valid = λ p. refl; ids = refl })
      (SameOwners-trans _ _ _ (SameOwners-push_descriptor next _ _)
        (SameOwners-push_event next _ _))

pub valid-emplace :
    (id p : ℕ) (r : ParticipantRecord) (m : Map ℕ ParticipantRecord)
    → is_some (lookup p (emplace id r m)) ≡ true
    → (p ≡ id) ⊎ (is_some (lookup p m) ≡ true)
valid-emplace id p r m = elim (Bool-cases (is_some (lookup id m))) [
  | inl e ↦ rw (e) (λ h. inr h)
  | inr e ↦
      rw (e, lookup-insert id p r m)
        (elim (Bool-cases (id == p)) [
          | inl f ↦ (λ h. inl (ground arith))
          | inr f ↦ rw (f) (λ h. inr h)
        ])
]
