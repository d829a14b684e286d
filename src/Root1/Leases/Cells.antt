-- ===== src/Root1/Leases/Cells.antt =====
-- The leases beside the ResourceStates of their keys, `cell`: a lease that was registered for a key
-- points to the state of that key.
use agentc.Root1.Resource.{ResourceKey, key_eq, key_beq, key_beq_iff, owner, try_acquire_unlocked}
use agentc.Root1.Descriptor.{MailboxDescriptor}
use agentc.Root1.Broker.{
  Broker, LeaseRecord, register_participant, try_acquire, acquire_or_queue_locked, release,
  recover_abandoned_resource, is_valid_participant, next_waiter, queue, push_descriptor,
}
use agentc.Root1.Leases.{
  register_lease, holds, renewed, renew_lease, renew_held, heartbeat_participant, split_expired,
}
use agentc.Root1.Leases.Expired.{leases-push_event, leases-push_descriptor, leases-grant}
use agentc.Root1.Messages.{
  send_mailbox_message, send_mailbox_descriptor, drain_mailbox, drain_mailbox_descriptors,
}
use agentc.Prelude.{
  ℕ, ◌≡◌, refl, ap, ◌∙◌, sym, [], ◌∷◌, some, Map, lookup, insert, erase, nat_eq, ◌==◌, leb, Bytes,
  Bool-cases, Option-cases, inl, inr,
}

-- every lease points to its key's state
abbrev pub AreAt : (ResourceKey → ℕ) → Map ResourceKey LeaseRecord → Type 0
AreAt cell [] = Unit
AreAt cell ((k, l) ∷ m) = (l.state ≡ cell k) × AreAt cell m

pub leases-register_participant : (b : Broker) → (register_participant b).1.leases ≡ b.leases
unfolding register_participant
leases-register_participant b = refl

pub leases-try_acquire : (a p : ℕ) (b : Broker) → (try_acquire a p b).1.leases ≡ b.leases
unfolding try_acquire
leases-try_acquire a p b = elim (Bool-cases (p == 0)) [
  | inl e ↦ rw (try_acquire, e) refl
  | inr e ↦ rw (try_acquire, e) refl
]

pub leases-acquire_or_queue_locked :
    (k : ResourceKey) (a p : ℕ) (b : Broker) → (acquire_or_queue_locked k a p b).1.leases ≡ b.leases
unfolding acquire_or_queue_locked
leases-acquire_or_queue_locked k a p b = elim (Bool-cases (is_valid_participant b p)) [
  | inr e ↦ rw (acquire_or_queue_locked, e) refl
  | inl e ↦ elim (Bool-cases (owner (b.words a) == p)) [
    | inl f ↦ rw (acquire_or_queue_locked, e, f) refl
    | inr f ↦ elim (Bool-cases (try_acquire_unlocked (b.words a) p).0) [
      | inl g ↦ rw (acquire_or_queue_locked, e, f, g) refl
      | inr g ↦ rw (acquire_or_queue_locked, e, f, g) refl
    ]
  ]
]

pub leases-release :
    (k : ResourceKey) (a p : ℕ) (b : Broker) → (release k a p b).1.leases ≡ b.leases
unfolding release
leases-release k a p b = elim (Bool-cases (p == 0)) [
  | inl e ↦ rw (release, e) refl
  | inr e ↦ elim (Bool-cases (owner (b.words a) == p)) [
    | inr f ↦ rw (release, e, f) refl
    | inl f ↦ elim (Option-cases (next_waiter b (queue b k))) [
      | inl g ↦ rw (release, e, f, g) refl
      | inr ((next, rest), g) ↦ rw (release, e, f, g) (leases-grant k next _)
    ]
  ]
]

pub leases-send_mailbox_message :
    (p : ℕ) (payload : Bytes) (n : ℕ) (b : Broker)
    → (send_mailbox_message p payload n b).1.leases ≡ b.leases
unfolding send_mailbox_message
leases-send_mailbox_message p payload n b = elim (Bool-cases (is_valid_participant b p)) [
  | inr e ↦ rw (send_mailbox_message, e) refl
  | inl e ↦
      rw (send_mailbox_message, e)
        (leases-push_event p _ (push_descriptor p _ b).1 ∙ leases-push_descriptor p _ b)
]

pub leases-send_mailbox_descriptor :
    (p : ℕ) (d : MailboxDescriptor) (b : Broker)
    → (send_mailbox_descriptor p d b).1.leases ≡ b.leases
unfolding send_mailbox_descriptor
leases-send_mailbox_descriptor p d b = elim (Bool-cases (is_valid_participant b p)) [
  | inr e ↦ rw (send_mailbox_descriptor, e) refl
  | inl e ↦ rw (send_mailbox_descriptor, e) (leases-push_descriptor p d b)
]

pub leases-drain_mailbox : (p : ℕ) (b : Broker) → (drain_mailbox p b).1.leases ≡ b.leases
unfolding drain_mailbox
leases-drain_mailbox p b = elim (Option-cases (lookup p b.participants)) [
  | inl e ↦ rw (drain_mailbox, e) refl
  | inr (s, e) ↦ rw (drain_mailbox, e) refl
]

pub leases-drain_mailbox_descriptors :
    (p : ℕ) (b : Broker) → (drain_mailbox_descriptors p b).1.leases ≡ b.leases
unfolding drain_mailbox_descriptors
leases-drain_mailbox_descriptors p b = elim (Option-cases (lookup p b.participants)) [
  | inl e ↦ rw (drain_mailbox_descriptors, e) refl
  | inr (s, e) ↦ rw (drain_mailbox_descriptors, e) refl
]

module _ (cell : ResourceKey → ℕ) where
  AreAt-insert :
      (k : ResourceKey) (l : LeaseRecord) (m : Map ResourceKey LeaseRecord)
      → l.state ≡ cell k
      → AreAt cell m
      → AreAt cell (insert k l m)
  unfolding insert
  AreAt-insert k l [] at v = (at, tt)
  AreAt-insert k l ((j, w) ∷ m) at v = elim (Bool-cases (key_beq j k)) [
    | inl e ↦ rw (e) (at, v.1)
    | inr e ↦ rw (e) (v.0, AreAt-insert k l m at v.1)
  ]

  AreAt-erase :
      (k : ResourceKey) (m : Map ResourceKey LeaseRecord) → AreAt cell m → AreAt cell (erase k m)
  unfolding erase
  AreAt-erase k [] v = tt
  AreAt-erase k ((j, w) ∷ m) v = elim (Bool-cases (key_beq j k)) [
    | inl e ↦ rw (e) (AreAt-erase k m v.1)
    | inr e ↦ rw (e) (v.0, AreAt-erase k m v.1)
  ]

  pub AreAt-lookup :
      (k : ResourceKey) (l : LeaseRecord) (m : Map ResourceKey LeaseRecord)
      → AreAt cell m
      → lookup k m ≡ some l
      → l.state ≡ cell k
  unfolding lookup
  AreAt-lookup k l [] v = cc
  AreAt-lookup k l ((j, w) ∷ m) v = elim (Bool-cases (key_beq j k)) [
    | inl e ↦ rw (e) (λ q.
        let same : w ≡ l = cc in
        let keys : j ≡ k = (key_beq_iff j k).0 e in
        ap (λ x. x.state) (sym same) ∙ v.0 ∙ ap cell keys)
    | inr e ↦ rw (e) (AreAt-lookup k l m v.1)
  ]

  pub AreAt-register_lease :
      (k : ResourceKey) (p t : ℕ) (b : Broker)
      → AreAt cell b.leases
      → AreAt cell (register_lease k (cell k) p t b).1.leases
  unfolding register_lease
  AreAt-register_lease k p t b v = elim (Bool-cases (p == 0)) [
    | inl e ↦ rw (register_lease, e) v
    | inr e ↦ elim (Bool-cases (is_valid_participant b p)) [
      | inr f ↦ rw (register_lease, e, f) v
      | inl f ↦ elim (Bool-cases (owner (b.words (cell k)) == p)) [
        | inr g ↦ rw (register_lease, e, f, g) v
        | inl g ↦ rw (register_lease, e, f, g) (AreAt-insert k _ b.leases refl v)
      ]
    ]
  ]

  pub AreAt-renew_lease :
      (k : ResourceKey) (p t : ℕ) (b : Broker)
      → AreAt cell b.leases
      → AreAt cell (renew_lease k p t b).1.leases
  unfolding renew_lease
  AreAt-renew_lease k p t b v = elim (Bool-cases (p == 0)) [
    | inl e ↦ rw (renew_lease, e) v
    | inr e ↦ elim (Option-cases (lookup k b.leases)) [
      | inl f ↦ rw (renew_lease, e, f) v
      | inr (lease, f) ↦ elim (Bool-cases (holds b lease p)) [
        | inl g ↦
            rw (renew_lease, e, f, g)
              (AreAt-insert k (renewed t lease) b.leases (AreAt-lookup k lease b.leases v f) v)
        | inr g ↦ rw (renew_lease, e, f, g) v
      ]
    ]
  ]

  AreAt-renew_held :
      (b : Broker) (p t : ℕ) (m : Map ResourceKey LeaseRecord)
      → AreAt cell m
      → AreAt cell (renew_held b p t m).1
  AreAt-renew_held b p t [] v = tt
  AreAt-renew_held b p t ((k, l) ∷ m) v = elim (Bool-cases (holds b l p)) [
    | inl e ↦ rw (e) (v.0, AreAt-renew_held b p t m v.1)
    | inr e ↦ rw (e) (v.0, AreAt-renew_held b p t m v.1)
  ]

  pub AreAt-heartbeat_participant :
      (p t : ℕ) (b : Broker)
      → AreAt cell b.leases
      → AreAt cell (heartbeat_participant p t b).1.leases
  unfolding heartbeat_participant
  AreAt-heartbeat_participant p t b v = elim (Bool-cases (p == 0)) [
    | inl e ↦ rw (heartbeat_participant, e) v
    | inr e ↦ rw (heartbeat_participant, e) (AreAt-renew_held b p t b.leases v)
  ]

  pub AreAt-split_expired :
      (now : ℕ) (m : Map ResourceKey LeaseRecord)
      → AreAt cell m
      → AreAt cell (split_expired now m).0 × AreAt cell (split_expired now m).1
  unfolding split_expired
  AreAt-split_expired now [] v = (tt, tt)
  AreAt-split_expired now ((k, l) ∷ m) v =
      let (out, kept) = AreAt-split_expired now m v.1 in
      elim (Bool-cases (leb l.expires_at_tick now)) [
        | inl e ↦ rw (e) ((v.0, out), kept)
        | inr e ↦ rw (e) (out, (v.0, kept))
      ]

  pub AreAt-recover_abandoned_resource :
      (k : ResourceKey) (a p : ℕ) (reason : Bytes) (b : Broker)
      → AreAt cell b.leases
      → AreAt cell (recover_abandoned_resource k a p reason b).1.leases
  unfolding recover_abandoned_resource
  AreAt-recover_abandoned_resource k a p reason b v = elim (Bool-cases (p == 0)) [
    | inl e ↦ rw (recover_abandoned_resource, e) v
    | inr e ↦ elim (Bool-cases (owner (b.words a) == p)) [
      | inr f ↦ rw (recover_abandoned_resource, e, f) v
      | inl f ↦ elim (Option-cases (next_waiter b (queue b k))) [
        | inl g ↦ rw (recover_abandoned_resource, e, f, g) (AreAt-erase k b.leases v)
        | inr ((next, rest), g) ↦
            rw
              (
                recover_abandoned_resource,
                e,
                f,
                g,
                leases-grant k next _,
                leases-push_descriptor next _ _,
              )
              (AreAt-erase k b.leases v)
      ]
    ]
  ]
