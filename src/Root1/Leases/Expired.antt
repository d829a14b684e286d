-- ===== src/Root1/Leases/Expired.antt =====
-- What `recoverExpiredLeases` leaves.
use agentc.Root1.Resource.{ResourceKey, key_eq, owner}
use agentc.Root1.Mailbox.{MailboxRing}
use agentc.Root1.Descriptor.{MailboxDescriptor, BrokerEvent}
use agentc.Root1.Broker.{
  Broker, LeaseRecord, recover_abandoned_resource, grant, push_descriptor, push_event,
  pushed_descriptor, ParticipantRecord, queue, next_waiter,
}
use agentc.Root1.Leases.{split_expired, recover_each, recover_expired_leases}
use agentc.Prelude.{
  ℕ, ◌<◌, ◌≡◌, refl, ◌∙◌, nat_eq, inl, inr, Bool, true, false, [], ◌∷◌, some, Map, lookup, erase,
  lookup_nil, lookup_cons, lookup-erase, leb, ◌==◌, arith, Bytes, Bool-cases, Option-cases,
}

-- every entry of the map that is looked up fits
abbrev Unexpired : ℕ → Map ResourceKey LeaseRecord → Type 0
Unexpired now m =
    (k : ResourceKey) (l : LeaseRecord) → lookup k m ≡ some l → now < l.expires_at_tick

found :
    (now : ℕ) (lease l : LeaseRecord)
    → leb lease.expires_at_tick now ≡ false
    → some lease ≡ some l
    → now < l.expires_at_tick
found now lease l e q =
    let same : lease.expires_at_tick ≡ l.expires_at_tick = cc in
    let late : now < lease.expires_at_tick = ground arith in omega arith

split_expired-Unexpired :
    (now : ℕ) (m : Map ResourceKey LeaseRecord) → Unexpired now (split_expired now m).1
unfolding split_expired
split_expired-Unexpired now [] k l = rw (lookup_nil k) cc
split_expired-Unexpired now ((j, lease) ∷ m) k l =
    elim (Bool-cases (leb lease.expires_at_tick now)) [
      | inl e ↦ rw (e) (split_expired-Unexpired now m k l)
      | inr e ↦
          rw (e, lookup_cons k j lease (split_expired now m).1)
            (elim (Bool-cases (key_eq.beq j k)) [
              | inl f ↦ rw (f) (λ q. found now lease l e q)
              | inr f ↦ rw (f) (split_expired-Unexpired now m k l)
            ])
    ]

-- No operation of a recovery adds a lease.
Fewer : Broker → Broker → Type 0
Fewer b b' =
    (k : ResourceKey) (l : LeaseRecord) → lookup k b'.leases ≡ some l → lookup k b.leases ≡ some l

pub leases-push_event :
    (p : ℕ) (e : BrokerEvent) (b : Broker) → (push_event p e b).leases ≡ b.leases
unfolding push_event
leases-push_event p e b = elim (Option-cases (lookup p b.participants)) [
  | inl f ↦ rw (push_event, f) refl
  | inr (r, f) ↦ rw (push_event, f) refl
]

leases-pushed :
    (p : ℕ) (r : ParticipantRecord) (o : Bool × MailboxRing MailboxDescriptor) (b : Broker)
    → (pushed_descriptor p r o b).1.leases ≡ b.leases
leases-pushed p r (false, ring) b = refl
leases-pushed p r (true, ring) b = refl

pub leases-push_descriptor :
    (p : ℕ) (d : MailboxDescriptor) (b : Broker) → (push_descriptor p d b).1.leases ≡ b.leases
unfolding push_descriptor
leases-push_descriptor p d b = elim (Option-cases (lookup p b.participants)) [
  | inl f ↦ rw (push_descriptor, f) refl
  | inr (r, f) ↦ rw (push_descriptor, f) (leases-pushed p r _ b)
]

pub leases-grant : (k : ResourceKey) (p : ℕ) (b : Broker) → (grant k p b).leases ≡ b.leases
leases-grant k p b = leases-push_event p _ _ ∙ leases-push_descriptor p _ _

erased :
    (k j : ResourceKey) (l : LeaseRecord) (m : Map ResourceKey LeaseRecord)
    → lookup j (erase k m) ≡ some l
    → lookup j m ≡ some l
erased k j l m =
    rw (lookup-erase k j m)
      (elim (Bool-cases (key_eq.beq k j)) [ inl f ↦ rw (f) cc | inr f ↦ rw (f) (λ q. q) ])

recover_abandoned_resource-Fewer :
    (k : ResourceKey) (a p : ℕ) (reason : Bytes) (b : Broker)
    → Fewer b (recover_abandoned_resource k a p reason b).1
unfolding Fewer recover_abandoned_resource
recover_abandoned_resource-Fewer k a p reason b j l = elim (Bool-cases (p == 0)) [
  | inl e ↦ rw (recover_abandoned_resource, e) (λ q. q)
  | inr e ↦ elim (Bool-cases (owner (b.words a) == p)) [
    | inr f ↦ rw (recover_abandoned_resource, e, f) (λ q. q)
    | inl f ↦ elim (Option-cases (next_waiter b (queue b k))) [
      | inl g ↦ rw (recover_abandoned_resource, e, f, g) (erased k j l b.leases)
      | inr ((next, rest), g) ↦
          rw
            (
              recover_abandoned_resource,
              e,
              f,
              g,
              leases-grant k next _,
              leases-push_descriptor next _ _,
            )
            (erased k j l b.leases)
    ]
  ]
]

recover_each-Fewer :
    (reason : Bytes) (m : Map ResourceKey LeaseRecord) (b : Broker)
    → Fewer b (recover_each reason m b).1
unfolding Fewer recover_each
recover_each-Fewer reason [] b j l = λ q. q
recover_each-Fewer reason ((k, lease) ∷ m) b j l = λ q.
    recover_abandoned_resource-Fewer k lease.state lease.owner reason b j l
      (recover_each-Fewer reason m _ j l q)

-- After `recoverExpiredLeases` at a tick, no lease is left that ended by that tick.
pub recover_expired_leases-late :
    (now : ℕ) (reason : Bytes) (b : Broker) (k : ResourceKey) (l : LeaseRecord)
    → lookup k (recover_expired_leases now reason b).1.leases ≡ some l
    → now < l.expires_at_tick
unfolding recover_expired_leases Fewer
recover_expired_leases-late now reason b k l e =
    split_expired-Unexpired now b.leases k l (recover_each-Fewer _ _ _ k l e)
