-- ===== src/Root1/Broker/Reachable.antt =====
-- Root1ResourceBroker as a transition system: the operations in any order, by any participants, on
-- resources that have one ResourceState each, `cell`. An acquisition is two steps, since the lock is
-- taken after the first attempt. Publications have no part in it.
use agentc.Root1.Resource.{ResourceKey, key_eq}
use agentc.Root1.Descriptor.{MailboxDescriptor}
use agentc.Root1.Broker.{
  Broker, is_valid_participant, queue, register_participant, try_acquire, acquire_or_queue_locked,
  release, recover_abandoned_resource,
}
use agentc.Root1.Leases.{register_lease, renew_lease, heartbeat_participant}
use agentc.Root1.Messages.{
  send_mailbox_message, send_mailbox_descriptor, drain_mailbox, drain_mailbox_descriptors,
}
use agentc.Root1.Broker.Waiting.{IsWaiting, IsWaiting-free}
use agentc.Root1.Broker.Consistent.{
  same, IsConsistent-try_acquire, IsConsistent-acquire_or_queue_locked, IsConsistent-release,
  IsConsistent-register_participant,
}
use agentc.Root1.Leases.{recover_expired_leases, recover_participant_leases}
use agentc.Root1.Polling.{poll_ready_participants, attach_participant_pid}
use agentc.Root1.Leases.Cells.{
  AreAt, AreAt-register_lease, AreAt-renew_lease, AreAt-heartbeat_participant,
  leases-register_participant, leases-try_acquire, leases-acquire_or_queue_locked, leases-release,
  leases-send_mailbox_message, leases-send_mailbox_descriptor, leases-drain_mailbox,
  leases-drain_mailbox_descriptors,
}
use agentc.Root1.Broker.Quiet.{
  SameOwners-register_lease, SameOwners-renew_lease, SameOwners-heartbeat_participant,
  SameOwners-send_mailbox_message, SameOwners-send_mailbox_descriptor, SameOwners-drain_mailbox,
  SameOwners-drain_mailbox_descriptors,
}
use agentc.Root1.Broker.Recovery.{
  IsSound, quiet, IsSound-recover_abandoned_resource, IsSound-recover_expired_leases,
  IsSound-recover_participant_leases, IsSound-poll_ready_participants,
  IsSound-attach_participant_pid,
}
use agentc.Prelude.{
  Bool, List, Option, sym, subst, ℕ, ◌+◌, ◌^◌, ◌<◌, ◌≡◌, true, [], arith, Bytes, lookup_nil, nat_eq,
}

-- the broker that the constructor makes, with every ResourceState at 0
abbrev pub new_broker : Broker
new_broker = record {
  next_participant = 1;
  next_grant_token = 1;
  participants = [];
  waiters = [];
  leases = [];
  words = λ a. 0;
  wakeups = [];
  next_publication_layer_id = 1;
  publication_leases = [];
  publications = [];
}

pub data Step (cell : ResourceKey → ℕ) : Broker → Broker → Type 0 where
  registered :
      (b : Broker) → b.next_participant + 1 < 2 ^ 63 → Step cell b (register_participant b).1
  tried :
      (b : Broker) (k : ResourceKey) (p : ℕ) → p < 2 ^ 63 → Step cell b (try_acquire (cell k) p b).1
  queued :
      (b : Broker) (k : ResourceKey) (p : ℕ)
      → p < 2 ^ 63
      → Step cell b (acquire_or_queue_locked k (cell k) p b).1
  released : (b : Broker) (k : ResourceKey) (p : ℕ) → Step cell b (release k (cell k) p b).1
  recovered :
      (b : Broker) (k : ResourceKey) (p : ℕ) (reason : Bytes)
      → Step cell b (recover_abandoned_resource k (cell k) p reason b).1
  expired :
      (b : Broker) (now : ℕ) (reason : Bytes) → Step cell b (recover_expired_leases now reason b).1
  abandoned :
      (b : Broker) (p : ℕ) (reason : Bytes) → Step cell b (recover_participant_leases p reason b).1
  polled : (b : Broker) (events : List ℕ) → Step cell b (poll_ready_participants events b).1
  attached :
      (b : Broker) (p pid : ℕ) (fd : Option ℕ) (added : Bool)
      → Step cell b (attach_participant_pid p pid fd added b).1
  leased :
      (b : Broker) (k : ResourceKey) (p t : ℕ) → Step cell b (register_lease k (cell k) p t b).1
  renewed : (b : Broker) (k : ResourceKey) (p t : ℕ) → Step cell b (renew_lease k p t b).1
  beaten : (b : Broker) (p t : ℕ) → Step cell b (heartbeat_participant p t b).1
  sent :
      (b : Broker) (p : ℕ) (payload : Bytes) (sequence : ℕ)
      → Step cell b (send_mailbox_message p payload sequence b).1
  posted :
      (b : Broker) (p : ℕ) (d : MailboxDescriptor) → Step cell b (send_mailbox_descriptor p d b).1
  drained : (b : Broker) (p : ℕ) → Step cell b (drain_mailbox p b).1
  emptied : (b : Broker) (p : ℕ) → Step cell b (drain_mailbox_descriptors p b).1

pub data Reachable (cell : ResourceKey → ℕ) : Broker → Type 0 where
  initial : Reachable cell new_broker
  next : (b b' : Broker) → Reachable cell b → Step cell b b' → Reachable cell b'

-- No participant is registered at first.
nobody {ℓ} : {A : Type ℓ} (p : ℕ) → is_valid_participant new_broker p ≡ true → A
nobody p = rw (lookup_nil p) (λ e. ground arith)

module _ (cell : ResourceKey → ℕ) (cell_inj : (j k : ResourceKey) → cell j ≡ cell k → j ≡ k) where
  new_broker-IsSound : IsSound cell cell_inj new_broker
  new_broker-IsSound = record {
    consistent = record {
      waiting = λ k. rw (lookup_nil k) IsWaiting-free;
      some_id = λ p e. nobody p e;
      small_id = λ p e. nobody p e;
      next_id = omega arith;
    };
    leased = tt;
  }

  Step-IsSound :
      (b b' : Broker) → Step cell b b' → IsSound cell cell_inj b → IsSound cell cell_inj b'
  Step-IsSound b _ (registered _ small) v = record {
    consistent = IsConsistent-register_participant cell cell_inj b small v.consistent;
    leased = subst (AreAt cell) (sym (leases-register_participant b)) v.leased;
  }
  Step-IsSound b _ (tried _ k p small) v = record {
    consistent = IsConsistent-try_acquire cell cell_inj k p b small v.consistent;
    leased = subst (AreAt cell) (sym (leases-try_acquire (cell k) p b)) v.leased;
  }
  Step-IsSound b _ (queued _ k p small) v = record {
    consistent = IsConsistent-acquire_or_queue_locked cell cell_inj k p b small v.consistent;
    leased = subst (AreAt cell) (sym (leases-acquire_or_queue_locked k (cell k) p b)) v.leased;
  }
  Step-IsSound b _ (released _ k p) v = record {
    consistent = IsConsistent-release cell cell_inj k p b v.consistent;
    leased = subst (AreAt cell) (sym (leases-release k (cell k) p b)) v.leased;
  }
  Step-IsSound b _ (recovered _ k p r) v =
      IsSound-recover_abandoned_resource cell cell_inj k p r b v
  Step-IsSound b _ (expired _ now r) v = IsSound-recover_expired_leases cell cell_inj now r b v
  Step-IsSound b _ (abandoned _ p r) v = IsSound-recover_participant_leases cell cell_inj p r b v
  Step-IsSound b _ (polled _ events) v = IsSound-poll_ready_participants cell cell_inj events b v
  Step-IsSound b _ (attached _ p pid fd added) v =
      IsSound-attach_participant_pid cell cell_inj p pid fd added b v
  Step-IsSound b _ (leased _ k p t) v = record {
    consistent = same cell cell_inj b _ (SameOwners-register_lease k (cell k) p t b) v.consistent;
    leased = AreAt-register_lease cell k p t b v.leased;
  }
  Step-IsSound b _ (renewed _ k p t) v = record {
    consistent = same cell cell_inj b _ (SameOwners-renew_lease k p t b) v.consistent;
    leased = AreAt-renew_lease cell k p t b v.leased;
  }
  Step-IsSound b _ (beaten _ p t) v = record {
    consistent = same cell cell_inj b _ (SameOwners-heartbeat_participant p t b) v.consistent;
    leased = AreAt-heartbeat_participant cell p t b v.leased;
  }
  Step-IsSound b _ (sent _ p m n) v =
      quiet cell cell_inj b _ (SameOwners-send_mailbox_message p m n b)
        (leases-send_mailbox_message p m n b) v
  Step-IsSound b _ (posted _ p d) v =
      quiet cell cell_inj b _ (SameOwners-send_mailbox_descriptor p d b)
        (leases-send_mailbox_descriptor p d b) v
  Step-IsSound b _ (drained _ p) v =
      quiet cell cell_inj b _ (SameOwners-drain_mailbox p b) (leases-drain_mailbox p b) v
  Step-IsSound b _ (emptied _ p) v =
      quiet cell cell_inj b _ (SameOwners-drain_mailbox_descriptors p b)
        (leases-drain_mailbox_descriptors p b) v

  pub Reachable-IsSound : (b : Broker) → Reachable cell b → IsSound cell cell_inj b
  Reachable-IsSound _ initial = new_broker-IsSound
  Reachable-IsSound b' (next b _ r s) = Step-IsSound b b' s (Reachable-IsSound b r)

  -- In every state that these steps reach, for participants with ids below 2^63 and resources with a
  -- state of their own each, the contended bit of a resource is set exactly while someone waits for
  -- it, a resource with waiters has an owner (so that a release is to come), the owner does not wait
  -- for what it owns, and nobody waits twice.
  pub Reachable-IsWaiting :
      (b : Broker) → Reachable cell b → (k : ResourceKey) → IsWaiting (b.words (cell k)) (queue b k)
  Reachable-IsWaiting b r k = (Reachable-IsSound b r).consistent.waiting k
