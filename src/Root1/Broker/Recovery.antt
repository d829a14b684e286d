-- ===== src/Root1/Broker/Recovery.antt =====
-- The operations of the broker that recover resources, or follow the processes of participants.
use agentc.Root1.Resource.{ResourceKey, key_eq}
use agentc.Root1.Broker.{
  Broker, ParticipantRecord, LeaseRecord, or_reason, recover_abandoned_resource,
}
use agentc.Root1.Leases.{
  split_expired, recover_each, recover_expired_leases, owned_keys, recover_owned,
  recover_participant_leases,
}
use agentc.Root1.Leases.Expired.{leases-push_descriptor}
use agentc.Root1.Leases.Cells.{
  AreAt, AreAt-lookup, AreAt-split_expired, AreAt-recover_abandoned_resource,
}
use agentc.Root1.Polling.{
  attach_participant_pid, poll_ready_participants, report_death, handle_event, died,
  decode_epoll_participant, decode_epoll_is_pid_fd,
}
use agentc.Root1.Broker.Frame.{SameOwners, SameOwners-trans, SameOwners-push_descriptor}
use agentc.Root1.Broker.Quiet.{replaced}
use agentc.Root1.Broker.Consistent.{IsConsistent, same, IsConsistent-recover_abandoned_resource}
use agentc.Prelude.{
  ◌==◌, ℕ, ◌≡◌, refl, sym, subst, Bool, true, false, List, [], ◌∷◌, Option, none, some, Map, lookup,
  nat_eq, Bytes, codes, Option-cases, Bool-cases, inl, inr,
}

module _ (cell : ResourceKey → ℕ) (cell_inj : (j k : ResourceKey) → cell j ≡ cell k → j ≡ k) where
  pub record IsSound (b : Broker) : Type 0 where
    pub consistent : IsConsistent cell cell_inj b
    pub leased : AreAt cell b.leases

  pub quiet : (b b' : Broker) → SameOwners b b' → b'.leases ≡ b.leases → IsSound b → IsSound b'
  quiet b b' s e v = record {
    consistent = same cell cell_inj b b' s v.consistent;
    leased = subst (AreAt cell) (sym e) v.leased;
  }

  pub IsSound-recover_abandoned_resource :
      (k : ResourceKey) (p : ℕ) (reason : Bytes) (b : Broker)
      → IsSound b
      → IsSound (recover_abandoned_resource k (cell k) p reason b).1
  IsSound-recover_abandoned_resource k p reason b v = record {
    consistent = IsConsistent-recover_abandoned_resource cell cell_inj k p reason b v.consistent;
    leased = AreAt-recover_abandoned_resource cell k (cell k) p reason b v.leased;
  }

  -- the state that the lease points to is the key's
  IsSound-recover_lease :
      (k : ResourceKey) (l : LeaseRecord) (reason : Bytes) (b : Broker)
      → l.state ≡ cell k
      → IsSound b
      → IsSound (recover_abandoned_resource k l.state l.owner reason b).1
  IsSound-recover_lease k l reason b at v =
      subst (λ a. IsSound (recover_abandoned_resource k a l.owner reason b).1) (sym at)
        (IsSound-recover_abandoned_resource k l.owner reason b v)

  IsSound-recover_each :
      (reason : Bytes) (m : Map ResourceKey LeaseRecord) (b : Broker)
      → AreAt cell m
      → IsSound b
      → IsSound (recover_each reason m b).1
  unfolding recover_each
  IsSound-recover_each reason [] b at v = v
  IsSound-recover_each reason ((k, l) ∷ m) b at v =
      IsSound-recover_each reason m _ at.1 (IsSound-recover_lease k l reason b at.0 v)

  pub IsSound-recover_expired_leases :
      (now : ℕ) (reason : Bytes) (b : Broker)
      → IsSound b
      → IsSound (recover_expired_leases now reason b).1
  unfolding recover_expired_leases
  IsSound-recover_expired_leases now reason b v =
      let (out, kept) = AreAt-split_expired cell now b.leases v.leased in
      IsSound-recover_each (or_reason reason "resource lease expired")
        (split_expired now b.leases).0 (record b { leases = (split_expired now b.leases).1 }) out
        (record {
          consistent =
              same cell cell_inj b _
                (record { words = refl; waiters = refl; valid = λ p. refl; ids = refl })
                v.consistent;
          leased = kept;
        })

  IsSound-recover_owned :
      (reason : Bytes) (keys : List ResourceKey) (b : Broker)
      → IsSound b
      → IsSound (recover_owned reason keys b).1
  unfolding recover_owned
  IsSound-recover_owned reason [] b v = v
  IsSound-recover_owned reason (k ∷ keys) b v = elim (Option-cases (lookup k b.leases)) [
    | inl e ↦ rw (recover_owned, e) (IsSound-recover_owned reason keys b v)
    | inr (l, e) ↦
        rw (recover_owned, e)
          (IsSound-recover_owned reason keys _
            (IsSound-recover_lease k l reason b (AreAt-lookup cell k l b.leases v.leased e) v))
  ]

  pub IsSound-recover_participant_leases :
      (p : ℕ) (reason : Bytes) (b : Broker)
      → IsSound b
      → IsSound (recover_participant_leases p reason b).1
  unfolding recover_participant_leases
  IsSound-recover_participant_leases p reason b v =
      IsSound-recover_owned (or_reason reason "participant owner abandoned") (owned_keys p b.leases)
        b v

  IsSound-report_death :
      (p : ℕ) (r : ParticipantRecord) (b : Broker)
      → lookup p b.participants ≡ some r
      → IsSound b
      → IsSound (report_death p r b)
  IsSound-report_death p r b e v = elim (Bool-cases r.pid_death_reported) [
    | inl f ↦ rw (f) v
    | inr f ↦ rw (f) (
        IsSound-recover_participant_leases p (codes "participant process exited") _ (
          quiet _ _
            (SameOwners-trans b _ _ (replaced p _ r b e) (SameOwners-push_descriptor p (died p) _))
            (leases-push_descriptor p (died p) _) v))
  ]

  IsSound-handle_event :
      (p : ℕ) (r : ParticipantRecord) (is_pid : Bool) (b : Broker)
      → lookup p b.participants ≡ some r
      → IsSound b
      → IsSound (handle_event p r is_pid b)
  IsSound-handle_event p r true b e v = IsSound-report_death p r b e v
  IsSound-handle_event p r false b e v = v

  pub IsSound-poll_ready_participants :
      (events : List ℕ) (b : Broker) → IsSound b → IsSound (poll_ready_participants events b).1
  unfolding poll_ready_participants
  IsSound-poll_ready_participants [] b v = v
  IsSound-poll_ready_participants (d ∷ events) b v =
      elim (Option-cases (lookup (decode_epoll_participant d) b.participants)) [
        | inl e ↦ rw (poll_ready_participants, e) (IsSound-poll_ready_participants events b v)
        | inr (r, e) ↦
            rw (poll_ready_participants, e)
              (IsSound-poll_ready_participants events _ (
                IsSound-handle_event (decode_epoll_participant d) r (decode_epoll_is_pid_fd d) b e
                  v))
      ]

  pub IsSound-attach_participant_pid :
      (p pid : ℕ) (fd : Option ℕ) (added : Bool) (b : Broker)
      → IsSound b
      → IsSound (attach_participant_pid p pid fd added b).1
  unfolding attach_participant_pid
  IsSound-attach_participant_pid p pid none added b v = v
  IsSound-attach_participant_pid p pid (some fd) added b v = elim (Bool-cases (p == 0)) [
    | inl e ↦ rw (attach_participant_pid, e) v
    | inr e ↦ elim (Bool-cases (pid == 0)) [
      | inl f ↦ rw (attach_participant_pid, e, f) v
      | inr f ↦ elim (Option-cases (lookup p b.participants)) [
        | inl g ↦ rw (attach_participant_pid, e, f, g) v
        | inr (r, g) ↦ elim (Bool-cases added) [
          | inr h ↦ rw (attach_participant_pid, e, f, g, h) v
          | inl h ↦ rw (attach_participant_pid, e, f, g, h) (quiet b _ (replaced p _ r b g) refl v)
        ]
      ]
    ]
  ]
