-- ===== src/Root1/Publishing/Epochs.antt =====
-- What the registration of a publication leads to.
use agentc.Root1.Publication.{PublicationDescriptor, validate_publication_manifest}
use agentc.Root1.Broker.{Broker, PublicationLeaseRecord, is_valid_participant}
use agentc.Root1.Publishing.{
  check_publication, is_stale, stored, check_holder, check_lease, publish, register_publication,
  lookup_publication,
}
use agentc.Prelude.{
  ℕ, ◌<◌, ◌≡◌, refl, ◌⊎◌, inl, inr, Bool, true, false, Option, none, some, String, Bytes, lookup,
  lookup-insert, nat_eq, beq_refl, ◌==◌, ==_iff, arith, Bool-cases, Option-cases,
}

-- a publication that is there has a smaller epoch
abbrev pub IsOlder : ℕ → Option PublicationDescriptor → Type 0
IsOlder epoch none = Unit
IsOlder epoch (some q) = q.epoch < epoch

not_stale :
    (epoch : ℕ) (o : Option PublicationDescriptor) → is_stale epoch o ≡ false → IsOlder epoch o
not_stale epoch none h = tt
not_stale epoch (some q) h = ground arith

-- What stands behind a registration that succeeds.
pub record IsLeased (p : PublicationDescriptor) (b : Broker) : Type 0 where
  pub lease : PublicationLeaseRecord
  pub found : lookup p.layer_id b.publication_leases ≡ some lease
  pub held : lease.owner ≡ p.owner
  pub valid : is_valid_participant b p.owner ≡ true
  pub older : IsOlder p.epoch (lookup p.layer_id b.publications)

check_holder-none :
    (holds valid stale : Bool)
    → check_holder holds valid stale ≡ none
    → (holds ≡ true) × (valid ≡ true) × (stale ≡ false)
check_holder-none false valid stale e = cc
check_holder-none true false stale e = cc
check_holder-none true true false e = (refl, refl, refl)
check_holder-none true true true e = cc

check_lease-IsLeased :
    (p : PublicationDescriptor) (b : Broker) → check_lease p b ≡ none → IsLeased p b
unfolding check_lease
check_lease-IsLeased p b e = elim (Option-cases (lookup p.layer_id b.publication_leases)) [
  | inl f ↦
      (let no : some "publication layer is not leased" ≡ none = rw (check_lease, f) at e in cc)
  | inr (lease, f) ↦
      (let (holds, valid, fresh) = check_holder-none _ _ _ (rw (check_lease, f) at e) in
        record {
          lease = lease;
          found = f;
          held = (==_iff _ _).0 holds;
          valid = valid;
          older = not_stale _ _ fresh;
        })
]

check_publication-layer :
    (p : PublicationDescriptor) → check_publication p ≡ none → (p.layer_id == 0) ≡ false
unfolding check_publication
check_publication-layer p e = elim (Bool-cases (p.layer_id == 0)) [
  | inl f ↦
      (let no : some "publication layer id is required" ≡ none = rw (check_publication, f) at e in
        cc)
  | inr f ↦ f
]

found :
    (p : PublicationDescriptor) (b : Broker)
    → (p.layer_id == 0) ≡ false
    → IsLeased p b
    → lookup_publication p.layer_id (publish p b) ≡ some (stored p)
unfolding lookup_publication
found p b e l =
    rw
      (
        lookup_publication,
        e,
        l.found,
        lookup-insert p.layer_id p.layer_id (stored p) b.publications,
        beq_refl p.layer_id,
      )
      refl

-- A registration fails, with a message, and leaves the broker as it is; or it succeeds, where the
-- owner is a participant that leases the layer, the manifest fits and the epoch is above that of the
-- publication before, and then the publication is what a lookup of its layer gives.
pub register_publication-lem :
    (read_file : Bytes → Option Bytes) (p : PublicationDescriptor) (b : Broker)
    → ((message : String) × (register_publication read_file p b ≡ (some message, b)))
      ⊎ (((register_publication read_file p b).0 ≡ none)
          × (lookup_publication p.layer_id (register_publication read_file p b).1 ≡ some (stored p))
          × (validate_publication_manifest read_file p ≡ none)
          × IsLeased p b)
unfolding register_publication lookup_publication
register_publication-lem read_file p b = elim (Option-cases (check_publication p)) [
  | inr (message, e) ↦ inl (message, rw (register_publication, e) refl)
  | inl e ↦ elim (Option-cases (validate_publication_manifest read_file p)) [
    | inr (message, f) ↦ inl (message, rw (register_publication, e, f) refl)
    | inl f ↦ elim (Option-cases (check_lease p b)) [
      | inr (message, g) ↦ inl (message, rw (register_publication, e, f, g) refl)
      | inl g ↦ inr (
          rw (register_publication, e, f, g)
            (
              refl,
              found p b (check_publication-layer p e) (check_lease-IsLeased p b g),
              refl,
              check_lease-IsLeased p b g,
            ))
    ]
  ]
]
