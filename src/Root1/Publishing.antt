-- ===== src/Root1/Publishing.antt =====
-- The publication layers of Root1ResourceBroker: a participant leases a layer, registers publications
-- of it at growing epochs, and retires it. A result `none` of `register_publication` is the result
-- true, and a message the result false.
pub mod Epochs
use agentc.Root1.Publication.{
  PublicationDescriptor, PublicationPermission, no_permission, read_only,
  validate_publication_manifest, is_nil,
}
use agentc.Root1.Broker.{Broker, PublicationLeaseRecord, is_some, is_valid_participant}
use agentc.Prelude.{
  ℕ, zero, suc, ◌+◌, ◌%◌, ◌^◌, Bool, true, false, not, ◌&&◌, ◌||◌, List, [], ◌∷◌, Option, none,
  some, String, leb, ◌==◌, if◌then◌else◌, Map, lookup, insert, erase, nat_eq, Bytes, length,
}

abbrev pub next_layer : ℕ → ℕ
next_layer id = (id + 1) % 2 ^ 32

-- the loop that passes over 0 and the layers in use; `none` where the fuel runs out
unfoldable pub free_layer : ℕ → ℕ → Broker → Option ℕ
free_layer zero id b = none
free_layer (suc fuel) id b =
    elim (id == 0
      || is_some (lookup id b.publication_leases)
      || is_some (lookup id b.publications)) [
        | true ↦ free_layer fuel (next_layer id) b
        | false ↦ some id
      ]

-- each number of a layer once
unfoldable pub lease_publication_layer : ℕ → ℕ → Broker → Option (ℕ × Broker)
lease_publication_layer holder expires_at_tick b =
    if holder == 0
    then some (0, b)
    else if not (is_valid_participant b holder)
    then some (0, b)
    else (elim (free_layer (2 ^ 32) b.next_publication_layer_id b) [
      | none ↦ none
      | some id ↦ some (
        id,
        record b {
          next_publication_layer_id = next_layer id;
          publication_leases =
              insert id (record { owner = holder; expires_at_tick = expires_at_tick })
                b.publication_leases;
        },
      )
    ])

unfoldable pub renew_publication_lease : ℕ → ℕ → ℕ → Broker → Bool × Broker
renew_publication_lease layer_id holder expires_at_tick b =
    if layer_id == 0 || holder == 0
    then (false, b)
    else (elim (lookup layer_id b.publication_leases) [
      | none ↦ (false, b)
      | some lease ↦
          (if not (lease.owner == holder) || not (is_valid_participant b holder)
            then (false, b)
            else (
              true,
              record b {
                publication_leases =
                    insert layer_id (record lease { expires_at_tick = expires_at_tick })
                      b.publication_leases;
              },
            ))
    ])

abbrev pub is_read_only : PublicationPermission → Bool
is_read_only no_permission = false
is_read_only read_only = true

-- the checks before the lock, without the manifest
unfoldable pub check_publication : PublicationDescriptor → Option String
check_publication p =
    if p.layer_id == 0
    then some "publication layer id is required"
    else if p.owner == 0
    then some "publication owner is required"
    else if p.epoch == 0
    then some "publication epoch is required"
    else if is_nil p.manifest_path || is_nil p.manifest_hash
    then some "publication manifest path/hash are required"
    else if not p.immutable || not (is_read_only p.permission)
    then some "publication must be immutable and read-only"
    else if not (p.root_handle.layer_id == 0) && not (p.root_handle.layer_id == p.layer_id)
    then some "publication root handle layer mismatch"
    else none

-- the epoch of a publication that is there already is not smaller
abbrev pub is_stale : ℕ → Option PublicationDescriptor → Bool
is_stale epoch none = false
is_stale epoch (some current) = leb epoch current.epoch

abbrev pub stored : PublicationDescriptor → PublicationDescriptor
stored p =
    if p.root_handle.layer_id == 0
    then record p { root_handle = record (p.root_handle) { layer_id = p.layer_id } }
    else p

abbrev pub check_holder : Bool → Bool → Bool → Option String
check_holder holds valid stale =
    if not holds
    then some "publication owner does not hold the layer lease"
    else if not valid
    then some "publication owner is not an active participant"
    else if stale
    then some "publication epoch is stale"
    else none

-- the checks under the lock
unfoldable pub check_lease : PublicationDescriptor → Broker → Option String
check_lease p b = elim (lookup p.layer_id b.publication_leases) [
  | none ↦ some "publication layer is not leased"
  | some lease ↦
      check_holder (lease.owner == p.owner) (is_valid_participant b p.owner)
        (is_stale p.epoch (lookup p.layer_id b.publications))
]

abbrev pub publish : PublicationDescriptor → Broker → Broker
publish p b = record b { publications = insert p.layer_id (stored p) b.publications }

-- the first message of the three
abbrev pub or_else : Option String → Option String → Option String
or_else none other = other
or_else (some message) other = some message

abbrev pub finish : PublicationDescriptor → Option String → Broker → Option String × Broker
finish p none b = (none, publish p b)
finish p (some message) b = (some message, b)

unfoldable pub register_publication :
    (Bytes → Option Bytes) → PublicationDescriptor → Broker → Option String × Broker
register_publication read_file p b =
    finish p
      (or_else (check_publication p)
        (or_else (validate_publication_manifest read_file p) (check_lease p b)))
      b

unfoldable pub lookup_publication : ℕ → Broker → Option PublicationDescriptor
lookup_publication layer_id b =
    if layer_id == 0
    then none
    else if is_some (lookup layer_id b.publication_leases)
    then lookup layer_id b.publications
    else none

unfoldable pub retire_publication : ℕ → ℕ → Broker → Bool × Broker
retire_publication layer_id holder b =
    if layer_id == 0 || holder == 0
    then (false, b)
    else (elim (lookup layer_id b.publication_leases) [
      | none ↦ (false, b)
      | some lease ↦
          (if not (lease.owner == holder) then (false, b) else (
            true,
            record b {
              publications = erase layer_id b.publications;
              publication_leases = erase layer_id b.publication_leases;
            },
          ))
    ])

-- the layers whose leases have ended, the leases that stay, and the publications that stay
unfoldable pub expire_layers :
    ℕ
    → Map ℕ PublicationLeaseRecord
    → Map ℕ PublicationDescriptor
    → List ℕ × (Map ℕ PublicationLeaseRecord × Map ℕ PublicationDescriptor)
expire_layers now [] publications = ([], ([], publications))
expire_layers now ((layer_id, lease) ∷ leases) publications =
    let ended = leb lease.expires_at_tick now in
    let (expired, (kept, left)) =
      expire_layers now leases (if ended then erase layer_id publications else publications) in
    if ended
    then (layer_id ∷ expired, (kept, left))
    else (expired, ((layer_id, lease) ∷ kept, left))

unfoldable pub recover_expired_publication_leases : ℕ → Broker → List ℕ × Broker
recover_expired_publication_leases now b =
    let (expired, (kept, left)) = expire_layers now b.publication_leases b.publications in
    (expired, record b { publication_leases = kept; publications = left })
