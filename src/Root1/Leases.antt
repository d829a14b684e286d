-- ===== src/Root1/Leases.antt =====
-- The leases of Root1ResourceBroker on resources. `leases_` is walked in the order of its list.
pub mod Expired
pub mod Cells
use agentc.Root1.Resource.{ResourceKey, key_eq, owner}
use agentc.Root1.Broker.{
  LeaseRecord, Broker, is_valid_participant, or_reason, recover_abandoned_resource,
}
use agentc.Prelude.{
  ℕ, suc, ◌+◌, Bool, true, false, not, ◌&&◌, List, [], ◌∷◌, Option, none, some, leb, ◌==◌,
  if◌then◌else◌, Map, lookup, insert, erase, Bytes, codes,
}

unfoldable pub register_lease : ResourceKey → ℕ → ℕ → ℕ → Broker → Bool × Broker
register_lease key state holder expires_at_tick b =
    if holder == 0
    then (false, b)
    else if not (is_valid_participant b holder)
    then (false, b)
    else if not (owner (b.words state) == holder)
    then (false, b)
    else (
      true,
      record b {
        leases =
            insert key (record { state = state; owner = holder; expires_at_tick = expires_at_tick })
              b.leases;
      },
    )

-- the holder of the lease still owns its resource
abbrev pub holds : Broker → LeaseRecord → ℕ → Bool
holds b lease holder = lease.owner == holder && owner (b.words lease.state) == holder

abbrev pub renewed : ℕ → LeaseRecord → LeaseRecord
renewed expires_at_tick lease = record lease { expires_at_tick = expires_at_tick }

unfoldable pub renew_lease : ResourceKey → ℕ → ℕ → Broker → Bool × Broker
renew_lease key holder expires_at_tick b =
    if holder == 0 then (false, b) else (elim (lookup key b.leases) [
      | none ↦ (false, b)
      | some lease ↦
          (if holds b lease holder
            then (true, record b { leases = insert key (renewed expires_at_tick lease) b.leases })
            else (false, b))
    ])

abbrev pub renew_held :
    Broker → ℕ → ℕ → Map ResourceKey LeaseRecord → ℕ × Map ResourceKey LeaseRecord
renew_held b holder expires_at_tick [] = (0, [])
renew_held b holder expires_at_tick ((key, lease) ∷ m) =
    let (n, rest) = renew_held b holder expires_at_tick m in
    if holds b lease holder
    then (suc n, (key, renewed expires_at_tick lease) ∷ rest)
    else (n, (key, lease) ∷ rest)

unfoldable pub heartbeat_participant : ℕ → ℕ → Broker → ℕ × Broker
heartbeat_participant holder expires_at_tick b =
    if holder == 0
    then (0, b)
    else (let (n, leases) = renew_held b holder expires_at_tick b.leases in
        (n, record b { leases = leases }))

-- the expired leases and those that stay
unfoldable pub split_expired :
    ℕ → Map ResourceKey LeaseRecord → Map ResourceKey LeaseRecord × Map ResourceKey LeaseRecord
split_expired now [] = ([], [])
split_expired now ((key, lease) ∷ m) =
    let (expired, kept) = split_expired now m in
    if leb lease.expires_at_tick now
    then ((key, lease) ∷ expired, kept)
    else (expired, (key, lease) ∷ kept)

abbrev pub recovered_key : ResourceKey → Bool → List ResourceKey → List ResourceKey
recovered_key key true keys = key ∷ keys
recovered_key key false keys = keys

unfoldable pub recover_each :
    Bytes → Map ResourceKey LeaseRecord → Broker → List ResourceKey × Broker
recover_each reason [] b = ([], b)
recover_each reason ((key, lease) ∷ m) b =
    let (ok, b') = recover_abandoned_resource key lease.state lease.owner reason b in
    let (keys, b'') = recover_each reason m b' in (recovered_key key ok keys, b'')

unfoldable pub recover_expired_leases : ℕ → Bytes → Broker → List ResourceKey × Broker
recover_expired_leases now reason b =
    let (expired, kept) = split_expired now b.leases in
    recover_each (or_reason reason "resource lease expired") expired (record b { leases = kept })

abbrev pub owned_keys : ℕ → Map ResourceKey LeaseRecord → List ResourceKey
owned_keys holder [] = []
owned_keys holder ((key, lease) ∷ m) =
    let rest = owned_keys holder m in if lease.owner == holder then key ∷ rest else rest

unfoldable pub recover_owned : Bytes → List ResourceKey → Broker → List ResourceKey × Broker
recover_owned reason [] b = ([], b)
recover_owned reason (key ∷ keys) b = elim (lookup key b.leases) [
  | none ↦ recover_owned reason keys b
  | some lease ↦
      (let (ok, b') = recover_abandoned_resource key lease.state lease.owner reason b in
        let (recovered, b'') = recover_owned reason keys b' in
        (recovered_key key ok recovered, b''))
]

unfoldable pub recover_participant_leases : ℕ → Bytes → Broker → List ResourceKey × Broker
recover_participant_leases holder reason b =
    recover_owned (or_reason reason "participant owner abandoned") (owned_keys holder b.leases) b
