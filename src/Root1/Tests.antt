-- ===== src/Root1/Tests.antt =====
-- Runs of the coordination layer at concrete inputs.
use agentc.Root1.Mailbox.{MailboxRing, try_push, try_pop, drain}
use agentc.Root1.Mailbox.Queue.{IsValid, contents, contents-try_push, contents-try_pop}
use agentc.Root1.Mailbox.Drained.{drain-contents}
use agentc.Root1.Descriptor.{
  new_descriptor, set_inline_payload, inline_payload, inline_payload-set_inline_payload,
}
use agentc.Root1.Resource.{ResourceKey, key_eq, key_beq_iff, owner, is_contended}
use agentc.Root1.Broker.{
  is_valid_participant, Broker, AcquireStatus, queued, invalid_participant, register_participant,
  acquire_or_queue_locked, acquire_or_queue, release, recover_abandoned_resource, next_waiter,
  try_acquire, queue, enqueue,
}
use agentc.Root1.Broker.Waiting.{IsWaiting}
use agentc.Root1.Broker.Reachable.{
  Reachable, initial, next, registered, tried, queued, new_broker, Reachable-IsWaiting,
}
use agentc.Root1.Broker.HandOver.{acquire_or_queue-lem}
use agentc.Root1.Leases.{recover_expired_leases, split_expired, recover_each}
use agentc.Root1.Leases.Expired.{recover_expired_leases-late}
use agentc.Root1.Publication.{
  fnv1a64_hex, manifest_contains_publication_metadata, contains, json_number_field,
  json_string_field, PublicationDescriptor, read_only, validate_publication_manifest,
}
use agentc.Root1.Publishing.{
  check_publication, check_lease, register_publication, lookup_publication, stored,
}
use agentc.Root1.Publishing.Epochs.{IsLeased, register_publication-lem}
use agentc.Root1.Slab.{ResourceSlot, find_resource_slot, allocate_resource_slot, held_for}
use agentc.Root1.Slab.Slots.{find-allocate_resource_slot}
use agentc.Prelude.{
  Option, Bytes, bytes_eq, String, ℕ, zero, suc, ◌+◌, ◌*◌, ◌<◌, ◌≡◌, ◌≢◌, refl, ap, Bool, true,
  false, ◌⊎◌, inl, inr, List, [], ◌∷◌, ◌++◌, none, some, if◌then◌else◌, ltb, ◌==◌, length, codes,
  arith, lookup, insert, erase, nat_eq,
}

abbrev sevens : ℕ → List ℕ
sevens zero = []
sevens (suc n) = 7 ∷ sevens n

-- two items wait, the second behind the wrap of the tail
abbrev wrapping : MailboxRing ℕ
wrapping = record { head = 18446744073709551614; tail = 0; slots = sevens 64 }

wrapping-IsValid : IsValid wrapping
wrapping-IsValid = record {
  slots_full = refl;
  head_fits = omega arith;
  tail_fits = omega arith;
  bounded = omega arith;
}

contents-try_push_example :
    ((try_push 9 wrapping).0 ≡ ltb (length (contents wrapping)) 64)
    × (contents (try_push 9 wrapping).1 ≡ (
        if ltb (length (contents wrapping)) 64
        then contents wrapping ++ 9 ∷ []
        else contents wrapping))
    × IsValid (try_push 9 wrapping).1
contents-try_push_example = contents-try_push 9 wrapping wrapping-IsValid

contents-try_pop_example :
    ((contents wrapping ≡ []) × (try_pop wrapping ≡ none))
    ⊎ ((d : ℕ) × (r : MailboxRing ℕ) × (try_pop wrapping ≡ some (d, r))
        × (contents wrapping ≡ d ∷ contents r)
        × IsValid r)
contents-try_pop_example = contents-try_pop wrapping wrapping-IsValid

drain-contents_example :
    ((drain 65 wrapping).0 ≡ contents wrapping)
    × (contents (drain 65 wrapping).1 ≡ [])
    × IsValid (drain 65 wrapping).1
drain-contents_example = drain-contents wrapping wrapping-IsValid

drain-wrapping : (drain 65 wrapping).0 ≡ 7 ∷ 7 ∷ []
unfolding drain try_pop
drain-wrapping = refl

inline_payload-set_inline_payload_example :
    ((set_inline_payload (codes "done") new_descriptor).0 ≡ true)
    × (inline_payload (set_inline_payload (codes "done") new_descriptor).1 ≡ codes "done")
inline_payload-set_inline_payload_example =
    inline_payload-set_inline_payload (codes "done") new_descriptor (omega arith)

-- a one-to-one numbering of the keys
abbrev square : ℕ → ℕ
square zero = 0
square (suc n) = square n + 2 * n + 1

square-lt : (s t : ℕ) → s < t → square s + s < square t
square-lt s zero h = ground arith
square-lt s (suc t) h = elim (lt_cases s t h) [
  | inl less ↦ omega (arith, square-lt s t less)
  | inr same ↦ omega (arith, ap square same)
]
  where
    lt_cases : (s t : ℕ) → s < suc t → (s < t) ⊎ (s ≡ t)
    lt_cases s t h = ground arith

abbrev pair : ℕ → ℕ → ℕ
pair a b = square (a + b) + b

pair_inj : (a b c d : ℕ) → pair a b ≡ pair c d → (a ≡ c) × (b ≡ d)
pair_inj a b c d e = elim (trichotomy (a + b) (c + d)) [
  | inl less ↦ absurd (omega (arith, e, square-lt (a + b) (c + d) less))
  | inr (inl more) ↦ absurd (omega (arith, e, square-lt (c + d) (a + b) more))
  | inr (inr same) ↦
      (omega (arith, e, same, ap square same), omega (arith, e, same, ap square same))
]
  where
    trichotomy : (s t : ℕ) → (s < t) ⊎ (t < s) ⊎ (s ≡ t)
    trichotomy s t = ground arith

abbrev key_number : ResourceKey → ℕ
key_number k =
    pair k.layer_id
      (pair k.slab_id (pair k.offset (pair k.allocator_kind (pair k.field_id k.generation))))

key_number_inj : (j k : ResourceKey) → key_number j ≡ key_number k → j ≡ k
key_number_inj j k e =
    let (a, r) = pair_inj _ _ _ _ e in
    let (b, r) = pair_inj _ _ _ _ r in
    let (c, r) = pair_inj _ _ _ _ r in
    let (d, r) = pair_inj _ _ _ _ r in let (f, g) = pair_inj _ _ _ _ r in cc (a, b, c, d, f, g)

abbrev leaf : ResourceKey
leaf = record {
  layer_id = 1;
  slab_id = 2;
  offset = 3;
  allocator_kind = 0;
  field_id = 4;
  generation = 1;
}

abbrev root : ResourceKey
root = record {
  layer_id = 1;
  slab_id = 2;
  offset = 0;
  allocator_kind = 0;
  field_id = 0;
  generation = 1;
}

leaf-root : leaf ≢ root
leaf-root e = let no : false ≡ true = (key_beq_iff leaf root).1 e in cc

-- the state of a leaf, at its number
abbrev leaf_state : ℕ
leaf_state = key_number leaf

abbrev two_registered : Broker
two_registered = (register_participant (register_participant new_broker).1).1

abbrev first_owns : Broker
first_owns = (try_acquire leaf_state 1 two_registered).1

abbrev second_waits : Broker
second_waits = (acquire_or_queue_locked leaf leaf_state 2 first_owns).1

registered_Reachable : Reachable key_number two_registered
unfolding register_participant
registered_Reachable =
    next _ _ (next _ _ initial (registered new_broker (omega arith)))
      (registered (register_participant new_broker).1 (omega arith))

waiting_Reachable : Reachable key_number second_waits
waiting_Reachable =
    next _ _ (next _ _ registered_Reachable (tried two_registered leaf 1 (omega arith)))
      (queued first_owns leaf 2 (omega arith))

Reachable-IsWaiting_example : IsWaiting (second_waits.words leaf_state) (queue second_waits leaf)
Reachable-IsWaiting_example =
    Reachable-IsWaiting key_number key_number_inj second_waits waiting_Reachable leaf

abbrev released_leaf : Bool × Broker
released_leaf = release leaf leaf_state 1 second_waits

abbrev second : ℕ
second = 2

abbrev third : AcquireStatus × Broker
third = acquire_or_queue leaf leaf_state 2 first_owns

acquire_or_queue-lem_example :
    ((second ≢ 0)
      × ((first_owns.words leaf_state ≡ 0)
          ⊎ ((is_valid_participant first_owns 2 ≡ true)
              × (owner (first_owns.words leaf_state) ≡ 2)))
      × (third.0 ≡ AcquireStatus.acquired)
      × (owner (third.1.words leaf_state) ≡ 2)
      × (queue third.1 leaf ≡ queue first_owns leaf))
    ⊎ ((second ≢ 0)
        × (first_owns.words leaf_state ≢ 0)
        × (is_valid_participant first_owns 2 ≡ true)
        × (owner (first_owns.words leaf_state) ≢ 2)
        × (third.0 ≡ AcquireStatus.queued)
        × (owner (third.1.words leaf_state) ≡ owner (first_owns.words leaf_state))
        × (is_contended (third.1.words leaf_state) ≡ true)
        × (queue third.1 leaf ≡ enqueue (queue first_owns leaf) 2))
    ⊎ (((second ≡ 0)
          ⊎ ((first_owns.words leaf_state ≢ 0) × (is_valid_participant first_owns 2 ≡ false)))
        × (third ≡ (invalid_participant, first_owns)))
acquire_or_queue-lem_example = acquire_or_queue-lem leaf leaf_state 2 first_owns (omega arith)

abbrev empty_slot : ResourceSlot
empty_slot = record { occupied = 0; key = root; word = 0 }

abbrev some_slots : List ResourceSlot
some_slots = held_for root ∷ empty_slot ∷ []

find-allocate_resource_slot_example :
    (find_resource_slot leaf (allocate_resource_slot leaf some_slots).1
      ≡ (allocate_resource_slot leaf some_slots).0)
    × (find_resource_slot root (allocate_resource_slot leaf some_slots).1
        ≡ find_resource_slot root some_slots)
find-allocate_resource_slot_example = find-allocate_resource_slot leaf root some_slots leaf-root

-- one lease that ends at 5 and one that ends at 9
abbrev two_leases : Broker
two_leases = record new_broker {
  words = λ a. if a == 7 then 1 else 0;
  leases =
      (leaf, record { state = 7; owner = 1; expires_at_tick = 5 })
      ∷ (root, record { state = 0; owner = 2; expires_at_tick = 9 })
      ∷ [];
}

late_lease :
    lookup root (recover_expired_leases 6 [] two_leases).1.leases
    ≡ some (record { state = 0; owner = 2; expires_at_tick = 9 })
unfolding lookup erase insert recover_expired_leases split_expired recover_each
    recover_abandoned_resource next_waiter
late_lease = refl

recover_expired_leases-late_example : 6 < 9
recover_expired_leases-late_example =
    recover_expired_leases-late 6 [] two_leases root
      (record { state = 0; owner = 2; expires_at_tick = 9 }) late_lease

abbrev manifest : String
manifest =
    "{\"layer_id\":1,\"epoch\":1,\"permission\":\"read_only\",\"immutable\":true,\"root_layer_id\":1,\"root_slab_id\":2,\"root_offset\":3,\"root_generation\":1}"

-- a file system with one file
abbrev one_file : Bytes → Option Bytes
one_file path = if bytes_eq path (codes "m") then some (codes manifest) else none

abbrev publication : PublicationDescriptor
publication = record {
  layer_id = 1;
  owner = 1;
  epoch = 1;
  manifest_path = codes "m";
  manifest_hash = codes "fnv1a64:5430d99a78859d20";
  root_descriptor = [];
  root_handle = record { layer_id = 0; slab_id = 2; offset = 3; generation = 1 };
  permission = read_only;
  immutable = true;
}

-- the first participant leases a layer
abbrev layer_leased : Broker
layer_leased = record two_registered {
  publication_leases = (1, record { owner = 1; expires_at_tick = 9 }) ∷ [];
}

published : (register_publication one_file publication layer_leased).0 ≡ none
unfolding register_publication check_publication validate_publication_manifest bytes_eq fnv1a64_hex
    manifest_contains_publication_metadata contains json_number_field json_string_field check_lease
    lookup register_participant insert
published = refl

register_publication-lem_example :
    ((message : String) × (register_publication one_file publication layer_leased
        ≡ (some message, layer_leased)))
    ⊎ (((register_publication one_file publication layer_leased).0 ≡ none)
        × (lookup_publication 1 (register_publication one_file publication layer_leased).1
            ≡ some (stored publication))
        × (validate_publication_manifest one_file publication ≡ none)
        × IsLeased publication layer_leased)
register_publication-lem_example = register_publication-lem one_file publication layer_leased
