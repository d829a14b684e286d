-- ===== src/Root1/Broker.antt =====
-- Root1ResourceBroker: ownership of resources, the queues of waiters, leases and mailboxes. Each
-- operation is whole, as the broker's mutex makes it. The words of the ResourceState objects are a
-- function of their addresses; `wakeups` logs the writes to the participants' event descriptors, the
-- latest first. `grant` and the loop of `next_waiter` are code that `release` and
-- `recoverAbandonedResourceLocked` both spell out.
pub mod Waiting
pub mod Frame
pub mod Consistent
pub mod Quiet
pub mod Recovery
pub mod Reachable
pub mod HandOver
use agentc.Root1.Mailbox.{MailboxRing, try_push, drain}
use agentc.Root1.Resource.{ResourceKey, key_eq, owner, contend, try_acquire_unlocked}
use agentc.Root1.Publication.{PublicationDescriptor}
use agentc.Root1.Descriptor.{
  MailboxDescriptor, MailboxEventKind, BrokerEvent, BrokerEventKind, new_descriptor, no_resource,
  set_inline_payload, new_ring,
}
use agentc.Prelude.{
  ℕ, zero, suc, ◌+◌, ◌%◌, ◌^◌, Bool, true, false, not, ◌&&◌, List, [], ◌∷◌, ◌++◌, Option, none,
  some, ltb, leb, ◌==◌, if◌then◌else◌, Map, lookup, insert, erase, nat_eq, Bytes, codes, String,
}

pub data AcquireStatus : Type 0 where
  acquired queued invalid_participant : AcquireStatus

pub record ParticipantRecord : Type 0 where
  pub mailbox : List BrokerEvent
  pub descriptor_mailbox : MailboxRing MailboxDescriptor
  pub pid_fd : Option ℕ
  pub pid_death_reported : Bool

-- `state` is the address of a ResourceState, never null: `registerLease` takes a reference.
pub record LeaseRecord : Type 0 where
  pub state : ℕ
  pub owner : ℕ
  pub expires_at_tick : ℕ

pub record PublicationLeaseRecord : Type 0 where
  pub owner : ℕ
  pub expires_at_tick : ℕ

pub record Broker : Type 0 where
  pub next_participant : ℕ
  pub next_grant_token : ℕ
  pub participants : Map ℕ ParticipantRecord
  pub waiters : Map ResourceKey (List ℕ)
  pub leases : Map ResourceKey LeaseRecord
  pub words : ℕ → ℕ
  pub wakeups : List ℕ
  pub next_publication_layer_id : ℕ
  pub publication_leases : Map ℕ PublicationLeaseRecord
  pub publications : Map ℕ PublicationDescriptor

abbrev pub increment : ℕ → ℕ
increment n = (n + 1) % 2 ^ 64

-- `state.word_.store(word)`
abbrev pub store : ℕ → ℕ → Broker → Broker
store state word b = record b { words = λ a. if state == a then word else b.words a }

-- `reason.empty() ? "..." : reason`
abbrev pub or_reason : Bytes → String → Bytes
or_reason [] default = codes default
or_reason (x ∷ xs) default = x ∷ xs

abbrev pub is_some {ℓ} : {A : Type ℓ} → Option A → Bool
is_some none = false
is_some (some x) = true

abbrev pub is_valid_participant : Broker → ℕ → Bool
is_valid_participant b participant = is_some (lookup participant b.participants)

-- `emplace`: an entry that is there stays
abbrev pub emplace : ℕ → ParticipantRecord → Map ℕ ParticipantRecord → Map ℕ ParticipantRecord
emplace id p m = if is_some (lookup id m) then m else insert id p m

-- `ParticipantRecord record;` with a mailbox of its own
abbrev pub new_participant : ParticipantRecord
new_participant = record {
  mailbox = [];
  descriptor_mailbox = new_ring;
  pid_fd = none;
  pid_death_reported = false;
}

unfoldable pub register_participant : Broker → ℕ × Broker
register_participant b =
    let id = b.next_participant in
    (
      id,
      record b {
        next_participant = increment id;
        participants = emplace id new_participant b.participants;
      },
    )

abbrev pub notify_participant : ℕ → Broker → Broker
notify_participant participant b = record b { wakeups = participant ∷ b.wakeups }

unfoldable pub push_event : ℕ → BrokerEvent → Broker → Broker
push_event participant event b = elim (lookup participant b.participants) [
  | none ↦ b
  | some p ↦ notify_participant participant (record b {
    participants =
        insert participant (record p { mailbox = p.mailbox ++ event ∷ [] }) b.participants;
  })
]

-- a descriptor for a full ring is dropped, without a wake-up
abbrev pub pushed_descriptor :
    ℕ → ParticipantRecord → Bool × MailboxRing MailboxDescriptor → Broker → Bool × Broker
pushed_descriptor participant p (false, ring) b = (false, b)
pushed_descriptor participant p (true, ring) b = (
  true,
  notify_participant participant (record b {
    participants = insert participant (record p { descriptor_mailbox = ring }) b.participants;
  }),
)

unfoldable pub push_descriptor : ℕ → MailboxDescriptor → Broker → Bool × Broker
push_descriptor participant descriptor b = elim (lookup participant b.participants) [
  | none ↦ (false, b)
  | some p ↦ pushed_descriptor participant p (try_push descriptor p.descriptor_mailbox) b
]

unfoldable pub try_acquire : ℕ → ℕ → Broker → Bool × Broker
try_acquire state participant b =
    if participant == 0
    then (false, b)
    else (let (ok, word) = try_acquire_unlocked (b.words state) participant in
        (ok, store state word b))

abbrev pub mem : ℕ → List ℕ → Bool
mem x [] = false
mem x (y ∷ ys) = let rest = mem x ys in if x == y then true else rest

-- `waiters_[key]`, which is empty where the key is missing
abbrev pub or_empty : Option (List ℕ) → List ℕ
or_empty none = []
or_empty (some q) = q

abbrev pub queue : Broker → ResourceKey → List ℕ
queue b key = or_empty (lookup key b.waiters)

abbrev pub enqueue : List ℕ → ℕ → List ℕ
enqueue q participant = if mem participant q then q else q ++ participant ∷ []

-- The part under the lock; the word may have changed since the first attempt.
unfoldable pub acquire_or_queue_locked : ResourceKey → ℕ → ℕ → Broker → AcquireStatus × Broker
acquire_or_queue_locked key state participant b =
    if not (is_valid_participant b participant)
    then (invalid_participant, b)
    else if owner (b.words state) == participant
    then (acquired, b)
    else if (try_acquire_unlocked (b.words state) participant).0
    then (acquired, store state participant b)
    else (
      queued,
      store state (contend (b.words state))
          (record b { waiters = insert key (enqueue (queue b key) participant) b.waiters }),
    )

unfoldable pub acquire_or_queue : ResourceKey → ℕ → ℕ → Broker → AcquireStatus × Broker
acquire_or_queue key state participant b =
    if participant == 0
    then (invalid_participant, b)
    else if (try_acquire_unlocked (b.words state) participant).0
    then (acquired, store state participant b)
    else acquire_or_queue_locked key state participant b

-- The loop of `release`: waiters that are no participants go, and the first that is one is taken.
unfoldable pub next_waiter : Broker → List ℕ → Option (ℕ × List ℕ)
next_waiter b [] = none
next_waiter b (next ∷ rest) =
    let later = next_waiter b rest in
    if is_valid_participant b next then some (next, rest) else later

abbrev pub has_more : List ℕ → Bool
has_more [] = false
has_more (x ∷ xs) = true

-- `(hasMoreWaiters ? kContendedBit : 0) | next`
abbrev pub granted_word : ℕ → List ℕ → ℕ
granted_word next rest = if has_more rest then contend next else next

abbrev pub grant_event : ResourceKey → ℕ → BrokerEvent
grant_event key token = record {
  kind = BrokerEventKind.ownership_granted;
  resource = key;
  grant_token = token;
  sequence = token;
  payload = [];
}

abbrev pub grant_descriptor : ResourceKey → ℕ → MailboxDescriptor
grant_descriptor key token = record new_descriptor {
  event_kind = MailboxEventKind.ownership_granted;
  resource = key;
  grant_token = token;
  sequence = token;
}

-- the new word and the queue without `next`
abbrev pub hand_over : ResourceKey → ℕ → ℕ → List ℕ → Broker → Broker
hand_over key state next rest b =
    store state (granted_word next rest) (record b { waiters = insert key rest b.waiters })

-- the two messages of a grant, with a fresh token
abbrev pub grant : ResourceKey → ℕ → Broker → Broker
grant key next b =
    let token = b.next_grant_token in
    push_event next (grant_event key token)
      (push_descriptor next (grant_descriptor key token)
        (record b { next_grant_token = increment token })).1

-- no waiter is left: the queue goes, and the word is 0
abbrev pub abandon : ResourceKey → ℕ → Broker → Broker
abandon key state b = store state 0 (record b { waiters = erase key b.waiters })

unfoldable pub release : ResourceKey → ℕ → ℕ → Broker → Bool × Broker
release key state releasing b =
    if releasing == 0
    then (false, b)
    else if not (owner (b.words state) == releasing)
    then (false, b)
    else (elim (next_waiter b (queue b key)) [
      | none ↦ (true, abandon key state b)
      | some (next, rest) ↦ (true, grant key next (hand_over key state next rest b))
    ])

abbrev pub owner_died_descriptor : ResourceKey → ℕ → ℕ → Bytes → MailboxDescriptor
owner_died_descriptor key abandoned token reason =
    (set_inline_payload (or_reason reason "resource owner abandoned") (record new_descriptor {
      event_kind = MailboxEventKind.owner_died;
      resource = key;
      correlation_id = abandoned;
      sequence = token;
    })).1

abbrev pub erase_lease : ResourceKey → Broker → Broker
erase_lease key b = record b { leases = erase key b.leases }

unfoldable pub recover_abandoned_resource : ResourceKey → ℕ → ℕ → Bytes → Broker → Bool × Broker
recover_abandoned_resource key state abandoned reason b =
    if abandoned == 0
    then (false, b)
    else if not (owner (b.words state) == abandoned)
    then (false, b)
    else (elim (next_waiter b (queue b key)) [
      | none ↦ (true, erase_lease key (abandon key state b))
      | some (next, rest) ↦ (
        true,
        erase_lease key (
            grant key next
              (push_descriptor next (owner_died_descriptor key abandoned b.next_grant_token reason)
                (hand_over key state next rest b)).1),
      )
    ])
