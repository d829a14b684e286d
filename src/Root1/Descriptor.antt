-- ===== src/Root1/Descriptor.antt =====
-- MailboxDescriptor and its inline payload, and the events of a mailbox.
use agentc.Root1.Mailbox.{MailboxRing}
use agentc.Root1.Resource.{ResourceKey}
use agentc.Prelude.{
  ℕ, zero, suc, ◌-◌, Bool, true, false, List, [], ◌∷◌, ◌++◌, ltb, if◌then◌else◌, length, take,
  Bytes, ◌≡◌, ◌≤◌, refl, ap, arith,
}

pub data MailboxEventKind : Type 0 where
  none_event : MailboxEventKind
  message : MailboxEventKind
  ownership_granted : MailboxEventKind
  progress : MailboxEventKind
  complete : MailboxEventKind
  error : MailboxEventKind
  cancelled : MailboxEventKind
  backpressure : MailboxEventKind
  owner_died : MailboxEventKind

pub data MailboxPayloadKind : Type 0 where
  none_payload : MailboxPayloadKind
  inline_bytes : MailboxPayloadKind
  json : MailboxPayloadKind
  published_slab : MailboxPayloadKind
  blob_handle : MailboxPayloadKind

pub record SlabPayloadHandle : Type 0 where
  pub layer_id : ℕ
  pub slab_id : ℕ
  pub offset : ℕ
  pub generation : ℕ

abbrev pub mailbox_inline_bytes : ℕ
mailbox_inline_bytes = 96

pub record MailboxDescriptor : Type 0 where
  pub sequence : ℕ
  pub correlation_id : ℕ
  pub grant_token : ℕ
  pub resource : ResourceKey
  pub payload_handle : SlabPayloadHandle
  pub event_kind : MailboxEventKind
  pub payload_kind : MailboxPayloadKind
  pub flags : ℕ
  pub inline_size : ℕ
  pub inline_data : Bytes

pub data BrokerEventKind : Type 0 where
  ownership_granted : BrokerEventKind
  mailbox_message : BrokerEventKind

pub record BrokerEvent : Type 0 where
  pub kind : BrokerEventKind
  pub resource : ResourceKey
  pub grant_token : ℕ
  pub sequence : ℕ
  pub payload : Bytes

abbrev pub zeros : ℕ → Bytes
zeros zero = []
zeros (suc n) = 0 ∷ zeros n

abbrev pub no_resource : ResourceKey
no_resource = record {
  layer_id = 0;
  slab_id = 0;
  offset = 0;
  allocator_kind = 0;
  field_id = 0;
  generation = 0;
}

-- `MailboxDescriptor descriptor;`
abbrev pub new_descriptor : MailboxDescriptor
new_descriptor = record {
  sequence = 0;
  correlation_id = 0;
  grant_token = 0;
  resource = no_resource;
  payload_handle = record { layer_id = 0; slab_id = 0; offset = 0; generation = 0 };
  event_kind = none_event;
  payload_kind = none_payload;
  flags = 0;
  inline_size = 0;
  inline_data = zeros 96;
}

abbrev pub empty_slots : ℕ → List MailboxDescriptor
empty_slots zero = []
empty_slots (suc n) = new_descriptor ∷ empty_slots n

-- a ring as it is made, and as `resetForTests` leaves it
abbrev pub new_ring : MailboxRing MailboxDescriptor
new_ring = record { head = 0; tail = 0; slots = empty_slots 64 }

-- The result, and the descriptor after it: a payload above 96 bytes leaves it as it is.
unfoldable pub set_inline_payload : Bytes → MailboxDescriptor → Bool × MailboxDescriptor
set_inline_payload payload descriptor =
    if ltb mailbox_inline_bytes (length payload) then (false, descriptor) else (
      true,
      record descriptor {
        inline_data = payload ++ zeros (mailbox_inline_bytes - length payload);
        inline_size = length payload;
        payload_kind = inline_bytes;
      },
    )

unfoldable pub inline_payload : MailboxDescriptor → Bytes
inline_payload descriptor =
    take
      (if ltb mailbox_inline_bytes descriptor.inline_size
        then mailbox_inline_bytes
        else descriptor.inline_size)
      descriptor.inline_data

take-append : (xs ys : Bytes) → take (length xs) (xs ++ ys) ≡ xs
take-append [] ys = refl
take-append (x ∷ xs) ys = ap (λ zs. x ∷ zs) (take-append xs ys)

-- A payload of at most 96 bytes is stored and read back whole, whatever the descriptor held.
pub inline_payload-set_inline_payload :
    (payload : Bytes) (descriptor : MailboxDescriptor)
    → length payload ≤ 96
    → ((set_inline_payload payload descriptor).0 ≡ true)
      × (inline_payload (set_inline_payload payload descriptor).1 ≡ payload)
unfolding set_inline_payload inline_payload
inline_payload-set_inline_payload payload descriptor h =
    let fits : ltb 96 (length payload) ≡ false = ground arith in
    rw (fits, fits) (refl, take-append payload _)
