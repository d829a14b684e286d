-- ===== src/Root1/Messages.antt =====
-- The mailboxes of Root1ResourceBroker: what is sent to a participant and what it drains.
use agentc.Root1.Mailbox.{drain}
use agentc.Root1.Descriptor.{
  MailboxDescriptor, MailboxEventKind, BrokerEvent, BrokerEventKind, new_descriptor, no_resource,
  set_inline_payload,
}
use agentc.Root1.Broker.{Broker, is_valid_participant, push_event, push_descriptor}
use agentc.Prelude.{
  ℕ, Bool, true, false, not, List, [], ◌∷◌, none, some, if◌then◌else◌, lookup, insert, nat_eq,
  Bytes,
}

-- whether the payload fits the descriptor's inline bytes is not looked at
unfoldable pub send_mailbox_message : ℕ → Bytes → ℕ → Broker → Bool × Broker
send_mailbox_message participant payload sequence b =
    if not (is_valid_participant b participant) then (false, b) else (
      true,
      push_event participant
          (record {
            kind = BrokerEventKind.mailbox_message;
            resource = no_resource;
            grant_token = 0;
            sequence = sequence;
            payload = payload;
          })
          (push_descriptor participant
            (set_inline_payload payload (record new_descriptor {
              event_kind = MailboxEventKind.message;
              sequence = sequence;
            })).1
            b).1,
    )

unfoldable pub send_mailbox_descriptor : ℕ → MailboxDescriptor → Broker → Bool × Broker
send_mailbox_descriptor participant descriptor b =
    if not (is_valid_participant b participant)
    then (false, b)
    else push_descriptor participant descriptor b

-- a descriptor with an optional reason; a reason that does not fit is not sent
abbrev pub send_reason : ℕ → Bytes → MailboxDescriptor → Broker → Bool × Broker
send_reason participant [] descriptor b = send_mailbox_descriptor participant descriptor b
send_reason participant (x ∷ reason) descriptor b =
    let (fits, filled) = set_inline_payload (x ∷ reason) descriptor in
    if fits then send_mailbox_descriptor participant filled b else (false, b)

unfoldable pub send_cancellation : ℕ → ℕ → Bytes → Broker → Bool × Broker
send_cancellation participant correlation_id reason b =
    send_reason participant reason
      (record new_descriptor {
        event_kind = MailboxEventKind.cancelled;
        correlation_id = correlation_id;
      })
      b

unfoldable pub send_backpressure : ℕ → ℕ → Bytes → Broker → Bool × Broker
send_backpressure participant correlation_id reason b =
    send_reason participant reason
      (record new_descriptor {
        event_kind = MailboxEventKind.backpressure;
        correlation_id = correlation_id;
      })
      b

unfoldable pub drain_mailbox : ℕ → Broker → List BrokerEvent × Broker
drain_mailbox participant b = elim (lookup participant b.participants) [
  | none ↦ ([], b)
  | some p ↦ (
    p.mailbox,
    record b { participants = insert participant (record p { mailbox = [] }) b.participants },
  )
]

-- a ring holds at most 64 descriptors, and the last round finds it empty
unfoldable pub drain_mailbox_descriptors : ℕ → Broker → List MailboxDescriptor × Broker
drain_mailbox_descriptors participant b = elim (lookup participant b.participants) [
  | none ↦ ([], b)
  | some p ↦
      (let (descriptors, ring) = drain 65 p.descriptor_mailbox in
        (
          descriptors,
          record b {
            participants =
                insert participant (record p { descriptor_mailbox = ring }) b.participants;
          },
        ))
]
