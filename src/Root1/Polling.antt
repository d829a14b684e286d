-- ===== src/Root1/Polling.antt =====
-- attachParticipantPid and pollReadyParticipants of Root1ResourceBroker. What epoll_wait returns is a
-- parameter, the list of the data words of its events; so are the descriptor that pidfd_open gives, none
-- on failure, and whether epoll_ctl takes it. Draining an event descriptor changes the kernel's counter
-- only.
pub mod Events
use agentc.Root1.Descriptor.{
  MailboxDescriptor, MailboxEventKind, new_descriptor, set_inline_payload,
}
use agentc.Root1.Broker.{Broker, ParticipantRecord, push_descriptor}
use agentc.Root1.Leases.{recover_participant_leases}
use agentc.Prelude.{
  ℕ, ◌+◌, ◌*◌, ◌/◌, ◌%◌, ◌^◌, Bool, true, false, not, List, [], ◌∷◌, Option, none, some, ◌==◌,
  if◌then◌else◌, lookup, insert, nat_eq, codes,
}

-- `(participant << 1) | (pidFd ? 1 : 0)`
unfoldable pub encode_epoll_data : ℕ → Bool → ℕ
encode_epoll_data participant pid_fd = (participant * 2) % 2 ^ 64 + (if pid_fd then 1 else 0)

unfoldable pub decode_epoll_participant : ℕ → ℕ
decode_epoll_participant data' = data' / 2

unfoldable pub decode_epoll_is_pid_fd : ℕ → Bool
decode_epoll_is_pid_fd data' = not (data' % 2 == 0)

-- `pid_fd` is what openPidFd gives, `added` whether EPOLL_CTL_ADD succeeds
unfoldable pub attach_participant_pid : ℕ → ℕ → Option ℕ → Bool → Broker → Bool × Broker
attach_participant_pid participant pid none added b = (false, b)
attach_participant_pid participant pid (some fd) added b =
    if participant == 0
    then (false, b)
    else if pid == 0
    then (false, b)
    else (elim (lookup participant b.participants) [
      | none ↦ (false, b)
      | some p ↦
          (if not added then (false, b) else (
            true,
            record b {
              participants =
                  insert participant (record p { pid_fd = some fd; pid_death_reported = false })
                    b.participants;
            },
          ))
    ])

abbrev pub died : ℕ → MailboxDescriptor
died participant =
    (set_inline_payload (codes "participant process exited") (record new_descriptor {
      event_kind = MailboxEventKind.owner_died;
      correlation_id = participant;
    })).1

-- the death of a participant's process, reported once
abbrev pub report_death : ℕ → ParticipantRecord → Broker → Broker
report_death participant p b =
    if p.pid_death_reported
    then b
    else (recover_participant_leases participant (codes "participant process exited")
        (push_descriptor participant (died participant) (record b {
          participants = insert participant (record p { pid_death_reported = true }) b.participants;
        })).1).1

abbrev pub handle_event : ℕ → ParticipantRecord → Bool → Broker → Broker
handle_event participant p true b = report_death participant p b
handle_event participant p false b = b

-- the loop over the events
unfoldable pub poll_ready_participants : List ℕ → Broker → List ℕ × Broker
poll_ready_participants [] b = ([], b)
poll_ready_participants (data' ∷ events) b =
    let participant = decode_epoll_participant data' in
    elim (lookup participant b.participants) [
      | none ↦ poll_ready_participants events b
      | some p ↦
          (let (ready, after) =
              poll_ready_participants events
                (handle_event participant p (decode_epoll_is_pid_fd data') b) in
            (participant ∷ ready, after))
    ]
