-- ===== src/Root1/Polling/Events.antt =====
-- The data words of the events of epoll.
use agentc.Root1.Polling.{encode_epoll_data, decode_epoll_participant, decode_epoll_is_pid_fd}
use agentc.Prelude.{ℕ, ◌<◌, ◌^◌, ◌≡◌, Bool, true, false, arith}

-- The word of an event gives back the participant and the kind of the descriptor, for a participant's
-- id below 2^63.
pub decode-encode_epoll_data :
    (participant : ℕ) (pid_fd : Bool)
    → participant < 2 ^ 63
    → (decode_epoll_participant (encode_epoll_data participant pid_fd) ≡ participant)
      × (decode_epoll_is_pid_fd (encode_epoll_data participant pid_fd) ≡ pid_fd)
unfolding encode_epoll_data decode_epoll_participant decode_epoll_is_pid_fd
decode-encode_epoll_data participant true h = (omega arith, ground arith)
decode-encode_epoll_data participant false h = (omega arith, ground arith)
