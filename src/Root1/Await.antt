-- ===== src/Root1/Await.antt =====
-- Root1AwaitScheduler (edict/root1_await_scheduler.cpp): continuations that wait for the mailbox of a
-- participant of the broker. What a callback does to its machine is outside; its result is kept. The
-- events of epoll are a parameter, as in the broker's poll. A callback that calls the scheduler, saveState and loadState are not here.
pub mod Indexed
pub mod Polled
pub mod TimedOut
pub mod Reachable
use agentc.Root1.Descriptor.{MailboxDescriptor}
use agentc.Root1.Broker.{Broker, or_empty}
use agentc.Root1.Messages.{drain_mailbox_descriptors}
use agentc.Root1.Polling.{poll_ready_participants}
use agentc.Prelude.{
  ℕ, zero, suc, ◌+◌, ◌%◌, ◌^◌, Bool, true, false, not, ◌&&◌, List, [], ◌∷◌, ◌++◌, Option, none,
  some, ltb, ◌==◌, if◌then◌else◌, length, Map, nat_eq, lookup, insert, erase,
}

pub data ContinuationState : Type 0 where
  invalid parked ready resumed timeout cancelled : ContinuationState

pub record ParkedContinuation : Type 0 where
  pub handle : ℕ
  pub participant : ℕ
  pub state : ContinuationState
  pub events_delivered : ℕ
  pub resume_state : ℕ
  pub last_events : List MailboxDescriptor
  pub resume : Option (List MailboxDescriptor → ℕ)

pub record Scheduler : Type 0 where
  pub next_id : ℕ
  pub continuations : Map ℕ ParkedContinuation
  pub by_participant : Map ℕ (List ℕ)

pub record PollResult : Type 0 where
  pub ready_participants : List ℕ
  pub ready_continuations : ℕ
  pub resumed_continuations : ℕ
  pub timed_out_continuations : ℕ

abbrev pub new_scheduler : Scheduler
new_scheduler = record { next_id = 1; continuations = []; by_participant = [] }

abbrev pub is_parked : ContinuationState → Bool
is_parked parked = true
is_parked _ = false

abbrev pub handles_of : ℕ → Scheduler → List ℕ
handles_of participant s = or_empty (lookup participant s.by_participant)

-- `emplace`, which keeps an entry that is there
abbrev pub emplace :
    ℕ
    → ParkedContinuation
    → Option ParkedContinuation
    → Map ℕ ParkedContinuation
    → Map ℕ ParkedContinuation
emplace h c none m = insert h c m
emplace h c (some _) m = m

abbrev pub parked_at : ℕ → ℕ → Option (List MailboxDescriptor → ℕ) → ParkedContinuation
parked_at handle participant resume = record {
  handle = handle;
  participant = participant;
  state = parked;
  events_delivered = 0;
  resume_state = 0;
  last_events = [];
  resume = resume;
}

unfoldable pub park : ℕ → Option (List MailboxDescriptor → ℕ) → Scheduler → ℕ × Scheduler
park participant resume s = if participant == 0 then (0, s) else (
  s.next_id,
  record {
    next_id = (s.next_id + 1) % 2 ^ 64;
    continuations =
        emplace s.next_id (parked_at s.next_id participant resume)
          (lookup s.next_id s.continuations) s.continuations;
    by_participant =
        insert participant (handles_of participant s ++ s.next_id ∷ []) s.by_participant;
  },
)

-- `std::remove` and `erase` on the handles of a participant
abbrev pub without : ℕ → List ℕ → List ℕ
without h [] = []
without h (k ∷ ks) = let rest = without h ks in if k == h then rest else k ∷ rest

abbrev pub put_handles : ℕ → List ℕ → Map ℕ (List ℕ) → Map ℕ (List ℕ)
put_handles participant [] m = erase participant m
put_handles participant (h ∷ hs) m = insert participant (h ∷ hs) m

abbrev pub without_entry : ℕ → ℕ → Option (List ℕ) → Map ℕ (List ℕ) → Map ℕ (List ℕ)
without_entry handle participant none m = m
without_entry handle participant (some hs) m = put_handles participant (without handle hs) m

unfoldable pub remove_from_participant_index : ℕ → ℕ → Map ℕ (List ℕ) → Map ℕ (List ℕ)
remove_from_participant_index handle participant m =
    without_entry handle participant (lookup participant m) m

abbrev pub ended : ℕ → ContinuationState → Scheduler → ParkedContinuation → Scheduler
ended handle state s c = record s {
  continuations = insert handle (record c { state = state }) s.continuations;
  by_participant = remove_from_participant_index handle c.participant s.by_participant;
}

abbrev pub mark_found :
    ℕ → ContinuationState → Scheduler → Option ParkedContinuation → Bool × Scheduler
mark_found handle state s none = (false, s)
mark_found handle state s (some c) =
    if is_parked c.state then (true, ended handle state s c) else (false, s)

unfoldable pub mark_terminal : ℕ → ContinuationState → Scheduler → Bool × Scheduler
unfolding remove_from_participant_index
mark_terminal handle state s = mark_found handle state s (lookup handle s.continuations)

unfoldable pub cancel : ℕ → Scheduler → Bool × Scheduler
unfolding mark_terminal
cancel handle s = mark_terminal handle cancelled s

abbrev pub drop_found : ℕ → Scheduler → Option ParkedContinuation → Bool × Scheduler
drop_found handle s none = (false, s)
drop_found handle s (some c) = (
  true,
  record s {
    continuations = erase handle s.continuations;
    by_participant = remove_from_participant_index handle c.participant s.by_participant;
  },
)

unfoldable pub drop : ℕ → Scheduler → Bool × Scheduler
unfolding remove_from_participant_index
drop handle s = drop_found handle s (lookup handle s.continuations)

abbrev pub parked_handles : Map ℕ ParkedContinuation → List ℕ
parked_handles [] = []
parked_handles ((h, c) ∷ m) =
    let rest = parked_handles m in if is_parked c.state then h ∷ rest else rest

-- With the number of those timed out.
unfoldable pub time_out : List ℕ → Scheduler → ℕ × Scheduler
unfolding mark_terminal
time_out [] s = (0, s)
time_out (h ∷ hs) s =
    let (marked, t) = mark_terminal h timeout s in
    let (n, u) = time_out hs t in (if marked then n + 1 else n, u)

abbrev pub new_result : List ℕ → PollResult
new_result participants = record {
  ready_participants = participants;
  ready_continuations = 0;
  resumed_continuations = 0;
  timed_out_continuations = 0;
}

-- One continuation is given the descriptors; with a callback it is resumed, and otherwise ready.
abbrev pub given : List MailboxDescriptor → ParkedContinuation → ParkedContinuation
given ds c = elim c.resume [
  | none ↦ record c { last_events = ds; events_delivered = length ds; state = ready }
  | some f ↦ record c {
    last_events = ds;
    events_delivered = length ds;
    resume_state = f ds;
    state = resumed;
  }
]

abbrev pub deliver_found :
    ℕ → List MailboxDescriptor → Scheduler → Option ParkedContinuation → Scheduler
deliver_found handle ds s none = s
deliver_found handle ds s (some c) =
    if is_parked c.state
    then record s { continuations = insert handle (given ds c) s.continuations }
    else s

abbrev pub counted : PollResult → Option ParkedContinuation → PollResult
counted r none = r
counted r (some c) = if not (is_parked c.state) then r else (elim c.resume [
  | none ↦ record r { ready_continuations = r.ready_continuations + 1 }
  | some _ ↦ record r { resumed_continuations = r.resumed_continuations + 1 }
])

unfoldable pub deliver :
    List ℕ → List MailboxDescriptor → PollResult → Scheduler → PollResult × Scheduler
deliver [] ds r s = (r, s)
deliver (h ∷ hs) ds r s =
    let found = lookup h s.continuations in
    deliver hs ds (counted r found) (deliver_found h ds s found)

abbrev pub wake_with : ℕ → List MailboxDescriptor → PollResult → Scheduler → PollResult × Scheduler
wake_with participant [] r s = (r, s)
wake_with participant (d ∷ ds) r s =
    deliver (handles_of participant s) (d ∷ ds) r
      (record s { by_participant = erase participant s.by_participant })

-- The mailbox is drained only where a handle waits for it.
abbrev pub wake_one : ℕ → List ℕ → PollResult → Broker → Scheduler → PollResult × Broker × Scheduler
wake_one participant [] r b s = (r, b, s)
wake_one participant (_ ∷ _) r b s =
    let (ds, after) = drain_mailbox_descriptors participant b in
    let (q, t) = wake_with participant ds r s in (q, after, t)

unfoldable pub wake : List ℕ → PollResult → Broker → Scheduler → PollResult × Broker × Scheduler
unfolding deliver
wake [] r b s = (r, b, s)
wake (p ∷ ps) r b s = let (q, c, t) = wake_one p (handles_of p s) r b s in wake ps q c t

unfoldable pub poll_and_resume : List ℕ → ℕ → Broker → Scheduler → PollResult × Broker × Scheduler
unfolding time_out wake
poll_and_resume events timeout_ms broker s =
    let (participants, b) = poll_ready_participants events broker in
    if (length participants == 0) && ltb 0 timeout_ms
    then (let (n, t) = time_out (parked_handles s.continuations) s in
        (record (new_result participants) { timed_out_continuations = n }, b, t))
    else wake participants (new_result participants) b s
