-- ===== src/Edict/Scanning.antt =====
-- The scan of `runCodeLoop` (edict/edict_vm_core.cpp): after `&` on a failure, and after `|` on a
-- success, the loop passes over instructions instead of running them. The state is what the loop
-- reads and writes while VM_SCANNING is set: the code left in the frame, the mode and the depth.
pub mod Skipped
use agentc.Edict.Opcode.{byte, pushext, throw, catch, eval}
use agentc.Edict.Bytecode.{Payload, read_value}
use agentc.Prelude.{
  ℕ, zero, suc, ◌+◌, ◌-◌, Bool, true, false, not, ◌&&◌, ◌||◌, Bytes, List, [], ◌∷◌, Option, none,
  some, ◌==◌, if◌then◌else◌,
}

pub data ScanMode : Type 0 where
  no_mode from_throw from_catch : ScanMode

pub record Scan : Type 0 where
  pub mode : ScanMode
  pub depth : ℕ
  pub tail_eval : Bool
  pub rest : Bytes

-- One turn of the loop: it scans on, runs on behind a `|`, leaves the frame, or meets a type error.
pub data Turn : Type 0 where
  scanning : Scan → Turn
  resumed : Bytes → Turn
  drained failed : Turn

abbrev pub is_nil : Bytes → Bool
is_nil [] = true
is_nil (b ∷ code) = false

-- `writeFrameIp` behind an operation that was passed over, where the condition allows it
abbrev pub written : Scan → ℕ → Bytes → Bytes
written s op after =
    if not s.tail_eval && (not (op == byte eval) || not (is_nil after)) then after else s.rest

abbrev pub at_depth : Scan → ℕ → Bytes → Turn
at_depth s depth rest = scanning (record s { depth = depth; rest = rest })

-- VMOP_CATCH at depth 0. After a `|` it is dispatched again, and sets the scan on anew.
abbrev pub at_catch : ScanMode → Scan → Bytes → Bytes → Turn
at_catch from_catch s after kept =
    scanning (record { mode = from_catch; depth = 0; tail_eval = false; rest = after })
at_catch _ s after kept = resumed kept

-- VMOP_PUSHEXT, whose value is read and dropped
abbrev pub past_value : Scan → Option (Payload × Bytes) → Turn
past_value s none = failed
past_value s (some (payload, after)) = at_depth s s.depth (written s (byte pushext) after)

unfoldable pub scan_op : Scan → ℕ → Bytes → Turn
scan_op s op code =
    if op == byte pushext
    then past_value s (read_value code)
    else if op == byte throw
    then at_depth s (s.depth + 1) (written s op code)
    else if op == byte catch
    then (if s.depth == 0
        then at_catch s.mode s code (written s op code)
        else at_depth s (s.depth - 1) (written s op code))
    else at_depth s s.depth (written s op code)

unfoldable pub scan_step : Scan → Turn
unfolding scan_op
scan_step s = elim s.rest [ [] ↦ drained | op ∷ code ↦ scan_op s op code ]

pub data Outcome : Type 0 where
  runs_on : Bytes → Outcome
  leaves : Outcome
  type_error : Outcome
  still_scanning : Outcome

-- so many turns
unfoldable pub scan_loop : ℕ → Scan → Outcome
unfolding scan_step
scan_loop zero s = still_scanning
scan_loop (suc n) s = elim (scan_step s) [
  | scanning t ↦ scan_loop n t
  | resumed code ↦ runs_on code
  | drained ↦ leaves
  | failed ↦ type_error
]

-- op_THROW where the state stack held a value, and op_CATCH: the scan that they begin
abbrev pub begin : ScanMode → Bytes → Scan
begin mode rest = record { mode = mode; depth = 0; tail_eval = false; rest = rest }
