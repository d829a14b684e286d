-- ===== src/Edict/Scanning/Skipped.antt =====
-- What a scan passes over, as a search through the list of instructions.
use agentc.Edict.Opcode.{VmOpcode, byte, pushext, throw, catch, eval, dispatch, dispatch-byte}
use agentc.Edict.Bytecode.{Instr, op, push, Payload}
use agentc.Edict.Bytecode.RoundTrip.{encode_all, IsWritable, AllWritable, read_value-encode_payload}
use agentc.Edict.Scanning.{
  ScanMode, no_mode, from_throw, from_catch, Scan, Turn, scanning, resumed, drained, failed, is_nil,
  written, at_catch, scan_op, scan_step, Outcome, runs_on, leaves, type_error, still_scanning,
  scan_loop,
}
use agentc.Prelude.{
  ℕ, zero, suc, ◌+◌, ◌-◌, ◌<◌, ◌≡◌, ◌≢◌, refl, sym, ap, ◌∙◌, Bool, true, false, Bytes, List, [],
  ◌∷◌, Option, none, some, ◌==◌, if◌then◌else◌, length, arith, inl, inr, Bool-cases, ==_iff, subst,
  get_elem?,
}

-- at the `|` of depth 0: the search ends, or it goes on after a `|`
abbrev behind : ScanMode → Option (List Instr) → List Instr → Option (List Instr)
behind from_catch same is = same
behind _ same is = some is

-- The instructions behind the `|` that ends a scan, or `none` where it goes to the end of the frame.
-- A `&` opens a pair that its `|` closes; after a `|` every further `|` is passed over.
unfoldable pub skip : ScanMode → ℕ → List Instr → Option (List Instr)
skip mode d [] = none
skip mode d (push p ∷ is) = skip mode d is
skip mode d (op o ∷ is) =
    let deeper = skip mode (d + 1) is in
    let up = skip mode (d - 1) is in
    let same = skip mode d is in
    if byte o == byte throw
    then deeper
    else if byte o == byte catch
    then (if d == 0 then behind mode same is else up)
    else same

-- The last instruction of a frame is an evaluation.
abbrev pub ends_in_eval : List Instr → Bool
ends_in_eval [] = false
ends_in_eval (push p ∷ is) = ends_in_eval is
ends_in_eval (op o ∷ []) = byte o == byte eval
ends_in_eval (op o ∷ i ∷ is) = ends_in_eval (i ∷ is)

-- How a scan ends, by whether the frame ends in an evaluation, and what the search finds.
abbrev pub outcome : Bool → Option (List Instr) → Outcome
outcome last_eval (some is) = runs_on (encode_all is)
outcome false none = leaves
outcome true none = still_scanning

byte-eval : (o : VmOpcode) → (byte o == byte eval) ≡ true → o ≡ eval
byte-eval o h =
    let p = (==_iff (byte o) (byte eval)).0 h in
    let e : some o ≡ some eval =
      sym (dispatch-byte o) ∙ ap (get_elem? dispatch) p ∙ dispatch-byte eval in
    cc

byte-pushext : (o : VmOpcode) → o ≢ pushext → (byte o == byte pushext) ≡ false
byte-pushext o h = elim (Bool-cases (byte o == byte pushext)) [
  | inr other ↦ other
  | inl same ↦ absurd (
      let p = (==_iff (byte o) (byte pushext)).0 same in
      let e : some o ≡ some pushext =
        sym (dispatch-byte o) ∙ ap (get_elem? dispatch) p ∙ dispatch-byte pushext in
      h (let q : o ≡ pushext = cc in q))
]

abbrev at_scan : ScanMode → ℕ → Bytes → Scan
at_scan mode d rest = record { mode = mode; depth = d; tail_eval = false; rest = rest }

is_nil-encode_all : (i : Instr) (is : List Instr) → is_nil (encode_all (i ∷ is)) ≡ false
is_nil-encode_all (op o) is = refl
is_nil-encode_all (push p) is = refl

-- Behind an operation the position moves on, unless it is an evaluation at the end.
written-more :
    (mode : ScanMode) (d : ℕ) (o : VmOpcode) (i : Instr) (is : List Instr)
    → written (at_scan mode d (encode_all (op o ∷ i ∷ is))) (byte o) (encode_all (i ∷ is))
      ≡ encode_all (i ∷ is)
written-more mode d o i is = rw (is_nil-encode_all i is) (ground arith)

written-last :
    (mode : ScanMode) (d : ℕ) (o : VmOpcode)
    → (byte o == byte eval) ≡ false
    → written (at_scan mode d (encode_all (op o ∷ []))) (byte o) [] ≡ []
written-last mode d o h = rw h refl

scan_step-push :
    (mode : ScanMode) (d : ℕ) (p : Payload) (is : List Instr)
    → IsWritable (push p)
    → scan_step (at_scan mode d (encode_all (push p ∷ is)))
      ≡ scanning (at_scan mode d (encode_all is))
unfolding scan_step scan_op byte
scan_step-push mode d p is w = rw (read_value-encode_payload p (encode_all is) w) refl

-- One turn at an operation, when the position moves on.
scan_step-op :
    (mode : ScanMode) (d : ℕ) (o : VmOpcode) (is : List Instr)
    → o ≢ pushext
    → written (at_scan mode d (encode_all (op o ∷ is))) (byte o) (encode_all is) ≡ encode_all is
    → scan_step (at_scan mode d (encode_all (op o ∷ is))) ≡ (
        if byte o == byte throw
        then scanning (at_scan mode (d + 1) (encode_all is))
        else if byte o == byte catch
        then (if d == 0
            then at_catch mode
                (at_scan mode d (encode_all (op o ∷ is)))
                (encode_all is)
                (encode_all is)
            else scanning (at_scan mode (d - 1) (encode_all is)))
        else scanning (at_scan mode d (encode_all is)))
unfolding scan_step scan_op
scan_step-op mode d o is h e = rw (scan_step, scan_op, byte-pushext o h, e) refl

-- What a `|` at depth 0 leads to.
abbrev go_on : ℕ → Turn → Outcome
go_on n (scanning t) = scan_loop n t
go_on n (resumed code) = runs_on code
go_on n drained = leaves
go_on n failed = type_error

at_zero :
    (n : ℕ) (mode : ScanMode) (d : ℕ) (o : VmOpcode) (is : List Instr) (last : Bool)
    → d ≡ 0
    → scan_loop n (at_scan mode 0 (encode_all is)) ≡ outcome last (skip mode 0 is)
    → go_on n
        (at_catch mode (at_scan mode d (encode_all (op o ∷ is))) (encode_all is) (encode_all is))
      ≡ outcome last (behind mode (skip mode d is) is)
at_zero n from_catch d o is last z h = h ∙ ap (λ k. outcome last (skip from_catch k is)) (sym z)
at_zero n from_throw d o is last z h = refl
at_zero n no_mode d o is last z h = refl

-- A turn at an operation that the position moves past, and the turns behind it.
scan_loop-op :
    (n : ℕ) (mode : ScanMode) (d : ℕ) (o : VmOpcode) (is : List Instr) (last : Bool)
    → o ≢ pushext
    → written (at_scan mode d (encode_all (op o ∷ is))) (byte o) (encode_all is) ≡ encode_all is
    → ((k : ℕ) → scan_loop n (at_scan mode k (encode_all is)) ≡ outcome last (skip mode k is))
    → scan_loop (suc n) (at_scan mode d (encode_all (op o ∷ is)))
      ≡ outcome last (skip mode d (op o ∷ is))
unfolding scan_loop skip
scan_loop-op n mode d o is last w e ih = elim (Bool-cases (byte o == byte throw)) [
  | inl t ↦ rw (scan_loop, scan_step-op mode d o is w e, skip, t) (ih (d + 1))
  | inr nt ↦ elim (Bool-cases (byte o == byte catch)) [
    | inr nc ↦ rw (scan_loop, scan_step-op mode d o is w e, skip, nt, nc) (ih d)
    | inl c ↦ elim (Bool-cases (d == 0)) [
      | inr nz ↦ rw (scan_loop, scan_step-op mode d o is w e, skip, nt, c, nz) (ih (d - 1))
      | inl z ↦
          rw (scan_loop, scan_step-op mode d o is w e, skip, nt, c, z)
            (at_zero n mode d o is last ((==_iff d 0).0 z) (ih 0))
    ]
  ]
]

scan_step-last :
    (mode : ScanMode) (d : ℕ)
    → scan_step (at_scan mode d (encode_all (op eval ∷ [])))
      ≡ scanning (at_scan mode d (encode_all (op eval ∷ [])))
unfolding scan_step scan_op byte
scan_step-last mode d = refl

stuck :
    (n : ℕ) (mode : ScanMode) (d : ℕ)
    → scan_loop n (at_scan mode d (encode_all (op eval ∷ []))) ≡ still_scanning
unfolding scan_loop
stuck zero mode d = refl
stuck (suc n) mode d = rw (scan_loop, scan_step-last mode d) (stuck n mode d)

scan_loop_nil : (n : ℕ) (mode : ScanMode) (d : ℕ) → scan_loop (suc n) (at_scan mode d []) ≡ leaves
unfolding scan_loop
scan_loop_nil n mode d = refl

-- A scan of a frame, given one turn for each instruction and one more, runs on behind the `|` that
-- belongs to its `&`, or leaves the frame at its end; only where it would leave a frame whose last
-- instruction is an evaluation it is still scanning, whatever number of turns it is given.
pub scan_loop-skip :
    (n : ℕ) (mode : ScanMode) (d : ℕ) (is : List Instr)
    → AllWritable is
    → length is < n
    → scan_loop n (record { mode = mode; depth = d; tail_eval = false; rest = encode_all is })
      ≡ outcome (ends_in_eval is) (skip mode d is)
unfolding skip byte scan_loop
scan_loop-skip zero mode d is w h = absurd (omega arith)
scan_loop-skip (suc n) mode d [] w h = scan_loop_nil n mode d
scan_loop-skip (suc n) mode d (push p ∷ is) w h =
    rw (scan_loop, scan_step-push mode d p is w.0) (scan_loop-skip n mode d is w.1 (omega arith))
scan_loop-skip (suc n) mode d (op o ∷ i ∷ is) w h =
    scan_loop-op n mode d o (i ∷ is) (ends_in_eval (i ∷ is)) w.0 (written-more mode d o i is)
      (λ k. scan_loop-skip n mode k (i ∷ is) w.1 (omega arith))
scan_loop-skip (suc n) mode d (op o ∷ []) w h = elim (Bool-cases (byte o == byte eval)) [
  | inl e ↦
      let p = byte-eval o e in
      subst
        (λ q.
          scan_loop (suc n) (at_scan mode d (encode_all (op q ∷ [])))
          ≡ outcome (byte q == byte eval) (skip mode d (op q ∷ [])))
        (sym p) (stuck (suc n) mode d)
  | inr other ↦ rw other (
      scan_loop-op n mode d o [] false w.0 (written-last mode d o other)
        (λ k. scan_loop-skip n mode k [] tt (omega arith)))
]
