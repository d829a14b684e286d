-- ===== src/Kanren/Stream.antt =====
-- StateStream (kanren/kanren.cpp): the state of the closure that `next` calls is a value. The streams
-- of conde and of interleaveStreams are started when they are first pulled. The index of
-- interleaveStreams counts pulls; it has 64 bits in the source, which no run fills.
pub mod Answers
pub mod Places
pub mod Pulls
pub mod Rounds
pub mod Run
pub mod Ends
use agentc.Kanren.Goal.{
  Goal, succeed, fail, equal, call_fresh, disj, disj_fair, conj, conde, conde_fair, snooze, Clause,
  Clauses, no_clauses, clause, Engine, conj_all,
}
use agentc.Prelude.{
  ℕ, zero, suc, ◌+◌, ◌%◌, Bool, true, false, ◌&&◌, ◌++◌, ltb, leb, length, if◌then◌else◌, List, [],
  ◌∷◌, Option, none, some,
}

mutual
  pub data Stream (T R S : Type 0) : Type 0 where
    ready : List S → Stream T R S
    snoozed : R → S → Stream T R S
    woken : Stream T R S → Stream T R S
    disj_stream : Stream T R S → Stream T R S → Bool → Stream T R S
    conj_left : Stream T R S → Goal T R → Stream T R S
    conj_right : Stream T R S → Goal T R → Stream T R S → Stream T R S
    conde_stream interleaved : Slots T R S → ℕ → Stream T R S

  -- a factory and its optional stream, for each clause
  pub data Slots (T R S : Type 0) : Type 0 where
    no_slots : Slots T R S
    factory : Goal T R → S → Slots T R S → Slots T R S
    running : Stream T R S → Slots T R S → Slots T R S

module _ {T R S : Type 0} where
  abbrev pub factories : S → Clauses T R → Slots T R S
  factories s no_clauses = no_slots
  factories s (clause c cs) = factory (conj_all c) s (factories s cs)

  abbrev pub size : Slots T R S → ℕ
  size no_slots = 0
  size (factory g s slots) = suc (size slots)
  size (running st slots) = suc (size slots)

  abbrev pub put : ℕ → Stream T R S → Slots T R S → Slots T R S
  put i st no_slots = no_slots
  put zero st (factory g s slots) = running st slots
  put zero st (running old slots) = running st slots
  put (suc i) st (factory g s slots) = factory g s (put i st slots)
  put (suc i) st (running old slots) = running old (put i st slots)

  abbrev pub of_state : Option S → Stream T R S
  of_state none = ready []
  of_state (some s) = ready (s ∷ [])

-- A pull gives a state, or none at the end, and the stream after it; `none` around the pair: out of fuel.
abbrev pub Pull : Type 0 → Type 0 → Type 0 → Type 0
Pull T R S = Option (Option S × Stream T R S)

module _ {T R S : Type 0} (e : Engine T R S) where
  -- the call of a goal on a state
  unfoldable pub begin : Goal T R → S → Stream T R S
  begin succeed s = ready (s ∷ [])
  begin fail s = ready []
  begin (equal u v) s = of_state (e.unify s u v)
  begin (call_fresh f) s = begin (f (e.fresh s).0) (e.fresh s).1
  begin (disj g h) s = disj_stream (begin g s) (begin h s) true
  begin (disj_fair g h) s = interleaved (factory g s (factory h s no_slots)) 0
  begin (conj g h) s = conj_left (begin g s) h
  begin (conde cs) s = conde_stream (factories s cs) 0
  begin (conde_fair cs) s = interleaved (factories s cs) 0
  begin (snooze k) s = snoozed k s

  abbrev pub stream_at : ℕ → Slots T R S → Option (Stream T R S)
  stream_at i no_slots = none
  stream_at zero (factory g s slots) = some (begin g s)
  stream_at zero (running st slots) = some st
  stream_at (suc i) (factory g s slots) = stream_at i slots
  stream_at (suc i) (running st slots) = stream_at i slots

  abbrev pub after : Pull T R S → (Option S → Stream T R S → Pull T R S) → Pull T R S
  after none k = none
  after (some (o, st)) k = k o st

  abbrev pub disj_next :
      (Stream T R S → Pull T R S) → Stream T R S → Option S → Stream T R S → Pull T R S
  disj_next go right (some s) left = some (some s, disj_stream left right true)
  disj_next go right none left = after (go right) (λ o st. some (o, disj_stream left st false))

  abbrev pub conj_left_next :
      (Stream T R S → Pull T R S) → Goal T R → Option S → Stream T R S → Pull T R S
  conj_left_next go rhs none left = some (none, conj_left left rhs)
  conj_left_next go rhs (some s) left = go (conj_right left rhs (begin rhs s))

  abbrev pub conj_right_next :
      (Stream T R S → Pull T R S) → Stream T R S → Goal T R → Option S → Stream T R S → Pull T R S
  conj_right_next go left rhs (some s) current = some (some s, conj_right left rhs current)
  conj_right_next go left rhs none current = go (conj_left left rhs)

  abbrev pub conde_next :
      (Stream T R S → Pull T R S) → Slots T R S → ℕ → Option S → Stream T R S → Pull T R S
  conde_next go slots i (some s) st = some (some s, conde_stream (put i st slots) i)
  conde_next go slots i none st = go (conde_stream (put i st slots) (suc i))

  abbrev pub conde_at :
      (Stream T R S → Pull T R S) → Slots T R S → ℕ → Option (Stream T R S) → Pull T R S
  conde_at go slots i none = some (none, conde_stream slots i)
  conde_at go slots i (some st) = after (go st) (conde_next go slots i)

  -- `rest` is the loop with one stream more checked.
  abbrev pub interleaved_next :
      (Slots T R S → ℕ → Pull T R S) → Slots T R S → ℕ → Option S → Stream T R S → Pull T R S
  interleaved_next rest slots i (some s) st =
      some (some s, interleaved (put (i % size slots) st slots) (suc i))
  interleaved_next rest slots i none st = rest (put (i % size slots) st slots) (suc i)

  abbrev pub interleaved_at :
      (Stream T R S → Pull T R S)
      → (Slots T R S → ℕ → Pull T R S)
      → Slots T R S
      → ℕ
      → Option (Stream T R S)
      → Pull T R S
  interleaved_at go rest slots i none = some (none, interleaved slots i)
  interleaved_at go rest slots i (some st) = after (go st) (interleaved_next rest slots i)

  -- the loop of interleaveStreams, with the number of streams that are still to be checked
  unfoldable pub check : (Stream T R S → Pull T R S) → ℕ → Slots T R S → ℕ → Pull T R S
  check go zero slots i = some (none, interleaved slots i)
  check go (suc n) slots i =
      interleaved_at go (check go n) slots i (stream_at (i % size slots) slots)

  -- One pull, with `go` for the pulls that it makes itself; a turn of a loop is such a pull too.
  unfoldable pub pull : (Stream T R S → Pull T R S) → Stream T R S → Pull T R S
  unfolding check
  pull go (ready []) = some (none, ready [])
  pull go (ready (s ∷ ss)) = some (some s, ready ss)
  pull go (snoozed k s) = after (go (begin (e.thunk k) s)) (λ o st. some (o, woken st))
  pull go (woken inner) = after (go inner) (λ o st. some (o, woken st))
  pull go (disj_stream left right true) = after (go left) (disj_next go right)
  pull go (disj_stream left right false) =
      after (go right) (λ o st. some (o, disj_stream left st false))
  pull go (conj_left left rhs) = after (go left) (conj_left_next go rhs)
  pull go (conj_right left rhs current) = after (go current) (conj_right_next go left rhs)
  pull go (conde_stream slots i) = conde_at go slots i (stream_at i slots)
  pull go (interleaved slots i) = check go (size slots) slots i

  unfoldable pub next : ℕ → Stream T R S → Pull T R S
  next zero st = none
  next (suc fuel) st = pull (next fuel) st

  abbrev pub collected :
      {V : Type 0}
      → (List V → Stream T R S → Option (List V))
      → (S → V)
      → ℕ
      → List V
      → Pull T R S
      → Option (List V)
  collected go answer limit out none = none
  collected go answer limit out (some (none, st)) = some out
  collected go answer limit out (some (some s, st)) =
      let found = out ++ answer s ∷ [] in
      let rest = go found st in if ltb 0 limit && leb limit (length found) then some found else rest

  -- the loop of `run`; `answer` reifies the queries in a state
  unfoldable pub collect : {V : Type 0} → (S → V) → ℕ → ℕ → List V → Stream T R S → Option (List V)
  collect answer zero limit out st = none
  collect answer (suc fuel) limit out st =
      collected (collect answer fuel limit) answer limit out (next fuel st)

  unfoldable pub run : {V : Type 0} → (S → V) → ℕ → ℕ → Goal T R → S → Option (List V)
  unfolding begin collect
  run answer fuel limit g s = collect answer fuel limit [] (begin g s)
