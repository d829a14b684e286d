-- ===== src/Kanren/Goal.antt =====
-- The goals of the logic engine (kanren/kanren.cpp), as data in place of closures: `T` is the type of
-- terms, and a thunk of snooze is a key of `R`, whose goal is looked up when the stream is pulled.
use agentc.Prelude.{Option}

mutual
  pub data Goal (T R : Type 0) : Type 0 where
    succeed fail : Goal T R
    equal : T → T → Goal T R
    call_fresh : (T → Goal T R) → Goal T R
    disj disj_fair conj : Goal T R → Goal T R → Goal T R
    conde conde_fair : Clauses T R → Goal T R
    snooze : R → Goal T R

  pub data Clause (T R : Type 0) : Type 0 where
    no_goals : Clause T R
    goal : Goal T R → Clause T R → Clause T R

  pub data Clauses (T R : Type 0) : Type 0 where
    no_clauses : Clauses T R
    clause : Clause T R → Clauses T R → Clauses T R

-- What the engine takes from states, terms and the bodies of thunks; Kanren/Search has that of kanren.cpp. `fresh` gives the variable that
-- call_fresh makes and the state with its count raised.
pub record Engine (T R S : Type 0) : Type 0 where
  pub unify : S → T → T → Option S
  pub fresh : S → T × S
  pub thunk : R → Goal T R

module _ {T R : Type 0} where
  abbrev pub conj_with : Goal T R → Clause T R → Goal T R
  conj_with combined no_goals = combined
  conj_with combined (goal g gs) = conj_with (conj combined g) gs

  abbrev pub conj_all : Clause T R → Goal T R
  conj_all no_goals = succeed
  conj_all (goal g gs) = conj_with g gs
