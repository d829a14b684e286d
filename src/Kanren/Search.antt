-- ===== src/Kanren/Search.antt =====
-- The search (kanren/kanren.cpp, `run`) with the unification of kanren.cpp. A unification has so much fuel;
-- one that does not return with it counts as failed here, and `Returns` says that none is.
pub mod Safety
pub mod Agreement
pub mod Runs
use agentc.Kanren.Goal.{
  Goal, succeed, fail, equal, call_fresh, disj, disj_fair, conj, conde, conde_fair, Clause, Clauses,
  Engine, conj_all,
}
use agentc.Kanren.Term.{Term}
use agentc.Kanren.Unify.{State, unify, fresh}
use agentc.Kanren.Unify.Fuel.{unify_more}
use agentc.Kanren.Stream.{run}
use agentc.Kanren.Stream.Answers.{
  IsClause, Solves, solves_succeed, solves_equal, solves_fresh, solves_left, solves_right,
  fair_left, fair_right, solves_both, solves_conde, solves_conde_fair, solves_snooze,
}
use agentc.Kanren.Stream.Run.{IsAnswered}
use agentc.Kanren.Stream.Ends.{IsPlain}
use agentc.Kanren.Stream.Ends.Plain.{run-plain}
use agentc.Prelude.{ℕ, ◌≤◌, ◌≡◌, sym, ap, ◌∙◌, List, Option, none, some}

abbrev pub settled : Option (Option State) → Option State
settled none = none
settled (some o) = o

-- the goals, terms and states of kanren.cpp
unfoldable pub kanren : {R : Type 0} → (R → Goal Term R) → ℕ → Engine Term R State
kanren thunk n = record { unify = λ s u v. settled (unify n s u v); fresh = fresh; thunk = thunk }

module _ {R : Type 0} (thunk : R → Goal Term R) where
  -- Every unification that the goal can ask for, from the state on, returns with this fuel.
  pub data Returns (n : ℕ) : Goal Term R → State → Type 0 where
    returns_succeed : {s : State} → Returns n succeed s
    returns_fail : {s : State} → Returns n fail s
    returns_equal :
        {u v : Term} {s : State} (r : Option State)
        → unify n s u v ≡ some r
        → Returns n (equal u v) s
    returns_fresh :
        {f : Term → Goal Term R} {s : State}
        → Returns n (f (fresh s).0) (fresh s).1
        → Returns n (call_fresh f) s
    returns_disj :
        {g h : Goal Term R} {s : State} → Returns n g s → Returns n h s → Returns n (disj g h) s
    returns_disj_fair :
        {g h : Goal Term R} {s : State}
        → Returns n g s
        → Returns n h s
        → Returns n (disj_fair g h) s
    returns_conj :
        {g h : Goal Term R} {s : State}
        → Returns n g s
        → ((t : State) → Solves (kanren thunk n) g s t → Returns n h t)
        → Returns n (conj g h) s
    returns_conde :
        {cs : Clauses Term R} {s : State}
        → ((c : Clause Term R) → IsClause c cs → Returns n (conj_all c) s)
        → Returns n (conde cs) s
    returns_conde_fair :
        {cs : Clauses Term R} {s : State}
        → ((c : Clause Term R) → IsClause c cs → Returns n (conj_all c) s)
        → Returns n (conde_fair cs) s

  settled-some : (o : Option (Option State)) (t : State) → settled o ≡ some t → o ≡ some (some t)
  settled-some none t p = cc
  settled-some (some o) t p = ap some p

  -- With more fuel for the unifications a goal has the same solutions and maybe others.
  pub Solves-more :
      (n m : ℕ) (l : n ≤ m) {g : Goal Term R} {s t : State}
      → Solves (kanren thunk n) g s t
      → Solves (kanren thunk m) g s t
  unfolding kanren
  Solves-more n m l (solves_succeed p) = solves_succeed p
  Solves-more n m l (solves_equal {u = u} {v = v} {s = s} {t = t} p) =
      solves_equal (ap settled (unify_more n m s u v (some t) l (settled-some (unify n s u v) t p)))
  Solves-more n m l (solves_fresh q) = solves_fresh (Solves-more n m l q)
  Solves-more n m l (solves_left q) = solves_left (Solves-more n m l q)
  Solves-more n m l (solves_right q) = solves_right (Solves-more n m l q)
  Solves-more n m l (fair_left q) = fair_left (Solves-more n m l q)
  Solves-more n m l (fair_right q) = fair_right (Solves-more n m l q)
  Solves-more n m l (solves_both q r) = solves_both (Solves-more n m l q) (Solves-more n m l r)
  Solves-more n m l (solves_conde c i q) = solves_conde c i (Solves-more n m l q)
  Solves-more n m l (solves_conde_fair c i q) = solves_conde_fair c i (Solves-more n m l q)
  Solves-more n m l (solves_snooze q) = solves_snooze (Solves-more n m l q)

  -- Where the unifications return it has no others.
  pub Solves-less :
      (n m : ℕ) (l : n ≤ m) {g : Goal Term R} {s t : State}
      → Solves (kanren thunk m) g s t
      → Returns n g s
      → Solves (kanren thunk n) g s t
  unfolding kanren
  Solves-less n m l (solves_succeed p) returns_succeed = solves_succeed p
  Solves-less n m l (solves_equal {u = u} {v = v} {s = s} {t = t} p) (returns_equal r q) =
      solves_equal (ap settled q ∙ ap settled (sym (unify_more n m s u v r l q)) ∙ p)
  Solves-less n m l (solves_fresh q) (returns_fresh x) = solves_fresh (Solves-less n m l q x)
  Solves-less n m l (solves_left q) (returns_disj x y) = solves_left (Solves-less n m l q x)
  Solves-less n m l (solves_right q) (returns_disj x y) = solves_right (Solves-less n m l q y)
  Solves-less n m l (fair_left q) (returns_disj_fair x y) = fair_left (Solves-less n m l q x)
  Solves-less n m l (fair_right q) (returns_disj_fair x y) = fair_right (Solves-less n m l q y)
  Solves-less n m l (solves_both {m = mid} q r) (returns_conj x f) =
      let first = Solves-less n m l q x in solves_both first (Solves-less n m l r (f mid first))
  Solves-less n m l (solves_conde c i q) (returns_conde f) =
      solves_conde c i (Solves-less n m l q (f c i))
  Solves-less n m l (solves_conde_fair c i q) (returns_conde_fair f) =
      solves_conde_fair c i (Solves-less n m l q (f c i))
  Solves-less n m l (solves_snooze q) x = elim x [ ]

  module _ {V : Type 0} (answer : State → V) (limit : ℕ) where
    pub IsAnswered-more :
        (n m : ℕ) (l : n ≤ m) (g : Goal Term R) (s : State) (found : List V)
        → Returns n g s
        → IsAnswered (kanren thunk n) answer limit g s found
        → IsAnswered (kanren thunk m) answer limit g s found
    IsAnswered-more n m l g s found x a = record {
      sound = λ y i. let (t, q, p) = a.sound y i in (t, Solves-more n m l q, p);
      complete = λ t short q. a.complete t short (Solves-less n m l q x);
      bounded = a.bounded;
    }
