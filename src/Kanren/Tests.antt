-- ===== src/Kanren/Tests.antt =====
-- Runs of the logic engine at concrete inputs.
use agentc.Kanren.Goal.{
  Goal, equal, conj, disj, disj_fair, conde_fair, fail, no_goals, goal, no_clauses, clause, Engine,
  snooze,
}
use agentc.Kanren.Stream.{run, next, pull}
use agentc.Kanren.Stream.Run.{IsAnswered, run-IsAnswered}
use agentc.Kanren.Stream.Answers.{Solves, solves_equal, fair_left, fair_right}
use agentc.Kanren.Search.{kanren, Returns, returns_equal, returns_disj_fair, returns_conj}
use agentc.Kanren.Search.Runs.{run-Returns}
use agentc.Kanren.Term.{copy_bindings, Term, value, list, no_items, item, Fields, no_fields, field}
use agentc.Kanren.Unify.{State, unify, walk, extend, create_logic_var}
use agentc.Kanren.Unify.Endless.{unify-two_objects}
use agentc.Prelude.{
  bytes_key, codes, bytes_eq, lookup, insert, ℕ, ◌+◌, ◌≤◌, ◌≡◌, subst, Map, Bytes, refl, true,
  false, List, [], ◌∷◌, none, some, arith, ◌==◌, if◌then◌else◌,
}

-- states are lists of numbers, `equal u v` asks whether two numbers are equal, and one thunk is there
abbrev toy : Engine ℕ ℕ (List ℕ)
toy = record {
  unify = λ s u v. if u == v then some (u ∷ s) else none;
  fresh = λ s. (0, 7 ∷ s);
  thunk = λ k. disj_fair (equal k k) (snooze (k + 1));
}

abbrev plain_goal : Goal ℕ ℕ
plain_goal =
    conj (disj (equal 1 1) (equal 2 2))
      (conde_fair (clause (goal (equal 3 3) no_goals) (clause (goal fail no_goals) no_clauses)))

plain_run : run toy (λ s. s) 20 0 plain_goal [] ≡ some ((3 ∷ 1 ∷ []) ∷ (3 ∷ 2 ∷ []) ∷ [])
unfolding run next pull
plain_run = refl

endless_run : run toy (λ s. s) 20 3 (snooze 5) [] ≡ some ((5 ∷ []) ∷ (6 ∷ []) ∷ (7 ∷ []) ∷ [])
unfolding run next pull
endless_run = refl

run-IsAnswered_example :
    IsAnswered toy (λ s. s) 3 (snooze 5) [] ((5 ∷ []) ∷ (6 ∷ []) ∷ (7 ∷ []) ∷ [])
run-IsAnswered_example =
    run-IsAnswered toy (λ s. s) 3 20 (snooze 5) [] ((5 ∷ []) ∷ (6 ∷ []) ∷ (7 ∷ []) ∷ []) endless_run

abbrev empty_state : State
empty_state = record { sub = []; count = 1; next_object = 20 }

-- a value with one field k, of text "a"
abbrev record_of_a : ℕ → ℕ → Term
record_of_a a b =
    value a false [] (field (codes "k") (value b false (codes "a") no_fields) no_fields)

-- the lists [x {k: "a"}] and ["b" {k: "a"}]
abbrev left : Term
left = list 1 (item (create_logic_var 2 0) (item (record_of_a 3 7) no_items))

abbrev right : Term
right = list 4 (item (value 5 false (codes "b") no_fields) (item (record_of_a 6 8) no_items))

abbrev x_is_b : State
x_is_b = record empty_state { sub = (codes "0", value 5 false (codes "b") no_fields) ∷ [] }

nothing_bound : lookup ⦃e = bytes_key⦄ (codes "0") empty_state.sub ≡ none
unfolding lookup
nothing_bound = refl

unify-two_objects_example :
    (r : State) × (unify 2 empty_state (create_logic_var 2 0) (create_logic_var 7 0)
      ≡ some (some r))
    × ((fuel c : ℕ) (hs : Fields) → walk fuel r.sub (value c true (codes "0") hs) ≡ none)
unify-two_objects_example =
    unify-two_objects empty_state 2 7 (codes "0") no_fields no_fields (omega arith) nothing_bound

abbrev no_thunk : ℕ → Goal Term ℕ
no_thunk k = fail

abbrev var : Term
var = create_logic_var 2 0

abbrev text_a : Term
text_a = value 5 false (codes "a") no_fields

abbrev text_b : Term
text_b = value 6 false (codes "b") no_fields

abbrev either : Goal Term ℕ
either = disj_fair (equal var text_a) (equal var text_b)

-- x is "a" or "b", and it is "b"
abbrev x_goal : Goal Term ℕ
x_goal = conj either (equal var text_b)

abbrev bound_to : Term → State
bound_to t = record empty_state { sub = (codes "0", t) ∷ [] }

a_unifies : unify 3 empty_state var text_a ≡ some (some (bound_to text_a))
unfolding unify walk extend copy_bindings insert lookup bytes_eq
a_unifies = refl

b_unifies : unify 3 empty_state var text_b ≡ some (some (bound_to text_b))
unfolding unify walk extend copy_bindings insert lookup bytes_eq
b_unifies = refl

a_is_not_b : unify 3 (bound_to text_a) var text_b ≡ some none
unfolding unify walk lookup bytes_eq
a_is_not_b = refl

b_is_b : unify 3 (bound_to text_b) var text_b ≡ some (some (bound_to text_b))
unfolding unify walk lookup bytes_eq
b_is_b = refl

equal-Returns :
    (t : State)
    → Solves (kanren no_thunk 3) either empty_state t
    → Returns no_thunk 3 (equal var text_b) t
unfolding kanren
equal-Returns t (fair_left (solves_equal p)) =
    let found : some (bound_to text_a) ≡ some t = rw (a_unifies) at p in
    let same : bound_to text_a ≡ t = cc in
    subst (Returns no_thunk 3 (equal var text_b)) same (returns_equal none a_is_not_b)
equal-Returns t (fair_right (solves_equal p)) =
    let found : some (bound_to text_b) ≡ some t = rw (b_unifies) at p in
    let same : bound_to text_b ≡ t = cc in
    subst (Returns no_thunk 3 (equal var text_b)) same
      (returns_equal (some (bound_to text_b)) b_is_b)

x_goal-Returns : Returns no_thunk 3 x_goal empty_state
x_goal-Returns =
    returns_conj
      (returns_disj_fair (returns_equal (some (bound_to text_a)) a_unifies)
        (returns_equal (some (bound_to text_b)) b_unifies))
      equal-Returns

x_run :
    run (kanren no_thunk 3) (λ s. s.sub) 20 0 x_goal empty_state
    ≡ some (((codes "0", text_b) ∷ []) ∷ [])
unfolding run next pull kanren unify walk extend copy_bindings insert lookup bytes_eq
x_run = refl

run-Returns_example :
    (fuel : ℕ) × (found : List (Map Bytes Term)) × ((m : ℕ)
      → 3 ≤ m
      → (run (kanren no_thunk m) (λ s. s.sub) fuel 0 x_goal empty_state ≡ some found)
        × IsAnswered (kanren no_thunk m) (λ s. s.sub) 0 x_goal empty_state found)
run-Returns_example =
    run-Returns no_thunk (λ s. s.sub) 0 3 x_goal ((tt, tt), tt) empty_state x_goal-Returns
