-- ===== src/Kanren/Search/Runs.antt =====
-- The runs (kanren/kanren.cpp, `run`) of goals whose unifications return.
use agentc.Kanren.Goal.{Goal}
use agentc.Kanren.Term.{Term}
use agentc.Kanren.Unify.{State}
use agentc.Kanren.Search.{kanren, Returns, IsAnswered-more}
use agentc.Kanren.Search.Safety.{Safe, Safe-begin}
use agentc.Kanren.Search.Agreement.{SafePull, begin_same, next-Agree}
use agentc.Kanren.Stream.{Stream, Pull, begin, next, collected, collect, run}
use agentc.Kanren.Stream.Run.{IsAnswered}
use agentc.Kanren.Stream.Ends.{IsPlain}
use agentc.Kanren.Stream.Ends.Plain.{run-plain}
use agentc.Prelude.{
  ℕ, zero, suc, ◌≤◌, ◌≡◌, refl, sym, ap, ◌∙◌, ◌&&◌, List, [], ◌∷◌, ◌++◌, ltb, leb, length,
  if◌then◌else◌, Option, none, some,
}

module _ {R : Type 0} (thunk : R → Goal Term R) {V : Type 0} (answer : State → V)
    (limit n : ℕ) where
  collected_same :
      (m : ℕ) (go more : List V → Stream Term R State → Option (List V))
      → ((out : List V) (st : Stream Term R State) → Safe thunk n st → go out st ≡ more out st)
      → (out : List V) (p : Pull Term R State) → SafePull thunk n p
      → collected (kanren thunk n) go answer limit out p
        ≡ collected (kanren thunk m) more answer limit out p
  collected_same m go more h out none x = refl
  collected_same m go more h out (some (none, st)) x = refl
  collected_same m go more h out (some (some s, st)) x =
      let found = out ++ answer s ∷ [] in
      ap (λ r. if ltb 0 limit && leb limit (length found) then some found else r) (h found st x)

  collect_same :
      (m : ℕ)
      → n ≤ m
      → (k : ℕ) (out : List V) (st : Stream Term R State) → Safe thunk n st
      → collect (kanren thunk n) answer k limit out st
        ≡ collect (kanren thunk m) answer k limit out st
  unfolding collect
  collect_same m l zero out st x = refl
  collect_same m l (suc k) out st x =
      let (same, safe) = next-Agree thunk n m l k st x in
      collected_same m (collect (kanren thunk n) answer k limit)
        (collect (kanren thunk m) answer k limit) (collect_same m l k) out
        (next (kanren thunk n) k st) safe
      ∙ ap (collected (kanren thunk m) (collect (kanren thunk m) answer k limit) answer limit out)
          same

  run_same :
      (m : ℕ)
      → n ≤ m
      → (fuel : ℕ) (g : Goal Term R) (s : State) → Returns thunk n g s
      → run (kanren thunk n) answer fuel limit g s ≡ run (kanren thunk m) answer fuel limit g s
  unfolding run
  run_same m l fuel g s x =
      collect_same m l fuel [] (begin (kanren thunk n) g s) (Safe-begin thunk n x)
      ∙ ap (collect (kanren thunk m) answer fuel limit []) (begin_same thunk n m l x)

  -- Where a goal is without snooze, and every unification that it can ask for returns, with n steps, `run`
  -- returns with enough fuel, and with n steps or any more for the unifications it returns the same.
  -- These are answers of the goal, at most `limit` of them, and all of them where the limit is 0 or was
  -- not reached.
  pub run-Returns :
      (g : Goal Term R)
      → IsPlain g
      → (s : State) → Returns thunk n g s
      → (fuel : ℕ) × (found : List V) × ((m : ℕ)
          → n ≤ m
          → (run (kanren thunk m) answer fuel limit g s ≡ some found)
            × IsAnswered (kanren thunk m) answer limit g s found)
  run-Returns g p s x =
      let (fuel, found, q, a) = run-plain (kanren thunk n) answer limit g p s in
      (
        fuel,
        found,
        λ m l. (
          sym (run_same m l fuel g s x) ∙ q,
          IsAnswered-more thunk answer limit n m l g s found x a,
        ),
      )
