-- ===== src/Kanren/Unify/Endless.antt =====
-- A variable that stands in two objects (kanren/kanren.cpp, `unify` and `walk`): the copy that `extend`
-- makes of a bound variable is one, and createLogicVar with the same number another.
use agentc.Kanren.Term.{Term, value, Fields}
use agentc.Kanren.Unify.{State, walk, extend, unify}
use agentc.Kanren.Unify.Bindings.{lookup-extend}
use agentc.Prelude.{
  bytes_key, ℕ, zero, suc, ◌≡◌, ◌≢◌, refl, ◌∙◌, true, false, ◌==◌, none, some, Bytes, bytes_eq_refl,
  Map, lookup, arith,
}

walk-itself :
    (fuel : ℕ) (sub : Map Bytes Term) (a b : ℕ) (d : Bytes) (fs gs : Fields)
    → lookup d sub ≡ some (value a true d fs)
    → walk fuel sub (value b true d gs) ≡ none
unfolding walk
walk-itself zero sub a b d fs gs p = refl
walk-itself (suc f) sub a b d fs gs p = rw p (walk-itself f sub a a d fs fs p)

walk_unbound :
    (sub : Map Bytes Term) (a : ℕ) (d : Bytes) (fs : Fields)
    → lookup d sub ≡ none
    → walk 1 sub (value a true d fs) ≡ some (value a true d fs)
unfolding walk
walk_unbound sub a d fs p = rw p refl

-- The unification of two objects of one unbound variable succeeds and binds the variable to itself:
-- from then on no amount of steps ends a walk from it.
pub unify-two_objects :
    (s : State) (a b : ℕ) (d : Bytes) (fs gs : Fields)
    → a ≢ b
    → lookup d s.sub ≡ none
    → (r : State) × (unify 2 s (value a true d fs) (value b true d gs) ≡ some (some r))
      × ((fuel c : ℕ) (hs : Fields) → walk fuel r.sub (value c true d hs) ≡ none)
unfolding unify
unify-two_objects s a b d fs gs apart free =
    let bound : lookup d (extend s d (value b true d gs)).sub ≡ some (value b true d gs) =
      lookup-extend s d d (value b true d gs) ∙ rw (bytes_eq_refl d) refl in
    let differ : (a == b) ≡ false = ground (arith, apart) in
    (
      extend s d (value b true d gs),
      rw (walk_unbound s.sub a d fs free, walk_unbound s.sub b d gs free, differ) refl,
      λ fuel c hs. walk-itself fuel (extend s d (value b true d gs)).sub b c d gs hs bound,
    )
