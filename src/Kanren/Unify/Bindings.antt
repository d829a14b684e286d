-- ===== src/Kanren/Unify/Bindings.antt =====
-- What `extend` and `walk` (kanren/kanren.cpp) do to the equations of a substitution.
use agentc.Kanren.Term.{Term, value, list, Fields, copy, copy_bindings}
use agentc.Kanren.Unify.{State, walk, extend}
use agentc.Kanren.Unify.Sound.{
  Equated, same_object, joined, bound, Equated-copy, Extends, Equated-Extends, lookup-copy_bindings,
}
use agentc.Prelude.{
  bytes_key, ℕ, zero, suc, ◌≡◌, inl, inr, refl, sym, ◌∙◌, subst, true, false, if◌then◌else◌, none,
  some, Bytes, bytes_eq, eq_of_bytes_eq, bytes_eq_refl, Map, lookup, lookup-insert, arith,
  Option-cases, Bool-cases,
}

pub Extends-refl : (sub : Map Bytes Term) → Extends sub sub
Extends-refl sub d t p = (t, p, same_object refl)

pub Extends-trans : (a b c : Map Bytes Term) → Extends a b → Extends b c → Extends a c
Extends-trans a b c x y d t p =
    let first = x d t p in
    let second = y d first.0 first.1 in
    (second.0, second.1, joined (Equated-Extends b c y first.2) second.2)

pub lookup-extend :
    (s : State) (d e : Bytes) (t : Term)
    → lookup e (extend s d t).sub
      ≡ (if bytes_eq d e then some t else lookup e (copy_bindings s.next_object s.sub).0)
unfolding extend
lookup-extend s d e t = lookup-insert d e t (copy_bindings s.next_object s.sub).0

pub Extends-extend :
    (s : State) (d : Bytes) (t : Term) → lookup d s.sub ≡ none → Extends s.sub (extend s d t).sub
Extends-extend s d t free e u p = elim (Bool-cases (bytes_eq d e)) [
  | inl here ↦
      (let bound_here = subst (λ k. lookup k s.sub ≡ none) (eq_of_bytes_eq d e here) free in
        let clash : none ≡ some u = sym bound_here ∙ p in cc)
  | inr apart ↦
      (let kept = lookup-copy_bindings s.next_object s.sub e u p in
        (
          (copy kept.0 u).0,
          lookup-extend s d e t ∙ rw apart (kept.1),
          Equated-copy (extend s d t).sub kept.0 u,
        ))
]

pub Equated-extend :
    (s : State) (a : ℕ) (d : Bytes) (fs : Fields) (t : Term)
    → Equated (extend s d t).sub (value a true d fs) t
Equated-extend s a d fs t = bound (lookup-extend s d d t ∙ rw (bytes_eq_refl d) refl)

pub walk-Equated :
    (f : ℕ) (sub : Map Bytes Term) (u t : Term) → walk f sub u ≡ some t → Equated sub u t
unfolding walk
walk-Equated zero sub u t p = cc
walk-Equated (suc f) sub (value a false d fs) t p = same_object (ground (arith, p))
walk-Equated (suc f) sub (list a ts) t p = same_object (ground (arith, p))
walk-Equated (suc f) sub (value a true d fs) t p = elim (Option-cases (lookup d sub)) [
  | inl free ↦ same_object (ground (arith, p, free))
  | inr (v, e) ↦
      (let on : walk f sub v ≡ some t = rw (e) at p in joined (bound e) (walk-Equated f sub v t on))
]

pub walk_free :
    (f : ℕ) (sub : Map Bytes Term) (u : Term) (a : ℕ) (d : Bytes) (fs : Fields)
    → walk f sub u ≡ some (value a true d fs)
    → lookup d sub ≡ none
unfolding walk
walk_free zero sub u a d fs p = cc
walk_free (suc f) sub (value b false e gs) a d fs p = ground (arith, p)
walk_free (suc f) sub (list b ts) a d fs p = ground (arith, p)
walk_free (suc f) sub (value b true e gs) a d fs p = elim (Option-cases (lookup e sub)) [
  | inl free ↦
      (let same : some (value b true e gs) ≡ some (value a true d fs) = rw (free) at p in
        let name : e ≡ d = cc in subst (λ k. lookup k sub ≡ none) name free)
  | inr (v, q) ↦
      (let on : walk f sub v ≡ some (value a true d fs) = rw (q) at p in
        walk_free f sub v a d fs on)
]
