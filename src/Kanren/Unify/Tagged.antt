-- ===== src/Kanren/Unify/Tagged.antt =====
-- Terms (kanren/kanren.cpp) whose values with fields all have the same text, which `unify` does not
-- compare; what a walk and an extension of the substitution keep of it.
use agentc.Kanren.Term.{
  Term, value, list, Items, no_items, item, Fields, no_fields, field, copy, copy_items, copy_fields,
  copy_bindings,
}
use agentc.Kanren.Unify.{State, walk, extend}
use agentc.Kanren.Unify.Bindings.{lookup-extend}
use agentc.Prelude.{
  bytes_key, ℕ, zero, suc, ◌+◌, ◌≡◌, inl, inr, refl, sym, ◌∙◌, subst, true, false, [], ◌∷◌, some,
  Bytes, bytes_eq, Map, lookup, Option-cases, Bool-cases,
}

-- Values with fields that are no variables have the text `tag`.
abbrev mutual
  pub IsTagged : Bytes → Term → Type 0
  IsTagged tag (value a true d fs) = Unit
  IsTagged tag (value a false d no_fields) = Unit
  IsTagged tag (value a false d (field k t fs)) = (d ≡ tag) × IsTagged tag t × IsTaggedFields tag fs
  IsTagged tag (list a ts) = IsTaggedItems tag ts

  pub IsTaggedItems : Bytes → Items → Type 0
  IsTaggedItems tag no_items = Unit
  IsTaggedItems tag (item t ts) = IsTagged tag t × IsTaggedItems tag ts

  pub IsTaggedFields : Bytes → Fields → Type 0
  IsTaggedFields tag no_fields = Unit
  IsTaggedFields tag (field k t fs) = IsTagged tag t × IsTaggedFields tag fs

abbrev pub AllTagged : Bytes → Map Bytes Term → Type 0
AllTagged tag sub = (d : Bytes) (t : Term) → lookup d sub ≡ some t → IsTagged tag t

module _ (tag : Bytes) where
  mutual
    unfolding copy

    IsTagged-copy : (n : ℕ) (t : Term) → IsTagged tag t → IsTagged tag (copy n t).0
    IsTagged-copy n (value a true d fs) h = tt
    IsTagged-copy n (value a false d no_fields) h = tt
    IsTagged-copy n (value a false d (field k t fs)) (p, q, r) =
        (p, IsTagged-copy (n + 1) t q, IsTaggedFields-copy (copy (n + 1) t).1 fs r)
    IsTagged-copy n (list a ts) h = IsTaggedItems-copy (n + 1) ts h

    IsTaggedItems-copy :
        (n : ℕ) (ts : Items) → IsTaggedItems tag ts → IsTaggedItems tag (copy_items n ts).0
    IsTaggedItems-copy n no_items h = tt
    IsTaggedItems-copy n (item t ts) (p, q) =
        (IsTagged-copy n t p, IsTaggedItems-copy (copy n t).1 ts q)

    IsTaggedFields-copy :
        (n : ℕ) (fs : Fields) → IsTaggedFields tag fs → IsTaggedFields tag (copy_fields n fs).0
    IsTaggedFields-copy n no_fields h = tt
    IsTaggedFields-copy n (field k t fs) (p, q) =
        (IsTagged-copy n t p, IsTaggedFields-copy (copy n t).1 fs q)

  -- A binding of the copy is the copy of a binding.
  binding_of_copy :
      (n : ℕ) (m : Map Bytes Term) (d : Bytes) (t : Term)
      → lookup d (copy_bindings n m).0 ≡ some t
      → (i : ℕ) × (u : Term) × (lookup d m ≡ some u) × ((copy i u).0 ≡ t)
  unfolding copy_bindings lookup
  binding_of_copy n [] d t p = cc
  binding_of_copy n ((k, u) ∷ m) d t p = elim (Bool-cases (bytes_eq k d)) [
    | inl here ↦
        (let found : some (copy n u).0 ≡ some t = rw (here) at p in
          let same : (copy n u).0 ≡ t = cc in (n, u, rw here refl, same))
    | inr behind ↦
        (let later : lookup d (copy_bindings (copy n u).1 m).0 ≡ some t = rw (behind) at p in
          let (i, w, q, r) = binding_of_copy (copy n u).1 m d t later in (i, w, rw behind q, r))
  ]

  pub AllTagged-extend :
      (s : State) (d : Bytes) (t : Term)
      → AllTagged tag s.sub
      → IsTagged tag t
      → AllTagged tag (extend s d t).sub
  AllTagged-extend s d t all h e u p = elim (Bool-cases (bytes_eq d e)) [
    | inl here ↦
        (let found : some t ≡ some u = sym (lookup-extend s d e t ∙ rw here refl) ∙ p in
          let same : t ≡ u = cc in subst (IsTagged tag) same h)
    | inr apart ↦
        (let found = sym (lookup-extend s d e t ∙ rw apart refl) ∙ p in
          let (i, w, q, r) = binding_of_copy s.next_object s.sub e u found in
          subst (IsTagged tag) r (IsTagged-copy i w (all e w q)))
  ]

  pub walk-IsTagged :
      (f : ℕ) (sub : Map Bytes Term) (u t : Term)
      → AllTagged tag sub
      → IsTagged tag u
      → walk f sub u ≡ some t
      → IsTagged tag t
  unfolding walk
  walk-IsTagged zero sub u t all h p = cc
  walk-IsTagged (suc f) sub (value a false d fs) t all h p =
      let same : value a false d fs ≡ t = cc in subst (IsTagged tag) same h
  walk-IsTagged (suc f) sub (list a ts) t all h p =
      let same : list a ts ≡ t = cc in subst (IsTagged tag) same h
  walk-IsTagged (suc f) sub (value a true d fs) t all h p = elim (Option-cases (lookup d sub)) [
    | inl free ↦
        (let here : some (value a true d fs) ≡ some t = rw (free) at p in
          let same : value a true d fs ≡ t = cc in subst (IsTagged tag) same h)
    | inr (v, e) ↦
        (let on : walk f sub v ≡ some t = rw (e) at p in walk-IsTagged f sub v t all (all d v e) on)
  ]
