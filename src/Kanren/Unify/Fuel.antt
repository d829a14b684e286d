-- ===== src/Kanren/Unify/Fuel.antt =====
-- More fuel does not change what `walk` and `unify` (kanren/kanren.cpp) return.
use agentc.Kanren.Term.{
  Term, value, list, Items, no_items, item, Fields, no_fields, field, object, item_count,
  field_count,
}
use agentc.Kanren.Unify.{
  State, walk, then_with, unify_items, unify_fields, unify_values, unify_other, unify_walked,
  unify_both, unify,
}
use agentc.Prelude.{
  bytes_key, ℕ, zero, suc, ◌≤◌, ◌≡◌, inl, inr, refl, true, false, ◌==◌, if◌then◌else◌, Option, none,
  some, Bytes, bytes_eq, Map, lookup, arith, Option-cases, Bool-cases,
}

-- What the first returns the second returns.
abbrev Refines : {A : Type 0} → Option A → Option A → Type 0
Refines {A} o o' = (r : A) → o ≡ some r → o' ≡ some r

abbrev AllRefine :
    (State → Term → Term → Option (Option State))
    → (State → Term → Term → Option (Option State))
    → Type 0
AllRefine go more = (s : State) (u v : Term) → Refines (go s u v) (more s u v)

pub walk_more :
    (n m : ℕ) (sub : Map Bytes Term) (u t : Term)
    → n ≤ m
    → walk n sub u ≡ some t
    → walk m sub u ≡ some t
unfolding walk
walk_more zero m sub u t l p = cc
walk_more (suc n) zero sub u t l p = absurd (omega arith)
walk_more (suc n) (suc m) sub (value a false d fs) t l p = p
walk_more (suc n) (suc m) sub (list a ts) t l p = p
walk_more (suc n) (suc m) sub (value a true d fs) t l p = elim (Option-cases (lookup d sub)) [
  | inl free ↦ (let here : some (value a true d fs) ≡ some t = rw (free) at p in rw free here)
  | inr (v, e) ↦
      (let on : walk n sub v ≡ some t = rw (e) at p in
        rw e (walk_more n m sub v t (omega arith) on))
]

then_with-Refines :
    (o o' : Option (Option State)) (k k' : State → Option (Option State))
    → Refines o o'
    → ((s : State) → Refines (k s) (k' s))
    → Refines (then_with o k) (then_with o' k')
then_with-Refines none o' k k' h hk r p = cc
then_with-Refines (some none) o' k k' h hk r p = rw (h none refl) p
then_with-Refines (some (some s)) o' k k' h hk r p = rw (h (some s) refl) (hk s r p)

module _ (go more : State → Term → Term → Option (Option State)) (h : AllRefine go more) where
  unify_items-Refines :
      (s : State) (ts us : Items) → Refines (unify_items go s ts us) (unify_items more s ts us)
  unfolding unify_items
  unify_items-Refines s no_items no_items r p = p
  unify_items-Refines s no_items (item u us) r p = p
  unify_items-Refines s (item t ts) no_items r p = p
  unify_items-Refines s (item t ts) (item u us) r p =
      then_with-Refines (go s t u) (more s t u) (λ x. unify_items go x ts us)
        (λ x. unify_items more x ts us) (h s t u) (λ x. unify_items-Refines x ts us) r p

  unify_fields-Refines :
      (s : State) (fs gs : Fields) → Refines (unify_fields go s fs gs) (unify_fields more s fs gs)
  unfolding unify_fields
  unify_fields-Refines s no_fields no_fields r p = p
  unify_fields-Refines s no_fields (field k u gs) r p = p
  unify_fields-Refines s (field j t fs) no_fields r p = p
  unify_fields-Refines s (field j t fs) (field k u gs) r p = elim (Bool-cases (bytes_eq j k)) [
    | inr other ↦ (let fails : some none ≡ some r = rw (other) at p in rw other fails)
    | inl same ↦
        (let on : then_with (go s t u) (λ x. unify_fields go x fs gs) ≡ some r = rw (same) at p in
          rw same (
            then_with-Refines (go s t u) (more s t u) (λ x. unify_fields go x fs gs)
              (λ x. unify_fields more x fs gs) (h s t u) (λ x. unify_fields-Refines x fs gs) r on))
  ]

  fields-Refines :
      (s : State) (fs gs : Fields)
      → Refines
          (if field_count fs == field_count gs then unify_fields go s fs gs else some none)
          (if field_count fs == field_count gs then unify_fields more s fs gs else some none)
  fields-Refines s fs gs r p = elim (Bool-cases (field_count fs == field_count gs)) [
    | inr other ↦ (let fails : some none ≡ some r = rw (other) at p in rw other fails)
    | inl same ↦
        (let on : unify_fields go s fs gs ≡ some r = rw (same) at p in
          rw same (unify_fields-Refines s fs gs r on))
  ]

  unify_values-Refines :
      (s : State) (u v : Term) → Refines (unify_values go s u v) (unify_values more s u v)
  unify_values-Refines s (list a ts) (value b w e gs) r p = p
  unify_values-Refines s (value a v d no_fields) (list b us) r p = p
  unify_values-Refines s (value a v d (field j t fs)) (list b us) r p = p
  unify_values-Refines s (value a v d no_fields) (value b w e no_fields) r p = p
  unify_values-Refines s (value a v d no_fields) (value b w e (field k u gs)) r p =
      fields-Refines s no_fields (field k u gs) r p
  unify_values-Refines s (value a v d (field j t fs)) (value b w e no_fields) r p =
      fields-Refines s (field j t fs) no_fields r p
  unify_values-Refines s (value a v d (field j t fs)) (value b w e (field k u gs)) r p =
      fields-Refines s (field j t fs) (field k u gs) r p
  unify_values-Refines s (list a ts) (list b us) r p =
      elim (Bool-cases (item_count ts == item_count us)) [
        | inr other ↦ (let fails : some none ≡ some r = rw (other) at p in rw other fails)
        | inl same ↦
            (let on : unify_items go s ts us ≡ some r = rw (same) at p in
              rw same (unify_items-Refines s ts us r on))
      ]

  unify_other-Refines :
      (s : State) (u v : Term) → Refines (unify_other go s u v) (unify_other more s u v)
  unify_other-Refines s (value a true d fs) v r p = p
  unify_other-Refines s (value a false d fs) (value b true e gs) r p = p
  unify_other-Refines s (value a false d fs) (value b false e gs) r p =
      unify_values-Refines s (value a false d fs) (value b false e gs) r p
  unify_other-Refines s (value a false d fs) (list b us) r p = p
  unify_other-Refines s (list a ts) (value b true e gs) r p = p
  unify_other-Refines s (list a ts) (value b false e gs) r p = p
  unify_other-Refines s (list a ts) (list b us) r p =
      unify_values-Refines s (list a ts) (list b us) r p

  unify_walked-Refines :
      (s : State) (u v : Term) → Refines (unify_walked go s u v) (unify_walked more s u v)
  unify_walked-Refines s u v r p = elim (Bool-cases (object u == object v)) [
    | inl same ↦ (let done : some (some s) ≡ some r = rw (same) at p in rw same done)
    | inr apart ↦
        (let on : unify_other go s u v ≡ some r = rw (apart) at p in
          rw apart (unify_other-Refines s u v r on))
  ]

  unify_both-Refines :
      (s : State) (o w o' w' : Option Term)
      → Refines o o'
      → Refines w w'
      → Refines (unify_both go s o w) (unify_both more s o' w')
  unify_both-Refines s none w o' w' x y r p = cc
  unify_both-Refines s (some u) none o' w' x y r p = cc
  unify_both-Refines s (some u) (some v) o' w' x y r p =
      rw (x u refl, y v refl) (unify_walked-Refines s u v r p)

pub unify_more :
    (n m : ℕ) (s : State) (u v : Term) (r : Option State)
    → n ≤ m
    → unify n s u v ≡ some r
    → unify m s u v ≡ some r
unfolding unify
unify_more zero m s u v r l p = cc
unify_more (suc n) zero s u v r l p = absurd (omega arith)
unify_more (suc n) (suc m) s u v r l p =
    unify_both-Refines (unify n) (unify m) (λ s u v r. unify_more n m s u v r (omega arith)) s
      (walk n s.sub u) (walk n s.sub v) (walk m s.sub u) (walk m s.sub v)
      (λ t. walk_more n m s.sub u t (omega arith)) (λ t. walk_more n m s.sub v t (omega arith)) r p
