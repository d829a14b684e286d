-- ===== src/Kanren/Unify/Sound.antt =====
-- What the bindings of a substitution (kanren/kanren.cpp) make equal, and what a copy keeps of it.
use agentc.Kanren.Term.{
  Term, value, list, Items, no_items, item, Fields, no_fields, field, object, copy, copy_items,
  copy_fields, copy_bindings,
}
use agentc.Prelude.{
  bytes_key, ℕ, ◌+◌, ◌≡◌, inl, inr, refl, ap, true, false, [], ◌∷◌, some, Bytes, bytes_eq, Map,
  lookup, Bool-cases,
}

-- Terms that the bindings make equal: the congruence of the bindings, with one term for one object.
mutual
  pub data Equated (sub : Map Bytes Term) : Term → Term → Type 0 where
    same_object : {t u : Term} → object t ≡ object u → Equated sub t u
    turned : {t u : Term} → Equated sub t u → Equated sub u t
    joined : {t u v : Term} → Equated sub t u → Equated sub u v → Equated sub t v
    bound :
        {a : ℕ} {d : Bytes} {fs : Fields} {t : Term}
        → lookup d sub ≡ some t
        → Equated sub (value a true d fs) t
    same_variable :
        {a b : ℕ} {d e : Bytes} {fs gs : Fields}
        → d ≡ e
        → Equated sub (value a true d fs) (value b true e gs)
    same_fields :
        {a b : ℕ} {d e : Bytes} {fs gs : Fields}
        → d ≡ e
        → EquatedFields sub fs gs
        → Equated sub (value a false d fs) (value b false e gs)
    same_items :
        {a b : ℕ} {ts us : Items} → EquatedItems sub ts us → Equated sub (list a ts) (list b us)

  pub data EquatedItems (sub : Map Bytes Term) : Items → Items → Type 0 where
    end_of_items : EquatedItems sub no_items no_items
    next_item :
        {t u : Term} {ts us : Items}
        → Equated sub t u
        → EquatedItems sub ts us
        → EquatedItems sub (item t ts) (item u us)

  pub data EquatedFields (sub : Map Bytes Term) : Fields → Fields → Type 0 where
    end_of_fields : EquatedFields sub no_fields no_fields
    next_field :
        {j k : Bytes} {t u : Term} {fs gs : Fields}
        → j ≡ k
        → Equated sub t u
        → EquatedFields sub fs gs
        → EquatedFields sub (field j t fs) (field k u gs)

mutual
  unfolding copy

  pub Equated-copy : (sub : Map Bytes Term) (n : ℕ) (t : Term) → Equated sub t (copy n t).0
  Equated-copy sub n (value a true d fs) = same_variable refl
  Equated-copy sub n (value a false d fs) = same_fields refl (EquatedFields-copy sub (n + 1) fs)
  Equated-copy sub n (list a ts) = same_items (EquatedItems-copy sub (n + 1) ts)

  EquatedItems-copy :
      (sub : Map Bytes Term) (n : ℕ) (ts : Items) → EquatedItems sub ts (copy_items n ts).0
  EquatedItems-copy sub n no_items = end_of_items
  EquatedItems-copy sub n (item t ts) =
      next_item (Equated-copy sub n t) (EquatedItems-copy sub (copy n t).1 ts)

  EquatedFields-copy :
      (sub : Map Bytes Term) (n : ℕ) (fs : Fields) → EquatedFields sub fs (copy_fields n fs).0
  EquatedFields-copy sub n no_fields = end_of_fields
  EquatedFields-copy sub n (field k t fs) =
      next_field refl (Equated-copy sub n t) (EquatedFields-copy sub (copy n t).1 fs)

-- What was bound is bound, to an equal term.
abbrev pub Extends : Map Bytes Term → Map Bytes Term → Type 0
Extends sub sub' =
    (d : Bytes) (t : Term)
    → lookup d sub ≡ some t
    → (u : Term) × (lookup d sub' ≡ some u) × Equated sub' t u

mutual
  pub Equated-Extends :
      (sub sub' : Map Bytes Term) (x : Extends sub sub') {t u : Term}
      → Equated sub t u
      → Equated sub' t u
  Equated-Extends sub sub' x (same_object p) = same_object p
  Equated-Extends sub sub' x (turned q) = turned (Equated-Extends sub sub' x q)
  Equated-Extends sub sub' x (joined q r) =
      joined (Equated-Extends sub sub' x q) (Equated-Extends sub sub' x r)
  Equated-Extends sub sub' x (bound {d = d} {t = t} p) =
      let still = x d t p in joined (bound still.1) (turned still.2)
  Equated-Extends sub sub' x (same_variable p) = same_variable p
  Equated-Extends sub sub' x (same_fields l q) = same_fields l (EquatedFields-Extends sub sub' x q)
  Equated-Extends sub sub' x (same_items q) = same_items (EquatedItems-Extends sub sub' x q)

  pub EquatedItems-Extends :
      (sub sub' : Map Bytes Term) (x : Extends sub sub') {ts us : Items}
      → EquatedItems sub ts us
      → EquatedItems sub' ts us
  EquatedItems-Extends sub sub' x end_of_items = end_of_items
  EquatedItems-Extends sub sub' x (next_item q r) =
      next_item (Equated-Extends sub sub' x q) (EquatedItems-Extends sub sub' x r)

  pub EquatedFields-Extends :
      (sub sub' : Map Bytes Term) (x : Extends sub sub') {fs gs : Fields}
      → EquatedFields sub fs gs
      → EquatedFields sub' fs gs
  EquatedFields-Extends sub sub' x end_of_fields = end_of_fields
  EquatedFields-Extends sub sub' x (next_field p q r) =
      next_field p (Equated-Extends sub sub' x q) (EquatedFields-Extends sub sub' x r)

pub lookup-copy_bindings :
    (n : ℕ) (m : Map Bytes Term) (d : Bytes) (t : Term)
    → lookup d m ≡ some t
    → (i : ℕ) × (lookup d (copy_bindings n m).0 ≡ some (copy i t).0)
unfolding copy_bindings lookup
lookup-copy_bindings n [] d t p = cc
lookup-copy_bindings n ((k, u) ∷ m) d t p = elim (Bool-cases (bytes_eq k d)) [
  | inl here ↦
      (let found : some u ≡ some t = rw (here) at p in
        let same : u ≡ t = cc in (n, rw here (ap (λ v. some (copy n v).0) same)))
  | inr behind ↦
      (let later : lookup d m ≡ some t = rw (behind) at p in
        let found = lookup-copy_bindings (copy n u).1 m d t later in (found.0, rw behind (found.1)))
]
