-- ===== src/Kanren/Unify.antt =====
-- State (kanren/kanren.cpp): the substitution of a branch, its count of variables and the number of the
-- next object. `walk` and `unify` run on fuel: `none` is a recursion that has not come to its end.
pub mod Sound
pub mod Bindings
pub mod Fuel
pub mod Tagged
pub mod Unified
pub mod Endless
use agentc.Kanren.Term.{
  Term, value, list, Items, no_items, item, Fields, no_fields, field, object, is_logic_var,
  item_count, field_count, copy, copy_bindings,
}
use agentc.Root1.Publication.{digits}
use agentc.Prelude.{
  bytes_key, ℕ, zero, suc, ◌+◌, Bool, true, false, ◌&&◌, not, ◌==◌, if◌then◌else◌, List, [], ◌∷◌,
  Option, none, some, Bytes, bytes_eq, ltb, bytes_eq_refl, eq_of_bytes_eq, Map, Eq, lookup, insert,
  ◌≡◌, ◌↔◌, subst,
}

pub record State : Type 0 where
  pub sub : Map Bytes Term
  pub count : ℕ
  pub next_object : ℕ

-- on from a variable to what it is bound to
abbrev pub follow : (Term → Option Term) → Term → Option Term → Option Term
follow go v none = some v
follow go v (some t) = go t

unfoldable pub walk : ℕ → Map Bytes Term → Term → Option Term
walk zero sub v = none
walk (suc fuel) sub (value a true d fs) = follow (walk fuel sub) (value a true d fs) (lookup d sub)
walk (suc fuel) sub (value a false d fs) = some (value a false d fs)
walk (suc fuel) sub (list a ts) = some (list a ts)

-- `extend` with a variable of this name: a copy of the substitution with one binding more
unfoldable pub extend : State → Bytes → Term → State
extend s d t =
    let (copied, n) = copy_bindings s.next_object s.sub in
    record s { sub = insert d t copied; next_object = n }

abbrev pub then_with :
    Option (Option State) → (State → Option (Option State)) → Option (Option State)
then_with none k = none
then_with (some none) k = some none
then_with (some (some s)) k = k s

-- `unify` on the children of two lists and on those of two trees, with `go` for the calls on them
unfoldable pub unify_items :
    (State → Term → Term → Option (Option State)) → State → Items → Items → Option (Option State)
unify_items go s (item t ts) (item u us) = then_with (go s t u) (λ r. unify_items go r ts us)
unify_items go s no_items no_items = some (some s)
unify_items go s no_items (item u us) = some none
unify_items go s (item t ts) no_items = some none

unfoldable pub unify_fields :
    (State → Term → Term → Option (Option State)) → State → Fields → Fields → Option (Option State)
unify_fields go s (field j t fs) (field k u gs) =
    let rest = λ (r : State). unify_fields go r fs gs in
    if bytes_eq j k then then_with (go s t u) rest else some none
unify_fields go s no_fields no_fields = some (some s)
unify_fields go s no_fields (field k u gs) = some none
unify_fields go s (field j t fs) no_fields = some none

-- two values that are no variables and not the same object
abbrev pub unify_values :
    (State → Term → Term → Option (Option State)) → State → Term → Term → Option (Option State)
unify_values go s (list a ts) (list b us) =
    if item_count ts == item_count us then unify_items go s ts us else some none
unify_values go s (value a v d no_fields) (value b w e no_fields) =
    if bytes_eq d e then some (some s) else some none
unify_values go s (value a v d fs) (value b w e gs) =
    if field_count fs == field_count gs then unify_fields go s fs gs else some none
unify_values go s (list a ts) (value b w e gs) = some none
unify_values go s (value a v d fs) (list b us) = some none

abbrev pub unify_other :
    (State → Term → Term → Option (Option State)) → State → Term → Term → Option (Option State)
unify_other go s (value a true d fs) v = some (some (extend s d v))
unify_other go s (value a false d fs) (value b true e gs) =
    some (some (extend s e (value a false d fs)))
unify_other go s (value a false d fs) (value b false e gs) =
    unify_values go s (value a false d fs) (value b false e gs)
unify_other go s (value a false d fs) (list b us) = some none
unify_other go s (list a ts) (value b true e gs) = some (some (extend s e (list a ts)))
unify_other go s (list a ts) (value b false e gs) = some none
unify_other go s (list a ts) (list b us) = unify_values go s (list a ts) (list b us)

abbrev pub unify_walked :
    (State → Term → Term → Option (Option State)) → State → Term → Term → Option (Option State)
unify_walked go s u v = if object u == object v then some (some s) else unify_other go s u v

abbrev pub unify_both :
    (State → Term → Term → Option (Option State))
    → State
    → Option Term
    → Option Term
    → Option (Option State)
unify_both go s none w = none
unify_both go s (some u) none = none
unify_both go s (some u) (some v) = unify_walked go s u v

unfoldable pub unify : ℕ → State → Term → Term → Option (Option State)
unify zero s u v = none
unify (suc fuel) s u v = unify_both (unify fuel) s (walk fuel s.sub u) (walk fuel s.sub v)

-- createLogicVar, a number of an int having at most 10 digits, and what call_fresh makes of a state
abbrev pub create_logic_var : ℕ → ℕ → Term
create_logic_var object id = value object true (digits 10 id) no_fields

unfoldable pub fresh : State → Term × State
fresh s = (
  create_logic_var s.next_object s.count,
  record s { count = s.count + 1; next_object = s.next_object + 1 },
)

-- the greatest number of a variable in a term, plus one, from `number`, std::stoi, on; a variable's
-- text is the decimal number that createLogicVar gave it
abbrev pub max : ℕ → ℕ → ℕ
max a b = if ltb a b then b else a

unfoldable mutual
  pub var_count : (Bytes → ℕ) → Term → ℕ
  var_count number (value a true d fs) = number d + 1
  var_count number (value a false d fs) = fields_var_count number fs
  var_count number (list a ts) = items_var_count number ts

  pub items_var_count : (Bytes → ℕ) → Items → ℕ
  items_var_count number no_items = 0
  items_var_count number (item t ts) = max (var_count number t) (items_var_count number ts)

  pub fields_var_count : (Bytes → ℕ) → Fields → ℕ
  fields_var_count number no_fields = 0
  fields_var_count number (field k t fs) = max (var_count number t) (fields_var_count number fs)
