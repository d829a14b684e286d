-- ===== src/Kanren/Term.antt =====
-- The values that the logic engine (kanren/kanren.cpp) works on: trees without cycles, each value with
-- the number of its object, by which the engine compares pointers. A field has one value. There are no
-- null pointers and no frozen values, which a copy would share.
use agentc.Prelude.{ℕ, suc, ◌+◌, Bool, false, [], ◌∷◌, Bytes, Map}

mutual
  pub data Term : Type 0 where
    -- a value that is no list: its object, the flag LogicVar, its text and its fields
    value : ℕ → Bool → Bytes → Fields → Term
    list : ℕ → Items → Term

  pub data Items : Type 0 where
    no_items : Items
    item : Term → Items → Items

  pub data Fields : Type 0 where
    no_fields : Fields
    field : Bytes → Term → Fields → Fields

abbrev pub object : Term → ℕ
object (value a v d fs) = a
object (list a ts) = a

abbrev pub is_logic_var : Term → Bool
is_logic_var (value a v d fs) = v
is_logic_var (list a ts) = false

abbrev pub item_count : Items → ℕ
item_count no_items = 0
item_count (item t ts) = suc (item_count ts)

abbrev pub field_count : Fields → ℕ
field_count no_fields = 0
field_count (field k t fs) = suc (field_count fs)

-- A copy takes new objects, the numbers from the first argument on; beside it the next number.
unfoldable mutual
  pub copy : ℕ → Term → Term × ℕ
  copy n (value a v d fs) = let (gs, m) = copy_fields (n + 1) fs in (value n v d gs, m)
  copy n (list a ts) = let (us, m) = copy_items (n + 1) ts in (list n us, m)

  pub copy_items : ℕ → Items → Items × ℕ
  copy_items n no_items = (no_items, n)
  copy_items n (item t ts) =
      let (u, m) = copy n t in let (us, k) = copy_items m ts in (item u us, k)

  pub copy_fields : ℕ → Fields → Fields × ℕ
  copy_fields n no_fields = (no_fields, n)
  copy_fields n (field k t fs) =
      let (u, m) = copy n t in let (gs, i) = copy_fields m fs in (field k u gs, i)

-- the bindings of a substitution, each value copied
unfoldable pub copy_bindings : ℕ → Map Bytes Term → Map Bytes Term × ℕ
unfolding copy
copy_bindings n [] = ([], n)
copy_bindings n ((k, t) ∷ m) =
    let (u, i) = copy n t in let (c, j) = copy_bindings i m in ((k, u) ∷ c, j)
