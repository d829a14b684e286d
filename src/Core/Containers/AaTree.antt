-- ===== src/Core/Containers/AaTree.antt =====
-- AATree (core/container.h): the tree of names, which the code searches but never balances, so that
-- `level` stays 1. A null pointer is `none`. Counts of references are not kept here,
-- so that the two releases of the data that `add` replaces do not show.
pub mod Order
pub mod Search
pub mod Dictionary
pub mod Traversal
use Prim.Native.Nat.Ordering.{lt, eq, gt}
use agentc.Core.Containers.NameOrder.{name_cmp}
use agentc.Prelude.{Bool, true, false, Bytes, List, [], ◌∷◌, ◌++◌, Option, none, some}

pub data Tree {ℓ} (D : Type ℓ) : Type ℓ where
  null : Tree D
  node : Tree D → Bytes → Option D → Tree D → Tree D

module _ {ℓ} {D : Type ℓ} where
  -- the constructor without arguments
  abbrev pub new_tree : Tree D
  new_tree = node null [] none null

  -- the loop of `add`, and the node that it hangs below the last one
  unfoldable pub insert : Tree D → Bytes → Option D → Tree D
  insert null name value = node null name value null
  insert (node l k d r) name value = elim (name_cmp name k) [
    | lt ↦ node (insert l name value) k d r
    | eq ↦ node l k value r
    | gt ↦ node l k d (insert r name value)
  ]

  -- A root without a name and without data is filled in place.
  unfoldable pub add : Tree D → Bytes → Option D → Tree D
  unfolding insert
  add (node l [] none r) name value = node l name value r
  add t name value = insert t name value

  -- the data of the node that is found
  unfoldable pub find : Tree D → Bytes → Option (Option D)
  find null name = none
  find (node l k d r) name = elim (name_cmp name k) [
    | lt ↦ find l name
    | eq ↦ some d
    | gt ↦ find r name
  ]

  -- `while (succ->lnk[0]) succ = succ->lnk[0]`, from a node
  unfoldable pub least : Tree D → Bytes → Option D → Bytes × Option D
  least null k d = (k, d)
  least (node l k d r) _ _ = least l k d

  -- The node that is found is left out; with two children it takes the name and the data of its
  -- successor, which `remove_right` then takes out of the right one.
  unfoldable pub unlink : Tree D → Tree D → (Bytes → Tree D) → Tree D
  unfolding least
  unlink null r remove_right = r
  unlink (node ll lk ld lr) null remove_right = node ll lk ld lr
  unlink (node ll lk ld lr) (node rl rk rd rr) remove_right =
      let succ = least rl rk rd in node (node ll lk ld lr) succ.0 succ.1 (remove_right succ.0)

  unfoldable pub remove_recursive : Tree D → Bytes → Tree D
  unfolding unlink
  remove_recursive null name = null
  remove_recursive (node l k d r) name = elim (name_cmp name k) [
    | lt ↦ node (remove_recursive l name) k d r
    | gt ↦ node l k d (remove_recursive r name)
    | eq ↦ unlink l r (λ succ. remove_recursive r succ)
  ]

  unfoldable pub remove : Tree D → Bytes → Tree D
  unfolding remove_recursive
  remove t name = remove_recursive t name

  -- what the callback is given at one node
  abbrev pub visit : Bytes → Option D → List (Bytes × Option D)
  visit [] none = []
  visit name d = (name, d) ∷ []

  -- the calls of the callback, in order
  unfoldable pub for_each : Tree D → Bool → List (Bytes × Option D)
  for_each null forward = []
  for_each (node l k d r) true = for_each l true ++ (visit k d ++ for_each r true)
  for_each (node l k d r) false = for_each r false ++ (visit k d ++ for_each l false)
