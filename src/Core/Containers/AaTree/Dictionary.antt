-- ===== src/Core/Containers/AaTree/Dictionary.antt =====
-- The tree as a dictionary: what a name stands for after `add` and `remove` (core/container.h).
use Prim.Native.Nat.Ordering.{eq}
use agentc.Core.Containers.NameOrder.{name_cmp, cmp_refl, eq_of_cmp}
use agentc.Core.Containers.AaTree.{Tree, null, node, new_tree, insert, add, find, remove}
use agentc.Core.Containers.AaTree.Order.{
  All, IsOrdered, All-insert, All-remove, insert-IsOrdered, remove-IsOrdered,
}
use agentc.Core.Containers.AaTree.Search.{find-remove_ne, find-remove_self}
use agentc.Prelude.{◌≡◌, refl, Bytes, [], ◌∷◌, Option, none, some, arith, ◌⊎◌, inl, inr}

module _ {ℓ} {D : Type ℓ} where
  -- the data that a name stands for
  abbrev flat : Option (Option D) → Option D
  flat none = none
  flat (some d) = d

  unfoldable pub get : Tree D → Bytes → Option D
  get t name = flat (find t name)

  abbrev pub HasData : Option D → Type 0
  HasData none = ⊥
  HasData (some d) = Unit

  -- Every node has data, except the root that `new_tree` makes, which stands alone.
  abbrev pub IsFilled : Tree D → Type 0
  IsFilled t = All (λ _ d. HasData d) t

  pub record IsDictionary (t : Tree D) : Type ℓ where
    pub ordered : IsOrdered t
    pub filled : IsFilled t ⊎ (t ≡ new_tree)

  pub new_tree-IsDictionary : IsDictionary new_tree
  new_tree-IsDictionary = record { ordered = (tt, tt, tt, tt); filled = inr refl }

  -- the abstract dictionary, changed at one name
  abbrev pub update : (Bytes → Option D) → Bytes → Option D → Bytes → Option D
  update f q w p = elim (name_cmp p q) [ eq ↦ w | _ ↦ f p ]

  add_filled : (t : Tree D) (q : Bytes) (v : Option D) → IsFilled t → add t q v ≡ insert t q v
  unfolding add
  add_filled null q v f = refl
  add_filled (node l [] none r) q v f = absurd f.1
  add_filled (node l [] (some d) r) q v f = refl
  add_filled (node l (b ∷ k) d r) q v f = refl

  pub add-IsDictionary :
      (t : Tree D) (q : Bytes) (d : D) → IsDictionary t → IsDictionary (add t q (some d))
  unfolding add
  add-IsDictionary t q d h = elim h.filled [
    | inl f ↦ rw (add_filled t q (some d) f) (record {
      ordered = insert-IsOrdered t q (some d) h.ordered;
      filled = inl (All-insert (λ _ e. HasData e) t q (some d) tt f);
    })
    | inr e ↦ rw e (record { ordered = (tt, tt, tt, tt); filled = inl (tt, tt, tt) })
  ]

  -- Taking a name out keeps the dictionary in order, or leaves no node at all.
  pub remove-IsDictionary :
      (t : Tree D) (q : Bytes) → IsFilled t → IsOrdered t → IsDictionary (remove t q)
  unfolding remove
  remove-IsDictionary t q f s = record {
    ordered = remove-IsOrdered t q s;
    filled = inl (All-remove (λ _ e. HasData e) t q f);
  }

  -- A name that is taken out stands for nothing, and no other name changes.
  pub get-remove :
      (t : Tree D) (q p : Bytes) → IsDictionary t → get (remove t q) p ≡ update (get t) q none p
  unfolding get remove
  get-remove t q p h = ground (
    arith,
    find-remove_ne t q p h.ordered,
    find-remove_self t q h.ordered,
    eq_of_cmp p q,
    cmp_refl q,
  )
