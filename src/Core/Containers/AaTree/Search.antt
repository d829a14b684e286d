-- ===== src/Core/Containers/AaTree/Search.antt =====
-- What `find` finds after `add` and `remove` (core/container.h).
use Prim.Native.Nat.Ordering.{eq}
use agentc.Core.Containers.NameOrder.{
  name_cmp, ◌≺◌, cmp_refl, eq_of_cmp, lt_of_gt, gt_of_lt, ≺_trans,
}
use agentc.Core.Containers.AaTree.{Tree, null, node, insert, find, least, unlink, remove_recursive}
use agentc.Core.Containers.AaTree.Order.{All-imp, Below, Above, IsOrdered, All-least}
use agentc.Prelude.{◌≡◌, ◌≢◌, refl, Bytes, Option, none, some, arith}

module _ {ℓ} {D : Type ℓ} where
  pub find-insert :
      (t : Tree D) (q p : Bytes) (v : Option D)
      → find (insert t q v) p ≡ elim (name_cmp p q) [ eq ↦ some v | _ ↦ find t p ]
  unfolding find insert
  find-insert null q p v = ground (arith, eq_of_cmp p q)
  find-insert (node l k d r) q p v = ground (
    arith,
    find-insert l q p v,
    find-insert r q p v,
    eq_of_cmp p q,
    eq_of_cmp p k,
    eq_of_cmp q k,
    cmp_refl p,
  )

  find-Below : (t : Tree D) (p : Bytes) → Below p t → find t p ≡ none
  unfolding find
  find-Below null p b = refl
  find-Below (node l k d r) p b = rw (gt_of_lt k p b.1, find) (find-Below r p b.2)

  find-Above : (t : Tree D) (p : Bytes) → Above p t → find t p ≡ none
  unfolding find
  find-Above null p b = refl
  find-Above (node l k d r) p b = rw (b.1, find) (find-Above l p b.0)

  pub find_beyond : (t : Tree D) (k p : Bytes) → Below k t → k ≺ p → find t p ≡ none
  find_beyond t k p b h = find-Below t p (All-imp t (λ x _ c. ≺_trans x k p c h) b)

  pub find_before : (t : Tree D) (k p : Bytes) → Above k t → p ≺ k → find t p ≡ none
  find_before t k p b h = find-Above t p (All-imp t (λ x _ c. ≺_trans p k x h c) b)

  -- The least node is found, and nothing is found before it.
  find-least :
      (l : Tree D) (k : Bytes) (d : Option D) (r : Tree D)
      → IsOrdered (node l k d r)
      → find (node l k d r) (least l k d).0 ≡ some (least l k d).1
  unfolding find least name_cmp
  find-least null k d r s = rw (cmp_refl k)
  find-least (node ll lk ld lr) k d r s =
      rw (All-least (λ x _. x ≺ k) ll lk ld lr s.0, find) (find-least ll lk ld lr s.2)

  find_before_least :
      (l : Tree D) (k : Bytes) (d : Option D) (r : Tree D) (p : Bytes)
      → IsOrdered (node l k d r)
      → p ≺ (least l k d).0
      → find (node l k d r) p ≡ none
  unfolding find least
  find_before_least null k d r p s h = rw (h, find)
  find_before_least (node ll lk ld lr) k d r p s h =
      let low = All-least (λ x _. x ≺ k) ll lk ld lr s.0 in
      rw (≺_trans p (least ll lk ld).0 k h low, find) (find_before_least ll lk ld lr p s.2 h)

  find-unlink :
      (l : Tree D) (k : Bytes) (d : Option D) (r : Tree D) (p : Bytes)
      → IsOrdered (node l k d r)
      → ((q : Bytes) → p ≢ q → find (remove_recursive r q) p ≡ find r p)
      → p ≢ k
      → find (unlink l r (remove_recursive r)) p ≡ find (node l k d r) p
  unfolding find unlink
  find-unlink null k d r p s h n = ground (arith, eq_of_cmp p k, find_before r k p)
  find-unlink (node ll lk ld lr) k d null p s h n =
      ground (arith, eq_of_cmp p k, lt_of_gt p k, find_beyond (node ll lk ld lr) k p s.0)
  find-unlink (node ll lk ld lr) k d (node rl rk rd rr) p s h n =
      let m = (least rl rk rd).0 in
      let high = All-least (λ x _. k ≺ x) rl rk rd rr s.1 in
      ground (
        arith,
        eq_of_cmp p m,
        eq_of_cmp p k,
        lt_of_gt p m,
        lt_of_gt p k,
        gt_of_lt k p,
        ≺_trans k m p high,
        find-least rl rk rd rr s.3,
        find_before_least rl rk rd rr p s.3,
        find_beyond (node ll lk ld lr) k p s.0,
        h m,
      )

  find-unlink_self :
      (l : Tree D) (k : Bytes) (d : Option D) (r : Tree D)
      → IsOrdered (node l k d r)
      → find (unlink l r (remove_recursive r)) k ≡ none
  unfolding find unlink
  find-unlink_self null k d r s = find-Above r k s.1
  find-unlink_self (node ll lk ld lr) k d null s = find-Below (node ll lk ld lr) k s.0
  find-unlink_self (node ll lk ld lr) k d (node rl rk rd rr) s =
      rw (All-least (λ x _. k ≺ x) rl rk rd rr s.1, find) (find-Below (node ll lk ld lr) k s.0)

  pub find-remove_ne :
      (t : Tree D) (q p : Bytes) → IsOrdered t → p ≢ q → find (remove_recursive t q) p ≡ find t p
  unfolding find remove_recursive
  find-remove_ne null q p s n = refl
  find-remove_ne (node l k d r) q p s n =
      let right = λ (m : Bytes). find-remove_ne r m p s.3 in
      let both = find-unlink l k d r p s right in
      ground (arith, find-remove_ne l q p, find-remove_ne r q p, both, eq_of_cmp q k)

  pub find-remove_self :
      (t : Tree D) (q : Bytes) → IsOrdered t → find (remove_recursive t q) q ≡ none
  unfolding find remove_recursive
  find-remove_self null q s = refl
  find-remove_self (node l k d r) q s =
      ground (
        arith,
        find-remove_self l q,
        find-remove_self r q,
        find-unlink_self l k d r s,
        eq_of_cmp q k,
      )
