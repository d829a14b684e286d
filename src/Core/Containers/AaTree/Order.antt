-- ===== src/Core/Containers/AaTree/Order.antt =====
-- The search order of the tree: what is left of a node is below its name, what is right is above
-- (core/container.h).

use agentc.Core.Containers.NameOrder.{◌≺◌, cmp_refl, eq_of_cmp, lt_of_gt, ≺_trans}
use agentc.Core.Containers.AaTree.{Tree, null, node, insert, least, unlink, remove_recursive}
use agentc.Prelude.{Bytes, Option, arith}

module _ {ℓ} {D : Type ℓ} where
  abbrev pub All {μ} : (Bytes → Option D → Type μ) → Tree D → Type μ
  All P null = Unit
  All P (node l k d r) = All P l × P k d × All P r

  pub All-imp {μ ν} :
      {P : Bytes → Option D → Type μ} {Q : Bytes → Option D → Type ν} (t : Tree D)
      → ((k : Bytes) (d : Option D) → P k d → Q k d)
      → All P t
      → All Q t
  All-imp null f a = tt
  All-imp (node l k d r) f (pl, pk, pr) = (All-imp l f pl, f k d pk, All-imp r f pr)

  abbrev pub Below : Bytes → Tree D → Type 0
  Below b t = All (λ k _. k ≺ b) t

  abbrev pub Above : Bytes → Tree D → Type 0
  Above b t = All (λ k _. b ≺ k) t

  abbrev pub IsOrdered : Tree D → Type 0
  IsOrdered null = Unit
  IsOrdered (node l k d r) = Below k l × Above k r × IsOrdered l × IsOrdered r

  pub All-insert {μ} :
      (P : Bytes → Option D → Type μ) (t : Tree D) (q : Bytes) (v : Option D)
      → P q v
      → All P t
      → All P (insert t q v)
  unfolding insert
  All-insert P null q v p a = (tt, p, tt)
  All-insert P (node l k d r) q v p a =
      ground (arith, All-insert P l q v, All-insert P r q v, eq_of_cmp q k)

  -- A new name finds its place in the order.
  pub insert-IsOrdered :
      (t : Tree D) (q : Bytes) (v : Option D) → IsOrdered t → IsOrdered (insert t q v)
  unfolding insert
  insert-IsOrdered null q v s = (tt, tt, tt, tt)
  insert-IsOrdered (node l k d r) q v s = ground (
    arith,
    insert-IsOrdered l q v,
    insert-IsOrdered r q v,
    All-insert (λ x _. x ≺ k) l q v,
    All-insert (λ x _. k ≺ x) r q v,
    lt_of_gt q k,
  )

  pub All-least {μ} :
      (P : Bytes → Option D → Type μ) (l : Tree D) (k : Bytes) (d : Option D) (r : Tree D)
      → All P (node l k d r)
      → P (least l k d).0 (least l k d).1
  unfolding least
  All-least P null k d r a = a.1
  All-least P (node ll lk ld lr) k d r a = All-least P ll lk ld lr a.0

  All-unlink {μ} :
      (P : Bytes → Option D → Type μ) (l r : Tree D) (f : Bytes → Tree D)
      → All P l
      → All P r
      → ((q : Bytes) → All P (f q))
      → All P (unlink l r f)
  unfolding unlink
  All-unlink P null r f a b c = b
  All-unlink P (node ll lk ld lr) null f a b c = a
  All-unlink P (node ll lk ld lr) (node rl rk rd rr) f a b c = (a, All-least P rl rk rd rr b, c _)

  pub All-remove {μ} :
      (P : Bytes → Option D → Type μ) (t : Tree D) (q : Bytes)
      → All P t
      → All P (remove_recursive t q)
  unfolding remove_recursive
  All-remove P null q a = tt
  All-remove P (node l k d r) q a =
      let right = λ (s : Bytes). All-remove P r s a.2 in
      let both = All-unlink P l r (remove_recursive r) a.0 a.2 right in
      ground (arith, All-remove P l q, right q, both)

  -- Without its least name a tree is above that name.
  pub remove_least-Above :
      (l : Tree D) (k : Bytes) (d : Option D) (r : Tree D)
      → IsOrdered (node l k d r)
      → Above (least l k d).0 (remove_recursive (node l k d r) (least l k d).0)
  unfolding remove_recursive unlink least
  remove_least-Above null k d r s = rw (cmp_refl k, remove_recursive) s.1
  remove_least-Above (node ll lk ld lr) k d r s =
      let m = (least ll lk ld).0 in
      let low = All-least (λ x _. x ≺ k) ll lk ld lr s.0 in
      rw (low, remove_recursive)
        (remove_least-Above ll lk ld lr s.2, low, All-imp r (λ x _ h. ≺_trans m k x low h) s.1)

  unlink-IsOrdered :
      (l : Tree D) (k : Bytes) (d : Option D) (r : Tree D)
      → IsOrdered (node l k d r)
      → ((q : Bytes) → IsOrdered (remove_recursive r q))
      → IsOrdered (unlink l r (remove_recursive r))
  unfolding unlink
  unlink-IsOrdered null k d r s h = s.3
  unlink-IsOrdered (node ll lk ld lr) k d null s h = s.2
  unlink-IsOrdered (node ll lk ld lr) k d (node rl rk rd rr) s h =
      let high = All-least (λ x _. k ≺ x) rl rk rd rr s.1 in
      (
        All-imp (node ll lk ld lr) (λ x _ a. ≺_trans x k _ a high) s.0,
        remove_least-Above rl rk rd rr s.3,
        s.2,
        h _,
      )

  -- Taking a name out keeps the tree ordered.
  pub remove-IsOrdered : (t : Tree D) (q : Bytes) → IsOrdered t → IsOrdered (remove_recursive t q)
  unfolding remove_recursive
  remove-IsOrdered null q s = tt
  remove-IsOrdered (node l k d r) q s =
      let right = λ (p : Bytes). remove-IsOrdered r p s.3 in
      let both = unlink-IsOrdered l k d r s right in
      ground (
        arith,
        remove-IsOrdered l q,
        right q,
        both,
        All-remove (λ x _. x ≺ k) l q,
        All-remove (λ x _. k ≺ x) r q,
      )
