-- ===== src/Core/Containers/NameOrder.antt =====
-- The order of `std::string`, by which the tree of names is searched (core/container.h).
use Prim.Native.Nat.{compare, Ordering}
use Prim.Native.Nat.Ordering.{lt, eq, gt}
use agentc.Prelude.{◌≡◌, refl, ◌⊎◌, Bytes, [], ◌∷◌, arith}

unfoldable pub name_cmp : Bytes → Bytes → Ordering
name_cmp [] [] = eq
name_cmp [] (y ∷ ys) = lt
name_cmp (x ∷ xs) [] = gt
name_cmp (x ∷ xs) (y ∷ ys) = elim (compare x y) [ lt ↦ lt | eq ↦ name_cmp xs ys | gt ↦ gt ]

infix 50 ◌≺◌
abbrev pub ◌≺◌ : Bytes → Bytes → Type 0
a ≺ b = name_cmp a b ≡ lt

pub cmp_refl : (a : Bytes) → name_cmp a a ≡ eq
unfolding name_cmp
cmp_refl [] = refl
cmp_refl (x ∷ xs) = ground (arith, cmp_refl xs)

pub eq_of_cmp : (a b : Bytes) → name_cmp a b ≡ eq → a ≡ b
unfolding name_cmp
eq_of_cmp [] [] h = refl
eq_of_cmp [] (y ∷ ys) h = ground arith
eq_of_cmp (x ∷ xs) [] h = ground arith
eq_of_cmp (x ∷ xs) (y ∷ ys) h = ground (arith, eq_of_cmp xs ys)

pub lt_of_gt : (a b : Bytes) → name_cmp a b ≡ gt → b ≺ a
unfolding name_cmp
lt_of_gt [] [] h = ground arith
lt_of_gt [] (y ∷ ys) h = ground arith
lt_of_gt (x ∷ xs) [] h = refl
lt_of_gt (x ∷ xs) (y ∷ ys) h = ground (arith, lt_of_gt xs ys)

pub gt_of_lt : (a b : Bytes) → a ≺ b → name_cmp b a ≡ gt
unfolding name_cmp
gt_of_lt [] [] h = ground arith
gt_of_lt [] (y ∷ ys) h = refl
gt_of_lt (x ∷ xs) [] h = ground arith
gt_of_lt (x ∷ xs) (y ∷ ys) h = ground (arith, gt_of_lt xs ys)

pub ≺_trans : (a b c : Bytes) → a ≺ b → b ≺ c → a ≺ c
unfolding name_cmp
≺_trans [] [] c h k = ground arith
≺_trans [] (y ∷ ys) [] h k = ground arith
≺_trans [] (y ∷ ys) (z ∷ zs) h k = refl
≺_trans (x ∷ xs) [] c h k = ground arith
≺_trans (x ∷ xs) (y ∷ ys) [] h k = ground arith
≺_trans (x ∷ xs) (y ∷ ys) (z ∷ zs) h k = ground (arith, ≺_trans xs ys zs)

pub cmp_cases : (a b : Bytes) → (a ≺ b) ⊎ (name_cmp a b ≡ eq) ⊎ (name_cmp a b ≡ gt)
cmp_cases a b = ground arith
