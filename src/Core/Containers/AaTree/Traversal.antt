-- ===== src/Core/Containers/AaTree/Traversal.antt =====
-- The order of the callbacks of `forEach` (core/container.h).
use Prim.Native.Nat.Ordering.{eq}
use agentc.Core.Containers.NameOrder.{
  name_cmp, ◌≺◌, cmp_refl, eq_of_cmp, lt_of_gt, ≺_trans, cmp_cases,
}
use agentc.Core.Containers.AaTree.{Tree, null, node, find, visit, for_each}
use agentc.Core.Containers.AaTree.Order.{All, All-imp, Below, Above, IsOrdered}
use agentc.Core.Containers.AaTree.Dictionary.{get}
use agentc.Prelude.{
  ◌≡◌, refl, sym, ap, ◌∙◌, true, Bytes, List, [], ◌∷◌, ◌++◌, Option, none, some, arith, ◌≢◌, ◌⊎◌,
  inl, inr,
}

abbrev pub Entries {ℓ} : Type ℓ → Type ℓ
Entries D = List (Bytes × Option D)

ne_of_lt : (a b : Bytes) → a ≺ b → a ≢ b
ne_of_lt a b h e = let r = cmp_refl b in cc

module _ {ℓ} {D : Type ℓ} where
  -- the data of the first entry under a name
  unfoldable pub entry : Entries D → Bytes → Option D
  entry [] p = none
  entry ((k, d) ∷ es) p = elim (name_cmp p k) [ eq ↦ d | _ ↦ entry es p ]

  abbrev pub AllNames : (Bytes → Type 0) → Entries D → Type 0
  AllNames P [] = Unit
  AllNames P ((k, d) ∷ es) = P k × AllNames P es

  -- Each name comes before all that follow it.
  abbrev pub IsAscending : Entries D → Type 0
  IsAscending [] = Unit
  IsAscending ((k, d) ∷ es) = AllNames (λ j. k ≺ j) es × IsAscending es

  AllNames-append :
      (P : Bytes → Type 0) (xs ys : Entries D)
      → AllNames P xs
      → AllNames P ys
      → AllNames P (xs ++ ys)
  AllNames-append P [] ys h k = k
  AllNames-append P ((x, d) ∷ xs) ys h k = (h.0, AllNames-append P xs ys h.1 k)

  AllNames-imp :
      {P Q : Bytes → Type 0} (xs : Entries D)
      → ((k : Bytes) → P k → Q k)
      → AllNames P xs
      → AllNames Q xs
  AllNames-imp [] f h = tt
  AllNames-imp ((x, d) ∷ xs) f h = (f x h.0, AllNames-imp xs f h.1)

  AllNames-visit : (P : Bytes → Type 0) (k : Bytes) (d : Option D) → P k → AllNames P (visit k d)
  AllNames-visit P [] none h = tt
  AllNames-visit P [] (some d) h = (h, tt)
  AllNames-visit P (b ∷ k) d h = (h, tt)

  AllNames-for_each :
      (P : Bytes → Type 0) (t : Tree D) → All (λ k _. P k) t → AllNames P (for_each t true)
  unfolding for_each
  AllNames-for_each P null h = tt
  AllNames-for_each P (node l k d r) h =
      AllNames-append P (for_each l true) _ (AllNames-for_each P l h.0)
        (AllNames-append P (visit k d) _ (AllNames-visit P k d h.1) (AllNames-for_each P r h.2))

  IsAscending-append :
      (xs ys : Entries D) (k : Bytes)
      → IsAscending xs
      → IsAscending ys
      → AllNames (λ j. j ≺ k) xs
      → AllNames (λ j. (j ≡ k) ⊎ (k ≺ j)) ys
      → IsAscending (xs ++ ys)
  IsAscending-append [] ys k h g a b = g
  IsAscending-append ((x, d) ∷ xs) ys k h g a b = (
    AllNames-append (λ j. x ≺ j) xs ys h.0
        (AllNames-imp ys (λ j c. elim c [ inl e ↦ rw e a.0 | inr m ↦ ≺_trans x k j a.0 m ]) b),
    IsAscending-append xs ys k h.1 g a.1 b,
  )

  IsAscending-visit :
      (k : Bytes) (d : Option D) (es : Entries D)
      → AllNames (λ j. k ≺ j) es
      → IsAscending es
      → IsAscending (visit k d ++ es)
  IsAscending-visit [] none es h g = g
  IsAscending-visit [] (some d) es h g = (h, g)
  IsAscending-visit (b ∷ k) d es h g = (h, g)

  -- The callbacks of a forward walk come in the order of the names, each name once.
  pub for_each-IsAscending : (t : Tree D) → IsOrdered t → IsAscending (for_each t true)
  unfolding for_each
  for_each-IsAscending null s = tt
  for_each-IsAscending (node l k d r) s =
      let above = AllNames-for_each (λ j. k ≺ j) r s.1 in
      IsAscending-append (for_each l true) _ k (for_each-IsAscending l s.2)
        (IsAscending-visit k d _ above (for_each-IsAscending r s.3))
        (AllNames-for_each (λ j. j ≺ k) l s.0)
        (AllNames-append _ (visit k d) _ (AllNames-visit _ k d (inl refl))
          (AllNames-imp (for_each r true) (λ j. inr) above))

  entry-append_absent :
      (xs ys : Entries D) (p : Bytes) → AllNames (λ k. p ≢ k) xs → entry (xs ++ ys) p ≡ entry ys p
  unfolding entry
  entry-append_absent [] ys p h = refl
  entry-append_absent ((x, d) ∷ xs) ys p h =
      ground (arith, eq_of_cmp p x, entry-append_absent xs ys p h.1, h.0)

  entry-append_left :
      (xs ys : Entries D) (p : Bytes) → AllNames (λ k. p ≢ k) ys → entry (xs ++ ys) p ≡ entry xs p
  unfolding entry
  entry-append_left [] [] p h = refl
  entry-append_left [] ((y, d) ∷ ys) p h =
      ground (arith, eq_of_cmp p y, entry-append_left [] ys p h.1, h.0)
  entry-append_left ((x, d) ∷ xs) ys p h = ground (arith, entry-append_left xs ys p h)

  absent_right :
      (k : Bytes) (d : Option D) (r : Tree D) (p : Bytes)
      → Above k r
      → p ≺ k
      → AllNames (λ j. p ≢ j) (visit k d ++ for_each r true)
  absent_right k d r p b h =
      AllNames-append _ (visit k d) _ (AllNames-visit _ k d (ne_of_lt p k h))
        (AllNames-for_each _ r (All-imp r (λ j _ a. ne_of_lt p j (≺_trans p k j h a)) b))

  absent_left :
      (l : Tree D) (k p : Bytes)
      → Below k l
      → (k ≡ p) ⊎ (k ≺ p)
      → AllNames (λ j. p ≢ j) (for_each l true)
  absent_left l k p b h = AllNames-for_each _ l (
      All-imp l
        (λ j _ a e. elim h [
          | inl same ↦ ne_of_lt j k a (sym e ∙ sym same)
          | inr less ↦ ne_of_lt j p (≺_trans j k p a less) (sym e)
        ])
        b)

  entry-visit :
      (k : Bytes) (d : Option D) (es : Entries D)
      → AllNames (λ j. k ≢ j) es
      → entry (visit k d ++ es) k ≡ d
  unfolding entry name_cmp
  entry-visit [] none es h = entry-append_left [] es [] h
  entry-visit [] (some d) es h = refl
  entry-visit (b ∷ k) d es h = rw (cmp_refl (b ∷ k), entry)

  entry-visit_ne :
      (k : Bytes) (d : Option D) (es : Entries D) (p : Bytes)
      → k ≺ p
      → entry (visit k d ++ es) p ≡ entry es p
  entry-visit_ne k d es p h =
      entry-append_absent (visit k d) es p (AllNames-visit _ k d (λ e. ne_of_lt k p h (sym e)))

  -- The entries that a forward walk visits, read from the front, are the dictionary.
  pub entry-for_each : (t : Tree D) (p : Bytes) → IsOrdered t → entry (for_each t true) p ≡ get t p
  unfolding entry for_each get find
  entry-for_each null p s = refl
  entry-for_each (node l k d r) p s = elim (cmp_cases p k) [
    | inl h ↦
        rw (h, find)
          (entry-append_left (for_each l true) _ p (absent_right k d r p s.1 h)
            ∙ entry-for_each l p s.2)
    | inr (inl h) ↦
        rw (h, find)
          (ap (entry _) (eq_of_cmp p k h)
            ∙ entry-append_absent (for_each l true) _ k (absent_left l k k s.0 (inl refl))
            ∙ entry-visit k d _ (AllNames-for_each _ r (All-imp r (λ j _ a. ne_of_lt k j a) s.1)))
    | inr (inr h) ↦
        let less = lt_of_gt p k h in
        rw (h, find)
          (entry-append_absent (for_each l true) _ p (absent_left l k p s.0 (inr less))
            ∙ entry-visit_ne k d (for_each r true) p less
            ∙ entry-for_each r p s.3)
  ]
