-- ===== src/Edict/Rewriting/Search.antt =====
-- The choice of a rule (edict/edict_vm_core.cpp, applyRewriteOnce): the loop over the rules.
use agentc.Edict.Rewriting.{
  StackValue, RewriteRule, Captures, Match, fits, fails, match_rule, Best, judged, try_rule,
  search_rules, no_best,
}
use agentc.Edict.Rewriting.Window.{match_rule-short}
use native.Mathlib.Decide.{ℕ_discrete}
use agentc.Prelude.{
  ℕ, suc, ◌+◌, ◌<◌, ◌≤◌, ◌≡◌, ◌⊎◌, inl, inr, refl, sym, ap, ◌∙◌, subst, ◌||◌, ◌==◌, ltb, List, [],
  ◌∷◌, Option, none, some, length, get_elem?, arith, Bool-cases,
}

-- A rule with a pattern that matches the values from the top, with these captures.
pub record Fits (rule : RewriteRule) (vs : List StackValue) (c : Captures) : Type 0 where
  pub not_empty : 0 < length rule.pattern
  pub matches : match_rule rule vs ≡ fits c

-- No rule of `rules` before the number `k` fits.
abbrev pub NoneFits : List RewriteRule → List StackValue → ℕ → Type 0
NoneFits rules vs k =
    (j : ℕ) (rule : RewriteRule) (c : Captures)
    → j < k
    → get_elem? rules j ≡ some rule
    → Fits rule vs c
    → ⊥

-- The rule with the number `i` fits, every rule that fits is at most as long, and one before it is shorter.
pub record IsLongest (rules : List RewriteRule) (vs : List StackValue) (k i : ℕ)
    (rule : RewriteRule) (c : Captures) : Type 0 where
  pub there : get_elem? rules i ≡ some rule
  pub chosen_fits : Fits rule vs c
  pub longest :
      (j : ℕ) (other : RewriteRule) (d : Captures)
      → j < k
      → get_elem? rules j ≡ some other
      → Fits other vs d
      → (length other.pattern < length rule.pattern)
        ⊎ ((length other.pattern ≡ length rule.pattern) × (i ≤ j))

abbrev pub IsBest :
    List RewriteRule → List StackValue → ℕ → Option (ℕ × RewriteRule × Captures) → ℕ → Type 0
IsBest rules vs k none len = (len ≡ 0) × NoneFits rules vs k
IsBest rules vs k (some (i, rule, c)) len =
    (len ≡ length rule.pattern) × IsLongest rules vs k i rule c × (i < k)

module _ (rules : List RewriteRule) (vs : List StackValue) (k : ℕ) (rule : RewriteRule)
    (here : get_elem? rules k ≡ some rule) where
  same_rule : (j : ℕ) (other : RewriteRule) → j ≡ k → get_elem? rules j ≡ some other → other ≡ rule
  same_rule j other e q =
      let found : some other ≡ some rule = sym q ∙ ap (get_elem? rules) e ∙ here in cc

  -- a rule that does not fit changes nothing
  IsBest-unfit :
      (best : Option (ℕ × RewriteRule × Captures)) (len : ℕ)
      → ((c : Captures) → Fits rule vs c → ⊥)
      → IsBest rules vs k best len
      → IsBest rules vs (suc k) best len
  IsBest-unfit none len unfit (e, none_fits) = (
    e,
    λ j other c l q f. elim (ℕ_discrete j k) [
      | yes now ↦ unfit c (subst (λ r. Fits r vs c) (same_rule j other now q) f)
      | no before ↦ none_fits j other c (omega (arith, before, l)) q f
    ],
  )
  IsBest-unfit (some (i, chosen, d)) len unfit (e, b, l) = (
    e,
    record {
      there = b.there;
      chosen_fits = b.chosen_fits;
      longest = λ j other c m q f. elim (ℕ_discrete j k) [
        | yes now ↦ absurd (unfit c (subst (λ r. Fits r vs c) (same_rule j other now q) f))
        | no before ↦ b.longest j other c (omega (arith, before, m)) q f
      ];
    },
    omega (arith, l),
  )

  -- a rule that fits and is longer than the best one
  IsBest-longer :
      (best : Option (ℕ × RewriteRule × Captures)) (len : ℕ) (c : Captures)
      → Fits rule vs c
      → len < length rule.pattern
      → IsBest rules vs k best len
      → IsBest rules vs (suc k) (some (k, rule, c)) (length rule.pattern)
  IsBest-longer none len c f l (e, none_fits) = (
    refl,
    record {
      there = here;
      chosen_fits = f;
      longest = λ j other d m q g. elim (ℕ_discrete j k) [
        | yes now ↦ inr (ap (λ r. length r.pattern) (same_rule j other now q), omega (arith, now))
        | no before ↦ absurd (none_fits j other d (omega (arith, before, m)) q g)
      ];
    },
    omega arith,
  )
  IsBest-longer (some (i, chosen, x)) len c f l (e, b, p) = (
    refl,
    record {
      there = here;
      chosen_fits = f;
      longest = λ j other d m q g. elim (ℕ_discrete j k) [
        | yes now ↦ inr (ap (λ r. length r.pattern) (same_rule j other now q), omega (arith, now))
        | no before ↦ elim (b.longest j other d (omega (arith, before, m)) q g) [
          | inl shorter ↦ inl (omega (arith, shorter, e, l))
          | inr (same, later) ↦ inl (omega (arith, same, e, l))
        ]
      ];
    },
    omega arith,
  )

  -- a rule that fits and is not longer
  IsBest-kept :
      (best : Option (ℕ × RewriteRule × Captures)) (len : ℕ)
      → 0 < length rule.pattern
      → length rule.pattern ≤ len
      → IsBest rules vs k best len
      → IsBest rules vs (suc k) best len
  IsBest-kept none len p l (e, none_fits) = absurd (omega (arith, p, l, e))
  IsBest-kept (some (i, chosen, x)) len p l (e, b, m) = (
    e,
    record {
      there = b.there;
      chosen_fits = b.chosen_fits;
      longest = λ j other d n q g. elim (ℕ_discrete j k) [
        | yes now ↦
            (let size = ap (λ r. length r.pattern) (same_rule j other now q) in
              elim (ℕ_discrete (length other.pattern) (length chosen.pattern)) [
                | yes as_long ↦ inr (as_long, omega (arith, now, m))
                | no shorter ↦ inl (omega (arith, size, shorter, l, e))
              ])
        | no before ↦ b.longest j other d (omega (arith, before, n)) q g
      ];
    },
    omega (arith, m),
  )

  IsBest-judged :
      (best : Best) (m : Match)
      → match_rule rule vs ≡ m
      → 0 < length rule.pattern
      → IsBest rules vs k best.rule best.length
      → IsBest rules vs (suc k) (judged k rule best m).rule (judged k rule best m).length
  IsBest-judged best (fails t) q p b =
      IsBest-unfit best.rule best.length
        (λ c f. let clash : fails t ≡ fits c = sym q ∙ f.matches in cc) b
  IsBest-judged best (fits c) q p b = elim (Bool-cases (ltb best.length (length rule.pattern))) [
    | inl longer ↦ rw longer (
        IsBest-longer best.rule best.length c (record { not_empty = p; matches = q })
          (ground (arith, longer)) b)
    | inr kept ↦ rw kept (IsBest-kept best.rule best.length p (ground (arith, kept)) b)
  ]

  IsBest-try_rule :
      (best : Best)
      → IsBest rules vs k best.rule best.length
      → IsBest rules vs (suc k) (try_rule k rule vs best).rule (try_rule k rule vs best).length
  IsBest-try_rule best b =
      elim (Bool-cases ((length rule.pattern == 0) || ltb (length vs) (length rule.pattern))) [
        | inl passed ↦ rw passed (
            IsBest-unfit best.rule best.length
              (λ c f. match_rule-short rule vs c (ground (arith, passed, f.not_empty)) f.matches) b)
        | inr tried ↦
            rw tried (IsBest-judged best (match_rule rule vs) refl (ground (arith, tried)) b)
      ]

IsBest-search :
    (all : List RewriteRule) (vs : List StackValue) (k : ℕ) (rules : List RewriteRule) (best : Best)
    → ((j : ℕ) → get_elem? rules j ≡ get_elem? all (k + j))
    → IsBest all vs k best.rule best.length
    → IsBest all vs
        (k + length rules)
        (search_rules k rules vs best).rule
        (search_rules k rules vs best).length
unfolding search_rules
IsBest-search all vs k [] best same b =
    subst (λ n. IsBest all vs n best.rule best.length) (omega arith) b
IsBest-search all vs k (rule ∷ rules) best same b =
    let here : get_elem? all k ≡ some rule = ap (get_elem? all) (omega arith) ∙ sym (same 0) in
    let next = try_rule k rule vs best in
    subst
      (λ n.
        IsBest all vs n (search_rules (suc k) rules vs next).rule
          (search_rules (suc k) rules vs next).length)
      (omega arith)
      (IsBest-search all vs (suc k) rules next
        (λ j. same (suc j) ∙ ap (get_elem? all) (omega arith))
        (IsBest-try_rule all vs k rule here best b))

-- The loop over all rules finds the first of the longest rules that fit, or none where none fits.
pub search_rules-IsBest :
    (rules : List RewriteRule) (vs : List StackValue)
    → IsBest rules vs
        (length rules)
        (search_rules 0 rules vs no_best).rule
        (search_rules 0 rules vs no_best).length
search_rules-IsBest rules vs =
    subst
      (λ n.
        IsBest rules vs n (search_rules 0 rules vs no_best).rule
          (search_rules 0 rules vs no_best).length)
      (omega arith)
      (IsBest-search rules vs 0 rules no_best (λ j. ap (get_elem? rules) (omega arith))
        (refl, λ j rule c l q f. omega (arith, l)))
