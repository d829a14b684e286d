-- ===== src/Edict/Rewriting/Window.antt =====
-- The values that are popped for the match of a rule (edict/edict_vm_core.cpp, applyRewriteOnce).
use agentc.Edict.Rewriting.{
  StackValue, RewriteRule, Captures, fits, fails, match_token, match_tokens, from_end, match_rule,
  longer, max_len, pop_values, push_back,
}
use agentc.Prelude.{
  ℕ, zero, suc, ◌+◌, ◌<◌, ◌≤◌, ◌≡◌, inl, inr, refl, ap, subst, List, [], ◌∷◌, some, length, take,
  drop, get_elem?, Bytes, arith, Option-cases,
}

pub pop_values-take : (n : ℕ) (vs : List StackValue) → pop_values n vs ≡ (take n vs, drop n vs)
unfolding pop_values
pop_values-take zero vs = refl
pop_values-take (suc n) [] = refl
pop_values-take (suc n) (v ∷ vs) = rw (pop_values-take n vs) refl

-- What was popped and is pushed back, from a number of values on, is what was there behind them.
pub push_back-drop :
    (k n : ℕ) (vs : List StackValue)
    → k ≤ n
    → push_back (drop k (take n vs)) (drop n vs) ≡ drop k vs
push_back-drop zero zero vs l = refl
push_back-drop zero (suc n) [] l = refl
push_back-drop zero (suc n) (v ∷ vs) l = ap (λ st. v ∷ st) (push_back-drop zero n vs (omega arith))
push_back-drop (suc k) zero vs l = absurd (omega arith)
push_back-drop (suc k) (suc n) [] l = refl
push_back-drop (suc k) (suc n) (v ∷ vs) l = push_back-drop k n vs (omega arith)

length-from_end : (ts out : List Bytes) → length (from_end ts out) ≡ length ts + length out
length-from_end [] out = omega arith
length-from_end (t ∷ ts) out = omega (arith, length-from_end ts (t ∷ out))

match_tokens-take :
    (n : ℕ) (ts : List Bytes) (vs : List StackValue) (c : Captures)
    → length ts ≤ n
    → match_tokens ts (take n vs) c ≡ match_tokens ts vs c
unfolding match_tokens
match_tokens-take n [] vs c l = refl
match_tokens-take zero (t ∷ ts) vs c l = absurd (omega arith)
match_tokens-take (suc n) (t ∷ ts) [] c l = refl
match_tokens-take (suc n) (t ∷ ts) (v ∷ vs) c l = elim (Option-cases (match_token t v c)) [
  | inl no_match ↦ rw no_match refl
  | inr (d, e) ↦ rw e (match_tokens-take n ts vs d (omega arith))
]

-- A rule that is not longer than the window matches in it as on the whole stack.
pub match_rule-take :
    (n : ℕ) (rule : RewriteRule) (vs : List StackValue)
    → length rule.pattern ≤ n
    → match_rule rule (take n vs) ≡ match_rule rule vs
unfolding match_rule
match_rule-take n rule vs l =
    match_tokens-take n (from_end rule.pattern []) vs []
      (omega (arith, l, length-from_end rule.pattern []))

match_tokens-short :
    (ts : List Bytes) (vs : List StackValue) (c d : Captures)
    → length vs < length ts
    → match_tokens ts vs c ≡ fits d
    → ⊥
unfolding match_tokens
match_tokens-short [] vs c d l m = omega arith
match_tokens-short (t ∷ ts) [] c d l m = cc
match_tokens-short (t ∷ ts) (v ∷ vs) c d l m = elim (Option-cases (match_token t v c)) [
  | inl no_match ↦ (let clash : fails t ≡ fits d = rw (no_match) at m in cc)
  | inr (e, q) ↦
      (let rest : match_tokens ts vs e ≡ fits d = rw (q) at m in
        match_tokens-short ts vs e d (omega arith) rest)
]

pub match_rule-short :
    (rule : RewriteRule) (vs : List StackValue) (d : Captures)
    → length vs < length rule.pattern
    → match_rule rule vs ≡ fits d
    → ⊥
unfolding match_rule
match_rule-short rule vs d l m =
    match_tokens-short (from_end rule.pattern []) vs [] d
      (omega (arith, l, length-from_end rule.pattern [])) m

pub pattern_le_max_len :
    (rules : List RewriteRule) (i : ℕ) (rule : RewriteRule)
    → get_elem? rules i ≡ some rule
    → length rule.pattern ≤ max_len rules
pattern_le_max_len [] i rule q = cc
pattern_le_max_len (r ∷ rules) zero rule q =
    let same : r ≡ rule = cc in
    subst (λ x. length x.pattern ≤ longer (max_len rules) (length r.pattern)) same (ground arith)
pattern_le_max_len (r ∷ rules) (suc i) rule q = ground (arith, pattern_le_max_len rules i rule q)
