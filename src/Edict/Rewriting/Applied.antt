-- ===== src/Edict/Rewriting/Applied.antt =====
-- One rewriting of the stack (edict/edict_vm_core.cpp, applyRewriteOnce) against the rules and the stack.
use agentc.Edict.Rewriting.{
  StackValue, RewriteRule, RewriteMode, auto, manual, off, matched, Rewriter, Captures, match_rule,
  Best, search_rules, no_best, max_len, pop_values, push_back, push_tokens, finish, rewrite_stack,
  rewrite_frame, is_off, is_manual, apply_rewrite_once,
}
use agentc.Edict.Rewriting.Window.{
  pop_values-take, push_back-drop, match_rule-take, match_rule-short, pattern_le_max_len,
}
use agentc.Edict.Rewriting.Search.{Fits, NoneFits, IsLongest, IsBest, search_rules-IsBest}
use agentc.Prelude.{
  ℕ, zero, suc, ◌≤◌, ◌≡◌, ◌⊎◌, inl, inr, refl, sym, ap, ◌∙◌, subst, Bool, true, false, not, ◌&&◌,
  ◌==◌, ltb, List, [], ◌∷◌, Option, none, some, length, take, drop, get_elem?, arith, Bool-cases,
  if◌then◌else◌,
}

-- the modes in which a rewriting is tried
abbrev pub IsEnabled : Bool → RewriteMode → Type 0
IsEnabled by_hand auto = Unit
IsEnabled by_hand manual = by_hand ≡ true
IsEnabled by_hand off = ⊥

-- nothing fits, and the stack is as before
pub record IsUnchanged (r : Rewriter) (vs : List StackValue) (out : Bool × Rewriter) : Type 0 where
  pub refused : out.0 ≡ false
  pub same_stack : out.1.stack ≡ some vs
  pub same_rules : out.1.rules ≡ r.rules
  pub same_mode : out.1.mode ≡ r.mode
  pub nothing_fits : NoneFits r.rules vs (length r.rules)

-- The first of the longest rules that fit takes its values from the stack and pushes its replacement.
pub record IsRewritten (by_hand : Bool) (r : Rewriter) (vs : List StackValue)
    (out : Bool × Rewriter) (i : ℕ) (rule : RewriteRule) (c : Captures) : Type 0 where
  pub done : out.0 ≡ true
  pub best : IsLongest r.rules vs (length r.rules) i rule c
  pub new_stack :
      out.1.stack
      ≡ some (push_tokens rule.replacement c (drop (length rule.pattern) vs, r.next_object)).0
  pub same_rules : out.1.rules ≡ r.rules
  pub same_mode : out.1.mode ≡ r.mode
  pub new_trace : out.1.trace ≡ some (matched i rule by_hand, r.mode)

abbrev pub Applies : Bool → Rewriter → List StackValue → Bool × Rewriter → Type 0
Applies by_hand r vs out =
    IsUnchanged r vs out
    ⊎ ((i : ℕ) × (rule : RewriteRule) × (c : Captures) × IsRewritten by_hand r vs out i rule c)

take_all : (n : ℕ) (vs : List StackValue) → length vs ≤ n → take n vs ≡ vs
take_all zero [] l = refl
take_all zero (v ∷ vs) l = absurd (omega arith)
take_all (suc n) [] l = refl
take_all (suc n) (v ∷ vs) l = ap (λ st. v ∷ st) (take_all n vs (omega arith))

-- The window is as long as the longest pattern, or it is the whole stack.
module _ (rules : List RewriteRule) (vs : List StackValue) (n : ℕ)
    (wide : (max_len rules ≤ n) ⊎ (length vs ≤ n)) where
  match_rule-window :
      (j : ℕ) (rule : RewriteRule)
      → get_elem? rules j ≡ some rule
      → match_rule rule (take n vs) ≡ match_rule rule vs
  match_rule-window j rule q = elim wide [
    | inl l ↦ match_rule-take n rule vs (omega (arith, l, pattern_le_max_len rules j rule q))
    | inr l ↦ ap (match_rule rule) (take_all n vs l)
  ]

  Fits-widen :
      (j : ℕ) (rule : RewriteRule) (c : Captures)
      → get_elem? rules j ≡ some rule
      → Fits rule (take n vs) c
      → Fits rule vs c
  Fits-widen j rule c q f = record {
    not_empty = f.not_empty;
    matches = sym (match_rule-window j rule q) ∙ f.matches;
  }

  Fits-narrow :
      (j : ℕ) (rule : RewriteRule) (c : Captures)
      → get_elem? rules j ≡ some rule
      → Fits rule vs c
      → Fits rule (take n vs) c
  Fits-narrow j rule c q f = record {
    not_empty = f.not_empty;
    matches = match_rule-window j rule q ∙ f.matches;
  }

  IsLongest-widen :
      (k i : ℕ) (rule : RewriteRule) (c : Captures)
      → IsLongest rules (take n vs) k i rule c
      → IsLongest rules vs k i rule c
  IsLongest-widen k i rule c b = record {
    there = b.there;
    chosen_fits = Fits-widen i rule c b.there b.chosen_fits;
    longest = λ j other d l q f. b.longest j other d l q (Fits-narrow j other d q f);
  }

module _ (by_hand : Bool) (r : Rewriter) (vs : List StackValue) where
  -- a pattern that fits is not longer than the stack
  Fits-length :
      (rule : RewriteRule) (c : Captures) → Fits rule vs c → length rule.pattern ≤ length vs
  Fits-length rule c f = elim (Bool-cases (ltb (length vs) (length rule.pattern))) [
    | inl short ↦ absurd (match_rule-short rule vs c (ground (arith, short)) f.matches)
    | inr long ↦ ground (arith, long)
  ]

  finish-Applies :
      (n : ℕ) (best : Best) (chosen : Option (ℕ × RewriteRule × Captures))
      → (max_len r.rules ≤ n) ⊎ (length vs ≤ n)
      → n ≤ length vs
      → IsBest r.rules (take n vs) (length r.rules) chosen best.length
      → Applies by_hand r vs (finish by_hand r best (take n vs) (drop n vs) chosen)
  finish-Applies n best none wide l (e, none_fits) = inl (record {
    refused = refl;
    same_stack = ap some (push_back-drop 0 n vs (omega arith));
    same_rules = refl;
    same_mode = refl;
    nothing_fits =
        λ j rule c m q f. none_fits j rule c m q (Fits-narrow r.rules vs n wide j rule c q f);
  })
  finish-Applies n best (some (i, rule, c)) wide l (e, b, m) =
      let wider = IsLongest-widen r.rules vs n wide (length r.rules) i rule c b in
      let inside : length rule.pattern ≤ n = elim wide [
        | inl w ↦ omega (arith, w, pattern_le_max_len r.rules i rule b.there)
        | inr w ↦ omega (arith, w, Fits-length rule c wider.chosen_fits)
      ] in
      inr (
        i,
        rule,
        c,
        record {
          done = refl;
          best = wider;
          new_stack =
              ap (λ st. some (push_tokens rule.replacement c (st, r.next_object)).0)
                (ap (λ k. push_back (drop k (take n vs)) (drop n vs)) e
                  ∙ push_back-drop (length rule.pattern) n vs inside);
          same_rules = refl;
          same_mode = refl;
          new_trace = refl;
        },
      )

  nothing_fits-empty : length vs ≡ 0 → NoneFits r.rules vs (length r.rules)
  nothing_fits-empty e j rule c l q f = omega (arith, e, f.not_empty, Fits-length rule c f)

  window : ℕ
  window = if ltb (length vs) (max_len r.rules) then length vs else max_len r.rules

  searched :
      (popped rest : List StackValue)
      → pop_values window vs ≡ (popped, rest)
      → Applies by_hand r vs (
          finish by_hand r
            (search_rules 0 r.rules popped no_best)
            popped
            rest
            (search_rules 0 r.rules popped no_best).rule)
  unfolding window
  searched popped rest q =
      let wide : (max_len r.rules ≤ window) ⊎ (length vs ≤ window) =
        elim (Bool-cases (ltb (length vs) (max_len r.rules))) [
          | inl whole ↦ inr (rw whole (omega arith))
          | inr top ↦ inl (rw top (omega arith))
        ] in
      let inside : window ≤ length vs = ground arith in
      let both : (popped, rest) ≡ (take window vs, drop window vs) =
        sym q ∙ pop_values-take window vs in
      subst
        (λ (p : List StackValue × List StackValue). Applies by_hand r vs (
          finish by_hand r (search_rules 0 r.rules p.0 no_best) p.0 p.1
            (search_rules 0 r.rules p.0 no_best).rule))
        (sym both)
        (finish-Applies window (search_rules 0 r.rules (take window vs) no_best)
          (search_rules 0 r.rules (take window vs) no_best).rule wide inside
          (search_rules-IsBest r.rules (take window vs)))

  rewrite_stack-Applies : r.stack ≡ some vs → Applies by_hand r vs (rewrite_stack by_hand r vs)
  unfolding window
  rewrite_stack-Applies s = elim (Bool-cases (length vs == 0)) [
    | inl empty ↦ rw empty (
        inl (record {
          refused = refl;
          same_stack = s;
          same_rules = refl;
          same_mode = refl;
          nothing_fits = nothing_fits-empty (ground (arith, empty));
        }))
    | inr filled ↦ rw filled (elim (Bool-cases (max_len r.rules == 0)) [
      | inl short ↦ rw short (
          inl (record {
            refused = refl;
            same_stack = s;
            same_rules = refl;
            same_mode = refl;
            nothing_fits = λ j rule c l q f.
                ground (arith, short, f.not_empty, pattern_le_max_len r.rules j rule q);
          }))
      | inr long ↦ rw long (searched (pop_values window vs).0 (pop_values window vs).1 refl)
    ])
  ]

enabled-is_off : (by_hand : Bool) (m : RewriteMode) → IsEnabled by_hand m → is_off m ≡ false
enabled-is_off by_hand auto e = refl
enabled-is_off by_hand manual e = refl
enabled-is_off by_hand off e = elim e [ ]

enabled-is_manual :
    (by_hand : Bool) (m : RewriteMode) → IsEnabled by_hand m → (not by_hand && is_manual m) ≡ false
enabled-is_manual true m e = refl
enabled-is_manual false auto e = refl
enabled-is_manual false manual e = absurd (cc)
enabled-is_manual false off e = refl

-- Where rewriting is enabled, either no rule fits the stack and nothing but the trace changes, or the
-- first of the longest rules that fit is applied: its values are taken from the top of the stack and
-- its replacement is pushed. This is so although only a window of the stack is looked at.
pub apply_rewrite_once-Applies :
    (by_hand : Bool) (r : Rewriter) (vs : List StackValue)
    → IsEnabled by_hand r.mode
    → r.stack ≡ some vs
    → Applies by_hand r vs (apply_rewrite_once by_hand r)
unfolding apply_rewrite_once
apply_rewrite_once-Applies by_hand r vs e s =
    rw (enabled-is_off by_hand r.mode e, enabled-is_manual by_hand r.mode e)
      (elim (Bool-cases (length r.rules == 0)) [
        | inl no_rule ↦ rw no_rule (
            inl (record {
              refused = refl;
              same_stack = s;
              same_rules = refl;
              same_mode = refl;
              nothing_fits = λ j rule c l q f. ground (arith, no_rule, l);
            }))
        | inr some_rule ↦ rw some_rule (
            subst (λ o. Applies by_hand r vs (rewrite_frame by_hand r o)) (sym s)
              (rewrite_stack-Applies by_hand r vs s))
      ])
