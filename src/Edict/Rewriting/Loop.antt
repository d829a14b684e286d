-- ===== src/Edict/Rewriting/Loop.antt =====
-- The rewritings after an instruction (edict/edict_vm_core.cpp, applyRewriteLoop).
use agentc.Edict.Rewriting.{
  StackValue, RewriteRule, RewriteMode, auto, TraceReason, Rewriter, Captures, apply_rewrite_once,
  rewrite_steps, apply_rewrite_loop, with_last_match, push_tokens,
}
use agentc.Edict.Rewriting.Search.{NoneFits}
use agentc.Edict.Rewriting.Applied.{IsEnabled, IsRewritten, apply_rewrite_once-Applies}
use agentc.Prelude.{
  ℕ, zero, suc, ◌≤◌, ◌≡◌, ◌⊎◌, inl, inr, refl, sym, ap, ◌∙◌, subst, false, List, Option, none, some,
  length, arith, drop,
}

-- `Rewritings n r s`: n rewritings, each of the first of the longest rules that fit, lead from r to s.
pub data Rewritings : ℕ → Rewriter → Rewriter → Type 0 where
  no_more : {n : ℕ} {r s : Rewriter} → n ≡ 0 → r ≡ s → Rewritings n r s
  one_more :
      {k n : ℕ} {r s : Rewriter} (vs : List StackValue) (i : ℕ) (rule : RewriteRule) (c : Captures)
      → n ≡ suc k
      → r.stack ≡ some vs
      → IsRewritten false r vs (apply_rewrite_once false r) i rule c
      → Rewritings k (apply_rewrite_once false r).1 s
      → Rewritings n r s

-- Rewritings, `limit` of them or until no rule fits any more.
pub record IsReduced (limit : ℕ) (r out : Rewriter) : Type 0 where
  pub steps : ℕ
  pub last : Rewriter
  pub within : steps ≤ limit
  pub reached : Rewritings steps r last
  pub same_stack : out.stack ≡ last.stack
  pub reduced :
      (steps ≡ limit)
      ⊎ ((vs : List StackValue) × (out.stack ≡ some vs) × NoneFits r.rules vs (length r.rules))

with_last_match-stack :
    (last : Option (TraceReason × RewriteMode)) (s : Rewriter)
    → (with_last_match last s).stack ≡ s.stack
with_last_match-stack none s = refl
with_last_match-stack (some t) s = refl

rewrite_steps-IsReduced :
    (n : ℕ) (last : Option (TraceReason × RewriteMode)) (r : Rewriter) (vs : List StackValue)
    → r.mode ≡ auto
    → r.stack ≡ some vs
    → IsReduced n r (rewrite_steps n last r)
unfolding rewrite_steps
rewrite_steps-IsReduced zero last r vs m s = record {
  steps = 0;
  last = r;
  within = omega arith;
  reached = no_more refl refl;
  same_stack = refl;
  reduced = inl refl;
}
rewrite_steps-IsReduced (suc n) last r vs m s =
    let next = apply_rewrite_once false r in
    elim (apply_rewrite_once-Applies false r vs (subst (IsEnabled false) (sym m) tt) s) [
      | inl u ↦ rw (u.refused) (record {
        steps = 0;
        last = r;
        within = omega arith;
        reached = no_more refl refl;
        same_stack = with_last_match-stack last next.1 ∙ u.same_stack ∙ sym s;
        reduced = inr (vs, with_last_match-stack last next.1 ∙ u.same_stack, u.nothing_fits);
      })
      | inr (i, rule, c, w) ↦
          let rest =
            rewrite_steps-IsReduced n next.1.trace next.1
              (push_tokens rule.replacement c (drop (length rule.pattern) vs, r.next_object)).0
              (w.same_mode ∙ m) w.new_stack in
          rw (w.done) (record {
            steps = suc rest.steps;
            last = rest.last;
            within = omega (arith, rest.within);
            reached = one_more vs i rule c refl s w rest.reached;
            same_stack = rest.same_stack;
            reduced = elim rest.reduced [
              | inl all ↦ inl (ap suc all)
              | inr (vs', e, none_fits) ↦ inr (
                vs',
                e,
                subst (λ rules. NoneFits rules vs' (length rules)) w.same_rules none_fits,
              )
            ];
          })
    ]

-- The loop after an instruction makes at most 16 rewritings, each of the first of the longest rules that
-- fit, and stops short of 16 only where no rule fits the stack any more.
pub apply_rewrite_loop-IsReduced :
    (r : Rewriter) (vs : List StackValue)
    → r.mode ≡ auto
    → r.stack ≡ some vs
    → IsReduced 16 r (apply_rewrite_loop false r)
unfolding apply_rewrite_loop
apply_rewrite_loop-IsReduced r vs m s = rewrite_steps-IsReduced 16 none r vs m s
