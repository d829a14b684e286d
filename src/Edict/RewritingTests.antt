-- ===== src/Edict/RewritingTests.antt =====
-- Runs of the rewriting of the stack at concrete inputs.
use agentc.Edict.Rewriting.{
  StackValue, RewriteRule, auto, Rewriter, create_string_value, apply_rewrite_once,
  apply_rewrite_loop, match_tokens, match_token,
}
use agentc.Edict.Rewriting.Applied.{Applies, apply_rewrite_once-Applies}
use agentc.Edict.Rewriting.Loop.{IsReduced, apply_rewrite_loop-IsReduced}
use agentc.Prelude.{◌≡◌, refl, false, List, [], ◌∷◌, none, some, codes, bytes_eq, lookup, insert}

-- `dup $1` becomes `$1 $1`, and `x` alone becomes `y`.
abbrev two_rules : List RewriteRule
two_rules =
    record { pattern = codes "x" ∷ []; replacement = codes "y" ∷ [] }
    ∷ record { pattern = codes "dup" ∷ codes "$1" ∷ []; replacement = codes "$1" ∷ codes "$1" ∷ [] }
    ∷ []

abbrev dup_x : List StackValue
dup_x =
    create_string_value 1 (codes "x")
    ∷ create_string_value 2 (codes "dup")
    ∷ create_string_value 3 (codes "z")
    ∷ []

abbrev before : Rewriter
before = record {
  rules = two_rules;
  mode = auto;
  stack = some dup_x;
  trace = none;
  next_object = 4;
}

-- The longer rule goes first, and then the shorter one.
doubled :
    (apply_rewrite_once false before).1.stack
    ≡ some (
        create_string_value 1 (codes "x")
        ∷ create_string_value 1 (codes "x")
        ∷ create_string_value 3 (codes "z")
        ∷ [])
unfolding apply_rewrite_once match_token match_tokens bytes_eq lookup insert
doubled = refl

to_the_end :
    (apply_rewrite_loop false before).stack
    ≡ some (
        create_string_value 4 (codes "y")
        ∷ create_string_value 1 (codes "x")
        ∷ create_string_value 3 (codes "z")
        ∷ [])
unfolding apply_rewrite_loop apply_rewrite_once match_token match_tokens bytes_eq lookup insert
to_the_end = refl

apply_rewrite_once-Applies_example : Applies false before dup_x (apply_rewrite_once false before)
apply_rewrite_once-Applies_example = apply_rewrite_once-Applies false before dup_x tt refl

apply_rewrite_loop-IsReduced_example : IsReduced 16 before (apply_rewrite_loop false before)
apply_rewrite_loop-IsReduced_example = apply_rewrite_loop-IsReduced before dup_x refl refl
