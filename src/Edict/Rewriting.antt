-- ===== src/Edict/Rewriting.antt =====
-- The rewriting of the top of the stack: applyRewriteOnce, applyRewriteLoop and the table of rules
-- (edict/edict_vm_core.cpp). A value shows its object, by which pointers are compared, whether it is a
-- list, and its bytes. Stacks hold no null values. Of a failure the rule and the token are kept, not
-- the text of the message.
pub mod Window
pub mod Search
pub mod Applied
pub mod Loop
use agentc.Prelude.{
  ℕ, zero, suc, ◌+◌, ◌-◌, Bool, true, false, not, ◌&&◌, ◌||◌, ◌==◌, ltb, leb, if◌then◌else◌, List,
  [], ◌∷◌, ◌++◌, Option, none, some, length, drop, Bytes, bytes_eq, codes, Map, lookup, insert,
}
use agentc.Prelude.{bytes_key}

pub record StackValue : Type 0 where
  pub object : ℕ
  pub is_list : Bool
  pub is_binary : Bool
  pub bytes : Bytes

pub record RewriteRule : Type 0 where
  pub pattern : List Bytes
  pub replacement : List Bytes

pub data RewriteMode : Type 0 where
  auto manual off : RewriteMode

pub data TraceReason : Type 0 where
  mode_is_off mode_is_manual no_rules no_frame empty_stack empty_patterns : TraceReason
  no_rule_matched : Option (ℕ × Bytes) → TraceReason
  matched : ℕ → RewriteRule → Bool → TraceReason

pub record Rewriter : Type 0 where
  pub rules : List RewriteRule
  pub mode : RewriteMode
  pub stack : Option (List StackValue)
  pub trace : Option (TraceReason × RewriteMode)
  pub next_object : ℕ

abbrev pub Captures : Type 0
Captures = Map Bytes StackValue

abbrev pub value_to_string : StackValue → Option Bytes
value_to_string v = elim v.bytes [ [] ↦ none | _ ∷ _ ↦ if v.is_binary then none else some v.bytes ]

abbrev all_digits : Bytes → Bool
all_digits [] = true
all_digits (b ∷ bs) = leb 48 b && leb b 57 && all_digits bs

-- `$` and at least one digit
unfoldable pub is_rewrite_wildcard : Bytes → Bool
is_rewrite_wildcard [] = false
is_rewrite_wildcard (b ∷ []) = false
is_rewrite_wildcard (b ∷ c ∷ cs) = b == 36 && all_digits (c ∷ cs)

unfoldable pub is_rewrite_type_token : Bytes → Bool
unfolding bytes_eq
is_rewrite_type_token token = bytes_eq token (codes "#list") || bytes_eq token (codes "#atom")

unfoldable pub rewrite_type_matches : Bytes → StackValue → Bool
unfolding bytes_eq
rewrite_type_matches token v =
    if bytes_eq token (codes "#list")
    then v.is_list
    else if bytes_eq token (codes "#atom")
    then not v.is_list
    else false

abbrev pub text_is : Option Bytes → Bytes → Bool
text_is none t = false
text_is (some s) t = bytes_eq s t

abbrev pub same_text : Option Bytes → Option Bytes → Bool
same_text s none = false
same_text s (some t) = text_is s t

abbrev pub capture : Bytes → StackValue → Captures → Option StackValue → Option Captures
capture token v c none = some (insert token v c)
capture token v c (some w) =
    if w.object == v.object || same_text (value_to_string w) (value_to_string v)
    then some c
    else none

unfoldable pub match_token : Bytes → StackValue → Captures → Option Captures
unfolding is_rewrite_wildcard is_rewrite_type_token rewrite_type_matches
match_token token v c =
    if is_rewrite_wildcard token
    then capture token v c (lookup token c)
    else if is_rewrite_type_token token
    then (if rewrite_type_matches token v then some c else none)
    else if text_is (value_to_string v) token
    then some c
    else none

pub data Match : Type 0 where
  fits : Captures → Match
  fails : Bytes → Match

abbrev pub then_match : Bytes → Option Captures → (Captures → Match) → Match
then_match token none rest = fails token
then_match token (some c) rest = rest c

-- the tokens of a pattern from its end, against the values from the top
unfoldable pub match_tokens : List Bytes → List StackValue → Captures → Match
match_tokens [] vs c = fits c
match_tokens (t ∷ ts) [] c = fails t
match_tokens (t ∷ ts) (v ∷ vs) c = then_match t (match_token t v c) (match_tokens ts vs)

abbrev pub from_end : List Bytes → List Bytes → List Bytes
from_end [] out = out
from_end (t ∷ ts) out = from_end ts (t ∷ out)

unfoldable pub match_rule : RewriteRule → List StackValue → Match
unfolding match_tokens
match_rule rule vs = match_tokens (from_end rule.pattern []) vs []

pub record Best : Type 0 where
  pub rule : Option (ℕ × RewriteRule × Captures)
  pub length : ℕ
  pub failure : Option (ℕ × Bytes)

abbrev pub first_failure : Option (ℕ × Bytes) → ℕ × Bytes → Option (ℕ × Bytes)
first_failure none f = some f
first_failure (some f) g = some f

abbrev pub judged : ℕ → RewriteRule → Best → Match → Best
judged i rule best (fits c) =
    if ltb best.length (length rule.pattern)
    then record best { rule = some (i, rule, c); length = length rule.pattern }
    else best
judged i rule best (fails token) = record best { failure = first_failure best.failure (i, token) }

abbrev pub try_rule : ℕ → RewriteRule → List StackValue → Best → Best
try_rule i rule popped best =
    if (length rule.pattern == 0) || ltb (length popped) (length rule.pattern)
    then best
    else judged i rule best (match_rule rule popped)

-- the loop over the rules, the first of which has the number `i`
unfoldable pub search_rules : ℕ → List RewriteRule → List StackValue → Best → Best
search_rules i [] popped best = best
search_rules i (rule ∷ rules) popped best =
    search_rules (suc i) rules popped (try_rule i rule popped best)

abbrev pub no_best : Best
no_best = record { rule = none; length = 0; failure = none }

abbrev pub longer : ℕ → ℕ → ℕ
longer a b = if ltb a b then b else a

abbrev pub max_len : List RewriteRule → ℕ
max_len [] = 0
max_len (rule ∷ rules) = longer (max_len rules) (length rule.pattern)

-- what `n` pops take, from the top, and what they leave
unfoldable pub pop_values : ℕ → List StackValue → List StackValue × List StackValue
pop_values zero vs = ([], vs)
pop_values (suc n) [] = ([], [])
pop_values (suc n) (v ∷ vs) = let (popped, rest) = pop_values n vs in (v ∷ popped, rest)

-- values pushed back, the last one first
abbrev pub push_back : List StackValue → List StackValue → List StackValue
push_back [] st = st
push_back (v ∷ vs) st = v ∷ push_back vs st

abbrev pub create_string_value : ℕ → Bytes → StackValue
create_string_value object text = record {
  object = object;
  is_list = false;
  is_binary = false;
  bytes = text;
}

abbrev pub captured : Bytes → Captures → Option StackValue
captured token c = if is_rewrite_wildcard token then lookup token c else none

-- the replacement pushed, a wildcard by what it captured, and the next object
unfoldable pub push_tokens : List Bytes → Captures → List StackValue × ℕ → List StackValue × ℕ
push_tokens [] c (st, n) = (st, n)
push_tokens (t ∷ ts) c (st, n) =
    push_tokens ts c
      (elim (captured t c) [ some v ↦ (v ∷ st, n) | none ↦ (create_string_value n t ∷ st, n + 1) ])

abbrev pub traced : TraceReason → Rewriter → Rewriter
traced reason r = record r { trace = some (reason, r.mode) }

abbrev pub finish :
    Bool
    → Rewriter
    → Best
    → List StackValue
    → List StackValue
    → Option (ℕ × RewriteRule × Captures)
    → Bool × Rewriter
finish by_hand r best popped rest none = (
  false,
  traced (no_rule_matched best.failure) (record r { stack = some (push_back popped rest) }),
)
finish by_hand r best popped rest (some (i, rule, c)) =
    let (st, n) =
      push_tokens rule.replacement c (push_back (drop best.length popped) rest, r.next_object) in
    (true, traced (matched i rule by_hand) (record r { stack = some st; next_object = n }))

abbrev pub rewrite_stack : Bool → Rewriter → List StackValue → Bool × Rewriter
rewrite_stack by_hand r vs =
    if length vs == 0
    then (false, traced empty_stack r)
    else if max_len r.rules == 0
    then (false, traced empty_patterns r)
    else (let (popped, rest) =
          pop_values (if ltb (length vs) (max_len r.rules) then length vs else max_len r.rules)
            vs in
        let best = search_rules 0 r.rules popped no_best in
        finish by_hand r best popped rest best.rule)

abbrev pub rewrite_frame : Bool → Rewriter → Option (List StackValue) → Bool × Rewriter
rewrite_frame by_hand r none = (false, traced no_frame r)
rewrite_frame by_hand r (some vs) = rewrite_stack by_hand r vs

abbrev pub is_off : RewriteMode → Bool
is_off off = true
is_off _ = false

abbrev pub is_manual : RewriteMode → Bool
is_manual manual = true
is_manual _ = false

unfoldable pub apply_rewrite_once : Bool → Rewriter → Bool × Rewriter
unfolding match_rule search_rules pop_values push_tokens
apply_rewrite_once by_hand r =
    if is_off r.mode
    then (false, traced mode_is_off r)
    else if not by_hand && is_manual r.mode
    then (false, traced mode_is_manual r)
    else if length r.rules == 0
    then (false, traced no_rules r)
    else rewrite_frame by_hand r r.stack

abbrev pub with_last_match : Option (TraceReason × RewriteMode) → Rewriter → Rewriter
with_last_match none r = r
with_last_match (some t) r = record r { trace = some t }

-- the loop after an instruction, at most `n` steps more; `last` is the trace of the last match
unfoldable pub rewrite_steps : ℕ → Option (TraceReason × RewriteMode) → Rewriter → Rewriter
unfolding apply_rewrite_once
rewrite_steps zero last r = r
rewrite_steps (suc n) last r =
    let (done, s) = apply_rewrite_once false r in
    let again = rewrite_steps n s.trace s in if done then again else with_last_match last s

unfoldable pub apply_rewrite_loop : Bool → Rewriter → Rewriter
unfolding rewrite_steps
apply_rewrite_loop true r = (apply_rewrite_once true r).1
apply_rewrite_loop false r = rewrite_steps 16 none r

unfoldable pub add_rewrite_rule : List Bytes → List Bytes → Rewriter → Rewriter
add_rewrite_rule pattern replacement r = record r {
  rules = r.rules ++ record { pattern = pattern; replacement = replacement } ∷ [];
}

abbrev pub erase_at : ℕ → List RewriteRule → List RewriteRule
erase_at i [] = []
erase_at zero (rule ∷ rules) = rules
erase_at (suc i) (rule ∷ rules) = rule ∷ erase_at i rules

unfoldable pub remove_rewrite_rule : ℕ → Rewriter → Bool × Rewriter
remove_rewrite_rule i r =
    if leb (length r.rules) i then (false, r) else (true, record r { rules = erase_at i r.rules })
