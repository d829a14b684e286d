-- ===== src/Edict/Tokenizer/Lines.antt =====
-- The line counter of the tokenizer beside the newlines of the source.
use agentc.Edict.Tokenizer.{
  Tokenizer, Cursor, Lexed, Scan, is_space, is_alnum, skip_step, skip_whitespace, literal_loop,
  string_loop, span, is_quote_word, is_identifier, close_string, parse_literal, parse_string,
  parse_quote_word, parse_identifier, parse_operator, parse_context_operator, scan_token,
  next_token, new_tokenizer, pass, next_col, end_literal, is_context, is_operator, starts_equal,
  tail_of, next_depth, is_escape,
}
use agentc.Prelude.{
  ℕ, zero, suc, ◌+◌, ◌%◌, ◌^◌, ◌≡◌, refl, Bool, true, false, not, ◌&&◌, ◌==◌, ==_iff, [], ◌∷◌, none,
  some, Bytes, arith, if◌then◌else◌, Bool-cases, Option-cases, if_cases, inl, inr,
}

abbrev pub newlines : Bytes → ℕ
newlines [] = 0
newlines (c ∷ cs) = if c == b'\n' then suc (newlines cs) else newlines cs

-- The lines passed and the newlines to come add up to `total`, as 32-bit numbers.
abbrev pub OnLine : ℕ → Cursor → Bytes → Type 0
OnLine total k rest = (k.line + newlines rest) % 2 ^ 32 ≡ total % 2 ^ 32

pass-OnLine : (n c : ℕ) (k : Cursor) (cs : Bytes) → OnLine n k (c ∷ cs) → OnLine n (pass c k) cs
pass-OnLine n c k cs h = ground arith

plain-OnLine :
    (n c : ℕ) (k : Cursor) (cs : Bytes)
    → (c == b'\n') ≡ false
    → OnLine n k (c ∷ cs)
    → OnLine n (next_col k) cs
plain-OnLine n c k cs e h = ground arith

skip_step-OnLine :
    (n : ℕ) (comment : Bool) (c : ℕ) (k : Cursor) (cs : Bytes) (comment' : Bool) (k' : Cursor)
    → skip_step comment c k ≡ some (comment', k')
    → OnLine n k (c ∷ cs)
    → OnLine n k' cs
unfolding skip_step
skip_step-OnLine n comment c k cs comment' k' e h = ground (arith, pass-OnLine n c k cs)

skip_whitespace-OnLine :
    (n : ℕ) (any comment : Bool) (rest : Bytes) (k : Cursor)
    → OnLine n k rest
    → OnLine n (skip_whitespace any comment rest k).cursor (skip_whitespace any comment rest k).rest
unfolding skip_whitespace
skip_whitespace-OnLine n any comment [] k h = h
skip_whitespace-OnLine n any comment (c ∷ cs) k h = elim (Option-cases (skip_step comment c k)) [
  | inl e ↦ rw (e, skip_whitespace) h
  | inr ((comment', k'), e) ↦
      rw (e, skip_whitespace)
        (skip_whitespace-OnLine n true comment' cs k'
          (skip_step-OnLine n comment c k cs comment' k' e h))
]

literal_loop-OnLine :
    (n o c d : ℕ) (rest : Bytes) (k : Cursor)
    → OnLine n k rest
    → OnLine n (literal_loop o c d rest k).1.cursor (literal_loop o c d rest k).1.rest
unfolding literal_loop
literal_loop-OnLine n o c zero rest k h = h
literal_loop-OnLine n o c (suc d) [] k h = h
literal_loop-OnLine n o c (suc d) (x ∷ xs) k h =
    literal_loop-OnLine n o c (next_depth o c d x) xs (pass x k) (pass-OnLine n x k xs h)

-- The loop of a string, and the closing quote that it stops at.
string_loop-OnLine :
    (n : ℕ) (escaped : Bool) (rest : Bytes) (k : Cursor)
    → OnLine n k rest
    → let s = string_loop escaped rest k in
      let closed = close_string s.rest s.cursor in OnLine n closed.cursor closed.rest
unfolding string_loop
string_loop-OnLine n escaped [] k h = ground arith
string_loop-OnLine n escaped (c ∷ cs) k h = elim (Bool-cases (not escaped && c == b'"')) [
  | inl e ↦ rw (e, string_loop) (plain-OnLine n c k cs (ground arith) h)
  | inr e ↦
      rw (e, string_loop)
        (string_loop-OnLine n (is_escape escaped c) cs
          (if is_escape escaped c then next_col k else pass c k)
          (ground (arith, pass-OnLine n c k cs h)))
]

-- A loop that stops at newlines passes none.
span-OnLine :
    (n : ℕ) (keep : ℕ → Bool)
    → keep b'\n' ≡ false
    → (rest : Bytes) (k : Cursor) → OnLine n k rest
    → OnLine n (span keep rest k).cursor (span keep rest k).rest
unfolding span
span-OnLine n keep s [] k h = h
span-OnLine n keep s (c ∷ cs) k h = elim (Bool-cases (keep c)) [
  | inl e ↦ rw (e, span) (span-OnLine n keep s cs (next_col k) (plain-OnLine n c k cs (kept c e) h))
  | inr e ↦ rw (e, span) h
]
  where
    kept : (c : ℕ) → keep c ≡ true → (c == b'\n') ≡ false
    kept c e = elim (Bool-cases (c == b'\n')) [
      | inl q ↦ absurd (clash ((==_iff c b'\n').0 q))
      | inr q ↦ q
    ]
      where
        clash : c ≡ b'\n' → ⊥
        clash q = cc (e, s, q)

abbrev Kept : ℕ → Lexed → Type 0
Kept n x = OnLine n x.cursor x.rest

module _ (n c : ℕ) (k : Cursor) (cs : Bytes) (space : Bool) (h : OnLine n k (c ∷ cs))
    (plain : (c == b'\n') ≡ false) where
  end_literal-OnLine :
      (r : ℕ × Scan) → OnLine n r.1.cursor r.1.rest → Kept n (end_literal c k space r)
  end_literal-OnLine (zero, s) q = q
  end_literal-OnLine (suc d, s) q = q

  parse_literal-OnLine : Kept n (parse_literal c cs k space)
  unfolding parse_literal
  parse_literal-OnLine = end_literal-OnLine _ (
      literal_loop-OnLine n c (if c == b'[' then b']' else b')') 1 cs (next_col k)
        (plain-OnLine n c k cs plain h))

  parse_string-OnLine : Kept n (parse_string cs k space)
  unfolding parse_string
  parse_string-OnLine = string_loop-OnLine n false cs (next_col k) (plain-OnLine n c k cs plain h)

  parse_quote_word-OnLine : Kept n (parse_quote_word cs k space)
  unfolding parse_quote_word is_quote_word is_space
  parse_quote_word-OnLine =
      span-OnLine n is_quote_word refl cs (next_col k) (plain-OnLine n c k cs plain h)

  parse_identifier-OnLine : Kept n (parse_identifier (c ∷ cs) k space)
  unfolding parse_identifier is_identifier is_alnum
  parse_identifier-OnLine = span-OnLine n is_identifier refl (c ∷ cs) k h

  parse_context_operator-OnLine : Kept n (parse_context_operator c cs k space)
  unfolding parse_context_operator
  parse_context_operator-OnLine = plain-OnLine n c k cs plain h

starts_equal-OnLine :
    (n : ℕ) (k : Cursor) (cs : Bytes)
    → starts_equal cs ≡ true
    → OnLine n k cs
    → OnLine n (next_col k) (tail_of cs)
starts_equal-OnLine n k [] e h = cc
starts_equal-OnLine n k (c ∷ cs) e h = plain-OnLine n c k cs (ground arith) h

parse_operator-OnLine :
    (n c : ℕ) (k : Cursor) (cs : Bytes) (space : Bool)
    → OnLine n k (c ∷ cs)
    → (c == b'\n') ≡ false
    → Kept n (parse_operator c cs k space)
unfolding parse_operator
parse_operator-OnLine n c k cs space h plain =
    if_cases (Kept n) (c == b'=' && starts_equal cs) _ _
      (λ e. starts_equal-OnLine n (next_col k) cs (ground arith) (plain-OnLine n c k cs plain h))
      λ e. plain-OnLine n c k cs plain h

abbrev StartsPlain : Bytes → Type 0
StartsPlain [] = Unit
StartsPlain (c ∷ cs) = (c == b'\n') ≡ false

skip_step-stops :
    (comment : Bool) (c : ℕ) (k : Cursor) → skip_step comment c k ≡ none → (c == b'\n') ≡ false
unfolding skip_step
skip_step-stops comment c k e = ground arith

skip_whitespace-StartsPlain :
    (any comment : Bool) (rest : Bytes) (k : Cursor)
    → StartsPlain (skip_whitespace any comment rest k).rest
unfolding skip_whitespace
skip_whitespace-StartsPlain any comment [] k = tt
skip_whitespace-StartsPlain any comment (c ∷ cs) k = elim (Option-cases (skip_step comment c k)) [
  | inl e ↦ rw (e, skip_whitespace) (skip_step-stops comment c k e)
  | inr ((comment', k'), e) ↦
      rw (e, skip_whitespace) (skip_whitespace-StartsPlain true comment' cs k')
]

scan_token-OnLine :
    (n : ℕ) (json space : Bool) (rest : Bytes) (k : Cursor)
    → StartsPlain rest
    → OnLine n k rest
    → Kept n (scan_token json space rest k)
unfolding scan_token
scan_token-OnLine n json space [] k p h = h
scan_token-OnLine n json space (c ∷ cs) k p h =
    if_cases (Kept n) (c == b'[' && not json) _ _ (λ _. parse_literal-OnLine n c k cs space h p)
      λ _.
        if_cases (Kept n) (c == b'"') _ _ (λ _. parse_string-OnLine n c k cs space h p)
          λ _.
            if_cases (Kept n) (c == 39) _ _ (λ _. parse_quote_word-OnLine n c k cs space h p)
              λ _.
                if_cases (Kept n) (is_context json c) _ _
                  (λ _. parse_context_operator-OnLine n c k cs space h p)
                  λ _.
                    if_cases (Kept n) (is_operator c) _ _
                      (λ _. parse_operator-OnLine n c k cs space h p)
                      λ _.
                        if_cases (Kept n) (is_identifier c) _ _
                          (λ _. parse_identifier-OnLine n c k cs space h p)
                          λ _. plain-OnLine n c k cs p h

-- What is left of the input at the first byte of the next token.
pub token_start : Tokenizer → Bytes
token_start t = (skip_whitespace false false t.rest t.cursor).rest

next_token-OnLine :
    (n : ℕ) (t : Tokenizer)
    → OnLine n t.cursor t.rest
    → OnLine n (next_token t).1.cursor (next_token t).1.rest
      × (((next_token t).0.line + newlines (token_start t)) % 2 ^ 32 ≡ n % 2 ^ 32)
unfolding next_token token_start
next_token-OnLine n t h =
    let s = skip_whitespace false false t.rest t.cursor in
    let p = skip_whitespace-OnLine n false false t.rest t.cursor h in
    (
      scan_token-OnLine n t.json_mode s.any s.rest s.cursor
          (skip_whitespace-StartsPlain false false t.rest t.cursor) p,
      p,
    )

-- The tokenizer after `i` calls of `nextToken`.
pub after : ℕ → Tokenizer → Tokenizer
after zero t = t
after (suc i) t = after i (next_token t).1

after-OnLine :
    (n i : ℕ) (t : Tokenizer)
    → OnLine n t.cursor t.rest
    → OnLine n (after i t).cursor (after i t).rest
unfolding after
after-OnLine n zero t h = h
after-OnLine n (suc i) t h = after-OnLine n i (next_token t).1 (next_token-OnLine n t h).0

new_tokenizer-OnLine :
    (input : Bytes)
    → OnLine (1 + newlines input) (new_tokenizer input).cursor (new_tokenizer input).rest
unfolding new_tokenizer
new_tokenizer-OnLine input = skip_whitespace-OnLine (1 + newlines input) false false input _ refl

-- Whatever the source and however many tokens have been read, the tokenizer's line counter, and the
-- line that the next token is stamped with, are one more than the newlines of the whole source less
-- those that follow the tokenizer's position, or the token's first byte; all as 32-bit numbers.
pub line-newlines :
    (input : Bytes) (i : ℕ)
    → let t = after i (new_tokenizer input) in
      ((t.cursor.line + newlines t.rest) % 2 ^ 32 ≡ (1 + newlines input) % 2 ^ 32)
      × (((next_token t).0.line + newlines (token_start t)) % 2 ^ 32
          ≡ (1 + newlines input) % 2 ^ 32)
line-newlines input i =
    let h = after-OnLine (1 + newlines input) i _ (new_tokenizer-OnLine input) in
    (h, (next_token-OnLine (1 + newlines input) _ h).1)
