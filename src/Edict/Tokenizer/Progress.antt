-- ===== src/Edict/Tokenizer/Progress.antt =====
-- How much of the input a token takes.
use agentc.Edict.Tokenizer.{
  TokenType, eof, Tokenizer, Cursor, Lexed, Scan, skip_step, skip_whitespace, literal_loop,
  string_loop, span, is_quote_word, is_identifier, close_string, parse_literal, parse_string,
  parse_quote_word, parse_identifier, parse_operator, parse_context_operator, scan_token,
  next_token, new_tokenizer, pass, next_col, end_literal, is_context, is_operator, next_depth,
  is_escape,
}
use agentc.Prelude.{
  ℕ, zero, suc, ◌+◌, ◌≤◌, ◌≡◌, Bool, true, false, not, ◌&&◌, ◌==◌, [], ◌∷◌, Bytes, length,
  length-append, arith, if◌then◌else◌, Bool-cases, Option-cases, if_cases, inl, inr,
}

-- 1 for a token, 0 for the end of the input.
abbrev pub weight : TokenType → ℕ
weight eof = 0
weight _ = 1

skip_whitespace-le :
    (any comment : Bool) (rest : Bytes) (k : Cursor)
    → length (skip_whitespace any comment rest k).rest ≤ length rest
unfolding skip_whitespace
skip_whitespace-le any comment [] k = omega arith
skip_whitespace-le any comment (c ∷ cs) k = elim (Option-cases (skip_step comment c k)) [
  | inl e ↦ rw (e, skip_whitespace) (omega arith)
  | inr ((comment', k'), e) ↦
      rw (e, skip_whitespace) (omega (arith, skip_whitespace-le true comment' cs k'))
]

abbrev Splits : Bytes → Scan → Type 0
Splits rest s = length s.taken + length s.rest ≡ length rest

literal_loop-Splits :
    (o c d : ℕ) (rest : Bytes) (k : Cursor) → Splits rest (literal_loop o c d rest k).1
unfolding literal_loop
literal_loop-Splits o c zero rest k = omega arith
literal_loop-Splits o c (suc d) [] k = omega arith
literal_loop-Splits o c (suc d) (x ∷ xs) k =
    omega (arith, literal_loop-Splits o c (next_depth o c d x) xs (pass x k))

string_loop-Splits :
    (escaped : Bool) (rest : Bytes) (k : Cursor) → Splits rest (string_loop escaped rest k)
unfolding string_loop
string_loop-Splits escaped [] k = omega arith
string_loop-Splits escaped (c ∷ cs) k = elim (Bool-cases (not escaped && c == b'"')) [
  | inl e ↦ rw (e, string_loop) (omega arith)
  | inr e ↦
      rw (e, string_loop)
        (omega (
          arith,
          string_loop-Splits (is_escape escaped c) cs
              (if is_escape escaped c then next_col k else pass c k),
        ))
]

span-Splits : (keep : ℕ → Bool) (rest : Bytes) (k : Cursor) → Splits rest (span keep rest k)
unfolding span
span-Splits keep [] k = omega arith
span-Splits keep (c ∷ cs) k = elim (Bool-cases (keep c)) [
  | inl e ↦ rw (e, span) (omega (arith, span-Splits keep cs (next_col k)))
  | inr e ↦ rw (e, span) (omega arith)
]

-- A token's text and what is left fit in what there was, and a token takes at least one byte.
pub record Consumes (rest : Bytes) (x : Lexed) : Type 0 where
  pub fits : length x.token.value + length x.rest ≤ length rest
  pub moves : length x.rest + weight x.token.type ≤ length rest

end_literal-Consumes :
    (o : ℕ) (cs : Bytes) (k : Cursor) (space : Bool) (r : ℕ × Scan)
    → Splits cs r.1
    → Consumes (o ∷ cs) (end_literal o k space r)
end_literal-Consumes o cs k space (zero, s) h = record { fits = omega arith; moves = omega arith }
end_literal-Consumes o cs k space (suc d, s) h = record { fits = omega arith; moves = omega arith }

close_string-Splits : (rest : Bytes) (k : Cursor) → Splits rest (close_string rest k)
close_string-Splits [] k = omega arith
close_string-Splits (c ∷ cs) k = omega arith

parse_string-Consumes :
    (c : ℕ) (cs : Bytes) (k : Cursor) (space : Bool) → Consumes (c ∷ cs) (parse_string cs k space)
unfolding parse_string
parse_string-Consumes c cs k space =
    let s = string_loop false cs (next_col k) in
    let a = string_loop-Splits false cs (next_col k) in
    let b = close_string-Splits s.rest s.cursor in
    record {
      fits = omega (arith, a, b, length-append s.taken (close_string s.rest s.cursor).taken);
      moves = omega (arith, a, b);
    }

parse_identifier-Consumes :
    (c : ℕ) (cs : Bytes) (k : Cursor) (space : Bool)
    → is_identifier c ≡ true
    → Consumes (c ∷ cs) (parse_identifier (c ∷ cs) k space)
unfolding parse_identifier span
parse_identifier-Consumes c cs k space e =
    rw (e, span)
      (record {
        fits = omega (arith, span-Splits is_identifier cs (next_col k));
        moves = omega (arith, span-Splits is_identifier cs (next_col k));
      })

parse_operator-Consumes :
    (c : ℕ) (cs : Bytes) (k : Cursor) (space : Bool)
    → Consumes (c ∷ cs) (parse_operator c cs k space)
unfolding parse_operator
parse_operator-Consumes c [] k space = ground arith
parse_operator-Consumes c (d ∷ cs) k space = ground arith

parse_context_operator-Consumes :
    (c : ℕ) (cs : Bytes) (k : Cursor) (space : Bool)
    → Consumes (c ∷ cs) (parse_context_operator c cs k space)
unfolding parse_context_operator
parse_context_operator-Consumes c cs k space = ground arith

parse_quote_word-Consumes :
    (c : ℕ) (cs : Bytes) (k : Cursor) (space : Bool)
    → Consumes (c ∷ cs) (parse_quote_word cs k space)
unfolding parse_quote_word
parse_quote_word-Consumes c cs k space = record {
  fits = omega (arith, span-Splits is_quote_word cs (next_col k));
  moves = omega (arith, span-Splits is_quote_word cs (next_col k));
}

parse_literal-Consumes :
    (c : ℕ) (cs : Bytes) (k : Cursor) (space : Bool)
    → Consumes (c ∷ cs) (parse_literal c cs k space)
unfolding parse_literal
parse_literal-Consumes c cs k space =
    end_literal-Consumes c cs k space _ (literal_loop-Splits c _ 1 cs (next_col k))

scan_token-Consumes :
    (json space : Bool) (rest : Bytes) (k : Cursor) → Consumes rest (scan_token json space rest k)
unfolding scan_token
scan_token-Consumes json space [] k = record { fits = omega arith; moves = omega arith }
scan_token-Consumes json space (c ∷ cs) k =
    if_cases P (c == b'[' && not json) _ _ (λ _. parse_literal-Consumes c cs k space)
      λ _.
        if_cases P (c == b'"') _ _ (λ _. parse_string-Consumes c cs k space)
          λ _.
            if_cases P (c == 39) _ _ (λ _. parse_quote_word-Consumes c cs k space)
              λ _.
                if_cases P (is_context json c) _ _
                  (λ _. parse_context_operator-Consumes c cs k space)
                  λ _.
                    if_cases P (is_operator c) _ _ (λ _. parse_operator-Consumes c cs k space)
                      λ _.
                        if_cases P (is_identifier c) _ _ (parse_identifier-Consumes c cs k space)
                          λ _. record { fits = omega arith; moves = omega arith }
  where
    P : Lexed → Type 0
    P = Consumes (c ∷ cs)

-- `nextToken` never reads past what is left: the token's text and the rest fit in it, and every token
-- but the end of the input takes at least one byte.
pub next_token-Consumes :
    (t : Tokenizer)
    → (length (next_token t).0.value + length (next_token t).1.rest ≤ length t.rest)
      × (length (next_token t).1.rest + weight (next_token t).0.type ≤ length t.rest)
unfolding next_token
next_token-Consumes t =
    let s = skip_whitespace false false t.rest t.cursor in
    let le = skip_whitespace-le false false t.rest t.cursor in
    let x = scan_token-Consumes t.json_mode s.any s.rest s.cursor in
    (omega (arith, le, x.fits), omega (arith, le, x.moves))

pub new_tokenizer-le : (input : Bytes) → length (new_tokenizer input).rest ≤ length input
unfolding new_tokenizer
new_tokenizer-le input = skip_whitespace-le false false input _
