-- ===== src/Edict/Compiler/Unknown.antt =====
-- A byte that starts no token.
use agentc.Edict.Tokenizer.{
  Cursor, is_space, skip_step, skip_whitespace, is_context, is_operator, is_identifier, scan_token,
  next_token, new_tokenizer, eof,
}
use agentc.Edict.Compiler.Monad.{ok, next, ◌>>=◌, gets, pure}
use agentc.Edict.Compiler.{term_loop, compile}
use agentc.Prelude.{ℕ, ◌≡◌, refl, Bool, true, false, not, ◌||◌, ◌==◌, none, [], ◌∷◌, Bytes, arith}

-- The byte is neither white space nor `#`, and `nextToken` has no case for it.
abbrev pub is_unknown : ℕ → Bool
is_unknown c = not (
    is_space c
    || c == b'#'
    || c == b'['
    || c == b'"'
    || c == 39
    || is_context false c
    || is_operator c
    || is_identifier c)

skip_step-unknown : (c : ℕ) (k : Cursor) → is_unknown c ≡ true → skip_step false c k ≡ none
unfolding skip_step
skip_step-unknown c k h = ground arith

scan_token-unknown :
    (c : ℕ) (cs : Bytes) (k : Cursor)
    → is_unknown c ≡ true
    → (scan_token false false (c ∷ cs) k).token.type ≡ eof
unfolding scan_token
scan_token-unknown c cs k h = ground arith

-- A source that starts with such a byte compiles to no code at all, whatever follows the byte: its
-- token has the type of the end of the input, which ends the loop of `compile`.
pub compile-unknown : (c : ℕ) (rest : Bytes) → is_unknown c ≡ true → compile (c ∷ rest) ≡ ok []
unfolding compile next next_token new_tokenizer skip_whitespace term_loop ◌>>=◌ gets pure
compile-unknown c rest h =
    rw (skip_step-unknown c _ h, skip_whitespace)
      (rw (skip_step-unknown c _ h, skip_whitespace) (rw (scan_token-unknown c rest _ h) refl))
