-- ===== src/Edict/Compiler.antt =====
-- EdictCompiler (edict/edict_compiler.h, edict/edict_compiler.cpp): one pass from tokens to bytecode.
-- A method is an action on the compiler's fields that may throw; what a method throws ends `compile`.
-- Loops over tokens take fuel. The trace output under EDICT_TRACE is left out.
pub mod Monad
pub mod Terms
pub mod Json
pub mod Emission
pub mod Correct
pub mod Unknown
use Monad.{
  Result, ok, thrown, out_of_fuel, Compiler, M, pure, ◌>>=◌, ◌>>◌, out_of_steps, gets, next,
  at_value,
}
use Terms.{
  compile_literal, compile_string, compile_quote, compile_identifier, compile_operator_term,
  compile_open, compile_close,
}
use Json.{is_eof, compile_json_object, compile_json_value}
use agentc.Edict.Tokenizer.{
  TokenType, literal, quote, identifier, operator, context_open, context_close, eof, new_tokenizer,
  Token,
}
use agentc.Edict.Tokenizer as Tokenizer
use agentc.Prelude.{ℕ, zero, suc, ◌+◌, Bool, true, false, [], Bytes, length, if◌then◌else◌}

-- The branches of compileTerm for the type of the current token.
unfoldable pub term_at : TokenType → ℕ → M (Unit {0})
term_at literal fuel = compile_literal
term_at Tokenizer.string fuel = compile_string
term_at quote fuel = compile_quote
term_at identifier fuel = compile_identifier
term_at operator fuel = compile_operator_term fuel
term_at context_open fuel = do
  brace ← gets (at_value "{")
  if brace then compile_json_object fuel (compile_json_value fuel) else compile_open
term_at context_close fuel = compile_close
term_at _ fuel = next

unfoldable pub compile_term : ℕ → M (Unit {0})
compile_term fuel = do type ← gets (λ c. c.current.type); term_at type fuel

-- the loop of `compile`
unfoldable pub term_loop : ℕ → ℕ → M (Unit {0})
term_loop zero fuel = out_of_steps
term_loop (suc rounds) fuel = do
  done ← gets (λ c. is_eof c.current.type)
  if done then pure tt else (do compile_term fuel; term_loop rounds fuel)

-- `currentToken` is first set by the first `nextToken`.
abbrev no_token : Token
no_token = record {
  type = eof;
  value = [];
  position = 0;
  had_space_before = false;
  line = 1;
  col = 1;
}

abbrev pub start : Bytes → Compiler
start source = record { tokenizer = new_tokenizer source; output = []; current = no_token }

abbrev output_of : Result (Unit {0} × Compiler) → Result Bytes
output_of (ok (_, c)) = ok c.output
output_of (thrown e) = thrown e
output_of out_of_fuel = out_of_fuel

-- `compile`, with fuel for one more than the bytes of the source
unfoldable pub compile : Bytes → Result Bytes
compile source =
    let fuel = suc (suc (length source)) in
    output_of ((do next; term_loop fuel fuel) (start source))
