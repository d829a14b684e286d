-- ===== src/Edict/Compiler/Json.antt =====
-- compileJSONObject, compileJSONArray and compileJSONValue. The fuel of `compile_json_value` bounds
-- the nesting, and that of the loops the members or elements.
pub mod Emission
use agentc.Edict.Opcode.{assign, ctx_push, ctx_pop, list_add}
use agentc.Edict.Bytecode.{string, null}
use agentc.Edict.Tokenizer.{TokenType, literal, identifier, context_open, eof}
use agentc.Edict.Tokenizer as Tokenizer
use agentc.Edict.Compiler.Monad.{
  M, Compiler, pure, ◌>>=◌, ◌>>◌, gets, out_of_steps, next, at_value, expect, emit_operation,
  emit_value, emit_list_start, use_json_mode, inner,
}
use agentc.Edict.Compiler.Terms.{compile_literal, compile_string, compile_quote}
use agentc.Prelude.{
  ℕ, zero, suc, Bool, true, false, not, ◌&&◌, ◌||◌, Bytes, Option, none, some, if◌then◌else◌,
}

abbrev pub is_eof : TokenType → Bool
is_eof eof = true
is_eof _ = false

-- A key is a string or a name; any other token ends the object's loop.
abbrev key_text : TokenType → Bytes → Option Bytes
key_text Tokenizer.string v = some (inner v)
key_text identifier v = some v
key_text _ v = none

unfoldable pub skip_if : Bool → M (Unit {0})
skip_if true = next
skip_if false = pure tt

-- `: value ,` behind a key; the result says whether the loop goes on.
unfoldable pub json_member : M (Unit {0}) → Bytes → M Bool
json_member value key = do
  colon ← gets (at_value ":")
  if not colon then pure false else do
    next
    value
    emit_value (string key)
    emit_operation assign
    comma ← gets (at_value ",")
    skip_if comma
    pure true

abbrev json_key : M (Unit {0}) → Option Bytes → M Bool
json_key value none = pure false
json_key value (some key) = do next; json_member value key

unfoldable pub object_loop : ℕ → M (Unit {0}) → M (Unit {0})
object_loop zero value = out_of_steps
object_loop (suc fuel) value = do
  done ← gets (λ c. is_eof c.current.type || at_value "}" c)
  key ← gets (λ c. key_text c.current.type c.current.value)
  if done
      then pure tt
      else do more ← json_key value key; if more then object_loop fuel value else pure tt

unfoldable pub compile_json_object : ℕ → M (Unit {0}) → M (Unit {0})
compile_json_object fuel value = do
  use_json_mode true >> next
  emit_value null
  emit_operation ctx_push
  object_loop fuel value
  expect "}"
  emit_operation ctx_pop
  use_json_mode false

unfoldable pub array_loop : ℕ → M (Unit {0}) → M (Unit {0})
array_loop zero value = out_of_steps
array_loop (suc fuel) value = do
  done ← gets (λ c. is_eof c.current.type || at_value "]" c)
  if done then pure tt else do
    value
    emit_operation list_add
    comma ← gets (at_value ",")
    skip_if comma
    array_loop fuel value

unfoldable pub compile_json_array : ℕ → M (Unit {0}) → M (Unit {0})
compile_json_array fuel value = do next; emit_list_start; array_loop fuel value; expect "]"

-- The branches for the type of the current token; `value` compiles the values inside.
unfoldable pub json_value_at : TokenType → ℕ → M (Unit {0}) → M (Unit {0})
json_value_at context_open fuel value = do
  brace ← gets (at_value "{")
  bracket ← gets (at_value "[")
  if brace
      then compile_json_object fuel value
      else if bracket
      then compile_json_array fuel value
      else next
json_value_at Tokenizer.string fuel value = compile_string
json_value_at identifier fuel value = compile_quote
json_value_at literal fuel value = compile_literal
json_value_at _ fuel value = next

unfoldable pub compile_json_value : ℕ → M (Unit {0})
compile_json_value zero = out_of_steps
compile_json_value (suc fuel) = do
  type ← gets (λ c. c.current.type)
  json_value_at type fuel (compile_json_value fuel)
