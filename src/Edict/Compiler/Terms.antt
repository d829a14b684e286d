-- ===== src/Edict/Compiler/Terms.antt =====
-- compileLiteral, compileIdentifier, compileSpeculateBlock, compileOperator, compileContextOperator,
-- and the branches of compileTerm that are not about JSON.
pub mod Emission
use agentc.Edict.Opcode.{
  VmOpcode, dup, swap, print, fail, test, unsafe_extensions_allow, unsafe_extensions_block,
  unsafe_extensions_status, ref, speculate, assign, eval, remove, remove_head, catch, pop, splice,
  ctx_push, ctx_pop, fun_push, fun_eval,
}
use agentc.Edict.Opcode as Opcode
use agentc.Edict.Bytecode.{string}
use agentc.Edict.Tokenizer.{TokenType, literal, identifier, operator}
use agentc.Edict.Compiler.Monad.{
  M, Compiler, pure, ◌>>=◌, ◌>>◌, gets, throw, out_of_steps, next, at_value, emit_operation,
  emit_value, emit_literal, inner, unknown_operator, unfinished_sigil_chain,
}
use agentc.Prelude.{
  ℕ, zero, suc, Bool, true, false, not, ◌&&◌, ◌||◌, ◌==◌, String, List, [], ◌∷◌, ◌++◌, Option, none,
  some, Bytes, codes, bytes_eq, if◌then◌else◌,
}

-- `==` with a literal
abbrev is_text : String → Bytes → Bool
is_text s v = bytes_eq v (codes s)

unfoldable pub compile_literal : M (Unit {0})
compile_literal = do value ← gets (λ c. c.current.value); emit_literal (inner value); next

unfoldable pub compile_speculate_block : M (Unit {0})
compile_speculate_block = do
  value ← gets (λ c. c.current.value)
  emit_literal (inner value)
  emit_operation speculate
  next

-- the keywords of `compileIdentifier`
unfoldable pub keyword : Bytes → Option VmOpcode
keyword v =
    if is_text "dup" v
    then some dup
    else if is_text "swap" v
    then some swap
    else if is_text "print" v
    then some print
    else if is_text "fail" v
    then some fail
    else if is_text "test" v
    then some test
    else if is_text "unsafe_extensions_allow" v
    then some unsafe_extensions_allow
    else if is_text "unsafe_extensions_block" v
    then some unsafe_extensions_block
    else if is_text "unsafe_extensions_status" v
    then some unsafe_extensions_status
    else none

abbrev pub is_literal : TokenType → Bool
is_literal literal = true
is_literal _ = false

abbrev pub is_identifier : TokenType → Bool
is_identifier identifier = true
is_identifier _ = false

abbrev pub is_operator : TokenType → Bool
is_operator operator = true
is_operator _ = false

-- A name that is no keyword is pushed and looked up.
abbrev emit_name : Bytes → Option VmOpcode → M (Unit {0})
emit_name v (some o) = emit_operation o
emit_name v none = do emit_value (string v); emit_operation ref

unfoldable pub compile_identifier : M (Unit {0})
unfolding compile_speculate_block
compile_identifier = do
  value ← gets (λ c. c.current.value)
  next
  block ← gets (λ c. is_text "speculate" value && is_literal c.current.type)
  if block then compile_speculate_block else emit_name value (keyword value)

-- operatorMap, as the constructor of EdictCompiler fills it
unfoldable pub operator_map : Bytes → Option VmOpcode
operator_map v =
    if is_text "@" v
    then some assign
    else if is_text "!" v
    then some eval
    else if is_text "/" v
    then some remove
    else if is_text "&" v
    then some Opcode.throw
    else if is_text "|" v
    then some catch
    else none

abbrev emit_mapped : Bytes → Option VmOpcode → M (Unit {0})
emit_mapped v (some o) = emit_operation o
emit_mapped v none = throw (unknown_operator v)

unfoldable pub compile_operator : Bytes → M (Unit {0})
compile_operator v =
    if is_text "@" v
    then (do emit_operation swap; emit_operation assign)
    else emit_mapped v (operator_map v)

abbrev first_byte : Bytes → ℕ
first_byte [] = 0
first_byte (c ∷ cs) = c

unfoldable pub compile_context_operator : ℕ → M (Unit {0})
compile_context_operator c =
    if c == b'{' || c == b'<' then emit_operation ctx_push else emit_operation ctx_pop

unfoldable pub is_prefix_sigil : Bytes → Bool
is_prefix_sigil v = is_text "@" v || is_text "/" v || is_text "^" v

abbrev more_sigils : Compiler → Bool
more_sigils c =
    is_operator c.current.type && is_prefix_sigil c.current.value && not c.current.had_space_before

-- The loop that collects a chain of prefix sigils behind the first one.
unfoldable pub sigil_loop : ℕ → List Bytes → M (List Bytes)
sigil_loop zero sigils = out_of_steps
sigil_loop (suc fuel) sigils = do
  more ← gets more_sigils
  value ← gets (λ c. c.current.value)
  if more then (do next; sigil_loop fuel (sigils ++ value ∷ [])) else pure sigils

-- The operation that one sigil of a chain emits behind the name; `last` says that none follows it.
unfoldable pub emit_sigil_operation : Bytes → Bool → M (Unit {0})
emit_sigil_operation sigil last =
    if is_text "^" sigil
    then pure tt
    else if is_text "@" sigil
    then emit_operation assign
    else if is_text "/" sigil
    then emit_operation (if last then remove else remove_head)
    else pure tt

unfoldable pub emit_sigil : Bytes → Bytes → Bool → M (Unit {0})
emit_sigil name sigil last = do emit_value (string name); emit_sigil_operation sigil last

abbrev is_empty : List Bytes → Bool
is_empty [] = true
is_empty (x ∷ xs) = false

unfoldable pub emit_sigils : Bytes → List Bytes → M (Unit {0})
emit_sigils name [] = pure tt
emit_sigils name (sigil ∷ sigils) = do
  emit_sigil name sigil (is_empty sigils)
  emit_sigils name sigils

-- A chain with no name behind it: bare `/` pops, bare `^` splices, bare `@` assigns.
unfoldable pub compile_bare : Bytes → List Bytes → M (Unit {0})
compile_bare v (sigil ∷ []) =
    if is_text "/" v
    then emit_operation pop
    else if is_text "^" v
    then emit_operation splice
    else compile_operator v
compile_bare v _ = throw unfinished_sigil_chain

unfoldable pub compile_sigils : ℕ → Bytes → M (Unit {0})
compile_sigils fuel v = do
  sigils ← sigil_loop fuel (v ∷ [])
  named ← gets (λ c. is_identifier c.current.type && not c.current.had_space_before)
  name ← gets (λ c. c.current.value)
  if named then (do next; emit_sigils name sigils) else compile_bare v sigils

-- the branch of compileTerm for an operator
unfoldable pub compile_operator_term : ℕ → M (Unit {0})
compile_operator_term fuel = do
  v ← gets (λ c. c.current.value)
  next
  if is_prefix_sigil v then compile_sigils fuel v else compile_operator v

-- the branches for a string, a quoted word, and the brackets other than `{`
unfoldable pub compile_string : M (Unit {0})
compile_string = do value ← gets (λ c. c.current.value); emit_value (string (inner value)); next

unfoldable pub compile_quote : M (Unit {0})
compile_quote = do value ← gets (λ c. c.current.value); emit_value (string value); next

unfoldable pub compile_open : M (Unit {0})
compile_open = do
  value ← gets (λ c. c.current.value)
  if is_text "(" value || is_text "[" value
      then emit_operation fun_push
      else compile_context_operator (first_byte value)
  next

unfoldable pub compile_close : M (Unit {0})
compile_close = do
  value ← gets (λ c. c.current.value)
  if is_text ")" value || is_text "]" value
      then emit_operation fun_eval
      else compile_context_operator (first_byte value)
  next
