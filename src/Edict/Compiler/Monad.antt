-- ===== src/Edict/Compiler/Monad.antt =====
-- The state of a compilation, the actions on it, and the methods that handle tokens and emit code.
use agentc.Edict.Opcode.{VmOpcode, pushext}
use agentc.Edict.Bytecode.{Value, string, add_op, add_value, ext_list}
use agentc.Edict.Tokenizer.{Token, Tokenizer, next_token, set_json_mode}
use agentc.Prelude.{
  ℕ, Bool, String, [], ◌∷◌, ◌++◌, Bytes, codes, bytes_eq, if◌then◌else◌, take, drop, length, ◌-◌,
}

-- What the methods throw: `expect` on another token, an operator that is not in the map, and a chain
-- of prefix sigils with no name behind it.
pub data CompileError : Type 0 where
  unexpected_token : ℕ → ℕ → Bytes → CompileError
  unknown_operator : Bytes → CompileError
  unfinished_sigil_chain : CompileError

pub data Result {ℓ} (A : Type ℓ) : Type ℓ where
  ok : A → Result A
  thrown : CompileError → Result A
  out_of_fuel : Result A

pub record Compiler : Type 0 where
  pub tokenizer : Tokenizer
  pub output : Bytes
  pub current : Token

abbrev pub M : Type 0 → Type 0
M A = Compiler → Result (A × Compiler)

module _ {A B : Type 0} where
  abbrev pub continue : Result (A × Compiler) → (A → M B) → Result (B × Compiler)
  continue (ok (a, c)) f = f a c
  continue (thrown e) f = thrown e
  continue out_of_fuel f = out_of_fuel

  infixl 5 ◌>>=◌ ◌>>◌
  unfoldable pub ◌>>=◌ : M A → (A → M B) → M B
  ◌>>=◌ m f c = continue (m c) f

  abbrev pub ◌>>◌ : M A → M B → M B
  m >> n = m >>= λ _. n

unfoldable pub pure : {A : Type 0} → A → M A
pure a c = ok (a, c)

unfoldable pub throw : {A : Type 0} → CompileError → M A
throw e c = thrown e

unfoldable pub out_of_steps : {A : Type 0} → M A
out_of_steps c = out_of_fuel

unfoldable pub gets : {A : Type 0} → (Compiler → A) → M A
gets f c = ok (f c, c)

-- nextToken
unfoldable pub next : M (Unit {0})
next c = let (tok, t) = next_token c.tokenizer in ok (tt, record c { tokenizer = t; current = tok })

-- match
abbrev pub at_value : String → Compiler → Bool
at_value s c = bytes_eq c.current.value (codes s)

-- expect
unfoldable pub expect : String → M (Unit {0})
expect s c =
    if at_value s c
    then next c
    else thrown (unexpected_token c.current.line c.current.col c.current.value)

abbrev write : (Bytes → Bytes) → M (Unit {0})
write f c = ok (tt, record c { output = f c.output })

unfoldable pub emit_operation : VmOpcode → M (Unit {0})
emit_operation o = write (add_op o)

unfoldable pub emit_value : Value → M (Unit {0})
emit_value v = write (λ d. add_value v (add_op pushext d))

unfoldable pub emit_literal : Bytes → M (Unit {0})
emit_literal s = write (λ d. add_value (string s) (add_op pushext d))

-- emitList and emitListStart, which are the same
unfoldable pub emit_list_start : M (Unit {0})
emit_list_start = write (λ d. add_op pushext d ++ ext_list ∷ [])

unfoldable pub use_json_mode : Bool → M (Unit {0})
use_json_mode mode c = ok (tt, record c { tokenizer = set_json_mode mode c.tokenizer })

-- value.substr(1, value.length() - 2): the text between delimiters. Of a value of one byte, where
-- the length wraps round, it is empty too.
unfoldable pub inner : Bytes → Bytes
inner s = take (length s - 2) (drop 1 s)
