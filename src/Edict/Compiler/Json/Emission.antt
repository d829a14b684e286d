-- ===== src/Edict/Compiler/Json/Emission.antt =====
-- The methods for JSON forms (compileJSONObject, compileJSONArray, compileJSONValue) as actions that emit.
use agentc.Edict.Opcode.{assign, ctx_push, ctx_pop, list_add}
use agentc.Edict.Bytecode.{string, null}
use agentc.Edict.Tokenizer.{
  TokenType, literal, identifier, operator, context_open, context_close, function_open,
  function_close, quote, colon, comma, eof,
}
use agentc.Edict.Tokenizer as Tokenizer
use agentc.Edict.Tokenizer.Progress.{weight}
use agentc.Edict.Compiler.Monad.{Compiler, M, ◌>>=◌, pure, at_value}
use agentc.Edict.Compiler.Emission.{
  left, IsShort, IsSmall, Runs, Runs-bind, Runs-gets, Runs-if, Runs-pure, Runs-pure-bind, Runs-next,
  Runs-expect, Runs-emit_operation, Runs-emit_value, Runs-emit_list_start, Runs-use_json_mode,
  Runs-weaken, Runs-then-next, length-inner-le,
}
use agentc.Edict.Compiler.Terms.Emission.{
  Runs-compile_literal, Runs-compile_string, Runs-compile_quote,
}
use agentc.Edict.Compiler.Json.{
  is_eof, key_text, skip_if, json_member, json_key, object_loop, compile_json_object, array_loop,
  compile_json_array, json_value_at, compile_json_value,
}
use agentc.Prelude.{
  ℕ, zero, suc, ◌≤◌, ◌<◌, ◌≡◌, refl, Bool, true, false, not, ◌||◌, Option, none, some, Bytes, arith,
  if◌then◌else◌,
}

Runs-skip_if : (b : Bool) (c : Compiler) → IsShort c → Runs 0 (skip_if b) c
unfolding skip_if
Runs-skip_if true c h = Runs-weaken (Runs-next c h)
Runs-skip_if false c h = Runs-pure tt c h

-- The values inside are compiled by `value`, which takes the tokens that are left behind a bound.
abbrev Values : ℕ → M (Unit {0}) → Type 0
Values bound value =
    (c : Compiler) → IsShort c → left c < bound → Runs (weight c.current.type) value c

pub is_eof-weight : (t : TokenType) → is_eof t ≡ false → weight t ≡ 1
is_eof-weight eof h = cc
is_eof-weight _ h = refl

key_text-IsSmall :
    (t : TokenType) (v key : Bytes)
    → IsSmall v
    → key_text t v ≡ some key
    → (weight t ≡ 1) × IsSmall key
key_text-IsSmall Tokenizer.string v key h e = (refl, ground (arith, length-inner-le v))
key_text-IsSmall identifier v key h e = (refl, ground arith)
key_text-IsSmall _ v key h e = cc

module _ (bound : ℕ) (value : M (Unit {0})) (values : Values bound value) where
  Runs-json_member :
      (key : Bytes) (c : Compiler)
      → IsSmall key
      → IsShort c
      → left c < bound
      → Runs 0 (json_member value key) c
  unfolding json_member
  Runs-json_member key c w h f = Runs-gets _ _ c (
      Runs-if (not (at_value ":" c)) _ _ c (λ _. Runs-pure false c h)
        λ _. Runs-bind 0 0 (Runs-next c h) (omega arith) λ _ c₁ s₁.
          Runs-bind 0 0 (values c₁ s₁.short (omega (arith, s₁.moves))) (omega arith) λ _ c₂ s₂.
            Runs-bind 0 0 (Runs-emit_value c₂ s₂.short (string key) w) (omega arith) λ _ c₃ s₃.
              Runs-bind 0 0 (Runs-emit_operation c₃ s₃.short assign (λ e. cc)) (omega arith)
                λ _ c₄ s₄. Runs-gets _ _ c₄ (
                  Runs-bind 0 0 (Runs-skip_if (at_value "," c₄) c₄ s₄.short) (omega arith)
                    λ _ c₅ s₅. Runs-pure true c₅ s₅.short))

  Runs-json_key :
      (key : Option Bytes) (fuel : ℕ) (c : Compiler)
      → key_text c.current.type c.current.value ≡ key
      → IsShort c
      → left c < suc fuel
      → left c < bound
      → ((c' : Compiler)
          → IsShort c'
          → left c' < fuel
          → left c' < bound
          → Runs 0 (object_loop fuel value) c')
      → Runs 0 (json_key value key >>= λ more. if more then object_loop fuel value else pure tt) c
  Runs-json_key none fuel c e h f g loop = Runs-pure-bind false _ c (Runs-pure tt c h)
  Runs-json_key (some key) fuel c e h f g loop =
      let (w, small) = key_text-IsSmall c.current.type c.current.value key (omega arith) e in
      Runs-bind 0 0
        (Runs-bind 0 (weight c.current.type) (Runs-next c h) (omega arith)
          λ _ c₁ s₁. Runs-json_member key c₁ small s₁.short (omega (arith, s₁.moves)))
        (omega arith)
        λ more c₂ s₂.
          Runs-if more _ _ c₂
            (λ _. loop c₂ s₂.short (omega (arith, s₂.moves, w)) (omega (arith, s₂.moves)))
            λ _. Runs-pure tt c₂ s₂.short

  Runs-object_loop :
      (fuel : ℕ) (c : Compiler)
      → IsShort c
      → left c < fuel
      → left c < bound
      → Runs 0 (object_loop fuel value) c
  unfolding object_loop
  Runs-object_loop zero c h f g = absurd (omega arith)
  Runs-object_loop (suc fuel) c h f g = Runs-gets _ _ c (
      Runs-gets _ _ c (
        Runs-if (is_eof c.current.type || at_value "}" c) _ _ c (λ _. Runs-pure tt c h)
          λ _. Runs-json_key _ fuel c refl h f g (Runs-object_loop fuel)))

  Runs-array_loop :
      (fuel : ℕ) (c : Compiler)
      → IsShort c
      → left c < fuel
      → left c < bound
      → Runs 0 (array_loop fuel value) c
  unfolding array_loop
  Runs-array_loop zero c h f g = absurd (omega arith)
  Runs-array_loop (suc fuel) c h f g = Runs-gets _ _ c (
      Runs-if (is_eof c.current.type || at_value "]" c) _ _ c (λ _. Runs-pure tt c h)
        λ e.
          let w = is_eof-weight c.current.type (ground arith) in
          Runs-bind 0 0 (values c h g) (omega arith) λ _ c₁ s₁.
            Runs-bind 0 0 (Runs-emit_operation c₁ s₁.short list_add (λ e. cc)) (omega arith)
              λ _ c₂ s₂. Runs-gets _ _ c₂ (
                Runs-bind 0 0 (Runs-skip_if (at_value "," c₂) c₂ s₂.short) (omega arith) λ _ c₃ s₃.
                  Runs-array_loop fuel c₃ s₃.short (omega (arith, s₁.moves, s₂.moves, s₃.moves, w))
                    (omega (arith, s₁.moves, s₂.moves, s₃.moves))))

  pub Runs-compile_json_object :
      (fuel : ℕ) (c : Compiler)
      → IsShort c
      → left c ≤ fuel
      → left c ≤ bound
      → weight c.current.type ≡ 1
      → Runs (weight c.current.type) (compile_json_object fuel value) c
  unfolding compile_json_object
  Runs-compile_json_object fuel c h f g w =
      Runs-bind 0 _ (Runs-then-next c (Runs-use_json_mode c h true)) (omega arith) λ _ c₁ s₁.
        Runs-bind 0 0 (Runs-emit_value c₁ s₁.short null tt) (omega arith) λ _ c₂ s₂.
          Runs-bind 0 0 (Runs-emit_operation c₂ s₂.short ctx_push (λ e. cc)) (omega arith)
            λ _ c₃ s₃.
              Runs-bind 0 0
                (Runs-object_loop fuel c₃ s₃.short (omega (arith, s₁.moves, s₂.moves, s₃.moves))
                  (omega (arith, s₁.moves, s₂.moves, s₃.moves)))
                (omega arith)
                λ _ c₄ s₄. Runs-bind 0 0 (Runs-expect "}" c₄ s₄.short) (omega arith) λ _ c₅ s₅.
                  Runs-bind 0 0 (Runs-emit_operation c₅ s₅.short ctx_pop (λ e. cc)) (omega arith)
                    λ _ c₆ s₆. Runs-use_json_mode c₆ s₆.short false

  pub Runs-compile_json_array :
      (fuel : ℕ) (c : Compiler)
      → IsShort c
      → left c ≤ fuel
      → left c ≤ bound
      → weight c.current.type ≡ 1
      → Runs (weight c.current.type) (compile_json_array fuel value) c
  unfolding compile_json_array
  Runs-compile_json_array fuel c h f g w = Runs-bind 0 _ (Runs-next c h) (omega arith) λ _ c₁ s₁.
      Runs-bind 0 0 (Runs-emit_list_start c₁ s₁.short) (omega arith) λ _ c₂ s₂.
        Runs-bind 0 0
          (Runs-array_loop fuel c₂ s₂.short (omega (arith, s₁.moves, s₂.moves))
            (omega (arith, s₁.moves, s₂.moves)))
          (omega arith) λ _ c₃ s₃. Runs-expect "]" c₃ s₃.short

-- Values inside a value have fewer tokens left: the fuel falls with them.
Runs-json_value_at :
    (t : TokenType) (fuel : ℕ) (value : M (Unit {0})) (c : Compiler)
    → c.current.type ≡ t
    → IsShort c
    → left c ≤ fuel
    → Values fuel value
    → Runs (weight c.current.type) (json_value_at t fuel value) c
unfolding json_value_at
Runs-json_value_at context_open fuel value c e h f values =
    let w : weight c.current.type ≡ 1 = rw e in
    Runs-gets _ _ c (
      Runs-gets _ _ c (
        Runs-if (at_value "{" c) _ _ c
          (λ _. Runs-compile_json_object fuel value values fuel c h f f w)
          λ _.
            Runs-if (at_value "[" c) _ _ c
              (λ _. Runs-compile_json_array fuel value values fuel c h f f w) λ _. Runs-next c h))
Runs-json_value_at Tokenizer.string fuel value c e h f values = Runs-compile_string c h
Runs-json_value_at identifier fuel value c e h f values = Runs-compile_quote c h
Runs-json_value_at literal fuel value c e h f values = Runs-compile_literal c h
Runs-json_value_at _ fuel value c e h f values = Runs-next c h

pub Runs-compile_json_value : (fuel : ℕ) → Values fuel (compile_json_value fuel)
unfolding compile_json_value
Runs-compile_json_value zero c h f = absurd (omega arith)
Runs-compile_json_value (suc fuel) c h f =
    Runs-gets _ _ c (
      Runs-json_value_at c.current.type fuel _ c refl h (omega arith)
        (Runs-compile_json_value fuel))
