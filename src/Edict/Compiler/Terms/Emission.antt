-- ===== src/Edict/Compiler/Terms/Emission.antt =====
-- The methods for the other terms as actions that emit.
use agentc.Edict.Opcode.{
  VmOpcode, pushext, assign, remove, remove_head, speculate, ref, swap, ctx_push, ctx_pop, fun_push,
  fun_eval, pop, splice,
}
use agentc.Edict.Bytecode.{string}
use agentc.Edict.Tokenizer.{TokenType, operator}
use agentc.Edict.Tokenizer.Progress.{weight}
use agentc.Edict.Compiler.Monad.{Compiler, inner, unknown_operator, unfinished_sigil_chain}
use agentc.Edict.Compiler.Emission.{
  left, IsShort, IsSmall, Runs, Runs-bind, Runs-gets, Runs-if, Runs-pure, Runs-throw, Runs-next,
  Runs-emit_operation, Runs-emit_value, Runs-emit_literal, Runs-weaken, Runs-then-next,
  length-inner-le,
}
use agentc.Edict.Compiler.Terms.{
  compile_literal, compile_speculate_block, keyword, compile_identifier, emit_name, operator_map,
  emit_mapped, compile_operator, compile_context_operator, more_sigils, sigil_loop, emit_sigil,
  emit_sigil_operation, emit_sigils, compile_bare, compile_sigils, compile_operator_term,
  compile_string, compile_quote, compile_open, compile_close, is_operator, is_text, first_byte,
  is_empty,
}
use agentc.Prelude.{
  ℕ, zero, suc, ◌<◌, ◌≡◌, ◌≢◌, refl, ap, Bool, true, ◌||◌, ◌==◌, List, [], ◌∷◌, Option, none, some,
  Bytes, arith, if◌then◌else◌,
}

module _ (c : Compiler) (h : IsShort c) where
  pub Runs-compile_string : Runs (weight c.current.type) compile_string c
  unfolding compile_string
  Runs-compile_string = Runs-gets _ _ c (
      Runs-then-next c (
        Runs-emit_value c h (string (inner c.current.value))
          (omega (arith, length-inner-le c.current.value))))

  pub Runs-compile_quote : Runs (weight c.current.type) compile_quote c
  unfolding compile_quote
  Runs-compile_quote =
      Runs-gets _ _ c
        (Runs-then-next c (Runs-emit_value c h (string c.current.value) (omega arith)))

  pub Runs-compile_literal : Runs (weight c.current.type) compile_literal c
  unfolding compile_literal
  Runs-compile_literal = Runs-gets _ _ c (
      Runs-then-next c (
        Runs-emit_literal c h (inner c.current.value)
          (omega (arith, length-inner-le c.current.value))))

  Runs-compile_speculate_block : Runs 0 compile_speculate_block c
  unfolding compile_speculate_block
  Runs-compile_speculate_block = Runs-gets _ _ c (
      Runs-bind 0 0
        (Runs-emit_literal c h (inner c.current.value)
          (omega (arith, length-inner-le c.current.value)))
        (omega arith)
        λ _ c' s.
          Runs-weaken (Runs-then-next c' (Runs-emit_operation c' s.short speculate (λ e. cc))))

  Runs-emit_name :
      (v : Bytes) → IsSmall v → (o : Option VmOpcode) → o ≢ some pushext → Runs 0 (emit_name v o) c
  Runs-emit_name v w (some o) n = Runs-emit_operation c h o (λ e. n (ap some e))
  Runs-emit_name v w none n =
      Runs-bind 0 0 (Runs-emit_value c h (string v) w) (omega arith)
        λ _ c' s. Runs-emit_operation c' s.short ref (λ e. cc)

  Runs-emit_mapped :
      (v : Bytes) (o : Option VmOpcode) → o ≢ some pushext → Runs 0 (emit_mapped v o) c
  Runs-emit_mapped v (some o) n = Runs-emit_operation c h o (λ e. n (ap some e))
  Runs-emit_mapped v none n = Runs-throw (unknown_operator v) c

keyword-ne : (v : Bytes) → keyword v ≢ some pushext
unfolding keyword
keyword-ne v e = ground arith

operator_map-ne : (v : Bytes) → operator_map v ≢ some pushext
unfolding operator_map
operator_map-ne v e = ground arith

Runs-compile_operator : (v : Bytes) (c : Compiler) → IsShort c → Runs 0 (compile_operator v) c
unfolding compile_operator
Runs-compile_operator v c h =
    Runs-if (is_text "@" v) _ _ c
      (λ _.
        Runs-bind 0 0 (Runs-emit_operation c h swap (λ e. cc)) (omega arith)
          λ _ c' s. Runs-emit_operation c' s.short assign (λ e. cc))
      λ _. Runs-emit_mapped c h v (operator_map v) (operator_map-ne v)

Runs-compile_context_operator :
    (b : ℕ) (c : Compiler) → IsShort c → Runs 0 (compile_context_operator b) c
unfolding compile_context_operator
Runs-compile_context_operator b c h =
    Runs-if (b == b'{' || b == b'<') _ _ c (λ _. Runs-emit_operation c h ctx_push (λ e. cc))
      λ _. Runs-emit_operation c h ctx_pop (λ e. cc)

module _ (c : Compiler) (h : IsShort c) where
  pub Runs-compile_open : Runs (weight c.current.type) compile_open c
  unfolding compile_open
  Runs-compile_open = Runs-gets _ _ c (
      Runs-then-next c (
        Runs-if _ _ _ c (λ _. Runs-emit_operation c h fun_push (λ e. cc))
          λ _. Runs-compile_context_operator (first_byte c.current.value) c h))

  pub Runs-compile_close : Runs (weight c.current.type) compile_close c
  unfolding compile_close
  Runs-compile_close = Runs-gets _ _ c (
      Runs-then-next c (
        Runs-if _ _ _ c (λ _. Runs-emit_operation c h fun_eval (λ e. cc))
          λ _. Runs-compile_context_operator (first_byte c.current.value) c h))

  pub Runs-compile_identifier : Runs (weight c.current.type) compile_identifier c
  unfolding compile_identifier
  Runs-compile_identifier = Runs-gets _ _ c (
      Runs-bind 0 (weight c.current.type) (Runs-next c h) (omega arith) λ _ c' s. Runs-gets _ _ c' (
        Runs-if _ _ _ c' (λ _. Runs-compile_speculate_block c' s.short)
          λ _.
            Runs-emit_name c' s.short c.current.value (omega arith) (keyword c.current.value)
              (keyword-ne c.current.value)))

is_operator-weight : (t : TokenType) → is_operator t ≡ true → weight t ≡ 1
is_operator-weight operator h = refl
is_operator-weight _ h = cc

Runs-sigil_loop :
    (fuel : ℕ) (sigils : List Bytes) (c : Compiler)
    → IsShort c
    → left c < fuel
    → Runs 0 (sigil_loop fuel sigils) c
unfolding sigil_loop
Runs-sigil_loop zero sigils c h f = absurd (omega arith)
Runs-sigil_loop (suc fuel) sigils c h f = Runs-gets _ _ c (
    Runs-gets _ _ c (
      Runs-if (more_sigils c) _ _ c
        (λ e.
          let w = is_operator-weight c.current.type (ground arith) in
          Runs-bind 0 0 (Runs-next c h) (omega arith)
            λ _ c' s. Runs-sigil_loop fuel _ c' s.short (omega (arith, s.moves, w)))
        λ _. Runs-pure _ c h))

Runs-emit_sigil_operation :
    (sigil : Bytes) (last : Bool) (c : Compiler)
    → IsShort c
    → Runs 0 (emit_sigil_operation sigil last) c
unfolding emit_sigil_operation
Runs-emit_sigil_operation sigil last c h =
    Runs-if (is_text "^" sigil) _ _ c (λ _. Runs-pure tt c h)
      λ _.
        Runs-if (is_text "@" sigil) _ _ c (λ _. Runs-emit_operation c h assign (λ e. cc))
          λ _.
            Runs-if (is_text "/" sigil) _ _ c
              (λ _.
                Runs-emit_operation c h (if last then remove else remove_head) (λ e. ground arith))
              λ _. Runs-pure tt c h

Runs-emit_sigil :
    (name sigil : Bytes) (last : Bool) (c : Compiler)
    → IsSmall name
    → IsShort c
    → Runs 0 (emit_sigil name sigil last) c
unfolding emit_sigil
Runs-emit_sigil name sigil last c w h =
    Runs-bind 0 0 (Runs-emit_value c h (string name) w) (omega arith)
      λ _ c' s. Runs-emit_sigil_operation sigil last c' s.short

Runs-emit_sigils :
    (name : Bytes) (sigils : List Bytes) (c : Compiler)
    → IsSmall name
    → IsShort c
    → Runs 0 (emit_sigils name sigils) c
unfolding emit_sigils
Runs-emit_sigils name [] c w h = Runs-pure tt c h
Runs-emit_sigils name (sigil ∷ sigils) c w h =
    Runs-bind 0 0 (Runs-emit_sigil name sigil (is_empty sigils) c w h) (omega arith)
      λ _ c' s. Runs-emit_sigils name sigils c' w s.short

Runs-compile_bare :
    (v : Bytes) (sigils : List Bytes) (c : Compiler) → IsShort c → Runs 0 (compile_bare v sigils) c
unfolding compile_bare
Runs-compile_bare v (sigil ∷ []) c h =
    Runs-if (is_text "/" v) _ _ c (λ _. Runs-emit_operation c h pop (λ e. cc))
      λ _.
        Runs-if (is_text "^" v) _ _ c (λ _. Runs-emit_operation c h splice (λ e. cc))
          λ _. Runs-compile_operator v c h
Runs-compile_bare v [] c h = Runs-throw unfinished_sigil_chain c
Runs-compile_bare v (a ∷ b ∷ sigils) c h = Runs-throw unfinished_sigil_chain c

Runs-compile_sigils :
    (fuel : ℕ) (v : Bytes) (c : Compiler)
    → IsShort c
    → left c < fuel
    → Runs 0 (compile_sigils fuel v) c
unfolding compile_sigils
Runs-compile_sigils fuel v c h f =
    Runs-bind 0 0 (Runs-sigil_loop fuel (v ∷ []) c h f) (omega arith) λ sigils c' s.
      Runs-gets _ _ c' (
        Runs-gets _ _ c' (
          Runs-if _ _ _ c'
            (λ _. Runs-bind 0 0 (Runs-next c' s.short) (omega arith) λ _ c'' s'.
              Runs-emit_sigils c'.current.value sigils c'' (omega (arith, s.short)) s'.short)
            λ _. Runs-compile_bare v sigils c' s.short))

pub Runs-compile_operator_term :
    (fuel : ℕ) (c : Compiler)
    → IsShort c
    → left c < fuel
    → Runs (weight c.current.type) (compile_operator_term fuel) c
unfolding compile_operator_term
Runs-compile_operator_term fuel c h f = Runs-gets _ _ c (
    Runs-bind 0 (weight c.current.type) (Runs-next c h) (omega arith) λ _ c' s.
      Runs-if _ _ _ c'
        (λ _. Runs-compile_sigils fuel c.current.value c' s.short (omega (arith, s.moves)))
        λ _. Runs-compile_operator c.current.value c' s.short)
