-- ===== src/Edict/Compiler/Correct.antt =====
-- The code that `compile` writes, as the virtual machine reads it.
use agentc.Edict.Bytecode.{Instr, decode}
use agentc.Edict.Bytecode.RoundTrip.{encode_all, AllWritable, decode-encode_all}
use agentc.Edict.Tokenizer.{
  TokenType, literal, identifier, operator, context_open, context_close, function_open,
  function_close, quote, colon, comma, eof,
}
use agentc.Edict.Tokenizer as Tokenizer
use agentc.Edict.Tokenizer.Progress.{weight, new_tokenizer-le}
use agentc.Edict.Compiler.Monad.{Result, ok, thrown, out_of_fuel, Compiler, at_value}
use agentc.Edict.Compiler.Emission.{
  left, IsShort, Post, Runs, Runs-bind, Runs-gets, Runs-if, Runs-pure, Runs-next,
}
use agentc.Edict.Compiler.Terms.Emission.{
  Runs-compile_literal, Runs-compile_string, Runs-compile_quote, Runs-compile_identifier,
  Runs-compile_operator_term, Runs-compile_open, Runs-compile_close,
}
use agentc.Edict.Compiler.Json.{is_eof}
use agentc.Edict.Compiler.Json.Emission.{
  Runs-compile_json_object, Runs-compile_json_value, is_eof-weight,
}
use agentc.Edict.Compiler.{term_at, compile_term, term_loop, start, output_of, compile}
use agentc.Prelude.{ℕ, zero, suc, ◌<◌, ◌≡◌, refl, List, some, Bytes, length, arith}

Runs-term_at :
    (t : TokenType) (fuel : ℕ) (c : Compiler)
    → c.current.type ≡ t
    → IsShort c
    → left c < fuel
    → Runs (weight c.current.type) (term_at t fuel) c
unfolding term_at
Runs-term_at literal fuel c e h f = Runs-compile_literal c h
Runs-term_at Tokenizer.string fuel c e h f = Runs-compile_string c h
Runs-term_at quote fuel c e h f = Runs-compile_quote c h
Runs-term_at identifier fuel c e h f = Runs-compile_identifier c h
Runs-term_at operator fuel c e h f = Runs-compile_operator_term fuel c h f
Runs-term_at context_open fuel c e h f = Runs-gets _ _ c (
    Runs-if (at_value "{" c) _ _ c
      (λ _.
        Runs-compile_json_object fuel _ (Runs-compile_json_value fuel) fuel c h (omega arith)
          (omega arith) (rw e))
      λ _. Runs-compile_open c h)
Runs-term_at context_close fuel c e h f = Runs-compile_close c h
Runs-term_at _ fuel c e h f = Runs-next c h

Runs-term_loop :
    (rounds fuel : ℕ) (c : Compiler)
    → IsShort c
    → left c < rounds
    → left c < fuel
    → Runs 0 (term_loop rounds fuel) c
unfolding term_loop compile_term
Runs-term_loop zero fuel c h r f = absurd (omega arith)
Runs-term_loop (suc rounds) fuel c h r f = Runs-gets _ _ c (
    Runs-if (is_eof c.current.type) _ _ c (λ _. Runs-pure tt c h)
      λ e.
        let w = is_eof-weight c.current.type e in
        Runs-bind 0 0 (Runs-gets _ _ c (Runs-term_at c.current.type fuel c refl h f)) (omega arith)
          λ _ c' s.
            Runs-term_loop rounds fuel c' s.short (omega (arith, s.moves, w))
              (omega (arith, s.moves)))

-- The code is a sequence of whole instructions, which the machine decodes to them.
pub record IsCode (code : Bytes) : Type 0 where
  pub instrs : List Instr
  pub writable : AllWritable instrs
  pub is_encoded : code ≡ encode_all instrs
  pub decodes : (fuel : ℕ) → length instrs < fuel → decode fuel code ≡ some instrs

abbrev pub Compiled : Result Bytes → Type 0
Compiled (ok code) = IsCode code
Compiled (thrown e) = Unit
Compiled out_of_fuel = ⊥

output-Compiled :
    (source : Bytes) (r : Result (Unit {0} × Compiler))
    → Post 0 (start source) r
    → Compiled (output_of r)
output-Compiled source (ok (_, c)) s = record {
  instrs = s.written;
  writable = s.writable;
  is_encoded = s.appends;
  decodes = λ fuel h. rw s.appends (decode-encode_all fuel s.written h s.writable);
}
output-Compiled source (thrown e) s = tt
output-Compiled source out_of_fuel s = s

-- A source of less than 2 ^ 31 bytes is compiled with the fuel that `compile` takes: either an error
-- is thrown, or the output is a sequence of whole instructions, each a known operation or a push of a
-- payload that fits, and decoding it as the machine's loop does gives these instructions and all.
pub compile-Compiled : (source : Bytes) → length source < 2147483648 → Compiled (compile source)
unfolding compile
compile-Compiled source h =
    let le = new_tokenizer-le source in
    output-Compiled source _
      (Runs-bind 0 0 (Runs-next (start source) (omega arith)) (omega arith) λ _ c s.
        Runs-term_loop _ _ c s.short (omega (arith, s.moves)) (omega (arith, s.moves))).post
