-- ===== src/Edict/Tests.antt =====
-- Runs of the language's front end at concrete inputs.
use agentc.Edict.Opcode.{byte, dup, ref, eval, catch}
use agentc.Edict.Bytecode.{Instr, op, push, text, decode, fetch}
use agentc.Edict.Bytecode.RoundTrip.{encode, encode_all, fetch-encode, decode-encode_all}
use agentc.Edict.Tokenizer.{
  Tokenizer, is_space, is_context, is_operator, is_identifier, is_alnum, next_token, new_tokenizer,
}
use agentc.Edict.Tokenizer.Progress.{weight, next_token-Consumes}
use agentc.Edict.Tokenizer.Lines.{newlines, after, token_start, line-newlines}
use agentc.Edict.BlockAccumulator.{
  BlockAccumulator, new_accumulator, add_line, is_complete, is_nil, is_opener, is_closer, is_blank,
}
use agentc.Edict.BlockAccumulator.Balanced.{plain, nested, done, add_line-Balanced}
use agentc.Edict.Compiler.{compile}
use agentc.Edict.Compiler.Monad.{ok}
use agentc.Edict.Compiler.Correct.{Compiled, compile-Compiled}
use agentc.Edict.Compiler.Unknown.{compile-unknown}
use agentc.Edict.Scanning.{from_throw, still_scanning, runs_on, scan_loop}
use agentc.Edict.Scanning.Skipped.{skip, scan_loop-skip}
use agentc.Prelude.{
  ◌+◌, ◌%◌, ◌^◌, ◌≤◌, ◌≡◌, refl, false, List, [], ◌∷◌, ◌++◌, some, codes, length, arith,
}

compile-Compiled_example : Compiled (compile (codes "@x 'a # c"))
compile-Compiled_example = compile-Compiled (codes "@x 'a # c") (omega arith)

compile-unknown_example : compile (92 ∷ codes " [x] dup") ≡ ok []
unfolding is_space is_context is_operator is_identifier is_alnum
compile-unknown_example = compile-unknown 92 (codes " [x] dup") refl

abbrev instructions : List Instr
instructions = push (text (codes "x")) ∷ op dup ∷ op ref ∷ []

decode-encode_all_example : decode 4 (encode_all instructions) ≡ some instructions
decode-encode_all_example =
    decode-encode_all 4 instructions (omega arith) (omega arith, ((λ e. cc), ((λ e. cc), tt)))

fetch-encode_example :
    fetch (encode (push (text (codes "x"))) ++ codes "rest")
    ≡ some (push (text (codes "x")), codes "rest")
fetch-encode_example = fetch-encode (push (text (codes "x"))) (codes "rest") (omega arith)

abbrev tokens : Tokenizer
tokens = new_tokenizer (codes "a\n [b\nc] d")

next_token-Consumes_example :
    (length (next_token tokens).0.value + length (next_token tokens).1.rest ≤ length tokens.rest)
    × (length (next_token tokens).1.rest + weight (next_token tokens).0.type ≤ length tokens.rest)
next_token-Consumes_example = next_token-Consumes tokens

line-newlines_example :
    let t = after 2 (new_tokenizer (codes "a\n [b\nc] d")) in
    ((t.cursor.line + newlines t.rest) % 2 ^ 32 ≡ (1 + newlines (codes "a\n [b\nc] d")) % 2 ^ 32)
    × (((next_token t).0.line + newlines (token_start t)) % 2 ^ 32
        ≡ (1 + newlines (codes "a\n [b\nc] d")) % 2 ^ 32)
line-newlines_example = line-newlines (codes "a\n [b\nc] d") 2

-- an accumulator for `[]` and `()`
abbrev brackets : BlockAccumulator
brackets = new_accumulator (codes "[]()")

add_line-Balanced_example :
    ((add_line (codes "[a]") 1 brackets).0 ≡ is_nil brackets.stack)
    × ((add_line (codes "[a]") 1 brackets).1.stack ≡ brackets.stack)
    × (is_complete (add_line (codes "[a]") 1 brackets).1 ≡ is_nil brackets.stack)
unfolding new_accumulator is_opener is_closer is_blank
add_line-Balanced_example =
    add_line-Balanced (codes "[a]") 1 brackets (record { string_off = refl; escape_off = refl })
      (nested b'[' b']' (codes "a") [] refl refl refl refl refl refl refl
        (plain b'a' []
          (record { no_opener = refl; no_closer = refl; no_quote = refl; no_comment = refl }) done)
        done)
      refl

-- Behind a failed test, in `& f !`: the scan does not end.
abbrev then_eval : List Instr
then_eval = push (text (codes "f")) ∷ op eval ∷ []

scan_loop-skip_example :
    scan_loop 1000
      (record { mode = from_throw; depth = 0; tail_eval = false; rest = encode_all then_eval })
    ≡ still_scanning
unfolding skip byte
scan_loop-skip_example =
    scan_loop-skip 1000 from_throw 0 then_eval (omega arith, ((λ e. cc), tt)) (omega arith)

-- In `& f ! | g` it runs on behind the `|`.
abbrev then_else : List Instr
then_else = push (text (codes "f")) ∷ op eval ∷ op catch ∷ push (text (codes "g")) ∷ []

scan_to_else :
    scan_loop 5
      (record { mode = from_throw; depth = 0; tail_eval = false; rest = encode_all then_else })
    ≡ runs_on (encode_all (push (text (codes "g")) ∷ []))
unfolding skip byte
scan_to_else =
    scan_loop-skip 5 from_throw 0 then_else
      (omega arith, ((λ e. cc), ((λ e. cc), (omega arith, tt)))) (omega arith)
