-- ===== src/Edict/Compiler/Emission.antt =====
-- Actions of the compiler that move forward through the tokens and append instructions to the output.
use mathlib.Core.List.{append-nil, append_assoc}
use agentc.Edict.Opcode.{VmOpcode, pushext}
use agentc.Edict.Bytecode.{Value, string, add_op, Instr, op, push, list_value}
use agentc.Edict.Bytecode.RoundTrip.{
  payload, encode, encode_all, IsWritable, AllWritable, encode_all-append, AllWritable-append,
  add_value_lem,
}
use agentc.Edict.Tokenizer.Progress.{weight, next_token-Consumes}
use agentc.Edict.Compiler.Monad.{
  Result, ok, thrown, out_of_fuel, CompileError, Compiler, M, continue, ◌>>=◌, ◌>>◌, pure, throw,
  gets, next, expect, emit_operation, emit_value, emit_literal, emit_list_start, use_json_mode,
  inner, at_value,
}
use agentc.Prelude.{
  ℕ, ◌+◌, ◌-◌, ◌≤◌, ◌<◌, ◌≡◌, ◌≢◌, refl, sym, ap, ◌∙◌, Bool, true, false, String, List, [], ◌∷◌,
  ◌++◌, arith, Bytes, length, length-take-le, length-drop, drop, if◌then◌else◌, Bool-cases, inl,
  inr,
}

-- The bytes that are still to be read, and with the current token the tokens that may still come.
abbrev pub unread : Compiler → ℕ
unread c = length c.tokenizer.rest

abbrev pub left : Compiler → ℕ
left c = unread c + weight c.current.type

-- Every text still to be written fits an `int`.
abbrev pub IsSmall : Bytes → Type 0
IsSmall s = length s < 2147483648

abbrev pub IsShort : Compiler → Type 0
IsShort c = length c.current.value + unread c < 2147483648

-- From `c` to `c'` at least `k` tokens are passed, and whole instructions are written.
pub record Step (k : ℕ) (c c' : Compiler) : Type 0 where
  pub moves : left c' + k ≤ left c
  pub reads : unread c' ≤ unread c
  pub short : IsShort c'
  pub written : List Instr
  pub writable : AllWritable written
  pub appends : c'.output ≡ c.output ++ encode_all written

abbrev pub Post : {A : Type 0} → ℕ → Compiler → Result (A × Compiler) → Type 0
Post k c (ok (_, c')) = Step k c c'
Post k c (thrown e) = Unit
Post k c out_of_fuel = ⊥

-- The action returns after such a step, or throws; it does not run out of fuel.
pub record Runs {A : Type 0} (k : ℕ) (m : M A) (c : Compiler) : Type 0 where
  pub post : Post k c (m c)

abbrev quiet :
    (k : ℕ) {c c' : Compiler}
    → left c' + k ≤ left c
    → unread c' ≤ unread c
    → IsShort c'
    → c'.output ≡ c.output
    → Step k c c'
quiet k {c} m r h e = record {
  moves = m;
  reads = r;
  short = h;
  written = [];
  writable = tt;
  appends = e ∙ sym (append-nil c.output);
}

Step-trans : {j k : ℕ} (l : ℕ) {a b c : Compiler} → l ≤ j + k → Step j a b → Step k b c → Step l a c
Step-trans l {a} {b} {c} h s t = record {
  moves = omega (arith, s.moves, t.moves);
  reads = omega (arith, s.reads, t.reads);
  short = t.short;
  written = s.written ++ t.written;
  writable = AllWritable-append s.written t.written s.writable t.writable;
  appends =
      t.appends
      ∙ ap (λ o. o ++ encode_all t.written) s.appends
      ∙ append_assoc a.output (encode_all s.written) (encode_all t.written)
      ∙ ap (◌++◌ a.output) (sym (encode_all-append s.written t.written));
}

Post-trans :
    {A : Type 0} (j k l : ℕ) (a b : Compiler) (r : Result (A × Compiler))
    → l ≤ j + k
    → Step j a b
    → Post k b r
    → Post l a r
Post-trans j k l a b (ok (_, c)) h s t = Step-trans l h s t
Post-trans j k l a b (thrown e) h s t = tt
Post-trans j k l a b out_of_fuel h s t = t

-- The rules for `do` blocks.
module _ {A B : Type 0} where
  Post-bind :
      (j k l : ℕ) (f : A → M B) (c : Compiler) (r : Result (A × Compiler))
      → l ≤ j + k
      → Post j c r
      → ((a : A) (c' : Compiler) → Step j c c' → Post k c' (f a c'))
      → Post l c (continue r f)
  Post-bind j k l f c (ok (a, c')) h s q = Post-trans j k l c c' (f a c') h s (q a c' s)
  Post-bind j k l f c (thrown e) h s q = tt
  Post-bind j k l f c out_of_fuel h s q = s

  pub Runs-bind :
      {j : ℕ} (k l : ℕ) {m : M A} {f : A → M B} {c : Compiler}
      → Runs j m c
      → l ≤ j + k
      → ((a : A) (c' : Compiler) → Step j c c' → Runs k (f a) c')
      → Runs l (m >>= f) c
  unfolding ◌>>=◌
  Runs-bind {j} k l {m} {f} {c} p h q = record {
    post = Post-bind j k l f c (m c) h p.post (λ a c' s. (q a c' s).post);
  }

  pub Runs-gets :
      {k : ℕ} (g : Compiler → A) (f : A → M B) (c : Compiler)
      → Runs k (f (g c)) c
      → Runs k (gets g >>= f) c
  unfolding ◌>>=◌ gets
  Runs-gets g f c p = record { post = p.post }

  pub Runs-pure-bind :
      {k : ℕ} (a : A) (f : A → M B) (c : Compiler) → Runs k (f a) c → Runs k (pure a >>= f) c
  unfolding ◌>>=◌ pure
  Runs-pure-bind a f c p = record { post = p.post }

module _ {A : Type 0} where
  pub Runs-if :
      {k : ℕ} (b : Bool) (m n : M A) (c : Compiler)
      → (b ≡ true → Runs k m c)
      → (b ≡ false → Runs k n c)
      → Runs k (if b then m else n) c
  Runs-if true m n c h q = h refl
  Runs-if false m n c h q = q refl

  pub Runs-pure : (a : A) (c : Compiler) → IsShort c → Runs 0 (pure a) c
  unfolding pure
  Runs-pure a c h = record { post = quiet 0 (omega arith) (omega arith) h refl }

  pub Runs-throw : (e : CompileError) (c : Compiler) → Runs {A = A} 0 (throw e) c
  unfolding throw
  Runs-throw e c = record { post = tt }

module _ (c : Compiler) (h : IsShort c) where
  pub Runs-next : Runs (weight c.current.type) next c
  unfolding next
  Runs-next =
      let (fits, moves) = next_token-Consumes c.tokenizer in
      record {
        post =
            quiet (weight c.current.type) (omega (arith, moves)) (omega (arith, fits))
              (omega (arith, fits, h)) refl;
      }

  pub Runs-emit_operation : (o : VmOpcode) → o ≢ pushext → Runs 0 (emit_operation o) c
  unfolding emit_operation add_op
  Runs-emit_operation o w = record {
    post = record {
      moves = omega arith;
      reads = omega arith;
      short = h;
      written = op o ∷ [];
      writable = (w, tt);
      appends = refl;
    };
  }

  pub Runs-emit_value : (v : Value) → IsWritable (push (payload v)) → Runs 0 (emit_value v) c
  unfolding emit_value
  Runs-emit_value v w = record {
    post = record {
      moves = omega arith;
      reads = omega arith;
      short = h;
      written = push (payload v) ∷ [];
      writable = (w, tt);
      appends =
          add_value_lem v c.output
          ∙ ap (◌++◌ c.output) (sym (append-nil (encode (push (payload v)))));
    };
  }

  pub Runs-emit_literal : (s : Bytes) → IsSmall s → Runs 0 (emit_literal s) c
  unfolding emit_literal emit_value
  Runs-emit_literal s w = record { post = (Runs-emit_value (string s) w).post }

  pub Runs-emit_list_start : Runs 0 emit_list_start c
  unfolding emit_list_start add_op
  Runs-emit_list_start = record {
    post = record {
      moves = omega arith;
      reads = omega arith;
      short = h;
      written = push list_value ∷ [];
      writable = (tt, tt);
      appends = append_assoc c.output _ _;
    };
  }

  pub Runs-use_json_mode : (mode : Bool) → Runs 0 (use_json_mode mode) c
  unfolding use_json_mode
  Runs-use_json_mode mode = record { post = quiet 0 (omega arith) (omega arith) h refl }

Runs-weaken-0 :
    {A : Type 0} (k : ℕ) (c : Compiler) (r : Result (A × Compiler)) → Post k c r → Post 0 c r
Runs-weaken-0 k c (ok (_, c')) s = record {
  moves = omega (arith, s.moves);
  reads = s.reads;
  short = s.short;
  written = s.written;
  writable = s.writable;
  appends = s.appends;
}
Runs-weaken-0 k c (thrown e) s = tt
Runs-weaken-0 k c out_of_fuel s = s

pub Runs-weaken : {A : Type 0} {k : ℕ} {m : M A} {c : Compiler} → Runs k m c → Runs 0 m c
Runs-weaken {A} {k} {m} {c} p = record { post = Runs-weaken-0 k c (m c) p.post }

pub Runs-expect : (s : String) (c : Compiler) → IsShort c → Runs 0 (expect s) c
unfolding expect
Runs-expect s c h = record {
  post = elim (Bool-cases (at_value s c)) [
    | inl e ↦ rw (e, expect) (Runs-weaken (Runs-next c h)).post
    | inr e ↦ rw (e, expect) tt
  ];
}

-- Whatever comes before a `next`, it passes the token that was current.
pub Runs-then-next :
    {j : ℕ} {m : M (Unit {0})} (c : Compiler)
    → Runs j m c
    → Runs (weight c.current.type) (m >> next) c
unfolding ◌>>=◌ next
Runs-then-next {j} {m} c p = record { post = go (m c) p.post }
  where
    passed : (c' : Compiler) → Step j c c' → Post (weight c.current.type) c (next c')
    passed c' s =
        let (fits, moves) = next_token-Consumes c'.tokenizer in
        record {
          moves = omega (arith, moves, s.reads);
          reads = omega (arith, fits, s.reads);
          short = omega (arith, fits, s.short);
          written = s.written;
          writable = s.writable;
          appends = s.appends;
        }

    go :
        (r : Result (Unit {0} × Compiler))
        → Post j c r
        → Post (weight c.current.type) c (continue r (λ _. next))
    go (ok (_, c')) s = passed c' s
    go (thrown e) s = tt
    go out_of_fuel s = s

pub length-inner-le : (s : Bytes) → length (inner s) ≤ length s
unfolding inner
length-inner-le s = omega (arith, length-take-le (length s - 2) (drop 1 s), length-drop 1 s)
