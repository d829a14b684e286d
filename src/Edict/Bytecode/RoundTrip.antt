-- ===== src/Edict/Bytecode/RoundTrip.antt =====
-- The bytes of the buffer beside the readers of the virtual machine.
use mathlib.Core.List.{append_assoc}
use agentc.Edict.Opcode.{VmOpcode, byte, pushext, dispatch-byte}
use agentc.Edict.Bytecode.{
  Value, null, bool, string, reference, Payload, null_value, list_value, binary, text, Instr, op,
  push, operand, ext_null, ext_bool, ext_string, ext_list, le32, add_op, add_value, read_int,
  read_bytes, read_string, read_value, fetch, decode,
}
use agentc.Prelude.{
  ℕ, zero, suc, ◌<◌, ◌≡◌, ◌≢◌, refl, sym, ap, ◌∙◌, true, false, List, [], ◌∷◌, ◌++◌, some, arith,
  Bytes, length, lt→ltb,
}

-- The payload that the machine makes of a value.
abbrev pub payload : Value → Payload
payload null = null_value
payload (bool true) = binary (1 ∷ [])
payload (bool false) = binary (0 ∷ [])
payload (string s) = text s
payload reference = null_value

abbrev pub encode_payload : Payload → Bytes
encode_payload null_value = ext_null ∷ []
encode_payload list_value = ext_list ∷ []
encode_payload (binary bs) = ext_bool ∷ bs
encode_payload (text s) = ext_string ∷ (le32 (length s) ++ s)

abbrev pub encode : Instr → Bytes
encode (op o) = byte o ∷ []
encode (push p) = byte pushext ∷ encode_payload p

abbrev pub encode_all : List Instr → Bytes
encode_all [] = []
encode_all (i ∷ is) = encode i ++ encode_all is

-- A string's length fits an `int`, a Boolean takes one byte, and a push has its payload.
abbrev pub IsWritable : Instr → Type 0
IsWritable (op o) = o ≢ pushext
IsWritable (push (text s)) = length s < 2147483648
IsWritable (push (binary bs)) = length bs ≡ 1
IsWritable (push _) = Unit

abbrev pub AllWritable : List Instr → Type 0
AllWritable [] = Unit
AllWritable (i ∷ is) = IsWritable i × AllWritable is

pub encode_all-append :
    (is js : List Instr) → encode_all (is ++ js) ≡ encode_all is ++ encode_all js
encode_all-append [] js = refl
encode_all-append (i ∷ is) js =
    ap (◌++◌ (encode i)) (encode_all-append is js)
    ∙ sym (append_assoc (encode i) (encode_all is) (encode_all js))

pub AllWritable-append :
    (is js : List Instr) → AllWritable is → AllWritable js → AllWritable (is ++ js)
AllWritable-append [] js h k = k
AllWritable-append (i ∷ is) js h k = (h.0, AllWritable-append is js h.1 k)

read_bytes-append : (s rest : Bytes) → read_bytes (length s) (s ++ rest) ≡ (s, rest)
unfolding read_bytes
read_bytes-append [] rest = refl
read_bytes-append (b ∷ s) rest = rw (read_bytes-append s rest)

read_int-le32 : (n : ℕ) (rest : Bytes) → n < 4294967296 → read_int (le32 n ++ rest) ≡ (n, rest)
unfolding read_int le32
read_int-le32 n rest h = ap (λ (m : ℕ). (m, rest)) (omega arith)

read_string-le32 :
    (s rest : Bytes)
    → length s < 2147483648
    → read_string (le32 (length s) ++ (s ++ rest)) ≡ (s, rest)
unfolding read_string
read_string-le32 s rest h =
    rw (read_int-le32 (length s) (s ++ rest) (omega arith), lt→ltb (length s) 2147483648 h)
      (read_bytes-append s rest)

pub read_value-encode_payload :
    (p : Payload) (rest : Bytes)
    → IsWritable (push p)
    → read_value (encode_payload p ++ rest) ≡ some (p, rest)
unfolding read_value
read_value-encode_payload null_value rest h = refl
read_value-encode_payload list_value rest h = refl
read_value-encode_payload (binary []) rest h = absurd (omega arith)
read_value-encode_payload (binary (b ∷ [])) rest h = refl
read_value-encode_payload (binary (b ∷ c ∷ bs)) rest h = absurd (omega arith)
read_value-encode_payload (text s) rest h = rw append_assoc (rw (read_string-le32 s rest h))

operand-op : (o : VmOpcode) (rest : Bytes) → o ≢ pushext → operand o rest ≡ some (op o, rest)
operand-op pushext rest h = absurd (h refl)
operand-op _ rest h = refl

operand-push :
    (p : Payload) (rest : Bytes)
    → IsWritable (push p)
    → operand pushext (encode_payload p ++ rest) ≡ some (push p, rest)
operand-push p rest h = rw (read_value-encode_payload p rest h, operand)

-- One written instruction is fetched back whole, and leaves what follows it.
pub fetch-encode :
    (i : Instr) (rest : Bytes) → IsWritable i → fetch (encode i ++ rest) ≡ some (i, rest)
unfolding fetch
fetch-encode (op o) rest h = rw (dispatch-byte o, fetch) (operand-op o rest h)
fetch-encode (push p) rest h = rw (dispatch-byte pushext, fetch) (operand-push p rest h)

decode-step :
    (fuel : ℕ) (i : Instr) (rest : Bytes) (is : List Instr)
    → IsWritable i
    → decode fuel rest ≡ some is
    → decode (suc fuel) (encode i ++ rest) ≡ some (i ∷ is)
unfolding decode
decode-step fuel (op o) rest is h e = rw (fetch-encode (op o) rest h, decode, e)
decode-step fuel (push p) rest is h e = rw (fetch-encode (push p) rest h, decode, e)

-- A code frame of written instructions decodes to them and to nothing else.
pub decode-encode_all :
    (fuel : ℕ) (is : List Instr)
    → length is < fuel
    → AllWritable is
    → decode fuel (encode_all is) ≡ some is
unfolding decode
decode-encode_all zero is h w = absurd (omega arith)
decode-encode_all (suc fuel) [] h w = refl
decode-encode_all (suc fuel) (i ∷ is) h w =
    decode-step fuel i (encode_all is) is w.0 (decode-encode_all fuel is (omega arith) w.1)

-- `addOp(VMOP_PUSHEXT)` and `addValue(value)` write one push of the value's payload.
pub add_value_lem :
    (v : Value) (written : Bytes)
    → add_value v (add_op pushext written) ≡ written ++ encode (push (payload v))
unfolding add_value add_op
add_value_lem null written = append_assoc written _ _
add_value_lem (bool true) written = simp append_assoc
add_value_lem (bool false) written = simp append_assoc
add_value_lem (string s) written = simp append_assoc
add_value_lem reference written = append_assoc written _ _
