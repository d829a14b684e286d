-- ===== src/Edict/Bytecode.antt =====
-- Value and BytecodeBuffer (edict/edict_types.h, edict/edict_types.cpp), and the readers of the
-- virtual machine (edict/edict_vm_core.cpp). A reader's state, a code pointer and an index, is the
-- list of the bytes that it has still to read.
pub mod RoundTrip
use agentc.Edict.Opcode.{VmOpcode, byte, pushext, dispatch}
use agentc.Prelude.{
  ℕ, zero, suc, ◌+◌, ◌*◌, ◌/◌, ◌%◌, ◌^◌, ◌-◌, Bool, true, false, List, [], ◌∷◌, ◌++◌, Option, none,
  some, Bytes, length, ltb, ◌==◌, if◌then◌else◌, get_elem?,
}

-- A reference is a pointer to a heap object; the buffer does not keep it.
pub data Value : Type 0 where
  null : Value
  bool : Bool → Value
  string : Bytes → Value
  reference : Value

-- VMPushextType
abbrev pub ext_null : ℕ
ext_null = 0

abbrev pub ext_bool : ℕ
ext_bool = 1

abbrev pub ext_string : ℕ
ext_string = 2

abbrev pub ext_list : ℕ
ext_list = 4

unfoldable pub add_op : VmOpcode → Bytes → Bytes
add_op op data' = data' ++ byte op ∷ []

-- `int len = static_cast<int>(value.length())`: the low 32 bits, byte by byte from the lowest.
unfoldable pub le32 : ℕ → Bytes
le32 n = n % 256 ∷ n / 256 % 256 ∷ n / 65536 % 256 ∷ n / 16777216 % 256 ∷ []

unfoldable pub add_string : Bytes → Bytes → Bytes
unfolding le32
add_string value data' = (data' ++ le32 (length value)) ++ value

unfoldable pub add_value : Value → Bytes → Bytes
unfolding add_string
add_value null data' = data' ++ ext_null ∷ []
add_value (bool b) data' = (data' ++ ext_bool ∷ []) ++ (if b then 1 else 0) ∷ []
add_value (string s) data' = add_string s (data' ++ ext_string ∷ [])
add_value reference data' = data' ++ ext_null ∷ []

-- What `readValue` makes of the bytes behind VMOP_PUSHEXT.
pub data Payload : Type 0 where
  null_value list_value : Payload
  binary text : Bytes → Payload

-- Past the end of the code a zero is read, and the position stays.
unfoldable pub read_byte : Bytes → ℕ × Bytes
read_byte [] = (0, [])
read_byte (b ∷ code) = (b, code)

-- The 32 bits of `val`.
unfoldable pub read_int : Bytes → ℕ × Bytes
unfolding read_byte
read_int code =
    let (a, code) = read_byte code in
    let (b, code) = read_byte code in
    let (c, code) = read_byte code in
    let (d, code) = read_byte code in (a + b * 256 + c * 65536 + d * 16777216, code)

unfoldable pub read_bytes : ℕ → Bytes → Bytes × Bytes
unfolding read_byte
read_bytes zero code = ([], code)
read_bytes (suc n) code =
    let (b, rest) = read_byte code in let (s, rest) = read_bytes n rest in (b ∷ s, rest)

-- A length with its top bit set is a negative `int`: nothing is read.
abbrev read_sized : ℕ × Bytes → Bytes × Bytes
read_sized (len, rest) = read_bytes (if ltb len 2147483648 then len else 0) rest

unfoldable pub read_string : Bytes → Bytes × Bytes
read_string code = read_sized (read_int code)

-- `none` is the error "Type error".
abbrev tagged : ℕ → Bytes → Option (Payload × Bytes)
tagged tag rest =
    if tag == ext_null
    then some (null_value, rest)
    else if tag == ext_bool
    then (let (b, rest) = read_byte rest in some (binary (b ∷ []), rest))
    else if tag == ext_string
    then (let (s, rest) = read_string rest in some (text s, rest))
    else if tag == ext_list
    then some (list_value, rest)
    else none

unfoldable pub read_value : Bytes → Option (Payload × Bytes)
unfolding read_byte
read_value code = let (tag, rest) = read_byte code in tagged tag rest

-- One turn of the loop of `runCodeLoop`: the operation byte, its entry in the dispatch table, and the
-- payload that VMOP_PUSHEXT reads behind it.
pub data Instr : Type 0 where
  op : VmOpcode → Instr
  push : Payload → Instr

abbrev pub operand : VmOpcode → Bytes → Option (Instr × Bytes)
operand pushext code = elim (read_value code) [ none ↦ none | some (p, rest) ↦ some (push p, rest) ]
operand o code = some (op o, code)

unfoldable pub fetch : Bytes → Option (Instr × Bytes)
fetch [] = none
fetch (b ∷ code) = elim (get_elem? dispatch b) [ none ↦ none | some o ↦ operand o code ]

-- All the instructions of a code frame; `none` when one of them is malformed or the fuel runs out.
unfoldable pub decode : ℕ → Bytes → Option (List Instr)
unfolding fetch
decode zero code = none
decode (suc fuel) [] = some []
decode (suc fuel) (b ∷ code) = elim (fetch (b ∷ code)) [
  | none ↦ none
  | some (i, rest) ↦ elim (decode fuel rest) [ none ↦ none | some is ↦ some (i ∷ is) ]
]
