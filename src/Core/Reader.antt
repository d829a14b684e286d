-- ===== src/Core/Reader.antt =====
-- arena_persistence_detail (core/alloc.h): words and counted texts in a byte string. A reader's state
-- is the cursor and the bytes behind it, so that the size of the text is their sum. Words are stored
-- from the lowest byte, as on the machines that the program runs on.
pub mod Reads
use agentc.Prelude.{
  ℕ, zero, suc, ◌+◌, ◌*◌, ◌/◌, ◌%◌, ◌^◌, Bytes, List, [], ◌∷◌, ◌++◌, length, take, drop, ltb,
  if◌then◌else◌,
}

-- SlabId: a pair of 16-bit numbers, the slab and the offset in it
pub record SlabId : Type 0 where
  pub index : ℕ
  pub offset : ℕ

pub record Cursor : Type 0 where
  pub at : ℕ
  pub rest : Bytes

-- What a reader ends with: a value, `false`, or an exception of a container that cannot be that large.
pub data Outcome {ℓ} (A : Type ℓ) : Type ℓ where
  ok : A → Outcome A
  refused : Outcome A
  length_error : Outcome A

abbrev pub Reader : Type 0 → Type 0
Reader A = Cursor → Outcome (A × Cursor)

module _ {A B : Type 0} where
  abbrev pub continue : Outcome (A × Cursor) → (A → Reader B) → Outcome (B × Cursor)
  continue (ok (a, c)) f = f a c
  continue refused f = refused
  continue length_error f = length_error

  infixl 5 ◌>>=◌ ◌>>◌
  unfoldable pub ◌>>=◌ : Reader A → (A → Reader B) → Reader B
  ◌>>=◌ m f c = continue (m c) f

  abbrev pub ◌>>◌ : Reader A → Reader B → Reader B
  m >> n = m >>= λ _. n

unfoldable pub pure : {A : Type 0} → A → Reader A
pure a c = ok (a, c)

unfoldable pub refuse : {A : Type 0} → Reader A
refuse c = refused

unfoldable pub overflow : {A : Type 0} → Reader A
overflow c = length_error

-- The bytes of a number in a type of `w` bytes, and the number of some bytes.
unfoldable pub le : ℕ → ℕ → Bytes
le zero n = []
le (suc w) n = n % 256 ∷ le w (n / 256)

unfoldable pub number : Bytes → ℕ
number [] = 0
number (b ∷ bs) = b + 256 * number bs

abbrev pub size_of_size : ℕ
size_of_size = 8

unfoldable pub append_pod : ℕ → ℕ → Bytes → Bytes
append_pod w n out = out ++ le w n

abbrev pub advance : ℕ → Cursor → Cursor
advance n c = record { at = c.at + n; rest = drop n c.rest }

-- `cursor + sizeof(T) > text.size()` refuses
unfoldable pub read_pod : ℕ → Reader ℕ
read_pod w c = if ltb (length c.rest) w then refused else ok (number (take w c.rest), advance w c)

unfoldable pub append_string : Bytes → Bytes → Bytes
unfolding append_pod
append_string value out = append_pod size_of_size (length value) out ++ value

unfoldable pub append_slab_id : SlabId → Bytes → Bytes
unfolding append_pod
append_slab_id sid out = append_pod 2 sid.offset (append_pod 2 sid.index out)

unfoldable pub read_slab_id : Reader SlabId
read_slab_id = do
  first ← read_pod 2
  second ← read_pod 2
  pure (record { index = first; offset = second })

-- `max_size` bounds what a string or a vector can hold: more is an exception. The sum of the cursor
-- and the size wraps.
module _ (max_size : ℕ) where
  unfoldable pub read_counted : ℕ → Reader Bytes
  read_counted size c =
      if ltb (c.at + length c.rest) ((c.at + size) % 2 ^ 64)
      then refused
      else if ltb max_size size
      then length_error
      else ok (take size c.rest, advance size c)

  unfoldable pub read_string : Reader Bytes
  read_string = do size ← read_pod size_of_size; read_counted size

-- as often as a count says
unfoldable pub repeat : {A : Type 0} → ℕ → Reader A → Reader (List A)
repeat zero g = pure []
repeat (suc n) g = do a ← g; more ← repeat n g; pure (a ∷ more)

-- `return cursor == text.size()` behind a reader that started at the text's beginning
abbrev pub to_the_end : {A : Type 0} → Outcome (A × Cursor) → Outcome A
to_the_end (ok (a, c)) = if ltb 0 (length c.rest) then refused else ok a
to_the_end refused = refused
to_the_end length_error = length_error

abbrev pub start : Bytes → Cursor
start text = record { at = 0; rest = text }
