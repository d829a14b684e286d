-- ===== src/Root1/Publication.antt =====
-- PublicationDescriptor, and the test of a publication against its manifest
-- (core/root1_resource_broker.cpp). The file system is the parameter `read_file`, which gives a file's
-- bytes, or nothing where the file cannot be opened.
use Prim.Native.Nat.{bit_xor}
use agentc.Root1.Descriptor.{SlabPayloadHandle}
use agentc.Prelude.{
  ℕ, zero, suc, ◌+◌, ◌*◌, ◌/◌, ◌%◌, ◌^◌, Bool, true, false, ◌&&◌, ◌||◌, List, [], ◌∷◌, ◌++◌, Option,
  none, some, String, ltb, ◌==◌, if◌then◌else◌, Bytes, codes, bytes_eq,
}

pub data PublicationPermission : Type 0 where
  no_permission read_only : PublicationPermission

pub record PublicationDescriptor : Type 0 where
  pub layer_id : ℕ
  pub owner : ℕ
  pub epoch : ℕ
  pub manifest_path : Bytes
  pub manifest_hash : Bytes
  pub root_descriptor : Bytes
  pub root_handle : SlabPayloadHandle
  pub permission : PublicationPermission
  pub immutable : Bool

abbrev pub fnv_byte : ℕ → ℕ → ℕ
fnv_byte hash byte = (bit_xor hash byte * 1099511628211) % 2 ^ 64

abbrev pub fnv_loop : ℕ → Bytes → ℕ
fnv_loop hash [] = hash
fnv_loop hash (byte ∷ bytes) = fnv_loop (fnv_byte hash byte) bytes

abbrev pub hex_digit : ℕ → ℕ
hex_digit d = if ltb d 10 then 48 + d else 87 + d

-- `n` hexadecimal digits, padded with zeros
abbrev pub hex : ℕ → ℕ → Bytes
hex zero value = []
hex (suc n) value = hex n (value / 16) ++ hex_digit (value % 16) ∷ []

unfoldable pub fnv1a64_hex : Bytes → Bytes
fnv1a64_hex bytes = codes "fnv1a64:" ++ hex 16 (fnv_loop 14695981039346656037 bytes)

-- std::to_string; a number of 64 bits has at most 20 digits
abbrev pub digits : ℕ → ℕ → Bytes
digits zero value = []
digits (suc n) value =
    let front = digits n (value / 10) in
    if ltb value 10 then (48 + value) ∷ [] else front ++ (48 + value % 10) ∷ []

unfoldable pub json_number_field : String → ℕ → Bytes
json_number_field name value = 34 ∷ codes name ++ codes "\":" ++ digits 20 value

unfoldable pub json_string_field : String → Bytes → Bytes
json_string_field name value = 34 ∷ codes name ++ codes "\":\"" ++ value ++ 34 ∷ []

unfoldable pub starts_with : Bytes → Bytes → Bool
starts_with [] text = true
starts_with (x ∷ xs) [] = false
starts_with (x ∷ xs) (y ∷ ys) = x == y && starts_with xs ys

-- `text.find(part) != npos`
unfoldable pub contains : Bytes → Bytes → Bool
unfolding starts_with
contains part [] = starts_with part []
contains part (y ∷ ys) = let rest = contains part ys in starts_with part (y ∷ ys) || rest

abbrev pub is_nil : Bytes → Bool
is_nil [] = true
is_nil (x ∷ xs) = false

-- the first failed check's message, of checks in order
abbrev pub first_failure : List (Bool × String) → Option String
first_failure [] = none
first_failure ((ok, message) ∷ checks) = if ok then first_failure checks else some message

-- `none` is the result true, and a message the result false with `*error` set to it
unfoldable pub manifest_contains_publication_metadata :
    Bytes → PublicationDescriptor → Option String
manifest_contains_publication_metadata manifest publication = first_failure (
    (
      contains (json_number_field "layer_id" publication.layer_id) manifest,
      "publication manifest layer mismatch",
    )
    ∷ (
      contains (json_number_field "epoch" publication.epoch) manifest,
      "publication manifest epoch mismatch",
    )
    ∷ (
      contains (json_string_field "permission" (codes "read_only")) manifest,
      "publication manifest permission mismatch",
    )
    ∷ (contains (codes "\"immutable\":true") manifest, "publication manifest immutability mismatch")
    ∷ (
      is_nil publication.root_descriptor
          || contains (json_string_field "root_descriptor" publication.root_descriptor) manifest,
      "publication manifest root descriptor mismatch",
    )
    ∷ (
      contains (json_number_field "root_layer_id" publication.layer_id) manifest,
      "publication manifest root layer mismatch",
    )
    ∷ (
      contains (json_number_field "root_slab_id" publication.root_handle.slab_id) manifest,
      "publication manifest root slab mismatch",
    )
    ∷ (
      contains (json_number_field "root_offset" publication.root_handle.offset) manifest,
      "publication manifest root offset mismatch",
    )
    ∷ (
      contains (json_number_field "root_generation" publication.root_handle.generation) manifest,
      "publication manifest root generation mismatch",
    )
    ∷ [])

unfoldable pub validate_publication_manifest :
    (Bytes → Option Bytes) → PublicationDescriptor → Option String
validate_publication_manifest read_file publication = elim (read_file publication.manifest_path) [
  | none ↦ some "publication manifest cannot be opened"
  | some manifest ↦
      (if bytes_eq (fnv1a64_hex manifest) publication.manifest_hash
        then manifest_contains_publication_metadata manifest publication
        else some "publication manifest hash mismatch")
]
