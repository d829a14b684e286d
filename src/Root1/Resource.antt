-- ===== src/Root1/Resource.antt =====
-- ResourceKey and the word of a ResourceState: the owner's id in 63 bits and the contended bit above.
use agentc.Prelude.{
  ℕ, ◌+◌, ◌%◌, ◌/◌, ◌^◌, ◌≡◌, ◌↔◌, Bool, true, false, not, ◌&&◌, ◌==◌, if◌then◌else◌, Eq, arith,
}

pub record ResourceKey : Type 0 where
  pub layer_id : ℕ
  pub slab_id : ℕ
  pub offset : ℕ
  pub allocator_kind : ℕ
  pub field_id : ℕ
  pub generation : ℕ

abbrev pub key_beq : ResourceKey → ResourceKey → Bool
key_beq key other =
    key.layer_id == other.layer_id
    && key.slab_id == other.slab_id
    && key.offset == other.offset
    && key.allocator_kind == other.allocator_kind
    && key.field_id == other.field_id
    && key.generation == other.generation

pub key_beq_iff : (a b : ResourceKey) → (key_beq a b ≡ true) ↔ (a ≡ b)
key_beq_iff a b = (λ h. grind arith, λ h. grind arith)

instance abbrev pub key_eq : Eq ResourceKey
key_eq = record { beq = key_beq; beq_iff = key_beq_iff }

abbrev pub contended_bit : ℕ
contended_bit = 2 ^ 63

-- `raw() & kOwnerMask`
abbrev pub owner : ℕ → ℕ
owner word = word % contended_bit

abbrev pub is_owned : ℕ → Bool
is_owned word = not (owner word == 0)

abbrev pub is_contended : ℕ → Bool
is_contended word = not ((word / contended_bit) % 2 == 0)

-- `word | kContendedBit`
abbrev pub contend : ℕ → ℕ
contend word = word % contended_bit + contended_bit

-- `compare_exchange_strong` from 0: whether it stored, and the word after it
unfoldable pub try_acquire_unlocked : ℕ → ℕ → Bool × ℕ
try_acquire_unlocked word participant = if word == 0 then (true, participant) else (false, word)
