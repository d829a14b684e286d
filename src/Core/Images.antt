-- ===== src/Core/Images.antt =====
-- The images in which an arena is saved (core/alloc.cpp): the root state, with its named anchors, and
-- the image of a slab, as raw bytes or slot by slot.
pub mod RoundTrip
pub mod SlabRoundTrip
use agentc.Core.Reader.{
  SlabId, Cursor, Outcome, ok, refused, length_error, Reader, ◌>>=◌, ◌>>◌, pure, refuse, overflow,
  le, size_of_size, append_pod, append_string, append_slab_id, read_pod, read_slab_id, read_counted,
  read_string, repeat, to_the_end, start, advance,
}
use agentc.Prelude.{
  ℕ, ◌+◌, ◌*◌, ◌%◌, ◌^◌, Bool, Bytes, List, [], ◌∷◌, ◌++◌, length, take, ltb, ◌==◌, if◌then◌else◌,
}

pub record ArenaRootAnchor : Type 0 where
  pub name : Bytes
  pub value_sid : SlabId

pub record ArenaRootState : Type 0 where
  pub version : ℕ
  pub anchors : List ArenaRootAnchor

pub data ArenaSlabEncoding : Type 0 where
  raw_bytes structured : ArenaSlabEncoding

pub record ArenaStructuredSlot : Type 0 where
  pub offset : ℕ
  pub payload : Bytes

pub record ArenaSlabImage : Type 0 where
  pub slab_index : ℕ
  pub count : ℕ
  pub in_use : List ℕ
  pub encoding : ArenaSlabEncoding
  pub bytes : Bytes
  pub structured_slots : List ArenaStructuredSlot

-- serializeArenaRootState
abbrev pub append_anchor : ArenaRootAnchor → Bytes → Bytes
append_anchor anchor out = append_slab_id anchor.value_sid (append_string anchor.name out)

unfoldable pub append_anchors : List ArenaRootAnchor → Bytes → Bytes
append_anchors [] out = out
append_anchors (anchor ∷ anchors) out = append_anchors anchors (append_anchor anchor out)

unfoldable pub serialize_arena_root_state : ArenaRootState → Bytes
unfolding append_anchors append_pod
serialize_arena_root_state state =
    append_anchors state.anchors
      (append_pod size_of_size (length state.anchors) (append_pod 4 state.version []))

-- serializeArenaSlabImage
abbrev pub encoding_byte : ArenaSlabEncoding → ℕ
encoding_byte raw_bytes = 0
encoding_byte structured = 1

unfoldable pub append_words : List ℕ → Bytes → Bytes
append_words [] out = out
append_words (word ∷ words) out = append_words words (append_pod size_of_size word out)

unfoldable pub append_slots : List ArenaStructuredSlot → Bytes → Bytes
append_slots [] out = out
append_slots (slot ∷ slots) out =
    append_slots slots (append_string slot.payload (append_pod 2 slot.offset out))

abbrev pub append_head : ArenaSlabImage → Bytes
append_head image = append_words image.in_use (
    append_pod size_of_size (length image.in_use) (
      append_pod 4 image.count
        (append_pod 2 image.slab_index (append_pod 1 (encoding_byte image.encoding) []))))

abbrev pub append_body : ArenaSlabEncoding → ArenaSlabImage → Bytes → Bytes
append_body raw_bytes image out = out ++ image.bytes
append_body structured image out =
    append_slots image.structured_slots
      (append_pod size_of_size (length image.structured_slots) out)

unfoldable pub serialize_arena_slab_image : ArenaSlabImage → Bytes
unfolding append_words append_slots
serialize_arena_slab_image image = append_body image.encoding image (append_head image)

-- `text.size() < expected`, where the product and the sum wrap
unfoldable pub expect_words : ℕ → Reader (Unit {0})
expect_words n c =
    if ltb (c.at + length c.rest) ((15 + n * 8) % 2 ^ 64) then refused else ok (tt, c)

unfoldable pub read_encoding : Reader ArenaSlabEncoding
read_encoding = do
  byte ← read_pod 1
  if byte == 0 then pure raw_bytes else if byte == 1 then pure structured else refuse

abbrev pub image_of :
    ArenaSlabEncoding → ℕ → ℕ → List ℕ → Bytes → List ArenaStructuredSlot → ArenaSlabImage
image_of encoding index count in_use bytes slots = record {
  slab_index = index;
  count = count;
  in_use = in_use;
  encoding = encoding;
  bytes = bytes;
  structured_slots = slots;
}

-- `max_size` bounds what a string or a vector can hold.
module _ (max_size : ℕ) where
  -- `reserve` and `resize`
  unfoldable pub reserve : ℕ → Reader (Unit {0})
  reserve n = if ltb max_size n then overflow else pure tt

  unfoldable pub read_anchor : Reader ArenaRootAnchor
  read_anchor = do
    name ← read_string max_size
    sid ← read_slab_id
    pure (record { name = name; value_sid = sid })

  unfoldable pub read_root_state : Reader ArenaRootState
  unfolding reserve read_anchor
  read_root_state = do
    version ← read_pod 4
    count ← read_pod size_of_size
    reserve count
    anchors ← repeat count read_anchor
    pure (record { version = version; anchors = anchors })

  unfoldable pub deserialize_arena_root_state : Bytes → Outcome ArenaRootState
  unfolding read_root_state
  deserialize_arena_root_state text = to_the_end (read_root_state (start text))

  -- the bytes that a memcpy takes, of those left
  unfoldable pub take_left : ℕ → Reader Bytes
  take_left size c =
      if ltb (length c.rest) size
      then refused
      else if ltb max_size size
      then length_error
      else ok (take size c.rest, advance size c)

  unfoldable pub read_slot : Reader ArenaStructuredSlot
  unfolding take_left
  read_slot = do
    offset ← read_pod 2
    size ← read_pod size_of_size
    payload ← take_left size
    pure (record { offset = offset; payload = payload })

  -- `remaining` bytes, to the end of the text
  unfoldable pub read_remaining : Reader Bytes
  unfolding take_left
  read_remaining c = take_left (length c.rest) c

  unfoldable pub read_body : ArenaSlabEncoding → ℕ → ℕ → List ℕ → Reader ArenaSlabImage
  unfolding reserve read_remaining read_slot
  read_body raw_bytes index count in_use = do
    bytes ← read_remaining
    pure (image_of raw_bytes index count in_use bytes [])
  read_body structured index count in_use = do
    slot_count ← read_pod size_of_size
    reserve slot_count
    slots ← repeat slot_count read_slot
    pure (image_of structured index count in_use [] slots)

  unfoldable pub read_slab_image : Reader ArenaSlabImage
  unfolding read_encoding expect_words reserve read_body
  read_slab_image = do
    encoding ← read_encoding
    index ← read_pod 2
    count ← read_pod 4
    words ← read_pod size_of_size
    expect_words words
    reserve words
    in_use ← repeat words (read_pod size_of_size)
    read_body encoding index count in_use

  -- A raw image reaches to the end of the text, so that it passes the test too.
  unfoldable pub deserialize_arena_slab_image : Bytes → Outcome ArenaSlabImage
  unfolding read_slab_image
  deserialize_arena_slab_image text =
      if ltb (length text) 15 then refused else to_the_end (read_slab_image (start text))
