-- ===== src/Core/Images/SlabRoundTrip.antt =====
-- The image of a slab is read back as it was written (core/alloc.cpp).
use mathlib.Core.List.{append_assoc, append-nil}
use agentc.Core.Reader.{
  Cursor, Outcome, ok, refused, Reader, ◌>>=◌, ◌>>◌, pure, le, size_of_size, append_pod,
  append_string, read_pod, to_the_end, start,
}
use agentc.Core.Reader.Reads.{
  Reads, length-le, ltb-false, Reads-bind, Reads-map, Reads-read_pod, Reads-repeat, step, concat,
  AllRead, take_all, drop_all, take-length, drop-length, Reads-pure,
}
use agentc.Core.Images.{
  ArenaSlabEncoding, raw_bytes, structured, ArenaStructuredSlot, ArenaSlabImage, encoding_byte,
  append_head, append_body, append_words, append_slots, serialize_arena_slab_image, take_left,
  read_slot, read_remaining, image_of, read_body, expect_words, read_encoding, read_slab_image,
  deserialize_arena_slab_image,
}
use agentc.Core.Images.RoundTrip.{Reads-reserve}
use agentc.Prelude.{
  ℕ, ◌+◌, ◌*◌, ◌%◌, ◌^◌, ◌<◌, ◌≤◌, ◌≡◌, refl, sym, ap, ◌∙◌, Bytes, List, [], ◌∷◌, ◌++◌, length, ltb,
  if◌then◌else◌, arith, length-append,
}

abbrev words_text : List ℕ → Bytes
words_text = concat (le size_of_size)

abbrev slot_text : ArenaStructuredSlot → Bytes
slot_text s = le 2 s.offset ++ (le size_of_size (length s.payload) ++ s.payload)

abbrev body_text : ArenaSlabEncoding → ArenaSlabImage → Bytes
body_text raw_bytes image = image.bytes
body_text structured image =
    le size_of_size (length image.structured_slots) ++ concat slot_text image.structured_slots

abbrev head_text : ArenaSlabImage → Bytes → Bytes
head_text image rest =
    le 1 (encoding_byte image.encoding)
    ++ (le 2 image.slab_index
        ++ (le 4 image.count
            ++ (le size_of_size (length image.in_use) ++ (words_text image.in_use ++ rest))))

append_words_lem : (words : List ℕ) (out : Bytes) → append_words words out ≡ out ++ words_text words
unfolding append_words append_pod
append_words_lem [] out = sym (append-nil out)
append_words_lem (w ∷ words) out =
    append_words_lem words (out ++ le 8 w) ∙ append_assoc out (le 8 w) (words_text words)

append_slots_lem :
    (slots : List ArenaStructuredSlot) (out : Bytes)
    → append_slots slots out ≡ out ++ concat slot_text slots
unfolding append_slots append_string append_pod
append_slots_lem [] out = sym (append-nil out)
append_slots_lem (s ∷ slots) out = append_slots_lem slots _ ∙ simp append_assoc

append_body_lem :
    (e : ArenaSlabEncoding) (image : ArenaSlabImage) (out extra : Bytes)
    → append_body e image out ++ extra ≡ out ++ (body_text e image ++ extra)
unfolding append_pod
append_body_lem raw_bytes image out extra = append_assoc out image.bytes extra
append_body_lem structured image out extra =
    ap (λ t. t ++ extra) (append_slots_lem image.structured_slots _) ∙ simp append_assoc

append_head_lem :
    (image : ArenaSlabImage) (rest : Bytes) → append_head image ++ rest ≡ head_text image rest
unfolding append_pod
append_head_lem image rest =
    ap (λ t. t ++ rest) (append_words_lem image.in_use _) ∙ simp append_assoc

serialize_slab_lem :
    (image : ArenaSlabImage) (extra : Bytes)
    → serialize_arena_slab_image image ++ extra
      ≡ head_text image (body_text image.encoding image ++ extra)
unfolding serialize_arena_slab_image
serialize_slab_lem image extra =
    append_body_lem image.encoding image (append_head image) extra ∙ append_head_lem image _

head_long : (image : ArenaSlabImage) (rest : Bytes) → 15 ≤ length (head_text image rest)
unfolding le
head_long image rest = omega arith

length-words_text : (words : List ℕ) → length (words_text words) ≡ 8 * length words
length-words_text [] = refl
length-words_text (w ∷ words) =
    length-append (le 8 w) (words_text words)
    ∙ omega (arith, length-le 8 w, length-words_text words)

abbrev pub WordsFit : List ℕ → Type 0
WordsFit [] = Unit
WordsFit (w ∷ words) = (w < 2 ^ 64) × WordsFit words

all_words :
    (words : List ℕ) → WordsFit words → AllRead (read_pod size_of_size) (le size_of_size) words
all_words [] h = tt
all_words (w ∷ words) h = (Reads-read_pod 8 w h.0, all_words words h.1)

Reads-read_encoding : (e : ArenaSlabEncoding) → Reads read_encoding (le 1 (encoding_byte e)) e
unfolding read_encoding le
Reads-read_encoding raw_bytes =
    Reads-bind _ _ (le 1 0) [] _ _ (Reads-read_pod 1 0 (omega arith)) (Reads-pure raw_bytes)
Reads-read_encoding structured =
    Reads-bind _ _ (le 1 1) [] _ _ (Reads-read_pod 1 1 (omega arith)) (Reads-pure structured)

abbrev with_bytes : ArenaSlabImage → Bytes → ArenaSlabImage
with_bytes image bytes = record image { bytes = bytes }

image_eq :
    (image : ArenaSlabImage) (e : ArenaSlabEncoding) (bytes : Bytes)
    (slots : List ArenaStructuredSlot)
    → image.encoding ≡ e
    → image.structured_slots ≡ slots
    → image_of e image.slab_index image.count image.in_use bytes slots ≡ with_bytes image bytes
image_eq image e bytes slots c h =
    ap (λ e'. image_of e' image.slab_index image.count image.in_use bytes slots) (sym c)
    ∙ ap (image_of image.encoding image.slab_index image.count image.in_use bytes) (sym h)

module _ (max_size : ℕ) where
  Reads-take_left : (s : Bytes) → length s ≤ max_size → Reads (take_left max_size (length s)) s s
  unfolding take_left
  Reads-take_left s h at rest = rw (
    ltb-false (length (s ++ rest)) (length s) (omega (arith, length-append s rest)),
    ltb-false max_size (length s) h,
    take-length s rest,
    drop-length s rest,
  )

  pub record SlotFits (s : ArenaStructuredSlot) : Type 0 where
    pub offset : s.offset < 65536
    pub held : length s.payload ≤ max_size
    pub counted : length s.payload < 2 ^ 64

  abbrev pub SlotsFit : List ArenaStructuredSlot → Type 0
  SlotsFit [] = Unit
  SlotsFit (s ∷ slots) = SlotFits s × SlotsFit slots

  Reads-read_slot :
      (s : ArenaStructuredSlot) → SlotFits s → Reads (read_slot max_size) (slot_text s) s
  unfolding read_slot
  Reads-read_slot s h = Reads-bind _ _ _ _ _ _ (Reads-read_pod 2 s.offset h.offset) (
      Reads-bind _ _ _ _ _ _ (Reads-read_pod 8 (length s.payload) h.counted) (
        Reads-map _ (λ payload. record { offset = s.offset; payload = payload }) _ _
          (Reads-take_left s.payload h.held)))

  all_slots :
      (slots : List ArenaStructuredSlot)
      → SlotsFit slots
      → AllRead (read_slot max_size) slot_text slots
  all_slots [] h = tt
  all_slots (s ∷ slots) h = (Reads-read_slot s h.0, all_slots slots h.1)

  -- A raw image has bytes and no slots, a structured one slots and no bytes.
  abbrev pub BodyFits : ArenaSlabEncoding → ArenaSlabImage → Type 0
  BodyFits raw_bytes image = (image.structured_slots ≡ []) × (length image.bytes ≤ max_size)
  BodyFits structured image =
      (image.bytes ≡ [])
      × (length image.structured_slots ≤ max_size)
      × (length image.structured_slots < 2 ^ 64)
      × SlotsFit image.structured_slots

  pub record SlabImageFits (image : ArenaSlabImage) : Type 0 where
    pub slab_index : image.slab_index < 65536
    pub count : image.count < 2 ^ 32
    pub held : length image.in_use ≤ max_size
    pub counted : length image.in_use < 2 ^ 64
    pub in_use : WordsFit image.in_use
    pub body : BodyFits image.encoding image

  -- what the reader of the body starts at
  abbrev body_start : ArenaSlabImage → Bytes → Cursor
  body_start image rest = record { at = 15 + length (words_text image.in_use); rest = rest }

  expect_words_lem :
      {B : Type 0} (k : Reader B) (words : List ℕ) (rest : Bytes)
      → (expect_words (length words) >> k) (record { at = 15; rest = words_text words ++ rest })
        ≡ k (record { at = 15; rest = words_text words ++ rest })
  unfolding expect_words ◌>>=◌
  expect_words_lem k words rest = rw (
      ltb-false (15 + length (words_text words ++ rest)) ((15 + length words * 8) % 2 ^ 64)
        (omega (arith, length-append (words_text words) rest, length-words_text words)))

  read_head :
      (image : ArenaSlabImage) (rest : Bytes)
      → SlabImageFits image
      → read_slab_image max_size (start (head_text image rest))
        ≡ read_body max_size image.encoding image.slab_index image.count image.in_use
            (body_start image rest)
  unfolding read_slab_image le
  read_head image rest h =
      step _ _ (le 1 (encoding_byte image.encoding)) _ 0 _ (Reads-read_encoding image.encoding)
      ∙ step _ _ (le 2 image.slab_index) _ 1 _ (Reads-read_pod 2 image.slab_index h.slab_index)
      ∙ step _ _ (le 4 image.count) _ 3 _ (Reads-read_pod 4 image.count h.count)
      ∙ step _ _ (le 8 (length image.in_use)) _ 7 _
          (Reads-read_pod 8 (length image.in_use) h.counted)
      ∙ expect_words_lem _ image.in_use rest
      ∙ step _ _ [] _ 15 _ (Reads-reserve max_size (length image.in_use) h.held)
      ∙ step _ _ _ _ 15 rest (Reads-repeat _ (le 8) image.in_use (all_words image.in_use h.in_use))

  raw_body :
      (index count : ℕ) (words : List ℕ) (at : ℕ) (bytes : Bytes)
      → length bytes ≤ max_size
      → to_the_end
          (read_body max_size raw_bytes index count words (record { at = at; rest = bytes }))
        ≡ ok (image_of raw_bytes index count words bytes [])
  unfolding read_body read_remaining take_left ◌>>=◌ pure
  raw_body index count words at bytes h = rw (
    ltb-false (length bytes) (length bytes) (omega arith),
    ltb-false max_size (length bytes) h,
    take_all bytes,
    drop_all bytes,
  )

  structured_body :
      (index count : ℕ) (words : List ℕ) (slots : List ArenaStructuredSlot)
      → length slots ≤ max_size
      → length slots < 2 ^ 64
      → SlotsFit slots
      → Reads
          (read_body max_size structured index count words)
          (le size_of_size (length slots) ++ concat slot_text slots)
          (image_of structured index count words [] slots)
  unfolding read_body
  structured_body index count words slots h k f =
      Reads-bind _ _ _ _ _ _ (Reads-read_pod 8 (length slots) k) (
        Reads-bind _ _ [] _ _ _ (Reads-reserve max_size (length slots) h) (
          Reads-map _ (image_of structured index count words []) _ _
            (Reads-repeat _ slot_text slots (all_slots slots f))))

  -- What stands behind an image belongs to its bytes when they are raw, and is refused otherwise.
  abbrev pub with_extra : ArenaSlabEncoding → ArenaSlabImage → Bytes → Outcome ArenaSlabImage
  with_extra raw_bytes image extra = ok (record image { bytes = image.bytes ++ extra })
  with_extra structured image extra = if ltb 0 (length extra) then refused else ok image

  read_body_lem :
      (e : ArenaSlabEncoding) (image : ArenaSlabImage) (at : ℕ) (extra : Bytes)
      → image.encoding ≡ e
      → BodyFits e image
      → length image.bytes + length extra ≤ max_size
      → to_the_end (
          read_body max_size e image.slab_index image.count image.in_use
            (record { at = at; rest = body_text e image ++ extra }))
        ≡ with_extra e image extra
  read_body_lem raw_bytes image at extra c h k =
      raw_body image.slab_index image.count image.in_use at (image.bytes ++ extra)
        (omega (arith, length-append image.bytes extra))
      ∙ ap ok (image_eq image raw_bytes (image.bytes ++ extra) [] c h.0)
  read_body_lem structured image at extra c h k =
      ap to_the_end (
        structured_body image.slab_index image.count image.in_use image.structured_slots h.1 h.2 h.3
          at extra)
      ∙ ap (λ i. if ltb 0 (length extra) then refused else ok i)
          (image_eq image structured [] image.structured_slots c refl
            ∙ ap (with_bytes image) (sym h.0))

  -- An image that was serialised is read back as it was; bytes behind it become part of a raw image,
  -- and make a structured one refused.
  pub deserialize-serialize_arena_slab_image :
      (image : ArenaSlabImage) (extra : Bytes)
      → SlabImageFits image
      → length image.bytes + length extra ≤ max_size
      → deserialize_arena_slab_image max_size (serialize_arena_slab_image image ++ extra)
        ≡ with_extra image.encoding image extra
  unfolding deserialize_arena_slab_image
  deserialize-serialize_arena_slab_image image extra h k =
      rw
        (
          serialize_slab_lem image extra,
          ltb-false (length (head_text image (body_text image.encoding image ++ extra))) 15
              (head_long image _),
          read_head image (body_text image.encoding image ++ extra) h,
        )
        (read_body_lem image.encoding image _ extra refl h.body k)
