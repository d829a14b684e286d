-- ===== src/Core/Images/RoundTrip.antt =====
-- What was serialised is what is read back (core/alloc.cpp).
use mathlib.Core.List.{append_assoc, append-nil}
use agentc.Core.Reader.{
  SlabId, ok, refused, le, size_of_size, append_pod, append_string, append_slab_id,
}
use agentc.Core.Reader.Reads.{
  Reads, ltb-false, Reads-pure, Reads-bind, Reads-map, Reads-read_pod, Reads-read_slab_id,
  Reads-read_string, Reads-repeat, concat, AllRead,
}
use agentc.Core.Images.{
  ArenaRootAnchor, ArenaRootState, append_anchor, append_anchors, serialize_arena_root_state,
  reserve, read_anchor, read_root_state, deserialize_arena_root_state,
}
use agentc.Prelude.{
  ℕ, ◌^◌, ◌<◌, ◌≤◌, ◌≡◌, sym, ◌∙◌, Bytes, List, [], ◌∷◌, ◌++◌, length, ltb, if◌then◌else◌,
}

abbrev anchor_text : ArenaRootAnchor → Bytes
anchor_text a =
    (le size_of_size (length a.name) ++ a.name)
    ++ (le 2 a.value_sid.index ++ le 2 a.value_sid.offset)

append_anchor_lem : (a : ArenaRootAnchor) (out : Bytes) → append_anchor a out ≡ out ++ anchor_text a
unfolding append_slab_id append_string append_pod
append_anchor_lem a out = simp append_assoc

append_anchors_lem :
    (anchors : List ArenaRootAnchor) (out : Bytes)
    → append_anchors anchors out ≡ out ++ concat anchor_text anchors
unfolding append_anchors
append_anchors_lem [] out = sym (append-nil out)
append_anchors_lem (a ∷ anchors) out =
    rw (append_anchors_lem anchors (append_anchor a out), append_anchor_lem a out)
      (append_assoc out _ _)

abbrev root_text : ArenaRootState → Bytes
root_text s = le 4 s.version ++ (le size_of_size (length s.anchors) ++ concat anchor_text s.anchors)

serialize_root_lem : (s : ArenaRootState) → serialize_arena_root_state s ≡ root_text s
unfolding serialize_arena_root_state append_pod
serialize_root_lem s = append_anchors_lem s.anchors _ ∙ append_assoc (le 4 s.version) _ _

abbrev pub IsSlabId : SlabId → Type 0
IsSlabId sid = (sid.index < 65536) × (sid.offset < 65536)

module _ (max_size : ℕ) where
  -- An anchor's name can be held, and is counted in 64 bits.
  pub record AnchorFits (a : ArenaRootAnchor) : Type 0 where
    pub held : length a.name ≤ max_size
    pub counted : length a.name < 2 ^ 64
    pub sid : IsSlabId a.value_sid

  abbrev pub AnchorsFit : List ArenaRootAnchor → Type 0
  AnchorsFit [] = Unit
  AnchorsFit (a ∷ anchors) = AnchorFits a × AnchorsFit anchors

  pub record RootStateFits (s : ArenaRootState) : Type 0 where
    pub version : s.version < 2 ^ 32
    pub held : length s.anchors ≤ max_size
    pub counted : length s.anchors < 2 ^ 64
    pub anchors : AnchorsFit s.anchors

  Reads-read_anchor :
      (a : ArenaRootAnchor) → AnchorFits a → Reads (read_anchor max_size) (anchor_text a) a
  unfolding read_anchor append_slab_id append_pod
  Reads-read_anchor a h =
      Reads-bind _ _ _ _ _ _ (Reads-read_string max_size a.name h.held h.counted) (
        Reads-map _ (λ sid. record { name = a.name; value_sid = sid }) _ _
          (Reads-read_slab_id a.value_sid h.sid.0 h.sid.1))

  all_anchors :
      (anchors : List ArenaRootAnchor)
      → AnchorsFit anchors
      → AllRead (read_anchor max_size) anchor_text anchors
  all_anchors [] h = tt
  all_anchors (a ∷ anchors) h = (Reads-read_anchor a h.0, all_anchors anchors h.1)

  pub Reads-reserve : (n : ℕ) → n ≤ max_size → Reads (reserve max_size n) [] tt
  unfolding reserve
  Reads-reserve n h = rw (ltb-false max_size n h) (Reads-pure tt)

  Reads-read_root_state :
      (s : ArenaRootState) → RootStateFits s → Reads (read_root_state max_size) (root_text s) s
  unfolding read_root_state
  Reads-read_root_state s h = Reads-bind _ _ _ _ _ _ (Reads-read_pod 4 s.version h.version) (
      Reads-bind _ _ _ _ _ _ (Reads-read_pod 8 (length s.anchors) h.counted) (
        Reads-bind _ _ [] _ _ _ (Reads-reserve (length s.anchors) h.held) (
          Reads-map _ (λ anchors. record { version = s.version; anchors = anchors }) _ _
            (Reads-repeat _ anchor_text s.anchors (all_anchors s.anchors h.anchors)))))

  -- A root state that was serialised is read back as it was, and with any bytes behind it the text is
  -- refused.
  pub deserialize-serialize_arena_root_state :
      (s : ArenaRootState) (extra : Bytes)
      → RootStateFits s
      → deserialize_arena_root_state max_size (serialize_arena_root_state s ++ extra)
        ≡ (if ltb 0 (length extra) then refused else ok s)
  unfolding deserialize_arena_root_state
  deserialize-serialize_arena_root_state s extra h =
      rw (serialize_root_lem s, Reads-read_root_state s h 0 extra)
