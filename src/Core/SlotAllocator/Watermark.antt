-- ===== src/Core/SlotAllocator/Watermark.antt =====
-- Above the high watermark no slot is in use (core/alloc.h).
use agentc.Core.Reader.{SlabId}
use agentc.Core.BlobAllocator.{num_slabs, null_id}
use agentc.Core.SlotAllocator.{
  slab_size, Slab, Slabs, refs, use_of, top_offset, top_of, high_watermark, current_high_watermark,
}
use agentc.Prelude.{
  ℕ, zero, suc, ◌<◌, ◌≡◌, refl, sym, ap, ◌∙◌, ◌⊎◌, inl, inr, false, Option, none, some, ltb, arith,
  Bool-cases, Option-cases, ltb→lt, lt→ltb, subst, ◌==◌, ==_iff,
}

-- The order of the slots: slab by slab, and in a slab by the offset.
abbrev pub IsAbove : SlabId → SlabId → Type 0
IsAbove mark si = (mark.index < si.index) ⊎ ((mark.index ≡ si.index) × (mark.offset < si.offset))

-- The highest used offset is used, and those above it are not.
pub record Top (n : ℕ) (in_use : ℕ → ℕ) (found : Option ℕ) : Type 0 where
  pub used : (o : ℕ) → found ≡ some o → (0 < in_use o) × (o < n)
  pub above : (o j : ℕ) → found ≡ some o → o < j → j < n → in_use j ≡ 0
  pub nothing : (j : ℕ) → found ≡ none → j < n → in_use j ≡ 0

-- The last of `suc n` offsets, or one of those before it.
at_last :
    (n : ℕ) (in_use : ℕ → ℕ) (j : ℕ)
    → j < suc n
    → ltb 0 (in_use n) ≡ false
    → (j < n → in_use j ≡ 0)
    → in_use j ≡ 0
at_last n in_use j l idle h = elim (Bool-cases (j == n)) [
  | inl same ↦ let p = (==_iff j n).0 same in ap in_use p ∙ ground arith
  | inr other ↦ h (ground arith)
]

top_offset-Top : (n : ℕ) (in_use : ℕ → ℕ) → Top n in_use (top_offset n in_use)
unfolding top_offset
top_offset-Top zero in_use = record {
  used = λ o e. absurd cc;
  above = λ o j e. absurd cc;
  nothing = λ j e l. absurd (omega arith);
}
top_offset-Top (suc n) in_use =
    let r = top_offset-Top n in_use in
    elim (Bool-cases (ltb 0 (in_use n))) [
      | inl busy ↦
          rw (top_offset, busy)
            (record {
              used = λ o e.
                  let p : n ≡ o = cc in
                  let l = ltb→lt 0 (in_use n) busy in (subst (λ m. 0 < in_use m) p l, omega arith);
              above = λ o j e k l. let p : n ≡ o = cc in absurd (omega arith);
              nothing = λ j e. absurd cc;
            })
      | inr idle ↦
          rw (top_offset, idle)
            (record {
              used = λ o e. let u = r.used o e in (u.0, omega (arith, u.1));
              above = λ o j e k l. at_last n in_use j l idle (λ m. r.above o j e k m);
              nothing = λ j e l. at_last n in_use j l idle (λ m. r.nothing j e m);
            })
    ]

-- Every used slot is at most the watermark, and a watermark that is not null is used.
pub record IsHighest (n : ℕ) (slabs : Slabs) (mark : SlabId) : Type 0 where
  pub beyond : (i : ℕ) → mark.index < i → i < n → (o : ℕ) → o < 1024 → use_of (slabs i) o ≡ 0
  pub level :
      (o : ℕ) → mark.index < n → mark.offset < o → o < 1024 → use_of (slabs mark.index) o ≡ 0
  pub used :
      (mark ≡ null_id)
      ⊎ ((mark.index < n) × (mark.offset < 1024) × (0 < use_of (slabs mark.index) mark.offset))

use_of_nothing : (slab : Option Slab) (o : ℕ) → top_of slab ≡ none → o < 1024 → use_of slab o ≡ 0
use_of_nothing none o e l = refl
use_of_nothing (some slab) o e l = (top_offset-Top slab_size slab.in_use).nothing o e l

use_of_top :
    (slab : Option Slab) (top : ℕ)
    → top_of slab ≡ some top
    → (0 < use_of slab top) × (top < 1024) × ((o : ℕ) → top < o → o < 1024 → use_of slab o ≡ 0)
use_of_top none top e = absurd cc
use_of_top (some slab) top e =
    let t = top_offset-Top slab_size slab.in_use in
    let (u, l) = t.used top e in (u, l, λ o k m. t.above top o e k m)

high_watermark-IsHighest : (n : ℕ) (slabs : Slabs) → IsHighest n slabs (high_watermark n slabs)
unfolding high_watermark
high_watermark-IsHighest zero slabs = record {
  beyond = λ i l k. absurd (omega arith);
  level = λ o l. absurd (omega arith);
  used = inl refl;
}
high_watermark-IsHighest (suc i) slabs =
    let r = high_watermark-IsHighest i slabs in
    elim (Option-cases (top_of (slabs i))) [
      | inl empty ↦
          rw (high_watermark, empty)
            (record {
              beyond = λ j l k o m. elim (Bool-cases (j == i)) [
                | inl same ↦
                    ap (λ x. use_of (slabs x) o) ((==_iff j i).0 same)
                    ∙ use_of_nothing (slabs i) o empty m
                | inr other ↦ r.beyond j l (ground arith) o m
              ];
              level = λ o l k m. elim (Bool-cases ((high_watermark i slabs).index == i)) [
                | inl same ↦
                    ap (λ x. use_of (slabs x) o) ((==_iff _ i).0 same)
                    ∙ use_of_nothing (slabs i) o empty m
                | inr other ↦ r.level o (ground arith) k m
              ];
              used = elim r.used [ inl z ↦ inl z | inr (l, m, u) ↦ inr (omega arith, m, u) ];
            })
      | inr (top, e) ↦
          let t = use_of_top (slabs i) top e in
          rw (high_watermark, e)
            (record {
              beyond = λ j l k. absurd (omega arith);
              level = λ o l k m. t.2 o k m;
              used = inr (omega arith, t.1, t.0);
            })
    ]

current-IsHighest : (slabs : Slabs) → IsHighest num_slabs slabs (current_high_watermark slabs)
unfolding current_high_watermark
current-IsHighest slabs = high_watermark-IsHighest num_slabs slabs

-- The references of a slot in range, and of none out of it.
pub refs_inside :
    (slabs : Slabs) (si : SlabId)
    → si.index < 4096
    → si.offset < 1024
    → refs slabs si ≡ use_of (slabs si.index) si.offset
unfolding refs
refs_inside slabs si h k = rw (refs, lt→ltb si.index 4096 h, lt→ltb si.offset 1024 k)

pub refs_range :
    (slabs : Slabs) (si : SlabId) → (refs slabs si ≡ 0) ⊎ ((si.index < 4096) × (si.offset < 1024))
unfolding refs
refs_range slabs si = ground arith

highest-refs_above :
    (slabs : Slabs) (mark si : SlabId)
    → IsHighest 4096 slabs mark
    → IsAbove mark si
    → si.index < 4096
    → si.offset < 1024
    → use_of (slabs si.index) si.offset ≡ 0
highest-refs_above slabs mark si r (inl l) h k = r.beyond si.index l h si.offset k
highest-refs_above slabs mark si r (inr (e, l)) h k =
    ap (λ x. use_of (slabs x) si.offset) (sym e) ∙ r.level si.offset (omega arith) l k

-- No slot above the high watermark is in use.
pub refs_above :
    (slabs : Slabs) (si : SlabId) → IsAbove (current_high_watermark slabs) si → refs slabs si ≡ 0
refs_above slabs si h = elim (refs_range slabs si) [
  | inl z ↦ z
  | inr (l, k) ↦
      refs_inside slabs si l k
      ∙ highest-refs_above slabs (current_high_watermark slabs) si (current-IsHighest slabs) h l k
]

-- The high watermark is the null id or a slot in use.
pub watermark_used :
    (slabs : Slabs)
    → (current_high_watermark slabs ≡ null_id)
      ⊎ ((current_high_watermark slabs).index < 4096)
        × ((current_high_watermark slabs).offset < 1024)
        × (0 < refs slabs (current_high_watermark slabs))
watermark_used slabs = elim (current-IsHighest slabs).used [
  | inl z ↦ inl z
  | inr (l, m, u) ↦ inr (l, m, rw (refs_inside slabs (current_high_watermark slabs) l m) u)
]

pub watermark_index : (slabs : Slabs) → (current_high_watermark slabs).index < 4096
watermark_index slabs = elim (watermark_used slabs) [ inl z ↦ rw z (omega arith) | inr u ↦ u.0 ]
