-- ===== src/Edict/BlockAccumulator/Balanced.antt =====
-- The lines that the BlockAccumulator takes as complete.
use agentc.Edict.BlockAccumulator.{
  BlockAccumulator, is_opener, is_closer, popped, bracket, scan, is_blank, is_nil, is_complete,
  add_line,
}
use mathlib.Core.List.{append-nil, append_assoc}
use agentc.Prelude.{
  ℕ, Bool, true, false, ◌&&◌, List, [], ◌∷◌, ◌++◌, ◌==◌, Bytes, ◌≡◌, refl, ap, sym, subst, ◌∙◌,
  arith,
}

-- neither a bracket, nor a quote, nor the start of a comment
pub record IsPlain (pairs : List (ℕ × ℕ)) (c : ℕ) : Type 0 where
  pub no_opener : is_opener pairs c ≡ false
  pub no_closer : is_closer pairs c ≡ false
  pub no_quote : (c == 34) ≡ false
  pub no_comment : (c == 35) ≡ false

pub data Balanced (pairs : List (ℕ × ℕ)) : Bytes → Type 0 where
  done : Balanced pairs []
  plain : (c : ℕ) (s : Bytes) → IsPlain pairs c → Balanced pairs s → Balanced pairs (c ∷ s)
  nested :
      (o c : ℕ) (s t : Bytes)
      → is_opener pairs o ≡ true
      → (o == 34) ≡ false
      → (o == 35) ≡ false
      → is_opener pairs c ≡ false
      → is_closer pairs c ≡ true
      → (c == 34) ≡ false
      → (c == 35) ≡ false
      → Balanced pairs s
      → Balanced pairs t
      → Balanced pairs (o ∷ s ++ c ∷ t)

-- outside of strings and escapes
pub record IsOutside (a : BlockAccumulator) : Type 0 where
  pub string_off : a.in_string ≡ false
  pub escape_off : a.escape_next ≡ false

and_true : (x : Bool) → (x && true) ≡ x
and_true x = ground arith

scan_nil : (a : BlockAccumulator) → scan [] a ≡ a
unfolding scan
scan_nil a = refl

and_false : (x y : Bool) → y ≡ false → (x && y) ≡ false
and_false x y h = ground arith

-- the accumulator with both flags off
abbrev flat : BlockAccumulator → BlockAccumulator
flat a = record a { in_string = false; escape_next = false }

flat_eta : (a : BlockAccumulator) → IsOutside a → flat a ≡ a
flat_eta a v =
    ap (λ f. record a { in_string = f; escape_next = false }) (sym v.string_off)
    ∙ ap (λ f. record a { escape_next = f }) (sym v.escape_off)

scan-flat :
    (c : ℕ) (line : Bytes) (a : BlockAccumulator)
    → (c == 34) ≡ false
    → (c == 35) ≡ false
    → scan (c ∷ line) (flat a) ≡ scan line (bracket c (flat a))
unfolding scan
scan-flat c line a q h =
    let plain_text : (c == 92 && false) ≡ false = and_false (c == 92) false refl in
    rw (plain_text, q, h) refl

scan-outside :
    (c : ℕ) (line : Bytes) (a : BlockAccumulator)
    → IsOutside a
    → (c == 34) ≡ false
    → (c == 35) ≡ false
    → scan (c ∷ line) a ≡ scan line (bracket c a)
scan-outside c line a v q h =
    subst (λ x. scan (c ∷ line) x ≡ scan line (bracket c x)) (flat_eta a v) (scan-flat c line a q h)

bracket-plain :
    (c : ℕ) (a : BlockAccumulator)
    → is_opener a.bracket_pairs c ≡ false
    → is_closer a.bracket_pairs c ≡ false
    → bracket c a ≡ a
bracket-plain c a o h = rw (o, h) refl

bracket-open :
    (c : ℕ) (a : BlockAccumulator)
    → is_opener a.bracket_pairs c ≡ true
    → bracket c a ≡ record a { stack = c ∷ a.stack }
bracket-open c a o = rw (o) refl

bracket-close :
    (c : ℕ) (a : BlockAccumulator)
    → is_opener a.bracket_pairs c ≡ false
    → is_closer a.bracket_pairs c ≡ true
    → bracket c a ≡ record a { stack = popped a.stack }
bracket-close c a o h = rw (o, h) refl

scan-Balanced :
    (pairs : List (ℕ × ℕ)) (s : Bytes)
    → Balanced pairs s
    → (rest : Bytes) (a : BlockAccumulator) → IsOutside a
    → a.bracket_pairs ≡ pairs
    → scan (s ++ rest) a ≡ scan rest a
scan-Balanced pairs _ done rest a v e = refl
scan-Balanced pairs _ (plain c s p b) rest a v e =
    scan-outside c (s ++ rest) a v p.no_quote p.no_comment
    ∙ ap (scan (s ++ rest)) (bracket-plain c a (rw (e) p.no_opener) (rw (e) p.no_closer))
    ∙ scan-Balanced pairs s b rest a v e
scan-Balanced pairs _ (nested o c s t oo oq oh co cc' cq ch bs bt) rest a v e =
    let opened = record a { stack = o ∷ a.stack } in
    let inside : IsOutside opened = record {
      string_off = v.string_off;
      escape_off = v.escape_off;
    } in
    scan-outside o ((s ++ c ∷ t) ++ rest) a v oq oh
    ∙ ap (scan ((s ++ c ∷ t) ++ rest)) (bracket-open o a (rw (e) oo))
    ∙ ap (λ l. scan l opened) (append_assoc s (c ∷ t) rest)
    ∙ scan-Balanced pairs s bs (c ∷ t ++ rest) opened inside e
    ∙ scan-outside c (t ++ rest) opened inside cq ch
    ∙ ap (scan (t ++ rest)) (bracket-close c opened (rw (e) co) (rw (e) cc'))
    ∙ scan-Balanced pairs t bt rest a v e

is_nil-append : (xs ys : Bytes) (y : ℕ) → is_nil (xs ++ ys ++ y ∷ []) ≡ false
is_nil-append [] [] y = refl
is_nil-append [] (z ∷ ys) y = refl
is_nil-append (x ∷ xs) ys y = refl

-- Outside of strings and escapes, a line that is not blank, whose brackets are balanced, with no
-- quote and no comment, completes the block exactly where no bracket was open before it, and leaves the
-- open brackets as they were.
pub add_line-Balanced :
    (line : Bytes) (n : ℕ) (a : BlockAccumulator)
    → IsOutside a
    → Balanced a.bracket_pairs line
    → is_blank line ≡ false
    → ((add_line line n a).0 ≡ is_nil a.stack)
      × ((add_line line n a).1.stack ≡ a.stack)
      × (is_complete (add_line line n a).1 ≡ is_nil a.stack)
unfolding add_line is_complete
add_line-Balanced line n a v b h =
    let whole : scan line a ≡ a =
      ap (λ l. scan l a) (sym (append-nil line))
      ∙ scan-Balanced _ line b [] a v refl
      ∙ scan_nil a in
    let no_skip : (is_nil a.accumulated && is_blank line) ≡ false = and_false _ _ h in
    rw (no_skip, whole, v.string_off)
      (and_true _, refl, rw (is_nil-append a.accumulated line 32) (and_true _ ∙ and_true _))
