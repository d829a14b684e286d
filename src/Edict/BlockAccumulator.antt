-- ===== src/Edict/BlockAccumulator.antt =====
-- BlockAccumulator (edict/block_accumulator.h, edict/block_accumulator.cpp), which collects the lines
-- of a block in the interactive loop. The warnings that it prints are not modelled. `stack` has its
-- top first.
pub mod Balanced
use agentc.Prelude.{
  ℕ, Bool, true, false, not, ◌&&◌, ◌||◌, List, [], ◌∷◌, ◌++◌, ◌==◌, if◌then◌else◌, Bytes, codes,
}

pub record BlockAccumulator : Type 0 where
  pub bracket_pairs : List (ℕ × ℕ)
  pub accumulated : Bytes
  pub stack : Bytes
  pub in_string : Bool
  pub escape_next : Bool
  pub start_line : ℕ

abbrev pub pairs_of : Bytes → List (ℕ × ℕ)
pairs_of [] = []
pairs_of (x ∷ []) = []
pairs_of (x ∷ y ∷ rest) = (x, y) ∷ pairs_of rest

unfoldable pub new_accumulator : Bytes → BlockAccumulator
new_accumulator pairs = record {
  bracket_pairs = pairs_of pairs;
  accumulated = [];
  stack = [];
  in_string = false;
  escape_next = false;
  start_line = 0;
}

unfoldable pub is_opener : List (ℕ × ℕ) → ℕ → Bool
is_opener [] c = false
is_opener ((o, s) ∷ pairs) c = let rest = is_opener pairs c in if o == c then true else rest

unfoldable pub is_closer : List (ℕ × ℕ) → ℕ → Bool
is_closer [] c = false
is_closer ((o, s) ∷ pairs) c = let rest = is_closer pairs c in if s == c then true else rest

-- `stack.pop_back()` where there is an entry
abbrev pub popped : Bytes → Bytes
popped [] = []
popped (x ∷ xs) = xs

abbrev pub bracket : ℕ → BlockAccumulator → BlockAccumulator
bracket c a =
    if is_opener a.bracket_pairs c
    then record a { stack = c ∷ a.stack }
    else if is_closer a.bracket_pairs c
    then record a { stack = popped a.stack }
    else a

-- What a quote, 34, does to the flag.
abbrev pub quoted : ℕ → Bool → Bool
quoted c in_string = if c == 34 then not in_string else in_string

-- the loop over the characters of a line; 92 is the backslash and 35 the `#`
unfoldable pub scan : Bytes → BlockAccumulator → BlockAccumulator
scan [] a = a
scan (c ∷ line) a =
    if a.escape_next
    then scan line (record a { escape_next = false })
    else if c == 92 && a.in_string
    then scan line (record a { escape_next = true })
    else if quoted c a.in_string
    then scan line (record a { in_string = true })
    else if c == 35
    then record a { in_string = false }
    else scan line (bracket c (record a { in_string = false }))

-- only blanks and tabs, or a comment behind them
unfoldable pub is_blank : Bytes → Bool
is_blank [] = true
is_blank (c ∷ line) = let rest = is_blank line in if c == 32 || c == 9 then rest else c == 35

abbrev pub is_nil : Bytes → Bool
is_nil [] = true
is_nil (x ∷ xs) = false

unfoldable pub is_complete : BlockAccumulator → Bool
is_complete a = is_nil a.stack && not a.in_string && not (is_nil a.accumulated)

unfoldable pub is_empty : BlockAccumulator → Bool
is_empty a = is_nil a.accumulated

unfoldable pub get_block : BlockAccumulator → Bytes
get_block a = a.accumulated

-- the line after its scan is added to what is there
abbrev pub append_line : Bytes → ℕ → BlockAccumulator → BlockAccumulator
append_line line line_num a = record a {
  start_line = if is_nil a.accumulated then line_num else a.start_line;
  accumulated = a.accumulated ++ line ++ 32 ∷ [];
}

unfoldable pub add_line : Bytes → ℕ → BlockAccumulator → Bool × BlockAccumulator
add_line line line_num a =
    let scanned = scan line a in
    if is_nil a.accumulated && is_blank line
    then (false, scanned)
    else (is_nil scanned.stack && not scanned.in_string, append_line line line_num scanned)

unfoldable pub clear : BlockAccumulator → BlockAccumulator
clear a = record a {
  accumulated = [];
  stack = [];
  in_string = false;
  escape_next = false;
  start_line = 0;
}
