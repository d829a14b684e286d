-- ===== src/Kanren/Stream/Places.antt =====
-- The streams of a conde or of interleaveStreams (kanren/kanren.cpp), by their places.
use agentc.Kanren.Goal.{Engine}
use agentc.Kanren.Stream.{Stream, Slots, no_slots, factory, running, put, begin, stream_at}
use agentc.Kanren.Stream.Answers.{Remains, RemainsFrom, Gives, Solves, begin-Solves, begin-Remains}
use agentc.Prelude.{ℕ, zero, suc, ◌≡◌, ◌⊎◌, inl, inr, refl, sym, subst, Option, none, some}

behind_first :
    {S : Type 0} (first : S → Type 0) {before after : S → Type 0} {o : Option S}
    → Gives before after o
    → Gives (λ x. first x ⊎ before x) (λ x. first x ⊎ after x) o
behind_first first g = record {
  splits = λ x r. elim r [
    | inl p ↦ inr (inl p)
    | inr p ↦ elim (g.splits x p) [ inl found ↦ inl found | inr left ↦ inr (inr left) ]
  ];
  given = λ x p. inr (g.given x p);
  kept = λ x r. elim r [ inl p ↦ inl p | inr p ↦ inr (g.kept x p) ];
}

module _ {T R S : Type 0} (e : Engine T R S) where
  unwrap : (st other : Stream T R S) → some other ≡ some st → other ≡ st
  unwrap st other q = cc

  -- the stream at a place, out of those from the place on
  pub from-at :
      (i : ℕ) (slots : Slots T R S) (st : Stream T R S)
      → stream_at e i slots ≡ some st
      → (x : S) → RemainsFrom e i slots x
      → Remains e st x ⊎ RemainsFrom e (suc i) slots x
  from-at i no_slots st q x r = cc
  from-at zero (factory g s slots) st q x (inl r) =
      inl (subst (λ c. Remains e c x) (unwrap st (begin e g s) q) (begin-Remains e g s x r))
  from-at zero (factory g s slots) st q x (inr r) = inr r
  from-at zero (running old slots) st q x (inl r) =
      inl (subst (λ c. Remains e c x) (unwrap st old q) r)
  from-at zero (running old slots) st q x (inr r) = inr r
  from-at (suc i) (factory g s slots) st q x r = from-at i slots st q x r
  from-at (suc i) (running old slots) st q x r = from-at i slots st q x r

  pub at-from :
      (i : ℕ) (slots : Slots T R S) (st : Stream T R S)
      → stream_at e i slots ≡ some st
      → (x : S) → Remains e st x
      → RemainsFrom e i slots x
  at-from i no_slots st q x r = cc
  at-from zero (factory g s slots) st q x r =
      inl (begin-Solves e g s x (subst (λ c. Remains e c x) (sym (unwrap st (begin e g s) q)) r))
  at-from zero (running old slots) st q x r =
      inl (subst (λ c. Remains e c x) (sym (unwrap st old q)) r)
  at-from (suc i) (factory g s slots) st q x r = at-from i slots st q x r
  at-from (suc i) (running old slots) st q x r = at-from i slots st q x r

  pub nothing-past :
      (i : ℕ) (slots : Slots T R S)
      → stream_at e i slots ≡ none
      → (x : S) → RemainsFrom e i slots x
      → ⊥
  nothing-past i no_slots q x r = r
  nothing-past zero (factory g s slots) q x r = cc
  nothing-past zero (running old slots) q x r = cc
  nothing-past (suc i) (factory g s slots) q x r = nothing-past i slots q x r
  nothing-past (suc i) (running old slots) q x r = nothing-past i slots q x r

  pub from-later :
      (i : ℕ) (slots : Slots T R S) (x : S)
      → RemainsFrom e (suc i) slots x
      → RemainsFrom e i slots x
  from-later i no_slots x r = r
  from-later zero (factory g s slots) x r = inr r
  from-later zero (running old slots) x r = inr r
  from-later (suc i) (factory g s slots) x r = from-later i slots x r
  from-later (suc i) (running old slots) x r = from-later i slots x r

  -- A stream that is put at a place is there, and those behind it are as before.
  pub stream_at-put :
      (i : ℕ) (slots : Slots T R S) (st after : Stream T R S)
      → stream_at e i slots ≡ some st
      → stream_at e i (put i after slots) ≡ some after
  stream_at-put i no_slots st after q = cc
  stream_at-put zero (factory g s slots) st after q = refl
  stream_at-put zero (running old slots) st after q = refl
  stream_at-put (suc i) (factory g s slots) st after q = stream_at-put i slots st after q
  stream_at-put (suc i) (running old slots) st after q = stream_at-put i slots st after q

  pub later-put :
      (i : ℕ) (slots : Slots T R S) (st : Stream T R S)
      → RemainsFrom e (suc i) (put i st slots) ≡ RemainsFrom e (suc i) slots
  later-put i no_slots st = refl
  later-put zero (factory g s slots) st = refl
  later-put zero (running old slots) st = refl
  later-put (suc i) (factory g s slots) st = later-put i slots st
  later-put (suc i) (running old slots) st = later-put i slots st

  module _ (st after : Stream T R S) (o : Option S)
      (g : Gives (Remains e st) (Remains e after) o) where
    -- A pull at a place, seen from that place on.
    pub put-Gives_from :
        (i : ℕ) (slots : Slots T R S)
        → stream_at e i slots ≡ some st
        → Gives (RemainsFrom e i slots) (RemainsFrom e i (put i after slots)) o
    put-Gives_from i slots q =
        let there = stream_at-put i slots st after q in
        let later = later-put i slots after in
        record {
          splits = λ x r. elim (from-at i slots st q x r) [
            | inl here ↦ elim (g.splits x here) [
              | inl found ↦ inl found
              | inr left ↦ inr (at-from i (put i after slots) after there x left)
            ]
            | inr behind ↦
                inr (from-later i (put i after slots) x (subst (λ f. f x) (sym later) behind))
          ];
          given = λ x p. at-from i slots st q x (g.given x p);
          kept = λ x r. elim (from-at i (put i after slots) after there x r) [
            | inl here ↦ at-from i slots st q x (g.kept x here)
            | inr behind ↦ from-later i slots x (subst (λ f. f x) later behind)
          ];
        }

    -- A pull at a place, seen from the first place on.
    pub put-Gives :
        (i : ℕ) (slots : Slots T R S)
        → stream_at e i slots ≡ some st
        → Gives (RemainsFrom e 0 slots) (RemainsFrom e 0 (put i after slots)) o
    put-Gives i no_slots q = cc
    put-Gives zero (factory h s slots) q = put-Gives_from 0 (factory h s slots) q
    put-Gives zero (running old slots) q = put-Gives_from 0 (running old slots) q
    put-Gives (suc i) (factory h s slots) q = behind_first (Solves e h s) (put-Gives i slots q)
    put-Gives (suc i) (running old slots) q = behind_first (Remains e old) (put-Gives i slots q)
