-- ===== src/Kanren/Stream/Rounds.antt =====
-- A pull of interleaveStreams (kanren/kanren.cpp): a round over its streams, from the index on.
use agentc.Kanren.Goal.{Engine}
use agentc.Kanren.Stream.{
  Stream, Slots, no_slots, factory, running, size, put, Pull, begin, stream_at, after,
  interleaved_next, check,
}
use agentc.Kanren.Stream.Answers.{Remains, RemainsFrom, Gives, Ended, begin-Remains}
use agentc.Kanren.Stream.Places.{stream_at-put, put-Gives}
use agentc.Kanren.Stream.Pulls.{Yields, Yields-iff, Yields-after, none-some}
use native.Mathlib.Nat.{suc-mod, mod-eq_of_lt, mod-lt, mod_self}
use native.Mathlib.Decide.{ℕ_discrete}
use agentc.Prelude.{
  ℕ, zero, suc, ◌+◌, ◌-◌, ◌%◌, ◌<◌, ◌≤◌, ◌≡◌, ◌≢◌, inl, inr, refl, sym, ap, ◌∙◌, subst, leb, ◌==◌,
  if◌then◌else◌, Option, none, some, arith, Bool-cases,
}

-- how far the place p lies behind the place c, in a circle of n
abbrev pub ahead : ℕ → ℕ → ℕ → ℕ
ahead n c p = if leb c p then p - c else p + n - c

pub mod-suc : (n i : ℕ) → 0 < n → suc i % n ≡ (if suc (i % n) == n then 0 else suc (i % n))
mod-suc n i l =
    let below : i % n < n = mod-lt i l in
    elim (Bool-cases (suc (i % n) == n)) [
      | inl wraps ↦
          let same : suc (i % n) ≡ n = ground arith in
          rw wraps (suc-mod i n ∙ ap (λ k. k % n) same ∙ mod_self n)
      | inr more ↦
          let inside : suc (i % n) < n = ground arith in rw more (suc-mod i n ∙ mod-eq_of_lt inside)
    ]

pub ahead_lt : (n c p : ℕ) → c < n → p < n → n ≤ ahead n c p → ⊥
ahead_lt n c p l m d = ground arith

pub ahead-next :
    (n c p : ℕ)
    → c < n
    → p < n
    → p ≢ c
    → ahead n c p ≡ suc (ahead n (if suc c == n then 0 else suc c) p)
ahead-next n c p l m d = ground arith

module _ {T R S : Type 0} (e : Engine T R S) where
  pub stream_at_below :
      (i : ℕ) (slots : Slots T R S)
      → i < size slots
      → (st : Stream T R S) × (stream_at e i slots ≡ some st)
  stream_at_below i no_slots l = absurd (omega arith)
  stream_at_below zero (factory g s slots) l = (begin e g s, refl)
  stream_at_below zero (running st slots) l = (st, refl)
  stream_at_below (suc i) (factory g s slots) l = stream_at_below i slots (omega arith)
  stream_at_below (suc i) (running st slots) l = stream_at_below i slots (omega arith)

  pub size-put :
      (i : ℕ) (st : Stream T R S) (slots : Slots T R S) → size (put i st slots) ≡ size slots
  size-put i st no_slots = refl
  size-put zero st (factory g s slots) = refl
  size-put zero st (running old slots) = refl
  size-put (suc i) st (factory g s slots) = ap suc (size-put i st slots)
  size-put (suc i) st (running old slots) = ap suc (size-put i st slots)

  -- Nothing is left at a place.
  abbrev IsEmptyAt : ℕ → Slots T R S → Type 0
  IsEmptyAt p slots =
      (st : Stream T R S) → stream_at e p slots ≡ some st → (x : S) → Remains e st x → ⊥

  pub stream_at-put_ne :
      (p i : ℕ) (st : Stream T R S) (slots : Slots T R S)
      → p ≢ i
      → stream_at e p (put i st slots) ≡ stream_at e p slots
  stream_at-put_ne p i st no_slots n = refl
  stream_at-put_ne zero zero st slots n = absurd (n refl)
  stream_at-put_ne zero (suc i) st (factory g s slots) n = refl
  stream_at-put_ne zero (suc i) st (running old slots) n = refl
  stream_at-put_ne (suc p) zero st (factory g s slots) n = refl
  stream_at-put_ne (suc p) zero st (running old slots) n = refl
  stream_at-put_ne (suc p) (suc i) st (factory g s slots) n =
      stream_at-put_ne p i st slots (λ q. n (ap suc q))
  stream_at-put_ne (suc p) (suc i) st (running old slots) n =
      stream_at-put_ne p i st slots (λ q. n (ap suc q))

  -- With nothing at any place there is nothing at all.
  none_left_anywhere :
      (slots : Slots T R S)
      → ((p : ℕ) → p < size slots → IsEmptyAt p slots)
      → (x : S) → RemainsFrom e 0 slots x
      → ⊥
  none_left_anywhere no_slots h x r = r
  none_left_anywhere (factory g s slots) h x (inl r) =
      h 0 (omega arith) (begin e g s) refl x (begin-Remains e g s x r)
  none_left_anywhere (factory g s slots) h x (inr r) =
      none_left_anywhere slots (λ p l. h (suc p) (omega arith)) x r
  none_left_anywhere (running st slots) h x (inl r) = h 0 (omega arith) st refl x r
  none_left_anywhere (running st slots) h x (inr r) =
      none_left_anywhere slots (λ p l. h (suc p) (omega arith)) x r

  -- With n streams left to check, nothing is left at the places behind.
  abbrev IsChecked : ℕ → Slots T R S → ℕ → Type 0
  IsChecked n slots i =
      (p : ℕ) → p < size slots → n ≤ ahead (size slots) (i % size slots) p → IsEmptyAt p slots

  abbrev RemainsAt : Option (Stream T R S) → S → Type 0
  RemainsAt none x = ⊥
  RemainsAt (some st) x = Remains e st x

  IsChecked-put :
      (n : ℕ) (slots : Slots T R S) (i : ℕ) (st rest : Stream T R S)
      → stream_at e (i % size slots) slots ≡ some st
      → 0 < size slots
      → IsChecked (suc n) slots i
      → ((x : S) → Remains e rest x → ⊥)
      → IsChecked n (put (i % size slots) rest slots) (suc i)
  IsChecked-put n slots i st rest q l h none_left p m d found f x r =
      let c = i % size slots in
      let same = size-put c rest slots in
      let below : c < size slots = mod-lt i l in
      let moved = mod-suc (size slots) i l in
      elim (ℕ_discrete p c) [
        | yes here ↦
            let at_c : stream_at e c (put c rest slots) ≡ some found =
              subst (λ k. stream_at e k (put c rest slots) ≡ some found) here f in
            let r' : Remains e rest x =
              subst (λ o. RemainsAt o x) (sym at_c ∙ stream_at-put e c slots st rest q) r in
            none_left x r'
        | no apart ↦
            let d' : n ≤ ahead (size slots) (suc i % size slots) p =
              subst (λ k. n ≤ ahead k (suc i % k) p) same d in
            let farther = ahead-next (size slots) c p below (subst (λ k. p < k) same m) apart in
            h p (subst (λ k. p < k) same m)
              (rw farther (omega (arith, subst (λ k. n ≤ ahead (size slots) k p) moved d'))) found
              (sym (stream_at-put_ne p c rest slots apart) ∙ f) x r
      ]

  Yields-interleaved_next :
      (rest : Slots T R S → ℕ → Pull T R S) (n : ℕ)
      → ((slots : Slots T R S) (i : ℕ)
          → n ≤ size slots
          → IsChecked n slots i
          → Yields e (RemainsFrom e 0 slots) (rest slots i))
      → (slots : Slots T R S) (i : ℕ) (st : Stream T R S)
      → stream_at e (i % size slots) slots ≡ some st
      → suc n ≤ size slots
      → IsChecked (suc n) slots i
      → (o : Option S) (after : Stream T R S) → Gives (Remains e st) (Remains e after) o
      → Ended (Remains e after) o
      → Yields e (RemainsFrom e 0 slots) (interleaved_next e rest slots i o after)
  Yields-interleaved_next rest n sound slots i st q l h (some s) after g d =
      (put-Gives e st after (some s) g (i % size slots) slots q, λ p. cc)
  Yields-interleaved_next rest n sound slots i st q l h none after g d =
      let c = i % size slots in
      let place = put-Gives e st after none g c slots q in
      let same = size-put c after slots in
      Yields-iff e (rest (put c after slots) (suc i))
        (λ x r. elim (place.splits x r) [
          | inl found ↦ absurd (none-some e x found)
          | inr more ↦ more
        ])
        place.kept
        (sound (put c after slots) (suc i) (omega (arith, same))
          (IsChecked-put n slots i st after q (omega arith) h (d refl)))

  check-Yields :
      (go : Stream T R S → Pull T R S)
      → ((st : Stream T R S) → Yields e (Remains e st) (go st))
      → (n : ℕ) (slots : Slots T R S) (i : ℕ) → n ≤ size slots
      → IsChecked n slots i
      → Yields e (RemainsFrom e 0 slots) (check e go n slots i)
  unfolding check
  check-Yields go sound zero slots i l h = (
    record { splits = λ x r. inr r; given = λ x p. absurd (none-some e x p); kept = λ x r. r },
    λ q. none_left_anywhere slots (λ p m. h p m (omega arith)),
  )
  check-Yields go sound (suc n) slots i l h =
      let found = stream_at_below (i % size slots) slots (mod-lt i (omega arith)) in
      rw (found.1) (
        Yields-after e (RemainsFrom e 0 slots) (go found.0)
          (interleaved_next e (check e go n) slots i) (sound found.0)
          (Yields-interleaved_next (check e go n) n (check-Yields go sound n) slots i found.0
            found.1 l h))

  -- A whole round.
  pub round-Yields :
      (go : Stream T R S → Pull T R S)
      → ((st : Stream T R S) → Yields e (Remains e st) (go st))
      → (slots : Slots T R S) (i : ℕ)
      → Yields e (RemainsFrom e 0 slots) (check e go (size slots) slots i)
  round-Yields go sound slots i =
      check-Yields go sound (size slots) slots i (omega arith)
        (λ p l d. absurd (ahead_lt (size slots) (i % size slots) p (mod-lt i (omega arith)) l d))
