-- ===== src/Kanren/Stream/Ends/Counts.antt =====
-- Streams side by side (kanren/kanren.cpp, interleaveStreams), with how many states each gives.
use agentc.Kanren.Goal.{Engine}
use agentc.Kanren.Stream.{Stream, Slots, no_slots, factory, running, size, put, begin, stream_at}
use agentc.Kanren.Stream.Ends.{Pulls, Settled, Drains, over, more}
use agentc.Prelude.{
  ℕ, zero, suc, ◌+◌, ◌<◌, ◌≡◌, refl, sym, ap, subst, List, [], ◌∷◌, some, get_elem?, set, arith,
}

abbrev pub sum : List ℕ → ℕ
sum [] = 0
sum (c ∷ cs) = c + sum cs

pub sum-set :
    (cs : List ℕ) (p m : ℕ) → get_elem? cs p ≡ some (suc m) → suc (sum (set cs p m)) ≡ sum cs
sum-set [] p m q = cc
sum-set (c ∷ cs) zero m q = ground (arith, q)
sum-set (c ∷ cs) (suc p) m q = omega (arith, sum-set cs p m q)

pub sum_zero : (cs : List ℕ) → ((p c : ℕ) → get_elem? cs p ≡ some c → c ≡ 0) → sum cs ≡ 0
sum_zero [] h = refl
sum_zero (c ∷ cs) h = omega (arith, h 0 c refl, sum_zero cs (λ p d q. h (suc p) d q))

zero_of_sum : (cs : List ℕ) (p c : ℕ) → sum cs ≡ 0 → get_elem? cs p ≡ some c → c ≡ 0
zero_of_sum [] p c e q = cc
zero_of_sum (d ∷ cs) zero c e q = ground (arith, e, q)
zero_of_sum (d ∷ cs) (suc p) c e q = zero_of_sum cs p c (omega (arith, e)) q

pub set_same : (cs : List ℕ) (p c : ℕ) → get_elem? cs p ≡ some c → set cs p c ≡ cs
set_same [] p c q = refl
set_same (b ∷ cs) zero c q = let same : b ≡ c = cc in ap (λ x. x ∷ cs) (sym same)
set_same (b ∷ cs) (suc p) c q = ap (λ x. b ∷ x) (set_same cs p c q)

module _ {T R S : Type 0} (e : Engine T R S) where
  -- The stream gives so many states and comes to its end.
  abbrev pub DrainsIn : ℕ → Stream T R S → Type 0
  DrainsIn zero st = Settled e st
  DrainsIn (suc n) st = (s : S) × (rest : Stream T R S) × Pulls e st (some s) rest × DrainsIn n rest

  pub Drains-count : (st : Stream T R S) → Drains e st → (n : ℕ) × DrainsIn n st
  Drains-count st (over v) = (0, v)
  Drains-count st (more {rest = rest} s p d) =
      let (n, c) = Drains-count rest d in (suc n, (s, rest, p, c))

  -- so many states in each place
  abbrev pub Counted : List ℕ → Slots T R S → Type 0
  Counted [] no_slots = Unit
  Counted [] (factory g s slots) = ⊥
  Counted [] (running st slots) = ⊥
  Counted (c ∷ cs) no_slots = ⊥
  Counted (c ∷ cs) (factory g s slots) = DrainsIn c (begin e g s) × Counted cs slots
  Counted (c ∷ cs) (running st slots) = DrainsIn c st × Counted cs slots

  pub count_at :
      (cs : List ℕ) (slots : Slots T R S) (p : ℕ) (st : Stream T R S)
      → Counted cs slots
      → stream_at e p slots ≡ some st
      → (c : ℕ) × (get_elem? cs p ≡ some c) × DrainsIn c st
  count_at cs no_slots p st v q = cc
  count_at [] (factory g s slots) p st v q = elim v [ ]
  count_at [] (running old slots) p st v q = elim v [ ]
  count_at (c ∷ cs) (factory g s slots) zero st (d, v) q =
      let same : begin e g s ≡ st = cc in (c, refl, subst (DrainsIn c) same d)
  count_at (c ∷ cs) (running old slots) zero st (d, v) q =
      let same : old ≡ st = cc in (c, refl, subst (DrainsIn c) same d)
  count_at (c ∷ cs) (factory g s slots) (suc p) st (d, v) q = count_at cs slots p st v q
  count_at (c ∷ cs) (running old slots) (suc p) st (d, v) q = count_at cs slots p st v q

  pub Counted-put :
      (cs : List ℕ) (slots : Slots T R S) (p c : ℕ) (rest : Stream T R S)
      → Counted cs slots
      → DrainsIn c rest
      → Counted (set cs p c) (put p rest slots)
  Counted-put [] no_slots p c rest v d = tt
  Counted-put [] (factory g s slots) p c rest v d = elim v [ ]
  Counted-put [] (running old slots) p c rest v d = elim v [ ]
  Counted-put (b ∷ cs) no_slots p c rest v d = elim v [ ]
  Counted-put (b ∷ cs) (factory g s slots) zero c rest (x, v) d = (d, v)
  Counted-put (b ∷ cs) (running old slots) zero c rest (x, v) d = (d, v)
  Counted-put (b ∷ cs) (factory g s slots) (suc p) c rest (x, v) d =
      (x, Counted-put cs slots p c rest v d)
  Counted-put (b ∷ cs) (running old slots) (suc p) c rest (x, v) d =
      (x, Counted-put cs slots p c rest v d)

  pub count_below :
      (cs : List ℕ) (slots : Slots T R S) (p c : ℕ)
      → Counted cs slots
      → get_elem? cs p ≡ some c
      → p < size slots
  count_below [] slots p c v q = cc
  count_below (b ∷ cs) no_slots p c v q = elim v [ ]
  count_below (b ∷ cs) (factory g s slots) zero c v q = omega arith
  count_below (b ∷ cs) (running st slots) zero c v q = omega arith
  count_below (b ∷ cs) (factory g s slots) (suc p) c (x, v) q =
      omega (arith, count_below cs slots p c v q)
  count_below (b ∷ cs) (running st slots) (suc p) c (x, v) q =
      omega (arith, count_below cs slots p c v q)
