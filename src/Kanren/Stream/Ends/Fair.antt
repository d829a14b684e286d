-- ===== src/Kanren/Stream/Ends/Fair.antt =====
-- interleaveStreams (kanren/kanren.cpp) over streams that come to an end comes to an end.
use agentc.Kanren.Goal.{Engine}
use agentc.Kanren.Stream.{Stream, interleaved, Slots, size, put, Pull, stream_at, check, pull, next}
use agentc.Kanren.Stream.Rounds.{ahead, mod-suc, ahead-next, ahead_lt, stream_at_below, size-put}
use agentc.Kanren.Stream.Ends.{Pulls, Drains, over, more, Pulls-step, Settled-next, Settled-by}
use agentc.Kanren.Stream.Ends.Counts.{
  sum, sum-set, sum_zero, DrainsIn, Counted, count_at, Counted-put, set_same, count_below,
}
use native.Mathlib.Decide.{ℕ_discrete}
use native.Mathlib.Nat.{mod-lt}
use agentc.Prelude.{
  ℕ, zero, suc, ◌+◌, ◌%◌, ◌<◌, ◌≤◌, ◌≡◌, refl, subst, List, Option, none, some, get_elem?, set,
  arith,
}

module _ {T R S : Type 0} (e : Engine T R S) where
  -- With n streams left to check, the places behind have nothing.
  abbrev NoneBehind : ℕ → List ℕ → Slots T R S → ℕ → Type 0
  NoneBehind n cs slots i =
      (p c : ℕ)
      → p < size slots
      → n ≤ ahead (size slots) (i % size slots) p
      → get_elem? cs p ≡ some c
      → c ≡ 0

  NoneBehind-put :
      (n : ℕ) (cs : List ℕ) (slots : Slots T R S) (i : ℕ) (rest : Stream T R S)
      → get_elem? cs (i % size slots) ≡ some 0
      → 0 < size slots
      → NoneBehind (suc n) cs slots i
      → NoneBehind n cs (put (i % size slots) rest slots) (suc i)
  NoneBehind-put n cs slots i rest z l h p c m d q =
      let here = i % size slots in
      let same = size-put e here rest slots in
      let moved = mod-suc (size slots) i l in
      elim (ℕ_discrete p here) [
        | yes there ↦
            let at_here : get_elem? cs here ≡ some c =
              subst (λ k. get_elem? cs k ≡ some c) there q in
            cc
        | no apart ↦
            let d' : n ≤ ahead (size slots) (suc i % size slots) p =
              subst (λ k. n ≤ ahead k (suc i % k) p) same d in
            let m' = subst (λ k. p < k) same m in
            let farther = ahead-next (size slots) here p (mod-lt i l) m' apart in
            h p c m' (rw farther (omega (arith, subst (λ k. n ≤ ahead (size slots) k p) moved d')))
              q
      ]

  -- a round: one state fewer, or all are given
  abbrev Taken : List ℕ → List ℕ → Option S → Type 0
  Taken cs left none = (sum cs ≡ 0) × (sum left ≡ 0)
  Taken cs left (some s) = suc (sum left) ≡ sum cs

  record Round (cs : List ℕ) (turn : (Stream T R S → Pull T R S) → Pull T R S) : Type 0 where
    given : Option S
    slots : Slots T R S
    index : ℕ
    fuel : ℕ
    left : List ℕ
    counted : Counted e left slots
    taken : Taken cs left given
    reaches : (k : ℕ) → fuel ≤ k → turn (next e k) ≡ some (given, interleaved slots index)

  Round-at :
      (n : ℕ) (cs : List ℕ) (slots : Slots T R S) (i c : ℕ) (st : Stream T R S)
      → ((after : Slots T R S)
          → size after ≡ size slots
          → Counted e cs after
          → NoneBehind n cs after (suc i)
          → Round cs (λ go. check e go n after (suc i)))
      → Counted e cs slots
      → NoneBehind (suc n) cs slots i
      → 0 < size slots
      → stream_at e (i % size slots) slots ≡ some st
      → get_elem? cs (i % size slots) ≡ some c
      → DrainsIn e c st
      → Round cs (λ go. check e go (suc n) slots i)
  unfolding check
  Round-at n cs slots i zero st ih v h l q z d =
      let here = i % size slots in
      let (rest, p, x) = Settled-next e st d in
      let r =
        ih (put here rest slots) (size-put e here rest slots)
          (subst (λ a. Counted e a (put here rest slots)) (set_same cs here 0 z)
            (Counted-put e cs slots here 0 rest v x))
          (NoneBehind-put n cs slots i rest z l h) in
      record {
        given = r.given;
        slots = r.slots;
        index = r.index;
        fuel = p.fuel + r.fuel;
        left = r.left;
        counted = r.counted;
        taken = r.taken;
        reaches = λ k m. rw (q, p.reaches k (omega (arith, m))) (r.reaches k (omega (arith, m)));
      }
  Round-at n cs slots i (suc c) st ih v h l q z (s, rest, p, d) =
      let here = i % size slots in
      record {
        given = some s;
        slots = put here rest slots;
        index = suc i;
        fuel = p.fuel;
        left = set cs here c;
        counted = Counted-put e cs slots here c rest v d;
        taken = sum-set cs here c z;
        reaches = λ k m. rw (q, p.reaches k m) refl;
      }

  Round-check :
      (n : ℕ) (cs : List ℕ) (slots : Slots T R S) (i : ℕ)
      → n ≤ size slots
      → Counted e cs slots
      → NoneBehind n cs slots i
      → Round cs (λ go. check e go n slots i)
  unfolding check
  Round-check zero cs slots i l v h =
      let all = sum_zero cs (λ p c q. h p c (count_below e cs slots p c v q) (omega arith) q) in
      record {
        given = none;
        slots = slots;
        index = i;
        fuel = 0;
        left = cs;
        counted = v;
        taken = (all, all);
        reaches = λ k m. refl;
      }
  Round-check (suc n) cs slots i l v h =
      let (st, q) = stream_at_below e (i % size slots) slots (mod-lt i (omega arith)) in
      let (c, z, d) = count_at e cs slots (i % size slots) st v q in
      Round-at n cs slots i c st
        (λ after same w b. Round-check n cs after (suc i) (omega (arith, same, l)) w b) v h
        (omega arith) q z d

  Round-pull :
      (cs : List ℕ) (slots : Slots T R S) (i : ℕ)
      → Counted e cs slots
      → Round cs (λ go. pull e go (interleaved slots i))
  unfolding pull
  Round-pull cs slots i v =
      Round-check (size slots) cs slots i (omega arith) v
        (λ p c l d. absurd (ahead_lt (size slots) (i % size slots) p (mod-lt i (omega arith)) l d))

  -- one pull
  abbrev Taking : List ℕ → Slots T R S → ℕ → Option S → Type 0
  Taking cs slots i o =
      (rest : Slots T R S) × (j : ℕ) × (left : List ℕ) × Pulls e (interleaved slots i) o
        (interleaved rest j)
      × Counted e left rest
      × Taken cs left o

  Round-Pulls :
      (cs : List ℕ) (slots : Slots T R S) (i : ℕ)
      → Counted e cs slots
      → (o : Option S) × Taking cs slots i o
  Round-Pulls cs slots i v =
      let r = Round-pull cs slots i v in
      let p =
        Pulls-step e (interleaved slots i) r.given (interleaved r.slots r.index) r.fuel r.reaches in
      (r.given, (r.slots, r.index, r.left, p, r.counted, r.taken))

  -- interleaved streams that have no state left
  abbrev IsSpent : Stream T R S → Type 0
  IsSpent st =
      (slots : Slots T R S) × (i : ℕ) × (cs : List ℕ) × (interleaved slots i ≡ st)
      × Counted e cs slots
      × (sum cs ≡ 0)

  IsSpent-next :
      (st : Stream T R S) → IsSpent st → (rest : Stream T R S) × Pulls e st none rest × IsSpent rest
  IsSpent-next st (slots, i, cs, same, v, z) = let (o, t) = Round-Pulls cs slots i v in at_end o t
    where
      at_end :
          (o : Option S)
          → Taking cs slots i o
          → (rest : Stream T R S) × Pulls e st none rest × IsSpent rest
      at_end none (rest, j, left, p, w, (a, b)) = (
        interleaved rest j,
        subst (λ x. Pulls e x none (interleaved rest j)) same p,
        (rest, j, left, refl, w, b),
      )
      at_end (some s) (rest, j, left, p, w, t) = absurd (omega (arith, t, z))

  Drains-Taking :
      (n : ℕ) (cs : List ℕ) (slots : Slots T R S) (i : ℕ)
      → sum cs ≡ suc n
      → ((left : List ℕ) (rest : Slots T R S) (j : ℕ)
          → sum left ≡ n
          → Counted e left rest
          → Drains e (interleaved rest j))
      → (o : Option S) → Taking cs slots i o
      → Drains e (interleaved slots i)
  Drains-Taking n cs slots i z ih none (rest, j, left, p, w, (a, b)) = absurd (omega (arith, a, z))
  Drains-Taking n cs slots i z ih (some s) (rest, j, left, p, w, t) =
      more s p (ih left rest j (omega (arith, t, z)) w)

  -- Interleaved streams that come to an end come to an end.
  pub Drains-interleaved :
      (n : ℕ) (cs : List ℕ) (slots : Slots T R S) (i : ℕ)
      → sum cs ≡ n
      → Counted e cs slots
      → Drains e (interleaved slots i)
  Drains-interleaved zero cs slots i z v =
      over (Settled-by e IsSpent IsSpent-next (interleaved slots i) (slots, i, cs, refl, v, z))
  Drains-interleaved (suc n) cs slots i z v =
      let (o, t) = Round-Pulls cs slots i v in
      Drains-Taking n cs slots i z (Drains-interleaved n) o t
