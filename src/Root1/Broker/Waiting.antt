-- ===== src/Root1/Broker/Waiting.antt =====
-- The word of a resource beside the queue of its waiters.
use agentc.Root1.Resource.{contend, owner}
use agentc.Root1.Broker.{
  Broker, mem, enqueue, has_more, granted_word, next_waiter, is_valid_participant,
}
use agentc.Prelude.{
  ℕ, ◌%◌, ◌/◌, ◌^◌, ◌<◌, ◌≡◌, ◌≢◌, refl, sym, subst, true, false, List, [], ◌∷◌, ◌++◌, some, ◌==◌,
  if◌then◌else◌, arith, Bool-cases, inl, inr,
}

-- no id stands twice
abbrev pub Distinct : List ℕ → Type 0
Distinct [] = Unit
Distinct (x ∷ xs) = (mem x xs ≡ false) × Distinct xs

pub record IsWaiting (word : ℕ) (q : List ℕ) : Type 0 where
  pub flagged : word / 2 ^ 63 ≡ (if has_more q then 1 else 0)
  pub owned : has_more q ≡ true → word % 2 ^ 63 ≢ 0
  pub absent : mem (word % 2 ^ 63) q ≡ false
  pub distinct : Distinct q

pub IsWaiting-free : IsWaiting 0 []
IsWaiting-free = record { flagged = refl; owned = λ e. ground arith; absent = refl; distinct = tt }

pub IsWaiting-own : (p : ℕ) → p < 2 ^ 63 → IsWaiting p []
IsWaiting-own p h = record {
  flagged = omega arith;
  owned = λ e. ground arith;
  absent = refl;
  distinct = tt;
}

pub empty_of_free : (q : List ℕ) → IsWaiting 0 q → q ≡ []
empty_of_free [] v = refl
empty_of_free (x ∷ q) v = ground (arith, v.flagged)

mem-append :
    (x y : ℕ) (q : List ℕ) → (x == y) ≡ false → mem x q ≡ false → mem x (q ++ y ∷ []) ≡ false
mem-append x y [] ne h = ground arith
mem-append x y (z ∷ q) ne h = ground (arith, mem-append x y q ne)

mem-append_self : (x : ℕ) (q : List ℕ) → mem x (q ++ x ∷ []) ≡ true
mem-append_self x [] = ground arith
mem-append_self x (z ∷ q) = ground (arith, mem-append_self x q)

Distinct-append : (x : ℕ) (q : List ℕ) → mem x q ≡ false → Distinct q → Distinct (q ++ x ∷ [])
Distinct-append x [] h d = (refl, tt)
Distinct-append x (z ∷ q) h d =
    (mem-append z x q (ground arith) d.0, Distinct-append x q (ground arith) d.1)

IsWaiting-contend :
    (word : ℕ) (q : List ℕ)
    → has_more q ≡ true
    → word % 2 ^ 63 ≢ 0
    → mem (word % 2 ^ 63) q ≡ false
    → Distinct q
    → IsWaiting (contend word) q
IsWaiting-contend word q more held out d =
    let same : contend word % 2 ^ 63 ≡ word % 2 ^ 63 = omega arith in
    record {
      flagged = rw (more) (omega arith);
      owned = λ e. rw (same) held;
      absent = rw (same) out;
      distinct = d;
    }

has_more-append : (x : ℕ) (q : List ℕ) → has_more (q ++ x ∷ []) ≡ true
has_more-append x [] = refl
has_more-append x (y ∷ q) = refl

has_more-mem : (x : ℕ) (q : List ℕ) → mem x q ≡ true → has_more q ≡ true
has_more-mem x [] h = ground arith
has_more-mem x (y ∷ q) h = refl

owner_some : (word : ℕ) (q : List ℕ) → word ≢ 0 → IsWaiting word q → word % 2 ^ 63 ≢ 0
owner_some word [] some_word v = omega (arith, v.flagged)
owner_some word (x ∷ q) some_word v = v.owned refl

pub IsWaiting-enqueue :
    (word p : ℕ) (q : List ℕ)
    → word ≢ 0
    → (owner word == p) ≡ false
    → IsWaiting word q
    → IsWaiting (contend word) (enqueue q p)
IsWaiting-enqueue word p q some_word other v =
    let held = owner_some word q some_word v in
    elim (Bool-cases (mem p q)) [
      | inl e ↦ rw (e) (IsWaiting-contend word q (has_more-mem p q e) held v.absent v.distinct)
      | inr e ↦ rw (e) (
          IsWaiting-contend word (q ++ p ∷ []) (has_more-append p q) held
            (mem-append (word % 2 ^ 63) p q other v.absent) (Distinct-append p q e v.distinct))
    ]

pub IsWaiting-granted :
    (p : ℕ) (rest : List ℕ)
    → p ≢ 0
    → p < 2 ^ 63
    → mem p rest ≡ false
    → Distinct rest
    → IsWaiting (granted_word p rest) rest
IsWaiting-granted p [] some_p small out d = IsWaiting-own p small
IsWaiting-granted p (x ∷ rest) some_p small out d =
    let whole : p % 2 ^ 63 ≡ p = omega arith in
    IsWaiting-contend p (x ∷ rest) refl (omega arith)
      (subst (λ o. mem o (x ∷ rest) ≡ false) (sym whole) out) d

-- What the loop takes is a participant that does not wait twice.
pub record IsNext (b : Broker) (next : ℕ) (rest : List ℕ) : Type 0 where
  pub valid : is_valid_participant b next ≡ true
  pub once : mem next rest ≡ false
  pub others : Distinct rest

pub next_waiter-IsNext :
    (b : Broker) (q : List ℕ) (next : ℕ) (rest : List ℕ)
    → Distinct q
    → next_waiter b q ≡ some (next, rest)
    → IsNext b next rest
unfolding next_waiter
next_waiter-IsNext b [] next rest d e = cc
next_waiter-IsNext b (x ∷ q) next rest d e = elim (Bool-cases (is_valid_participant b x)) [
  | inl v ↦
      (let e' : some (x, q) ≡ some (next, rest) = rw (v) at e in
        let heads : x ≡ next = cc in
        let tails : q ≡ rest = cc in
        record {
          valid = cc (v, heads);
          once = cc (d.0, heads, tails);
          others = subst Distinct tails d.1;
        })
  | inr v ↦ next_waiter-IsNext b q next rest d.1 (rw (v) at e)
]
