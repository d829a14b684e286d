-- ===== src/Kanren/Stream/Run.antt =====
-- The answers of `run` (kanren/kanren.cpp) against what its goal means.
use agentc.Kanren.Goal.{Goal, Engine}
use agentc.Kanren.Stream.{
  Stream, ready, snoozed, woken, disj_stream, conj_left, conj_right, conde_stream, interleaved,
  Pull, begin, stream_at, after, disj_next, conj_left_next, conj_right_next, conde_next, pull, next,
  collected, collect, run,
}
use agentc.Kanren.Stream.Answers.{Among, Remains, Solves, begin-Solves, begin-Remains}
use agentc.Kanren.Stream.Pulls.{
  Yields, some_inj, Yields-iff, Yields-after, spent, Yields-disj_next, Yields-conj_left_next,
  Yields-conj_right_next, Yields-conde_next,
}
use agentc.Kanren.Stream.Places.{nothing-past}
use agentc.Kanren.Stream.Rounds.{round-Yields}
use agentc.Prelude.{
  ℕ, zero, suc, ◌<◌, ◌≤◌, ◌≡◌, ◌⊎◌, inl, inr, refl, sym, ap, subst, true, false, ◌&&◌, List, [],
  ◌∷◌, ◌++◌, ltb, leb, length, length-append, Option, none, some, arith, Option-cases, Bool-cases,
}

Among-append_one :
    {A : Type 0} (y a : A) (xs : List A) → Among y (xs ++ a ∷ []) → Among y xs ⊎ (y ≡ a)
Among-append_one y a [] (inl p) = inr p
Among-append_one y a [] (inr p) = elim p [ ]
Among-append_one y a (x ∷ xs) (inl p) = inl (inl p)
Among-append_one y a (x ∷ xs) (inr p) = elim (Among-append_one y a xs p) [
  | inl q ↦ inl (inr q)
  | inr q ↦ inr q
]

Among-append_left : {A : Type 0} (y a : A) (xs : List A) → Among y xs → Among y (xs ++ a ∷ [])
Among-append_left y a [] p = elim p [ ]
Among-append_left y a (x ∷ xs) (inl p) = inl p
Among-append_left y a (x ∷ xs) (inr p) = inr (Among-append_left y a xs p)

Among-append_last : {A : Type 0} (a : A) (xs : List A) → Among a (xs ++ a ∷ [])
Among-append_last a [] = inl refl
Among-append_last a (x ∷ xs) = inr (Among-append_last a xs)

module _ {T R S : Type 0} (e : Engine T R S) where
  pull-Yields :
      (go : Stream T R S → Pull T R S)
      → ((st : Stream T R S) → Yields e (Remains e st) (go st))
      → (st : Stream T R S) → Yields e (Remains e st) (pull e go st)
  unfolding pull
  pull-Yields go sound (ready []) =
      (record { splits = λ x r. elim r [ ]; given = λ x p. cc; kept = λ x r. r }, λ n x r. r)
  pull-Yields go sound (ready (s ∷ ss)) = (
    record {
      splits = λ x r. elim r [ inl p ↦ inl (ap some (sym p)) | inr p ↦ inr p ];
      given = λ x p. inl (cc);
      kept = λ x r. inr r;
    },
    λ n. cc,
  )
  pull-Yields go sound (snoozed k s) =
      Yields-iff e (after e (go (begin e (e.thunk k) s)) (λ o st. some (o, woken st)))
        (λ x q. begin-Remains e (e.thunk k) s x q) (λ x r. begin-Solves e (e.thunk k) s x r)
        (Yields-after e (Remains e (begin e (e.thunk k) s)) (go (begin e (e.thunk k) s))
          (λ o st. some (o, woken st)) (sound (begin e (e.thunk k) s))
          (λ o st g l. (record { splits = g.splits; given = g.given; kept = g.kept }, l)))
  pull-Yields go sound (woken inner) =
      Yields-after e (Remains e inner) (go inner) (λ o st. some (o, woken st)) (sound inner)
        (λ o st g l. (record { splits = g.splits; given = g.given; kept = g.kept }, l))
  pull-Yields go sound (disj_stream left right true) =
      Yields-after e (Remains e (disj_stream left right true)) (go left) (disj_next e go right)
        (sound left) (λ o st. Yields-disj_next e go sound left right st o)
  pull-Yields go sound (disj_stream left right false) =
      Yields-after e (Remains e right) (go right) (λ o st. some (o, disj_stream left st false))
        (sound right)
        (λ o st g l. (record { splits = g.splits; given = g.given; kept = g.kept }, l))
  pull-Yields go sound (conj_left left h) =
      Yields-after e (Remains e (conj_left left h)) (go left) (conj_left_next e go h) (sound left)
        (λ o st. Yields-conj_left_next e go sound left st h o)
  pull-Yields go sound (conj_right left h current) =
      Yields-after e (Remains e (conj_right left h current)) (go current)
        (conj_right_next e go left h) (sound current)
        (λ o st. Yields-conj_right_next e go sound left current st h o)
  pull-Yields go sound (conde_stream slots i) = elim (Option-cases (stream_at e i slots)) [
    | inl past ↦ rw past (
      record {
        splits = λ x r. absurd (nothing-past e i slots past x r);
        given = λ x p. cc;
        kept = λ x r. r;
      },
      λ n x r. nothing-past e i slots past x r,
    )
    | inr (st, q) ↦ rw q (
        Yields-after e (Remains e (conde_stream slots i)) (go st) (conde_next e go slots i)
          (sound st) (λ o rest. Yields-conde_next e go sound slots i st rest o q))
  ]
  pull-Yields go sound (interleaved slots i) = round-Yields e go sound slots i

  -- A pull gives something that is left, or nothing where nothing is left.
  pub next-Yields : (fuel : ℕ) (st : Stream T R S) → Yields e (Remains e st) (next e fuel st)
  unfolding next
  next-Yields zero st = tt
  next-Yields (suc fuel) st = pull-Yields (next e fuel) (next-Yields fuel) st

  module _ {V : Type 0} (answer : S → V) (limit : ℕ) where
    -- The answers `found`, out of those that were there and those of what was left.
    record IsCollected (out : List V) (left : S → Type 0) (found : List V) : Type 0 where
      pub sound : (y : V) → Among y found → Among y out ⊎ ((x : S) × left x × (y ≡ answer x))
      pub keeps : (y : V) → Among y out → Among y found
      pub complete :
          (x : S) → (limit ≡ 0) ⊎ (length found < limit) → left x → Among (answer x) found
      pub bounded : 0 < limit → length out < limit → length found ≤ limit

    -- The answers `found` are those of the goal, all of them where the limit did not cut them off.
    pub record IsAnswered (g : Goal T R) (s : S) (found : List V) : Type 0 where
      pub sound : (y : V) → Among y found → (x : S) × Solves e g s x × (y ≡ answer x)
      pub complete :
          (x : S) → (limit ≡ 0) ⊎ (length found < limit) → Solves e g s x → Among (answer x) found
      pub bounded : 0 < limit → length found ≤ limit

    collected-IsCollected :
        (go : List V → Stream T R S → Option (List V))
        → ((out found : List V) (st : Stream T R S)
            → go out st ≡ some found
            → IsCollected out (Remains e st) found)
        → (out found : List V) (left : S → Type 0) (p : Pull T R S) → Yields e left p
        → collected e go answer limit out p ≡ some found
        → IsCollected out left found
    collected-IsCollected go ih out found left none y q = cc
    collected-IsCollected go ih out found left (some (none, st)) (g, l) q =
        let same : out ≡ found = cc in
        subst (IsCollected out left) same (record {
          sound = λ y a. inl a;
          keeps = λ y a. a;
          complete = λ x c r. absurd (spent e g l refl x r);
          bounded = λ p m. omega arith;
        })
    collected-IsCollected go ih out found left (some (some s, st)) (g, l) q =
        elim (Bool-cases (ltb 0 limit && leb limit (length (out ++ answer s ∷ [])))) [
          | inl full ↦
              (let stop : some (out ++ answer s ∷ []) ≡ some found = rw (full) at q in
                let same : out ++ answer s ∷ [] ≡ found = cc in
                subst (IsCollected out left) same (record {
                  sound = λ y a. elim (Among-append_one y (answer s) out a) [
                    | inl old ↦ inl old
                    | inr new ↦ inr (s, g.given s refl, new)
                  ];
                  keeps = λ y a. Among-append_left y (answer s) out a;
                  complete = λ x c r. absurd (ground (arith, full, c));
                  bounded = λ p m. omega (arith, length-append {0} out (answer s ∷ []));
                }))
          | inr more ↦
              (let next : go (out ++ answer s ∷ []) st ≡ some found = rw (more) at q in
                let rest = ih (out ++ answer s ∷ []) found st next in
                record {
                  sound = λ y a. elim (rest.sound y a) [
                    | inl old ↦ elim (Among-append_one y (answer s) out old) [
                      | inl older ↦ inl older
                      | inr new ↦ inr (s, g.given s refl, new)
                    ]
                    | inr (x, r, p) ↦ inr (x, g.kept x r, p)
                  ];
                  keeps = λ y a. rest.keeps y (Among-append_left y (answer s) out a);
                  complete = λ x c r. elim (g.splits x r) [
                    | inl here ↦ rest.keeps (answer x) (
                        subst (λ v. Among v (out ++ answer s ∷ [])) (ap answer (some_inj e here))
                          (Among-append_last (answer s) out))
                    | inr later ↦ rest.complete x c later
                  ];
                  bounded = λ p m.
                      rest.bounded p
                        (ground (arith, more, p, length-append {0} out (answer s ∷ [])));
                })
        ]

    collect-IsCollected :
        (fuel : ℕ) (out found : List V) (st : Stream T R S)
        → collect e answer fuel limit out st ≡ some found
        → IsCollected out (Remains e st) found
    unfolding collect
    collect-IsCollected zero out found st q = cc
    collect-IsCollected (suc fuel) out found st q =
        collected-IsCollected (collect e answer fuel limit) (collect-IsCollected fuel) out found
          (Remains e st) (next e fuel st) (next-Yields fuel st) q

    -- What `run` returns are answers of the goal, at most `limit` of them, and all of them where the
    -- limit is 0 or was not reached.
    pub run-IsAnswered :
        (fuel : ℕ) (g : Goal T R) (s : S) (found : List V)
        → run e answer fuel limit g s ≡ some found
        → IsAnswered g s found
    unfolding run
    run-IsAnswered fuel g s found q =
        let c = collect-IsCollected fuel [] found (begin e g s) q in
        record {
          sound = λ y a. elim (c.sound y a) [
            | inl old ↦ elim old [ ]
            | inr (x, r, p) ↦ (x, begin-Solves e g s x r, p)
          ];
          complete = λ x l q'. c.complete x l (begin-Remains e g s x q');
          bounded = λ l. c.bounded l l;
        }
