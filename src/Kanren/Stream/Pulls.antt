-- ===== src/Kanren/Stream/Pulls.antt =====
-- A pull of a stream (kanren/kanren.cpp, StateStream::next) against what the stream has to give.
use agentc.Kanren.Goal.{Goal, Engine}
use agentc.Kanren.Stream.{
  Stream, disj_stream, conj_left, conj_right, conde_stream, Slots, put, Pull, begin, stream_at,
  after, disj_next, conj_left_next, conj_right_next, conde_next,
}
use agentc.Kanren.Stream.Answers.{Remains, Gives, Ended, Solves, begin-Solves, begin-Remains}
use agentc.Kanren.Stream.Places.{from-at, from-later, stream_at-put, put-Gives_from}
use agentc.Prelude.{ℕ, suc, ◌≡◌, inl, inr, refl, sym, ◌∙◌, subst, true, false, Option, none, some}

module _ {T R S : Type 0} (e : Engine T R S) where
  -- A pull that ends gives of `before` a state or, at the end, nothing.
  abbrev pub Yields : (S → Type 0) → Pull T R S → Type 0
  Yields before none = Unit
  Yields before (some (o, rest)) = Gives before (Remains e rest) o × Ended (Remains e rest) o

  pub Yields-iff :
      {before other : S → Type 0} (p : Pull T R S)
      → ((x : S) → other x → before x)
      → ((x : S) → before x → other x)
      → Yields before p
      → Yields other p
  Yields-iff none to back y = tt
  Yields-iff (some (o, rest)) to back (g, l) = (
    record {
      splits = λ x r. g.splits x (to x r);
      given = λ x q. back x (g.given x q);
      kept = λ x r. back x (g.kept x r);
    },
    l,
  )

  pub Yields-after :
      (before : S → Type 0) {inner : S → Type 0} (p : Pull T R S)
      (k : Option S → Stream T R S → Pull T R S)
      → Yields inner p
      → ((o : Option S) (rest : Stream T R S)
          → Gives inner (Remains e rest) o
          → Ended (Remains e rest) o
          → Yields before (k o rest))
      → Yields before (after e p k)
  Yields-after before none k y step = tt
  Yields-after before (some (o, rest)) k (g, l) step = step o rest g l

  pub none-some : {A : Type 0} (x : A) → none ≡ some x → ⊥
  none-some x p = cc

  -- nothing was left either, where nothing is found and nothing is left
  pub spent :
      {before after : S → Type 0} {o : Option S}
      → Gives before after o
      → Ended after o
      → o ≡ none
      → (x : S) → before x
      → ⊥
  spent g l n x r = elim (g.splits x r) [
    | inl found ↦ none-some x (sym n ∙ found)
    | inr left ↦ l n x left
  ]

  pub some_inj : {A : Type 0} {x y : A} → some x ≡ some y → x ≡ y
  some_inj p = cc

  module _ (go : Stream T R S → Pull T R S)
      (sound : (st : Stream T R S) → Yields (Remains e st) (go st)) where
    pub Yields-disj_next :
        (left right rest : Stream T R S) (o : Option S)
        → Gives (Remains e left) (Remains e rest) o
        → Ended (Remains e rest) o
        → Yields (Remains e (disj_stream left right true)) (disj_next e go right o rest)
    Yields-disj_next left right rest (some s) g l = (
      record {
        splits = λ x r. elim r [
          | inl p ↦ elim (g.splits x p) [ inl found ↦ inl found | inr more ↦ inr (inl more) ]
          | inr p ↦ inr (inr p)
        ];
        given = λ x p. inl (g.given x p);
        kept = λ x r. elim r [ inl p ↦ inl (g.kept x p) | inr p ↦ inr p ];
      },
      λ n. cc,
    )
    Yields-disj_next left right rest none g l =
        Yields-after (Remains e (disj_stream left right true)) (go right)
          (λ o st. some (o, disj_stream rest st false)) (sound right)
          (λ o st g' l'. (
            record {
              splits =
                  λ x r. elim r [ inl p ↦ absurd (spent g l refl x p) | inr p ↦ g'.splits x p ];
              given = λ x p. inr (g'.given x p);
              kept = λ x r. inr (g'.kept x r);
            },
            l',
          ))

    pub Yields-conj_left_next :
        (left rest : Stream T R S) (h : Goal T R) (o : Option S)
        → Gives (Remains e left) (Remains e rest) o
        → Ended (Remains e rest) o
        → Yields (Remains e (conj_left left h)) (conj_left_next e go h o rest)
    Yields-conj_left_next left rest h none g l = (
      record {
        splits = λ x r. absurd (spent g l refl r.0 r.1);
        given = λ x p. absurd (none-some x p);
        kept = λ x r. absurd (l refl r.0 r.1);
      },
      λ n x r. l refl r.0 r.1,
    )
    Yields-conj_left_next left rest h (some s) g l =
        Yields-iff (go (conj_right rest h (begin e h s)))
          (λ x r. elim (g.splits r.0 r.1) [
            | inl found ↦
                inl (begin-Remains e h s x (subst (λ m. Solves e h m x) (some_inj (sym found)) r.2))
            | inr more ↦ inr (r.0, more, r.2)
          ])
          (λ x r. elim r [
            | inl here ↦ (s, g.given s refl, begin-Solves e h s x here)
            | inr (m, more, q) ↦ (m, g.kept m more, q)
          ])
          (sound (conj_right rest h (begin e h s)))

    pub Yields-conj_right_next :
        (left current rest : Stream T R S) (h : Goal T R) (o : Option S)
        → Gives (Remains e current) (Remains e rest) o
        → Ended (Remains e rest) o
        → Yields (Remains e (conj_right left h current)) (conj_right_next e go left h o rest)
    Yields-conj_right_next left current rest h (some s) g l = (
      record {
        splits = λ x r. elim r [
          | inl p ↦ elim (g.splits x p) [ inl found ↦ inl found | inr more ↦ inr (inl more) ]
          | inr p ↦ inr (inr p)
        ];
        given = λ x p. inl (g.given x p);
        kept = λ x r. elim r [ inl p ↦ inl (g.kept x p) | inr p ↦ inr p ];
      },
      λ n. cc,
    )
    Yields-conj_right_next left current rest h none g l =
        Yields-iff (go (conj_left left h))
          (λ x r. elim r [ inl p ↦ absurd (spent g l refl x p) | inr p ↦ p ]) (λ x r. inr r)
          (sound (conj_left left h))

    pub Yields-conde_next :
        (slots : Slots T R S) (i : ℕ) (st rest : Stream T R S) (o : Option S)
        → stream_at e i slots ≡ some st
        → Gives (Remains e st) (Remains e rest) o
        → Ended (Remains e rest) o
        → Yields (Remains e (conde_stream slots i)) (conde_next e go slots i o rest)
    Yields-conde_next slots i st rest (some s) q g l =
        (put-Gives_from e st rest (some s) g i slots q, λ n. cc)
    Yields-conde_next slots i st rest none q g l =
        let there = stream_at-put e i slots st rest q in
        let place = put-Gives_from e st rest none g i slots q in
        Yields-iff (go (conde_stream (put i rest slots) (suc i)))
          (λ x r. elim (place.splits x r) [
            | inl found ↦ absurd (none-some x found)
            | inr more ↦ elim (from-at e i (put i rest slots) rest there x more) [
              | inl here ↦ absurd (l refl x here)
              | inr later ↦ later
            ]
          ])
          (λ x r. place.kept x (from-later e i (put i rest slots) x r))
          (sound (conde_stream (put i rest slots) (suc i)))
