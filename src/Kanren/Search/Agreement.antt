-- ===== src/Kanren/Search/Agreement.antt =====
-- Streams (kanren/kanren.cpp) that ask for no unification which does not return: more steps
-- for the unifications give the same pulls.
use agentc.Kanren.Goal.{Goal}
use agentc.Kanren.Term.{Term}
use agentc.Kanren.Unify.{State}
use agentc.Kanren.Unify.Fuel.{unify_more}
use agentc.Kanren.Search.{
  settled, kanren, Returns, returns_succeed, returns_fail, returns_equal, returns_fresh,
  returns_disj, returns_disj_fair, returns_conj, returns_conde, returns_conde_fair,
}
use agentc.Kanren.Search.Safety.{
  Safe, SafeSlots, Safe-begin, SafeSlots-put, SafePlace, SafePlace-stream_at,
}
use agentc.Kanren.Stream.{
  Stream, ready, snoozed, woken, disj_stream, conj_left, conj_right, conde_stream, interleaved,
  Slots, no_slots, factory, running, size, put, of_state, Pull, begin, stream_at, after, disj_next,
  conj_left_next, conj_right_next, conde_next, conde_at, interleaved_next, interleaved_at, check,
  pull, next,
}
use agentc.Kanren.Stream.Answers.{Remains, Gives}
use agentc.Kanren.Stream.Pulls.{Yields}
use agentc.Kanren.Stream.Run.{next-Yields}
use agentc.Prelude.{
  ℕ, zero, suc, ◌%◌, ◌≤◌, ◌≡◌, refl, sym, ap, ◌∙◌, true, false, [], ◌∷◌, Option, none, some,
}

module _ {R : Type 0} (thunk : R → Goal Term R) (n : ℕ) where
  abbrev pub SafePull : Pull Term R State → Type 0
  SafePull none = Unit
  SafePull (some (o, rest)) = Safe thunk n rest

  -- the same pull, and safe
  abbrev pub Agree : Pull Term R State → Pull Term R State → Type 0
  Agree p q = (p ≡ q) × SafePull p

  Agree-on : (p q r : Pull Term R State) → Agree p q → q ≡ r → Agree p r
  Agree-on p q r (x, h) y = (x ∙ y, h)

  module _ (m : ℕ) (l : n ≤ m) where
    pub begin_same :
        {g : Goal Term R} {s : State}
        → Returns thunk n g s
        → begin (kanren thunk n) g s ≡ begin (kanren thunk m) g s
    unfolding begin kanren
    begin_same returns_succeed = refl
    begin_same returns_fail = refl
    begin_same (returns_equal {u = u} {v = v} {s = s} r q) =
        ap (λ o. of_state (settled o)) (q ∙ sym (unify_more n m s u v r l q))
    begin_same (returns_fresh x) = begin_same x
    begin_same (returns_disj {g = g} {h = h} {s = s} x y) =
        ap (λ z. disj_stream z (begin (kanren thunk n) h s) true) (begin_same x)
        ∙ ap (λ z. disj_stream (begin (kanren thunk m) g s) z true) (begin_same y)
    begin_same (returns_disj_fair x y) = refl
    begin_same (returns_conj {h = h} x f) = ap (λ z. conj_left z h) (begin_same x)
    begin_same (returns_conde f) = refl
    begin_same (returns_conde_fair f) = refl

    stream_same :
        (i : ℕ) (slots : Slots Term R State)
        → SafeSlots thunk n slots
        → stream_at (kanren thunk n) i slots ≡ stream_at (kanren thunk m) i slots
    stream_same i no_slots h = refl
    stream_same zero (factory g s slots) (x, h) = ap some (begin_same x)
    stream_same zero (running st slots) (x, h) = refl
    stream_same (suc i) (factory g s slots) (x, h) = stream_same i slots h
    stream_same (suc i) (running st slots) (x, h) = stream_same i slots h

    after-Agree :
        (before : State → Type 0) (p : Pull Term R State)
        (k k' : Option State → Stream Term R State → Pull Term R State)
        → SafePull p
        → Yields (kanren thunk n) before p
        → ((o : Option State) (rest : Stream Term R State)
            → Safe thunk n rest
            → Gives before (Remains (kanren thunk n) rest) o
            → Agree (k o rest) (k' o rest))
        → Agree (after (kanren thunk n) p k) (after (kanren thunk m) p k')
    after-Agree before none k k' x y h = (refl, tt)
    after-Agree before (some (o, rest)) k k' x (g, d) h = h o rest x g

    module _ (go more : Stream Term R State → Pull Term R State)
        (agrees : (st : Stream Term R State) → Safe thunk n st → Agree (go st) (more st))
        (sound : (st : Stream Term R State)
          → Yields (kanren thunk n) (Remains (kanren thunk n) st) (go st)) where
      -- a pull of a stream and what is done with it
      pulled-Agree :
          (st : Stream Term R State) (k k' : Option State → Stream Term R State → Pull Term R State)
          → Safe thunk n st
          → ((o : Option State) (rest : Stream Term R State)
              → Safe thunk n rest
              → Gives (Remains (kanren thunk n) st) (Remains (kanren thunk n) rest) o
              → Agree (k o rest) (k' o rest))
          → Agree (after (kanren thunk n) (go st) k) (after (kanren thunk m) (more st) k')
      pulled-Agree st k k' x h =
          let (same, safe) = agrees st x in
          Agree-on (after (kanren thunk n) (go st) k) (after (kanren thunk m) (go st) k')
            (after (kanren thunk m) (more st) k')
            (after-Agree (Remains (kanren thunk n) st) (go st) k k' safe (sound st) h)
            (ap (λ p. after (kanren thunk m) p k') same)

      right-Agree :
          (left right : Stream Term R State)
          → Safe thunk n left
          → Safe thunk n right
          → Agree
              (after (kanren thunk n) (go right) (λ o st. some (o, disj_stream left st false)))
              (after (kanren thunk m) (more right) (λ o st. some (o, disj_stream left st false)))
      right-Agree left right x y =
          pulled-Agree right (λ o st. some (o, disj_stream left st false))
            (λ o st. some (o, disj_stream left st false)) y (λ o rest z g. (refl, (x, z)))

      disj_next-Agree :
          (right : Stream Term R State)
          → Safe thunk n right
          → (o : Option State) (rest : Stream Term R State) → Safe thunk n rest
          → Agree
              (disj_next (kanren thunk n) go right o rest)
              (disj_next (kanren thunk m) more right o rest)
      disj_next-Agree right y (some s) rest x = (refl, (x, y))
      disj_next-Agree right y none rest x = right-Agree rest right x y

      conj_left_next-Agree :
          (left : Stream Term R State) (h : Goal Term R)
          → ((t : State) → Remains (kanren thunk n) left t → Returns thunk n h t)
          → (o : Option State) (rest : Stream Term R State) → Safe thunk n rest
          → Gives (Remains (kanren thunk n) left) (Remains (kanren thunk n) rest) o
          → Agree
              (conj_left_next (kanren thunk n) go h o rest)
              (conj_left_next (kanren thunk m) more h o rest)
      conj_left_next-Agree left h f none rest x g = (refl, (x, λ t r. f t (g.kept t r)))
      conj_left_next-Agree left h f (some s) rest x g =
          let ready_h = f s (g.given s refl) in
          let current = begin (kanren thunk n) h s in
          Agree-on (go (conj_right rest h current)) (more (conj_right rest h current))
            (more (conj_right rest h (begin (kanren thunk m) h s)))
            (agrees (conj_right rest h current)
              (x, (λ t r. f t (g.kept t r)), Safe-begin thunk n ready_h))
            (ap (λ z. more (conj_right rest h z)) (begin_same ready_h))

      conj_right_next-Agree :
          (left : Stream Term R State) (h : Goal Term R)
          → Safe thunk n (conj_left left h)
          → (o : Option State) (rest : Stream Term R State) → Safe thunk n rest
          → Agree
              (conj_right_next (kanren thunk n) go left h o rest)
              (conj_right_next (kanren thunk m) more left h o rest)
      conj_right_next-Agree left h (x, f) (some s) rest y = (refl, (x, f, y))
      conj_right_next-Agree left h v none rest y = agrees (conj_left left h) v

      conde_next-Agree :
          (slots : Slots Term R State) (i : ℕ)
          → SafeSlots thunk n slots
          → (o : Option State) (rest : Stream Term R State) → Safe thunk n rest
          → Agree
              (conde_next (kanren thunk n) go slots i o rest)
              (conde_next (kanren thunk m) more slots i o rest)
      conde_next-Agree slots i h (some s) rest x = (refl, SafeSlots-put thunk n i rest slots x h)
      conde_next-Agree slots i h none rest x =
          agrees (conde_stream (put i rest slots) (suc i)) (SafeSlots-put thunk n i rest slots x h)

      conde_at-Agree :
          (slots : Slots Term R State) (i : ℕ) (o : Option (Stream Term R State))
          → SafeSlots thunk n slots
          → SafePlace thunk n o
          → Agree
              (conde_at (kanren thunk n) go slots i o)
              (conde_at (kanren thunk m) more slots i o)
      conde_at-Agree slots i none h x = (refl, h)
      conde_at-Agree slots i (some st) h x =
          pulled-Agree st (conde_next (kanren thunk n) go slots i)
            (conde_next (kanren thunk m) more slots i) x
            (λ o rest y g. conde_next-Agree slots i h o rest y)

      abbrev SameRounds :
          (Slots Term R State → ℕ → Pull Term R State)
          → (Slots Term R State → ℕ → Pull Term R State)
          → Type 0
      SameRounds rounds other =
          (slots : Slots Term R State) (i : ℕ)
          → SafeSlots thunk n slots
          → Agree (rounds slots i) (other slots i)

      interleaved_next-Agree :
          (rounds other : Slots Term R State → ℕ → Pull Term R State)
          → SameRounds rounds other
          → (slots : Slots Term R State) (i : ℕ) → SafeSlots thunk n slots
          → (o : Option State) (rest : Stream Term R State) → Safe thunk n rest
          → Agree
              (interleaved_next (kanren thunk n) rounds slots i o rest)
              (interleaved_next (kanren thunk m) other slots i o rest)
      interleaved_next-Agree rounds other same slots i h (some s) rest x =
          (refl, SafeSlots-put thunk n (i % size slots) rest slots x h)
      interleaved_next-Agree rounds other same slots i h none rest x =
          same (put (i % size slots) rest slots) (suc i)
            (SafeSlots-put thunk n (i % size slots) rest slots x h)

      interleaved_at-Agree :
          (rounds other : Slots Term R State → ℕ → Pull Term R State)
          → SameRounds rounds other
          → (slots : Slots Term R State) (i : ℕ) (o : Option (Stream Term R State))
          → SafeSlots thunk n slots
          → SafePlace thunk n o
          → Agree
              (interleaved_at (kanren thunk n) go rounds slots i o)
              (interleaved_at (kanren thunk m) more other slots i o)
      interleaved_at-Agree rounds other same slots i none h x = (refl, h)
      interleaved_at-Agree rounds other same slots i (some st) h x =
          pulled-Agree st (interleaved_next (kanren thunk n) rounds slots i)
            (interleaved_next (kanren thunk m) other slots i) x
            (λ o rest y g. interleaved_next-Agree rounds other same slots i h o rest y)

      check-Agree :
          (left : ℕ)
          → SameRounds (check (kanren thunk n) go left) (check (kanren thunk m) more left)
      unfolding check
      check-Agree zero slots i h = (refl, h)
      check-Agree (suc left) slots i h =
          let place = stream_at (kanren thunk n) (i % size slots) slots in
          let rounds = check (kanren thunk n) go left in
          let other = check (kanren thunk m) more left in
          Agree-on (interleaved_at (kanren thunk n) go rounds slots i place)
            (interleaved_at (kanren thunk m) more other slots i place)
            (interleaved_at (kanren thunk m) more other slots i
              (stream_at (kanren thunk m) (i % size slots) slots))
            (interleaved_at-Agree rounds other (check-Agree left) slots i place h
              (SafePlace-stream_at thunk n (i % size slots) slots h))
            (ap (interleaved_at (kanren thunk m) more other slots i)
              (stream_same (i % size slots) slots h))

      pull-Agree :
          (st : Stream Term R State)
          → Safe thunk n st
          → Agree (pull (kanren thunk n) go st) (pull (kanren thunk m) more st)
      unfolding pull
      pull-Agree (ready []) x = (refl, tt)
      pull-Agree (ready (s ∷ ss)) x = (refl, tt)
      pull-Agree (snoozed k s) x = elim x [ ]
      pull-Agree (woken inner) x = elim x [ ]
      pull-Agree (disj_stream left right true) (x, y) =
          pulled-Agree left (disj_next (kanren thunk n) go right)
            (disj_next (kanren thunk m) more right) x
            (λ o rest z g. disj_next-Agree right y o rest z)
      pull-Agree (disj_stream left right false) (x, y) = right-Agree left right x y
      pull-Agree (conj_left left h) (x, f) =
          pulled-Agree left (conj_left_next (kanren thunk n) go h)
            (conj_left_next (kanren thunk m) more h) x (conj_left_next-Agree left h f)
      pull-Agree (conj_right left h current) (x, f, y) =
          pulled-Agree current (conj_right_next (kanren thunk n) go left h)
            (conj_right_next (kanren thunk m) more left h) y
            (λ o rest z g. conj_right_next-Agree left h (x, f) o rest z)
      pull-Agree (conde_stream slots i) h =
          let place = stream_at (kanren thunk n) i slots in
          Agree-on (conde_at (kanren thunk n) go slots i place)
            (conde_at (kanren thunk m) more slots i place)
            (conde_at (kanren thunk m) more slots i (stream_at (kanren thunk m) i slots))
            (conde_at-Agree slots i place h (SafePlace-stream_at thunk n i slots h))
            (ap (conde_at (kanren thunk m) more slots i) (stream_same i slots h))
      pull-Agree (interleaved slots i) h = check-Agree (size slots) slots i h

    pub next-Agree :
        (k : ℕ) (st : Stream Term R State)
        → Safe thunk n st
        → Agree (next (kanren thunk n) k st) (next (kanren thunk m) k st)
    unfolding next
    next-Agree zero st x = (refl, tt)
    next-Agree (suc k) st x =
        pull-Agree (next (kanren thunk n) k) (next (kanren thunk m) k) (next-Agree k)
          (next-Yields (kanren thunk n) k) st x
