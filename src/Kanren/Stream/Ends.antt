-- ===== src/Kanren/Stream/Ends.antt =====
-- Streams (kanren/kanren.cpp) that come to an end, and goals without snooze.
pub mod Counts
pub mod Fair
pub mod Plain
use agentc.Kanren.Goal.{
  Goal, succeed, fail, equal, call_fresh, disj, disj_fair, conj, conde, conde_fair, snooze, Clause,
  no_goals, goal, Clauses, no_clauses, clause, Engine, conj_with, conj_all,
}
use agentc.Kanren.Stream.{
  Stream, ready, disj_stream, conj_left, conj_right, conde_stream, Slots, no_slots, factory,
  running, factories, size, put, of_state, Pull, begin, stream_at, pull, next, collected, collect,
  run,
}
use agentc.Kanren.Stream.Places.{stream_at-put}
use agentc.Kanren.Stream.Rounds.{stream_at-put_ne, size-put}
use agentc.Kanren.Stream.Run.{IsAnswered, run-IsAnswered}
use agentc.Prelude.{
  ℕ, zero, suc, ◌+◌, ◌<◌, ◌≤◌, ◌≡◌, ◌⊎◌, inl, inr, refl, sym, ap, ◌∙◌, subst, Bool, true, false,
  ◌&&◌, List, [], ◌∷◌, ◌++◌, ltb, leb, length, if◌then◌else◌, Option, none, some, arith,
  Option-cases, Bool-cases,
}

abbrev mutual
  pub IsPlain : {T R : Type 0} → Goal T R → Type 0
  IsPlain succeed = Unit
  IsPlain fail = Unit
  IsPlain (equal u v) = Unit
  IsPlain {T} (call_fresh f) = (v : T) → IsPlain (f v)
  IsPlain (disj g h) = IsPlain g × IsPlain h
  IsPlain (disj_fair g h) = IsPlain g × IsPlain h
  IsPlain (conj g h) = IsPlain g × IsPlain h
  IsPlain (conde cs) = IsPlainClauses cs
  IsPlain (conde_fair cs) = IsPlainClauses cs
  IsPlain (snooze k) = ⊥

  pub IsPlainClause : {T R : Type 0} → Clause T R → Type 0
  IsPlainClause no_goals = Unit
  IsPlainClause (goal g c) = IsPlain g × IsPlainClause c

  pub IsPlainClauses : {T R : Type 0} → Clauses T R → Type 0
  IsPlainClauses no_clauses = Unit
  IsPlainClauses (clause c cs) = IsPlainClause c × IsPlainClauses cs

module _ {T R S : Type 0} (e : Engine T R S) where
  -- a pull that gives `o`, with all fuel that is enough
  pub record Pulls (st : Stream T R S) (o : Option S) (rest : Stream T R S) : Type 0 where
    pub fuel : ℕ
    pub reaches : (k : ℕ) → fuel ≤ k → next e k st ≡ some (o, rest)

  -- a stream that gives nothing, however often it is pulled
  pub record Settled (st : Stream T R S) : Type 0 where
    pub after : ℕ → Stream T R S
    pub starts : after 0 ≡ st
    pub pulls : (i : ℕ) → Pulls (after i) none (after (suc i))

  -- The stream gives states, one for each `more`, and comes to its end.
  pub data Drains : Stream T R S → Type 0 where
    over : {st : Stream T R S} → Settled st → Drains st
    more : {st rest : Stream T R S} (s : S) → Pulls st (some s) rest → Drains rest → Drains st

  pub Pulls-step :
      (st : Stream T R S) (o : Option S) (rest : Stream T R S) (f : ℕ)
      → ((k : ℕ) → f ≤ k → pull e (next e k) st ≡ some (o, rest))
      → Pulls st o rest
  unfolding next
  Pulls-step st o rest f h = record { fuel = suc f; reaches = after_one }
    where
      after_one : (k : ℕ) → suc f ≤ k → next e k st ≡ some (o, rest)
      after_one zero l = absurd (omega arith)
      after_one (suc k) l = h k (omega arith)

  pub Settled-next :
      (st : Stream T R S) → Settled st → (rest : Stream T R S) × Pulls st none rest × Settled rest
  Settled-next st v = (
    v.after 1,
    subst (λ x. Pulls x none (v.after 1)) v.starts (v.pulls 0),
    record { after = λ i. v.after (suc i); starts = refl; pulls = λ i. v.pulls (suc i) },
  )

  pub Settled-before : (st rest : Stream T R S) → Pulls st none rest → Settled rest → Settled st
  Settled-before st rest p v = record { after = from_it; starts = refl; pulls = each }
    where
      from_it : ℕ → Stream T R S
      from_it zero = st
      from_it (suc i) = v.after i

      each : (i : ℕ) → Pulls (from_it i) none (from_it (suc i))
      each zero = subst (λ x. Pulls st none x) (sym v.starts) p
      each (suc i) = v.pulls i

  -- What holds of a stream and of what a pull leaves, a pull that gives nothing, settles it.
  pub Settled-by :
      (P : Stream T R S → Type 0)
      → ((st : Stream T R S) → P st → (rest : Stream T R S) × Pulls st none rest × P rest)
      → (st : Stream T R S) → P st
      → Settled st
  Settled-by P step st p = record {
    after = λ i. (at i).0;
    starts = refl;
    pulls = λ i. (step (at i).0 (at i).1).1;
  }
    where
      at : ℕ → (x : Stream T R S) × P x
      at zero = (st, p)
      at (suc i) = let n = step (at i).0 (at i).1 in (n.0, n.2)

  -- a stream whose pull is, from some fuel on, the pull of another
  Pulls-turn :
      (st other : Stream T R S) (f : ℕ)
      → ((k : ℕ) → f ≤ k → pull e (next e k) st ≡ next e k other)
      → (o : Option S) (rest : Stream T R S) → Pulls other o rest
      → Pulls st o rest
  Pulls-turn st other f h o rest p =
      Pulls-step st o rest (f + p.fuel)
        (λ k l. h k (omega (arith, l)) ∙ p.reaches k (omega (arith, l)))

  pub Drains-turn :
      (st other : Stream T R S) (f : ℕ)
      → ((k : ℕ) → f ≤ k → pull e (next e k) st ≡ next e k other)
      → Drains other
      → Drains st
  Drains-turn st other f h (over v) =
      let n = Settled-next other v in
      over (Settled-before st n.0 (Pulls-turn st other f h none n.0 n.1) n.2)
  Drains-turn st other f h (more {rest = rest} s p d) =
      more s (Pulls-turn st other f h (some s) rest p) d

  pub Drains-ready : (ss : List S) → Drains (ready ss)
  unfolding pull
  Drains-ready [] = over (record {
    after = λ i. ready [];
    starts = refl;
    pulls = λ i. Pulls-step (ready []) none (ready []) 0 (λ k l. refl);
  })
  Drains-ready (s ∷ ss) =
      more s (Pulls-step (ready (s ∷ ss)) (some s) (ready ss) 0 (λ k l. refl)) (Drains-ready ss)

  pub Drains-of_state : (o : Option S) → Drains (of_state o)
  Drains-of_state none = Drains-ready []
  Drains-of_state (some s) = Drains-ready (s ∷ [])

  Settled-right :
      (left right : Stream T R S) → Settled right → Settled (disj_stream left right false)
  unfolding pull
  Settled-right left right v = record {
    after = λ i. disj_stream left (v.after i) false;
    starts = ap (λ x. disj_stream left x false) v.starts;
    pulls = λ i.
        let p = v.pulls i in
        Pulls-step (disj_stream left (v.after i) false) none
          (disj_stream left (v.after (suc i)) false) p.fuel (λ k l. rw (p.reaches k l) refl);
  }

  pub Drains-disj_right :
      (left right : Stream T R S) → Drains right → Drains (disj_stream left right false)
  unfolding pull
  Drains-disj_right left right (over v) = over (Settled-right left right v)
  Drains-disj_right left right (more {rest = rest} s p d) =
      more s
        (Pulls-step (disj_stream left right false) (some s) (disj_stream left rest false) p.fuel
          (λ k l. rw (p.reaches k l) refl))
        (Drains-disj_right left rest d)

  pub Drains-disj :
      (left right : Stream T R S)
      → Drains left
      → Drains right
      → Drains (disj_stream left right true)
  unfolding pull
  Drains-disj left right (over v) (over w) =
      let (gone, p, x) = Settled-next left v in
      let (rest, q, y) = Settled-next right w in
      over (
        Settled-before (disj_stream left right true) (disj_stream gone rest false)
          (Pulls-step (disj_stream left right true) none (disj_stream gone rest false)
            (p.fuel + q.fuel)
            (λ k l. rw (p.reaches k (omega (arith, l)), q.reaches k (omega (arith, l))) refl))
          (Settled-right gone rest y))
  Drains-disj left right (over v) (more {rest = rest} s q d) =
      let (gone, p, x) = Settled-next left v in
      more s
        (Pulls-step (disj_stream left right true) (some s) (disj_stream gone rest false)
          (p.fuel + q.fuel)
          (λ k l. rw (p.reaches k (omega (arith, l)), q.reaches k (omega (arith, l))) refl))
        (Drains-disj_right gone rest d)
  Drains-disj left right (more {rest = rest} s p d) r =
      more s
        (Pulls-step (disj_stream left right true) (some s) (disj_stream rest right true) p.fuel
          (λ k l. rw (p.reaches k l) refl))
        (Drains-disj rest right d r)

  pub Drains-conj_right :
      (left current : Stream T R S) (h : Goal T R)
      → Drains (conj_left left h)
      → Drains current
      → Drains (conj_right left h current)
  unfolding pull
  Drains-conj_right left current h l (over v) =
      let (gone, p, x) = Settled-next current v in
      Drains-turn (conj_right left h current) (conj_left left h) p.fuel
        (λ k m. rw (p.reaches k m) refl) l
  Drains-conj_right left current h l (more {rest = rest} s p d) =
      more s
        (Pulls-step (conj_right left h current) (some s) (conj_right left h rest) p.fuel
          (λ k m. rw (p.reaches k m) refl))
        (Drains-conj_right left rest h l d)

  pub Drains-conj_left :
      (left : Stream T R S) (h : Goal T R)
      → Drains left
      → ((s : S) → Drains (begin e h s))
      → Drains (conj_left left h)
  unfolding pull
  Drains-conj_left left h (over v) b = over (record {
    after = λ i. conj_left (v.after i) h;
    starts = ap (λ x. conj_left x h) v.starts;
    pulls = λ i.
        let p = v.pulls i in
        Pulls-step (conj_left (v.after i) h) none (conj_left (v.after (suc i)) h) p.fuel
          (λ k l. rw (p.reaches k l) refl);
  })
  Drains-conj_left left h (more {rest = rest} s p d) b =
      Drains-turn (conj_left left h) (conj_right rest h (begin e h s)) p.fuel
        (λ k l. rw (p.reaches k l) refl)
        (Drains-conj_right rest (begin e h s) h (Drains-conj_left rest h d b) (b s))
