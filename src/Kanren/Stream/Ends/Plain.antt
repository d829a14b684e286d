-- ===== src/Kanren/Stream/Ends/Plain.antt =====
-- The runs (kanren/kanren.cpp, `run`) of goals without snooze.
use agentc.Kanren.Goal.{
  Goal, succeed, fail, equal, call_fresh, disj, disj_fair, conj, conde, conde_fair, snooze, Clause,
  no_goals, goal, Clauses, no_clauses, clause, Engine, conj_with, conj_all,
}
use agentc.Kanren.Stream.{
  Stream, conde_stream, interleaved, Slots, no_slots, factory, running, factories, size, put, begin,
  stream_at, pull, collected, collect, run,
}
use agentc.Kanren.Stream.Pulls.{none-some, some_inj}
use agentc.Kanren.Stream.Places.{stream_at-put}
use agentc.Kanren.Stream.Rounds.{stream_at-put_ne, size-put}
use agentc.Kanren.Stream.Run.{IsAnswered, run-IsAnswered}
use agentc.Kanren.Stream.Ends.{
  IsPlain, IsPlainClause, IsPlainClauses, Pulls, Settled-next, Drains, over, more, Pulls-step,
  Drains-turn, Drains-ready, Drains-of_state, Drains-disj, Drains-conj_left,
}
use agentc.Kanren.Stream.Ends.Fair.{Drains-interleaved}
use agentc.Kanren.Stream.Ends.Counts.{sum, Drains-count, Counted}
use agentc.Prelude.{
  ℕ, zero, suc, ◌+◌, ◌≤◌, ◌≡◌, refl, sym, ◌∙◌, subst, ◌&&◌, List, [], ◌∷◌, ◌++◌, ltb, leb, length,
  Option, none, some, arith, inl, inr, Option-cases, Bool-cases,
}

module _ {T R S : Type 0} (e : Engine T R S) where
  abbrev AllDrain : ℕ → Slots T R S → Type 0
  AllDrain i slots =
      (p : ℕ) (st : Stream T R S) → i ≤ p → stream_at e p slots ≡ some st → Drains e st

  AllDrain-put :
      (i : ℕ) (st : Stream T R S) (slots : Slots T R S)
      → AllDrain (suc i) slots
      → AllDrain (suc i) (put i st slots)
  AllDrain-put i st slots all p found l q =
      all p found l (sym (stream_at-put_ne e p i st slots (λ same. omega (arith, same, l))) ∙ q)

  conde_at-Drains :
      (slots : Slots T R S) (i : ℕ) (st : Stream T R S)
      → ((after : Slots T R S)
          → size after ≡ size slots
          → AllDrain (suc i) after
          → Drains e (conde_stream after (suc i)))
      → AllDrain (suc i) slots
      → stream_at e i slots ≡ some st
      → Drains e st
      → Drains e (conde_stream slots i)
  unfolding pull
  conde_at-Drains slots i st ih all q (over v) =
      let (rest, p, x) = Settled-next e st v in
      Drains-turn e (conde_stream slots i) (conde_stream (put i rest slots) (suc i)) p.fuel
        (λ k l. rw (q, p.reaches k l) refl)
        (ih (put i rest slots) (size-put e i rest slots) (AllDrain-put i rest slots all))
  conde_at-Drains slots i st ih all q (more {rest = rest} s p d) =
      more s
        (Pulls-step e (conde_stream slots i) (some s) (conde_stream (put i rest slots) i) p.fuel
          (λ k l. rw (q, p.reaches k l) refl))
        (conde_at-Drains (put i rest slots) i rest
          (λ after n a. ih after (n ∙ size-put e i rest slots) a) (AllDrain-put i rest slots all)
          (stream_at-put e i slots st rest q) d)

  past_size : (i : ℕ) (slots : Slots T R S) → size slots ≤ i → stream_at e i slots ≡ none
  past_size i no_slots l = refl
  past_size zero (factory g s slots) l = absurd (omega arith)
  past_size zero (running st slots) l = absurd (omega arith)
  past_size (suc i) (factory g s slots) l = past_size i slots (omega arith)
  past_size (suc i) (running st slots) l = past_size i slots (omega arith)

  conde_past-Drains :
      (slots : Slots T R S) (i : ℕ) → stream_at e i slots ≡ none → Drains e (conde_stream slots i)
  unfolding pull
  conde_past-Drains slots i q = over (record {
    after = λ n. conde_stream slots i;
    starts = refl;
    pulls =
        λ n. Pulls-step e (conde_stream slots i) none (conde_stream slots i) 0 (λ k l. rw q refl);
  })

  conde_stream-Drains :
      (n : ℕ) (slots : Slots T R S) (i : ℕ)
      → size slots ≤ i + n
      → AllDrain i slots
      → Drains e (conde_stream slots i)
  conde_stream-Drains zero slots i l all =
      conde_past-Drains slots i (past_size i slots (omega (arith, l)))
  conde_stream-Drains (suc n) slots i l all = elim (Option-cases (stream_at e i slots)) [
    | inl past ↦ conde_past-Drains slots i past
    | inr (st, q) ↦
        conde_at-Drains slots i st
          (λ after same a. conde_stream-Drains n after (suc i) (omega (arith, same, l)) a)
          (λ p found m r. all p found (omega (arith, m)) r) q (all i st (omega arith) q)
  ]

  fair-Drains :
      (cs : List ℕ) (slots : Slots T R S) → Counted e cs slots → Drains e (interleaved slots 0)
  fair-Drains cs slots v = Drains-interleaved e (sum cs) cs slots 0 refl v

  mutual
    unfolding begin

    begin-Drains : (g : Goal T R) → IsPlain g → (s : S) → Drains e (begin e g s)
    begin-Drains succeed p s = Drains-ready e (s ∷ [])
    begin-Drains fail p s = Drains-ready e []
    begin-Drains (equal u v) p s = Drains-of_state e (e.unify s u v)
    begin-Drains (call_fresh f) p s = begin-Drains (f (e.fresh s).0) (p (e.fresh s).0) (e.fresh s).1
    begin-Drains (disj g h) (p, q) s =
        Drains-disj e (begin e g s) (begin e h s) (begin-Drains g p s) (begin-Drains h q s)
    begin-Drains (disj_fair g h) (p, q) s =
        let (n, c) = Drains-count e (begin e g s) (begin-Drains g p s) in
        let (m, d) = Drains-count e (begin e h s) (begin-Drains h q s) in
        fair-Drains (n ∷ m ∷ []) (factory g s (factory h s no_slots)) (c, (d, tt))
    begin-Drains (conj g h) (p, q) s =
        Drains-conj_left e (begin e g s) h (begin-Drains g p s) (begin-Drains h q)
    begin-Drains (conde cs) p s =
        conde_stream-Drains (size (factories s cs)) (factories s cs) 0 (omega arith)
          (λ i st l. factories-Drain cs p s i st)
    begin-Drains (conde_fair cs) p s =
        let (ns, v) = factories-Counted cs p s in fair-Drains ns (factories s cs) v
    begin-Drains (snooze k) p s = elim p [ ]

    conj_with-Drains :
        (c : Clause T R)
        → IsPlainClause c
        → (g : Goal T R) → ((s : S) → Drains e (begin e g s))
        → (s : S) → Drains e (begin e (conj_with g c) s)
    conj_with-Drains no_goals p g d s = d s
    conj_with-Drains (goal h c) (p, q) g d s =
        conj_with-Drains c q (conj g h)
          (λ t. Drains-conj_left e (begin e g t) h (d t) (begin-Drains h p)) s

    conj_all-Drains :
        (c : Clause T R) → IsPlainClause c → (s : S) → Drains e (begin e (conj_all c) s)
    conj_all-Drains no_goals p s = Drains-ready e (s ∷ [])
    conj_all-Drains (goal g c) (p, q) s = conj_with-Drains c q g (begin-Drains g p) s

    factories-Counted :
        (cs : Clauses T R)
        → IsPlainClauses cs
        → (s : S) → (ns : List ℕ) × Counted e ns (factories s cs)
    factories-Counted no_clauses p s = ([], tt)
    factories-Counted (clause c cs) (p, q) s =
        let (n, d) = Drains-count e (begin e (conj_all c) s) (conj_all-Drains c p s) in
        let (ns, v) = factories-Counted cs q s in (n ∷ ns, (d, v))

    factories-Drain :
        (cs : Clauses T R)
        → IsPlainClauses cs
        → (s : S) (i : ℕ) (st : Stream T R S) → stream_at e i (factories s cs) ≡ some st
        → Drains e st
    factories-Drain no_clauses p s i st q = absurd (none-some e st q)
    factories-Drain (clause c cs) (p, r) s zero st q =
        subst (λ t. Drains e t) (some_inj e q) (conj_all-Drains c p s)
    factories-Drain (clause c cs) (p, r) s (suc i) st q = factories-Drain cs r s i st q

  module _ {V : Type 0} (answer : S → V) (limit : ℕ) where
    collected-more :
        (go : List V → Stream T R S → Option (List V)) (out : List V) (s : S) (st : Stream T R S)
        → ((found : List V) × (go (out ++ answer s ∷ []) st ≡ some found))
        → (found : List V) × (collected e go answer limit out (some (some s, st)) ≡ some found)
    collected-more go out s st (found, q) =
        elim (Bool-cases (ltb 0 limit && leb limit (length (out ++ answer s ∷ [])))) [
          | inl full ↦ (out ++ answer s ∷ [], rw full refl)
          | inr not_yet ↦ (found, rw not_yet q)
        ]

    -- enough fuel, and with it or more the answers
    Collects : List V → Stream T R S → Type 0
    Collects out st =
        (f : ℕ) × ((k : ℕ)
          → f ≤ k
          → (found : List V) × (collect e answer k limit out st ≡ some found))

    collect-Drains : (out : List V) (st : Stream T R S) → Drains e st → Collects out st
    unfolding collect Collects
    collect-Drains out st (over v) =
        let (rest, p, x) = Settled-next e st v in (suc p.fuel, at_end p)
      where
        at_end :
            {rest : Stream T R S} (p : Pulls e st none rest) (k : ℕ)
            → suc p.fuel ≤ k
            → (found : List V) × (collect e answer k limit out st ≡ some found)
        at_end p zero l = absurd (omega arith)
        at_end p (suc k) l = (out, rw (p.reaches k (omega arith)) refl)
    collect-Drains out st (more {rest = rest} s p d) =
        let later = collect-Drains (out ++ answer s ∷ []) rest d in
        (suc (p.fuel + later.0), with_one later)
      where
        with_one :
            (later : Collects (out ++ answer s ∷ []) rest) (k : ℕ)
            → suc (p.fuel + later.0) ≤ k
            → (found : List V) × (collect e answer k limit out st ≡ some found)
        with_one later zero l = absurd (omega arith)
        with_one later (suc k) l =
            rw (p.reaches k (omega arith))
              (collected-more (collect e answer k limit) out s rest (later.1 k (omega arith)))

    -- With an engine whose unification returns, `run` returns with enough fuel on a goal without snooze:
    -- answers of the goal, at most `limit` of them, and all of them where the limit is 0 or was not
    -- reached.
    pub run-plain :
        (g : Goal T R)
        → IsPlain g
        → (s : S)
        → (fuel : ℕ) × (found : List V) × (run e answer fuel limit g s ≡ some found)
          × IsAnswered e answer limit g s found
    unfolding run Collects
    run-plain g p s =
        let c = collect-Drains [] (begin e g s) (begin-Drains g p s) in
        let r = c.1 c.0 (omega arith) in
        (c.0, r.0, r.1, run-IsAnswered e answer limit c.0 g s r.0 r.1)
