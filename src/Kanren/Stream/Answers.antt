-- ===== src/Kanren/Stream/Answers.antt =====
-- What a stream (kanren/kanren.cpp) has still to give, against what its goal means.
use agentc.Kanren.Goal.{
  Goal, succeed, fail, equal, call_fresh, disj, disj_fair, conj, conde, conde_fair, snooze, Clause,
  Clauses, no_clauses, clause, Engine, conj_all,
}
use agentc.Kanren.Stream.{
  Stream, ready, snoozed, woken, disj_stream, conj_left, conj_right, conde_stream, interleaved,
  Slots, no_slots, factory, running, factories, of_state, begin, after,
}
use agentc.Prelude.{
  ℕ, zero, suc, ◌≡◌, ◌⊎◌, inl, inr, refl, sym, ap, true, false, List, [], ◌∷◌, Option, none, some,
}

abbrev pub Among : {A : Type 0} → A → List A → Type 0
Among x [] = ⊥
Among x (y ∷ ys) = (x ≡ y) ⊎ Among x ys

abbrev pub IsClause : {T R : Type 0} → Clause T R → Clauses T R → Type 0
IsClause c no_clauses = ⊥
IsClause c (clause d ds) = (c ≡ d) ⊎ IsClause c ds

module _ {S : Type 0} where
  -- What is left in `after`, and the state `o` make up what was left in `before`.
  pub record Gives (before after : S → Type 0) (o : Option S) : Type 0 where
    pub splits : (x : S) → before x → (o ≡ some x) ⊎ after x
    pub given : (x : S) → o ≡ some x → before x
    pub kept : (x : S) → after x → before x

  -- At the end nothing is left.
  abbrev pub Ended : (S → Type 0) → Option S → Type 0
  Ended after o = o ≡ none → (x : S) → after x → ⊥

module _ {T R S : Type 0} (e : Engine T R S) where
  -- `Solves g s t`: the goal g takes the state s to the state t.
  pub data Solves : Goal T R → S → S → Type 0 where
    solves_succeed : {s t : S} → s ≡ t → Solves succeed s t
    solves_equal : {u v : T} {s t : S} → e.unify s u v ≡ some t → Solves (equal u v) s t
    solves_fresh :
        {f : T → Goal T R} {s t : S}
        → Solves (f (e.fresh s).0) (e.fresh s).1 t
        → Solves (call_fresh f) s t
    solves_left : {g h : Goal T R} {s t : S} → Solves g s t → Solves (disj g h) s t
    solves_right : {g h : Goal T R} {s t : S} → Solves h s t → Solves (disj g h) s t
    fair_left : {g h : Goal T R} {s t : S} → Solves g s t → Solves (disj_fair g h) s t
    fair_right : {g h : Goal T R} {s t : S} → Solves h s t → Solves (disj_fair g h) s t
    solves_both : {g h : Goal T R} {s m t : S} → Solves g s m → Solves h m t → Solves (conj g h) s t
    solves_conde :
        {cs : Clauses T R} {s t : S} (c : Clause T R)
        → IsClause c cs
        → Solves (conj_all c) s t
        → Solves (conde cs) s t
    solves_conde_fair :
        {cs : Clauses T R} {s t : S} (c : Clause T R)
        → IsClause c cs
        → Solves (conj_all c) s t
        → Solves (conde_fair cs) s t
    solves_snooze : {k : R} {s t : S} → Solves (e.thunk k) s t → Solves (snooze k) s t

  abbrev mutual
    pub Remains : Stream T R S → S → Type 0
    Remains (ready ss) t = Among t ss
    Remains (snoozed k s) t = Solves (e.thunk k) s t
    Remains (woken st) t = Remains st t
    Remains (disj_stream l r true) t = Remains l t ⊎ Remains r t
    Remains (disj_stream l r false) t = Remains r t
    Remains (conj_left l h) t = (m : S) × Remains l m × Solves h m t
    Remains (conj_right l h c) t = Remains c t ⊎ ((m : S) × Remains l m × Solves h m t)
    Remains (conde_stream slots i) t = RemainsFrom i slots t
    Remains (interleaved slots i) t = RemainsFrom 0 slots t

    pub RemainsFrom : ℕ → Slots T R S → S → Type 0
    RemainsFrom i no_slots t = ⊥
    RemainsFrom zero (factory g s slots) t = Solves g s t ⊎ RemainsFrom 0 slots t
    RemainsFrom zero (running st slots) t = Remains st t ⊎ RemainsFrom 0 slots t
    RemainsFrom (suc i) (factory g s slots) t = RemainsFrom i slots t
    RemainsFrom (suc i) (running st slots) t = RemainsFrom i slots t

  of_state-unify : (o : Option S) (t : S) → Remains (of_state o) t → o ≡ some t
  of_state-unify none t r = elim r [ ]
  of_state-unify (some s) t (inl p) = ap some (sym p)
  of_state-unify (some s) t (inr r) = elim r [ ]

  Remains-of_state : (o : Option S) (t : S) → o ≡ some t → Remains (of_state o) t
  Remains-of_state none t p = cc
  Remains-of_state (some s) t p = inl (cc)

  clause_of_remains :
      (cs : Clauses T R) (s t : S)
      → RemainsFrom 0 (factories s cs) t
      → (c : Clause T R) × IsClause c cs × Solves (conj_all c) s t
  clause_of_remains no_clauses s t r = elim r [ ]
  clause_of_remains (clause c cs) s t (inl r) = (c, inl refl, r)
  clause_of_remains (clause c cs) s t (inr r) =
      let found = clause_of_remains cs s t r in (found.0, inr found.1, found.2)

  remains_of_clause :
      (cs : Clauses T R) (s t : S) (c : Clause T R)
      → IsClause c cs
      → Solves (conj_all c) s t
      → RemainsFrom 0 (factories s cs) t
  remains_of_clause no_clauses s t c i q = elim i [ ]
  remains_of_clause (clause d cs) s t c (inl i) q = inl (rw (← i) q)
  remains_of_clause (clause d cs) s t c (inr i) q = inr (remains_of_clause cs s t c i q)

  pub begin-Solves : (g : Goal T R) (s t : S) → Remains (begin e g s) t → Solves g s t
  unfolding begin
  begin-Solves succeed s t (inl p) = solves_succeed (sym p)
  begin-Solves succeed s t (inr r) = elim r [ ]
  begin-Solves fail s t r = elim r [ ]
  begin-Solves (equal u v) s t r = solves_equal (of_state-unify (e.unify s u v) t r)
  begin-Solves (call_fresh f) s t r =
      solves_fresh (begin-Solves (f (e.fresh s).0) (e.fresh s).1 t r)
  begin-Solves (disj g h) s t (inl r) = solves_left (begin-Solves g s t r)
  begin-Solves (disj g h) s t (inr r) = solves_right (begin-Solves h s t r)
  begin-Solves (disj_fair g h) s t (inl r) = fair_left r
  begin-Solves (disj_fair g h) s t (inr (inl r)) = fair_right r
  begin-Solves (disj_fair g h) s t (inr (inr r)) = elim r [ ]
  begin-Solves (conj g h) s t (m, r, q) = solves_both (begin-Solves g s m r) q
  begin-Solves (conde cs) s t r =
      let found = clause_of_remains cs s t r in solves_conde found.0 found.1 found.2
  begin-Solves (conde_fair cs) s t r =
      let found = clause_of_remains cs s t r in solves_conde_fair found.0 found.1 found.2
  begin-Solves (snooze k) s t r = solves_snooze r

  pub begin-Remains : (g : Goal T R) (s t : S) → Solves g s t → Remains (begin e g s) t
  unfolding begin
  begin-Remains succeed s t (solves_succeed p) = inl (sym p)
  begin-Remains fail s t q = elim q [ ]
  begin-Remains (equal u v) s t (solves_equal p) = Remains-of_state (e.unify s u v) t p
  begin-Remains (call_fresh f) s t (solves_fresh q) =
      begin-Remains (f (e.fresh s).0) (e.fresh s).1 t q
  begin-Remains (disj g h) s t (solves_left q) = inl (begin-Remains g s t q)
  begin-Remains (disj g h) s t (solves_right q) = inr (begin-Remains h s t q)
  begin-Remains (disj_fair g h) s t (fair_left q) = inl q
  begin-Remains (disj_fair g h) s t (fair_right q) = inr (inl q)
  begin-Remains (conj g h) s t (solves_both {m = m} p q) = (m, begin-Remains g s m p, q)
  begin-Remains (conde cs) s t (solves_conde c i q) = remains_of_clause cs s t c i q
  begin-Remains (conde_fair cs) s t (solves_conde_fair c i q) = remains_of_clause cs s t c i q
  begin-Remains (snooze k) s t (solves_snooze q) = q
