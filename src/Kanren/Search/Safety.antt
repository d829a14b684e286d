-- ===== src/Kanren/Search/Safety.antt =====
-- Streams (kanren/kanren.cpp) that ask for no unification which does not return.
use agentc.Kanren.Goal.{Goal, Clause, Clauses, no_clauses, clause, conj_all}
use agentc.Kanren.Term.{Term}
use agentc.Kanren.Unify.{State, unify}
use agentc.Kanren.Search.{
  settled, kanren, Returns, returns_succeed, returns_fail, returns_equal, returns_fresh,
  returns_disj, returns_disj_fair, returns_conj, returns_conde, returns_conde_fair,
}
use agentc.Kanren.Stream.{
  Stream, ready, snoozed, woken, disj_stream, conj_left, conj_right, conde_stream, interleaved,
  Slots, no_slots, factory, running, factories, put, of_state, begin, stream_at,
}
use agentc.Kanren.Stream.Answers.{IsClause, Remains, begin-Solves}
use agentc.Prelude.{ℕ, zero, suc, inl, inr, refl, Option, none, some}

module _ {R : Type 0} (thunk : R → Goal Term R) (n : ℕ) where
  -- All unifications that are left return.
  abbrev mutual
    pub Safe : Stream Term R State → Type 0
    Safe (ready ss) = Unit
    Safe (snoozed k s) = ⊥
    Safe (woken inner) = ⊥
    Safe (disj_stream left right b) = Safe left × Safe right
    Safe (conj_left left h) =
        Safe left × ((t : State) → Remains (kanren thunk n) left t → Returns thunk n h t)
    Safe (conj_right left h current) =
        Safe left
        × ((t : State) → Remains (kanren thunk n) left t → Returns thunk n h t)
        × Safe current
    Safe (conde_stream slots i) = SafeSlots slots
    Safe (interleaved slots i) = SafeSlots slots

    pub SafeSlots : Slots Term R State → Type 0
    SafeSlots no_slots = Unit
    SafeSlots (factory g s slots) = Returns thunk n g s × SafeSlots slots
    SafeSlots (running st slots) = Safe st × SafeSlots slots

  Safe-of_state : (o : Option State) → Safe (of_state o)
  Safe-of_state none = tt
  Safe-of_state (some s) = tt

  SafeSlots-factories :
      (cs : Clauses Term R) (s : State)
      → ((c : Clause Term R) → IsClause c cs → Returns thunk n (conj_all c) s)
      → SafeSlots (factories s cs)
  SafeSlots-factories no_clauses s h = tt
  SafeSlots-factories (clause c cs) s h =
      (h c (inl refl), SafeSlots-factories cs s (λ d i. h d (inr i)))

  pub Safe-begin :
      {g : Goal Term R} {s : State} → Returns thunk n g s → Safe (begin (kanren thunk n) g s)
  unfolding begin kanren
  Safe-begin returns_succeed = tt
  Safe-begin returns_fail = tt
  Safe-begin (returns_equal {u = u} {v = v} {s = s} r q) = Safe-of_state (settled (unify n s u v))
  Safe-begin (returns_fresh x) = Safe-begin x
  Safe-begin (returns_disj x y) = (Safe-begin x, Safe-begin y)
  Safe-begin (returns_disj_fair x y) = (x, (y, tt))
  Safe-begin (returns_conj {g = g} {h = h} {s = s} x f) =
      (Safe-begin x, λ t r. f t (begin-Solves (kanren thunk n) g s t r))
  Safe-begin (returns_conde {cs = cs} {s = s} f) = SafeSlots-factories cs s f
  Safe-begin (returns_conde_fair {cs = cs} {s = s} f) = SafeSlots-factories cs s f

  pub SafeSlots-put :
      (i : ℕ) (st : Stream Term R State) (slots : Slots Term R State)
      → Safe st
      → SafeSlots slots
      → SafeSlots (put i st slots)
  SafeSlots-put i st no_slots x h = tt
  SafeSlots-put zero st (factory g s slots) x (y, h) = (x, h)
  SafeSlots-put zero st (running old slots) x (y, h) = (x, h)
  SafeSlots-put (suc i) st (factory g s slots) x (y, h) = (y, SafeSlots-put i st slots x h)
  SafeSlots-put (suc i) st (running old slots) x (y, h) = (y, SafeSlots-put i st slots x h)

  abbrev pub SafePlace : Option (Stream Term R State) → Type 0
  SafePlace none = Unit
  SafePlace (some st) = Safe st

  pub SafePlace-stream_at :
      (i : ℕ) (slots : Slots Term R State)
      → SafeSlots slots
      → SafePlace (stream_at (kanren thunk n) i slots)
  SafePlace-stream_at i no_slots h = tt
  SafePlace-stream_at zero (factory g s slots) (x, h) = Safe-begin x
  SafePlace-stream_at zero (running st slots) (x, h) = x
  SafePlace-stream_at (suc i) (factory g s slots) (x, h) = SafePlace-stream_at i slots h
  SafePlace-stream_at (suc i) (running st slots) (x, h) = SafePlace-stream_at i slots h
