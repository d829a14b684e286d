-- ===== src/Kanren/Unify/Unified.antt =====
-- `unify` (kanren/kanren.cpp) against the equations of the substitution that it returns.
use agentc.Kanren.Term.{Term, value, list}
use agentc.Kanren.Unify.{State}
use agentc.Kanren.Unify.Sound.{Equated, Extends}
use agentc.Kanren.Unify.Tagged.{IsTagged, AllTagged}
use agentc.Prelude.{bytes_key, ◌≡◌, true, false, Option, none, some, Bytes, Map, lookup}

-- What a unification leaves: the bindings kept, the two terms equal by the bindings, and no value with
-- fields that has another text than `tag`.
pub record IsUnified (tag : Bytes) (E : Map Bytes Term → Type 0) (s r : State) : Type 0 where
  pub extends : Extends s.sub r.sub
  pub equal : E r.sub
  pub tagged : AllTagged tag r.sub

-- The terms of a call that ends well are equal by the bindings it returns.
abbrev Unifies : Bytes → (State → Term → Term → Option (Option State)) → Type 0
Unifies tag go =
    (s : State) (u v : Term) (r : State)
    → AllTagged tag s.sub
    → IsTagged tag u
    → IsTagged tag v
    → go s u v ≡ some (some r)
    → IsUnified tag (λ b. Equated b u v) s r

module _ (tag : Bytes) (go : State → Term → Term → Option (Option State))
    (sound : Unifies tag go) where
  -- A variable among the two terms is not bound.
  abbrev IsFree : Map Bytes Term → Term → Type 0
  IsFree sub (value a true d fs) = lookup d sub ≡ none
  IsFree sub (value a false d fs) = Unit
  IsFree sub (list a ts) = Unit
