-- ===== src/Root1/Slab/Slots.antt =====
-- The resource slots of a CoordinationSlab seen as a map from keys to slots.
use agentc.Root1.Resource.{ResourceKey, key_beq, key_beq_iff}
use agentc.Root1.Slab.{
  ResourceSlot, later, is_held_for, find_resource_slot, claim_resource, allocate_resource_slot,
}
use agentc.Prelude.{
  ℕ, zero, ◌≡◌, ◌≢◌, refl, ap, ◌∙◌, true, false, inl, inr, List, [], ◌∷◌, Option, none, some, ◌==◌,
  if◌then◌else◌, Bool-cases, Option-cases,
}

later-none : (o : Option ℕ) → later o ≡ none → o ≡ none
later-none none e = refl
later-none (some i) e = cc

key_apart : (key other : ResourceKey) → key ≢ other → key_beq key other ≡ false
key_apart key other ne = elim (Bool-cases (key_beq key other)) [
  | inl e ↦ elim (ne ((key_beq_iff key other).0 e)) [ ]
  | inr e ↦ e
]

-- The search in the slots after a claim: the claimed key is where the claim says, and another key
-- where it was.
find-claim :
    (key : ResourceKey) (slots : List ResourceSlot)
    → find_resource_slot key slots ≡ none
    → find_resource_slot key (claim_resource key slots).1 ≡ (claim_resource key slots).0
unfolding find_resource_slot claim_resource
find-claim key [] e = refl
find-claim key (slot ∷ slots) e = elim (Bool-cases (slot.occupied == 0)) [
  | inl f ↦ (let own : key_beq key key ≡ true = (key_beq_iff key key).1 refl in rw (f, own) refl)
  | inr f ↦ elim (Bool-cases (is_held_for key slot)) [
    | inl g ↦ (let found : some zero ≡ none = rw (g) at e in cc)
    | inr g ↦
        (let missing : later (find_resource_slot key slots) ≡ none = rw (g) at e in
          rw (f, g) (ap later (find-claim key slots (later-none _ missing))))
  ]
]

claim-kept :
    (key : ResourceKey) (slot : ResourceSlot) (slots : List ResourceSlot)
    → (slot.occupied == 0) ≡ false
    → (claim_resource key (slot ∷ slots)).1 ≡ slot ∷ (claim_resource key slots).1
unfolding claim_resource
claim-kept key slot slots f = rw (claim_resource, f) refl

find-claim_other :
    (key other : ResourceKey) (slots : List ResourceSlot)
    → key ≢ other
    → find_resource_slot other (claim_resource key slots).1 ≡ find_resource_slot other slots
unfolding find_resource_slot claim_resource
find-claim_other key other [] ne = refl
find-claim_other key other (slot ∷ slots) ne = elim (Bool-cases (slot.occupied == 0)) [
  | inl f ↦ (let apart : key_beq key other ≡ false = key_apart key other ne in rw (f, apart) refl)
  | inr f ↦
      ap (find_resource_slot other) (claim-kept key slot slots f)
      ∙ ap (λ r. if is_held_for other slot then some zero else later r)
          (find-claim_other key other slots ne)
]

-- After `allocateResourceSlot` the key is found in the slot that was returned, or nowhere when no
-- slot was; another key is found where it was before.
pub find-allocate_resource_slot :
    (key other : ResourceKey) (slots : List ResourceSlot)
    → key ≢ other
    → (find_resource_slot key (allocate_resource_slot key slots).1
        ≡ (allocate_resource_slot key slots).0)
      × (find_resource_slot other (allocate_resource_slot key slots).1
          ≡ find_resource_slot other slots)
unfolding allocate_resource_slot
find-allocate_resource_slot key other slots ne =
    elim (Option-cases (find_resource_slot key slots)) [
      | inl e ↦
          rw (allocate_resource_slot, e)
            (find-claim key slots e, find-claim_other key other slots ne)
      | inr (i, e) ↦ rw (allocate_resource_slot, e) (e, refl)
    ]
