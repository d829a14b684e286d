-- ===== src/Root1/Slab.antt =====
-- CoordinationSlab: the participant slots and the resource slots of a mapped file, which outlive a
-- broker. A slot's pointer is its index; an atomic exchange is whole. The mapping itself (mmap, the
-- header, flush) is the operating system's and is not modelled; it is there in every slab that is made.
pub mod Slots
use agentc.Root1.Mailbox.{MailboxRing}
use agentc.Root1.Descriptor.{MailboxDescriptor, new_ring}
use agentc.Root1.Resource.{ResourceKey, key_beq}
use agentc.Prelude.{
  ℕ, zero, suc, ◌+◌, ◌%◌, ◌^◌, Bool, true, false, not, ◌&&◌, List, [], ◌∷◌, Option, none, some, ltb,
  ◌==◌, if◌then◌else◌, get_elem?, length,
}

pub record ParticipantSlot : Type 0 where
  pub participant_id : ℕ
  pub generation : ℕ
  pub mailbox : MailboxRing MailboxDescriptor

pub record ResourceSlot : Type 0 where
  pub occupied : ℕ
  pub key : ResourceKey
  pub word : ℕ

-- the index one further on
abbrev pub later : Option ℕ → Option ℕ
later none = none
later (some i) = some (suc i)

unfoldable pub participant_slot : ℕ → List ParticipantSlot → Option ParticipantSlot
participant_slot index slots = get_elem? slots index

unfoldable pub resource_slot : ℕ → List ResourceSlot → Option ResourceSlot
resource_slot index slots = get_elem? slots index

abbrev pub seek_participant : ℕ → List ParticipantSlot → Option ℕ
seek_participant participant [] = none
seek_participant participant (slot ∷ slots) =
    let rest = seek_participant participant slots in
    if slot.participant_id == participant then some zero else later rest

unfoldable pub find_participant_slot : ℕ → List ParticipantSlot → Option ℕ
find_participant_slot participant slots =
    if participant == 0 then none else seek_participant participant slots

abbrev pub claimed : ℕ → ParticipantSlot → ParticipantSlot
claimed participant slot = record {
  participant_id = participant;
  generation = (slot.generation + 1) % 2 ^ 64;
  mailbox = new_ring;
}

-- a slot kept before what a search through the rest leads to
abbrev pub kept {ℓ} : {S : Type ℓ} → S → Option ℕ × List S → Option ℕ × List S
kept slot (found, slots) = (later found, slot ∷ slots)

-- the loop that takes the first slot whose id is 0
unfoldable pub claim_participant : ℕ → List ParticipantSlot → Option ℕ × List ParticipantSlot
claim_participant participant [] = (none, [])
claim_participant participant (slot ∷ slots) =
    let rest = claim_participant participant slots in
    if slot.participant_id == 0
    then (some zero, claimed participant slot ∷ slots)
    else kept slot rest

unfoldable pub allocate_participant_slot :
    ℕ → List ParticipantSlot → Option ℕ × List ParticipantSlot
allocate_participant_slot participant slots =
    if participant == 0 then (none, slots) else (elim (find_participant_slot participant slots) [
      | some i ↦ (some i, slots)
      | none ↦ claim_participant participant slots
    ])

abbrev pub is_held_for : ResourceKey → ResourceSlot → Bool
is_held_for key slot = not (slot.occupied == 0) && key_beq slot.key key

unfoldable pub find_resource_slot : ResourceKey → List ResourceSlot → Option ℕ
find_resource_slot key [] = none
find_resource_slot key (slot ∷ slots) =
    let rest = find_resource_slot key slots in
    if is_held_for key slot then some zero else later rest

abbrev pub held_for : ResourceKey → ResourceSlot
held_for key = record { occupied = 1; key = key; word = 0 }

-- the loop that takes the first slot that is not occupied
unfoldable pub claim_resource : ResourceKey → List ResourceSlot → Option ℕ × List ResourceSlot
claim_resource key [] = (none, [])
claim_resource key (slot ∷ slots) =
    let rest = claim_resource key slots in
    if slot.occupied == 0 then (some zero, held_for key ∷ slots) else kept slot rest

unfoldable pub allocate_resource_slot :
    ResourceKey → List ResourceSlot → Option ℕ × List ResourceSlot
allocate_resource_slot key slots = elim (find_resource_slot key slots) [
  | some i ↦ (some i, slots)
  | none ↦ claim_resource key slots
]

abbrev pub word_at : List ResourceSlot → Option ℕ → Option ℕ
word_at slots none = none
word_at slots (some i) = elim (get_elem? slots i) [ none ↦ none | some slot ↦ some slot.word ]

unfoldable pub resource_state : ResourceKey → List ResourceSlot → Option ℕ
resource_state key slots = word_at slots (find_resource_slot key slots)
