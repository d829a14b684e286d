-- ===== src/Root1/Mailbox.antt =====
-- MailboxRing: a ring of 64 slots with two 64-bit counters that wrap. One thread pushes and one pops
-- at a time, each operation whole, as the broker's mutex makes them.
pub mod Queue
pub mod Drained
use agentc.Prelude.{
  ℕ, zero, suc, ◌+◌, ◌-◌, ◌%◌, ◌^◌, Bool, true, false, List, [], ◌∷◌, Option, none, some, ltb, ◌==◌,
  if◌then◌else◌, set, get_elem?,
}

abbrev pub capacity : ℕ
capacity = 64

abbrev pub word_mod : ℕ
word_mod = 2 ^ 64

pub record MailboxRing {ℓ} (A : Type ℓ) : Type ℓ where
  pub head : ℕ
  pub tail : ℕ
  pub slots : List A

-- `tail - head` of two uint64_t
abbrev pub distance : ℕ → ℕ → ℕ
distance head tail = (tail + word_mod - head) % word_mod

module _ {ℓ} {A : Type ℓ} where
  unfoldable pub approximate_size : MailboxRing A → ℕ
  approximate_size r = distance r.head r.tail

  unfoldable pub is_empty : MailboxRing A → Bool
  unfolding approximate_size
  is_empty r = approximate_size r == 0

  unfoldable pub is_full : MailboxRing A → Bool
  unfolding approximate_size
  is_full r = if ltb (approximate_size r) capacity then false else true

  -- the flag that `tryPush` returns, and the ring after it
  unfoldable pub try_push : A → MailboxRing A → Bool × MailboxRing A
  try_push d r =
      if ltb (distance r.head r.tail) capacity
      then (
        true,
        record r { slots = set r.slots (r.tail % capacity) d; tail = (r.tail + 1) % word_mod },
      )
      else (false, r)

  -- `none` is the result false; `slots` has an item at every index below the capacity
  unfoldable pub try_pop : MailboxRing A → Option (A × MailboxRing A)
  try_pop r = if r.head == r.tail then none else (elim (get_elem? r.slots (r.head % capacity)) [
    | none ↦ none
    | some d ↦ some (d, record r { head = (r.head + 1) % word_mod })
  ])

  -- the loop of `drainMailboxDescriptors`
  unfoldable pub drain : ℕ → MailboxRing A → List A × MailboxRing A
  drain zero r = ([], r)
  drain (suc fuel) r = elim (try_pop r) [
    | none ↦ ([], r)
    | some (d, r') ↦ (let (ds, r'') = drain fuel r' in (d ∷ ds, r''))
  ]
