-- ===== src/Root1/Mailbox/Queue.antt =====
-- MailboxRing seen as a queue: what waits in it, the oldest first.
use agentc.Root1.Mailbox.{word_mod, MailboxRing, distance, try_push, try_pop}
use agentc.Prelude.{
  ℕ, zero, suc, ◌+◌, ◌%◌, ◌^◌, ◌≤◌, ◌<◌, ◌≡◌, ◌≢◌, refl, ap, ◌∙◌, ◌⊎◌, inl, inr, List, [], ◌∷◌,
  ◌++◌, Option, none, some, ltb, ltb→lt, ◌==◌, if◌then◌else◌, set, get_elem?, length, length-set,
  get_elem?-set_self, get_elem?-set_ne, arith, Bool-cases,
}

pub record IsValid {ℓ} {A : Type ℓ} (r : MailboxRing A) : Type ℓ where
  pub slots_full : length r.slots ≡ 64
  pub head_fits : r.head < 2 ^ 64
  pub tail_fits : r.tail < 2 ^ 64
  pub bounded : distance r.head r.tail ≤ 64

abbrev or_skip {ℓ} : {A : Type ℓ} → Option A → List A → List A
or_skip none xs = xs
or_skip (some x) xs = x ∷ xs

-- The items at `n` places from `h` on.
unfoldable pub items {ℓ} : {A : Type ℓ} → List A → ℕ → ℕ → List A
items slots h zero = []
items slots h (suc n) = or_skip (get_elem? slots (h % 64)) (items slots (h + 1) n)

-- What waits in the ring, the oldest first.
unfoldable pub contents {ℓ} : {A : Type ℓ} → MailboxRing A → List A
contents r = items r.slots r.head (distance r.head r.tail)

module _ {ℓ} {A : Type ℓ} where
  items-mod : (slots : List A) (n h h' : ℕ) → h % 64 ≡ h' % 64 → items slots h n ≡ items slots h' n
  unfolding items
  items-mod slots zero h h' e = refl
  items-mod slots (suc n) h h' e = cc (e, items-mod slots n (h + 1) (h' + 1) (omega arith))

  items-set :
      (slots : List A) (n h i : ℕ) (d : A)
      → ((j : ℕ) → j < n → (h + j) % 64 ≢ i)
      → items (set slots i d) h n ≡ items slots h n
  unfolding items
  items-set slots zero h i d ne = refl
  items-set slots (suc n) h i d ne = cc (
    get_elem?-set_ne slots i (h % 64) d (λ e. ne 0 (omega arith) (omega arith)),
    items-set slots n (h + 1) i d (λ j lt e. ne (suc j) (omega arith) (omega arith)),
  )

  get_elem?-some : (xs : List A) (i : ℕ) → i < length xs → (x : A) × (get_elem? xs i ≡ some x)
  get_elem?-some [] i h = elim h [ ]
  get_elem?-some (x ∷ xs) zero h = (x, refl)
  get_elem?-some (x ∷ xs) (suc i) h = get_elem?-some xs i (omega arith)

  or_skip-append : (o : Option A) (xs ys : List A) → or_skip o (xs ++ ys) ≡ or_skip o xs ++ ys
  or_skip-append none xs ys = refl
  or_skip-append (some x) xs ys = refl

  items-snoc :
      (slots : List A) (n h i : ℕ) (d : A)
      → (h + n) % 64 ≡ i
      → get_elem? slots i ≡ some d
      → items slots h (suc n) ≡ items slots h n ++ d ∷ []
  unfolding items
  items-snoc slots zero h i d q e = let at : h % 64 ≡ i = omega arith in rw (at, e, or_skip)
  items-snoc slots (suc n) h i d q e =
      ap (or_skip (get_elem? slots (h % 64))) (items-snoc slots n (h + 1) i d (omega arith) e)
      ∙ or_skip-append (get_elem? slots (h % 64)) _ _

  length-items : (slots : List A) (n h : ℕ) → length slots ≡ 64 → length (items slots h n) ≡ n
  unfolding items
  length-items slots zero h e = refl
  length-items slots (suc n) h e =
      let (x, at) = get_elem?-some slots (h % 64) (omega arith) in
      rw (at, or_skip) (ap suc (length-items slots n (h + 1) e))

  pub length-contents :
      (r : MailboxRing A) → IsValid r → length (contents r) ≡ distance r.head r.tail
  unfolding contents
  length-contents r v = length-items r.slots (distance r.head r.tail) r.head v.slots_full

  pushed-contents :
      (r : MailboxRing A) (d : A)
      → IsValid r
      → distance r.head r.tail < 64
      → items (set r.slots (r.tail % 64) d) r.head (suc (distance r.head r.tail))
        ≡ contents r ++ d ∷ []
  unfolding contents
  pushed-contents r d v h =
      let free : (r.head + distance r.head r.tail) % 64 ≡ r.tail % 64 =
        omega (arith, v.head_fits, v.tail_fits) in
      items-snoc _ _ r.head (r.tail % 64) d free
        (get_elem?-set_self r.slots (r.tail % 64) d (omega (arith, v.slots_full)))
      ∙ ap (λ xs. xs ++ d ∷ [])
          (items-set r.slots (distance r.head r.tail) r.head (r.tail % 64) d
            (λ j lt e. omega (arith, v.head_fits, v.tail_fits)))

  pushed-IsValid :
      (d : A) (r : MailboxRing A)
      → IsValid r
      → distance r.head r.tail < 64
      → IsValid (record r { slots = set r.slots (r.tail % 64) d; tail = (r.tail + 1) % 2 ^ 64 })
  pushed-IsValid d r v h = record {
    slots_full = length-set r.slots (r.tail % 64) d ∙ v.slots_full;
    head_fits = v.head_fits;
    tail_fits = omega arith;
    bounded = omega (arith, v.head_fits, v.tail_fits);
  }

  -- `tryPush` succeeds exactly while fewer than 64 items wait, and then the item is the last of
  -- them; a full ring is left as it is. The ring stays valid, also where a counter wraps.
  pub contents-try_push :
      (d : A) (r : MailboxRing A)
      → IsValid r
      → ((try_push d r).0 ≡ ltb (length (contents r)) 64)
        × (contents (try_push d r).1
            ≡ (if ltb (length (contents r)) 64 then contents r ++ d ∷ [] else contents r))
        × IsValid (try_push d r).1
  unfolding try_push contents
  contents-try_push d r v =
      rw (length-contents r v) (elim (Bool-cases (ltb (distance r.head r.tail) 64)) [
        | inl e ↦
            (let h : distance r.head r.tail < 64 = ltb→lt _ _ e in
              let next : distance r.head ((r.tail + 1) % word_mod) ≡ suc (distance r.head r.tail) =
                omega (arith, v.head_fits, v.tail_fits) in
              rw (try_push, e)
                (refl, rw (contents, next) (pushed-contents r d v h), pushed-IsValid d r v h))
        | inr e ↦ rw (try_push, e) (refl, refl, v)
      ])

  popped-IsValid :
      (r : MailboxRing A)
      → IsValid r
      → r.head ≢ r.tail
      → IsValid (record r { head = (r.head + 1) % 2 ^ 64 })
  popped-IsValid r v ne = record {
    slots_full = v.slots_full;
    head_fits = omega arith;
    tail_fits = v.tail_fits;
    bounded = omega (arith, v.head_fits, v.tail_fits, v.bounded);
  }

  popped-contents :
      (r : MailboxRing A) (d : A)
      → IsValid r
      → r.head ≢ r.tail
      → get_elem? r.slots (r.head % 64) ≡ some d
      → contents r ≡ d ∷ contents (record r { head = (r.head + 1) % 2 ^ 64 })
  unfolding contents items
  popped-contents r d v ne at =
      let next : distance r.head r.tail ≡ suc (distance ((r.head + 1) % word_mod) r.tail) =
        omega (arith, v.head_fits, v.tail_fits) in
      rw (next, items, at, or_skip)
        (ap (λ xs. d ∷ xs)
          (items-mod r.slots _ (r.head + 1) ((r.head + 1) % word_mod) (omega arith)))

  -- `tryPop` fails on the empty ring only, and otherwise takes the oldest item and leaves the rest.
  pub contents-try_pop :
      (r : MailboxRing A)
      → IsValid r
      → ((contents r ≡ []) × (try_pop r ≡ none))
        ⊎ ((d : A) × (r' : MailboxRing A) × (try_pop r ≡ some (d, r'))
            × (contents r ≡ d ∷ contents r')
            × IsValid r')
  unfolding try_pop contents items
  contents-try_pop r v = elim (Bool-cases (r.head == r.tail)) [
    | inl e ↦
        (let zero_far : distance r.head r.tail ≡ 0 = ground (arith, v.head_fits, v.tail_fits) in
          inl (rw (zero_far) refl, rw (e) refl))
    | inr e ↦
        (let ne : r.head ≢ r.tail = ground arith in
          let (d, at) = get_elem?-some r.slots (r.head % 64) (omega (arith, v.slots_full)) in
          inr (
            d,
            record r { head = (r.head + 1) % 2 ^ 64 },
            rw (e, at) refl,
            popped-contents r d v ne at,
            popped-IsValid r v ne,
          ))
  ]
