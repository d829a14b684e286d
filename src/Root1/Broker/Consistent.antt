-- ===== src/Root1/Broker/Consistent.antt =====
-- What the words and the queues of the broker have in common, with one ResourceState for each key,
-- `cell`, and each operation on it.
use agentc.Root1.Resource.{
  ResourceKey, key_eq, key_beq, key_beq_iff, owner, contend, try_acquire_unlocked,
}
use agentc.Root1.Descriptor.{MailboxDescriptor}
use agentc.Root1.Broker.{
  Broker, is_valid_participant, queue, or_empty, enqueue, store, register_participant, try_acquire,
  acquire_or_queue, acquire_or_queue_locked, release, recover_abandoned_resource, next_waiter,
  granted_word, hand_over, grant, abandon, erase_lease, push_descriptor,
}
use agentc.Root1.Broker.Waiting.{
  IsWaiting, IsWaiting-free, IsWaiting-own, empty_of_free, IsWaiting-enqueue, IsWaiting-granted,
  next_waiter-IsNext,
}
use agentc.Root1.Broker.Frame.{
  SameOwners, SameOwners-trans, SameOwners-push_descriptor, SameOwners-grant, valid-emplace,
}
use agentc.Prelude.{
  ℕ, ◌+◌, ◌^◌, ◌<◌, ◌≡◌, ◌≢◌, refl, ◌∙◌, sym, subst, true, false, List, [], some, ◌==◌, ==_iff,
  if◌then◌else◌, arith, Bool-cases, Option-cases, inl, inr, lookup, insert, erase, lookup-insert,
  lookup-erase, Map, Bytes, nat_eq,
}

module _ (cell : ResourceKey → ℕ) (cell_inj : (j k : ResourceKey) → cell j ≡ cell k → j ≡ k) where
  pub record IsConsistent (b : Broker) : Type 0 where
    pub waiting : (k : ResourceKey) → IsWaiting (b.words (cell k)) (queue b k)
    pub some_id : (p : ℕ) → is_valid_participant b p ≡ true → p ≢ 0
    pub small_id : (p : ℕ) → is_valid_participant b p ≡ true → p < 2 ^ 63
    pub next_id : b.next_participant ≢ 0

  pub same : (b b' : Broker) → SameOwners b b' → IsConsistent b → IsConsistent b'
  same b b' s v = record {
    waiting = λ k. rw (s.words, s.waiters) (v.waiting k);
    some_id = λ p e. v.some_id p (sym (s.valid p) ∙ e);
    small_id = λ p e. v.small_id p (sym (s.valid p) ∙ e);
    next_id = rw (s.ids) v.next_id;
  }

  apart : (k j : ResourceKey) → key_beq k j ≡ false → k ≢ j
  apart k j e q = cc ((key_beq_iff k j).1 q)

  far : (k j : ResourceKey) → key_beq k j ≡ false → (cell k == cell j) ≡ false
  far k j e = let ne : cell k ≢ cell j = λ q. apart k j e (cell_inj k j q) in ground arith

  -- A new word for one resource, and a new queue with it.
  changed :
      (k : ResourceKey) (word : ℕ) (b b' : Broker)
      → IsWaiting word (queue b' k)
      → ((j : ResourceKey) → key_beq k j ≡ false → queue b' j ≡ queue b j)
      → ((p : ℕ) → is_valid_participant b' p ≡ is_valid_participant b p)
      → b'.next_participant ≡ b.next_participant
      → b'.words ≡ (store (cell k) word b).words
      → IsConsistent b
      → IsConsistent b'
  changed k word b b' w others valid ids words v =
      let here : (cell k == cell k) ≡ true = (==_iff (cell k) (cell k)).1 refl in
      record {
        waiting = λ j. elim (Bool-cases (key_beq k j)) [
          | inl e ↦
              subst (λ i. IsWaiting (b'.words (cell i)) (queue b' i)) ((key_beq_iff k j).0 e)
                (rw (words, here) w)
          | inr e ↦ rw (words, others j e, far k j e) (v.waiting j)
        ];
        some_id = λ p e. v.some_id p (sym (valid p) ∙ e);
        small_id = λ p e. v.small_id p (sym (valid p) ∙ e);
        next_id = rw (ids) v.next_id;
      }

  -- A free resource has no waiter, so that whoever takes it is not among them.
  take_free :
      (k : ResourceKey) (p : ℕ) (b : Broker)
      → p < 2 ^ 63
      → (b.words (cell k) == 0) ≡ true
      → IsConsistent b
      → IsConsistent (store (cell k) p b)
  take_free k p b small e v =
      let zero_word : b.words (cell k) ≡ 0 = (==_iff _ _).0 e in
      let none_wait : queue b k ≡ [] =
        empty_of_free _ (subst (λ w. IsWaiting w (queue b k)) zero_word (v.waiting k)) in
      changed k p b _ (rw (none_wait) (IsWaiting-own p small)) (λ j far. refl) (λ q. refl) refl refl
        v

  pub IsConsistent-try_acquire :
      (k : ResourceKey) (p : ℕ) (b : Broker)
      → p < 2 ^ 63
      → IsConsistent b
      → IsConsistent (try_acquire (cell k) p b).1
  unfolding try_acquire try_acquire_unlocked
  IsConsistent-try_acquire k p b small v = elim (Bool-cases (p == 0)) [
    | inl e ↦ rw (try_acquire, e) v
    | inr e ↦ elim (Bool-cases (b.words (cell k) == 0)) [
      | inl f ↦ rw (try_acquire, e, f) (take_free k p b small f v)
      | inr f ↦
          rw (try_acquire, e, f)
            (changed k (b.words (cell k)) b _ (v.waiting k) (λ j far. refl) (λ q. refl) refl refl v)
    ]
  ]

  queue-insert :
      (k j : ResourceKey) (q : List ℕ) (m : Map ResourceKey (List ℕ))
      → or_empty (lookup j (insert k q m)) ≡ (if key_beq k j then q else or_empty (lookup j m))
  queue-insert k j q m =
      rw (lookup-insert k j q m)
        (elim (Bool-cases (key_beq k j)) [ inl f ↦ rw (f) refl | inr f ↦ rw (f) refl ])

  queue-erase :
      (k j : ResourceKey) (m : Map ResourceKey (List ℕ))
      → or_empty (lookup j (erase k m)) ≡ (if key_beq k j then [] else or_empty (lookup j m))
  queue-erase k j m =
      rw (lookup-erase k j m)
        (elim (Bool-cases (key_beq k j)) [ inl f ↦ rw (f) refl | inr f ↦ rw (f) refl ])

  -- A new word and queue, or no queue, for one resource.
  requeued :
      (k : ResourceKey) (word : ℕ) (q : List ℕ) (b b' : Broker)
      → IsWaiting word q
      → ((j : ResourceKey) → queue b' j ≡ (if key_beq k j then q else queue b j))
      → ((p : ℕ) → is_valid_participant b' p ≡ is_valid_participant b p)
      → b'.next_participant ≡ b.next_participant
      → b'.words ≡ (store (cell k) word b).words
      → IsConsistent b
      → IsConsistent b'
  requeued k word q b b' w queues valid ids words v =
      let self : key_beq k k ≡ true = (key_beq_iff k k).1 refl in
      changed k word b b' (rw (queues k, self) w) (λ j e. rw (queues j, e) refl) valid ids words v

  pub IsConsistent-acquire_or_queue_locked :
      (k : ResourceKey) (p : ℕ) (b : Broker)
      → p < 2 ^ 63
      → IsConsistent b
      → IsConsistent (acquire_or_queue_locked k (cell k) p b).1
  unfolding acquire_or_queue_locked try_acquire_unlocked
  IsConsistent-acquire_or_queue_locked k p b small v =
      elim (Bool-cases (is_valid_participant b p)) [
        | inr e ↦ rw (acquire_or_queue_locked, e) v
        | inl e ↦ elim (Bool-cases (owner (b.words (cell k)) == p)) [
          | inl f ↦ rw (acquire_or_queue_locked, e, f) v
          | inr f ↦ elim (Bool-cases (b.words (cell k) == 0)) [
            | inl g ↦ rw (acquire_or_queue_locked, e, f, g) (take_free k p b small g v)
            | inr g ↦
                (let some_word : b.words (cell k) ≢ 0 = λ h. ground arith in
                  rw (acquire_or_queue_locked, e, f, g)
                    (requeued k (contend (b.words (cell k))) (enqueue (queue b k) p) b _
                      (IsWaiting-enqueue _ p _ some_word f (v.waiting k))
                      (λ j. queue-insert k j _ b.waiters) (λ q. refl) refl refl v))
          ]
        ]
      ]

  pub IsConsistent-acquire_or_queue :
      (k : ResourceKey) (p : ℕ) (b : Broker)
      → p < 2 ^ 63
      → IsConsistent b
      → IsConsistent (acquire_or_queue k (cell k) p b).1
  unfolding acquire_or_queue try_acquire_unlocked
  IsConsistent-acquire_or_queue k p b small v = elim (Bool-cases (p == 0)) [
    | inl e ↦ rw (acquire_or_queue, e) v
    | inr e ↦ elim (Bool-cases (b.words (cell k) == 0)) [
      | inl f ↦ rw (acquire_or_queue, e, f) (take_free k p b small f v)
      | inr f ↦ rw (acquire_or_queue, e, f) (IsConsistent-acquire_or_queue_locked k p b small v)
    ]
  ]

  IsConsistent-hand_over :
      (k : ResourceKey) (next : ℕ) (rest : List ℕ) (b : Broker)
      → next_waiter b (queue b k) ≡ some (next, rest)
      → IsConsistent b
      → IsConsistent (hand_over k (cell k) next rest b)
  IsConsistent-hand_over k next rest b e v =
      let n = next_waiter-IsNext b (queue b k) next rest (v.waiting k).distinct e in
      requeued k (granted_word next rest) rest b _
        (IsWaiting-granted next rest (v.some_id next n.valid) (v.small_id next n.valid) n.once
          n.others)
        (λ j. queue-insert k j _ b.waiters) (λ q. refl) refl refl v

  IsConsistent-abandon :
      (k : ResourceKey) (b : Broker) → IsConsistent b → IsConsistent (abandon k (cell k) b)
  IsConsistent-abandon k b v =
      requeued k 0 [] b _ IsWaiting-free (λ j. queue-erase k j b.waiters) (λ q. refl) refl refl v

  pub IsConsistent-release :
      (k : ResourceKey) (p : ℕ) (b : Broker)
      → IsConsistent b
      → IsConsistent (release k (cell k) p b).1
  unfolding release
  IsConsistent-release k p b v = elim (Bool-cases (p == 0)) [
    | inl e ↦ rw (release, e) v
    | inr e ↦ elim (Bool-cases (owner (b.words (cell k)) == p)) [
      | inr f ↦ rw (release, e, f) v
      | inl f ↦ elim (Option-cases (next_waiter b (queue b k))) [
        | inl g ↦ rw (release, e, f, g) (IsConsistent-abandon k b v)
        | inr ((next, rest), g) ↦
            rw (release, e, f, g)
              (same _ _ (SameOwners-grant k next _) (IsConsistent-hand_over k next rest b g v))
      ]
    ]
  ]

  -- the recovery of a resource, with the message to the new owner before its grant
  recovered :
      (k : ResourceKey) (next : ℕ) (d : MailboxDescriptor) (b : Broker)
      → IsConsistent b
      → IsConsistent (erase_lease k (grant k next (push_descriptor next d b).1))
  recovered k next d b v =
      same b _
        (SameOwners-trans b _ _ (SameOwners-push_descriptor next d b) (
          SameOwners-trans _ _ _ (SameOwners-grant k next _)
            (record { words = refl; waiters = refl; valid = λ q. refl; ids = refl })))
        v

  pub IsConsistent-recover_abandoned_resource :
      (k : ResourceKey) (p : ℕ) (reason : Bytes) (b : Broker)
      → IsConsistent b
      → IsConsistent (recover_abandoned_resource k (cell k) p reason b).1
  unfolding recover_abandoned_resource
  IsConsistent-recover_abandoned_resource k p reason b v = elim (Bool-cases (p == 0)) [
    | inl e ↦ rw (recover_abandoned_resource, e) v
    | inr e ↦ elim (Bool-cases (owner (b.words (cell k)) == p)) [
      | inr f ↦ rw (recover_abandoned_resource, e, f) v
      | inl f ↦ elim (Option-cases (next_waiter b (queue b k))) [
        | inl g ↦
            rw (recover_abandoned_resource, e, f, g)
              (same _ _ (record { words = refl; waiters = refl; valid = λ q. refl; ids = refl })
                (IsConsistent-abandon k b v))
        | inr ((next, rest), g) ↦
            rw (recover_abandoned_resource, e, f, g)
              (recovered k next _ _ (IsConsistent-hand_over k next rest b g v))
      ]
    ]
  ]

  pub IsConsistent-register_participant :
      (b : Broker)
      → b.next_participant + 1 < 2 ^ 63
      → IsConsistent b
      → IsConsistent (register_participant b).1
  unfolding register_participant
  IsConsistent-register_participant b small v = record {
    waiting = v.waiting;
    some_id = λ p e. elim (valid-emplace b.next_participant p _ b.participants e) [
      | inl q ↦ (λ z. v.next_id (sym q ∙ z))
      | inr h ↦ v.some_id p h
    ];
    small_id = λ p e. elim (valid-emplace b.next_participant p _ b.participants e) [
      | inl q ↦ omega arith
      | inr h ↦ v.small_id p h
    ];
    next_id = omega arith;
  }
