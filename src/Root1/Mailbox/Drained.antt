-- ===== src/Root1/Mailbox/Drained.antt =====
-- The loop that drains a MailboxRing.
use agentc.Root1.Mailbox.{MailboxRing, drain}
use agentc.Root1.Mailbox.Queue.{IsValid, contents, contents-try_pop, length-contents}
use agentc.Prelude.{ℕ, zero, suc, ◌<◌, ◌≡◌, refl, ap, [], length, arith, inl, inr}

module _ {ℓ} {A : Type ℓ} where
  drain-enough :
      (fuel : ℕ) (r : MailboxRing A)
      → IsValid r
      → length (contents r) < fuel
      → ((drain fuel r).0 ≡ contents r)
        × (contents (drain fuel r).1 ≡ [])
        × IsValid (drain fuel r).1
  unfolding drain
  drain-enough zero r v h = ground arith
  drain-enough (suc fuel) r v h = elim (contents-try_pop r v) [
    | inl (gone, e) ↦ rw (drain, e, gone) (refl, refl, v)
    | inr (d, r', e, q, v') ↦
        (let (all, gone, valid) = drain-enough fuel r' v' (omega (arith, ap length q)) in
          rw (drain, e, q, all) (refl, gone, valid))
  ]

  -- `drainMailboxDescriptors` takes all that waits in a valid ring, the oldest first, and leaves the
  -- ring valid and empty: its loop ends within 65 rounds.
  pub drain-contents :
      (r : MailboxRing A)
      → IsValid r
      → ((drain 65 r).0 ≡ contents r) × (contents (drain 65 r).1 ≡ []) × IsValid (drain 65 r).1
  drain-contents r v = drain-enough 65 r v (omega (arith, length-contents r v, v.bounded))
