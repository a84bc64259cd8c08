-- ===== src/Framework/Vpc/Enis/Retry.antt =====
-- `deleteENIWithRetry`: what its results mean, and how often it calls EC2.
use openshift_online_rosa_e.Base.{
  ℕ, zero, suc, ◌+◌, ◌≤◌, ◌<◌, String, ◌≡◌, refl, ◌⊎◌, inl, inr, ap, Bool, true, false, Option,
  none, some, arith, Bool-cases, Option-cases, Result, ok, err,
}
use openshift_online_rosa_e.Base.Io.{◌>>◌}
use openshift_online_rosa_e.Base.Text.{contains}
use openshift_online_rosa_e.Framework.Vpc.Types.{
  AwsError, Ec2Client, Timing, Session, CleanupError, after_attempts, context_done, invalid_eni,
}
use openshift_online_rosa_e.Framework.Vpc.Calls.{Cleanup}
use openshift_online_rosa_e.Framework.Vpc.Enis.{
  pause_before, delete_attempt, delete_eni_attempts, delete_eni_with_retry,
}

-- EC2 deleted the interface, or it did not know it any more.
abbrev pub Acknowledges : Bool → Option AwsError → Type 0
Acknowledges gone none = gone ≡ false
Acknowledges gone (some e) = (gone ≡ true) × (contains e invalid_eni ≡ true)

-- The world `w` is the one that a deletion left which EC2 acknowledged.
pub record SeenDeleted {World Permission : Type 0} (client : Ec2Client World Permission)
    (eni_id : String) (gone : Bool) (w : World) : Type 0 where
  pub before : World
  pub answered : Acknowledges gone (client.delete_network_interface eni_id before).0
  pub left : (client.delete_network_interface eni_id before).1 ≡ w

module _ {World Permission : Type 0} (client : Ec2Client World Permission) (timing : Timing) where
  open timing use {eni_delete_retry_delay as delay}

  abbrev deleted : String → World → World
  deleted eni_id w = (client.delete_network_interface eni_id w).1

  -- A pause between attempts leaves the world to a sleep, or leaves it alone.
  abbrev Rested : World → World → Type 0
  Rested w w' = (w' ≡ w) ⊎ (w' ≡ (client.sleep delay w).1)

  module _ (Q : Result CleanupError Bool × Session World → Type 0) where
    pause_before-rule :
        (left : ℕ) (rest : Cleanup World Bool) (s : Session World)
        → ((s' : Session World) → Rested s.world s'.world → Q (rest s'))
        → ((e : AwsError) (s' : Session World)
            → Rested s.world s'.world
            → Q (err (context_done e), s'))
        → Q ((pause_before client timing left >> rest) s)
    pause_before-rule zero rest s go stop = go s (inl refl)
    pause_before-rule (suc left) rest s go stop =
        elim (Option-cases (client.sleep delay s.world).0) [
          | inl fired ↦ rw fired (go _ (inr refl))
          | inr (e, done) ↦ rw done (stop e _ (inr refl))
        ]

    -- What holds of an attempt holds of its three outcomes: acknowledged, to be repeated, cancelled.
    delete_attempt-rule :
        (left : ℕ) (eni_id : String) (rest : AwsError → Cleanup World Bool) (s : Session World)
        → ((gone : Bool) (s' : Session World)
            → Acknowledges gone (client.delete_network_interface eni_id s.world).0
            → deleted eni_id s.world ≡ s'.world
            → Q (ok gone, s'))
        → ((e : AwsError) (s' : Session World)
            → contains e invalid_eni ≡ false
            → Rested (deleted eni_id s.world) s'.world
            → Q (rest e s'))
        → ((e : AwsError) (s' : Session World)
            → Rested (deleted eni_id s.world) s'.world
            → Q (err (context_done e), s'))
        → Q (delete_attempt client timing left eni_id rest s)
    unfolding delete_attempt
    delete_attempt-rule left eni_id rest s done again stop =
        elim (Option-cases (client.delete_network_interface eni_id s.world).0) [
          | inl deleted_now ↦ rw deleted_now (done false _ (rw deleted_now) refl)
          | inr (e, failed) ↦ elim (Bool-cases (contains e invalid_eni)) [
            | inl unknown ↦ rw failed (rw unknown (done true _ (rw failed (refl, unknown)) refl))
            | inr transient ↦
                rw failed (
                  rw transient
                    (pause_before-rule left (rest e) _ (λ s'. again e s' transient) stop))
          ]
        ]

  -- The last answer of EC2 acknowledged the deletion.
  abbrev Sound : String → Result CleanupError Bool × Session World → Type 0
  Sound eni_id (ok gone, s) = SeenDeleted client eni_id gone s.world
  Sound eni_id (err e, s) = Unit

  delete_eni_attempts-Sound :
      (left : ℕ) (last : Option AwsError) (eni_id : String) (s : Session World)
      → Sound eni_id (delete_eni_attempts client timing left last eni_id s)
  unfolding delete_eni_attempts
  delete_eni_attempts-Sound zero last eni_id s = tt
  delete_eni_attempts-Sound (suc left) last eni_id s =
      delete_attempt-rule (Sound eni_id) left eni_id _ s
        (λ gone s' acknowledged e. record { before = s.world; answered = acknowledged; left = e })
        (λ e s' _ _. delete_eni_attempts-Sound left (some e) eni_id s') (λ e s' _. tt)

  -- The last error is one that asked for another attempt.
  abbrev Transient : Option AwsError → Type 0
  Transient none = ⊥
  Transient (some e) = contains e invalid_eni ≡ false

  -- What a result says of the attempts: none of them was acknowledged if all were used up.
  abbrev pub Reports : Result CleanupError Bool → Type 0
  Reports (ok gone) = Unit
  Reports (err (after_attempts n last)) = (n ≡ timing.eni_delete_max_retries) × Transient last
  Reports (err (context_done e)) = Unit
  Reports (err _) = ⊥

  delete_eni_attempts-Reports :
      (left : ℕ) (last : Option AwsError) (eni_id : String) (s : Session World)
      → (left ≡ 0 → Transient last)
      → Reports (delete_eni_attempts client timing left last eni_id s).0
  unfolding delete_eni_attempts
  delete_eni_attempts-Reports zero last eni_id s h = (refl, h refl)
  delete_eni_attempts-Reports (suc left) last eni_id s h =
      delete_attempt-rule (λ o. Reports o.0) left eni_id _ s (λ gone s' _ _. tt)
        (λ e s' transient _. delete_eni_attempts-Reports left (some e) eni_id s' (λ _. transient))
        (λ e s' _. tt)

  -- A deletion calls EC2 at least never and at most once for each attempt, by any count of the calls.
  module _ (count : World → ℕ)
      (delete-count : (eni_id : String) (w : World) → count (deleted eni_id w) ≤ count w + 1)
      (sleep-count : (w : World) → count (client.sleep delay w).1 ≤ count w) where
    count-Rested : (w w' : World) → Rested w w' → count w' ≤ count w
    count-Rested w w' (inl e) = rw e (omega arith)
    count-Rested w w' (inr e) = rw e (sleep-count w)

    count-delete_eni_attempts :
        (left : ℕ) (last : Option AwsError) (eni_id : String) (s : Session World)
        → count (delete_eni_attempts client timing left last eni_id s).1.world
          ≤ count s.world + left
    unfolding delete_eni_attempts
    count-delete_eni_attempts zero last eni_id s = omega arith
    count-delete_eni_attempts (suc left) last eni_id s =
        delete_attempt-rule (λ o. count o.1.world ≤ count s.world + suc left) left eni_id _ s
          (λ gone s' _ e. omega (arith, ap count e, delete-count eni_id s.world))
          (λ e s' _ rested. omega (
            arith,
            count-delete_eni_attempts left (some e) eni_id s',
            delete-count eni_id s.world,
            count-Rested _ s'.world rested,
          ))
          (λ e s' rested.
            omega (arith, delete-count eni_id s.world, count-Rested _ s'.world rested))

    -- At most `eniDeleteMaxRetries` deletions are sent.
    pub count-delete_eni_with_retry :
        (eni_id : String) (s : Session World)
        → count (delete_eni_with_retry client timing eni_id s).1.world
          ≤ count s.world + timing.eni_delete_max_retries
    unfolding delete_eni_with_retry
    count-delete_eni_with_retry = count-delete_eni_attempts timing.eni_delete_max_retries none

  -- A result `alreadyGone` says how EC2's last answer acknowledged the deletion.
  pub delete_eni_with_retry-SeenDeleted :
      (eni_id : String) (s : Session World) (gone : Bool)
      → (delete_eni_with_retry client timing eni_id s).0 ≡ ok gone
      → SeenDeleted client eni_id gone (delete_eni_with_retry client timing eni_id s).1.world
  unfolding delete_eni_with_retry
  delete_eni_with_retry-SeenDeleted eni_id s gone h =
      rw h at (delete_eni_attempts-Sound timing.eni_delete_max_retries none eni_id s)

  -- A failure is the context's, or comes after all the attempts with the last transient error.
  pub delete_eni_with_retry-Reports :
      (eni_id : String) (s : Session World)
      → 0 < timing.eni_delete_max_retries
      → Reports (delete_eni_with_retry client timing eni_id s).0
  unfolding delete_eni_with_retry
  delete_eni_with_retry-Reports eni_id s h =
      delete_eni_attempts-Reports timing.eni_delete_max_retries none eni_id s
        (λ e. absurd (omega arith))
