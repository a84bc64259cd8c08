-- ===== src/Framework/Vpc/Enis.antt =====
-- pkg/framework/vpc_cleanup.go: `cleanupENIs`, `waitForENIAvailable` and `deleteENIWithRetry`.
pub mod Polling
pub mod Retry
pub mod Gone
use openshift_online_rosa_e.Base.{
  ℕ, zero, suc, ◌+◌, String, Bool, true, false, Option, none, some, List, [], ◌∷◌, ◌==◌, ltb,
  length, if◌then◌else◌, Result, ok, err,
}
use openshift_online_rosa_e.Base.Io.{Io, pure, raise, gets, ◌>>=◌, ◌>>◌, within, each}
use openshift_online_rosa_e.Base.Text.{contains}
use Prim.Native.Nat.{◌/◌}
use openshift_online_rosa_e.Framework.Vpc.Types.{
  AwsError, NetworkInterface, Ec2Client, Timing, CleanupError, to_string, invalid_eni,
  describing_network_interfaces, detaching_eni, waiting_for_eni, deleting_eni, timed_out,
  describing_eni, after_attempts, out_of_fuel, found_enis, detaching, eni_already_gone, eni_deleted,
}
use openshift_online_rosa_e.Framework.Vpc.Calls.{Cleanup, call, logf, paginate, pause}

-- What one round of the polling makes of its answer: `none` asks for another round.
abbrev pub eni_verdict :
    String → Result AwsError (List NetworkInterface) → Option (Result CleanupError (Unit {0}))
eni_verdict eni_id (err e) =
    if contains e invalid_eni then some (ok tt) else some (err (describing_eni eni_id e))
eni_verdict eni_id (ok []) = some (ok tt)
eni_verdict eni_id (ok (eni ∷ _)) = if eni.status == "available" then some (ok tt) else none

-- The round's own result, or the rest of the loop
abbrev settle {ℓ} : {E S A : Type ℓ} → Option (Result E A) → Io E S A → Io E S A
settle none again s = again s
settle (some r) again s = (r, s)

module _ {World Permission : Type 0} (client : Ec2Client World Permission) (timing : Timing) where
  -- One round of the loop of `waitForENIAvailable`, in front of the rest of the loop
  unfoldable pub poll_round : ℕ → String → Cleanup World (Unit {0}) → Cleanup World (Unit {0})
  poll_round deadline eni_id rest = do
    time ← gets (λ s. client.now s.world)
    if ltb deadline time then raise (timed_out timing.eni_detach_timeout eni_id) else do
      answer ← call (client.describe_network_interface eni_id)
      settle (eni_verdict eni_id answer) (pause client timing.eni_detach_poll_interval >> rest)

  -- The loop, by rounds left
  unfoldable pub poll_eni : ℕ → ℕ → String → Cleanup World (Unit {0})
  poll_eni zero deadline eni_id = raise out_of_fuel
  poll_eni (suc rounds) deadline eni_id =
      poll_round deadline eni_id (poll_eni rounds deadline eni_id)

  -- A round takes a poll interval at least, so these rounds outlast the deadline.
  abbrev pub poll_rounds : ℕ
  poll_rounds = suc (suc (timing.eni_detach_timeout / timing.eni_detach_poll_interval))

  unfoldable pub wait_for_eni_available : String → Cleanup World (Unit {0})
  wait_for_eni_available eni_id = do
    start ← gets (λ s. client.now s.world)
    poll_eni poll_rounds (start + timing.eni_detach_timeout) eni_id

  -- The pause between two attempts, none after the last.
  abbrev pause_before : ℕ → Cleanup World (Unit {0})
  pause_before zero = pure tt
  pause_before (suc _) = pause client timing.eni_delete_retry_delay

  -- One attempt of `deleteENIWithRetry`, in front of the rest of its loop, which takes `lastErr`
  unfoldable pub delete_attempt : ℕ → String → (AwsError → Cleanup World Bool) → Cleanup World Bool
  delete_attempt left eni_id rest = do
    answer ← call (client.delete_network_interface eni_id)
    elim answer [
      | none ↦ pure false
      | some e ↦ if contains e invalid_eni then pure true else (pause_before left >> rest e)
    ]

  -- The loop, by attempts left. The result is `alreadyGone`.
  unfoldable pub delete_eni_attempts : ℕ → Option AwsError → String → Cleanup World Bool
  delete_eni_attempts zero last eni_id = raise (after_attempts timing.eni_delete_max_retries last)
  delete_eni_attempts (suc left) last eni_id =
      delete_attempt left eni_id (λ e. delete_eni_attempts left (some e) eni_id)

  unfoldable pub delete_eni_with_retry : String → Cleanup World Bool
  delete_eni_with_retry = delete_eni_attempts timing.eni_delete_max_retries none

  -- `eni.Attachment != nil && eni.Attachment.AttachmentId != nil`
  unfoldable pub detach_eni : String → Option (Option String) → Cleanup World (Unit {0})
  detach_eni eni_id (some (some attachment_id)) = do
    logf (detaching eni_id attachment_id)
    answer ← call (client.detach_network_interface attachment_id)
    elim answer [
      | some e ↦ raise (detaching_eni eni_id attachment_id e)
      | none ↦ within (waiting_for_eni eni_id) (wait_for_eni_available eni_id)
    ]
  detach_eni eni_id (some none) = pure tt
  detach_eni eni_id none = pure tt

  unfoldable pub cleanup_eni : NetworkInterface → Cleanup World (Unit {0})
  cleanup_eni eni =
      let eni_id = to_string eni.network_interface_id in
      do
        detach_eni eni_id eni.attachment
        already_gone ← within (deleting_eni eni_id) (delete_eni_with_retry eni_id)
        logf (if already_gone then eni_already_gone eni_id else eni_deleted eni_id)

  unfoldable pub cleanup_found_enis : String → List NetworkInterface → Cleanup World (Unit {0})
  cleanup_found_enis vpc_id [] = pure tt
  cleanup_found_enis vpc_id (eni ∷ enis) = do
    logf (found_enis (length (eni ∷ enis)) vpc_id)
    each cleanup_eni (eni ∷ enis)

  unfoldable pub cleanup_enis : String → Cleanup World (Unit {0})
  cleanup_enis vpc_id = do
    enis ← paginate (client.network_interface_pages vpc_id) describing_network_interfaces
    cleanup_found_enis vpc_id enis
