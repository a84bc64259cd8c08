-- ===== src/Framework/Vpc/Enis/Gone.antt =====
-- After `cleanupENIs` succeeds, the interfaces that it listed are gone.
use openshift_online_rosa_e.Base.{
  ℕ, zero, suc, String, ◌≡◌, sym, subst, inl, inr, Bool, Option, none, some, List, [], ◌∷◌, ◌++◌,
  ◌∙◌, All, Bool-cases, Option-cases, Result, ok, ltb, if◌then◌else◌, length,
}
use openshift_online_rosa_e.Base.Io.{within, each}
use openshift_online_rosa_e.Base.Io.Laws.{
  Keeps, Keeps-bind, Keeps-within, Keeps-each, proceed-ok, rewrap-ok, rewrap-state, each-All,
}
use openshift_online_rosa_e.Base.Text.{contains}
use openshift_online_rosa_e.Framework.Vpc.Types.{
  AwsError, NetworkInterface, Ec2Client, Timing, Session, CleanupError, invalid_eni, to_string,
  collect_pages, deleting_eni, waiting_for_eni, describing_network_interfaces, found_enis,
  eni_already_gone, eni_deleted,
}
use openshift_online_rosa_e.Framework.Vpc.Calls.{Cleanup, logf, pause, paginate}
use openshift_online_rosa_e.Framework.Vpc.Tracking.{
  Resource, Tracks, Holds, Keeps-logf, Keeps-pause, paginate-ok, Keeps-paginate,
}
use openshift_online_rosa_e.Framework.Vpc.Enis.{
  settle, poll_round, poll_eni, wait_for_eni_available, pause_before, delete_attempt,
  delete_eni_attempts, delete_eni_with_retry, detach_eni, cleanup_eni, cleanup_found_enis,
  cleanup_enis,
}
use openshift_online_rosa_e.Framework.Vpc.Enis.Retry.{
  SeenDeleted, delete_eni_with_retry-SeenDeleted,
}

module _ {World Permission : Type 0} (client : Ec2Client World Permission) (timing : Timing)
    {Gone : Resource → World → Type 0} (tracks : Tracks client Gone) (r : Resource) where
  abbrev P : World → Type 0
  P = Gone r

  Keeps-settle :
      (v : Option (Result CleanupError (Unit {0}))) (again : Cleanup World (Unit {0}))
      → Keeps (Holds P) again
      → Keeps (Holds P) (settle v again)
  Keeps-settle none again k = record { at = λ s h. k.at s h }
  Keeps-settle (some v) again k = record { at = λ s h. h }

  Keeps-poll_round :
      (deadline : ℕ) (eni_id : String) (rest : Cleanup World (Unit {0}))
      → Keeps (Holds P) rest
      → Keeps (Holds P) (poll_round client timing deadline eni_id rest)
  unfolding poll_round
  Keeps-poll_round deadline eni_id rest k = record {
    at = λ s h. elim (Bool-cases (ltb deadline (client.now s.world))) [
      | inl late ↦ rw late h
      | inr in_time ↦ rw in_time (
          (Keeps-settle _ _ (
              Keeps-bind (Holds P) (pause client timing.eni_detach_poll_interval) _
                (Keeps-pause P client timing.eni_detach_poll_interval (tracks.stays_asleep r _))
                (λ _. k))).at
            _ (tracks.stays_described r eni_id s.world h))
    ];
  }

  Keeps-poll_eni :
      (rounds deadline : ℕ) (eni_id : String)
      → Keeps (Holds P) (poll_eni client timing rounds deadline eni_id)
  unfolding poll_eni
  Keeps-poll_eni zero deadline eni_id = record { at = λ s h. h }
  Keeps-poll_eni (suc rounds) deadline eni_id =
      Keeps-poll_round deadline eni_id _ (Keeps-poll_eni rounds deadline eni_id)

  Keeps-wait : (eni_id : String) → Keeps (Holds P) (wait_for_eni_available client timing eni_id)
  unfolding wait_for_eni_available
  Keeps-wait eni_id = record { at = λ s h. (Keeps-poll_eni _ _ eni_id).at s h }

  Keeps-pause_before : (left : ℕ) → Keeps (Holds P) (pause_before client timing left)
  Keeps-pause_before zero = record { at = λ s h. h }
  Keeps-pause_before (suc left) =
      Keeps-pause P client timing.eni_delete_retry_delay (tracks.stays_asleep r _)

  Keeps-delete_attempt :
      (left : ℕ) (eni_id : String) (rest : AwsError → Cleanup World Bool)
      → ((e : AwsError) → Keeps (Holds P) (rest e))
      → Keeps (Holds P) (delete_attempt client timing left eni_id rest)
  unfolding delete_attempt
  Keeps-delete_attempt left eni_id rest k = record {
    at = λ s h.
        let stays = tracks.stays_eni r eni_id s.world h in
        elim (Option-cases (client.delete_network_interface eni_id s.world).0) [
          | inl done ↦ rw done stays
          | inr (e, failed) ↦ elim (Bool-cases (contains e invalid_eni)) [
            | inl unknown ↦ rw failed (rw unknown stays)
            | inr transient ↦ rw failed (
                rw transient (
                  (Keeps-bind (Holds P) (pause_before client timing left) _
                      (Keeps-pause_before left) (λ _. k e)).at
                    _ stays))
          ]
        ];
  }

  Keeps-delete_eni_attempts :
      (left : ℕ) (last : Option AwsError) (eni_id : String)
      → Keeps (Holds P) (delete_eni_attempts client timing left last eni_id)
  unfolding delete_eni_attempts
  Keeps-delete_eni_attempts zero last eni_id = record { at = λ s h. h }
  Keeps-delete_eni_attempts (suc left) last eni_id =
      Keeps-delete_attempt left eni_id _ (λ e. Keeps-delete_eni_attempts left (some e) eni_id)

  Keeps-delete_eni_with_retry :
      (eni_id : String) → Keeps (Holds P) (delete_eni_with_retry client timing eni_id)
  unfolding delete_eni_with_retry
  Keeps-delete_eni_with_retry = Keeps-delete_eni_attempts _ _

  Keeps-detach_eni :
      (eni_id : String) (a : Option (Option String))
      → Keeps (Holds P) (detach_eni client timing eni_id a)
  unfolding detach_eni
  Keeps-detach_eni eni_id (some (some attachment_id)) = record {
    at = λ s h. elim (Option-cases (client.detach_network_interface attachment_id s.world).0) [
      | inr (e, failed) ↦ rw failed (tracks.stays_detached r attachment_id s.world h)
      | inl detached ↦ rw detached (
          (Keeps-within (Holds P) (waiting_for_eni eni_id) _ (Keeps-wait eni_id)).at _
            (tracks.stays_detached r attachment_id s.world h))
    ];
  }
  Keeps-detach_eni eni_id (some none) = record { at = λ s h. h }
  Keeps-detach_eni eni_id none = record { at = λ s h. h }

  Keeps-cleanup_eni : (eni : NetworkInterface) → Keeps (Holds P) (cleanup_eni client timing eni)
  unfolding cleanup_eni
  Keeps-cleanup_eni eni =
      Keeps-bind (Holds P)
        (detach_eni client timing (to_string eni.network_interface_id) eni.attachment) _
        (Keeps-detach_eni _ _)
        (λ _.
          Keeps-bind (Holds P) (within (deleting_eni _) (delete_eni_with_retry client timing _)) _
            (Keeps-within (Holds P) _ _ (Keeps-delete_eni_with_retry _)) (λ gone. Keeps-logf P _))

  pub Keeps-cleanup_enis : (vpc_id : String) → Keeps (Holds P) (cleanup_enis client timing vpc_id)
  unfolding cleanup_enis cleanup_found_enis
  Keeps-cleanup_enis vpc_id =
      Keeps-bind (Holds P)
        (paginate (client.network_interface_pages vpc_id) describing_network_interfaces) _
        (Keeps-paginate _ _ P) Keeps-found
    where
      Keeps-found :
          (enis : List NetworkInterface)
          → Keeps (Holds P) (cleanup_found_enis client timing vpc_id enis)
      Keeps-found [] = record { at = λ s h. h }
      Keeps-found (eni ∷ enis) =
          Keeps-bind (Holds P) (logf (found_enis (length (eni ∷ enis)) vpc_id)) _ (Keeps-logf P _)
            (λ _. Keeps-each (Holds P) (cleanup_eni client timing) Keeps-cleanup_eni (eni ∷ enis))

module _ {World Permission : Type 0} (client : Ec2Client World Permission) (timing : Timing)
    {Gone : Resource → World → Type 0} (tracks : Tracks client Gone) where
  Gone_of_SeenDeleted :
      (eni_id : String) (gone : Bool) (w : World)
      → SeenDeleted client eni_id gone w
      → Gone (Resource.eni eni_id) w
  Gone_of_SeenDeleted eni_id gone w seen =
      elim (Option-cases (client.delete_network_interface eni_id seen.before).0) [
        | inl deleted ↦
            subst (Gone (Resource.eni eni_id)) seen.left
              (tracks.eni_deleted eni_id seen.before deleted)
        | inr (e, failed) ↦
            subst (Gone (Resource.eni eni_id)) seen.left
              (tracks.eni_unknown eni_id seen.before e failed (rw failed at seen.answered).1)
      ]

  abbrev pub EniGone : NetworkInterface → Session World → Type 0
  EniGone eni s = Gone (Resource.eni (to_string eni.network_interface_id)) s.world

  cleanup_eni-EniGone :
      (eni : NetworkInterface) (s : Session World)
      → (cleanup_eni client timing eni s).0 ≡ ok tt
      → EniGone eni (cleanup_eni client timing eni s).1
  unfolding cleanup_eni
  cleanup_eni-EniGone eni s h =
      let id = to_string eni.network_interface_id in
      let (_, _, e) = proceed-ok _ (detach_eni client timing id eni.attachment s) h in
      let s' = (detach_eni client timing id eni.attachment s).1 in
      let (gone, deleted, e') =
        proceed-ok (λ (gone : Bool). logf (if gone then eni_already_gone id else eni_deleted id))
          (within (deleting_eni id) (delete_eni_with_retry client timing id) s') (rw e at h) in
      subst (λ p. EniGone eni p.1) (sym (e ∙ e'))
        (subst (λ t. Gone (Resource.eni id) t.world)
          (sym (rewrap-state (deleting_eni id) (delete_eni_with_retry client timing id s')))
          (Gone_of_SeenDeleted id gone _ (
            delete_eni_with_retry-SeenDeleted client timing id s' gone
              (rewrap-ok (deleting_eni id) _ deleted))))

  -- After the listing the phase is its loop over what is listed.
  cleanup_enis-each :
      (vpc_id : String) (s : Session World) (eni : NetworkInterface) (enis : List NetworkInterface)
      → collect_pages (client.network_interface_pages vpc_id s.world) ≡ ok (eni ∷ enis)
      → cleanup_enis client timing vpc_id s
        ≡ each
            (cleanup_eni client timing)
            (eni ∷ enis)
            (record s { log = s.log ++ (found_enis (length (eni ∷ enis)) vpc_id ∷ []) })
  unfolding cleanup_enis cleanup_found_enis
  cleanup_enis-each vpc_id s eni enis listed = rw listed

  pub cleanup_enis-EniGone :
      (vpc_id : String) (s : Session World) {enis : List NetworkInterface}
      → (cleanup_enis client timing vpc_id s).0 ≡ ok tt
      → collect_pages (client.network_interface_pages vpc_id s.world) ≡ ok enis
      → All (λ eni. EniGone eni (cleanup_enis client timing vpc_id s).1) enis
  cleanup_enis-EniGone vpc_id s {enis = []} h listed = tt
  cleanup_enis-EniGone vpc_id s {enis = eni ∷ enis} h listed =
      let e = cleanup_enis-each vpc_id s eni enis listed in
      subst (λ p. All (λ x. EniGone x p.1) (eni ∷ enis)) (sym e)
        (each-All EniGone (cleanup_eni client timing)
          (λ x y.
            Keeps-cleanup_eni client timing tracks (Resource.eni (to_string y.network_interface_id))
              x)
          cleanup_eni-EniGone (eni ∷ enis) _ (rw e at h))

  -- A phase that succeeded has listed.
  pub cleanup_enis-listed :
      (vpc_id : String) (s : Session World)
      → (cleanup_enis client timing vpc_id s).0 ≡ ok tt
      → (enis : List NetworkInterface) × (collect_pages
            (client.network_interface_pages vpc_id s.world)
          ≡ ok enis)
  unfolding cleanup_enis
  cleanup_enis-listed vpc_id s h =
      let pages = paginate (client.network_interface_pages vpc_id) describing_network_interfaces in
      let (enis, listed, _) = proceed-ok (cleanup_found_enis client timing vpc_id) (pages s) h in
      (
        enis,
        paginate-ok (client.network_interface_pages vpc_id) describing_network_interfaces s listed,
      )
