-- ===== src/Verifiers/Revision/Stable.antt =====
-- When the check of pkg/verifiers/revision.go passes, whatever order its range takes.
use mathlib.Core.List.{Permᴰ}
use openshift_online_rosa_e.Base.{
  ℕ, String, ◌≡◌, refl, sym, ◌↔◌, List, [], ◌∷◌, map, eq_iff, Option, none, some, Result, ok, err,
  All, All-Permᴰ_iff, report, report-collect_iff, lookup, lookup-insert_all, last_or, OkAnd, arith,
}
use openshift_online_rosa_e.Base.Io.{proceed, within, rewrap}
use openshift_online_rosa_e.Verifiers.Conditions.{ApiError}
use openshift_online_rosa_e.Verifiers.Revision.{
  DeploymentRef, Deployed, Revisions, Observed, ref_of, ref_key, revisions_of, change_of, changed,
  watch, woken, verify_deployment_revisions_stable, unexpected_changes, snapshot_of, compare_to,
  snapshot_deployment_revisions, initial_snapshot, final_snapshot,
}

-- A deployment that was not listed the second time is not a change.
abbrev pub Unchanged : String → Option String → Type 0
Unchanged initial none = Unit
Unchanged initial (some final) = initial ≡ final

-- The listed deployments' revision of each of the entries is the entry's.
abbrev pub Kept : Revisions → List Deployed → Type 0
Kept entries deployments =
    All (λ entry. Unchanged (entry.1) (last_or none (entry.0) (map ref_of deployments))) entries

change_of-eq-none :
    (entry : DeploymentRef × String) (found : Option String)
    → (change_of entry found ≡ none) ↔ Unchanged (entry.1) found
change_of-eq-none (ref, initial) none = (λ _. tt, λ _. refl)
change_of-eq-none (ref, initial) (some final) = ground (arith, eq_iff initial final)

entry_iff :
    (deployments : List Deployed) (entry : DeploymentRef × String)
    → (change_of entry (lookup (entry.0) (revisions_of deployments)) ≡ none)
      ↔ Unchanged (entry.1) (last_or none (entry.0) (map ref_of deployments))
unfolding revisions_of lookup
entry_iff deployments entry =
    rw (sym (lookup-insert_all (entry.0) (map ref_of deployments) []))
      (change_of-eq-none entry (lookup (entry.0) (revisions_of deployments)))

compared_iff :
    (deployments : List Deployed) (visited entries : Revisions)
    → Permᴰ visited entries
    → (report unexpected_changes (changed (revisions_of deployments) visited) ≡ ok tt)
      ↔ Kept entries deployments
unfolding changed
compared_iff deployments visited entries order =
    let reported = report-collect_iff (entry_iff deployments) unexpected_changes visited in
    let ordered =
      All-Permᴰ_iff (λ entry. Unchanged (entry.1) (last_or none (entry.0) (map ref_of deployments)))
        order in
    (λ h. ordered.0 (reported.0 h), λ h. reported.1 (ordered.1 h))

module _ {World : Type 0} (cluster : Observed World) (visit : Revisions → Revisions) where
  -- The second listing succeeded, with the revisions of the entries.
  abbrev pub SeenAgain : Revisions → World → Type 0
  SeenAgain entries w = OkAnd (Kept entries) (cluster.list_deployments w).0

  -- The timer fired first, and then the deployments were seen again.
  abbrev pub SeenAfter : Revisions → Option ApiError × World → Type 0
  SeenAfter entries (none, w) = SeenAgain entries w
  SeenAfter entries (some e, w) = ⊥

  -- Nothing to observe, or observed and kept
  abbrev pub Stays : ℕ → World → Revisions → Type 0
  Stays period w [] = Unit
  Stays period w (entry ∷ entries) = SeenAfter (entry ∷ entries) (cluster.sleep period w)

  -- What the first listing answered stays so over the period.
  abbrev pub StaysAfter : ℕ → Result ApiError (List Deployed) × World → Type 0
  StaysAfter period (ok deployments, w) = Stays period w (revisions_of deployments)
  StaysAfter period (err e, w) = ⊥

  second_iff :
      (order : (entries : Revisions) → Permᴰ (visit entries) entries)
      → (entries : Revisions) (answer : Result ApiError (List Deployed) × World)
      → ((proceed
            (compare_to cluster visit entries)
            (rewrap final_snapshot (snapshot_of cluster visit answer))).0
          ≡ ok tt)
        ↔ OkAnd (Kept entries) answer.0
  second_iff order entries (ok deployments, w) =
      compared_iff deployments (visit entries) entries (order entries)
  second_iff order entries (err e, w) = (λ h. cc, λ h. absurd h)

  after_iff :
      (order : (entries : Revisions) → Permᴰ (visit entries) entries)
      → (entries : Revisions) (rested : Option ApiError × World)
      → ((proceed (compare_to cluster visit entries) (
            proceed
              (λ _. within final_snapshot (snapshot_deployment_revisions cluster visit))
              (woken cluster visit rested))).0
          ≡ ok tt)
        ↔ SeenAfter entries rested
  after_iff order entries (none, w) = second_iff order entries (cluster.list_deployments w)
  after_iff order entries (some e, w) = (λ h. cc, λ h. absurd h)

  watch_iff :
      (order : (entries : Revisions) → Permᴰ (visit entries) entries)
      → (period : ℕ) (entries : Revisions) (w : World)
      → ((watch cluster visit period entries w).0 ≡ ok tt) ↔ Stays period w entries
  unfolding watch
  watch_iff order period [] w = (λ _. tt, λ _. refl)
  watch_iff order period (entry ∷ entries) w =
      after_iff order (entry ∷ entries) (cluster.sleep period w)

  first_iff :
      (order : (entries : Revisions) → Permᴰ (visit entries) entries)
      → (period : ℕ) (answer : Result ApiError (List Deployed) × World)
      → ((proceed
            (watch cluster visit period)
            (rewrap initial_snapshot (snapshot_of cluster visit answer))).0
          ≡ ok tt)
        ↔ StaysAfter period answer
  first_iff order period (ok deployments, w) = watch_iff order period (revisions_of deployments) w
  first_iff order period (err e, w) = (λ h. cc, λ h. absurd h)

  -- Where a range over a map visits its entries once each, in whatever order, the check passes exactly
  -- when the first listing succeeded and either has no deployment, or the timer fired before the context
  -- was done, the second listing succeeded, and no deployment it lists has another revision than before:
  -- deployments that it does not list any more, and those that are new, count as unchanged.
  pub verify_deployment_revisions_stable_iff :
      (order : (entries : Revisions) → Permᴰ (visit entries) entries)
      → (period : ℕ) (w : World)
      → ((verify_deployment_revisions_stable cluster visit period w).0 ≡ ok tt)
        ↔ StaysAfter period (cluster.list_deployments w)
  unfolding verify_deployment_revisions_stable
  verify_deployment_revisions_stable_iff order period w =
      first_iff order period (cluster.list_deployments w)
