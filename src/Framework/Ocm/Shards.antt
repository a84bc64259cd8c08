-- ===== src/Framework/Ocm/Shards.antt =====
-- pkg/framework/ocm.go: which provision shard is chosen.
use openshift_online_rosa_e.Base.{
  String, ◌<>◌, ◌≡◌, ◌≢◌, refl, ap, ◌∙◌, ◌⊎◌, ◌==◌, eq_iff, Result, ok, err, List, inl, inr,
  Bool-cases, clash, ok-injective,
}
use openshift_online_rosa_e.Framework.Ocm.{
  ApiError, OcmError, Fleet, dedicated_shard, or_first, shard_query, choose_shard, read_shards,
  find_shard_for_sector, or_else, resolve_provision_shard, no_provision_shard,
}
use openshift_online_rosa_e.Framework.Ocm.Dedicated.{
  Chosen, NoneChosen, or_first-Chosen, or_first-NoneChosen,
}

-- The fleet service answered the search for the service clusters of the status.
abbrev pub Searched : Fleet → String → String → String → Result ApiError String → Type 0
Searched fleet sector region status answer =
    fleet.search (
      "sector is '" <> sector <> "' and region is '" <> region <> "' and status in ('" <> status
      <> "')")
    ≡ answer

-- The shard is the one chosen among those of the status.
pub record Listed (fleet : Fleet) (sector region status id : String) : Type 0 where
  pub body : String
  pub answered : Searched fleet sector region status (ok body)
  pub ids : List String
  pub parsed : fleet.unmarshal body ≡ ok ids
  pub chosen : Chosen fleet.topology_of ids id

-- The search for the status failed, or its body could not be parsed, or there is none to choose.
abbrev pub NoneListed : Fleet → String → String → String → Type 0
NoneListed fleet sector region status =
    ((e : ApiError) × Searched fleet sector region status (err e))
    ⊎ ((body : String) × Searched fleet sector region status (ok body)
        × (((e : ApiError) × (fleet.unmarshal body ≡ err e))
            ⊎ ((ids : List String) × (fleet.unmarshal body ≡ ok ids)
                × NoneChosen fleet.topology_of ids)))

module _ (fleet : Fleet) (sector region : String) where
  choose_shard-Chosen :
      (answer : Result ApiError (List String)) (id : String)
      → id ≢ ""
      → choose_shard fleet.topology_of answer ≡ ok id
      → (ids : List String) × (answer ≡ ok ids) × Chosen fleet.topology_of ids id
  choose_shard-Chosen (err e) id named h = cc
  choose_shard-Chosen (ok ids) id named h = (
    ids,
    refl,
    or_first-Chosen fleet.topology_of ids (dedicated_shard fleet.topology_of ids) id refl named
        (ok-injective (or_first (dedicated_shard fleet.topology_of ids) ids) id h),
  )

  read_shards-Listed :
      (status : String) (answer : Result ApiError String) (id : String)
      → Searched fleet sector region status answer
      → id ≢ ""
      → read_shards fleet answer ≡ ok id
      → Listed fleet sector region status id
  read_shards-Listed status (err e) id answered named h = cc
  read_shards-Listed status (ok body) id answered named h =
      let (ids, parsed, chosen) = choose_shard-Chosen (fleet.unmarshal body) id named h in
      record { body = body; answered = answered; ids = ids; parsed = parsed; chosen = chosen }

  -- A search that ended in an error or without an ID
  abbrev FoundNone : Result OcmError String → Type 0
  FoundNone answer = ((e : OcmError) × (answer ≡ err e)) ⊎ (answer ≡ ok "")

  choose_shard-NoneChosen :
      (answer : Result ApiError (List String))
      → FoundNone (choose_shard fleet.topology_of answer)
      → ((e : ApiError) × (answer ≡ err e))
        ⊎ ((ids : List String) × (answer ≡ ok ids) × NoneChosen fleet.topology_of ids)
  choose_shard-NoneChosen (err e) h = inl (e, refl)
  choose_shard-NoneChosen (ok ids) (inl h) = absurd (failed h.1)
    where
      failed : {s : String} {e : OcmError} → Path (Result OcmError String) (ok s) (err e) → ⊥
      failed k = cc
  choose_shard-NoneChosen (ok ids) (inr h) =
      let none_chosen =
        or_first-NoneChosen fleet.topology_of ids (dedicated_shard fleet.topology_of ids) refl
          (ok-injective (or_first (dedicated_shard fleet.topology_of ids) ids) "" h) in
      inr (ids, refl, none_chosen)

  read_shards-NoneListed :
      (status : String) (answer : Result ApiError String)
      → Searched fleet sector region status answer
      → FoundNone (read_shards fleet answer)
      → NoneListed fleet sector region status
  read_shards-NoneListed status (err e) answered h = inl (e, answered)
  read_shards-NoneListed status (ok body) answered h =
      inr (body, answered, choose_shard-NoneChosen (fleet.unmarshal body) h)

  or_else-ok :
      (first other : Result OcmError String) (id : String)
      → or_else first other ≡ ok id
      → ((first ≡ ok id) × (id ≢ "")) ⊎ (FoundNone first × (other ≡ ok id))
  or_else-ok (err e) other id h = inr (inl (e, refl), h)
  or_else-ok (ok s) other id h = elim (Bool-cases (s == "")) [
    | inl empty ↦ inr (inr (ap ok ((eq_iff s "").0 empty)), rw empty at h)
    | inr named ↦
        let same = rw named at h in
        inl (same, λ k. clash ((eq_iff s "").1 (ok-injective s id same ∙ k)) named)
  ]

  -- The shard that resolveProvisionShard returns is not empty, and is the one chosen among those of the
  -- service clusters that are ready, or, where there is none to choose, of those in maintenance: the first
  -- one whose topology is dedicated or cannot be read, or, without such a one, the first of all.
  pub resolve_provision_shard-Listed :
      (id : String)
      → resolve_provision_shard fleet sector region ≡ ok id
      → (id ≢ "")
        × (Listed fleet sector region "ready" id
            ⊎ (NoneListed fleet sector region "ready"
                × Listed fleet sector region "maintenance" id))
  unfolding resolve_provision_shard find_shard_for_sector
  resolve_provision_shard-Listed id h =
      elim (or_else-ok (find "ready") (or_else (find "maintenance") nothing) id h) [
        | inl (ready, named) ↦
            (named, inl (read_shards-Listed "ready" (search "ready") id refl named ready))
        | inr (unready, rest) ↦ elim (or_else-ok (find "maintenance") nothing id rest) [
          | inl (kept, named) ↦ (
            named,
            inr (
              read_shards-NoneListed "ready" (search "ready") refl unready,
              read_shards-Listed "maintenance" (search "maintenance") id refl named kept,
            ),
          )
          | inr (gone, failed) ↦ cc (failed)
        ]
      ]
    where
      search : String → Result ApiError String
      search status = fleet.search (shard_query sector region status)

      find : String → Result OcmError String
      find status = read_shards fleet (fleet.search (shard_query sector region status))

      nothing : Result OcmError String
      nothing = err (no_provision_shard sector region)
