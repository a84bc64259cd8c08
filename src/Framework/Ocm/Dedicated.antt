-- ===== src/Framework/Ocm/Dedicated.antt =====
-- pkg/framework/ocm.go: which of the listed provision shards is chosen.
use openshift_online_rosa_e.Base.{
  String, ◌≡◌, ◌≢◌, refl, sym, ap, ◌∙◌, ◌⊎◌, ◌↔◌, true, ◌==◌, eq_iff, Result, ok, err, Option, none,
  some, List, [], ◌∷◌, ◌++◌, All, inl, inr, Bool-cases, clash, arith,
}
use openshift_online_rosa_e.Base.Text.Equality.{==-eq-false_ne}
use openshift_online_rosa_e.Framework.Ocm.{ApiError, is_dedicated, dedicated_shard, or_first}

-- The topology is a dedicated one, or could not be read.
abbrev pub MayBeDedicated : Result ApiError String → Type 0
MayBeDedicated (err e) = Unit
MayBeDedicated (ok topology) = (topology ≡ "dedicated") ⊎ (topology ≡ "dedicated-v2")

is_dedicated_iff :
    (answer : Result ApiError String) → (is_dedicated answer ≡ true) ↔ MayBeDedicated answer
is_dedicated_iff (err e) = (λ h. tt, λ h. refl)
is_dedicated_iff (ok topology) =
    ground (arith, eq_iff topology "dedicated", eq_iff topology "dedicated-v2")

module _ (topology_of : String → Result ApiError String) where
  abbrev pub IsUsable : String → Type 0
  IsUsable id = (id ≢ "") × MayBeDedicated (topology_of id)

  abbrev pub NoneUsable : List String → Type 0
  NoneUsable ids = All (λ id. IsUsable id → ⊥) ids

  -- The first usable ID of the list
  abbrev pub FirstUsable : List String → String → Type 0
  FirstUsable ids id =
      (before : List String) × (after : List String) × (ids ≡ before ++ (id ∷ after))
      × NoneUsable before
      × IsUsable id

  dedicated_shard-FirstUsable :
      (ids : List String) (id : String)
      → dedicated_shard topology_of ids ≡ some id
      → FirstUsable ids id
  unfolding dedicated_shard
  dedicated_shard-FirstUsable [] id h = cc
  dedicated_shard-FirstUsable (first ∷ ids) id h = elim (Bool-cases (first == "")) [
    | inl empty ↦
        behind (λ k. k.0 ((eq_iff first "").0 empty))
          (dedicated_shard-FirstUsable ids id (rw empty at h))
    | inr named ↦ elim (Bool-cases (is_dedicated (topology_of first))) [
      | inl chosen ↦
          let same = inner (rw (named, chosen) at h) in
          (
            [],
            ids,
            ap (λ t. t ∷ ids) same,
            tt,
            rw (sym same)
                (==-eq-false_ne first "" named, (is_dedicated_iff (topology_of first)).0 chosen),
          )
      | inr shared ↦
          behind (λ k. clash ((is_dedicated_iff (topology_of first)).1 k.1) shared)
            (dedicated_shard-FirstUsable ids id (rw (named, shared) at h))
    ]
  ]
    where
      inner : {s t : String} → Path (Option String) (some s) (some t) → s ≡ t
      inner k = cc

      behind : (IsUsable first → ⊥) → FirstUsable ids id → FirstUsable (first ∷ ids) id
      behind unusable (before, after, split, passed_over, usable) =
          (first ∷ before, after, ap (λ l. first ∷ l) split, (unusable, passed_over), usable)

  dedicated_shard-NoneUsable :
      (ids : List String) → dedicated_shard topology_of ids ≡ none → NoneUsable ids
  unfolding dedicated_shard
  dedicated_shard-NoneUsable [] h = tt
  dedicated_shard-NoneUsable (first ∷ ids) h = elim (Bool-cases (first == "")) [
    | inl empty ↦
        (λ k. k.0 ((eq_iff first "").0 empty), dedicated_shard-NoneUsable ids (rw empty at h))
    | inr named ↦ elim (Bool-cases (is_dedicated (topology_of first))) [
      | inl chosen ↦ cc (rw (named, chosen) at h)
      | inr shared ↦ (
        λ k. clash ((is_dedicated_iff (topology_of first)).1 k.1) shared,
        dedicated_shard-NoneUsable ids (rw (named, shared) at h),
      )
    ]
  ]

  -- The first usable ID, or, where none is usable, the first ID of all
  abbrev pub Chosen : List String → String → Type 0
  Chosen ids id = FirstUsable ids id ⊎ (NoneUsable ids × (rest : List String) × (ids ≡ id ∷ rest))

  -- There is no ID, or none is usable and the first is empty.
  abbrev pub NoneChosen : List String → Type 0
  NoneChosen ids = NoneUsable ids × ((ids ≡ []) ⊎ ((rest : List String) × (ids ≡ "" ∷ rest)))

  pub or_first-Chosen :
      (ids : List String) (choice : Option String) (id : String)
      → dedicated_shard topology_of ids ≡ choice
      → id ≢ ""
      → or_first choice ids ≡ id
      → Chosen ids id
  or_first-Chosen ids (some s) id found named h =
      inl (dedicated_shard-FirstUsable ids id (found ∙ ap some h))
  or_first-Chosen [] none id found named h = absurd (named (sym h))
  or_first-Chosen (first ∷ ids) none id found named h =
      inr (dedicated_shard-NoneUsable (first ∷ ids) found, ids, ap (λ t. t ∷ ids) h)

  pub or_first-NoneChosen :
      (ids : List String) (choice : Option String)
      → dedicated_shard topology_of ids ≡ choice
      → or_first choice ids ≡ ""
      → NoneChosen ids
  or_first-NoneChosen ids (some s) found h =
      let usable = dedicated_shard-FirstUsable ids "" (found ∙ ap some h) in
      absurd (usable.4.0 refl)
  or_first-NoneChosen [] none found h = (tt, inl refl)
  or_first-NoneChosen (first ∷ ids) none found h =
      (dedicated_shard-NoneUsable (first ∷ ids) found, inr (ids, ap (λ t. t ∷ ids) h))
