-- ===== src/Framework/Ocm/Waiting.antt =====
-- pkg/framework/ocm.go: what the wait for a cluster returns.
use openshift_online_rosa_e.Base.{
  String, ◌≡◌, ◌≢◌, refl, ap, ◌∙◌, ◌↔◌, ◌==◌, eq_iff, ok, err, none, some, List, [], ◌∷◌, ◌++◌, All,
  inl, inr, Bool-cases, Option-cases,
}
use openshift_online_rosa_e.Base.Text.Equality.{==-eq-false, ==-eq-false_ne}
use openshift_online_rosa_e.Framework.Ocm.{
  Event, timeout, tick, state_verdict, event_verdict, wait_for_cluster_ready,
}

-- An event after which the wait goes on: a state that could not be read, or one that decides nothing
abbrev pub IsPending : Event → Type 0
IsPending timeout = ⊥
IsPending (tick (err e)) = Unit
IsPending (tick (ok state)) = (state ≢ "ready") × (state ≢ "error") × (state ≢ "uninstalling")

-- Ready was read before anything else that decides.
pub record ReadyFirst (events : List Event) : Type 0 where
  pub before : List Event
  pub after : List Event
  pub split : events ≡ before ++ (tick (ok "ready") ∷ after)
  pub pending : All IsPending before

state_verdict-ready : (state : String) → state_verdict state ≡ some (ok tt) → state ≡ "ready"
state_verdict-ready state h = elim (Bool-cases (state == "ready")) [
  | inl ready ↦ (eq_iff state "ready").0 ready
  | inr other ↦ elim (Bool-cases (state == "error")) [
    | inl failed ↦ cc (failed, rw (other, failed) at h)
    | inr well ↦ elim (Bool-cases (state == "uninstalling")) [
      | inl going ↦ cc (going, rw (other, well, going) at h)
      | inr staying ↦ cc (staying, rw (other, well, staying) at h)
    ]
  ]
]

state_verdict-none :
    (state : String)
    → state_verdict state ≡ none
    → (state ≢ "ready") × (state ≢ "error") × (state ≢ "uninstalling")
state_verdict-none state h = elim (Bool-cases (state == "ready")) [
  | inl ready ↦ cc (ready, rw ready at h)
  | inr other ↦ elim (Bool-cases (state == "error")) [
    | inl failed ↦ cc (failed, rw (other, failed) at h)
    | inr well ↦ elim (Bool-cases (state == "uninstalling")) [
      | inl going ↦ cc (going, rw (other, well, going) at h)
      | inr staying ↦
          (==-eq-false_ne _ _ other, ==-eq-false_ne _ _ well, ==-eq-false_ne _ _ staying)
    ]
  ]
]

none-state_verdict :
    (state : String)
    → state ≢ "ready"
    → state ≢ "error"
    → state ≢ "uninstalling"
    → state_verdict state ≡ none
none-state_verdict state a b c =
    rw
      (==-eq-false state "ready" a, ==-eq-false state "error" b, ==-eq-false state "uninstalling" c)
      refl

event_verdict-IsPending : (event : Event) → event_verdict event ≡ none → IsPending event
event_verdict-IsPending timeout h = cc
event_verdict-IsPending (tick (err e)) h = tt
event_verdict-IsPending (tick (ok state)) h = state_verdict-none state h

IsPending-event_verdict : (event : Event) → IsPending event → event_verdict event ≡ none
IsPending-event_verdict timeout h = absurd h
IsPending-event_verdict (tick (err e)) h = refl
IsPending-event_verdict (tick (ok state)) h = none-state_verdict state h.0 h.1 h.2

event_verdict-ready :
    (event : Event) → event_verdict event ≡ some (ok tt) → event ≡ tick (ok "ready")
event_verdict-ready timeout h = cc
event_verdict-ready (tick (err e)) h = cc
event_verdict-ready (tick (ok state)) h = ap (λ s. tick (ok s)) (state_verdict-ready state h)

found : (events : List Event) → wait_for_cluster_ready events ≡ some (ok tt) → ReadyFirst events
unfolding wait_for_cluster_ready
found [] h = cc
found (event ∷ events) h = elim (Option-cases (event_verdict event)) [
  | inl goes_on ↦ later (event_verdict-IsPending event goes_on) (found events (rw goes_on at h))
  | inr (verdict, ends) ↦ record {
    before = [];
    after = events;
    split = ap (λ e. e ∷ events) (event_verdict-ready event (ends ∙ rw ends at h));
    pending = tt;
  }
]
  where
    later : IsPending event → ReadyFirst events → ReadyFirst (event ∷ events)
    later pending rest = record {
      before = event ∷ rest.before;
      after = rest.after;
      split = ap (λ l. event ∷ l) rest.split;
      pending = (pending, rest.pending);
    }

reached :
    (before after : List Event)
    → All IsPending before
    → wait_for_cluster_ready (before ++ (tick (ok "ready") ∷ after)) ≡ some (ok tt)
unfolding wait_for_cluster_ready
reached [] after h = refl
reached (event ∷ before) after h = rw (IsPending-event_verdict event h.0) (reached before after h.1)

-- WaitForClusterReady succeeds exactly when a tick read the state ready before the timeout and before
-- the states error and uninstalling, whatever readings failed and whatever other states were read.
pub wait_for_cluster_ready_iff :
    (events : List Event) → (wait_for_cluster_ready events ≡ some (ok tt)) ↔ ReadyFirst events
wait_for_cluster_ready_iff events =
    (found events, λ h. ap wait_for_cluster_ready h.split ∙ reached h.before h.after h.pending)
