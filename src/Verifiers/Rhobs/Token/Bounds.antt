-- ===== src/Verifiers/Rhobs/Token/Bounds.antt =====
-- How often getOIDCAccessToken of pkg/verifiers/rhobs.go asks, and how long it waits.
use openshift_online_rosa_e.Base.{
  ℕ, suc, ◌+◌, ◌≤◌, String, ◌≡◌, refl, List, [], ◌∷◌, Result, ok, err, Option, none, some, length,
  arith,
}
use openshift_online_rosa_e.Base.Io.{Io}
use openshift_online_rosa_e.Verifiers.Conditions.{ApiError}
use openshift_online_rosa_e.Verifiers.Http.{Response}
use openshift_online_rosa_e.Verifiers.Rhobs.{RhobsConfig, RhobsError, RhobsWorld}
use openshift_online_rosa_e.Verifiers.Rhobs.Token.{
  Attempt, retry, return_token, token_form, judge_answer, send, attempt, finish, give_up, try_again,
  token_loop, get_oidc_access_token,
}

-- A world that counts the forms that are posted and the seconds that are slept
pub record Counted {World : Type 0} (outside : RhobsWorld World) (posts slept : World → ℕ)
    : Type 0 where
  pub post_counts :
      (url : String) (form : List (String × String)) (w : World)
      → posts (outside.post_form url form w).1 ≡ posts w + 1
  pub post_sleeps :
      (url : String) (form : List (String × String)) (w : World)
      → slept (outside.post_form url form w).1 ≡ slept w
  pub sleep_posts : (duration : ℕ) (w : World) → posts (outside.sleep duration w) ≡ posts w
  pub sleep_counts :
      (duration : ℕ) (w : World) → slept (outside.sleep duration w) ≡ slept w + duration

abbrev pub total : List ℕ → ℕ
total [] = 0
total (n ∷ ns) = n + total ns

-- At most so many posts and seconds later
abbrev pub Within : {World : Type 0} → (World → ℕ) → (World → ℕ) → ℕ → ℕ → World → World → Type 0
Within posts slept n seconds v w = (posts w ≤ posts v + n) × (slept w ≤ slept v + seconds)

module _ {World : Type 0} (outside : RhobsWorld World) (posts slept : World → ℕ)
    (counted : Counted outside posts slept) (cfg : RhobsConfig) where
  judge_answer-state :
      (number : ℕ) (answer : Result ApiError Response × World)
      → (judge_answer outside cfg number answer).1 ≡ answer.1
  judge_answer-state number (err e, w) = refl
  judge_answer-state number (ok response, w) = refl

  send-Within :
      (number : ℕ) (allowed : Option ApiError) (w : World)
      → Within posts slept 1 0 w (send outside cfg number allowed w).1
  send-Within number (some e) w = (omega arith, omega arith)
  send-Within number none w =
      let posted = counted.post_counts cfg.oidc_issuer_url (token_form cfg) w in
      let awake = counted.post_sleeps cfg.oidc_issuer_url (token_form cfg) w in
      rw judge_answer-state ((omega (arith, posted), omega (arith, awake)))

  finish-Within :
      (next : RhobsError → Io RhobsError World String) (n seconds : ℕ)
      → ((e : RhobsError) (v : World) → Within posts slept n seconds v (next e v).1)
      → (v : World) (p : Attempt × World) → Within posts slept 1 0 v p.1
      → Within posts slept (1 + n) seconds v (finish outside cfg next p).1
  finish-Within next n seconds later v (retry e, w) h =
      let rest = later e w in (omega (arith, h.0, rest.0), omega (arith, h.1, rest.1))
  finish-Within next n seconds later v (return_token r, w) h =
      (omega (arith, h.0), omega (arith, h.1))

  token_loop-Within :
      (left : List ℕ) (number : ℕ) (w : World)
      → Within posts slept (1 + length left) (total left) w (token_loop outside cfg left number w).1
  unfolding token_loop attempt
  token_loop-Within [] number w =
      finish-Within (give_up outside cfg) 0 0 (λ e v. (omega arith, omega arith)) w _
        (send-Within number (outside.new_request cfg.oidc_issuer_url) w)
  token_loop-Within (delay ∷ left) number w =
      finish-Within (try_again outside cfg delay (token_loop outside cfg left (suc number)))
        (suc (length left)) (total (delay ∷ left))
        (λ e v.
          let rest = token_loop-Within left (suc number) (outside.sleep delay v) in
          (
            omega (arith, rest.0, counted.sleep_posts delay v),
            omega (arith, rest.1, counted.sleep_counts delay v),
          ))
        w _ (send-Within number (outside.new_request cfg.oidc_issuer_url) w)

  -- Whatever the identity provider answers, getOIDCAccessToken posts the form at most four times and
  -- sleeps at most 35 seconds.
  pub get_oidc_access_token-Within :
      (w : World) → Within posts slept 4 35 w (get_oidc_access_token outside cfg w).1
  unfolding get_oidc_access_token
  get_oidc_access_token-Within w = token_loop-Within (5 ∷ 10 ∷ 20 ∷ []) 1 w
