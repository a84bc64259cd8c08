-- ===== src/Verifiers/Http.antt =====
-- Responses of servers, as pkg/verifiers/external_auth.go and pkg/verifiers/rhobs.go read them.
use openshift_online_rosa_e.Base.{ℕ, String, ◌≡◌, Result, ok, err, Option, OkAnd}
use openshift_online_rosa_e.Verifiers.Conditions.{ApiError}

-- A response: its status, the part of the body that was read, and the error that ended the reading
pub record Response : Type 0 where
  pub status : ℕ
  pub body : String
  pub read_error : Option ApiError

module _ {W A : Type 0} where
  -- The server answered 200 with a body that decodes, to a value and in a world where `P` holds.
  abbrev pub Answered :
      (String → Result ApiError A) → (A → W → Type 0) → Result ApiError Response × W → Type 0
  Answered decode P (err e, w) = ⊥
  Answered decode P (ok response, w) =
      (response.status ≡ 200) × OkAnd (λ a. P a w) (decode response.body)
