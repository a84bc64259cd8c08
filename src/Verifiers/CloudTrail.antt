-- ===== src/Verifiers/CloudTrail.antt =====
-- pkg/verifiers/cloudtrail.go. The lookup of events and the decoding of their JSON are parameters.
pub mod Denials
pub mod Pages
use openshift_online_rosa_e.Base.{
  ℕ, zero, suc, String, Bool, not, List, [], ◌∷◌, ◌++◌, ◌&&◌, ◌||◌, ◌==◌, any, if◌then◌else◌,
  Result, ok, err, ◌>>=◌, Option, none, some, collect, report,
}
use openshift_online_rosa_e.Base.Text.{contains}
use openshift_online_rosa_e.Unstructured.{Fields, get_map?, get_string?, get_string, and_then}
use openshift_online_rosa_e.Verifiers.Conditions.{ApiError}

pub record KnownDenial : Type 0 where
  pub event_name : String
  pub role_pattern : String

-- An event, whose fields may be nil
pub record Event : Type 0 where
  pub cloud_trail_event : Option String
  pub event_name : Option String
  pub event_time : Option String

pub record Page : Type 0 where
  pub events : List Event
  pub next_token : Option String

-- An entry of `deniedEvents`
pub record Denied : Type 0 where
  pub name : String
  pub time : String
  pub error_code : String
  pub error_message : String
  pub caller : String

pub data TrailError : Type 0 where
  looking_up_events : ApiError → TrailError
  denied_events : List Denied → TrailError

pub record Trail : Type 0 where
  -- `LookupEvents` of a page, from the start of the time that is looked back to
  pub lookup_events : Option String → Result ApiError Page
  -- `json.Unmarshal` into a map, `none` where it fails
  pub decode : String → Option Fields

abbrev pub known_access_denied_events : List KnownDenial
known_access_denied_events =
    record { event_name = "DeleteListener"; role_pattern = "Installer-Role" } ∷ []

-- `isKnownDenial`
unfoldable pub is_known_denial : String → String → Bool
is_known_denial event_name caller_arn =
    any (λ k. (k.event_name == event_name) && contains caller_arn k.role_pattern)
      known_access_denied_events

abbrev pub issuer_arn : Option Fields → String
issuer_arn none = ""
issuer_arn (some session_issuer) = get_string "arn" session_issuer

abbrev pub identity_arn : Fields → Option String → String
identity_arn identity (some arn) = arn
identity_arn identity none =
    issuer_arn (and_then (get_map? "sessionContext" identity) (get_map? "sessionIssuer"))

abbrev pub arn_of : Option Fields → String
arn_of none = ""
arn_of (some identity) = identity_arn identity (get_string? "arn" identity)

-- `callerARNFromEvent`
unfoldable pub caller_arn_from_event : Fields → String
caller_arn_from_event event_data = arn_of (get_map? "userIdentity" event_data)

abbrev pub is_denial : String → String → Bool
is_denial error_code error_message =
    contains error_code "AccessDenied"
    || (contains error_code "UnauthorizedAccess"
        || (contains error_message "AccessDenied" || contains error_message "UnauthorizedAccess"))

abbrev pub denied_by : String → String → Fields → Option Denied
denied_by name time event_data =
    if is_denial (get_string "errorCode" event_data) (get_string "errorMessage" event_data)
    then (if is_known_denial name (caller_arn_from_event event_data)
        then none
        else some (record {
          name = name;
          time = time;
          error_code = get_string "errorCode" event_data;
          error_message = get_string "errorMessage" event_data;
          caller = caller_arn_from_event event_data;
        }))
    else none

module _ (trail : Trail) (filter_string : String) where
  abbrev pub denial_of : Option String → Option String → Option String → Option Denied
  denial_of (some event_json) (some name) (some time) =
      if not (filter_string == "") && not (contains event_json filter_string)
      then none
      else and_then (trail.decode event_json) (denied_by name time)
  denial_of _ _ _ = none

  -- The loop's body
  abbrev pub denial : Event → Option Denied
  denial event = denial_of event.cloud_trail_event event.event_name event.event_time

  abbrev pub with_rest : Page → Result TrailError (List Denied) → Result TrailError (List Denied)
  with_rest page (ok rest) = ok (collect denial page.events ++ rest)
  with_rest page (err e) = err e

  -- `nextToken = resp.NextToken; if nextToken == nil { break }`
  abbrev pub follow :
      Option String
      → (Option String → Result TrailError (List Denied))
      → Result TrailError (List Denied)
  follow none read = ok []
  follow (some token) read = read (some token)

  abbrev pub read_page :
      Result ApiError Page
      → (Option String → Result TrailError (List Denied))
      → Result TrailError (List Denied)
  read_page (err e) read = err (looking_up_events e)
  read_page (ok page) read = with_rest page (follow page.next_token read)

  -- The loop, by pages left
  unfoldable pub read_pages : ℕ → Option String → Result TrailError (List Denied)
  read_pages zero token = ok []
  read_pages (suc left) token = read_page (trail.lookup_events token) (read_pages left)

  abbrev pub max_pages : ℕ
  max_pages = 5

  -- `VerifyNoAccessDenied`
  unfoldable pub verify_no_access_denied : Result TrailError (Unit {0})
  unfolding read_pages
  verify_no_access_denied = read_pages max_pages none >>= report denied_events
