-- ===== src/Verifiers/CloudTrail/Pages.antt =====
-- pkg/verifiers/cloudtrail.go: along which pages the events decide.
use openshift_online_rosa_e.Base.{
  ℕ, zero, suc, String, ◌≡◌, refl, sym, ap, subst, ◌↔◌, List, [], Result, ok, err, ◌>>=◌, Option,
  none, some, collect, report, report_iff, collect-eq-nil, All, append-eq-nil_iff,
}
use openshift_online_rosa_e.Verifiers.Conditions.{ApiError}
use openshift_online_rosa_e.Verifiers.CloudTrail.{
  Page, Denied, TrailError, denied_events, Trail, denial, with_rest, follow, read_page, read_pages,
  verify_no_access_denied,
}
use openshift_online_rosa_e.Verifiers.CloudTrail.Denials.{IsDenied, denial-none_iff}

-- No event of the page is one to report.
abbrev pub IsClean : Trail → String → Page → Type 0
IsClean trail filter_string page = All (λ event. IsDenied trail filter_string event → ⊥) page.events

-- What is asked of the next token, where there is one
abbrev pub Next : (Option String → Type 0) → Option String → Type 0
Next P none = Unit
Next P (some token) = P (some token)

-- From a token on, with that many pages allowed, each lookup succeeds and gives a clean page, up to the
-- page without a token for a next one, or the last page allowed.
abbrev pub CleanFrom : Trail → String → ℕ → Option String → Type 0
CleanFrom trail filter_string zero token = Unit
CleanFrom trail filter_string (suc left) token =
    (page : Page) × (trail.lookup_events token ≡ ok page)
    × IsClean trail filter_string page
    × Next (CleanFrom trail filter_string left) page.next_token

module _ (trail : Trail) (filter_string : String) where
  with_rest-eq-nil :
      (page : Page) (rest : Result TrailError (List Denied))
      → (with_rest trail filter_string page rest ≡ ok [])
        ↔ (IsClean trail filter_string page × (rest ≡ ok []))
  with_rest-eq-nil page (err e) = (λ h. cc, λ h. absurd (failed h.1))
    where
      failed : {e : TrailError} → Path (Result TrailError (List Denied)) (err e) (ok []) → ⊥
      failed h = cc
  with_rest-eq-nil page (ok rest) =
      let found = collect-eq-nil (denial-none_iff trail filter_string) page.events in
      (
        λ h.
            let both =
              (append-eq-nil_iff (collect (denial trail filter_string) page.events) rest).0
                (inner h) in
            (found.0 both.0, ap ok both.1),
        λ h. ap ok (
            (append-eq-nil_iff (collect (denial trail filter_string) page.events) rest).1
              (found.1 h.0, inner h.1)),
      )
    where
      inner :
          {xs ys : List Denied} → Path (Result TrailError (List Denied)) (ok xs) (ok ys) → xs ≡ ys
      inner h = cc

  follow_iff :
      {P : Option String → Type 0} (next : Option String)
      (read : Option String → Result TrailError (List Denied))
      → ((t : Option String) → (read t ≡ ok []) ↔ P t)
      → (follow trail filter_string next read ≡ ok []) ↔ Next P next
  follow_iff none read decides = (λ h. tt, λ h. refl)
  follow_iff (some token) read decides = decides (some token)

  read_pages_iff :
      (left : ℕ) (token : Option String)
      → (read_pages trail filter_string left token ≡ ok [])
        ↔ CleanFrom trail filter_string left token
  unfolding read_pages
  read_pages_iff zero token = (λ h. tt, λ h. refl)
  read_pages_iff (suc left) token = by_answer (trail.lookup_events token) (read_pages_iff left)
    where
      by_answer :
          (answer : Result ApiError Page)
          → ((t : Option String)
              → (read_pages trail filter_string left t ≡ ok [])
                ↔ CleanFrom trail filter_string left t)
          → (read_page trail filter_string answer (read_pages trail filter_string left) ≡ ok []) ↔ (
              (page : Page) × (answer ≡ ok page)
              × IsClean trail filter_string page
              × Next (CleanFrom trail filter_string left) page.next_token)
      by_answer (err e) rest = (λ h. cc, λ h. absurd (failed h.1))
        where
          failed : {page : Page} → Path (Result ApiError Page) (err e) (ok page) → ⊥
          failed h = cc
      by_answer (ok page) rest =
          let clean =
            with_rest-eq-nil page
              (follow trail filter_string page.next_token (read_pages trail filter_string left)) in
          let next = follow_iff page.next_token (read_pages trail filter_string left) rest in
          (
            λ h. let k = clean.0 h in (page, refl, k.0, next.0 k.1),
            λ h.
                let same = inner h.1 in
                clean.1 (
                  subst (IsClean trail filter_string) (sym same) h.2,
                  next.1 (
                      subst (λ p. Next (CleanFrom trail filter_string left) p.next_token) (sym same)
                        h.3),
                ),
          )
        where
          inner : {p q : Page} → Path (Result ApiError Page) (ok p) (ok q) → p ≡ q
          inner h = cc

  -- VerifyNoAccessDenied passes exactly when, along the tokens from the first page on, each lookup
  -- succeeds and gives a page without a denial, for five pages at most: the pages behind the fifth decide
  -- nothing. A denial is an event with all three fields whose JSON contains the filter, where there is one,
  -- and is decoded, whose error's code or message contains AccessDenied or UnauthorizedAccess, and which
  -- is no DeleteListener by a caller whose ARN contains Installer-Role.
  pub verify_no_access_denied_iff :
      (verify_no_access_denied trail filter_string ≡ ok tt) ↔ CleanFrom trail filter_string 5 none
  unfolding verify_no_access_denied
  verify_no_access_denied_iff =
      by_pages (read_pages trail filter_string 5 none) (read_pages_iff 5 none)
    where
      by_pages :
          {C : Type 0} (found : Result TrailError (List Denied))
          → (found ≡ ok []) ↔ C
          → ((found >>= report denied_events) ≡ ok tt) ↔ C
      by_pages (err e) rest = (λ h. cc, λ h. absurd (failed (rest.1 h)))
        where
          failed : Path (Result TrailError (List Denied)) (err e) (ok []) → ⊥
          failed h = cc
      by_pages (ok found) rest = (
        λ h. rest.0 (ap ok ((report_iff denied_events found).0 h)),
        λ h. (report_iff denied_events found).1 (inner (rest.1 h)),
      )
        where
          inner :
              {xs ys : List Denied}
              → Path (Result TrailError (List Denied)) (ok xs) (ok ys)
              → xs ≡ ys
          inner h = cc
