-- ===== src/Framework/Vpc/Tracking.antt =====
-- What EC2 is relied on for in pkg/framework/vpc_cleanup.go: what it acknowledges as deleted is gone,
-- and what is gone stays gone. The predicate `Gone` is a parameter.
use openshift_online_rosa_e.Base.{
  ℕ, String, ◌≡◌, true, Option, none, some, List, Result, ok, Option-cases, inl, inr,
}
use openshift_online_rosa_e.Base.Io.{pure}
use openshift_online_rosa_e.Base.Io.Laws.{Keeps, rewrap-state, rewrap-ok}
use openshift_online_rosa_e.Base.Text.{contains}
use openshift_online_rosa_e.Framework.Vpc.Types.{
  AwsError, Ec2Client, Session, LogLine, CleanupError, collect_pages, invalid_eni,
}
use openshift_online_rosa_e.Framework.Vpc.Calls.{call, logf, pause, paginate}

pub data Resource : Type 0 where
  eni : String → Resource
  group : Option String → Resource
  subnet : Option String → Resource

pub record Tracks {World Permission : Type 0} (client : Ec2Client World Permission)
    (Gone : Resource → World → Type 0) : Type 0 where
  pub eni_deleted :
      (id : String) (w : World)
      → (client.delete_network_interface id w).0 ≡ none
      → Gone (eni id) (client.delete_network_interface id w).1
  pub eni_unknown :
      (id : String) (w : World) (e : AwsError)
      → (client.delete_network_interface id w).0 ≡ some e
      → contains e invalid_eni ≡ true
      → Gone (eni id) (client.delete_network_interface id w).1
  pub group_deleted :
      (id : Option String) (w : World)
      → (client.delete_security_group id w).0 ≡ none
      → Gone (group id) (client.delete_security_group id w).1
  pub subnet_deleted :
      (id : Option String) (w : World)
      → (client.delete_subnet id w).0 ≡ none
      → Gone (subnet id) (client.delete_subnet id w).1
  pub stays_described :
      (r : Resource) (id : String) (w : World)
      → Gone r w
      → Gone r (client.describe_network_interface id w).1
  pub stays_detached :
      (r : Resource) (id : String) (w : World)
      → Gone r w
      → Gone r (client.detach_network_interface id w).1
  pub stays_eni :
      (r : Resource) (id : String) (w : World)
      → Gone r w
      → Gone r (client.delete_network_interface id w).1
  pub stays_ingress :
      (r : Resource) (id : Option String) (rules : List Permission) (w : World)
      → Gone r w
      → Gone r (client.revoke_security_group_ingress id rules w).1
  pub stays_egress :
      (r : Resource) (id : Option String) (rules : List Permission) (w : World)
      → Gone r w
      → Gone r (client.revoke_security_group_egress id rules w).1
  pub stays_group :
      (r : Resource) (id : Option String) (w : World)
      → Gone r w
      → Gone r (client.delete_security_group id w).1
  pub stays_subnet :
      (r : Resource) (id : Option String) (w : World)
      → Gone r w
      → Gone r (client.delete_subnet id w).1
  pub stays_asleep :
      (r : Resource) (duration : ℕ) (w : World) → Gone r w → Gone r (client.sleep duration w).1

module _ {World : Type 0} (P : World → Type 0) where
  -- A predicate of the world, as one of the session
  abbrev pub Holds : Session World → Type 0
  Holds s = P s.world

  pub Keeps-call :
      {A : Type 0} (f : World → A × World)
      → ((w : World) → P w → P (f w).1)
      → Keeps {E = CleanupError} Holds (call f)
  Keeps-call f h = record { at = λ s. h s.world }

  pub Keeps-logf : (line : LogLine) → Keeps {E = CleanupError} Holds (logf line)
  Keeps-logf line = record { at = λ s h. h }

  pub Keeps-pure : {A : Type 0} (a : A) → Keeps {E = CleanupError} Holds (pure a)
  Keeps-pure a = record { at = λ s h. h }

  -- A pause ends in one of two ways, and its world is the sleep's in both.
  pub Keeps-pause :
      {Permission : Type 0} (client : Ec2Client World Permission) (duration : ℕ)
      → ((w : World) → P w → P (client.sleep duration w).1)
      → Keeps Holds (pause client duration)
  Keeps-pause client duration h = record {
    at = λ s p. elim (Option-cases (client.sleep duration s.world).0) [
      | inl fired ↦ rw fired (h s.world p)
      | inr (e, done) ↦ rw done (h s.world p)
    ];
  }

module _ {World A : Type 0} (pages : World → List (Result AwsError (List A)))
    (failure : AwsError → CleanupError) where
  -- Listing leaves the session alone.
  pub paginate-session : (s : Session World) → (paginate pages failure s).1 ≡ s
  paginate-session s = rewrap-state failure (collect_pages (pages s.world), s)

  pub paginate-ok :
      (s : Session World) {xs : List A}
      → (paginate pages failure s).0 ≡ ok xs
      → collect_pages (pages s.world) ≡ ok xs
  paginate-ok s = rewrap-ok failure (collect_pages (pages s.world), s)

  pub Keeps-paginate : (P : World → Type 0) → Keeps (Holds P) (paginate pages failure)
  Keeps-paginate P = record { at = λ s h. rw (paginate-session s) h }
