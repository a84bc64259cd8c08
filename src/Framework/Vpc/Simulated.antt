-- ===== src/Framework/Vpc/Simulated.antt =====
-- A simulated EC2 for pkg/framework/vpc_cleanup.go, runs over it, and the theorems at its data.
use openshift_online_rosa_e.Base.{
  ℕ, ◌+◌, ◌≤◌, String, ◌≡◌, refl, ◌≢◌, Bool, true, false, not, Option, none, some, List, [], ◌∷◌,
  arith, ◌==◌, if◌then◌else◌, ok, err, select, any,
}
use openshift_online_rosa_e.Base.Io.{each, gather}
use openshift_online_rosa_e.Base.Text.{contains}
use openshift_online_rosa_e.Framework.Vpc.Types.{
  AwsError, NetworkInterface, SecurityGroup, Subnet, Ec2Client, default_timing, Session, to_string,
  collect_pages, out_of_fuel, cleaning_enis, describing_network_interfaces,
}
use openshift_online_rosa_e.Framework.Vpc.Tracking.{Resource, Tracks}
use openshift_online_rosa_e.Framework.Vpc.Enis.{
  wait_for_eni_available, delete_eni_with_retry, poll_round, poll_eni, delete_attempt,
  delete_eni_attempts, detach_eni, cleanup_eni, cleanup_found_enis, cleanup_enis,
}
use openshift_online_rosa_e.Framework.Vpc.Enis.Polling.{
  IsClock, wait_for_eni_available-ne-out_of_fuel, SeenDetached, wait_for_eni_available-SeenDetached,
}
use openshift_online_rosa_e.Framework.Vpc.Enis.Retry.{
  Reports, SeenDeleted, count-delete_eni_with_retry, delete_eni_with_retry-SeenDeleted,
  delete_eni_with_retry-Reports,
}
use openshift_online_rosa_e.Framework.Vpc.Groups.{
  revoke_rules, delete_group, report_groups, cleanup_found_groups, cleanup_security_groups,
}
use openshift_online_rosa_e.Framework.Vpc.Subnets.{
  delete_subnet, report_subnets, cleanup_found_subnets, cleanup_subnets,
}
use openshift_online_rosa_e.Framework.Vpc.Subnets.Attempts.{count-cleanup_subnets}
use openshift_online_rosa_e.Framework.Vpc.Cleanup.{cleanup_vpc_resources}
use openshift_online_rosa_e.Framework.Vpc.Cleanup.Gone.{
  Cleaned, FailedPhase, cleanup_vpc_resources-FailedPhase, cleanup_vpc_resources-Cleaned,
}

record Cloud : Type 0 where
  enis : List NetworkInterface
  groups : List (SecurityGroup ℕ)
  subnets : List Subnet
  clock : ℕ
  deletions : ℕ

abbrev is_eni : String → NetworkInterface → Bool
is_eni id eni = to_string eni.network_interface_id == id

abbrev is_group : Option String → SecurityGroup ℕ → Bool
is_group id group = to_string group.group_id == to_string id

abbrev is_subnet : Option String → Subnet → Bool
is_subnet id subnet = to_string subnet.subnet_id == to_string id

abbrev unknown_eni : AwsError
unknown_eni = "InvalidNetworkInterfaceID.NotFound"

abbrev simulated : Ec2Client Cloud ℕ
simulated = record {
  network_interface_pages = λ _ w. ok w.enis ∷ [];
  describe_network_interface = λ id w. (ok (select (is_eni id) w.enis), w);
  detach_network_interface = λ _ w. (none, w);
  delete_network_interface = λ id w. (
    if any (is_eni id) w.enis then none else some unknown_eni,
    record w { enis = select (λ e. not (is_eni id e)) w.enis; deletions = w.deletions + 1 },
  );
  security_group_pages = λ _ w. ok w.groups ∷ [];
  revoke_security_group_ingress = λ _ _ w. (none, w);
  revoke_security_group_egress = λ _ _ w. (none, w);
  delete_security_group =
      λ id w. (none, record w { groups = select (λ g. not (is_group id g)) w.groups });
  subnet_pages = λ _ w. ok w.subnets ∷ [];
  delete_subnet =
      λ id w. (none, record w { subnets = select (λ n. not (is_subnet id n)) w.subnets });
  now = λ w. w.clock;
  sleep = λ duration w. (none, record w { clock = w.clock + duration });
}

-- EC2 cannot be reached.
abbrev unreachable : Ec2Client Cloud ℕ
unreachable = record simulated { network_interface_pages = λ _ _. err "no route" ∷ [] }

-- Every deletion is throttled.
abbrev throttled : Ec2Client Cloud ℕ
throttled = record simulated {
  delete_network_interface = λ _ w. (some "Throttling", record w { deletions = w.deletions + 1 });
}

-- Groups and subnets are in use, and every deletion of one is counted.
abbrev blocked : Ec2Client Cloud ℕ
blocked = record simulated {
  delete_security_group =
      λ _ w. (some "DependencyViolation", record w { deletions = w.deletions + 1 });
  delete_subnet = λ _ w. (some "DependencyViolation", record w { deletions = w.deletions + 1 });
}

abbrev Absent : Resource → Cloud → Type 0
Absent (Resource.eni id) w = any (is_eni id) w.enis ≡ false
Absent (Resource.group id) w = any (is_group id) w.groups ≡ false
Absent (Resource.subnet id) w = any (is_subnet id) w.subnets ≡ false

any-select-not :
    {A : Type 0} (p : A → Bool) (xs : List A) → any p (select (λ x. not (p x)) xs) ≡ false
any-select-not p [] = refl
any-select-not p (x ∷ xs) = ground (arith, any-select-not p xs)

any-select :
    {A : Type 0} (p q : A → Bool) (xs : List A) → any p xs ≡ false → any p (select q xs) ≡ false
any-select p q [] h = refl
any-select p q (x ∷ xs) h = ground (arith, any-select p q xs)

stays_eni :
    (r : Resource) (id : String) (w : Cloud)
    → Absent r w
    → Absent r (simulated.delete_network_interface id w).1
stays_eni (Resource.eni i) id w h = any-select (is_eni i) _ w.enis h
stays_eni (Resource.group i) id w h = h
stays_eni (Resource.subnet i) id w h = h

stays_group :
    (r : Resource) (id : Option String) (w : Cloud)
    → Absent r w
    → Absent r (simulated.delete_security_group id w).1
stays_group (Resource.eni i) id w h = h
stays_group (Resource.group i) id w h = any-select (is_group i) _ w.groups h
stays_group (Resource.subnet i) id w h = h

stays_subnet :
    (r : Resource) (id : Option String) (w : Cloud)
    → Absent r w
    → Absent r (simulated.delete_subnet id w).1
stays_subnet (Resource.eni i) id w h = h
stays_subnet (Resource.group i) id w h = h
stays_subnet (Resource.subnet i) id w h = any-select (is_subnet i) _ w.subnets h

stays_asleep :
    (r : Resource) (duration : ℕ) (w : Cloud) → Absent r w → Absent r (simulated.sleep duration w).1
stays_asleep (Resource.eni i) duration w h = h
stays_asleep (Resource.group i) duration w h = h
stays_asleep (Resource.subnet i) duration w h = h

simulated-Tracks : Tracks simulated Absent
simulated-Tracks = record {
  eni_deleted = λ id w _. any-select-not (is_eni id) w.enis;
  eni_unknown = λ id w _ _ _. any-select-not (is_eni id) w.enis;
  group_deleted = λ id w _. any-select-not (is_group id) w.groups;
  subnet_deleted = λ id w _. any-select-not (is_subnet id) w.subnets;
  stays_described = λ r id w h. h;
  stays_detached = λ r id w h. h;
  stays_eni = stays_eni;
  stays_ingress = λ r id rules w h. h;
  stays_egress = λ r id rules w h. h;
  stays_group = stays_group;
  stays_subnet = stays_subnet;
  stays_asleep = stays_asleep;
}

simulated-IsClock : IsClock simulated
simulated-IsClock = record {
  describe_later = λ id w. omega arith;
  sleep_longer = λ duration w _. omega arith;
}

abbrev full : Session Cloud
full = record {
  world = record {
    enis =
        record {
          network_interface_id = some "eni-1";
          attachment = some (some "attach-1");
          status = "available";
        }
        ∷ record { network_interface_id = some "eni-2"; attachment = none; status = "in-use" }
        ∷ [];
    groups =
        record {
          group_id = some "sg-1";
          group_name = some "default";
          ip_permissions = [];
          ip_permissions_egress = 1 ∷ [];
        }
        ∷ record {
          group_id = some "sg-2";
          group_name = some "web";
          ip_permissions = 1 ∷ [];
          ip_permissions_egress = 2 ∷ [];
        }
        ∷ [];
    subnets = record { subnet_id = some "subnet-1" } ∷ [];
    clock = 0;
    deletions = 0;
  };
  log = [];
}

full_succeeds : (cleanup_vpc_resources simulated default_timing "vpc-1" full).0 ≡ ok tt
unfolding cleanup_vpc_resources cleanup_enis cleanup_found_enis cleanup_eni detach_eni
    wait_for_eni_available poll_eni poll_round delete_eni_with_retry delete_eni_attempts
    delete_attempt cleanup_security_groups cleanup_found_groups revoke_rules delete_group
    report_groups cleanup_subnets cleanup_found_subnets delete_subnet report_subnets each gather
    collect_pages contains
full_succeeds = refl

cleanup_vpc_resources-Cleaned_example :
    Cleaned simulated Absent "vpc-1" full.world
      (cleanup_vpc_resources simulated default_timing "vpc-1" full).1.world
cleanup_vpc_resources-Cleaned_example =
    cleanup_vpc_resources-Cleaned simulated default_timing simulated-Tracks "vpc-1" full
      full_succeeds

cleanup_vpc_resources-FailedPhase_example :
    FailedPhase unreachable default_timing "vpc-1" full
      (cleaning_enis "vpc-1" (describing_network_interfaces "no route"))
      (cleanup_vpc_resources unreachable default_timing "vpc-1" full).1
unfolding cleanup_vpc_resources cleanup_enis collect_pages
cleanup_vpc_resources-FailedPhase_example =
    cleanup_vpc_resources-FailedPhase unreachable default_timing "vpc-1" full
      (cleaning_enis "vpc-1" (describing_network_interfaces "no route")) refl

wait_for_eni_available-ne-out_of_fuel_example :
    (wait_for_eni_available simulated default_timing "eni-2" full).0 ≢ err out_of_fuel
wait_for_eni_available-ne-out_of_fuel_example =
    wait_for_eni_available-ne-out_of_fuel simulated default_timing simulated-IsClock (omega arith)
      "eni-2" full

wait_for_eni_available-SeenDetached_example :
    SeenDetached simulated "eni-1"
      (wait_for_eni_available simulated default_timing "eni-1" full).1.world
unfolding wait_for_eni_available poll_eni poll_round
wait_for_eni_available-SeenDetached_example =
    wait_for_eni_available-SeenDetached simulated default_timing "eni-1" full refl

delete_eni_with_retry-SeenDeleted_example :
    SeenDeleted simulated "eni-9" true
      (delete_eni_with_retry simulated default_timing "eni-9" full).1.world
unfolding delete_eni_with_retry delete_eni_attempts delete_attempt contains
delete_eni_with_retry-SeenDeleted_example =
    delete_eni_with_retry-SeenDeleted simulated default_timing "eni-9" full true refl

delete_eni_with_retry-Reports_example :
    Reports throttled default_timing (delete_eni_with_retry throttled default_timing "eni-1" full).0
delete_eni_with_retry-Reports_example =
    delete_eni_with_retry-Reports throttled default_timing "eni-1" full (omega arith)

count-delete_eni_with_retry_example :
    (delete_eni_with_retry simulated default_timing "eni-1" full).1.world.deletions ≤ 5
count-delete_eni_with_retry_example =
    count-delete_eni_with_retry simulated default_timing (λ (w : Cloud). w.deletions)
      (λ id w. omega arith) (λ w. omega arith) "eni-1" full

count-cleanup_subnets_example : (cleanup_subnets blocked "vpc-1" full).1.world.deletions ≡ 1
unfolding collect_pages
count-cleanup_subnets_example =
    count-cleanup_subnets blocked (λ (w : Cloud). w.deletions) (λ id w. refl) "vpc-1" full refl
