-- ===== src/Framework/Vpc/Types.antt =====
-- pkg/framework/vpc_cleanup.go: its data. Amazon's client is a parameter; its
-- state is `World`, and an error of its own is the text that `err.Error()` gives.
use openshift_online_rosa_e.Base.{
  ℕ, ◌*◌, String, Option, none, some, List, [], ◌∷◌, ◌++◌, Result, ok, err,
}

abbrev pub AwsError : Type 0
AwsError = String

-- `types.NetworkInterface`, with the attachment's identifier where an attachment has one
pub record NetworkInterface : Type 0 where
  pub network_interface_id : Option String
  pub attachment : Option (Option String)
  pub status : String

pub record SecurityGroup (Permission : Type 0) : Type 0 where
  pub group_id : Option String
  pub group_name : Option String
  pub ip_permissions : List Permission
  pub ip_permissions_egress : List Permission

pub record Subnet : Type 0 where
  pub subnet_id : Option String

-- `EC2VPCClient`. A paginator is the list of the answers of its `NextPage`: `HasMorePages` holds while
-- one is left. `now` is `time.Now()` in nanoseconds. `sleep` waits on `time.After` and on the context:
-- it gives `none` when the timer fires, and `ctx.Err()` when the context is done.
pub record Ec2Client (World Permission : Type 0) : Type 0 where
  pub network_interface_pages : String → World → List (Result AwsError (List NetworkInterface))
  pub describe_network_interface : String → World → Result AwsError (List NetworkInterface) × World
  pub detach_network_interface : String → World → Option AwsError × World
  pub delete_network_interface : String → World → Option AwsError × World
  pub security_group_pages :
      String → World → List (Result AwsError (List (SecurityGroup Permission)))
  pub revoke_security_group_ingress :
      Option String → List Permission → World → Option AwsError × World
  pub revoke_security_group_egress :
      Option String → List Permission → World → Option AwsError × World
  pub delete_security_group : Option String → World → Option AwsError × World
  pub subnet_pages : String → World → List (Result AwsError (List Subnet))
  pub delete_subnet : Option String → World → Option AwsError × World
  pub now : World → ℕ
  pub sleep : ℕ → World → Option AwsError × World

-- The package's variables, which its tests override.
pub record Timing : Type 0 where
  pub eni_detach_timeout : ℕ
  pub eni_detach_poll_interval : ℕ
  pub eni_delete_max_retries : ℕ
  pub eni_delete_retry_delay : ℕ

abbrev pub second : ℕ
second = 1_000_000_000

abbrev pub default_timing : Timing
default_timing = record {
  eni_detach_timeout = 120 * second;
  eni_detach_poll_interval = 5 * second;
  eni_delete_max_retries = 5;
  eni_delete_retry_delay = 3 * second;
}

-- A line of `revokeErrors` or of `deleteErrors`
pub data Issue : Type 0 where
  ingress_issue : String → AwsError → Issue
  egress_issue : String → AwsError → Issue
  group_issue : String → String → AwsError → Issue
  subnet_issue : String → AwsError → Issue

-- One constructor for each error that the file makes. `out_of_fuel` is the model's own, for a
-- polling loop that has no rounds left.
pub data CleanupError : Type 0 where
  cleaning_enis cleaning_security_groups cleaning_subnets : String → CleanupError → CleanupError
  describing_network_interfaces describing_security_groups describing_subnets :
      AwsError → CleanupError
  detaching_eni : String → String → AwsError → CleanupError
  waiting_for_eni deleting_eni : String → CleanupError → CleanupError
  timed_out : ℕ → String → CleanupError
  describing_eni : String → AwsError → CleanupError
  context_done : AwsError → CleanupError
  after_attempts : ℕ → Option AwsError → CleanupError
  security_group_issues : ℕ → List Issue → CleanupError
  subnet_issues : ℕ → List Issue → CleanupError
  out_of_fuel : CleanupError

-- The lines that `logf` writes
pub data LogLine : Type 0 where
  found_enis found_security_groups found_subnets : ℕ → String → LogLine
  detaching : String → String → LogLine
  eni_already_gone eni_deleted : String → LogLine
  security_group_deleted : String → String → LogLine
  subnet_deleted : String → LogLine
  cleanup_complete : String → LogLine

pub record Session (World : Type 0) : Type 0 where
  pub world : World
  pub log : List LogLine

-- `aws.ToString`
abbrev pub to_string : Option String → String
to_string none = ""
to_string (some s) = s

abbrev pub invalid_eni : String
invalid_eni = "InvalidNetworkInterfaceID"

-- `append` over the pages of a paginator, up to the first page that fails
unfoldable pub collect_pages {ℓ} :
    {A : Type ℓ} → List (Result AwsError (List A)) → Result AwsError (List A)
collect_pages [] = ok []
collect_pages (err e ∷ pages) = err e
collect_pages (ok page ∷ pages) = elim (collect_pages pages) [
  | ok rest ↦ ok (page ++ rest)
  | err e ↦ err e
]
