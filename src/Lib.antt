-- ===== src/Lib.antt =====
-- rosa-e2e: the end-to-end test suite for ROSA HCP, ROSA Classic and OSD clusters.
--
-- The suite loads a configuration (pkg/config), opens a connection to OCM and builds clients for the
-- hosted, the management and the service cluster (pkg/framework), runs health checks against them
-- (pkg/verifiers), cleans up the VPC of a cluster that is gone (pkg/framework/vpc_cleanup.go), and
-- turns the report of the run into three signals that it writes as JUnit (test/e2e/sippy_signals.go
-- and pkg/reporting). Config is read by Framework.Ocm and Framework.Context, the namespaces of
-- Framework.Hcp are resolved by Framework.Context, the verifiers share Unstructured and
-- Verifiers.Conditions, and Reporting.Signals fills the record that Reporting.Sippy prints.
--
-- Files and code. Functions and types keep the source's names, in snake case.
--   Base             tests on numbers, lists, Result (a value with an error), loops that report what is
--                    wrong (Base/Reports), Go's maps and the ranges over them (Base/Maps), Go's strings
--                    (Base/Text) and url.QueryEscape (Base/Query), calls that change a state and may
--                    fail (Base/Io)
--   Config           pkg/config/config.go: Load, OCMBaseURL, and strconv.Atoi on 64 bits
--   Framework/Vpc    pkg/framework/vpc_cleanup.go, all of it: Enis, Groups and Subnets are the phases,
--                    Cleanup is CleanupVPCResources, Types and Calls hold the state and the client
--   Framework/Ocm    pkg/framework/ocm.go: the builder of a connection, topologies, versions, shards and
--                    the wait for a cluster; Creation has the requests that create clusters, the
--                    deletion, the credentials and the state
--   Framework/Hcp    pkg/framework/hcp.go
--   Framework/Context  pkg/framework/context.go: the topology, the clients of the three clusters, the
--                    RHOBS settings; Aws has the AWS clients, Cluster what is asked of OCM
--   Framework/Upgrade  pkg/framework/upgrade.go
--   Framework/Fixtures  pkg/framework/namespace.go, workload.go and storage.go
--   Framework/Suite  test/e2e/setup.go
--   Reporting        pkg/reporting/sippy.go (Sippy) and test/e2e/sippy_signals.go (Signals, Hook)
--   Unstructured     decoded JSON, with getConditions of pkg/verifiers/clusteroperators.go, and
--                    getNestedField and getNestedValue of service_cluster.go
--   Verifiers        pkg/verifiers: Nodes (nodes.go), Deployments (management_cluster.go, workload.go,
--                    hcp_namespace.go, the audit webhook of managed_operators.go), ClusterOperators,
--                    HostedCluster, ManagedOperators, ServiceCluster, Storage (storage.go, cluster.go,
--                    classic.go), OcmRole (ocm_role.go), Oauth (oauth_readiness.go), CloudTrail
--                    (cloudtrail.go), Tags (tags.go), Revision (revision.go), ExternalAuth
--                    (external_auth.go), Rhobs (rhobs.go: Token, Probes, Metrics, Cardinality), Run
--                    (verifier.go)
-- Beside a file, a folder of its name holds its parts and what is proved of them; the files whose
-- names end in Tests and Framework/Vpc/Simulated hold runs at concrete data.
--
-- How the code is read. A Go error is a constructor with the values that its text shows; texts of
-- errors and of log lines are not rendered. A call of Kubernetes, of OCM, of AWS or of the clock is
-- a field of a record that the definitions take (Ec2Client, OauthCluster, Trail, Services,
-- Accounts, Fleet, Deployments, Clusters, UpgradeApi, KubeApi, AuthWorld, RhobsWorld, Observed), or
-- its answer is an argument; where such a call is made more than once and changes something it
-- passes a world on. The documented behaviour that a theorem needs of such calls is a hypothesis of
-- it: the Tracks, IsClock, IsPolling and Counted records. unstructured.NestedSlice, arn.Parse,
-- yaml.Unmarshal and the client constructors are parameters too, as are the decoding of JSON into
-- structs and the floating-point numbers of the cardinality check (Floats). A range over a map
-- visits its entries in an order that is a parameter: the theorems take any order of the same
-- entries. Go's strings are native texts of code points. The goroutines of RunVerifiers are a step
-- relation: any that runs may finish next, unless its send would block on the buffer of the channel,
-- whose capacity is part of the state.
--
-- Fuel. The polling loops of vpc_cleanup.go and oauth_readiness.go run on rounds: the timeout
-- divided by the poll interval, plus two. A round that goes on has waited a poll interval, so these
-- outlast the deadline, and the theorems on out_of_fuel say that it is never the result. The loop
-- of WaitForClusterReady is read over the list of the events that its select receives; its ticker
-- and the default for a timeout of zero stand outside. All other loops are structural.
-- getOIDCAccessToken recurses over the list of its delays, WaitForUpgradeComplete reads a list of
-- events as WaitForClusterReady does.
--
-- Not modelled: ci_status_jobs.go, which is records for YAML without operations; kube.go, the call of one
-- constructor; pkg/labels, constants; the getters of context.go, which are the fields of its record; the
-- encoding of the JUnit document; and the specs of test/e2e, which call these packages under the test
-- runner.
pub mod Base
pub mod Config
pub mod Framework
pub mod Reporting
pub mod Unstructured
pub mod Verifiers
