-- ===== src/Lib.antt =====
-- Verification of CKE, the Cybozu Kubernetes Engine.
--
-- The server of CKE runs a loop: it reads the state of a cluster (status.go, op/status.go), decides
-- which operations to run next (server/strategy.go, server/node_filter.go), and runs them. Two
-- queues in etcd, of nodes to reboot (reboot.go) and of machines to repair (repair.go), feed the
-- decisions. This development models the decisions, with all that they read, as functions, and what
-- the operations on the two queues store, with the methods of the storage (storage.go) over etcd
-- and the records of operations (record.go).
--
-- The parts:
--   Prelude                names of the libraries, Booleans and numbers, and the lemmas on lists
--   Cluster                cluster.go and constraints.go: the configuration
--   Cluster.Validate       Validate of cluster.go with all it calls, Whole being Validate itself, and
--                          LookupTrustedRESTMapping of resource.go
--   Params                 ServiceParams of cluster.go, with the comparisons of collections.go
--   Reboot, Reboot.Decide  reboot.go, op/reboot_decide.go and GetRebootQueueStatus of op/status.go:
--                          the reboot queue, and which of its entries may proceed
--   Reboot.BackOff         drainBackOff of op/reboot.go on the stored queue
--   Reboot.Commands        the other commands of op/reboot.go but for the uncordoning: what they store
--   Repair, Repair.Ops     repair.go and repairOps of server/strategy.go: the repair queue, and the
--                          state machine of its entries as it is decided in a round
--   Repair.Lifecycle       the moves of an entry of the repair queue, as a relation, and their courses
--   Repair.Commands        op/repair_dequeue.go, op/repair_drain_start.go, op/repair_drain_timeout.go,
--                          op/repair_execute.go and op/repair_finish.go: what the commands store
--   Etcd                   the client of etcd: the interface, its laws, and a store in memory that has them
--   Storage                storage.go: Numbers and Keys for the texts of numbers and keys, Queue for the
--                          two queues, Values for the single values, Records for the records,
--                          Resources for the user resources, with SortResources of resource.go
--   Record                 record.go: the records of operations
--   Server                 status.go, NodeFilter and the filters by reachability
--   Server.Etcd            the etcd filters and etcdMaintOp
--   Server.Services        the filters by the state of a service of a node
--   Server.Components      riversOps, apiserverOps and k8sOps
--   Server.EndpointOps     decideEpEpsOps and what it calls, masterEndpointOps and etcdEndpointOps
--   Server.NodeAttrs       labels, annotations and taints of the Kubernetes nodes
--   Server.Maintenance     k8sMaintOps, the DNS and resource decisions, cleanOps, rebootUncordonOp
--   Server.RebootOps       rebootOps
--   Server.Operations      the operations and phases (phase.go)
--   Server.Decide          DecideOps
--   Server.Control         runOp and checkLastOp of server/control.go: the records of a run
--   Sabakan, .Repairer     sabakan/repairer.go, with the machines of sabakan/query.go: the repairs that
--                          the states of the machines ask for
-- A file below one of these holds the proofs that its name tells, or, as Samples, test data, runs
-- and the theorems at these runs.
--
-- The conventions. A function keeps its name, in lower case with underscores. A method of
-- NodeFilter takes the cluster and its status; nodeStatus reads the status of a node by its
-- address, and there is one for every node, as server/get_status.go sees to. A map is an
-- association list in the order in which Go ranges over it, or a function where it is only read. A
-- pointer that may be nil is an Option, as is the result of a function that may fail. An operation
-- is the list of what it is about: the nodes, the entries or the objects; the configuration and the
-- API server that most constructors also take are left out. Numbers are natural numbers: the
-- validation refuses negative ones among the settings of reboots and repairs, those of a repair
-- operation and its steps are taken not to be negative, and where an integer may overflow, in the
-- back-off of a drain, the 64 bits are written out. A time is a number of nanoseconds, and the
-- current time an argument, one where the code reads the clock several times in a round. A count of
-- failed drains is a natural number also where the code has an int; the arithmetic on it has the 64
-- bits.
--
-- The storage. A method of Storage is a call on a world: the store, and a script of what happens at
-- each of its calls of etcd, the transactions that other clients commit before it and whether the
-- call fails before or after its effect. The loops of storage.go that try a transaction again after
-- a lost race run on fuel, as do no others; a round that is lost has used up an event of the
-- script, and it is proved that fuel beyond the events of the script is enough. The index of an
-- entry is below half of the 64 bits where FormatInt or the sixteen digits of a key show it, and
-- the models of both write out the other half. A queue is well-formed where its write index can be
-- read, no entry stands at it or after it, and all keys under its prefix are those of entries; what
-- is said of registrations and updates among other clients is about clients that keep to the
-- transactions of CKE, and a client that writes other keys under the prefix, or another write
-- index, is outside of it.
--
-- The parameters. What the packages op/etcd and op/k8s generate for a node (arguments, mounts,
-- configurations), the names of container images, the texts of the DNS configurations, whether two
-- third-party configurations are equal, whether the Pods of a node are gone, whether volumes are in
-- use, whether a node has rebooted, and what the storage, the Kubernetes API and the programs
-- answer to a repair or reboot command, what the validations of the libraries accept, whether a
-- command fails, the client of etcd with its store, and the JSON texts of entries, records and
-- values, are arguments of the functions that use them, and the theorems hold for all of them, but
-- for two that have named hypotheses: the client of etcd keeps the laws of Etcd.Laws, and in the
-- theorems on what is written and read back a text that JSON makes of a value is read as that
-- value.
--
-- Not modelled: the other operations as commands over SSH, Docker and the Kubernetes API (op/,
-- agent.go, container.go), the watches of storage.go, the rounds and the election in
-- server/control.go, the generation of a cluster from sabakan (sabakan/generator.go), and the
-- commands, proxies and metrics beside the server (pkg/, localproxy/, tools/rivers/, metrics/).
mod Prelude
pub mod Cluster
pub mod Etcd
pub mod Params
mod Samples
pub mod Server
pub mod Reboot
pub mod Record
pub mod Repair
pub mod Sabakan
pub mod Storage
