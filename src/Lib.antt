-- ===== src/Lib.antt =====
-- NebulaGC: the control plane that distributes Nebula configuration to nodes, its client library and
-- the daemon on a node. This library models the parts that keep state and decide, and proves what
-- makes them correct.
--
-- The parts. The server (server/internal) keeps tenants' clusters, nodes and bundles in SQLite. A
-- request passes the gates (api/middleware), reaches a handler (api/handlers) and a service
-- (service), which sends SQL statements. Several instances share the table of replicas: each sends
-- heartbeats, and the oldest healthy one is the master, the only one to accept writes (ha,
-- service/replica.go). The client library (sdk) tries the instances in turn. The daemon
-- (cmd/nebulagc/daemon) polls the version of its cluster, downloads bundles, supervises the Nebula
-- process and watches the health of the control plane. An instance of the server runs lighthouses for
-- the clusters that ask for it.
--
-- The files.
--   Prelude, Prelude/*    shared names, tests on numbers, lists
--   Errors, Exec, Exec/*  errors as values (models/errors.go); methods over a database, and what
--                         holds after one
--   Sql, Sql/*            the statements as functions on rows, and their laws
--   Golib, Archive        the libraries that the code calls, as records of parameters
--   Store                 the tables of server/migrations
--   Token                 pkg/token/generator.go
--   Registry, Registry/*  service/replica.go: Register, SendHeartbeat, GetMaster, ListReplicas,
--                         PruneStale, Unregister, ValidateSingleMaster
--   Ha, Ha/Manager        ha/mode.go, types.go and manager.go, over the interface ReplicaRegistry,
--                         which Registry/Service fills
--   Node, Node/*          service/node.go: CreateNode, ListNodes, UpdateMTU, RotateNodeToken,
--                         DeleteNode
--   Topology, Topology/*  service/topology.go: routes, lighthouses, relays, the cluster token
--   Bundle/Validate       pkg/bundle/validator.go and types.go
--   Bundle/Service        service/bundle.go
--   Bundle/Handler        api/handlers/bundle.go; Http is mapErrorToResponse of common.go
--   Auth, Auth/*          api/middleware/auth.go and replica.go
--   Api, Api/Handlers     api/handlers/node.go, topology.go and health.go; Api/Router is
--                         api/router.go, from a request through its gates to its handler
--   Api/Steps, Api/*      the writes that a request may do, as a step relation on the tables, and
--                         what runs of requests keep
--   Lighthouse, Lighthouse/*  server/internal/lighthouse: the files and processes of lighthouses;
--                         Lighthouse/Schema has the columns of its tables
--   RateLimit, RateLimit/*  server/internal/ratelimit
--   Sdk, Sdk/*            sdk/client.go, config.go, transport.go and auth.go; Sdk/Calls is what each
--                         call sends, Sdk/Bundles the loops of the downloads and uploads,
--                         Sdk/Config the configuration and NewClient, and Api/Routes the
--                         patterns of router.go
--   Daemon/*              poller.go, bundle.go, cluster.go, config.go, init.go, manager.go,
--                         supervisor.go and healthchecker.go of cmd/nebulagc/daemon
--   Examples, Examples/*  the properties at concrete inputs
--
-- How it is modelled. A method over the database is a function from the tables to a result and the
-- tables, and takes which of its database calls fail and the time of the call; a transaction gives
-- back the tables as they were if it ends with an error. No call of another method runs between the
-- statements of one. Numbers are natural numbers without a bound; times and durations are
-- nanoseconds. Loops are recursion on a list of rows, rounds, URLs or attempts left, so that no fuel
-- is needed: the retries of a request are bounded by RetryAttempts, the waits by the rounds.
--
-- What is not modelled: terminals, logging and metrics; the encoding of requests and bodies; gin,
-- SQLite, the operating system and the Go standard library, which are parameters or the functions of
-- Sql; the parsing of the daemon's configuration, and its signals and shutdown; the rate limits of
-- golang.org/x/time in front of the endpoints.
pub mod Prelude
pub mod Errors
pub mod Exec
pub mod Sql
pub mod Golib
pub mod Token
pub mod Store
pub mod Archive
pub mod Http
pub mod Bundle
pub mod Daemon
pub mod Node
pub mod Topology
pub mod Ha
pub mod Registry
pub mod Auth
pub mod Sdk
pub mod RateLimit
pub mod Examples
pub mod Api
pub mod Lighthouse
