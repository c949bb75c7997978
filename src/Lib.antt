-- ===== src/Lib.antt =====
-- lib-service-discovery: a Go library that registers a service with Consul and resolves others, so
-- that a slow or dead discovery server never stops a caller.
--
-- The parts of the program, and the files that model them. A name in the program and its model
-- differ in spelling only: `normalizeEndpoints` is `normalize_endpoints`.
--
-- - Errors (types.go): the sentinel errors, wrapping by `%w` and `errors.Is`. Context: Go's contexts,
--   by the tokens that cancel them. Decimal: `strconv.Itoa` and `strconv.Atoi`, on 64 bits. Platform:
--   what the program uses of `time`, `net/url` and `strings`.
-- - Types (types.go): endpoints, services, events, and the reconciliation of a service's endpoint
--   pointers with its flat fields. A nil pointer is `none`.
-- - Config (config.go): defaults, validation and the parsing of advertised addresses; Config/Env:
--   `ConfigFromEnv` and its readers.
-- - Consul (consul.go): Meta and Registration translate between services and catalog entries;
--   RoundRobin, Backoff and Client are the cursor, the delays and the two clients; Heartbeat holds the
--   critical sections of the TTL heartbeats, and Heartbeat/Steps runs them in any order; Registry has
--   the operations of `consulRegistry`, over the SDK's calls in Api; Ticker is the loop of a
--   heartbeat's goroutine; Watch is `watchLoop` over the rounds that its environment prescribes; Sleep
--   has `sleepCtx` and `sleepCtxAny`.
-- - Consul/Feed (consul.go, managed_resolver.go): `watchLoop` and `runManagedUpdates` as two goroutines
--   with the channel of events between them, which Consul/Feed/Steps runs in any order.
-- - Consul/Meta/AsMap: the metadata as Go's maps, a quotient of the lists of pairs.
-- - Backend (types.go): the `Registry` interface as a record, which the manager takes as a parameter.
-- - Resolver (managed_resolver.go): the cache of one name. Manager/Managed: `managedResolverFor`, its
--   seed and its watch, over the manager's state.
-- - Manager (manager.go): the manager's state and `New`; Manager/Registration: `Register`,
--   `applyHealthCheck` and `RegisterAsync`; Manager/Resolve: the one-shot resolvers; Manager/Lifecycle:
--   `Deregister`, `Watch` and `Close`. Manager/Lifecycle/Soundness has the relation of calls and events.
-- - Manager/Concurrent (managed_resolver.go, manager.go): the critical sections of first resolves and of
--   `doClose`, which Manager/Concurrent/Steps runs in any order from any number of goroutines.
-- - Manager/Async (manager.go): the loops of `RegisterAsync` from any number of goroutines, with `Close`
--   between any two of their steps.
-- - Dynamic (resolver.go): `DynamicResolver`; Dynamic/Seed: the seeds straight from the registry;
--   Dynamic/Track: `WatchResolve`, `WatchResolveService` and the loop of updates.
-- - Consul/AsBackend: `consulRegistry` as the registry of a manager; Manager/EndToEnd: a provider and a
--   consumer that meet in Consul; Manager/AfterClose: registrations behind a `Close`.
-- - Logger (logger.go): the adapter from the consumer's logger to the internal one.
-- - Demo (services/main.go): the demo's start, its handlers and its shutdown; Demo/Life is its whole
--   life.
-- - Tests: concrete inputs on which the theorems apply.
--
-- A call of the manager takes the registry's state along, and a call of the Consul registry takes the
-- agent's. Integers are ℤ over the native numbers; the program adds and multiplies none of them but the
-- cursor and the backoff, whose wrap-around and bounds are written out. No definition needs fuel but
-- the printing of a number, which is given more rounds than the number has digits; loops run over the
-- list of what their environment does.
--
-- Parameters are the Consul SDK (Consul/Api), a registry backend (Backend), the readers of
-- durations and URLs and the folding of letters (Platform), and the consumer's logger (Logger).
-- Where a resolve of the Consul registry panics, the backend records that its callers were unwound,
-- and what is computed behind it is no behaviour of the program. Log lines are not modelled: they
-- have no effect on discovery. Time is not modelled but for the heartbeats: a sleep and a query end
-- in one of the ways in which they can. The HTTP server and client of the demo are not part of the
-- repository. Calls of the manager run from their start to their return, but for the parts that are
-- modelled under interleaving: the heartbeats of the Consul registry, first resolves against
-- `Close`, the watch with its consumer, and the loops of `RegisterAsync` against `Close`.
pub mod Common
pub mod Errors
pub mod Context
pub mod Decimal
pub mod Platform
pub mod Config
pub mod Types
pub mod Consul
pub mod Backend
pub mod Resolver
pub mod Logger
pub mod Manager
pub mod Demo
pub mod Dynamic
pub mod Tests
