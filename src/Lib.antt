-- ===== src/Lib.antt =====
-- torge, a Go framework for HTTP services: the parts of it that keep state or decide.
--
-- Before an application serves (app.go), its constructors are registered and checked, and the
-- singletons are built (container.go); then its hooks start, and a shutdown stops them. Its route
-- table and `dispatch` stand on the router. Handlers publish to a hub of topics (realtime/hub.go).
--
-- The router (router.go) is filled when routes are registered and read for each request: `find`
-- gives the route and its values, `allowed` the methods for a 405 answer. A request then passes
-- middleware: the rate limiter (ratelimit/ratelimit.go), and the idempotency of requests
-- (idempotency/idempotency.go), which keeps its records in the cache (cache/memory.go). Handlers use
-- the cache and dispatch jobs, which wait in a queue (jobs/memory.go) and which the manager's workers
-- process (jobs/jobs.go).
--
-- Base: the names and lemmas that the other modules share. A string is the list of its bytes
--   (Base/Text), a Go map an association list (Base/Assoc), whose order stands for the order of an
--   iteration; a signed number is a ℤ (Base/Int).
-- Router: parsePattern in Router/Pattern, the node type with staticChild, addStatic, lookup and
--   match in Router/Trie, the router type with insert, find and allowed in Router/Table. A trie is a
--   value, and an insertion gives the changed one. `capture_path` (Router/Trie/Spec) matches a
--   request against the steps of one pattern without a trie; `RouterOk` is the invariant of the table
--   and `Stored` says that a route is in it.
-- Cache: the type Memory of cache/memory.go in Cache/Memory, its list elements as numbers.
--   `IsValid` is its invariant; Cache/Memory/Refine and the files beside it hold the abstract list.
-- Ratelimit: GCRA, Memory and Middleware of ratelimit/ratelimit.go, the key's history in
--   Ratelimit/Limiter.
-- Jobs: the manager (Jobs/Manager), ExponentialBackoff (Jobs/Backoff) and the deliveries of one job
--   with the Retry of jobs/memory.go (Jobs/Attempts); the type MemoryQueue of jobs/memory.go as
--   a step for each atomic event (Jobs/Queue), over which the sequences of events are interleavings.
-- Idempotency: NewStore with its Reserve, Complete and Release over the cache's Memory
--   (Idempotency/Store), Middleware before and after the handler (Idempotency/Middleware). Between
--   the two the store may have changed by other requests.
-- Container: the container of container.go with register, addProvider and supply (Container),
--   validate with findCycle (Container/Graph), build with singleton, manage and closeBuilt
--   (Container/Build). A reflect.Type is a number, a pointer to a provider is the provider, and two
--   providers of the container are the same if they give the same type. Walks along the parameters
--   (Container/Cycle) are the graph without a search.
-- App: addRoute with joinPaths of group.go (App/Routes), dispatch with noRoute (App/Dispatch), the
--   Location that http.Redirect and path.Clean make of its redirect (App/Location), and
--   AddHook, Start and Shutdown (App/Lifecycle), whose start runs the container's build.
-- Realtime: the topics with their replay buffers and identifiers of realtime/hub.go (Realtime), the
--   operations of a Hub (Realtime/Hub). A subscriber is the number of its making; its channel is the
--   list of the events that wait.
--
-- Bounds and fuel. Times and durations are numbers of nanoseconds. The products of durations in GCRA
-- keep their int64 wrap-around; `RateOk` and `Fits` say that the burst fits. The doubling in
-- ExponentialBackoff wraps as an int64 does, and a cap up to 2^62 rules that out. The eviction loop
-- runs on the length of the list as fuel, and each round removes one entry. `life` runs on fuel, and a
-- theorem gives the fuel that is enough, as for `build`; the search for a cycle has one unit for each
-- provider, which is enough. The digits of a uint64 are at most 20.
-- Parameters: the clock is the argument `now`, maphash is `hash`, the float64 division of GCRA is
-- `floor_quot`, the random jitter is `draw`, what a job's handler does is `run`, JSON is a Codec, and
-- SHA-256 in hexadecimal is `digest`. What constructors, hooks and invoked functions do is a `World`.
--
-- Not modelled: goroutines and locks (each operation under its lock is one step, and so are a start
-- and a shutdown), the request-scoped values of the container, the pipeline of middleware, the write
-- loop of a hub's subscriber, net/http, JSON, logging, reflection, and the packages that are wrappers
-- of those.
pub mod Base
pub mod Router
pub mod Cache
pub mod Ratelimit
pub mod Jobs
pub mod Idempotency
pub mod Container
pub mod App
pub mod Realtime
