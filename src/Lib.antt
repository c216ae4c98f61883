-- ===== src/Lib.antt =====
-- winter: a verification library for the task queue of this repository, which is written in Go and
-- keeps all its state in Redis.
--
-- The program. A client (client.go, workflow.go) turns tasks into job records and enqueues them. The
-- queue (internal/queue) keeps each job as a hash, and its place as a member of a sorted set of
-- ready or of delayed jobs, of the set of active jobs with a sorted set of leases, or of the dead
-- letter list; each change is one Lua script, which Redis runs as a whole. A server (server.go)
-- dequeues jobs, runs their handlers through the middleware (middleware.go), and reports each
-- outcome to the queue; its background loops move delayed jobs that are due, extend the leases of
-- running jobs and recover the jobs of dead workers (internal/worker). It asks the rate limiter
-- (internal/ratelimit) before it runs a job, and advances the workflow of a job that is done
-- (internal/workflow). The scheduler (internal/scheduler) enqueues periodic jobs. The gRPC service
-- (internal/server) offers the queue to programs in other languages, and internal/config checks
-- the configuration file.
--
-- The files.
--   Base and its children: shared names; Boolean tests on numbers and texts; lists and integers over
--   the native numbers.
--   Redis: the commands that the program uses, as an interface with the laws that Redis documents:
--   hashes, sorted sets, sets, lists and strings as five key spaces. Redis/Memory fills the
--   interface by lists of writes.
--   Queue/Keys, Job, Double, Scripts, Link, Api, Batch: internal/queue. The functions have the names
--   of the Go functions and of the Lua scripts, in lower case: Queue.Enqueue is enqueue, enqueueScript is
--   enqueue_script. A Link says what the network makes of a round trip: it succeeds, the request is
--   lost, or the reply is lost.
--   Queue/Stats: QueueStats, and how the operations change the depths of a queue.
--   Queue/View, Transitions, Refine: what one job looks like in one queue, what each command does to
--   that view, and that the scripts do this, to the named job alone.
--   Queue/Lifecycle: the state machine of a job, and every operation, over any link, as a step of it;
--   Stale is about outcomes that come too late, and Labels about the state in a job's hash.
--   Backoff, States, Server/Failure and Client/Wait: winter.go. RateLimit: internal/ratelimit. Workflow:
--   internal/workflow, where Interleaved has the commands of completions by several servers in any
--   order. Server: server.go, middleware.go and internal/worker; Server/Pool is Start, Stop and the
--   poll loops with their semaphore as a step relation, whose jobs run beside the loop,
--   Server/Process is what processJob does with one of them, with its types in Process/Jobs; Outcome
--   and Survival are about its reports and about panics, and Promotion, Sweep, Beat and Alive about
--   the background loops. Context: context.go. Cron: internal/scheduler, where Interleaved has
--   the commands of several servers' ticks in any order.
--   Client: client.go and workflow.go, with Client/Connect for the connections of clients and servers.
--   Settings: internal/config. Grpc: internal/server, with its interceptors in Grpc/Interceptors.
--   Ticker: what the background loops share; Server/Upkeep and Cron have their bodies. Inspector:
--   inspector.go. Commands: cmd/winter and cmd/server; Commands/Serving is the standalone server as a
--   step relation over the database. Wintertest: wintertest.
--   Tests and Queue/Tests: the theorems at concrete runs.
--
-- Bounds and fuel. Scores, times, counters and priorities are integers without bound, but for the
-- backoff and the gRPC timeouts, whose products wrap around in 64 bits, and for the numbers of a
-- job that the enqueue script turns into doubles, which Queue/Double rounds: its eleven halvings
-- are enough for 64 bits. The other scripts get times in milliseconds, which a double holds
-- exactly. The chunks of EnqueueMany run on fuel, the number of jobs, which is enough since each
-- chunk takes one job at least. The polls of the gRPC Dequeue run over a list of clock readings.
--
-- Not modelled: the expiry of unique keys, results and workflow records, and the expiry of leases
-- but for the clock that recovery reads; the floating-point rounding of the rate limiter, which
-- counts exactly here, so that near a whole token the script may answer otherwise; what hooks do
-- but panic; JSON; log lines but for those of the gRPC interceptors; sockets, flags, listening and
-- the layout of output; the generated protocol code and the examples. What the handlers and the
-- other loops of a server do between two steps of its poll loop is any change of the database.
-- The schedule of a cron entry and the parser of schedules, time.ParseDuration, reading the
-- configuration file and its YAML, the environment, the digits of SHA-256 and of numbers, the bytes
-- of a text, the pages of a SCAN, and the conversion of a float of 2^63 or more to an integer are
-- parameters.
pub mod Base
pub mod Redis
pub mod Queue
pub mod Backoff
pub mod States
pub mod RateLimit
pub mod Workflow
pub mod Server
pub mod Cron
pub mod Client
pub mod Settings
pub mod Grpc
pub mod Inspector
pub mod Context
pub mod Commands
pub mod Wintertest
pub mod Ticker
pub mod Tests
