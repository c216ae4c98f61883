-- ===== src/Server/Process/Jobs.antt =====
-- server.go and middleware.go: a job as its handler sees it, the handlers and the middleware around
-- them, what a run can come to, and the server and the state that processJob has.
use winter.Base.{
  ℕ, suc, ◌/◌, String, ◌<>◌, ℤ, pos, negsuc, Option, none, some, List, [], ◌∷◌, ◌==◌, if◌then◌else◌,
}
use winter.Redis.{Redis}
use winter.Backoff.{negate}
use winter.Queue.Job.{JobRecord}
use winter.Queue.Link.{Link}
use winter.Queue.Scripts.{Outcome}
use winter.RateLimit.{Buckets}
use winter.Workflow.{Flow}
use winter.Server.Failure.{Failure, plain}

pub record RawJob : Type 0 where
  pub id : String
  pub kind : String
  pub queue : String
  pub priority : ℤ
  pub state : String
  pub attempt : ℤ
  pub max_retries : ℤ
  pub payload : String
  pub created_at : ℤ
  pub scheduled_at : ℤ
  pub started_at : ℤ
  pub last_error : String

abbrev pub raw_job : JobRecord → RawJob
raw_job rec = record {
  id = rec.id;
  kind = rec.kind;
  queue = rec.queue;
  priority = rec.priority;
  state = rec.state;
  attempt = rec.attempt;
  max_retries = rec.max_retries;
  payload = rec.payload;
  created_at = rec.created_at;
  scheduled_at = rec.scheduled_at;
  started_at = rec.started_at;
  last_error = rec.last_error;
}

-- How a handler ends: it returns an error or none, with the result that it set, or it panics.
pub data Run : Type 0 where
  returned : Option Failure → String → Run
  panicked : String → Run

pub record Rate : Type 0 where
  pub max : ℕ
  pub per : ℕ

pub data Hook : Type 0 where
  on_start on_complete on_error on_dead : Hook

-- What became of the job. The last two end the program: a panic of the handler, of a middleware or
-- of a hook that nothing catches, and an index past the tasks of a chain.
pub data Report : Type 0 where
  no_handler rate_limited completed ack_error rescheduled cancelled nack_error : Report
  nacked : Outcome → Report
  crashed : String → Report
  index_crashed : Report

-- The links of the round trips of processJob, and the panic of an event's hooks, if one panics.
pub record Links : Type 0 where
  pub limit : Link
  pub outcome : Link
  pub result : Link
  pub workflow : ℕ → Link
  pub hook : Hook → Option String

pub record World (R : Redis) : Type 0 where
  pub flow : Flow R
  pub buckets : Buckets
  pub inflight : List (String × String)

abbrev pub HandlerFn : Redis → Type 0
HandlerFn R = RawJob → World R → Run × World R

-- What a middleware makes of a handler: another handler, or a panic.
pub data Wrapped (R : Redis) : Type 0 where
  wrapped_fn : HandlerFn R → Wrapped R
  wrap_panic : String → Wrapped R

abbrev pub Middleware : Redis → Type 0
Middleware R = HandlerFn R → Wrapped R

abbrev pub wrap : {R : Redis} → Middleware R → Wrapped R → Wrapped R
wrap m (wrapped_fn fn) = m fn
wrap m (wrap_panic text) = wrap_panic text

abbrev pub lookup : {V : Type 0} → String → List (String × V) → Option V
lookup k [] = none
lookup k ((j, v) ∷ l) = if j == k then some v else lookup k l

abbrev pub without : String → List (String × String) → List (String × String)
without k [] = []
without k ((j, v) ∷ l) = if j == k then without k l else (j, v) ∷ without k l

abbrev pub recovered : String → Run → Run
recovered id (returned e result) = returned e result
recovered id (panicked text) =
    returned (some (plain ("winter: panic processing job " <> id <> ": " <> text))) ""

-- The middleware Recover: a panic becomes an error.
unfoldable pub recover : (R : Redis) → Middleware R
recover R next = wrapped_fn (λ job w. let (run, w') = next job w in (recovered job.id run, w'))

-- The rest of a division that truncates, in milliseconds.
abbrev pub whole_milliseconds : ℤ → ℤ
whole_milliseconds (pos n) = pos (n / 1_000_000)
whole_milliseconds (negsuc n) = negate (pos (suc n / 1_000_000))

pub record Server (R : Redis) : Type 0 where
  pub worker_id : String
  pub handlers : List (String × HandlerFn R)
  pub rate_limits : List (String × Rate)
  pub middleware : List (Middleware R)
