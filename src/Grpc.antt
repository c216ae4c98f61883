-- ===== src/Grpc.antt =====
-- internal/server/grpc.go: the handlers of the gRPC service, from the requests that they check to the
-- status of the answer. The digits of SHA-256 are a parameter. A request
-- that its client cancels is not modelled.
pub mod Proto
pub mod Answers
pub mod Interceptors
pub mod RoundTrip
use winter.Base.{
  ℕ, zero, suc, ◌/◌, String, ◌<>◌, ℤ, pos, negsuc, ◌+ℤ◌, leb_ℤ, ltb_ℤ, Bool, true, false, ◌||◌,
  Option, none, some, List, [], ◌∷◌, ◌==◌, if◌then◌else◌,
}
use winter.Redis.{Redis, Db}
use winter.Queue.Job.{JobRecord}
use winter.Queue.Link.{Link, Result, ok, err, Error, duplicate, Done}
use winter.Queue.Scripts.{Outcome}
use winter.Queue.Api.{enqueue, dequeue, ack, nack, heartbeat, get_job}
use winter.Queue.Stats
use winter.Queue.Stats.{Stats, stat}
use winter.Workflow.{or_three}
use winter.Grpc.Proto.{ProtoJob, record_to_proto}
use winter.Backoff.{times, wrap_64}

pub record EnqueueRequest : Type 0 where
  pub kind : String
  pub payload : String
  pub queue : String
  pub priority : ℤ
  pub max_retries : ℤ
  pub scheduled_at : ℤ
  pub unique_period_ms : ℤ

pub data Request : Type 0 where
  enqueue_request : EnqueueRequest → Request
  ack_request : (job queue worker : String) → Request
  nack_request : (job queue worker message : String) → Bool → Request
  heartbeat_request : (worker : String) → Request
  get_job_request : (job : String) → Request
  queue_stats_request : (queue : String) → Request

pub record QueueStatsResponse : Type 0 where
  pub queue : String
  pub ready : ℤ
  pub active : ℤ
  pub delayed : ℤ
  pub dead : ℤ
  pub completed : ℤ
  pub failed : ℤ

-- The fields of a response, and the codes of the errors.
pub data Response : Type 0 where
  enqueued : String → Response
  done : Response
  outcome : Outcome → Response
  found : ProtoJob → Response
  queue_stats : QueueStatsResponse → Response
  nothing : Response
  invalid_argument already_exists internal not_found : Response

-- time.Duration(ms) * time.Millisecond
abbrev pub nanoseconds : ℤ → ℤ
nanoseconds ms = wrap_64 (times ms 1_000_000)

-- UnixMilli of a time in nanoseconds.
abbrev pub milliseconds : ℤ → ℤ
milliseconds (pos n) = pos (n / 1_000_000)
milliseconds (negsuc n) = negsuc (n / 1_000_000)

-- The deadline of a Dequeue that starts at `start`, in nanoseconds.
unfoldable pub deadline_of : ℤ → ℤ → ℤ
deadline_of start timeout_ms =
    let timeout = nanoseconds timeout_ms in
    start +ℤ (if leb_ℤ timeout (pos 0) then pos 30_000_000_000 else timeout)

unfoldable pub requested_job : String → ℤ → EnqueueRequest → JobRecord
requested_job id now req = record {
  id = id;
  kind = req.kind;
  queue = if req.queue == "" then "default" else req.queue;
  priority = req.priority;
  state = "pending";
  payload = req.payload;
  attempt = pos 0;
  max_retries = or_three req.max_retries;
  created_at = now;
  scheduled_at = req.scheduled_at;
  started_at = pos 0;
  completed_at = pos 0;
  last_error = "";
  unique_key = "";
  workflow_id = "";
}

abbrev pub enqueue_status : String → Result Done → Response
enqueue_status id (ok d) = enqueued id
enqueue_status id (err duplicate) = already_exists
enqueue_status id (err e) = internal

abbrev pub done_status : Result Done → Response
done_status (ok d) = done
done_status (err e) = internal

abbrev pub nack_status : Result Outcome → Response
nack_status (ok o) = outcome o
nack_status (err e) = internal

abbrev pub job_status : Result (Option JobRecord) → Response
job_status (ok (some r)) = found (record_to_proto r)
job_status (ok none) = not_found
job_status (err e) = internal

abbrev pub stats_status : String → Result Stats → Response
stats_status queue (ok m) = queue_stats (record {
  queue = queue;
  ready = stat m "ready";
  active = stat m "active";
  delayed = stat m "delayed";
  dead = stat m "dead";
  completed = stat m "completed";
  failed = stat m "failed";
})
stats_status queue (err e) = internal

module _ (R : Redis) (digest : String → String) where
  unfoldable pub grpc_enqueue : Link → String → ℤ → EnqueueRequest → Db R → Response × Db R
  unfolding requested_job
  grpc_enqueue link id now req db =
      if req.kind == ""
      then (invalid_argument, db)
      else (let unique = ltb_ℤ (pos 0) req.unique_period_ms in
          let (result, db') =
            enqueue R link (requested_job id now req)
              (if unique then req.kind <> ":" <> digest req.payload else "")
              (if unique then nanoseconds req.unique_period_ms else pos 0) db in
          (enqueue_status id result, db'))

  unfoldable pub grpc_ack : Link → ℤ → String → String → String → Db R → Response × Db R
  grpc_ack link now job queue worker db =
      if (job == "") || ((queue == "") || (worker == ""))
      then (invalid_argument, db)
      else (let (result, db') = ack R link queue job worker now db in (done_status result, db'))

  -- A failure over gRPC waits for a second, whatever its attempt.
  unfoldable pub grpc_nack :
      Link → ℤ → String → String → String → String → Bool → Db R → Response × Db R
  grpc_nack link now job queue worker message skip_retry db =
      if (job == "") || ((queue == "") || (worker == ""))
      then (invalid_argument, db)
      else (let (result, db') =
            nack R link queue job worker message (pos 1_000) skip_retry now db in
          (nack_status result, db'))

  unfoldable pub grpc_heartbeat : Link → ℤ → String → Db R → Response × Db R
  grpc_heartbeat link now worker db =
      if worker == ""
      then (invalid_argument, db)
      else (let (result, db') = heartbeat R link worker now db in (done_status result, db'))

  unfoldable pub grpc_get_job : Link → String → Db R → Response × Db R
  grpc_get_job link job db =
      if job == ""
      then (invalid_argument, db)
      else (let (result, db') = get_job R link job db in (job_status result, db'))

  unfoldable pub grpc_queue_stats : Link → String → Db R → Response × Db R
  grpc_queue_stats link queue db =
      if queue == ""
      then (invalid_argument, db)
      else (let (result, db') = Stats.queue_stats R link queue db in
          (stats_status queue result, db'))

  -- The service's handlers, all but Dequeue.
  abbrev pub handle : Link → String → ℤ → Request → Db R → Response × Db R
  handle link id now (enqueue_request req) db = grpc_enqueue link id now req db
  handle link id now (ack_request job queue worker) db = grpc_ack link now job queue worker db
  handle link id now (nack_request job queue worker message skip) db =
      grpc_nack link now job queue worker message skip db
  handle link id now (heartbeat_request worker) db = grpc_heartbeat link now worker db
  handle link id now (get_job_request job) db = grpc_get_job link job db
  handle link id now (queue_stats_request queue) db = grpc_queue_stats link queue db

  abbrev pub polled :
      ℤ → ℤ → Result (Option JobRecord) → Db R → Option Response × Db R → Option Response × Db R
  polled deadline now (err e) db rest = (some internal, db)
  polled deadline now (ok (some r)) db rest = (some (found (record_to_proto r)), db)
  polled deadline now (ok none) db rest = if ltb_ℤ deadline now then (some nothing, db) else rest

  -- The polls of Dequeue, one for each reading of the clock in nanoseconds, until there is an answer: none while
  -- the handler still waits.
  unfoldable pub dequeue_polls :
      (ℕ → Link) → ℕ → String → String → ℤ → List ℤ → Db R → Option Response × Db R
  dequeue_polls links i queue worker deadline [] db = (none, db)
  dequeue_polls links i queue worker deadline (now ∷ times) db =
      let (result, db') = dequeue R (links i) queue worker (milliseconds now) db in
      let rest = dequeue_polls links (suc i) queue worker deadline times db' in
      polled deadline now result db' rest

  unfoldable pub grpc_dequeue :
      (ℕ → Link) → String → String → ℤ → ℤ → List ℤ → Db R → Option Response × Db R
  unfolding dequeue_polls
  grpc_dequeue links queue worker timeout_ms start times db =
      if (queue == "") || (worker == "")
      then (some invalid_argument, db)
      else dequeue_polls links 0 queue worker (deadline_of start timeout_ms) times db
