-- ===== src/Grpc/RoundTrip.antt =====
-- internal/server/grpc.go: a job that is enqueued over gRPC, as GetJob shows it.
use winter.Base.{
  ◌-◌, ◌^◌, String, ◌<>◌, ℤ, pos, negsuc, ◌≤ℤ◌, ltb_ℤ, ◌≡◌, refl, ap, ◌∙◌, false, ◌==◌,
  if◌then◌else◌, arith,
}
use winter.Redis.{Redis, Db}
use winter.Queue.Double.{IsExact}
use winter.Queue.Link.{up}
use winter.Queue.Refine.Enqueue.{is_duplicate}
use winter.Queue.Refine.Stored.{stored_job, get_job-enqueue}
use winter.Workflow.{or_three}
use winter.Grpc.Proto.{ProtoJob, record_to_proto, wrap_32_fits}
use winter.Grpc.{
  EnqueueRequest, found, nanoseconds, requested_job, grpc_enqueue, grpc_get_job, job_status,
}

-- An int32 of a message.
abbrev pub FitsInt32 : ℤ → Type 0
FitsInt32 z = (negsuc (2 ^ 31 - 1) ≤ℤ z) × (z ≤ℤ pos (2 ^ 31 - 1))

fits-IsExact : (z : ℤ) → FitsInt32 z → IsExact z
fits-IsExact z (low, high) = (omega (arith, low, high), omega (arith, low, high))

abbrev pub message_of : String → ℤ → EnqueueRequest → ProtoJob
message_of id now req = record {
  id = id;
  kind = req.kind;
  payload = req.payload;
  queue = if req.queue == "" then "default" else req.queue;
  priority = req.priority;
  state = "pending";
  attempt = pos 0;
  max_retries = or_three req.max_retries;
  created_at = now;
  scheduled_at = req.scheduled_at;
  started_at = pos 0;
  completed_at = pos 0;
  last_error = "";
}

requested_message :
    (id unique : String) (now : ℤ) (req : EnqueueRequest)
    → FitsInt32 req.priority
    → FitsInt32 (or_three req.max_retries)
    → record_to_proto (stored_job (requested_job id now req) unique) ≡ message_of id now req
unfolding record_to_proto requested_job
requested_message id unique now req (pl, ph) (rl, rh) =
    rw (wrap_32_fits req.priority pl ph, wrap_32_fits (or_three req.max_retries) rl rh) refl

module _ (R : Redis) (digest : String → String) where
  abbrev pub unique_of : EnqueueRequest → String
  unique_of req =
      if ltb_ℤ (pos 0) req.unique_period_ms then req.kind <> ":" <> digest req.payload else ""

  abbrev pub period_of : EnqueueRequest → ℤ
  period_of req =
      if ltb_ℤ (pos 0) req.unique_period_ms then nanoseconds req.unique_period_ms else pos 0

  -- What a client of the service enqueues, a client of the service sees: on working links, for a
  -- kind and a new id that are not empty, if no live job owns the request's unique key, GetJob of
  -- the new id answers with the fields of the request, with the defaults for a queue that is empty
  -- and a limit of retries that is zero, provided that the priority and the limit fit the 32 bits
  -- that the messages give them and the scheduled time is below 2 ^ 53 in size, so that the
  -- script's double holds it.
  pub enqueue_then_get :
      (id : String) (now : ℤ) (req : EnqueueRequest) (db : Db R)
      → (req.kind == "") ≡ false
      → (id == "") ≡ false
      → FitsInt32 req.priority
      → FitsInt32 (or_three req.max_retries)
      → IsExact req.scheduled_at
      → is_duplicate R (unique_of req) (period_of req) db ≡ false
      → (grpc_get_job R digest up id (grpc_enqueue R digest up id now req db).1).0
        ≡ found (message_of id now req)
  unfolding grpc_get_job grpc_enqueue requested_job
  enqueue_then_get id now req db kind some_id priority retries scheduled fresh =
      rw (kind, some_id)
        (ap job_status (
            get_job-enqueue R up (requested_job id now req) (unique_of req) (period_of req) db
              (fits-IsExact req.priority priority) (fits-IsExact (or_three req.max_retries) retries)
              scheduled refl fresh)
          ∙ ap found (requested_message id _ now req priority retries))
