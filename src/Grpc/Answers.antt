-- ===== src/Grpc/Answers.antt =====
-- The answers of the gRPC service: internal/server/grpc.go.
use winter.Base.{
  ℕ, suc, String, ℤ, ltb_ℤ, Bool, true, false, ◌||◌, Option, none, some, List, [], ◌∷◌, ◌==◌,
  is_some, ◌≡◌, refl, Bool-cases, inl, inr,
}
use winter.Redis.{Redis, Db}
use winter.Queue.Job.{JobRecord}
use winter.Queue.Link.{Link, Result, ok, err}
use winter.Grpc.{
  Request, enqueue_request, ack_request, nack_request, heartbeat_request, get_job_request,
  queue_stats_request, Response, invalid_argument, handle, grpc_enqueue, grpc_ack, grpc_nack,
  grpc_heartbeat, grpc_get_job, grpc_queue_stats, polled, dequeue_polls, grpc_dequeue, deadline_of,
}

-- Whether a request lacks a field that it needs.
abbrev pub incomplete : Request → Bool
incomplete (enqueue_request req) = req.kind == ""
incomplete (ack_request job queue worker) = (job == "") || ((queue == "") || (worker == ""))
incomplete (nack_request job queue worker message skip) =
    (job == "") || ((queue == "") || (worker == ""))
incomplete (heartbeat_request worker) = worker == ""
incomplete (get_job_request job) = job == ""
incomplete (queue_stats_request queue) = queue == ""

abbrev pub after_deadline : ℤ → List ℤ → Bool
after_deadline deadline [] = false
after_deadline deadline (t ∷ ts) = ltb_ℤ deadline t || after_deadline deadline ts

module _ (R : Redis) (digest : String → String) where
  -- A request that lacks a field that it needs is answered as an invalid argument, whatever the
  -- link, and leaves the database as it was.
  pub incomplete_rejected :
      (link : Link) (id : String) (now : ℤ) (req : Request) (db : Db R)
      → incomplete req ≡ true
      → handle R digest link id now req db ≡ (invalid_argument, db)
  unfolding grpc_enqueue grpc_ack grpc_nack grpc_heartbeat grpc_get_job grpc_queue_stats
  incomplete_rejected link id now (enqueue_request req) db h = rw h refl
  incomplete_rejected link id now (ack_request job queue worker) db h = rw h refl
  incomplete_rejected link id now (nack_request job queue worker message skip) db h = rw h refl
  incomplete_rejected link id now (heartbeat_request worker) db h = rw h refl
  incomplete_rejected link id now (get_job_request job) db h = rw h refl
  incomplete_rejected link id now (queue_stats_request queue) db h = rw h refl

  polled_answers :
      (deadline now : ℤ) (ts : List ℤ) (r : Result (Option JobRecord)) (db : Db R)
      (rest : Option Response × Db R)
      → after_deadline deadline (now ∷ ts) ≡ true
      → (after_deadline deadline ts ≡ true → is_some rest.0 ≡ true)
      → is_some (polled R digest deadline now r db rest).0 ≡ true
  polled_answers deadline now ts (err e) db rest h k = refl
  polled_answers deadline now ts (ok (some r)) db rest h k = refl
  polled_answers deadline now ts (ok none) db rest h k = elim (Bool-cases (ltb_ℤ deadline now)) [
    | inl late ↦ rw late refl
    | inr early ↦ rw early (k (rw early at h))
  ]

  polls_answer :
      (links : ℕ → Link) (i : ℕ) (queue worker : String) (deadline : ℤ) (ts : List ℤ) (db : Db R)
      → after_deadline deadline ts ≡ true
      → is_some (dequeue_polls R digest links i queue worker deadline ts db).0 ≡ true
  unfolding dequeue_polls
  polls_answer links i queue worker deadline [] db h = cc
  polls_answer links i queue worker deadline (t ∷ ts) db h =
      polled_answers deadline t ts _ _ _ h
        (λ k. polls_answer links (suc i) queue worker deadline ts _ k)

  -- A Dequeue does not wait for ever: once one of its polls reads a time after its deadline, which
  -- is the start plus the timeout, or 30 seconds for one that is not positive in 64 bits of
  -- nanoseconds, it has answered, whatever the queue holds and the links do.
  pub dequeue_answers :
      (links : ℕ → Link) (queue worker : String) (timeout_ms start : ℤ) (ts : List ℤ) (db : Db R)
      → after_deadline (deadline_of start timeout_ms) ts ≡ true
      → is_some (grpc_dequeue R digest links queue worker timeout_ms start ts db).0 ≡ true
  unfolding grpc_dequeue
  dequeue_answers links queue worker timeout_ms start ts db h =
      elim (Bool-cases ((queue == "") || (worker == ""))) [
        | inl lacking ↦ rw lacking refl
        | inr complete ↦ rw complete (polls_answer links 0 queue worker _ ts db h)
      ]
