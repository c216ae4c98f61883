-- ===== src/Commands/Serving/Calls.antt =====
-- internal/queue/queue.go and internal/server/grpc.go: a waiting job, and the calls of the service.
use winter.Base.{ℕ, String, ℤ, pos, Bool, true, false, ◌≡◌, ◌==◌, ◌||◌, if◌then◌else◌}
use winter.Redis.{Redis, Db}
use winter.Queue.Keys.{lease_key, job_key, stats_key}
use winter.Queue.Job.{JobRecord}
use winter.Queue.Link.{Link, up, refused, cut}
use winter.Queue.Scripts.{recover_leases_script}
use winter.Queue.Api.{
  enqueue, dequeue, ack, nack, heartbeat, get_job, recover_expired_leases_at, lease_duration,
}
use winter.Grpc.{
  Response, Request, enqueue_request, ack_request, nack_request, heartbeat_request, get_job_request,
  queue_stats_request, handle, grpc_enqueue, grpc_ack, grpc_nack, grpc_heartbeat, grpc_get_job,
  grpc_queue_stats,
}
use winter.Queue.Stats.{queue_stats}
use winter.Commands.Serving.Waiting.{
  IsWaiting, enqueue_script-IsWaiting, dequeue_script-IsWaiting, ack_script-IsWaiting,
  nack_script-IsWaiting, recover_jobs-IsWaiting,
}

module _ (R : Redis) (q j : String) where
  -- A round trip runs the script or it does not.
  pub enqueue-IsWaiting :
      (link : Link) (job : JobRecord) (uniq : String) (period : ℤ) (db : Db R)
      → (job.id == j) ≡ false
      → IsWaiting R q j db
      → IsWaiting R q j (enqueue R link job uniq period db).1
  unfolding enqueue
  enqueue-IsWaiting up job uniq period db new w =
      enqueue_script-IsWaiting R q j job.queue (job_key job.id) (stats_key job.queue) _ _ db new w
  enqueue-IsWaiting (refused e) job uniq period db new w = w
  enqueue-IsWaiting (cut e) job uniq period db new w =
      enqueue_script-IsWaiting R q j job.queue (job_key job.id) (stats_key job.queue) _ _ db new w

  pub dequeue-IsWaiting :
      (link : Link) (p worker : String) (now : ℤ) (db : Db R)
      → IsWaiting R q j db
      → IsWaiting R q j (dequeue R link p worker now db).1
  unfolding dequeue
  dequeue-IsWaiting up p worker now db w =
      dequeue_script-IsWaiting R q j p worker now lease_duration db w
  dequeue-IsWaiting (refused e) p worker now db w = w
  dequeue-IsWaiting (cut e) p worker now db w =
      dequeue_script-IsWaiting R q j p worker now lease_duration db w

  ack-IsWaiting :
      (link : Link) (p id worker : String) (now : ℤ) (db : Db R)
      → IsWaiting R q j db
      → IsWaiting R q j (ack R link p id worker now db).1
  unfolding ack
  ack-IsWaiting up p id worker now db w = ack_script-IsWaiting R q j p worker id now db w
  ack-IsWaiting (refused e) p id worker now db w = w
  ack-IsWaiting (cut e) p id worker now db w = ack_script-IsWaiting R q j p worker id now db w

  nack-IsWaiting :
      (link : Link) (p id worker message : String) (backoff : ℤ) (skip : Bool) (now : ℤ) (db : Db R)
      → IsWaiting R q j db
      → IsWaiting R q j (nack R link p id worker message backoff skip now db).1
  unfolding nack
  nack-IsWaiting up p id worker message backoff skip now db w =
      nack_script-IsWaiting R q j p worker id message backoff now (if skip then 1 else 0) db w
  nack-IsWaiting (refused e) p id worker message backoff skip now db w = w
  nack-IsWaiting (cut e) p id worker message backoff skip now db w =
      nack_script-IsWaiting R q j p worker id message backoff now (if skip then 1 else 0) db w

  pub recover-IsWaiting :
      (link : Link) (p : String) (limit : ℕ) (now : ℤ) (db : Db R)
      → IsWaiting R q j db
      → IsWaiting R q j (recover_expired_leases_at R link p limit now db).1
  unfolding recover_expired_leases_at recover_leases_script
  recover-IsWaiting up p limit now db w =
      recover_jobs-IsWaiting R q j p (R.zrangebyscore db.zsets (lease_key p) now limit) db w
  recover-IsWaiting (refused e) p limit now db w = w
  recover-IsWaiting (cut e) p limit now db w =
      recover_jobs-IsWaiting R q j p (R.zrangebyscore db.zsets (lease_key p) now limit) db w

module _ (R : Redis) (digest : String → String) (j : String) where
  -- A request is refused, or answered after a round trip.
  guarded :
      (q : String) (b : Bool) (r a : Response) (db db' : Db R)
      → IsWaiting R q j db
      → IsWaiting R q j db'
      → (let p : Response × Db R = if b then (r, db) else (a, db') in IsWaiting R q j p.1)
  guarded q true r a db db' w w' = w
  guarded q false r a db db' w w' = w'

  get_job-IsWaiting :
      (q : String) (link : Link) (id : String) (db : Db R)
      → IsWaiting R q j db
      → IsWaiting R q j (get_job R link id db).1
  unfolding get_job
  get_job-IsWaiting q up id db w = w
  get_job-IsWaiting q (refused e) id db w = w
  get_job-IsWaiting q (cut e) id db w = w

  queue_stats-IsWaiting :
      (q : String) (link : Link) (queue : String) (db : Db R)
      → IsWaiting R q j db
      → IsWaiting R q j (queue_stats R link queue db).1
  unfolding queue_stats
  queue_stats-IsWaiting q up queue db w = w
  queue_stats-IsWaiting q (refused e) queue db w = w
  queue_stats-IsWaiting q (cut e) queue db w = w

  heartbeat-IsWaiting :
      (q : String) (link : Link) (worker : String) (now : ℤ) (db : Db R)
      → IsWaiting R q j db
      → IsWaiting R q j (heartbeat R link worker now db).1
  unfolding heartbeat
  heartbeat-IsWaiting q up worker now db w = record {
    delayed = w.delayed;
    ready = w.ready;
    active = w.active;
  }
  heartbeat-IsWaiting q (refused e) worker now db w = w
  heartbeat-IsWaiting q (cut e) worker now db w = record {
    delayed = w.delayed;
    ready = w.ready;
    active = w.active;
  }

  pub handle-IsWaiting :
      (q : String) (link : Link) (id : String) (now : ℤ) (req : Request) (db : Db R)
      → (id == j) ≡ false
      → IsWaiting R q j db
      → IsWaiting R q j (handle R digest link id now req db).1
  unfolding grpc_enqueue grpc_ack grpc_nack grpc_heartbeat grpc_get_job grpc_queue_stats
  handle-IsWaiting q link id now (enqueue_request req) db new w =
      guarded q (req.kind == "") _ _ db _ w (enqueue-IsWaiting R q j link _ _ _ db new w)
  handle-IsWaiting q link id now (ack_request job queue worker) db new w =
      guarded q ((job == "") || ((queue == "") || (worker == ""))) _ _ db _ w
        (ack-IsWaiting R q j link queue job worker now db w)
  handle-IsWaiting q link id now (nack_request job queue worker message skip) db new w =
      guarded q ((job == "") || ((queue == "") || (worker == ""))) _ _ db _ w
        (nack-IsWaiting R q j link queue job worker message (pos 1_000) skip now db w)
  handle-IsWaiting q link id now (heartbeat_request worker) db new w =
      guarded q (worker == "") _ _ db _ w (heartbeat-IsWaiting q link worker now db w)
  handle-IsWaiting q link id now (get_job_request job) db new w =
      guarded q (job == "") _ _ db _ w (get_job-IsWaiting q link job db w)
  handle-IsWaiting q link id now (queue_stats_request queue) db new w =
      guarded q (queue == "") _ _ db _ w (queue_stats-IsWaiting q link queue db w)
