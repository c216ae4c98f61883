-- ===== src/Queue/Refine/Release.antt =====
-- internal/queue/queue.go, Ack, CancelJob and RescheduleJob: the end of a run.
use winter.Base.{String, ℤ, ◌&&◌, arith, ◌==◌, if◌then◌else◌}
use winter.Redis.{Redis, Db}
use winter.Queue.Keys.{
  delayed_key, lease_key, active_key, job_key, stats_key, worker_jobs_key, key_laws,
}
use winter.Queue.Link.{Link, up, refused, cut, reached}
use winter.Queue.Scripts.{ack_script, cancel_script, reschedule_script}
use winter.Queue.View.{JobView, Shows, hget-hset_all}
use winter.Queue.Transitions.{completed, cancelled, rescheduled}
use winter.Queue.Api.{ack, cancel_job, reschedule_job}

module _ (R : Redis) where
  open R use {hget-hincrby, zscore-zadd, zscore-zrem, sismember-srem}

  ack_script-Shows :
      (q id worker : String) (now : ℤ) (db : Db R) (j : String) (v : JobView)
      → Shows R q db j v
      → Shows R q
          (ack_script R
            (job_key id)
            (active_key q)
            (stats_key q)
            (worker_jobs_key worker)
            (lease_key q)
            id
            now
            db).1
          j
          (if id == j then completed now v else v)
  unfolding ack_script
  ack_script-Shows q id worker now db j v s = record {
    ready = simp (zscore-zrem, key_laws) (ground arith);
    delayed = simp (zscore-zrem, key_laws) (ground arith);
    lease = simp (zscore-zrem, key_laws) (ground arith);
    active = simp (sismember-srem, key_laws) (ground arith);
    dead = ground arith;
    hash = λ f. simp (hget-hset_all R, hget-hincrby, key_laws) (ground (arith, s.hash f));
  }

  cancel_script-Shows :
      (q id worker : String) (now : ℤ) (reason : String) (db : Db R) (j : String) (v : JobView)
      → Shows R q db j v
      → Shows R q
          (cancel_script R
            (job_key id)
            (active_key q)
            (worker_jobs_key worker)
            (lease_key q)
            id
            now
            reason
            db).1
          j
          (if id == j then cancelled now reason v else v)
  unfolding cancel_script
  cancel_script-Shows q id worker now reason db j v s = record {
    ready = simp (zscore-zrem, key_laws) (ground arith);
    delayed = simp (zscore-zrem, key_laws) (ground arith);
    lease = simp (zscore-zrem, key_laws) (ground arith);
    active = simp (sismember-srem, key_laws) (ground arith);
    dead = ground arith;
    hash = λ f. simp (hget-hset_all R, key_laws) (ground (arith, s.hash f));
  }

  reschedule_script-Shows :
      (q id worker : String) (time : ℤ) (db : Db R) (j : String) (v : JobView)
      → Shows R q db j v
      → Shows R q
          (reschedule_script R
            (job_key id)
            (active_key q)
            (delayed_key q)
            (worker_jobs_key worker)
            (lease_key q)
            id
            time
            db).1
          j
          (if id == j then rescheduled time v else v)
  unfolding reschedule_script
  reschedule_script-Shows q id worker time db j v s = record {
    ready = simp (zscore-zadd, zscore-zrem, key_laws) (ground arith);
    delayed = simp (zscore-zadd, zscore-zrem, key_laws) (ground arith);
    lease = simp (zscore-zadd, zscore-zrem, key_laws) (ground arith);
    active = simp (sismember-srem, key_laws) (ground arith);
    dead = ground arith;
    hash = λ f. simp (hget-hset_all R, key_laws) (ground (arith, s.hash f));
  }

  -- Acknowledging a job, if the request reaches the server, takes it out of the active set and
  -- ends its lease, and changes in its hash the state and the time of completion alone. The places
  -- and hashes of the queue's other jobs stay as they are.
  pub ack-Shows :
      (link : Link) (q id worker : String) (now : ℤ) (db : Db R) (j : String) (v : JobView)
      → Shows R q db j v
      → Shows R q
          (ack R link q id worker now db).1
          j
          (if reached link && (id == j) then completed now v else v)
  unfolding ack
  ack-Shows up q id worker now db j v s = ack_script-Shows q id worker now db j v s
  ack-Shows (refused e) q id worker now db j v s = s
  ack-Shows (cut e) q id worker now db j v s = ack_script-Shows q id worker now db j v s

  -- Cancelling a job, if the request reaches the server, takes it out of the active set and ends
  -- its lease, and writes the state, the time and the reason in its hash. The places and hashes of
  -- the queue's other jobs stay as they are.
  pub cancel_job-Shows :
      (link : Link) (q id worker reason : String) (now : ℤ) (db : Db R) (j : String) (v : JobView)
      → Shows R q db j v
      → Shows R q
          (cancel_job R link q id worker reason now db).1
          j
          (if reached link && (id == j) then cancelled now reason v else v)
  unfolding cancel_job
  cancel_job-Shows up q id worker reason now db j v s =
      cancel_script-Shows q id worker now reason db j v s
  cancel_job-Shows (refused e) q id worker reason now db j v s = s
  cancel_job-Shows (cut e) q id worker reason now db j v s =
      cancel_script-Shows q id worker now reason db j v s

  -- Rescheduling a job, if the request reaches the server, takes it out of the active set, ends its
  -- lease and puts it in the delayed set at the given time, pending and not started. Other jobs stay
  -- as they are.
  pub reschedule_job-Shows :
      (link : Link) (q id worker : String) (time : ℤ) (db : Db R) (j : String) (v : JobView)
      → Shows R q db j v
      → Shows R q
          (reschedule_job R link q id worker time db).1
          j
          (if reached link && (id == j) then rescheduled time v else v)
  unfolding reschedule_job
  reschedule_job-Shows up q id worker time db j v s =
      reschedule_script-Shows q id worker time db j v s
  reschedule_job-Shows (refused e) q id worker time db j v s = s
  reschedule_job-Shows (cut e) q id worker time db j v s =
      reschedule_script-Shows q id worker time db j v s
