-- ===== src/Tests/Pools.antt =====
-- The poll loop, its jobs and the shutdown at a concrete run.
use winter.Base.{◌-◌, ◌≤◌, pos, ◌≡◌, ◌⊎◌, refl, arith, true, false, [], ◌∷◌, length}
use winter.Redis.{to_map}
use winter.Redis.Memory.{memory}
use winter.Queue.Link.{up}
use winter.Queue.Double.{written_double}
use winter.Queue.Keys.{
  ready_key, active_key, paused_key, lease_key, job_key, worker_jobs_key, delayed_key, stats_key,
}
use winter.Queue.Scripts.{enqueue_script, dequeue_script, hset_all}
use winter.Queue.Api.{enqueue, dequeue, deregister_worker}
use winter.Queue.Job.{JobRecord}
use winter.Workflow.{job_of_spec}
use winter.Server.Poll.{job_of}
use winter.Server.Pool.{
  scanning, holding, returned, serving, drained, Pool, PoolConfig, start, set_up, begin_pass,
  acquire, leave_pass, fetch, finish, cancel, drain, Reach, here, next, dispatch,
}
use winter.Server.Pool.Bound.{runs_of, running-le-concurrency}
use winter.Server.Pool.Shutdown.{steps_left, CanStep, cancelled_loop_ends, drained_exact}
use winter.Tests.{ready_j, job}

abbrev cfg : PoolConfig
cfg = record {
  concurrency = 2;
  queue_names = "q" ∷ "p" ∷ [];
  strict = false;
  worker_id = "w";
  cron_valid = true;
}

-- A job of queue q is fetched; a signal comes; the job ends, and the server drains.
abbrev at_q : Pool memory
at_q = record (start memory cfg ready_j) {
  phase = serving;
  poller = holding "q" ("p" ∷ []) false;
  sem = 1;
}

to_q : Reach memory cfg (start memory cfg ready_j) at_q
to_q =
    next (next (next here (set_up refl refl)) (begin_pass refl refl))
      (acquire "q" ("p" ∷ []) false refl (omega arith))

abbrev fetched_q : Pool memory
fetched_q =
    dispatch memory cfg at_q ("p" ∷ []) false (job_of (dequeue memory up "q" "w" (pos 7) ready_j).0)
      (dequeue memory up "q" "w" (pos 7) ready_j).1

to_fetched : Reach memory cfg (start memory cfg ready_j) fetched_q
to_fetched = next to_q (fetch "q" ("p" ∷ []) false up (pos 7) refl)

running-le-concurrency_example : length fetched_q.running ≤ 2
running-le-concurrency_example = running-le-concurrency memory cfg to_fetched

at_p : fetched_q.poller ≡ scanning ("p" ∷ []) true
unfolding enqueue dequeue enqueue_script dequeue_script job_of_spec ready_key delayed_key lease_key
    active_key paused_key job_key stats_key hset_all worker_jobs_key
at_p = refl

abbrev active_job : JobRecord
active_job = record job { state = "active"; started_at = pos 7 }

one_runs : fetched_q.running ≡ active_job ∷ []
unfolding to_map enqueue dequeue enqueue_script dequeue_script job_of_spec ready_key delayed_key
    lease_key active_key paused_key job_key stats_key hset_all worker_jobs_key written_double
one_runs = refl

abbrev stopping : Pool memory
stopping = record fetched_q { cancelled = true }

abbrev left : Pool memory
left = record stopping { poller = returned }

cancelled_loop_ends_example :
    (1 ≤ steps_left stopping.poller) × ((left.poller ≡ returned) ⊎ CanStep memory cfg left)
cancelled_loop_ends_example =
    cancelled_loop_ends memory cfg {s = stopping} (next here (leave_pass "p" [] true at_p refl))
      refl

abbrev quiet : Pool memory
quiet = record left { running = []; finished = active_job ∷ left.finished; sem = left.sem - 1 }

abbrev stopped : Pool memory
stopped = record quiet { db = (deregister_worker memory up "w" quiet.db).1; phase = drained }

still_serving : fetched_q.phase ≡ serving
unfolding enqueue dequeue enqueue_script dequeue_script job_of_spec ready_key delayed_key lease_key
    active_key paused_key job_key stats_key hset_all worker_jobs_key
still_serving = refl

to_stopped : Reach memory cfg (start memory cfg ready_j) stopped
to_stopped =
    next
      (next (next (next to_fetched cancel) (leave_pass "p" [] true at_p refl))
        (finish [] active_job [] left.db one_runs))
      (drain up refl still_serving refl refl)

drained_exact_example :
    (stopped.running ≡ [])
    × (stopped.poller ≡ returned)
    × (runs_of "j" stopped.fetched ≡ runs_of "j" stopped.finished)
drained_exact_example = drained_exact memory cfg "j" to_stopped refl
