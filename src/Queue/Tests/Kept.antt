-- ===== src/Queue/Tests/Kept.antt =====
-- What the queue keeps of its jobs, at concrete runs: states, records and counts.
use winter.Base.{pos, ◌+ℤ◌, String, ◌≡◌, refl, arith, false, none, some}
use winter.Redis.Memory.{memory}
use winter.Queue.Keys.{
  ready_key, delayed_key, lease_key, active_key, dead_key, job_key, paused_key, stats_key,
  worker_jobs_key,
}
use winter.Queue.Double.{to_double, written_double}
use winter.Queue.Link.{up, cut, ok}
use winter.Queue.Scripts.{retry, enqueue_script, dequeue_script, nack_script, hset_all}
use winter.Queue.View.{view}
use winter.Queue.Api.{enqueue, enqueue_keys, dequeue, nack, get_job}
use winter.Queue.Lifecycle.{enqueues, dequeues, Reach, here, next, starts_pending}
use winter.Queue.Lifecycle.Labels.{IsLabelled, Reach-IsLabelled}
use winter.Queue.Refine.Stored.{stored_job, get_job-enqueue}
use winter.Queue.Refine.Enqueue.{is_duplicate}
use winter.Queue.Tests.{empty, mail, busy}
use winter.Queue.Tests.Lives.{empty-IsPlaced, places_b_before}

empty-IsLabelled : (j : String) → IsLabelled (view memory "q" empty j)
empty-IsLabelled j = record {
  ready = λ h. cc;
  waiting = λ h. cc;
  running = λ h. cc;
  dead = λ h. absurd (omega arith);
}

taken_b : Reach memory starts_pending "q" empty busy
taken_b =
    next up (dequeues "w" (pos 1_000))
      (next up (enqueues (mail "b" (pos 2) (pos 0)) "" (pos 0))
        (next up (enqueues (mail "a" (pos 5) (pos 0)) "" (pos 0)) here refl (refl, refl)) refl
        (refl, places_b_before))
      refl tt

Reach-IsLabelled_example : IsLabelled (view memory "q" busy "b")
Reach-IsLabelled_example =
    Reach-IsLabelled memory "q" empty busy empty-IsPlaced empty-IsLabelled taken_b "b"

fresh_a : is_duplicate memory "" (pos 0) empty ≡ false
unfolding enqueue_keys
fresh_a = refl

get_job-enqueue_example :
    (get_job memory up "a"
      (enqueue memory (cut "EOF") (mail "a" (pos 5) (pos 0)) "" (pos 0) empty).1).0
    ≡ ok (some (stored_job (mail "a" (pos 5) (pos 0)) (enqueue_keys memory "" (pos 0)).0))
get_job-enqueue_example =
    get_job-enqueue memory (cut "EOF") (mail "a" (pos 5) (pos 0)) "" (pos 0) empty
      (omega arith, omega arith) (omega arith, omega arith) (omega arith, omega arith) refl fresh_a

idle_b : memory.zscore busy.zsets (delayed_key "q") "b" ≡ none
unfolding enqueue dequeue nack enqueue_script dequeue_script nack_script ready_key delayed_key
    lease_key active_key dead_key paused_key job_key stats_key hset_all worker_jobs_key
idle_b = refl

retry_b : (nack memory up "q" "b" "w" "boom" (pos 10) false (pos 1_500) busy).0 ≡ ok retry
unfolding enqueue dequeue nack enqueue_script dequeue_script nack_script ready_key delayed_key
    lease_key active_key dead_key paused_key job_key stats_key hset_all worker_jobs_key ◌+ℤ◌
retry_b = refl

-- A limit of 2 ^ 53 + 1 is rounded, and a time in nanoseconds is read back as 0.
rounded_limit : to_double (pos 9_007_199_254_740_993) ≡ pos 9_007_199_254_740_992
unfolding to_double
rounded_limit = refl

lost_time : written_double (to_double (pos 1_700_000_000_000_000_000)) ≡ pos 0
unfolding to_double written_double
lost_time = refl
