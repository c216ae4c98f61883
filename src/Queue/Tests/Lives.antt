-- ===== src/Queue/Tests/Lives.antt =====
-- Jobs over several operations of the queue at concrete runs.
use winter.Base.{pos, ◌+ℤ◌, some, ◌≡◌, refl, arith, Bool, true, false}
use winter.Redis.Memory.{memory}
use winter.Queue.Keys.{
  ready_key, delayed_key, lease_key, active_key, dead_key, job_key, paused_key, stats_key,
  worker_jobs_key,
}
use winter.Queue.Link.{up}
use winter.Queue.Scripts.{enqueue_script, dequeue_script, nack_script, hset_all}
use winter.Queue.View.{view}
use winter.Queue.Transitions.{is_final}
use winter.Queue.Api.{enqueue, dequeue, nack}
use winter.Queue.Lifecycle.{Op, enqueues, dequeues, perform, Reach, here, next, places}
use winter.Queue.Refine.Dequeue.{next_job}
use winter.Queue.Lifecycle.Simulation.{IsPlaced, Moves, step-Moves}
use winter.Queue.Lifecycle.Invariant.{Reach-IsPlaced, Reach-keeps_jobs}
use winter.Queue.Lifecycle.Stale.{stale_nack_doubles}
use winter.Queue.Tests.{empty, mail, one_ready, two_ready, busy, ready_a, attempt_a, limit_a}

pub active_b : (view memory "q" busy "b").active ≡ true
unfolding enqueue dequeue nack enqueue_script dequeue_script nack_script next_job ready_key
    delayed_key lease_key active_key dead_key paused_key job_key stats_key hset_all worker_jobs_key
active_b = refl

one_place_a : places (view memory "q" two_ready "a") ≡ 1
unfolding enqueue dequeue nack enqueue_script dequeue_script nack_script next_job ready_key
    delayed_key lease_key active_key dead_key paused_key job_key stats_key hset_all
one_place_a = refl

pub places_b_before : places (view memory "q" one_ready "b") ≡ 0
unfolding enqueue dequeue nack enqueue_script dequeue_script nack_script next_job ready_key
    delayed_key lease_key active_key dead_key paused_key job_key stats_key hset_all
places_b_before = refl

more_a : is_final false (pos 0) (pos 3) ≡ false
unfolding ◌+ℤ◌
more_a = refl

pub empty-IsPlaced : IsPlaced memory "q" empty
empty-IsPlaced j = record { single = omega arith; leased = refl; counted = refl }

any_op : Op → Bool
any_op op = true

filled : Reach memory any_op "q" empty two_ready
unfolding any_op
filled =
    next up (enqueues (mail "b" (pos 2) (pos 0)) "" (pos 0))
      (next up (enqueues (mail "a" (pos 5) (pos 0)) "" (pos 0)) here refl (refl, refl)) refl
      (refl, places_b_before)

stale_nack_doubles_example :
    (memory.zscore
        (nack memory up "q" "a" "w" "late" (pos 10) false (pos 50) two_ready).1.zsets
        (ready_key "q")
        "a"
      ≡ some (pos 5))
    × (memory.zscore
          (nack memory up "q" "a" "w" "late" (pos 10) false (pos 50) two_ready).1.zsets
          (delayed_key "q")
          "a"
        ≡ some (pos 50 +ℤ pos 10))
stale_nack_doubles_example =
    stale_nack_doubles memory "q" "a" "w" "late" (pos 10) (pos 50) (pos 0) (pos 3) (pos 5) two_ready
      attempt_a limit_a ready_a more_a

Reach-IsPlaced_example : IsPlaced memory "q" two_ready
Reach-IsPlaced_example = Reach-IsPlaced memory any_op "q" empty two_ready empty-IsPlaced filled

Reach-keeps_jobs_example : places (view memory "q" busy "a") ≡ 1
Reach-keeps_jobs_example =
    Reach-keeps_jobs memory "q" two_ready busy "a"
      (Reach-IsPlaced memory any_op "q" empty two_ready empty-IsPlaced filled) one_place_a
      (next up (dequeues "w" (pos 1_000)) here refl tt)

step-Moves_example :
    Moves memory "q" two_ready
      (perform memory "q" up (dequeues "w" (pos 1_000)) two_ready)
      "b"
      false
      true
step-Moves_example =
    step-Moves memory "q" two_ready "b" up (dequeues "w" (pos 1_000))
      (Reach-IsPlaced memory any_op "q" empty two_ready empty-IsPlaced filled) tt
