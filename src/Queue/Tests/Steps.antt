-- ===== src/Queue/Tests/Steps.antt =====
-- Each operation of the queue at a concrete run.
use winter.Base.{pos, ◌+ℤ◌, ◌≡◌, refl, arith, false, is_some}
use winter.Redis.Memory.{memory}
use winter.Queue.Keys.{paused_key}
use winter.Queue.Job.{parse_job_record_from_map}
use winter.Queue.Link.{up, refused, err, duplicate}
use winter.Queue.View.{Shows, view}
use winter.Queue.Transitions.{nacked, recovered, completed}
use winter.Queue.Api.{enqueue, dequeue, ack, nack, recover_expired_leases_at}
use winter.Queue.Lifecycle.Views.{view-Shows}
use winter.Queue.Refine.Release.{ack-Shows}
use winter.Queue.Refine.Nack.{nack-Shows}
use winter.Queue.Refine.Enqueue.{enqueue-Shows, enqueue_unique}
use winter.Queue.Refine.Dequeue.{
  dequeue-Shows, dequeue_takes_least, next_job, dequeued, taken_hash, IsTaken, dequeue_result,
}
use winter.Queue.Refine.Lease.{recovery_complete}
use winter.Queue.Tests.{
  empty, mail, one_ready, two_ready, busy, next_b, attempt_b, limit_b, lease_b, one_expired,
}

nack-Shows_example :
    Shows memory "q"
      (nack memory up "q" "b" "w" "boom" (pos 10) false (pos 50) busy).1
      "b"
      (nacked false "boom" (pos 0) (pos 3) (pos 50 +ℤ pos 10) (view memory "q" busy "b"))
nack-Shows_example =
    nack-Shows memory "q" "b" "w" "boom" (pos 10) (pos 50) false (pos 0) (pos 3) busy attempt_b
      limit_b up "b" (view memory "q" busy "b") (view-Shows memory "q" busy "b")

enqueue-Shows_example :
    Shows memory "q"
      (enqueue memory (refused "down") (mail "b" (pos 2) (pos 0)) "" (pos 0) one_ready).1
      "b"
      (view memory "q" one_ready "b")
enqueue-Shows_example =
    enqueue-Shows memory (mail "b" (pos 2) (pos 0)) "" (pos 0) one_ready (refused "down") "b"
      (view memory "q" one_ready "b") (view-Shows memory "q" one_ready "b")

enqueue_unique_example :
    (enqueue memory up
      (mail "b" (pos 2) (pos 0))
      "k"
      (pos 2_000_000_000)
      (enqueue memory up (mail "a" (pos 2) (pos 0)) "k" (pos 2_000_000_000) empty).1).0
    ≡ err duplicate
enqueue_unique_example =
    enqueue_unique memory (mail "a" (pos 2) (pos 0)) (mail "b" (pos 2) (pos 0)) "k"
      (pos 2_000_000_000) empty refl (omega arith)

dequeue-Shows_example : Shows memory "q" (dequeue memory up "q" "w" (pos 1_000) two_ready).1 "b" (
    dequeued memory (next_job memory "q" two_ready) (pos 1_000) "b" (view memory "q" two_ready "b"))
dequeue-Shows_example =
    dequeue-Shows memory up "q" "w" (pos 1_000) two_ready "b" (view memory "q" two_ready "b")
      (view-Shows memory "q" two_ready "b")

dequeue_takes_least_example :
    (is_some (memory.get two_ready.strings (paused_key "q")) ≡ false)
    × IsTaken memory "q"
        (pos 1_000)
        two_ready
        (parse_job_record_from_map (taken_hash memory two_ready "b" (pos 1_000)))
dequeue_takes_least_example =
    dequeue_takes_least memory "q" "w" (pos 1_000) two_ready _
      (dequeue_result memory "q" "w" (pos 1_000) two_ready "b" (pos 2) next_b)

recovery_complete_example :
    Shows memory "q"
      (recover_expired_leases_at memory up "q" 10 (pos 40_000) busy).1
      "b"
      (recovered (view memory "q" busy "b"))
recovery_complete_example =
    recovery_complete memory "q" 10 (pos 40_000) (pos 31_000) busy "b" (view memory "q" busy "b")
      (view-Shows memory "q" busy "b") lease_b (omega arith) one_expired

ack-Shows_example :
    Shows memory "q"
      (ack memory up "q" "b" "w" (pos 9_000) busy).1
      "b"
      (completed (pos 9_000) (view memory "q" busy "b"))
ack-Shows_example =
    ack-Shows memory up "q" "b" "w" (pos 9_000) busy "b" (view memory "q" busy "b")
      (view-Shows memory "q" busy "b")
