-- ===== src/Queue/Lifecycle/Stale.antt =====
-- internal/queue/queue.go, Ack and Nack: an outcome that arrives after the job was recovered.
use winter.Base.{String, ℤ, ◌+ℤ◌, ◌≡◌, ◌∙◌, false, some, arith, eq_refl}
use winter.Redis.{Redis, Db, text, num, to_map}
use winter.Queue.Keys.{ready_key, delayed_key, job_key}
use winter.Queue.Link.{up}
use winter.Queue.Transitions.{is_final}
use winter.Queue.Api.{ack, nack}
use winter.Queue.Lifecycle.Views.{view-Shows}
use winter.Queue.Refine.Release.{ack-Shows}
use winter.Queue.Refine.Nack.{nack-Shows}

module _ (R : Redis) where
  -- A failure that is reported, on a working link, for a job in the ready set whose hash holds its
  -- attempts and its limit, and that is not the last one, leaves the job in the ready set at its
  -- score and puts it in the delayed set too, at now plus the backoff.
  pub stale_nack_doubles :
      (q id worker message : String) (backoff now : ℤ) (a m p : ℤ) (db : Db R)
      → R.hget db.hashes (job_key id) "attempt" ≡ some (num a)
      → R.hget db.hashes (job_key id) "max_retries" ≡ some (num m)
      → R.zscore db.zsets (ready_key q) id ≡ some p
      → is_final false a m ≡ false
      → (R.zscore (nack R up q id worker message backoff false now db).1.zsets (ready_key q) id
          ≡ some p)
        × (R.zscore (nack R up q id worker message backoff false now db).1.zsets (delayed_key q) id
            ≡ some (now +ℤ backoff))
  stale_nack_doubles q id worker message backoff now a m p db ha hm ready more =
      let s =
        nack-Shows R q id worker message backoff now false a m db ha hm up id _
          (view-Shows R q db id) in
      (
        s.ready ∙ ground (arith, eq_refl id, ready, more),
        s.delayed ∙ ground (arith, eq_refl id, more),
      )

  -- An acknowledgement of a job in the ready set marks its hash as completed and leaves it in the
  -- ready set at its score, so that a completed job will be dequeued again.
  pub stale_ack_runs_again :
      (q id worker : String) (now p : ℤ) (db : Db R)
      → R.zscore db.zsets (ready_key q) id ≡ some p
      → (R.zscore (ack R up q id worker now db).1.zsets (ready_key q) id ≡ some p)
        × (R.hget (ack R up q id worker now db).1.hashes (job_key id) "state"
            ≡ some (text "completed"))
  unfolding to_map
  stale_ack_runs_again q id worker now p db ready =
      let s = ack-Shows R up q id worker now db id _ (view-Shows R q db id) in
      (s.ready ∙ ground (arith, ready, eq_refl id), s.hash "state" ∙ ground (arith, eq_refl id))
