-- ===== src/Queue/Refine/Stored.antt =====
-- internal/queue/queue.go: what GetJob and GetResult give back after a write.
use winter.Base.{String, ℤ, pos, ◌≡◌, refl, ◌∙◌, ap, true, false, some, eq_refl}
use winter.Redis.{Redis, Db, text, to_map}
use winter.Queue.Keys.{job_key}
use winter.Queue.Double.{IsExact, written_double-to_double}
use winter.Queue.Job.{JobRecord, parse_job_record_from_map}
use winter.Queue.Link.{Link, reached, up, refused, cut, ok}
use winter.Queue.Scripts.{job_fields}
use winter.Queue.View.{JobView, Shows, view, override}
use winter.Queue.Transitions.{enqueued}
use winter.Queue.Api.{enqueue, enqueue_args, enqueue_keys, get_job, set_result, get_result}
use winter.Queue.Lifecycle.Views.{view-Shows}
use winter.Queue.Refine.Dequeue.{found_job-map}
use winter.Queue.Refine.Enqueue.{enqueue-Shows, is_duplicate}

-- A record as the enqueue script stores it: what a run writes is reset, and the unique key is the
-- name of the key in Redis.
abbrev pub stored_job : JobRecord → String → JobRecord
stored_job job unique = record job {
  attempt = pos 0;
  started_at = pos 0;
  completed_at = pos 0;
  last_error = "";
  unique_key = unique;
}

parse-job_fields :
    (job : JobRecord) (unique : String) (ttl : ℤ) (v : JobView)
    → IsExact job.priority
    → IsExact job.max_retries
    → IsExact job.scheduled_at
    → parse_job_record_from_map (override (job_fields (enqueue_args job ttl) unique) v.hash)
      ≡ stored_job job unique
unfolding parse_job_record_from_map to_map
parse-job_fields job unique ttl v p m s =
    rw
      (
        written_double-to_double job.priority p,
        written_double-to_double job.max_retries m,
        written_double-to_double job.scheduled_at s,
      )
      refl

module _ (R : Redis) where
  pub stored-Shows :
      (link : Link) (job : JobRecord) (uniq : String) (period : ℤ) (db : Db R)
      → reached link ≡ true
      → is_duplicate R uniq period db ≡ false
      → Shows R job.queue (enqueue R link job uniq period db).1 job.id (
          enqueued
            (enqueue_args job (enqueue_keys R uniq period).1)
            (enqueue_keys R uniq period).0
            (view R job.queue db job.id))
  stored-Shows link job uniq period db r fresh =
      rw (r, fresh, eq_refl job.id) at
        (enqueue-Shows R job uniq period db link job.id (view R job.queue db job.id)
          (view-Shows R job.queue db job.id))

  -- What Enqueue writes, GetJob reads: if the request of an Enqueue reaches the server and no live
  -- job owns the unique key, whatever becomes of the reply, then GetJob on a working link gives
  -- the record back field by field, but for the fields of a run, which start at zero, and the
  -- unique key, which is the key's name in Redis; provided that the record's priority, its limit of
  -- retries and its scheduled time are below 2 ^ 53 in size, so that the script's doubles hold them.
  pub get_job-enqueue :
      (link : Link) (job : JobRecord) (uniq : String) (period : ℤ) (db : Db R)
      → IsExact job.priority
      → IsExact job.max_retries
      → IsExact job.scheduled_at
      → reached link ≡ true
      → is_duplicate R uniq period db ≡ false
      → (get_job R up job.id (enqueue R link job uniq period db).1).0
        ≡ ok (some (stored_job job (enqueue_keys R uniq period).0))
  unfolding get_job to_map
  get_job-enqueue link job uniq period db p m s r fresh =
      let shown = stored-Shows link job uniq period db r fresh in
      ap ok (
        found_job-map R _ _ (text job.state)
          (λ f.
            R.hgetall-map (enqueue R link job uniq period db).1.hashes (job_key job.id) f
            ∙ shown.hash f)
          refl)
      ∙ ap (λ (j : JobRecord). ok (some j))
          (parse-job_fields job (enqueue_keys R uniq period).0 (enqueue_keys R uniq period).1
            (view R job.queue db job.id) p m s)

  -- The bytes of a result come back as they were stored
  pub get_result-set_result :
      (link : Link) (id value : String) (db : Db R)
      → reached link ≡ true
      → (get_result R up id (set_result R link id value db).1).0 ≡ ok (some value)
  unfolding get_result set_result
  get_result-set_result up id value db r = simp (R.get-set, eq_refl) refl
  get_result-set_result (cut e) id value db r = simp (R.get-set, eq_refl) refl
  get_result-set_result (refused e) id value db r = cc
