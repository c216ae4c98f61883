-- ===== src/Server/Results.antt =====
-- server.go, processJob, and winter.go, Job.SetResult: the result of a job that completes.
use winter.Base.{ℕ, String, ℤ, ◌≡◌, true, false, Option, none, some, ◌∷◌, ◌==◌, ◌⊎◌, inl, inr, ◌<>◌}
use winter.Redis.{Redis}
use winter.Queue.Job.{JobRecord}
use winter.Queue.Link.{up, reached, ok}
use winter.Queue.Api.{ack, get_result}
use winter.Queue.Refine.Stored.{get_result-set_result}
use winter.Server.Failure.{Failure, plain}
use winter.Server.Process.{
  returned, Links, World, Server, HandlerFn, run_job, report_run, follow_up, chained, raw_job,
  without, on_start, wrapped_fn,
}

-- Job.SetResult, with what json.Marshal makes of the value, an error or bytes: the job's result
-- becomes the bytes, or stays.
unfoldable pub job_set_result : String ⊎ String → String → Option Failure × String
job_set_result (inl e) result = (some (plain ("winter: marshal result: " <> e)), result)
job_set_result (inr bytes) result = (none, bytes)

module _ (R : Redis) (converted : ℕ → ℤ) (duration : ℤ → String) where
  -- The state in which the handler of a job starts: the job is tracked.
  abbrev pub tracked : JobRecord → World R → World R
  tracked rec w = record w { inflight = (rec.id, rec.queue) ∷ without rec.id w.inflight }

  -- A job of no workflow, where no hook of the start and no middleware panics before the handler
  -- runs, whose handler ends without an error and has set a result: if the
  -- acknowledgement is answered and the result reaches the server, the result can be read back.
  pub completed_result :
      (server : Server R) (links : Links) (new_id : String) (later : ℤ) (rec : JobRecord)
      (handler fn : HandlerFn R) (result : String) (w : World R)
      → links.hook on_start ≡ none
      → chained R converted duration server.middleware handler ≡ wrapped_fn fn
      → (fn (raw_job rec) (tracked rec w)).0 ≡ returned none result
      → links.outcome ≡ up
      → reached links.result ≡ true
      → (rec.workflow_id == "") ≡ true
      → (result == "") ≡ false
      → (get_result R up rec.id
          (run_job R converted duration server links new_id later rec handler w).2.flow.db).0
        ≡ ok (some result)
  unfolding run_job report_run follow_up ack
  completed_result server links new_id later rec handler fn result w calm wraps ran out kept alone
        some_result =
      rw (calm, wraps, ran, out, alone, some_result)
        (get_result-set_result R links.result rec.id result _ kept)
