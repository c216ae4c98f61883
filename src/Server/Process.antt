-- ===== src/Server/Process.antt =====
-- server.go, processJob, and middleware.go. One job from its dequeue to the report of its outcome.
-- Hooks are recorded in the order in which they fire; log lines are not modelled. Delays are in
-- milliseconds, and `now` and `later` are the clock at the rate limit and at the outcome.
mod Jobs
unfoldable pub use Jobs.*
use winter.Base.{
  ℕ, suc, ◌/◌, String, ◌<>◌, ℤ, pos, negsuc, ◌+ℤ◌, ltb_ℤ, true, Option, none, some, List, [], ◌∷◌,
  ◌==◌, if◌then◌else◌, ◌||◌, is_some,
}
use winter.Redis.{Redis, Db}
use winter.Backoff.{exponential, negate}
use winter.Backoff as Backoff
use winter.Queue.Job.{JobRecord}
use winter.Queue.Link.{Link, Result, ok, err, index_panic, Done}
use winter.Queue.Scripts.{Outcome, dead, retry}
use winter.Queue.Api.{ack, nack, reschedule_job, cancel_job, set_result}
use winter.RateLimit.{Answer, allowed, denied, Buckets, allow}
use winter.Workflow.{Flow, on_db}
use winter.Workflow.Advance.{on_job_completed, on_job_failed, count_of}
use winter.Server.Failure.{Failure, plain, is_reschedule, is_cancel, is_skip_retry, error_text}

module _ (R : Redis) (converted : ℕ → ℤ) (duration : ℤ → String) where
  abbrev pub in_queue : {A : Type 0} → (Db R → Result A × Db R) → World R → Result A × World R
  in_queue m w = let (result, flow) = on_db R m w.flow in (result, record w { flow = flow })

  -- The first middleware is the outermost.
  unfoldable pub chained : List (Middleware R) → HandlerFn R → Wrapped R
  chained [] handler = wrapped_fn handler
  chained (m ∷ ms) handler = wrap m (chained ms handler)

  -- The delay after which a job that the limiter turns away runs again, at least 50.
  abbrev pub limit_delay : Result Answer → Option ℤ
  limit_delay (ok (denied ms)) = some (if ltb_ℤ (pos ms) (pos 50) then pos 50 else pos ms)
  limit_delay (ok (allowed n)) = none
  limit_delay (err e) = none

  unfoldable pub check_limit : Links → Option Rate → String → ℤ → World R → Option ℤ × World R
  check_limit links none kind now w = (none, w)
  check_limit links (some rate) kind now w =
      let (result, buckets) = allow links.limit kind rate.max rate.per now w.buckets in
      (limit_delay result, record w { buckets = buckets })

  -- The backoff of a failure, in milliseconds: none for an error that skips retries.
  abbrev pub backoff_of : JobRecord → Failure → ℤ
  backoff_of rec e =
      if is_skip_retry e
      then pos 0
      else whole_milliseconds
          (Backoff.next converted (exponential (pos 1_000_000_000)) (count_of rec.attempt))

  abbrev pub nack_report : Result Outcome → Report
  nack_report (ok outcome) = nacked outcome
  nack_report (err e) = nack_error

  -- What processJob makes of an error: the job is put off, cancelled, retried or buried.
  unfoldable pub report_error :
      Links
      → String
      → ℤ
      → JobRecord
      → Failure
      → Option ℤ
      → Option String
      → World R
      → Report × World R
  report_error links worker later rec e (some delay) reason w =
      let (result, w') =
        in_queue (reschedule_job R links.outcome rec.queue rec.id worker (later +ℤ delay)) w in
      (rescheduled, w')
  report_error links worker later rec e none (some reason) w =
      let (result, w') =
        in_queue (cancel_job R links.outcome rec.queue rec.id worker reason later) w in
      (cancelled, w')
  report_error links worker later rec e none none w =
      let (result, w') =
        in_queue
          (nack R links.outcome rec.queue rec.id worker (error_text duration e) (backoff_of rec e)
            (is_skip_retry e) later)
          w in
      (nack_report result, w')

  abbrev pub ack_report : Result Done → Report
  ack_report (ok _) = completed
  ack_report (err e) = ack_error

  -- The call that reports how the handler ended.
  unfoldable pub report_run : Links → String → ℤ → JobRecord → Run → World R → Report × World R
  unfolding report_error
  report_run links worker later rec (returned none result) w =
      let (done, w') = in_queue (ack R links.outcome rec.queue rec.id worker later) w in
      (ack_report done, w')
  report_run links worker later rec (returned (some e) result) w =
      report_error links worker later rec e (is_reschedule e) (is_cancel e) w
  report_run links worker later rec (panicked text) w = (crashed text, w)

  abbrev pub store_result : Links → JobRecord → Run → World R → World R
  store_result links rec (returned e result) w =
      if result == "" then w else (in_queue (set_result R links.result rec.id result) w).1
  store_result links rec (panicked text) w = w

  -- The hooks of an event fire.
  abbrev pub fire_event : Links → Hook → Report → List Hook × Report
  fire_event links hook report =
      (hook ∷ [], elim (links.hook hook) [ some text ↦ crashed text | none ↦ report ])

  -- After OnJobCompleted, whose errors are only logged.
  abbrev pub complete_workflow : Links → Result Done → List Hook × Report
  complete_workflow links (err index_panic) = ([], index_crashed)
  complete_workflow links _ = fire_event links on_complete completed

  -- What follows the report of a job that completed or failed.
  unfoldable pub follow_up :
      Links → String → ℤ → JobRecord → Run → Report → World R → Report × List Hook × World R
  follow_up links new_id later rec run completed w =
      let stored = store_result links rec run w in
      let (result, flow) =
        on_job_completed R links.workflow new_id later rec.workflow_id rec.id stored.flow in
      if rec.workflow_id == ""
      then (let (hooks, report) = fire_event links on_complete completed in (report, hooks, stored))
      else (let (hooks, report) = complete_workflow links result in
          (report, hooks, record stored { flow = flow }))
  follow_up links new_id later rec run (nacked dead) w =
      let (hooks, report) = fire_event links on_dead (nacked dead) in
      (
        report,
        hooks,
        if (rec.workflow_id == "") || is_some (links.hook on_dead) then w else (record w {
          flow = (on_job_failed R links.workflow new_id later rec.workflow_id rec.id w.flow).1;
        }),
      )
  follow_up links new_id later rec run (nacked retry) w =
      let (hooks, report) = fire_event links on_error (nacked retry) in (report, hooks, w)
  follow_up links new_id later rec run report w = (report, [], w)

  -- The wrapped handler runs, and what it returns is reported.
  unfoldable pub run_wrapped :
      Server R → Links → String → ℤ → JobRecord → Wrapped R → World R → Report × List Hook × World R
  unfolding report_run follow_up
  run_wrapped server links new_id later rec (wrap_panic text) w = (crashed text, [], w)
  run_wrapped server links new_id later rec (wrapped_fn fn) w =
      let tracked = record w { inflight = (rec.id, rec.queue) ∷ without rec.id w.inflight } in
      let (run, ran) = fn (raw_job rec) tracked in
      let (report, reported) = report_run links server.worker_id later rec run ran in
      let (final, hooks, after) = follow_up links new_id later rec run report reported in
      (final, hooks, record after { inflight = without rec.id after.inflight })

  -- A job that has started, unless the hooks of its start panicked.
  abbrev pub run_started :
      Server R
      → Links
      → String
      → ℤ
      → JobRecord
      → Wrapped R
      → Option String
      → World R
      → Report × List Hook × World R
  run_started server links new_id later rec fn (some text) w = (crashed text, on_start ∷ [], w)
  run_started server links new_id later rec fn none w =
      let (report, hooks, after) = run_wrapped server links new_id later rec fn w in
      (report, on_start ∷ hooks, after)

  unfoldable pub run_job :
      Server R
      → Links
      → String
      → ℤ
      → JobRecord
      → HandlerFn R
      → World R
      → Report × List Hook × World R
  unfolding run_wrapped chained
  run_job server links new_id later rec handler w =
      run_started server links new_id later rec (chained server.middleware handler)
        (links.hook on_start) w

  abbrev pub limited :
      Server R
      → Links
      → String
      → ℤ
      → JobRecord
      → HandlerFn R
      → Option ℤ × World R
      → Report × List Hook × World R
  limited server links new_id later rec handler (none, w) =
      run_job server links new_id later rec handler w
  limited server links new_id later rec handler (some delay, w) =
      let (result, w') =
        in_queue (reschedule_job R links.outcome rec.queue rec.id server.worker_id (later +ℤ delay))
          w in
      (rate_limited, [], w')

  abbrev pub handled :
      Server R
      → Links
      → String
      → ℤ
      → ℤ
      → JobRecord
      → Option (HandlerFn R)
      → World R
      → Report × List Hook × World R
  handled server links new_id now later rec none w =
      let (result, w') =
        in_queue
          (nack R links.outcome rec.queue rec.id server.worker_id "no handler registered" (pos 0)
            true now)
          w in
      (no_handler, [], w')
  handled server links new_id now later rec (some handler) w =
      limited server links new_id later rec handler
        (check_limit links (lookup rec.kind server.rate_limits) rec.kind now w)

  unfoldable pub process_job :
      Server R → Links → String → ℤ → ℤ → JobRecord → World R → Report × List Hook × World R
  unfolding run_job check_limit
  process_job server links new_id now later rec =
      handled server links new_id now later rec (lookup rec.kind server.handlers)
