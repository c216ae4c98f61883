-- ===== src/Server/Survival.antt =====
-- What ends the program while a job is processed, and what Recover keeps from ending it: server.go,
-- processJob, and middleware.go.
use winter.Base.{
  ℕ, String, ℤ, Bool, true, false, Option, none, some, List, [], ◌∷◌, ◌==◌, Bool-cases, inl, inr,
  ap, ◌≡◌, refl, ◌∙◌,
}
use winter.Redis.{Redis}
use winter.Queue.Job.{JobRecord}
use winter.Queue.Link.{
  Result, ok, err, Done, duplicate, redis_error, wrapped, not_in_dead, index_panic,
}
use winter.Queue.Scripts.{Outcome, dead, retry}
use winter.Server.Failure.{Failure, is_reschedule, is_cancel}
use winter.Server.Process.{
  Run, returned, panicked, Report, crashed, index_crashed, no_handler, rate_limited, completed,
  ack_error, rescheduled, cancelled, nack_error, nacked, Hook, on_start, on_complete, on_error,
  on_dead, Wrapped, wrapped_fn, wrap, raw_job, without, complete_workflow, follow_up, run_wrapped,
  Links, World, Server, HandlerFn, Middleware, recover, recovered, report_run, report_error,
  run_job, chained, ack_report, nack_report, limited, handled, process_job,
}

-- A panic of the handler, of a middleware or of a hook that ended the program.
abbrev pub is_crash : Report → Bool
is_crash (crashed message) = true
is_crash _ = false

module _ (R : Redis) (converted : ℕ → ℤ) (duration : ℤ → String) where
  ack_survives : (r : Result Done) → is_crash (ack_report R converted duration r) ≡ false
  ack_survives (ok d) = refl
  ack_survives (err e) = refl

  nack_survives : (r : Result Outcome) → is_crash (nack_report R converted duration r) ≡ false
  nack_survives (ok o) = refl
  nack_survives (err e) = refl

  error_survives :
      (links : Links) (worker : String) (later : ℤ) (rec : JobRecord) (e : Failure)
      (delay : Option ℤ) (reason : Option String) (w : World R)
      → is_crash (report_error R converted duration links worker later rec e delay reason w).0
        ≡ false
  unfolding report_error
  error_survives links worker later rec e (some delay) reason w = refl
  error_survives links worker later rec e none (some reason) w = refl
  error_survives links worker later rec e none none w = nack_survives _

  run_survives :
      (links : Links) (worker : String) (later : ℤ) (rec : JobRecord) (id : String) (run : Run)
      (w : World R)
      → is_crash (report_run R converted duration links worker later rec (recovered id run) w).0
        ≡ false
  unfolding report_run is_reschedule is_cancel
  run_survives links worker later rec id (returned none result) w = ack_survives _
  run_survives links worker later rec id (returned (some e) result) w =
      error_survives links worker later rec e (is_reschedule e) (is_cancel e) w
  run_survives links worker later rec id (panicked message) w =
      error_survives links worker later rec _ none none w

  -- A panic in a middleware's function is no panic in its wrapping of a handler.
  abbrev pub AllWrap : List (Middleware R) → Type 0
  AllWrap [] = Unit
  AllWrap (m ∷ ms) =
      ((next : HandlerFn R) → (fn : HandlerFn R) × (m next ≡ wrapped_fn fn)) × AllWrap ms

  chained_wraps :
      (ms : List (Middleware R)) (handler : HandlerFn R)
      → AllWrap ms
      → (fn : HandlerFn R) × (chained R converted duration ms handler ≡ wrapped_fn fn)
  unfolding chained
  chained_wraps [] handler h = (handler, refl)
  chained_wraps (m ∷ ms) handler (wraps, h) =
      let (inner, e) = chained_wraps ms handler h in
      let (fn, at) = wraps inner in (fn, ap (λ (x : Wrapped R). wrap m x) e ∙ at)

  module _ (links : Links) (calm : (h : Hook) → links.hook h ≡ none) where
    complete_survives :
        (r : Result Done) → is_crash (complete_workflow R converted duration links r).1 ≡ false
    complete_survives (ok d) = rw (calm on_complete) refl
    complete_survives (err index_panic) = refl
    complete_survives (err duplicate) = rw (calm on_complete) refl
    complete_survives (err (redis_error t)) = rw (calm on_complete) refl
    complete_survives (err (wrapped t e)) = rw (calm on_complete) refl
    complete_survives (err (not_in_dead t)) = rw (calm on_complete) refl

    follow_survives :
        (new_id : String) (later : ℤ) (rec : JobRecord) (run : Run) (report : Report) (w : World R)
        → is_crash report ≡ false
        → is_crash (follow_up R converted duration links new_id later rec run report w).0 ≡ false
    unfolding follow_up
    follow_survives new_id later rec run completed w h = elim (Bool-cases (rec.workflow_id == "")) [
      | inl alone ↦ rw (alone, calm on_complete) refl
      | inr member ↦ rw member (complete_survives _)
    ]
    follow_survives new_id later rec run (nacked dead) w h = rw (calm on_dead) refl
    follow_survives new_id later rec run (nacked retry) w h = rw (calm on_error) refl
    follow_survives new_id later rec run no_handler w h = h
    follow_survives new_id later rec run rate_limited w h = h
    follow_survives new_id later rec run ack_error w h = h
    follow_survives new_id later rec run rescheduled w h = h
    follow_survives new_id later rec run cancelled w h = h
    follow_survives new_id later rec run nack_error w h = h
    follow_survives new_id later rec run (crashed t) w h = h
    follow_survives new_id later rec run index_crashed w h = h

    module _ (server : Server R) (ms : List (Middleware R))
        (outermost : server.middleware ≡ recover R ∷ ms) (wraps : AllWrap ms) where
      started_survives :
          (new_id : String) (later : ℤ) (rec : JobRecord) (fn : HandlerFn R) (w : World R)
          → is_crash
              (run_wrapped R converted duration server links new_id later rec
                (wrap (recover R) (wrapped_fn fn))
                w).0
            ≡ false
      unfolding run_wrapped recover
      started_survives new_id later rec fn w =
          let tracked = record w { inflight = (rec.id, rec.queue) ∷ without rec.id w.inflight } in
          let ended = fn (raw_job rec) tracked in
          follow_survives new_id later rec (recovered rec.id ended.0) _
            (report_run R converted duration links server.worker_id later rec
              (recovered rec.id ended.0) ended.1).1
            (run_survives links server.worker_id later rec rec.id ended.0 ended.1)

      job_survives :
          (new_id : String) (later : ℤ) (rec : JobRecord) (handler : HandlerFn R) (w : World R)
          → is_crash (run_job R converted duration server links new_id later rec handler w).0
            ≡ false
      unfolding run_job chained
      job_survives new_id later rec handler w =
          let (fn, e) = chained_wraps ms handler wraps in
          simp (outermost, calm on_start, e) (started_survives new_id later rec fn w)

      limited_survives :
          (new_id : String) (later : ℤ) (rec : JobRecord) (handler : HandlerFn R)
          (p : Option ℤ × World R)
          → is_crash (limited R converted duration server links new_id later rec handler p).0
            ≡ false
      limited_survives new_id later rec handler (none, w) = job_survives new_id later rec handler w
      limited_survives new_id later rec handler (some delay, w) = refl

      handled_survives :
          (new_id : String) (now later : ℤ) (rec : JobRecord) (o : Option (HandlerFn R))
          (w : World R)
          → is_crash (handled R converted duration server links new_id now later rec o w).0 ≡ false
      handled_survives new_id now later rec none w = refl
      handled_survives new_id now later rec (some handler) w =
          limited_survives new_id later rec handler _

      -- On a server whose outermost middleware is Recover, for a job on which no hook panics, and
      -- with no other middleware that panics while it wraps a handler: whatever the links, the
      -- handler and the functions that the middleware made of it do, a panic included, the program
      -- does not end, unless the completion of a chain's job indexes past the chain's tasks.
      pub recover_survives :
          (new_id : String) (now later : ℤ) (rec : JobRecord) (w : World R)
          → is_crash (process_job R converted duration server links new_id now later rec w).0
            ≡ false
      unfolding process_job
      recover_survives new_id now later rec w = handled_survives new_id now later rec _ w
