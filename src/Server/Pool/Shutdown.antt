-- ===== src/Server/Pool/Shutdown.antt =====
-- server.go, Start and Stop: how the poll loop ends after the context is cancelled, and what has
-- become of the jobs when the server has drained.
use winter.Base.{
  ℕ, suc, ◌+◌, ◌*◌, ◌≤◌, String, ◌≡◌, refl, ap, Bool, true, false, none, some, Option, List, [],
  ◌∷◌, arith, length, ◌⊎◌, inl, inr, Bool-cases, pos, if◌then◌else◌,
}
use winter.Redis.{Redis, Db}
use winter.Queue.Job.{JobRecord}
use winter.Queue.Link.{up}
use winter.Queue.Api.{dequeue}
use winter.Server.Poll.{job_of}
use winter.Server.Pool.{
  Poller, at_top, scanning, holding, waiting, returned, drained, Pool, PoolConfig, after_job,
  after_pass, start, dispatch, Step, set_up, abort, begin_pass, leave_top, acquire, leave_pass,
  fetch, end_pass, wake, leave_wait, finish, elsewhere, cancel, drain, time_out, Reach, here, next,
}
use winter.Server.Pool.Bound.{length-middle, runs_of, Reach-IsCounted}

-- How many steps the loop has left once the context is cancelled, at most.
abbrev pub steps_left : Poller → ℕ
steps_left returned = 0
steps_left at_top = 1
steps_left waiting = 2
steps_left (scanning qs fetched) = 3 + 2 * length qs
steps_left (holding q qs fetched) = 4 + 2 * length qs

after_job_left :
    (strict : Bool) (qs : List String) → steps_left (after_job strict qs) ≤ 3 + 2 * length qs
after_job_left true qs = omega arith
after_job_left false qs = omega arith

after_pass_left : (fetched : Bool) → steps_left (after_pass fetched) ≤ 2
after_pass_left true = omega arith
after_pass_left false = omega arith

module _ (R : Redis) (cfg : PoolConfig) where
  -- The poll loop's own steps, apart from those of jobs, of the shutdown and of everything else.
  abbrev pub is_loop_step : {s t : Pool R} → Step R cfg s t → Bool
  is_loop_step (set_up at valid) = false
  is_loop_step (abort at invalid) = false
  is_loop_step (finish before rec after db at) = false
  is_loop_step (elsewhere db) = false
  is_loop_step cancel = false
  is_loop_step (drain link c p q e) = false
  is_loop_step (time_out link c p) = false
  is_loop_step _ = true

  dispatch_left :
      (s : Pool R) (qs : List String) (fetched : Bool) (o : Option JobRecord) (db : Db R)
      → steps_left (dispatch R cfg s qs fetched o db).poller ≤ 3 + 2 * length qs
  dispatch_left s qs fetched none db = omega arith
  dispatch_left s qs fetched (some rec) db = after_job_left cfg.strict qs

  loop_step_left :
      {s t : Pool R} (st : Step R cfg s t)
      → s.cancelled ≡ true
      → is_loop_step st ≡ true
      → suc (steps_left t.poller) ≤ steps_left s.poller
  loop_step_left (begin_pass at go) c l = cc
  loop_step_left (leave_top at no_more) c l = omega (arith, ap steps_left at)
  loop_step_left (acquire q qs fetched at free) c l = omega (arith, ap steps_left at)
  loop_step_left (leave_pass q qs fetched at no_more) c l = omega (arith, ap steps_left at)
  loop_step_left {s} (fetch q qs fetched link now at) c l = omega (
    arith,
    ap steps_left at,
    dispatch_left s qs fetched (job_of (dequeue R link q cfg.worker_id now s.db).0)
        (dequeue R link q cfg.worker_id now s.db).1,
  )
  loop_step_left (end_pass fetched at) c l =
      omega (arith, ap steps_left at, after_pass_left fetched)
  loop_step_left (wake at) c l = omega (arith, ap steps_left at)
  loop_step_left (leave_wait at no_more) c l = omega (arith, ap steps_left at)
  loop_step_left (set_up at valid) c l = cc
  loop_step_left (abort at invalid) c l = cc
  loop_step_left (finish before rec after db at) c l = cc
  loop_step_left (elsewhere db) c l = cc
  loop_step_left cancel c l = cc
  loop_step_left (drain link a b d e) c l = cc
  loop_step_left (time_out link a b) c l = cc

  other_step_left :
      {s t : Pool R} (st : Step R cfg s t) → is_loop_step st ≡ false → t.poller ≡ s.poller
  other_step_left (begin_pass at go) l = cc
  other_step_left (leave_top at no_more) l = cc
  other_step_left (acquire q qs fetched at free) l = cc
  other_step_left (leave_pass q qs fetched at no_more) l = cc
  other_step_left (fetch q qs fetched link now at) l = cc
  other_step_left (end_pass fetched at) l = cc
  other_step_left (wake at) l = cc
  other_step_left (leave_wait at no_more) l = cc
  other_step_left (set_up at valid) l = refl
  other_step_left (abort at invalid) l = refl
  other_step_left (finish before rec after db at) l = refl
  other_step_left (elsewhere db) l = refl
  other_step_left cancel l = refl
  other_step_left (drain link a b d e) l = refl
  other_step_left (time_out link a b) l = refl

  dispatch_cancelled :
      (s : Pool R) (qs : List String) (fetched : Bool) (o : Option JobRecord) (db : Db R)
      → s.cancelled ≡ true
      → (dispatch R cfg s qs fetched o db).cancelled ≡ true
  dispatch_cancelled s qs fetched none db c = c
  dispatch_cancelled s qs fetched (some rec) db c = c

  step_cancelled : {s t : Pool R} → Step R cfg s t → s.cancelled ≡ true → t.cancelled ≡ true
  step_cancelled (set_up at valid) c = c
  step_cancelled (abort at invalid) c = refl
  step_cancelled (begin_pass at go) c = c
  step_cancelled (leave_top at no_more) c = c
  step_cancelled (acquire q qs fetched at free) c = c
  step_cancelled (leave_pass q qs fetched at no_more) c = c
  step_cancelled {s} (fetch q qs fetched link now at) c =
      dispatch_cancelled s qs fetched (job_of (dequeue R link q cfg.worker_id now s.db).0) _ c
  step_cancelled (end_pass fetched at) c = c
  step_cancelled (wake at) c = c
  step_cancelled (leave_wait at no_more) c = c
  step_cancelled (finish before rec after db at) c = c
  step_cancelled (elsewhere db) c = c
  step_cancelled cancel c = refl
  step_cancelled (drain link a b d e) c = c
  step_cancelled (time_out link a b) c = c

  Reach_cancelled : {s t : Pool R} → Reach R cfg s t → s.cancelled ≡ true → t.cancelled ≡ true
  Reach_cancelled here c = c
  Reach_cancelled (next r st) c = step_cancelled st (Reach_cancelled r c)

  abbrev pub loop_steps : {s t : Pool R} → Reach R cfg s t → ℕ
  loop_steps here = 0
  loop_steps (next r st) = if is_loop_step st then suc (loop_steps r) else loop_steps r

  Reach_left :
      {s t : Pool R} (r : Reach R cfg s t)
      → s.cancelled ≡ true
      → loop_steps r + steps_left t.poller ≤ steps_left s.poller
  Reach_left here c = omega arith
  Reach_left (next r st) c = elim (Bool-cases (is_loop_step st)) [
    | inl mine ↦
        rw mine (omega (arith, Reach_left r c, loop_step_left st (Reach_cancelled r c) mine))
    | inr other ↦ rw other (omega (arith, Reach_left r c, ap steps_left (other_step_left st other)))
  ]

  -- Whether the loop can take a step of its own.
  abbrev pub CanStep : Pool R → Type 0
  CanStep s = (t : Pool R) × (st : Step R cfg s t) × (is_loop_step st ≡ true)

  loop_moves :
      (s : Pool R) (p : Poller)
      → s.poller ≡ p
      → s.cancelled ≡ true
      → (s.poller ≡ returned) ⊎ CanStep s
  loop_moves s at_top at c = inr (_, leave_top at c, refl)
  loop_moves s (scanning [] fetched) at c = inr (_, end_pass fetched at, refl)
  loop_moves s (scanning (q ∷ qs) fetched) at c = inr (_, leave_pass q qs fetched at c, refl)
  loop_moves s (holding q qs fetched) at c = inr (_, fetch q qs fetched up (pos 0) at, refl)
  loop_moves s waiting at c = inr (_, wake at, refl)
  loop_moves s returned at c = inl at

  -- The poll loop ends after a cancellation, in either poll order: from any state with a cancelled
  -- context, whatever else happens in between, the loop takes at most two steps for each queue
  -- that is left in its pass and four more; and when it has not returned it can always take one.
  pub cancelled_loop_ends :
      {s t : Pool R} (r : Reach R cfg s t)
      → s.cancelled ≡ true
      → (loop_steps r ≤ steps_left s.poller) × ((t.poller ≡ returned) ⊎ CanStep t)
  cancelled_loop_ends {s} {t} r c =
      (omega (arith, Reach_left r c), loop_moves t t.poller refl (Reach_cancelled r c))

  IsQuiet : Pool R → Type 0
  IsQuiet s = s.phase ≡ drained → (s.poller ≡ returned) × (s.running ≡ [])

  dispatch-IsQuiet :
      (s : Pool R) (q : String) (qs : List String) (fetched : Bool) (o : Option JobRecord)
      (db : Db R)
      → s.poller ≡ holding q qs fetched
      → IsQuiet s
      → IsQuiet (dispatch R cfg s qs fetched o db)
  unfolding IsQuiet
  dispatch-IsQuiet s q qs fetched none db at h d = absurd (cc ((h d).0))
  dispatch-IsQuiet s q qs fetched (some rec) db at h d = absurd (cc ((h d).0))

  step-IsQuiet : {s t : Pool R} → Step R cfg s t → IsQuiet s → IsQuiet t
  unfolding IsQuiet
  step-IsQuiet (set_up at valid) h d = cc
  step-IsQuiet (abort at invalid) h d = cc
  step-IsQuiet (begin_pass at go) h d = absurd (cc ((h d).0))
  step-IsQuiet (leave_top at no_more) h d = (refl, (h d).1)
  step-IsQuiet (acquire q qs fetched at free) h d = absurd (cc ((h d).0))
  step-IsQuiet (leave_pass q qs fetched at no_more) h d = (refl, (h d).1)
  step-IsQuiet {s} (fetch q qs fetched link now at) h d =
      dispatch-IsQuiet s q qs fetched (job_of (dequeue R link q cfg.worker_id now s.db).0) _ at h d
  step-IsQuiet (end_pass fetched at) h d = absurd (cc ((h d).0))
  step-IsQuiet (wake at) h d = absurd (cc ((h d).0))
  step-IsQuiet (leave_wait at no_more) h d = (refl, (h d).1)
  step-IsQuiet (finish before rec after db at) h d =
      absurd (omega (arith, ap length at, ap length (h d).1, length-middle before rec after))
  step-IsQuiet (elsewhere db) h d = h d
  step-IsQuiet cancel h d = h d
  step-IsQuiet (drain link no_more busy gone none_left) h d = (gone, none_left)
  step-IsQuiet (time_out link no_more busy) h d = cc

  Reach-IsQuiet : {db : Db R} {s : Pool R} → Reach R cfg (start R cfg db) s → IsQuiet s
  unfolding IsQuiet
  Reach-IsQuiet here d = cc
  Reach-IsQuiet (next r st) d = step-IsQuiet st (Reach-IsQuiet r) d

  -- A graceful shutdown loses no job: when a server has deregistered its worker without a
  -- timeout, it runs no job, its loop has returned, and each job that it has fetched has been
  -- finished as often as it was fetched.
  pub drained_exact :
      {db : Db R} {s : Pool R} (id : String)
      → Reach R cfg (start R cfg db) s
      → s.phase ≡ drained
      → (s.running ≡ []) × (s.poller ≡ returned) × (runs_of id s.fetched ≡ runs_of id s.finished)
  unfolding IsQuiet
  drained_exact id r d =
      let (gone, none_left) = Reach-IsQuiet r d in
      let c = Reach-IsCounted R cfg r in
      (none_left, gone, omega (arith, c.each id, ap (runs_of id) none_left))
