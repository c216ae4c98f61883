-- ===== src/Queue/Transitions.antt =====
-- What each command means for the view of the job that it names.
use winter.Base.{
  String, ℤ, pos, ◌+ℤ◌, ltb_ℤ, leb_ℤ, Bool, true, false, none, some, [], ◌∷◌, ◌-◌, ◌||◌, suc,
  if◌then◌else◌, or_else, is_some, nat_eq,
}
use winter.Redis.{text, num}
use winter.Queue.Scripts.{EnqueueArgs, job_fields, to_number}
use winter.Queue.View.{JobView, override}

-- The priority at which a job goes back to the ready set.
abbrev pub view_priority : JobView → ℤ
view_priority v = or_else (to_number (v.hash "priority")) (pos 5)

abbrev pub view_attempt : JobView → ℤ
view_attempt v = or_else (to_number (v.hash "attempt")) (pos 0)

abbrev pub enqueued : EnqueueArgs → String → JobView → JobView
enqueued a unique v = record v {
  hash = override (job_fields a unique) v.hash;
  delayed = if ltb_ℤ (pos 0) a.scheduled_at then some a.scheduled_at else v.delayed;
  ready = if ltb_ℤ (pos 0) a.scheduled_at then v.ready else some a.priority;
}

abbrev pub activated : ℤ → ℤ → JobView → JobView
activated now duration v = record v {
  ready = none;
  active = true;
  lease = some (now +ℤ duration);
  hash = override (("state", text "active") ∷ ("started_at", num now) ∷ []) v.hash;
}

abbrev pub released : JobView → JobView
released v = record v { active = false; lease = none }

abbrev pub completed : ℤ → JobView → JobView
completed now v = record (released v) {
  hash = override (("state", text "completed") ∷ ("completed_at", num now) ∷ []) v.hash;
}

abbrev pub cancelled : ℤ → String → JobView → JobView
cancelled now reason v = record (released v) {
  hash =
      override
        (("state", text "cancelled") ∷ ("completed_at", num now) ∷ ("last_error", text reason) ∷ [])
        v.hash;
}

abbrev pub rescheduled : ℤ → JobView → JobView
rescheduled time v = record (released v) {
  delayed = some time;
  hash =
      override
        (("state", text "pending") ∷ ("scheduled_at", num time) ∷ ("started_at", num (pos 0)) ∷ [])
        v.hash;
}

-- A failure of attempt number `attempt` + 1, before its verdict.
abbrev pub failed : String → ℤ → JobView → JobView
failed message attempt v = record (released v) {
  hash = override (("attempt", num (attempt +ℤ pos 1)) ∷ ("last_error", text message) ∷ []) v.hash;
}

abbrev pub buried : JobView → JobView
buried v = record v { dead = suc v.dead; hash = override (("state", text "dead") ∷ []) v.hash }

abbrev pub put_off : ℤ → JobView → JobView
put_off time v = record v {
  delayed = some time;
  hash = override (("state", text "retry") ∷ []) v.hash;
}

-- Whether a failure is the last one.
abbrev pub is_final : Bool → ℤ → ℤ → Bool
is_final skip attempt max_retries = skip || leb_ℤ max_retries (attempt +ℤ pos 1)

abbrev pub nacked : Bool → String → ℤ → ℤ → ℤ → JobView → JobView
nacked skip message attempt max_retries next_run v =
    if is_final skip attempt max_retries
    then buried (failed message attempt v)
    else put_off next_run (failed message attempt v)

abbrev pub extended : ℤ → JobView → JobView
extended expiry v = record v { lease = if is_some v.lease then some expiry else none }

-- A job whose lease has run out. One that is no longer active only loses the lease.
abbrev pub recovered : JobView → JobView
recovered v =
    if v.active
    then (record (released v) {
      ready = some (view_priority v);
      hash = override (("state", text "pending") ∷ ("started_at", num (pos 0)) ∷ []) v.hash;
    })
    else (record v { lease = none })

abbrev pub promoted : JobView → JobView
promoted v = record v {
  delayed = none;
  ready = some (view_priority v);
  hash = override (("state", text "pending") ∷ []) v.hash;
}

-- A dead job gets all its attempts again.
abbrev pub revived : JobView → JobView
revived v = if nat_eq v.dead 0 then v else (record v {
  dead = v.dead - 1;
  ready = some (view_priority v);
  hash =
      override
        (("state", text "pending")
          ∷ ("attempt", num (pos 0))
          ∷ ("last_error", text "")
          ∷ ("completed_at", num (pos 0))
          ∷ ("started_at", num (pos 0))
          ∷ [])
        v.hash;
})

abbrev pub purged : JobView → JobView
purged v = if nat_eq v.dead 0 then v else (record v { dead = 0; hash = λ f. none })
