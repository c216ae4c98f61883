-- ===== src/Client/Laws.antt =====
-- client.go: the queue and the unique key of the jobs that a client enqueues.
use text.Mathlib.TextLemmas.{append-eq-nil_iff}
use winter.Base.{
  String, ◌<>◌, ℤ, pos, ltb_ℤ, ◌≤ℤ◌, true, false, Option, some, [], ◌∷◌, ◌==◌, eq_iff, eq_false,
  ◌≡◌, refl, ap, arith,
}
use winter.Redis.{Redis, Db}
use winter.Queue.Link.{up, err, duplicate}
use winter.Queue.Refine.Enqueue.{enqueue_unique}
use winter.Client.{
  Task, TaskOptions, InsertOpts, to_queue, new_job, enqueue_opts, batch_job, apply_settings,
  apply_setting, default_opts, returned_job, enqueue_payload,
}

key_not_empty : (kind digits : String) → (kind <> (":" <> digits) == "") ≡ false
key_not_empty kind digits = eq_false (kind <> (":" <> digits)) "" (λ h. ground (
  arith,
  eq_iff ":" "",
  (append-eq-nil_iff {p = ":"} {q = digits}).0
      ((append-eq-nil_iff {p = kind} {q = ":" <> digits}).0 h).1,
))

positive : (period : ℤ) → pos 1_000_000_000 ≤ℤ period → ltb_ℤ (pos 0) period ≡ true
positive period h = ground (arith, h)

-- With the caller's setting of a queue, Enqueue uses that queue; EnqueueMany with the same setting
-- uses the queue of the task's own options, if they name one.
pub batch_ignores_queue :
    (id name payload : String) (now : ℤ) (task : Task) (t : TaskOptions)
    → task.options ≡ some t
    → (t.queue == "") ≡ false
    → ((enqueue_opts task (to_queue name ∷ [])).queue ≡ name)
      × ((batch_job id now
            (apply_settings (to_queue name ∷ []) (default_opts "default"))
            task
            payload).queue
          ≡ t.queue)
unfolding apply_settings apply_setting new_job
batch_ignores_queue id name payload now task t e named = (refl, rw (e, named) refl)

module _ (R : Redis) (digest : String → String) where
  -- Two Enqueues of tasks of one kind and one JSON, with unique periods of a second or more, on a
  -- working link: the second one, right after the first, returns the duplicate error, whatever the
  -- queues and priorities that its other settings name.
  pub client_unique :
      (id id' kind payload : String) (now now' period : ℤ) (o o' : InsertOpts)
      (options options' : Option TaskOptions) (db : Db R)
      → pos 1_000_000_000 ≤ℤ period
      → o.unique_period ≡ period
      → o'.unique_period ≡ period
      → (enqueue_payload R digest up id' now'
          (record { kind = kind; payload = some payload; options = options' })
          o'
          (some payload)
          (enqueue_payload R digest up id now
            (record { kind = kind; payload = some payload; options = options })
            o
            (some payload)
            db).1).0
        ≡ err duplicate
  unfolding new_job
  client_unique id id' kind payload now now' period o o' options options' db h e e' =
      rw (e, e', positive period h)
        (ap (returned_job R digest _) (
          enqueue_unique R
            (new_job id now (record { kind = kind; payload = some payload; options = options })
              payload o.queue o)
            (new_job id' now' (record { kind = kind; payload = some payload; options = options' })
              payload o'.queue o')
            (kind <> (":" <> digest payload)) period db (key_not_empty kind (digest payload)) h))
