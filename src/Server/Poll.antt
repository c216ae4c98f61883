-- ===== src/Server/Poll.antt =====
-- server.go, pollWeighted and pollStrict: one pass over the queues. The semaphore and the shutdown
-- of the loops are not modelled; `links` and `now` are those of the dequeues, in their order.
use winter.Base.{
  ℕ, suc, String, ℤ, Option, none, some, List, [], ◌∷◌, ◌≡◌, refl, ap, Option-cases, inl, inr,
  is_some, Bool-cases,
}
use winter.Redis.{Redis, Db}
use winter.Queue.Keys.{paused_key, ready_key}
use winter.Queue.Job.{JobRecord, parse_job_record_from_map}
use winter.Queue.Link.{Link, up, Result, ok, err}
use winter.Queue.Api.{dequeue}
use winter.Queue.Scripts.{dequeue_script, activate_popped}
use winter.Queue.Refine.Dequeue.{next_job, taken_hash, dequeue_result, dequeue_idle}

-- The job of a dequeue; an error is logged and the queue passed over.
abbrev pub job_of : Result (Option JobRecord) → Option JobRecord
job_of (ok o) = o
job_of (err e) = none

abbrev pub or_next : {A S : Type 0} → Option A → S → Option A × S → Option A × S
or_next none s rest = rest
or_next (some a) s rest = (some a, s)

abbrev pub and_next : {A S : Type 0} → Option A → List A × S → List A × S
and_next none rest = rest
and_next (some a) (l, s) = (a ∷ l, s)

module _ (R : Redis) (links : ℕ → Link) (now : ℕ → ℤ) (worker : String) where
  -- A pass of pollStrict stops at the first job.
  unfoldable pub strict_pass : ℕ → List String → Db R → Option JobRecord × Db R
  strict_pass i [] db = (none, db)
  strict_pass i (q ∷ qs) db =
      let (result, db') = dequeue R (links i) q worker (now i) db in
      let rest = strict_pass (suc i) qs db' in or_next (job_of result) db' rest

  -- A pass of pollWeighted dispatches a job of each queue that has one.
  unfoldable pub weighted_pass : ℕ → List String → Db R → List JobRecord × Db R
  weighted_pass i [] db = ([], db)
  weighted_pass i (q ∷ qs) db =
      let (result, db') = dequeue R (links i) q worker (now i) db in
      let rest = weighted_pass (suc i) qs db' in and_next (job_of result) rest

abbrev pub all_up : ℕ → Link
all_up i = up

module _ (R : Redis) (now : ℕ → ℤ) (worker : String) where
  abbrev pub choose : ℕ → Db R → Option (String × ℤ) → Option JobRecord → Option JobRecord
  choose i db none rest = rest
  choose i db (some (id, score)) rest =
      some (parse_job_record_from_map (taken_hash R db id (now i)))

  -- The first queue of a list from which a dequeue takes a job, and the record that it gives.
  abbrev pub first_ready : ℕ → List String → Db R → Option JobRecord
  first_ready i [] db = none
  first_ready i (q ∷ qs) db = choose i db (next_job R q db) (first_ready (suc i) qs db)

  idle_keeps :
      (q : String) (time : ℤ) (db : Db R)
      → next_job R q db ≡ none
      → (dequeue R up q worker time db).1 ≡ db
  unfolding dequeue dequeue_script next_job
  idle_keeps q time db e = elim (Bool-cases (is_some (R.get db.strings (paused_key q)))) [
    | inl paused ↦ rw paused refl
    | inr running ↦
        let popped : (R.zpopmin db.zsets (ready_key q)).0 ≡ none = rw running at e in
        rw (running, popped, activate_popped)
          (ap (λ z. record db { zsets = z }) (R.zpopmin-none db.zsets (ready_key q) popped).0)
  ]

  -- On working links, a pass in strict order takes a job from the first queue of the order that is
  -- not paused and has a ready job, if there is one, and no job else: no queue is looked at while one
  -- before it has a job to give.
  pub strict_takes_first :
      (i : ℕ) (qs : List String) (db : Db R)
      → (strict_pass R all_up now worker i qs db).0 ≡ first_ready i qs db
  unfolding strict_pass
  strict_takes_first i [] db = refl
  strict_takes_first i (q ∷ qs) db = elim (Option-cases (next_job R q db)) [
    | inl e ↦
        rw ((dequeue_idle R q worker (now i) db e).0, idle_keeps q (now i) db e, e)
          (strict_takes_first (suc i) qs db)
    | inr ((id, score), e) ↦ rw (dequeue_result R q worker (now i) db id score e, e) refl
  ]
