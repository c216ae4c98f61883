-- ===== src/Queue/Refine/Dequeue.antt =====
-- internal/queue/queue.go, Dequeue: which job it takes, and what becomes of it.
use winter.Base.{
  String, ℤ, ◌≤ℤ◌, ◌≡◌, ◌⊎◌, inl, inr, refl, ap, fun_ext, ◌∙◌, true, false, Option, none, some,
  List, [], ◌∷◌, arith, ◌==◌, if◌then◌else◌, is_some, Bool-cases,
}
use winter.Redis.{Redis, Db, Value, text, num, to_map}
use winter.Queue.Keys.{
  ready_key, lease_key, active_key, job_key, paused_key, worker_jobs_key, key_laws,
}
use winter.Queue.Job.{JobRecord, parse_job_record, parse_job_record_from_map}
use winter.Queue.Link.{Link, up, refused, cut, reached, ok, Result}
use winter.Queue.Scripts.{dequeue_script, hset_all, activate, activate_popped}
use winter.Queue.View.{JobView, Shows, override, hget-hset_all}
use winter.Queue.Transitions.{activated}
use winter.Queue.Api.{dequeue, found_job, first_job, lease_duration}

module _ (R : Redis) where
  open R use {
    get, zpopmin, zscore, zscore-zadd, zscore-zrem, zpopmin-none, zpopmin-some, sismember-sadd,
    hgetall, hgetall-map,
  }

  -- The job that a Dequeue takes: none while the queue is paused.
  unfoldable pub next_job : String → Db R → Option (String × ℤ)
  next_job q db =
      if is_some (get db.strings (paused_key q)) then none else (zpopmin db.zsets (ready_key q)).0

  activate-Shows :
      (q id worker : String) (now : ℤ) (score : ℤ) (db : Db R) (j : String) (v : JobView)
      → (zpopmin db.zsets (ready_key q)).0 ≡ some (id, score)
      → Shows R q db j v
      → Shows R q
          (activate R
            (active_key q)
            (worker_jobs_key worker)
            (lease_key q)
            now
            lease_duration
            id
            (record db { zsets = (zpopmin db.zsets (ready_key q)).1 })).1
          j
          (if id == j then activated now lease_duration v else v)
  unfolding activate
  activate-Shows q id worker now score db j v e s =
      let popped = zpopmin-some db.zsets (ready_key q) id score e in
      record {
        ready = simp (zscore-zadd, popped.0, zscore-zrem, key_laws) (ground arith);
        delayed = simp (zscore-zadd, popped.0, zscore-zrem, key_laws) (ground arith);
        lease = simp (zscore-zadd, popped.0, zscore-zrem, key_laws) (ground arith);
        active = simp (sismember-sadd, key_laws) (ground arith);
        dead = ground arith;
        hash = λ f. simp (hget-hset_all R, key_laws) (ground (arith, s.hash f));
      }

  -- How a Dequeue that takes `taken` changes the view of job `j`.
  abbrev pub dequeued : Option (String × ℤ) → ℤ → String → JobView → JobView
  dequeued none now j v = v
  dequeued (some (id, score)) now j v = if id == j then activated now lease_duration v else v

  dequeue_script-Shows :
      (q worker : String) (now : ℤ) (db : Db R) (j : String) (v : JobView)
      → Shows R q db j v
      → Shows R q
          (dequeue_script R
            (ready_key q)
            (active_key q)
            (paused_key q)
            (worker_jobs_key worker)
            (lease_key q)
            now
            lease_duration
            db).1
          j
          (dequeued (next_job q db) now j v)
  unfolding dequeue_script next_job
  dequeue_script-Shows q worker now db j v s =
      elim (Bool-cases (is_some (get db.strings (paused_key q)))) [
        | inl paused ↦ rw paused s
        | inr running ↦ rw running (popped_cases (zpopmin db.zsets (ready_key q)).0 refl)
      ]
    where
      popped_cases :
          (o : Option (String × ℤ))
          → (zpopmin db.zsets (ready_key q)).0 ≡ o
          → Shows R q
              (activate_popped R
                (zpopmin db.zsets (ready_key q)).0
                (active_key q)
                (worker_jobs_key worker)
                (lease_key q)
                now
                lease_duration
                (record db { zsets = (zpopmin db.zsets (ready_key q)).1 })).1
              j
              (dequeued (zpopmin db.zsets (ready_key q)).0 now j v)
      popped_cases none e =
          rw (e, activate_popped)
            (let same = (zpopmin-none db.zsets (ready_key q) e).0 in
              record {
                ready = rw same s.ready;
                delayed = rw same s.delayed;
                lease = rw same s.lease;
                active = s.active;
                dead = s.dead;
                hash = s.hash;
              })
      popped_cases (some (id, score)) e =
          rw (e, activate_popped) (activate-Shows q id worker now score db j v e s)

  -- If the request reaches the server and the queue is neither paused nor without a ready job, the
  -- job that is taken leaves the ready set, becomes active under a lease of 30 seconds from now,
  -- and has its state and its start written in its hash. The places and hashes of the queue's
  -- other jobs do not change, and none changes if no job is taken.
  pub dequeue-Shows :
      (link : Link) (q worker : String) (now : ℤ) (db : Db R) (j : String) (v : JobView)
      → Shows R q db j v
      → Shows R q
          (dequeue R link q worker now db).1
          j
          (if reached link then dequeued (next_job q db) now j v else v)
  unfolding dequeue
  dequeue-Shows up q worker now db j v s = dequeue_script-Shows q worker now db j v s
  dequeue-Shows (refused e) q worker now db j v s = s
  dequeue-Shows (cut e) q worker now db j v s = dequeue_script-Shows q worker now db j v s

  -- The hash of a job that has just been taken.
  abbrev pub taken_hash : Db R → String → ℤ → String → Option Value
  taken_hash db id now =
      override (("state", text "active") ∷ ("started_at", num now) ∷ [])
        (λ f. R.hget db.hashes (job_key id) f)

  pub found_job-map :
      (vals : List (String × Value)) (m : String → Option Value) (w : Value)
      → ((f : String) → to_map vals f ≡ m f)
      → m "state" ≡ some w
      → found_job vals ≡ some (parse_job_record_from_map m)
  unfolding to_map parse_job_record
  found_job-map [] m w h e = cc (h "state")
  found_job-map (p ∷ vals) m w h e =
      ap (λ (n : String → Option Value). some (parse_job_record_from_map n)) (fun_ext h)

  pub taken :
      (q : String) (db : Db R) (id : String) (score : ℤ)
      → next_job q db ≡ some (id, score)
      → (is_some (get db.strings (paused_key q)) ≡ false)
        × ((zpopmin db.zsets (ready_key q)).0 ≡ some (id, score))
  unfolding next_job
  taken q db id score e = ground arith

  dequeue_reply :
      (q worker : String) (now : ℤ) (db : Db R) (id : String) (score : ℤ)
      → next_job q db ≡ some (id, score)
      → (dequeue_script R
          (ready_key q)
          (active_key q)
          (paused_key q)
          (worker_jobs_key worker)
          (lease_key q)
          now
          lease_duration
          db).0
        ≡ some (
            hgetall
              (hset_all R
                (job_key id)
                (("state", text "active") ∷ ("started_at", num now) ∷ [])
                db.hashes)
              (job_key id))
  unfolding dequeue_script next_job
  dequeue_reply q worker now db id score e =
      let (running, popped) = taken q db id score e in rw (running, popped, activate_popped)

  taken_hash_lem :
      (db : Db R) (id : String) (now : ℤ) (f : String)
      → to_map
          (hgetall
            (hset_all R
              (job_key id)
              (("state", text "active") ∷ ("started_at", num now) ∷ [])
              db.hashes)
            (job_key id))
          f
        ≡ taken_hash db id now f
  taken_hash_lem db id now f = simp (hgetall-map, hget-hset_all R, key_laws)

  pub dequeue_result :
      (q worker : String) (now : ℤ) (db : Db R) (id : String) (score : ℤ)
      → next_job q db ≡ some (id, score)
      → (dequeue R up q worker now db).0
        ≡ ok (some (parse_job_record_from_map (taken_hash db id now)))
  unfolding dequeue to_map
  dequeue_result q worker now db id score e =
      ap (λ o. ok (first_job o)) (dequeue_reply q worker now db id score e)
      ∙ ap ok (found_job-map _ _ (text "active") (taken_hash_lem db id now) refl)

  -- What is known of the job that a Dequeue takes.
  pub taken_job :
      (q : String) (db : Db R) (id : String) (score : ℤ)
      → next_job q db ≡ some (id, score)
      → (is_some (get db.strings (paused_key q)) ≡ false)
        × (zscore db.zsets (ready_key q) id ≡ some score)
        × ((n : String) (t : ℤ) → zscore db.zsets (ready_key q) n ≡ some t → score ≤ℤ t)
  taken_job q db id score e =
      let (running, popped) = taken q db id score e in
      let least = zpopmin-some db.zsets (ready_key q) id score popped in (running, least.1, least.2)

  -- On a working link, if a Dequeue takes no job, the caller gets none and the queue is paused or
  -- has no ready job.
  pub dequeue_idle :
      (q worker : String) (now : ℤ) (db : Db R)
      → next_job q db ≡ none
      → ((dequeue R up q worker now db).0 ≡ ok none)
        × ((is_some (get db.strings (paused_key q)) ≡ true)
            ⊎ ((m : String) → zscore db.zsets (ready_key q) m ≡ none))
  unfolding dequeue dequeue_script next_job
  dequeue_idle q worker now db e = elim (Bool-cases (is_some (get db.strings (paused_key q)))) [
    | inl paused ↦ (rw paused, inl paused)
    | inr running ↦
        let popped : (zpopmin db.zsets (ready_key q)).0 ≡ none = rw running at e in
        (rw (running, popped, activate_popped), inr (zpopmin-none db.zsets (ready_key q) popped).1)
  ]

  -- The job whose record a Dequeue returns.
  pub record IsTaken (q : String) (now : ℤ) (db : Db R) (rec : JobRecord) : Type 0 where
    pub id : String
    pub score : ℤ
    pub was_ready : zscore db.zsets (ready_key q) id ≡ some score
    pub least : (n : String) (t : ℤ) → zscore db.zsets (ready_key q) n ≡ some t → score ≤ℤ t
    pub job : rec ≡ parse_job_record_from_map (taken_hash db id now)

  reply_inj :
      (r s : Result (Option JobRecord)) (a b : JobRecord)
      → r ≡ ok (some a)
      → s ≡ ok (some b)
      → r ≡ s
      → b ≡ a
  reply_inj r s a b p q h = cc (p, q, h)

  -- If the caller of a Dequeue on a working link gets a job's record, then the queue was not paused,
  -- and there is a job that was ready at a score that no ready job's score was below, whose hash,
  -- with its state set to active and its start to the present, is what the record was parsed from.
  pub dequeue_takes_least :
      (q worker : String) (now : ℤ) (db : Db R) (rec : JobRecord)
      → (dequeue R up q worker now db).0 ≡ ok (some rec)
      → (is_some (get db.strings (paused_key q)) ≡ false) × IsTaken q now db rec
  dequeue_takes_least q worker now db rec e = from_next (next_job q db) refl
    where
      from_next :
          (o : Option (String × ℤ))
          → next_job q db ≡ o
          → (is_some (get db.strings (paused_key q)) ≡ false) × IsTaken q now db rec
      from_next none h = absurd (cc (e, (dequeue_idle q worker now db h).0))
      from_next (some (id, score)) h =
          let (running, was, least) = taken_job q db id score h in
          (
            running,
            record {
              id = id;
              score = score;
              was_ready = was;
              least = least;
              job = reply_inj _ _ _ _ (dequeue_result q worker now db id score h) e refl;
            },
          )
