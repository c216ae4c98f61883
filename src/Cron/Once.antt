-- ===== src/Cron/Once.antt =====
-- internal/scheduler/cron.go: two ticks of one entry, and a tick whose Enqueue fails.
use winter.Base.{
  String, ℤ, ◌<ℤ◌, ◌≤ℤ◌, pos, ltb_ℤ, true, false, Option, some, ◌≡◌, refl, ◌∙◌, arith, ◌==◌,
  eq_refl, prefix_apart, Bool-cases, inl, inr,
}
use winter.Redis.{Redis, Db, Value, num}
use winter.Queue.Link.{Link, up, refused, cut}
use winter.Queue.Keys.{job_key, stats_key}
use winter.Queue.Api.{enqueue, enqueue_keys}
use winter.Queue.Scripts.{enqueue_script, insert_job}
use winter.Queue.Job.{JobRecord}
use winter.Queue.View.{hget-hset_all}
use winter.Cron.{
  Entry, cron_key, due_entry, compare_and_swap, compare_and_swap_script, swapped_entry, cron_job,
  same_value,
}

job-cron : (id : String) → (job_key id == cron_key) ≡ false
unfolding job_key
job-cron id = prefix_apart "winter:j" "winter:c" "ob:" "ron" id "" refl refl

stats-cron : (q : String) → (stats_key q == cron_key) ≡ false
unfolding stats_key
stats-cron q = prefix_apart "winter:s" "winter:c" "tats:" "ron" q "" refl refl

module _ (R : Redis) (decimal : ℤ → String) where
  abbrev pub stored : String → Db R → Option Value
  stored name db = R.hget db.hashes cron_key name

  other_value :
      (o : Option Value) (z w : ℤ) → o ≡ some (num w) → z <ℤ w → same_value R decimal o z ≡ false
  other_value o z w e h = rw e (ground (arith, h))

  equal_value : (o : Option Value) (z : ℤ) → o ≡ some (num z) → same_value R decimal o z ≡ true
  equal_value o z e = rw e (ground arith)

  -- A swap that does not find the expected time does nothing.
  stale_entry :
      (link : Link) (e : Entry) (now next_run later : ℤ) (db : Db R)
      → stored e.name db ≡ some (num later)
      → next_run <ℤ later
      → due_entry R decimal up link e now (some next_run) db ≡ (false, db)
  unfolding due_entry compare_and_swap compare_and_swap_script swapped_entry
  stale_entry link e now next_run later db at h = elim (Bool-cases (ltb_ℤ now next_run)) [
    | inl early ↦ rw early refl
    | inr due ↦ rw (due, other_value (stored e.name db) next_run later at h) refl
  ]

  pub enqueue-cron :
      (link : Link) (job : JobRecord) (name : String) (db : Db R)
      → stored name (enqueue R link job "" (pos 0) db).1 ≡ stored name db
  unfolding enqueue enqueue_script insert_job enqueue_keys
  enqueue-cron up job name db =
      simp (hget-hset_all R, R.hget-hincrby, job-cron job.id, stats-cron job.queue) refl
  enqueue-cron (refused x) job name db = refl
  enqueue-cron (cut x) job name db =
      simp (hget-hset_all R, R.hget-hincrby, job-cron job.id, stats-cron job.queue) refl

  -- A tick that finds its entry due and swaps the state leaves the next time after its own.
  swapped :
      (link : Link) (e : Entry) (now next_run : ℤ) (db : Db R)
      → stored e.name db ≡ some (num next_run)
      → next_run ≤ℤ now
      → ((due_entry R decimal up link e now (some next_run) db).0 ≡ true)
        × (stored e.name (due_entry R decimal up link e now (some next_run) db).1
            ≡ some (num (e.next_time now)))
  unfolding due_entry compare_and_swap compare_and_swap_script swapped_entry
  swapped link e now next_run db at due =
      rw (late now next_run due, equal_value (stored e.name db) next_run at)
        (
          refl,
          enqueue-cron link (cron_job R decimal e next_run now) e.name _
              ∙ simp (R.hget-hset, eq_refl) refl,
        )
    where
      late : (a b : ℤ) → b ≤ℤ a → ltb_ℤ a b ≡ false
      late a b h = ground arith

  -- Two servers read the same time of an entry, for a schedule whose next time is always later. If
  -- the entry is due for the first of them, that one swaps the state and calls Enqueue for its job,
  -- and the tick of the second neither calls Enqueue nor changes anything, whatever its clock says.
  pub window_once :
      (link link' : Link) (e : Entry) (now now' next_run : ℤ) (db : Db R)
      → ((t : ℤ) → t <ℤ e.next_time t)
      → stored e.name db ≡ some (num next_run)
      → next_run ≤ℤ now
      → ((due_entry R decimal up link e now (some next_run) db).0 ≡ true)
        × (due_entry R decimal up link' e now'
              (some next_run)
              (due_entry R decimal up link e now (some next_run) db).1
            ≡ (false, (due_entry R decimal up link e now (some next_run) db).1))
  window_once link link' e now now' next_run db later at due =
      let (first, kept) = swapped link e now next_run db at due in
      (
        first,
        stale_entry link' e now' next_run (e.next_time now) _ kept (omega (arith, due, later now)),
      )

  -- If the network refuses the Enqueue of a due entry after the swap, no job is enqueued, and the
  -- entry waits for the time after: nothing of the database has changed but the entry's state, so
  -- that the job of this window is lost.
  pub window_lost :
      (x : String) (e : Entry) (now next_run : ℤ) (db : Db R)
      → stored e.name db ≡ some (num next_run)
      → next_run ≤ℤ now
      → due_entry R decimal up (refused x) e now (some next_run) db
        ≡ (true, record db { hashes = R.hset cron_key e.name (num (e.next_time now)) db.hashes })
  unfolding due_entry compare_and_swap compare_and_swap_script swapped_entry enqueue
  window_lost x e now next_run db at due =
      rw (late now next_run due, equal_value (stored e.name db) next_run at) refl
    where
      late : (a b : ℤ) → b ≤ℤ a → ltb_ℤ a b ≡ false
      late a b h = ground arith
