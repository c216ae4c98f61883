-- ===== src/Commands/Serving/Stranded.antt =====
-- cmd/server/main.go: a delayed job, while the standalone server is all that runs.
use winter.Base.{
  String, ℤ, pos, Bool, true, false, Option, none, some, ◌≡◌, ◌==◌, Bool-cases, inl, inr, ltb_ℤ,
}
use winter.Redis.{Redis, Db}
use winter.Queue.Link.{Link, up, refused, cut, Result, ok, err}
use winter.Cron.{
  Entry, cron_key, same_value, cron_job, tick_entry, due_entry, swapped_entry, compare_and_swap,
  compare_and_swap_script, read_next_run,
}
use winter.Server.Upkeep.{limit_of}
use winter.Settings.{Config}
use winter.Commands.Standalone.{main_recovery}
use winter.Commands.Serving.{Step, serves, polls, sweeps, ticks, Reach, here, next}
use winter.Commands.Serving.Waiting.{IsWaiting}
use winter.Commands.Serving.Calls.{
  enqueue-IsWaiting, dequeue-IsWaiting, recover-IsWaiting, handle-IsWaiting,
}

module _ (R : Redis) (digest : String → String) (decimal : ℤ → String) (parse : String → Option ℤ)
    (cfg : Config) (j : String) where
  script-IsWaiting :
      (q name : String) (expected new : ℤ) (db : Db R)
      → IsWaiting R q j db
      → IsWaiting R q j (compare_and_swap_script R decimal name expected new db).1
  unfolding compare_and_swap_script
  script-IsWaiting q name expected new db w =
      elim (Bool-cases (same_value R decimal (R.hget db.hashes cron_key name) expected)) [
        | inl same ↦ rw same (record { delayed = w.delayed; ready = w.ready; active = w.active })
        | inr other ↦ rw other w
      ]

  swap-IsWaiting :
      (q : String) (link : Link) (name : String) (expected new : ℤ) (db : Db R)
      → IsWaiting R q j db
      → IsWaiting R q j (compare_and_swap R decimal link name expected new db).1
  unfolding compare_and_swap
  swap-IsWaiting q up name expected new db w = script-IsWaiting q name expected new db w
  swap-IsWaiting q (refused e) name expected new db w = w
  swap-IsWaiting q (cut e) name expected new db w = script-IsWaiting q name expected new db w

  swapped-IsWaiting :
      (q : String) (link : Link) (e : Entry) (window now : ℤ) (r : Result Bool) (db : Db R)
      → ((cron_job R decimal e window now).id == j) ≡ false
      → IsWaiting R q j db
      → IsWaiting R q j (swapped_entry R decimal link e window now (r, db)).1
  unfolding swapped_entry
  swapped-IsWaiting q link e window now (ok true) db new w =
      enqueue-IsWaiting R q j link (cron_job R decimal e window now) "" (pos 0) db new w
  swapped-IsWaiting q link e window now (ok false) db new w = w
  swapped-IsWaiting q link e window now (err x) db new w = w

  due-IsWaiting :
      (q : String) (swap_link link : Link) (e : Entry) (now : ℤ) (o : Option ℤ) (db : Db R)
      → ((window : ℤ) → ((cron_job R decimal e window now).id == j) ≡ false)
      → IsWaiting R q j db
      → IsWaiting R q j (due_entry R decimal swap_link link e now o db).1
  unfolding due_entry
  due-IsWaiting q swap_link link e now none db new w = w
  due-IsWaiting q swap_link link e now (some window) db new w =
      elim (Bool-cases (ltb_ℤ now window)) [
        | inl early ↦ rw early w
        | inr due ↦ rw due (
            swapped-IsWaiting q link e window now
              (compare_and_swap R decimal swap_link e.name window (e.next_time now) db).0 _
              (new window) (swap-IsWaiting q swap_link e.name window (e.next_time now) db w))
      ]

  tick-IsWaiting :
      (q : String) (read_link swap_link link : Link) (now : ℤ) (e : Entry) (db : Db R)
      → ((window : ℤ) → ((cron_job R decimal e window now).id == j) ≡ false)
      → IsWaiting R q j db
      → IsWaiting R q j (tick_entry R decimal read_link swap_link link now e db).1
  unfolding tick_entry
  tick-IsWaiting q read_link swap_link link now e db =
      due-IsWaiting q swap_link link e now (read_next_run R decimal read_link e.name db) db

  step-IsWaiting :
      (q : String) {s t : Db R}
      → Step R digest decimal parse cfg j s t
      → IsWaiting R q j s
      → IsWaiting R q j t
  step-IsWaiting q (serves link id now req new) w =
      handle-IsWaiting R digest j q link id now req _ new w
  step-IsWaiting q (polls link queue worker now) w =
      dequeue-IsWaiting R q j link queue worker now _ w
  step-IsWaiting q (sweeps link queue now own) w =
      recover-IsWaiting R q j link queue (limit_of (main_recovery parse cfg).limit) now _ w
  step-IsWaiting q (ticks read_link swap_link link now e new) w =
      tick-IsWaiting q read_link swap_link link now e _ new w

  -- Nothing that the standalone server does makes a delayed job ready, whatever its clients ask for
  -- and whatever its recovery and its scheduler find, in any order and over any links: a job that
  -- waits in the delayed set of a queue, and is neither ready nor active there, waits for ever,
  -- however long its time has passed.
  pub delayed_waits_forever :
      (q : String) {s t : Db R}
      → IsWaiting R q j s
      → Reach R digest decimal parse cfg j s t
      → IsWaiting R q j t
  delayed_waits_forever q w here = w
  delayed_waits_forever q w (next r p) = step-IsWaiting q p (delayed_waits_forever q w r)
