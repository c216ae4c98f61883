-- ===== src/Cron/Interleaved.antt =====
-- internal/scheduler/cron.go: the ticks of one entry by several servers at once. A tick is taken
-- apart into its commands, and the commands of different ticks follow one another in any order.
pub mod Orderly
pub mod Windows
use winter.Base.{
  String, ℤ, pos, ltb_ℤ, leb_ℤ, Bool, true, false, ◌&&◌, Option, none, some, List, [], ◌∷◌, ◌≡◌,
  ◌==◌, if◌then◌else◌,
}
use winter.Redis.{Redis, Db, Value}
use winter.Queue.Link.{Link, Result, ok, err}
use winter.Queue.Api.{enqueue}
use winter.Cron.{Entry, cron_key, cron_job, compare_and_swap, read_next_run}

-- How far a server's tick has come with the entry: it does not look at it; it has read the window
-- that is next; it has swapped the state and is about to enqueue the window's job.
pub data Stage : Type 0 where
  waiting : Stage
  seen : ℤ → Stage
  won : ℤ → Stage

-- A tick that has not swapped the state, or does not know it, goes on to the next entry.
abbrev pub after_swap : ℤ → Result Bool → Stage
after_swap window (ok true) = won window
after_swap window (ok false) = waiting
after_swap window (err e) = waiting

abbrev pub after_read : Option ℤ → Stage
after_read none = waiting
after_read (some window) = seen window

abbrev pub set_stage : String → Stage → (String → Stage) → String → Stage
set_stage server stage f k = if server == k then stage else f k

module _ (R : Redis) (decimal : ℤ → String) (e : Entry) where
  abbrev pub entry_state : Db R → Option Value
  entry_state db = R.hget db.hashes cron_key e.name

  -- The database, the stage of each server, and the windows that Enqueue has been called for, the
  -- latest first.
  pub record Ticks : Type 0 where
    pub db : Db R
    pub stage : String → Stage
    pub enqueued : List ℤ

  -- Any round trip may fail. The clock of a tick is read before its commands.
  pub data Step (s : Ticks) : Ticks → Type 0 where
    read :
        (server : String) (link : Link)
        → s.stage server ≡ waiting
        → Step s (record s {
          stage = set_stage server (after_read (read_next_run R decimal link e.name s.db)) s.stage;
        })
    early :
        (server : String) (window now : ℤ)
        → s.stage server ≡ seen window
        → ltb_ℤ now window ≡ true
        → Step s (record s { stage = set_stage server waiting s.stage })
    swap :
        (server : String) (link : Link) (window now : ℤ)
        → s.stage server ≡ seen window
        → ltb_ℤ now window ≡ false
        → Step s (record s {
          db = (compare_and_swap R decimal link e.name window (e.next_time now) s.db).1;
          stage =
              set_stage server
                (after_swap window
                  (compare_and_swap R decimal link e.name window (e.next_time now) s.db).0)
                s.stage;
        })
    put :
        (server : String) (link : Link) (window now : ℤ)
        → s.stage server ≡ won window
        → Step s (record {
          db = (enqueue R link (cron_job R decimal e window now) "" (pos 0) s.db).1;
          stage = set_stage server waiting s.stage;
          enqueued = window ∷ s.enqueued;
        })
    -- Anything else that leaves the entry's state alone, such as the ticks of other entries.
    elsewhere : (db : Db R) → entry_state db ≡ entry_state s.db → Step s (record s { db = db })

  pub data Reach (s : Ticks) : Ticks → Type 0 where
    here : Reach s s
    next : {t u : Ticks} → Reach s t → Step t u → Reach s u
