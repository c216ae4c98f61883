-- ===== src/Commands/Serving.antt =====
-- cmd/server/main.go: what the standalone gRPC server does to the database while it runs, as steps
-- in any order: the handlers of the service, one poll of a Dequeue, one queue of a sweep of the
-- recovery loop, and the tick of one cron entry. The program starts nothing else.
pub mod Waiting
pub mod Calls
pub mod Stranded
use winter.Base.{ℕ, String, ℤ, true, false, List, Option, ◌≡◌, ◌==◌}
use winter.Redis.{Redis, Db, elem}
use winter.Queue.Link.{Link}
use winter.Queue.Api.{dequeue, recover_expired_leases_at}
use winter.Cron.{Entry, cron_job, tick_entry}
use winter.Grpc.{Request, handle}
use winter.Server.Upkeep.{limit_of}
use winter.Settings.{Config}
use winter.Commands.Standalone.{main_recovery}

module _ (R : Redis) (digest : String → String) (decimal : ℤ → String) (parse : String → Option ℤ)
    (cfg : Config) (j : String) where
  -- The job `j` exists: neither uuid.New nor a window of an entry gives its id to a new job.
  pub data Step (s : Db R) : Db R → Type 0 where
    serves :
        (link : Link) (id : String) (now : ℤ) (req : Request)
        → (id == j) ≡ false
        → Step s (handle R digest link id now req s).1
    polls :
        (link : Link) (queue worker : String) (now : ℤ)
        → Step s (dequeue R link queue worker now s).1
    sweeps :
        (link : Link) (queue : String) (now : ℤ)
        → elem queue (main_recovery parse cfg).queues ≡ true
        → Step s
            (recover_expired_leases_at R link queue
              (limit_of (main_recovery parse cfg).limit)
              now
              s).1
    ticks :
        (read_link swap_link link : Link) (now : ℤ) (e : Entry)
        → ((window : ℤ) → ((cron_job R decimal e window now).id == j) ≡ false)
        → Step s (tick_entry R decimal read_link swap_link link now e s).1

  pub data Reach (s : Db R) : Db R → Type 0 where
    here : Reach s s
    next : {t u : Db R} → Reach s t → Step t u → Reach s u
