-- ===== src/Server/Pool.antt =====
-- server.go: Start, Stop, pollWeighted and pollStrict with their semaphore, as steps of a system
-- whose jobs run beside the poll loop. A step may change the database at will, for what handlers,
-- the other loops and other servers do meanwhile; Server/Process has what processJob does.
pub mod Bound
pub mod Shutdown
use winter.Base.{
  ℕ, suc, ◌-◌, ◌<◌, String, ℤ, pos_part, ◌≡◌, Bool, true, false, none, some, Option, List, [], ◌∷◌,
  ◌++◌, if◌then◌else◌, is_some,
}
use winter.Redis.{Redis, Db}
use winter.Queue.Job.{JobRecord}
use winter.Queue.Link.{Link, Result, ok, err}
use winter.Queue.Api.{dequeue, heartbeat, deregister_worker}
use winter.Server.Config.{ServerConfig, build_weighted_queues, build_strict_queues}
use winter.Cron.{Entry}
use winter.Server.Poll.{job_of}

-- Where the poll loop stands: at its top; before or after taking a place of the semaphore for a
-- queue, with the rest of the pass and whether the pass has fetched a job; in the wait after a pass
-- without a job; returned.
pub data Poller : Type 0 where
  at_top : Poller
  scanning : List String → Bool → Poller
  holding : String → List String → Bool → Poller
  waiting : Poller
  returned : Poller

-- Start has begun its loops and sets up the scheduler; it serves; it has returned the error of the
-- setup; or it has deregistered the worker, after all jobs or after the timeout.
pub data Phase : Type 0 where
  starting serving aborted drained forced : Phase

pub record Pool (R : Redis) : Type 0 where
  pub db : Db R
  pub poller : Poller
  pub sem : ℕ
  pub running : List JobRecord
  pub fetched : List JobRecord
  pub finished : List JobRecord
  pub cancelled : Bool
  pub phase : Phase

pub record PoolConfig : Type 0 where
  pub concurrency : ℕ
  pub queue_names : List String
  pub strict : Bool
  pub worker_id : String
  pub cron_valid : Bool

-- What Start takes from the configuration that newServer keeps, and from NewCron.
unfoldable pub pool_config : String → Option (List Entry) → ServerConfig → PoolConfig
unfolding build_weighted_queues build_strict_queues
pool_config worker_id cron cfg = record {
  concurrency = pos_part cfg.concurrency;
  queue_names =
      if cfg.strict_priority
      then build_strict_queues cfg.queues
      else build_weighted_queues cfg.queues;
  strict = cfg.strict_priority;
  worker_id = worker_id;
  cron_valid = is_some cron;
}

-- After a job: pollStrict breaks off its pass, and pollWeighted goes on with it.
abbrev pub after_job : Bool → List String → Poller
after_job true qs = at_top
after_job false qs = scanning qs true

-- After a pass: the next one at once if it has fetched a job.
abbrev pub after_pass : Bool → Poller
after_pass true = at_top
after_pass false = waiting

module _ (R : Redis) (cfg : PoolConfig) where
  abbrev pub start : Db R → Pool R
  start db = record {
    db = db;
    poller = at_top;
    sem = 0;
    running = [];
    fetched = [];
    finished = [];
    cancelled = false;
    phase = starting;
  }

  -- Start, with its first heartbeat.
  abbrev pub boot : Link → ℤ → Db R → Pool R
  boot link now db = start (heartbeat R link cfg.worker_id now db).1

  -- What the loop makes of a Dequeue: without a job it gives the place back, and with one a
  -- goroutine runs the job and keeps the place.
  abbrev pub dispatch : Pool R → List String → Bool → Option JobRecord → Db R → Pool R
  dispatch s qs fetched none db = record s {
    db = db;
    poller = scanning qs fetched;
    sem = s.sem - 1;
  }
  dispatch s qs fetched (some rec) db = record s {
    db = db;
    poller = after_job cfg.strict qs;
    running = rec ∷ s.running;
    fetched = rec ∷ s.fetched;
  }

  pub data Step (s : Pool R) : Pool R → Type 0 where
    -- The setup of the scheduler, while the loops run already.
    set_up : s.phase ≡ starting → cfg.cron_valid ≡ true → Step s (record s { phase = serving })
    abort :
        s.phase ≡ starting
        → cfg.cron_valid ≡ false
        → Step s (record s { phase = aborted; cancelled = true })
    -- The select at the top of the loop, which looks at the context alone.
    begin_pass :
        s.poller ≡ at_top
        → s.cancelled ≡ false
        → Step s (record s { poller = scanning cfg.queue_names false })
    leave_top : s.poller ≡ at_top → s.cancelled ≡ true → Step s (record s { poller = returned })
    -- The select before a Dequeue: either case may be taken if both are ready.
    acquire :
        (q : String) (qs : List String) (fetched : Bool)
        → s.poller ≡ scanning (q ∷ qs) fetched
        → s.sem < cfg.concurrency
        → Step s (record s { poller = holding q qs fetched; sem = suc s.sem })
    leave_pass :
        (q : String) (qs : List String) (fetched : Bool)
        → s.poller ≡ scanning (q ∷ qs) fetched
        → s.cancelled ≡ true
        → Step s (record s { poller = returned })
    fetch :
        (q : String) (qs : List String) (fetched : Bool) (link : Link) (now : ℤ)
        → s.poller ≡ holding q qs fetched
        → Step s (
            dispatch s qs fetched
              (job_of (dequeue R link q cfg.worker_id now s.db).0)
              (dequeue R link q cfg.worker_id now s.db).1)
    end_pass :
        (fetched : Bool)
        → s.poller ≡ scanning [] fetched
        → Step s (record s { poller = after_pass fetched })
    wake : s.poller ≡ waiting → Step s (record s { poller = at_top })
    leave_wait : s.poller ≡ waiting → s.cancelled ≡ true → Step s (record s { poller = returned })
    -- A job's goroutine ends, and gives its place back.
    finish :
        (before : List JobRecord) (rec : JobRecord) (after : List JobRecord) (db : Db R)
        → s.running ≡ before ++ (rec ∷ after)
        → Step s (record s {
          db = db;
          running = before ++ after;
          finished = rec ∷ s.finished;
          sem = s.sem - 1;
        })
    elsewhere : (db : Db R) → Step s (record s { db = db })
    -- A signal, or Stop.
    cancel : Step s (record s { cancelled = true })
    -- The wait for all goroutines, or the timeout; then the worker is deregistered.
    drain :
        (link : Link)
        → s.cancelled ≡ true
        → s.phase ≡ serving
        → s.poller ≡ returned
        → s.running ≡ []
        → Step s
            (record s { db = (deregister_worker R link cfg.worker_id s.db).1; phase = drained })
    time_out :
        (link : Link)
        → s.cancelled ≡ true
        → s.phase ≡ serving
        → Step s (record s { db = (deregister_worker R link cfg.worker_id s.db).1; phase = forced })

  pub data Reach (s : Pool R) : Pool R → Type 0 where
    here : Reach s s
    next : {t u : Pool R} → Reach s t → Step t u → Reach s u
