-- ===== src/Server/Upkeep.antt =====
-- internal/worker/recovery.go, and heartbeatLoop and promoteLoop of server.go: what each of the
-- background loops does at one tick. Logging is not modelled.
use winter.Base.{Bool, not, ◌&&◌, ℕ, suc, String, ℤ, pos, leb_ℤ, List, [], ◌∷◌, if◌then◌else◌}
use winter.Redis.{Redis, Db}
use winter.Queue.Link.{Link, Result, Done, is_ok}
use winter.Ticker.{Turn, ticker_loop}
use winter.Queue.Api.{heartbeat, extend_lease, promote, recover_expired_leases_at, lease_duration}

pub record RecoveryConfig : Type 0 where
  pub interval : ℤ
  pub queues : List String
  pub limit : ℤ

-- The interval is in nanoseconds.
unfoldable pub new_recovery : RecoveryConfig → RecoveryConfig
new_recovery cfg = record cfg {
  interval = if leb_ℤ cfg.interval (pos 0) then pos 30_000_000_000 else cfg.interval;
  limit = if leb_ℤ cfg.limit (pos 0) then pos 100 else cfg.limit;
}

-- A limit that newRecovery has made positive.
abbrev pub limit_of : ℤ → ℕ
limit_of (pos n) = n
limit_of _ = 0

module _ (R : Redis) (links : ℕ → Link) (now : ℕ → ℤ) where
  -- An error of one queue keeps the sweep from the next ones only if the context has ended.
  abbrev pub swept : Bool → Result (List String) × Db R → (Db R → Db R) → Db R
  swept ended (result, db) rest = if not (is_ok result) && ended then db else rest db

  unfoldable pub sweep : (ℕ → Bool) → ℕ → ℤ → List String → Db R → Db R
  sweep ended i limit [] db = db
  sweep ended i limit (q ∷ qs) db =
      let rest = sweep ended (suc i) limit qs in
      swept (ended i) (recover_expired_leases_at R (links i) q (limit_of limit) (now i) db) rest

  unfoldable pub promote_all : ℕ → List String → Db R → Db R
  promote_all i [] db = db
  promote_all i (q ∷ qs) db = promote_all (suc i) qs (promote R (links i) q 100 (now i) db).1

  -- The jobs in flight, with their queues.
  unfoldable pub extend_all : ℕ → List (String × String) → Db R → Db R
  extend_all i [] db = db
  extend_all i ((id, q) ∷ jobs) db =
      extend_all (suc i) jobs (extend_lease R (links i) q id lease_duration (now i) db).1

  unfoldable pub beat : String → List (String × String) → Db R → Db R
  unfolding extend_all
  beat worker inflight db = extend_all 1 inflight (heartbeat R (links 0) worker (now 0) db).1

-- A turn of heartbeatLoop: the case of the select, whether the context has ended by the time of
-- the heartbeat, the jobs in flight, and what the others have done to the database before.
pub record Tick (R : Redis) : Type 0 where
  pub links : ℕ → Link
  pub now : ℕ → ℤ
  pub done : Bool
  pub ended : Bool
  pub inflight : List (String × String)
  pub meanwhile : Db R → Db R

module _ (R : Redis) (worker : String) where
  -- A heartbeat that fails after the end of the context ends the loop; any other failure does not
  -- keep it from extending the leases.
  abbrev pub beaten : Tick R → Result Done × Db R → (Db R → Db R) → Db R
  beaten t (result, db) rest =
      if not (is_ok result) && t.ended
      then db
      else rest (extend_all R t.links t.now 1 t.inflight db)

  unfoldable pub heartbeat_loop : List (Tick R) → Db R → Db R
  unfolding extend_all
  heartbeat_loop [] db = db
  heartbeat_loop (t ∷ ts) db =
      let rest = heartbeat_loop ts in
      let found = t.meanwhile db in
      if t.done then found else beaten t (heartbeat R (t.links 0) worker (t.now 0) found) rest

module _ (R : Redis) where
  -- Recovery.Run
  unfoldable pub recovery_run : RecoveryConfig → List (Turn R) → Db R → Db R
  unfolding ticker_loop sweep
  recovery_run cfg = ticker_loop R (λ t. sweep R t.links t.now t.ended 0 cfg.limit cfg.queues)

  unfoldable pub promote_loop : List String → List (Turn R) → Db R → Db R
  unfolding ticker_loop promote_all
  promote_loop queues = ticker_loop R (λ t. promote_all R t.links t.now 0 queues)
