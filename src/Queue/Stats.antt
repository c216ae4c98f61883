-- ===== src/Queue/Stats.antt =====
-- internal/queue/queue.go, QueueStats: the depths of a queue and its counters.
pub mod Cards
pub mod Depths
pub mod Changes
use winter.Base.{
  ℕ, String, ℤ, pos, Option, none, some, List, [], ◌∷◌, ◌==◌, if◌then◌else◌, or_else, length,
}
use winter.Redis.{Redis, Db, Value}
use winter.Queue.Keys.{ready_key, delayed_key, active_key, dead_key, stats_key}
use winter.Queue.Job.{int_of}
use winter.Queue.Link.{Link, Result, context, map_result, call}

-- A Go map from names to counts, and an assignment to one of its keys.
abbrev pub Stats : Type 0
Stats = String → Option ℤ

abbrev pub put_stat : String → ℤ → Stats → Stats
put_stat k n m f = if k == f then some n else m f

-- stats[k], which is 0 for a missing key.
abbrev pub stat : Stats → String → ℤ
stat m k = or_else (m k) (pos 0)

-- The loop over the hash of counters, which may replace a depth of the same name.
unfoldable pub add_counters : List (String × Value) → Stats → Stats
add_counters [] m = m
add_counters ((k, v) ∷ r) m = add_counters r (put_stat k (int_of (some v)) m)

-- The replies of the pipeline.
pub record Replies : Type 0 where
  pub ready : ℕ
  pub active : ℕ
  pub delayed : ℕ
  pub dead : ℕ
  pub counters : List (String × Value)

abbrev no_stats : Stats
no_stats f = none

unfoldable pub stats_of : Replies → Stats
unfolding add_counters
stats_of r = add_counters r.counters (
    put_stat "dead" (pos r.dead) (
      put_stat "delayed" (pos r.delayed)
        (put_stat "active" (pos r.active) (put_stat "ready" (pos r.ready) no_stats))))

module _ (R : Redis) where
  open R use {zcard, scard, lrange, hgetall}

  abbrev pub replies : String → Db R → Replies
  replies queue s = record {
    ready = zcard s.zsets (ready_key queue);
    active = scard s.sets (active_key queue);
    delayed = zcard s.zsets (delayed_key queue);
    dead = length (lrange s.lists (dead_key queue));
    counters = hgetall s.hashes (stats_key queue);
  }

  unfoldable pub queue_stats : Link → String → Db R → Result Stats × Db R
  unfolding call stats_of
  queue_stats link queue db =
      let (result, db') = call link (λ s. (replies queue s, s)) db in
      (context "winter: queue stats" (map_result stats_of result), db')
