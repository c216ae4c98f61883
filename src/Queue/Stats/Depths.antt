-- ===== src/Queue/Stats/Depths.antt =====
-- What QueueStats counts, and how the operations of internal/queue/queue.go change the counts.
use winter.Base.{
  ℕ, String, ℤ, pos, ◌≡◌, refl, Option, none, some, List, [], ◌∷◌, arith, or_else, length,
}
use winter.Redis.{Redis, Db, Value, to_map}
use winter.Queue.Keys.{ready_key, delayed_key, active_key, dead_key, stats_key}
use winter.Queue.Job.{int_of}
use winter.Queue.Link.{up, ok}
use winter.Queue.Stats.{Stats, put_stat, stat, add_counters, stats_of, replies, queue_stats}

add_counters-to_map :
    (r : List (String × Value)) (m : Stats) (f : String)
    → add_counters r m f ≡ elim (to_map r f) [ some v ↦ some (int_of (some v)) | none ↦ m f ]
unfolding add_counters to_map
add_counters-to_map [] m f = refl
add_counters-to_map ((k, v) ∷ r) m f =
    ground (arith, add_counters-to_map r (put_stat k (int_of (some v)) m) f)

stat_or :
    (o : Option Value) (d : Option ℤ)
    → d ≡ none
    → or_else (elim o [ some v ↦ some (int_of (some v)) | none ↦ d ]) (pos 0) ≡ int_of o
stat_or none d e = rw e refl
stat_or (some v) d e = refl

pub record Depths : Type 0 where
  pub ready : ℕ
  pub active : ℕ
  pub delayed : ℕ
  pub dead : ℕ

module _ (R : Redis) where
  open R use {
    hget, hgetall-map, zcard, scard, lrange, sismember, zscore, zscore-zadd, zscore-zrem, zpopmin,
    zpopmin-some, zcard-zadd, zcard-zrem, scard-sadd, scard-srem,
  }

  -- A counter of the queue hides the depth of its name; none of the scripts' counters does.
  abbrev pub IsPlain : String → Db R → Type 0
  IsPlain q db =
      (hget db.hashes (stats_key q) "ready" ≡ none)
      × (hget db.hashes (stats_key q) "active" ≡ none)
      × (hget db.hashes (stats_key q) "delayed" ≡ none)
      × (hget db.hashes (stats_key q) "dead" ≡ none)

  -- Where no counter has the name of a depth, the statistics of a queue are its depths and its
  -- counters, which are 0 when they are missing.
  pub stats_depths :
      (q : String) (db : Db R)
      → IsPlain q db
      → (m : Stats) × (queue_stats R up q db ≡ (ok m, db))
        × (stat m "ready" ≡ pos (zcard db.zsets (ready_key q)))
        × (stat m "active" ≡ pos (scard db.sets (active_key q)))
        × (stat m "delayed" ≡ pos (zcard db.zsets (delayed_key q)))
        × (stat m "dead" ≡ pos (length (lrange db.lists (dead_key q))))
        × (stat m "completed" ≡ int_of (hget db.hashes (stats_key q) "completed"))
        × (stat m "enqueued" ≡ int_of (hget db.hashes (stats_key q) "enqueued"))
        × (stat m "failed" ≡ int_of (hget db.hashes (stats_key q) "failed"))
  unfolding queue_stats
  stats_depths q db (r, a, d, e) = (
    stats_of (replies R q db),
    refl,
    shown "ready" r,
    shown "active" a,
    shown "delayed" d,
    shown "dead" e,
    counted "completed" refl,
    counted "enqueued" refl,
    counted "failed" refl,
  )
    where
      start : Stats
      start = stats_of (record (replies R q db) { counters = [] })

      shown :
          (f : String)
          → hget db.hashes (stats_key q) f ≡ none
          → stat (stats_of (replies R q db)) f ≡ stat start f
      shown f h = rw (add_counters-to_map, hgetall-map, h) refl

      counted :
          (f : String)
          → start f ≡ none
          → stat (stats_of (replies R q db)) f ≡ int_of (hget db.hashes (stats_key q) f)
      counted f e =
          rw (add_counters-to_map, hgetall-map)
            (stat_or (hget db.hashes (stats_key q) f) (start f) e)

  abbrev pub depths : String → Db R → Depths
  depths q db = record {
    ready = zcard db.zsets (ready_key q);
    active = scard db.sets (active_key q);
    delayed = zcard db.zsets (delayed_key q);
    dead = length (lrange db.lists (dead_key q));
  }
