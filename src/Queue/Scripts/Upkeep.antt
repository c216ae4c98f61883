-- ===== src/Queue/Scripts/Upkeep.antt =====
-- internal/queue/scripts.go: leases, recovery and promotion, and the dead letter queue.
use winter.Base.{
  ℕ, String, ℤ, pos, Bool, true, false, List, [], ◌∷◌, nat_eq, if◌then◌else◌, or_else, length,
}
use winter.Redis.{Redis, Db, text, num}
use winter.Queue.Keys.{job_key}
use winter.Queue.Scripts.Entry.{to_number, hset_all, count_up}

module _ (R : Redis) where
  open R use {
    Hashes, hget, hgetall, hset, hincrby, hash_del, SortedSets, zadd, zadd_xx, zrem, zpopmin,
    zrangebyscore, Sets, sadd, srem, Lists, lrange, lpush, lrem, list_del, Strings, get, set_nx,
    del,
  }

  unfoldable pub extend_lease_script : String → String → ℤ → Db R → Db R
  extend_lease_script lease id expiry db = record db { zsets = zadd_xx lease expiry id db.zsets }

  -- tonumber(redis.call("HGET", jobKey, "priority")) or 5
  abbrev pub stored_priority : Hashes → String → ℤ
  stored_priority h id = or_else (to_number (hget h (job_key id) "priority")) (pos 5)

  -- One round of the recovery loop: SREM guards against a second recovery.
  unfoldable pub recover_job : String → String → String → String → Db R → Bool × Db R
  recover_job lease active ready id db =
      let (removed, sets) = srem db.sets active id in
      if nat_eq removed 1
      then (
        true,
        record db {
          sets = sets;
          zsets = zadd ready (stored_priority db.hashes id) id (zrem lease id db.zsets);
          hashes =
              hset_all R (job_key id) (("state", text "pending") ∷ ("started_at", num (pos 0)) ∷ [])
                db.hashes;
        },
      )
      else (false, record db { sets = sets; zsets = zrem lease id db.zsets })

  unfoldable pub recover_jobs : String → String → String → List String → Db R → List String × Db R
  unfolding recover_job
  recover_jobs lease active ready [] db = ([], db)
  recover_jobs lease active ready (id ∷ ids) db =
      let (moved, db') = recover_job lease active ready id db in
      let (rest, db'') = recover_jobs lease active ready ids db' in
      (if moved then id ∷ rest else rest, db'')

  unfoldable pub recover_leases_script :
      String → String → String → ℤ → ℕ → Db R → List String × Db R
  unfolding recover_jobs
  recover_leases_script lease active ready now limit db =
      recover_jobs lease active ready (zrangebyscore db.zsets lease now limit) db

  unfoldable pub promote_job : String → String → String → Db R → Db R
  promote_job delayed ready id db = record db {
    zsets = zadd ready (stored_priority db.hashes id) id (zrem delayed id db.zsets);
    hashes = hset (job_key id) "state" (text "pending") db.hashes;
  }

  unfoldable pub promote_jobs : String → String → List String → Db R → Db R
  unfolding promote_job
  promote_jobs delayed ready [] db = db
  promote_jobs delayed ready (id ∷ ids) db =
      promote_jobs delayed ready ids (promote_job delayed ready id db)

  unfoldable pub promote_script : String → String → ℤ → ℕ → Db R → ℕ × Db R
  unfolding promote_jobs
  promote_script delayed ready now limit db =
      let jobs = zrangebyscore db.zsets delayed now limit in
      (length jobs, promote_jobs delayed ready jobs db)

  unfoldable pub retry_dead_script : String → String → String → String → String → Db R → ℕ × Db R
  retry_dead_script job dead_list ready stats id db =
      let (removed, lists) = lrem db.lists dead_list id in
      if nat_eq removed 0 then (0, record db { lists = lists }) else (
        1,
        record db {
          lists = lists;
          hashes = count_up R stats "retried" (
              hset_all R job
                (("state", text "pending")
                  ∷ ("attempt", num (pos 0))
                  ∷ ("last_error", text "")
                  ∷ ("completed_at", num (pos 0))
                  ∷ ("started_at", num (pos 0))
                  ∷ [])
                db.hashes);
          zsets = zadd ready (stored_priority db.hashes id) id db.zsets;
        },
      )

  unfoldable pub delete_hashes : List String → Hashes → Hashes
  delete_hashes [] h = h
  delete_hashes (id ∷ ids) h = delete_hashes ids (hash_del (job_key id) h)

  unfoldable pub purge_dead_script : String → Db R → ℕ × Db R
  unfolding delete_hashes
  purge_dead_script dead_list db =
      let ids = lrange db.lists dead_list in
      (
        length ids,
        record db { hashes = delete_hashes ids db.hashes; lists = list_del dead_list db.lists },
      )
