-- ===== src/Queue/Scripts/Entry.antt =====
-- internal/queue/scripts.go: the enqueue and dequeue scripts, and what all scripts share.
use winter.Base.{
  String, ℤ, pos, ◌+ℤ◌, ltb_ℤ, ◌&&◌, not, Option, none, some, List, [], ◌∷◌, ◌==◌, if◌then◌else◌,
  is_some,
}
use winter.Redis.{Redis, Db, Value, text, num}
use winter.Queue.Keys.{job_key}

-- What `return`, `redis.error_reply` and a run-time error of Lua make of a script.
pub data Reply {ℓ} (A : Type ℓ) : Type ℓ where
  reply : A → Reply A
  error_reply : String → Reply A

pub data Outcome : Type 0 where
  dead retry : Outcome

-- The arguments of the enqueue script, its numbers as the script's tonumber has made doubles of them.
pub record EnqueueArgs : Type 0 where
  pub id : String
  pub kind : String
  pub queue : String
  pub priority : ℤ
  pub state : String
  pub payload : String
  pub max_retries : ℤ
  pub created_at : ℤ
  pub scheduled_at : ℤ
  pub unique_ttl : ℤ
  pub workflow_id : String

-- tonumber(redis.call("HGET", ..)): nil for a missing field and for a text that is no number.
abbrev pub to_number : Option Value → Option ℤ
to_number (some (num z)) = some z
to_number _ = none

-- The fields that the enqueue script writes.
abbrev pub job_fields : EnqueueArgs → String → List (String × Value)
job_fields a unique =
    ("id", text a.id)
    ∷ ("kind", text a.kind)
    ∷ ("queue", text a.queue)
    ∷ ("priority", num a.priority)
    ∷ ("state", text a.state)
    ∷ ("payload", text a.payload)
    ∷ ("attempt", num (pos 0))
    ∷ ("max_retries", num a.max_retries)
    ∷ ("created_at", num a.created_at)
    ∷ ("scheduled_at", num a.scheduled_at)
    ∷ ("started_at", num (pos 0))
    ∷ ("completed_at", num (pos 0))
    ∷ ("last_error", text "")
    ∷ ("unique_key", text unique)
    ∷ ("workflow_id", text a.workflow_id)
    ∷ []

module _ (R : Redis) where
  open R use {
    Hashes, hget, hgetall, hset, hincrby, hash_del, SortedSets, zadd, zadd_xx, zrem, zpopmin,
    zrangebyscore, Sets, sadd, srem, Lists, lrange, lpush, lrem, list_del, Strings, get, set_nx,
    del,
  }

  -- HSET with several fields.
  unfoldable pub hset_all : String → List (String × Value) → Hashes → Hashes
  hset_all k [] h = h
  hset_all k ((f, v) ∷ r) h = hset_all k r (hset k f v h)

  -- An increment whose reply the script drops.
  abbrev pub count_up : String → String → Hashes → Hashes
  count_up k f h = (hincrby h k f 1).1

  -- The unique key is deleted if the job still owns it.
  release_key : Option Value → String → Strings → Strings
  release_key (some (text uk)) id s =
      if uk == ""
      then s
      else elim (get s uk) [ some (text owner) ↦ if owner == id then del uk s else s | _ ↦ s ]
  release_key _ id s = s

  unfoldable pub release_unique : Hashes → String → String → Strings → Strings
  unfolding release_key
  release_unique h job id s = release_key (hget h job "unique_key") id s

  -- The job hash and the set that the job starts in.
  unfoldable pub insert_job : String → String → String → String → String → EnqueueArgs → Db R → Db R
  insert_job job ready delayed stats unique a db = record db {
    hashes = count_up stats "enqueued" (hset_all job (job_fields a unique) db.hashes);
    zsets =
        if ltb_ℤ (pos 0) a.scheduled_at
        then zadd delayed a.scheduled_at a.id db.zsets
        else zadd ready a.priority a.id db.zsets;
  }

  unfoldable pub enqueue_script :
      String → String → String → String → String → EnqueueArgs → Db R → Reply String × Db R
  unfolding insert_job
  enqueue_script job ready delayed stats unique a db =
      if not (unique == "") && ltb_ℤ (pos 0) a.unique_ttl
      then (let (fresh, strings) = set_nx db.strings unique (text a.id) in
          let kept = record db { strings = strings } in
          if fresh
          then (reply a.id, insert_job job ready delayed stats unique a kept)
          else (error_reply "DUPLICATE", kept))
      else (reply a.id, insert_job job ready delayed stats unique a db)

  -- The popped job becomes active, with a lease, and its hash is the reply.
  unfoldable pub activate :
      String → String → String → ℤ → ℤ → String → Db R → Option (List (String × Value)) × Db R
  activate active worker_jobs lease now duration id db =
      let hashes =
        hset_all (job_key id) (("state", text "active") ∷ ("started_at", num now) ∷ []) db.hashes in
      (
        some (hgetall hashes (job_key id)),
        record db {
          hashes = hashes;
          zsets = zadd lease (now +ℤ duration) id db.zsets;
          sets = sadd worker_jobs id (sadd active id db.sets);
        },
      )

  unfoldable pub activate_popped :
      Option (String × ℤ)
      → String
      → String
      → String
      → ℤ
      → ℤ
      → Db R
      → Option (List (String × Value)) × Db R
  unfolding activate
  activate_popped none active worker_jobs lease now duration db = (none, db)
  activate_popped (some (id, score)) active worker_jobs lease now duration db =
      activate active worker_jobs lease now duration id db

  unfoldable pub dequeue_script :
      String
      → String
      → String
      → String
      → String
      → ℤ
      → ℤ
      → Db R
      → Option (List (String × Value)) × Db R
  unfolding activate_popped
  dequeue_script ready active paused worker_jobs lease now duration db =
      if is_some (get db.strings paused)
      then (none, db)
      else (let (popped, zsets) = zpopmin db.zsets ready in
          activate_popped popped active worker_jobs lease now duration
            (record db { zsets = zsets }))
