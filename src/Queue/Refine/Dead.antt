-- ===== src/Queue/Refine/Dead.antt =====
-- internal/queue/queue.go, RetryDead and PurgeDead: the dead letter queue.
use winter.Base.{
  String, ◌≡◌, refl, Bool, true, false, ◌&&◌, none, List, [], ◌∷◌, arith, ◌==◌, eq_iff,
  if◌then◌else◌, Bool-cases, inl, inr, nat_eq, length,
}
use winter.Redis.{Redis, Db, elem}
use winter.Queue.Keys.{ready_key, dead_key, job_key, stats_key, key_laws}
use winter.Queue.Link.{Link, up, refused, cut, reached, ok, err, not_in_dead}
use winter.Queue.Scripts.{retry_dead_script, purge_dead_script, delete_hashes}
use winter.Queue.View.{JobView, Shows, occurrences, occurrences-erase_first, hget-hset_all}
use winter.Queue.Transitions.{revived, purged}
use winter.Queue.Api.{retry_dead, purge_dead}

-- A job is in a list exactly when it occurs in it.
occurrences_of_elem :
    (x : String) (l : List String) → elem x l ≡ true → nat_eq (occurrences x l) 0 ≡ false
occurrences_of_elem x [] h = cc
occurrences_of_elem x (y ∷ l) h = ground (arith, occurrences_of_elem x l)

occurrences_of_absent : (x : String) (l : List String) → elem x l ≡ false → occurrences x l ≡ 0
occurrences_of_absent x [] h = refl
occurrences_of_absent x (y ∷ l) h = ground (arith, occurrences_of_absent x l)

module _ (R : Redis) where
  open R use {
    hget, lrange, hget-hincrby, hget-hash_del, zscore-zadd, lrem_reply, lrange-lrem,
    lrange-list_del,
  }

  -- Whether the job stands in the dead letter queue.
  abbrev pub is_dead : String → String → Db R → Bool
  is_dead q id db = elem id (lrange db.lists (dead_key q))

  retry_dead_script-Shows :
      (q id : String) (db : Db R) (j : String) (v : JobView)
      → Shows R q db j v
      → Shows R q
          (retry_dead_script R (job_key id) (dead_key q) (ready_key q) (stats_key q) id db).1
          j
          (if id == j then revived v else v)
  unfolding retry_dead_script
  retry_dead_script-Shows q id db j v s = elim (Bool-cases (is_dead q id db)) [
    | inl found ↦
        let some_time = occurrences_of_elem id (lrange db.lists (dead_key q)) found in
        rw (lrem_reply, found)
          (record {
            ready =
                simp (zscore-zadd, key_laws)
                  (ground (arith, eq_iff id j, some_time, s.dead, s.hash "priority"));
            delayed = simp (zscore-zadd, key_laws) (ground arith);
            lease = simp (zscore-zadd, key_laws) (ground arith);
            active = ground arith;
            dead =
                simp (lrange-lrem, occurrences-erase_first, found, key_laws)
                  (ground (arith, eq_iff id j, some_time, s.dead));
            hash = λ f.
                simp (hget-hset_all R, hget-hincrby, key_laws)
                  (ground (arith, eq_iff id j, some_time, s.dead, s.hash f));
          })
    | inr gone ↦
        let never = occurrences_of_absent id (lrange db.lists (dead_key q)) gone in
        rw (lrem_reply, gone)
          (record {
            ready = ground (arith, eq_iff id j, never, s.dead);
            delayed = ground (arith, eq_iff id j, never, s.dead);
            lease = ground (arith, eq_iff id j, never, s.dead);
            active = ground (arith, eq_iff id j, never, s.dead);
            dead =
                simp (lrange-lrem, occurrences-erase_first, gone, key_laws)
                  (ground (arith, eq_iff id j, never, s.dead));
            hash = λ f. ground (arith, eq_iff id j, never, s.dead, s.hash f);
          })
  ]

  pub retry_dead-Shows :
      (link : Link) (q id : String) (db : Db R) (j : String) (v : JobView)
      → Shows R q db j v
      → Shows R q
          (retry_dead R link q id db).1
          j
          (if reached link && (id == j) then revived v else v)
  unfolding retry_dead
  retry_dead-Shows up q id db j v s = retry_dead_script-Shows q id db j v s
  retry_dead-Shows (refused e) q id db j v s = s
  retry_dead-Shows (cut e) q id db j v s = retry_dead_script-Shows q id db j v s

  -- On a working link RetryDead succeeds exactly for a job of the dead letter queue.
  pub retry_dead_result :
      (q id : String) (db : Db R)
      → (retry_dead R up q id db).0 ≡ (if is_dead q id db then ok tt else err (not_in_dead id))
  unfolding retry_dead retry_dead_script
  retry_dead_result q id db = elim (Bool-cases (is_dead q id db)) [
    | inl found ↦ rw (lrem_reply, found)
    | inr gone ↦ rw (lrem_reply, gone)
  ]

  hget-delete_hashes :
      (ids : List String) (h : R.Hashes) (j f : String)
      → hget (delete_hashes R ids h) (job_key j) f
        ≡ (if elem j ids then none else hget h (job_key j) f)
  unfolding delete_hashes
  hget-delete_hashes [] h j f = refl
  hget-delete_hashes (id ∷ ids) h j f =
      simp (hget-delete_hashes ids, hget-hash_del, key_laws) (ground arith)

  purge_dead_script-Shows :
      (q : String) (db : Db R) (j : String) (v : JobView)
      → Shows R q db j v
      → Shows R q (purge_dead_script R (dead_key q) db).1 j (purged v)
  unfolding purge_dead_script
  purge_dead_script-Shows q db j v s = elim (Bool-cases (is_dead q j db)) [
    | inl found ↦
        let some_time = occurrences_of_elem j (lrange db.lists (dead_key q)) found in
        record {
          ready = ground (arith, s.dead);
          delayed = ground (arith, s.dead);
          lease = ground (arith, s.dead);
          active = ground (arith, s.dead);
          dead = simp (lrange-list_del, key_laws) (ground (arith, s.dead));
          hash = λ f. simp (hget-delete_hashes, found) (ground (arith, some_time, s.dead));
        }
    | inr gone ↦
        let never = occurrences_of_absent j (lrange db.lists (dead_key q)) gone in
        record {
          ready = ground (arith, s.dead);
          delayed = ground (arith, s.dead);
          lease = ground (arith, s.dead);
          active = ground (arith, s.dead);
          dead = simp (lrange-list_del, key_laws) (ground (arith, never, s.dead));
          hash = λ f. simp (hget-delete_hashes, gone) (ground (arith, never, s.dead, s.hash f));
        }
  ]

  -- If the request reaches the server, every job of the dead letter queue leaves it and loses its
  -- hash; a job that is not in it stays as it was.
  pub purge_dead-Shows :
      (link : Link) (q : String) (db : Db R) (j : String) (v : JobView)
      → Shows R q db j v
      → Shows R q (purge_dead R link q db).1 j (if reached link then purged v else v)
  unfolding purge_dead
  purge_dead-Shows up q db j v s = purge_dead_script-Shows q db j v s
  purge_dead-Shows (refused e) q db j v s = s
  purge_dead-Shows (cut e) q db j v s = purge_dead_script-Shows q db j v s

  -- On a working link a purge reports the length of the dead letter queue, empties it and deletes
  -- the hash of each job in it. Jobs that are not in it stay as they were.
  pub purge_dead_exact :
      (q : String) (db : Db R) (j : String) (v : JobView)
      → Shows R q db j v
      → ((purge_dead R up q db).0 ≡ ok (length (lrange db.lists (dead_key q))))
        × Shows R q (purge_dead R up q db).1 j (purged v)
  unfolding purge_dead
  purge_dead_exact q db j v s =
      (unfold purge_dead_script in refl, purge_dead_script-Shows q db j v s)
