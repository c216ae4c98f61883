-- ===== src/Queue/Refine/Lease.antt =====
-- internal/queue/queue.go, ExtendLease and RecoverExpiredLeasesAt: leases and their recovery.
use winter.Base.{
  ℕ, ◌<◌, String, ℤ, ◌+ℤ◌, ◌≤ℤ◌, ◌<ℤ◌, ◌≡◌, sym, ◌∙◌, false, ◌&&◌, Option, some, List, [], ◌∷◌,
  arith, ◌==◌, eq_iff, if◌then◌else◌, Bool-cases, inl, inr, length,
}
use winter.Redis.{Redis, Db, elem}
use winter.Queue.Keys.{ready_key, lease_key, active_key, key_laws}
use winter.Queue.Link.{Link, up, refused, cut, reached}
use winter.Queue.Scripts.{extend_lease_script, recover_job, recover_jobs, recover_leases_script}
use winter.Queue.View.{JobView, Shows, once, hget-hset_all}
use winter.Queue.Transitions.{extended, recovered}
use winter.Queue.Api.{extend_lease, recover_expired_leases_at}

module _ (R : Redis) where
  open R use {
    zscore, zrangebyscore, srem, sismember, zscore-zadd, zscore-zadd_xx, zscore-zrem, srem_reply,
    sismember-srem, range_sound, range_complete,
  }

  extend_lease_script-Shows :
      (q id : String) (expiry : ℤ) (db : Db R) (j : String) (v : JobView)
      → Shows R q db j v
      → Shows R q
          (extend_lease_script R (lease_key q) id expiry db)
          j
          (if id == j then extended expiry v else v)
  unfolding extend_lease_script
  extend_lease_script-Shows q id expiry db j v s = record {
    ready = simp (zscore-zadd_xx, key_laws) (ground arith);
    delayed = simp (zscore-zadd_xx, key_laws) (ground arith);
    lease = simp (zscore-zadd_xx, s.lease, key_laws) (ground arith);
    active = ground arith;
    dead = ground arith;
    hash = λ f. ground (arith, s.hash f);
  }

  -- If the request reaches the server, a lease that exists is moved to now plus the extension; a
  -- job without a lease does not get one, and nothing else changes.
  pub extend_lease-Shows :
      (link : Link) (q id : String) (extension now : ℤ) (db : Db R) (j : String) (v : JobView)
      → Shows R q db j v
      → Shows R q
          (extend_lease R link q id extension now db).1
          j
          (if reached link && (id == j) then extended (now +ℤ extension) v else v)
  unfolding extend_lease
  extend_lease-Shows up q id extension now db j v s =
      extend_lease_script-Shows q id (now +ℤ extension) db j v s
  extend_lease-Shows (refused e) q id extension now db j v s = s
  extend_lease-Shows (cut e) q id extension now db j v s =
      extend_lease_script-Shows q id (now +ℤ extension) db j v s

  recover_job-Shows :
      (q id : String) (db : Db R) (j : String) (v : JobView)
      → Shows R q db j v
      → Shows R q
          (recover_job R (lease_key q) (active_key q) (ready_key q) id db).1
          j
          (if id == j then recovered v else v)
  unfolding recover_job
  recover_job-Shows q id db j v s = elim (Bool-cases (sismember db.sets (active_key q) id)) [
    | inl member ↦
        rw (srem_reply, member)
          (record {
            ready =
                simp (zscore-zadd, zscore-zrem, key_laws)
                  (ground (arith, eq_iff id j, s.hash "priority"));
            delayed =
                simp (zscore-zadd, zscore-zrem, key_laws)
                  (ground (arith, eq_iff id j, s.hash "priority"));
            lease =
                simp (zscore-zadd, zscore-zrem, key_laws)
                  (ground (arith, eq_iff id j, s.hash "priority"));
            active =
                simp (sismember-srem, key_laws) (ground (arith, eq_iff id j, s.hash "priority"));
            dead = (ground (arith, eq_iff id j, s.hash "priority"));
            hash = λ f. simp (hget-hset_all R, key_laws) (ground (arith, eq_iff id j, s.hash f));
          })
    | inr gone ↦
        rw (srem_reply, gone)
          (record {
            ready = simp (zscore-zrem, key_laws) (ground (arith, eq_iff id j));
            delayed = simp (zscore-zrem, key_laws) (ground (arith, eq_iff id j));
            lease = simp (zscore-zrem, key_laws) (ground (arith, eq_iff id j));
            active = simp (sismember-srem, key_laws) (ground (arith, eq_iff id j));
            dead = (ground (arith, eq_iff id j));
            hash = λ f. (ground (arith, eq_iff id j, s.hash f));
          })
  ]

  recovered-Shows :
      (q : String) (db : Db R) (j : String) (v : JobView)
      → Shows R q db j (recovered (recovered v))
      → Shows R q db j (recovered v)
  recovered-Shows q db j v s = elim (Bool-cases v.active) [
    | inl on ↦ rw on (rw on at s)
    | inr off ↦ rw off (rw off at s)
  ]

  recover_jobs-Shows :
      (q : String) (ids : List String) (db : Db R) (j : String) (v : JobView)
      → Shows R q db j v
      → Shows R q
          (recover_jobs R (lease_key q) (active_key q) (ready_key q) ids db).1
          j
          (if elem j ids then recovered v else v)
  unfolding recover_jobs
  recover_jobs-Shows q [] db j v s = s
  recover_jobs-Shows q (id ∷ ids) db j v s =
      once R recovered q _ j v (recovered-Shows q _ j v) (id == j) (elem j ids) (
        recover_jobs-Shows q ids (recover_job R (lease_key q) (active_key q) (ready_key q) id db).1
          j _ (recover_job-Shows q id db j v s))

  -- The jobs that a recovery looks at.
  abbrev pub expired : String → ℕ → ℤ → Db R → List String
  expired q limit now db = zrangebyscore db.zsets (lease_key q) now limit

  -- If the request reaches the server, each job that the script finds with an expired lease is
  -- recovered: if it is active it becomes ready at its priority and pending, else it only loses the
  -- lease. Every other job stays as it was.
  pub recover_expired_leases_at-Shows :
      (link : Link) (q : String) (limit : ℕ) (now : ℤ) (db : Db R) (j : String) (v : JobView)
      → Shows R q db j v
      → Shows R q
          (recover_expired_leases_at R link q limit now db).1
          j
          (if reached link && elem j (expired q limit now db) then recovered v else v)
  unfolding recover_expired_leases_at recover_leases_script
  recover_expired_leases_at-Shows up q limit now db j v s =
      recover_jobs-Shows q (expired q limit now db) db j v s
  recover_expired_leases_at-Shows (refused e) q limit now db j v s = s
  recover_expired_leases_at-Shows (cut e) q limit now db j v s =
      recover_jobs-Shows q (expired q limit now db) db j v s

  unexpired :
      (q : String) (limit : ℕ) (now : ℤ) (db : Db R) (j : String) (lease : Option ℤ)
      → zscore db.zsets (lease_key q) j ≡ lease
      → ((t : ℤ) → lease ≡ some t → now <ℤ t)
      → elem j (expired q limit now db) ≡ false
  unexpired q limit now db j lease e live = elim (Bool-cases (elem j (expired q limit now db))) [
    | inl found ↦
        let (t, at, over) = range_sound db.zsets (lease_key q) now limit j found in
        absurd (omega (arith, live t (sym e ∙ at)))
    | inr missing ↦ missing
  ]

  -- Whatever the link does, a recovery leaves the places and the hash of a job whose lease has not
  -- run out, or that has none, exactly as they were.
  pub recovery_spares_live :
      (link : Link) (q : String) (limit : ℕ) (now : ℤ) (db : Db R) (j : String) (v : JobView)
      → Shows R q db j v
      → ((t : ℤ) → v.lease ≡ some t → now <ℤ t)
      → Shows R q (recover_expired_leases_at R link q limit now db).1 j v
  recovery_spares_live link q limit now db j v s live =
      let kept = recover_expired_leases_at-Shows link q limit now db j v s in
      let out = unexpired q limit now db j v.lease s.lease live in spared link kept out
    where
      spared :
          (l : Link)
          → Shows R q
              (recover_expired_leases_at R link q limit now db).1
              j
              (if reached l && elem j (expired q limit now db) then recovered v else v)
          → elem j (expired q limit now db) ≡ false
          → Shows R q (recover_expired_leases_at R link q limit now db).1 j v
      spared up k o = rw o at k
      spared (refused e) k o = k
      spared (cut e) k o = rw o at k

  -- On a working link, if fewer jobs than the limit have expired leases, a job whose lease has run
  -- out is recovered: an active one goes back to the ready set at its priority as a pending job,
  -- and one that is active no longer only loses the lease.
  pub recovery_complete :
      (q : String) (limit : ℕ) (now t : ℤ) (db : Db R) (j : String) (v : JobView)
      → Shows R q db j v
      → v.lease ≡ some t
      → t ≤ℤ now
      → length (expired q limit now db) < limit
      → Shows R q (recover_expired_leases_at R up q limit now db).1 j (recovered v)
  recovery_complete q limit now t db j v s lease over room =
      rw (range_complete db.zsets (lease_key q) now limit j t room (s.lease ∙ lease) over) at
        (recover_expired_leases_at-Shows up q limit now db j v s)
