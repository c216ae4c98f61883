-- ===== src/Server/Sweep.antt =====
-- internal/worker/recovery.go: a sweep over all the queues of a server, as a live job sees it.
use winter.Base.{
  ℕ, suc, String, ℤ, ◌<ℤ◌, ◌≡◌, sym, ◌∙◌, subst, Bool, false, some, none, List, [], ◌∷◌, arith,
  ◌==◌, eq_iff, Bool-cases, inl, inr, ◌&&◌, not,
}
use winter.Redis.{Redis, Db, elem}
use winter.Queue.Keys.{ready_key, lease_key, active_key, key_laws}
use winter.Queue.Link.{Link, up, refused, cut, Result, is_ok}
use winter.Queue.Scripts.{recover_job, recover_jobs, recover_leases_script}
use winter.Queue.View.{JobView, Shows, hget-hset_all}
use winter.Queue.Api.{recover_expired_leases_at}
use winter.Queue.Refine.Lease.{recovery_spares_live, expired}
use winter.Server.Upkeep.{sweep, swept, limit_of}

module _ (R : Redis) where
  open R use {zscore, sismember, zscore-zadd, zscore-zrem, srem_reply, sismember-srem, range_sound}

  -- A job of another queue.
  recover_job-elsewhere :
      (p q id : String) (db : Db R) (j : String) (v : JobView)
      → (p == q) ≡ false
      → (id == j) ≡ false
      → Shows R q db j v
      → Shows R q (recover_job R (lease_key p) (active_key p) (ready_key p) id db).1 j v
  unfolding recover_job
  recover_job-elsewhere p q id db j v other apart s =
      elim (Bool-cases (sismember db.sets (active_key p) id)) [
        | inl member ↦
            rw (srem_reply, member)
              (record {
                ready = simp (zscore-zadd, zscore-zrem, key_laws, other) (ground (arith, s.ready));
                delayed = simp (zscore-zadd, zscore-zrem, key_laws) (ground (arith, s.delayed));
                lease = simp (zscore-zadd, zscore-zrem, key_laws, other) (ground (arith, s.lease));
                active = simp (sismember-srem, key_laws, other) (ground (arith, s.active));
                dead = s.dead;
                hash = λ f. simp (hget-hset_all R, key_laws, apart) (ground (arith, s.hash f));
              })
        | inr gone ↦
            rw (srem_reply, gone)
              (record {
                ready = simp (zscore-zrem, key_laws) (ground (arith, s.ready));
                delayed = simp (zscore-zrem, key_laws) (ground (arith, s.delayed));
                lease = simp (zscore-zrem, key_laws, other) (ground (arith, s.lease));
                active = simp (sismember-srem, key_laws, other) (ground (arith, s.active));
                dead = s.dead;
                hash = s.hash;
              })
      ]

  -- A recovery gives no lease.
  abbrev pub IsUnleased : String → Db R → String → Type 0
  IsUnleased p db j = zscore db.zsets (lease_key p) j ≡ none

  recover_job-IsUnleased :
      (p id : String) (db : Db R) (r j : String)
      → IsUnleased r db j
      → IsUnleased r (recover_job R (lease_key p) (active_key p) (ready_key p) id db).1 j
  unfolding recover_job
  recover_job-IsUnleased p id db r j free =
      elim (Bool-cases (sismember db.sets (active_key p) id)) [
        | inl member ↦
            rw (srem_reply, member)
              (simp (zscore-zadd, zscore-zrem, key_laws) (ground (arith, free)))
        | inr gone ↦ rw (srem_reply, gone) (simp (zscore-zrem, key_laws) (ground (arith, free)))
      ]

  recover_jobs-elsewhere :
      (p q : String) (ids : List String) (db : Db R) (j : String) (v : JobView)
      → (p == q) ≡ false
      → elem j ids ≡ false
      → Shows R q db j v
      → Shows R q (recover_jobs R (lease_key p) (active_key p) (ready_key p) ids db).1 j v
  unfolding recover_jobs
  recover_jobs-elsewhere p q [] db j v other out s = s
  recover_jobs-elsewhere p q (id ∷ ids) db j v other out s =
      recover_jobs-elsewhere p q ids _ j v other (ground (arith, out))
        (recover_job-elsewhere p q id db j v other (ground (arith, out)) s)

  recover_jobs-IsUnleased :
      (p : String) (ids : List String) (db : Db R) (r j : String)
      → IsUnleased r db j
      → IsUnleased r (recover_jobs R (lease_key p) (active_key p) (ready_key p) ids db).1 j
  unfolding recover_jobs
  recover_jobs-IsUnleased p [] db r j free = free
  recover_jobs-IsUnleased p (id ∷ ids) db r j free =
      recover_jobs-IsUnleased p ids _ r j (recover_job-IsUnleased p id db r j free)

  none_expired :
      (p : String) (limit : ℕ) (now : ℤ) (db : Db R) (j : String)
      → IsUnleased p db j
      → elem j (expired R p limit now db) ≡ false
  none_expired p limit now db j free = elim (Bool-cases (elem j (expired R p limit now db))) [
    | inl found ↦
        let (t, at, _) = range_sound db.zsets (lease_key p) now limit j found in
        absurd (cc (sym free ∙ at))
    | inr missing ↦ missing
  ]

  -- A recovery of another queue, in which the job has no lease.
  recover-elsewhere :
      (link : Link) (p q : String) (limit : ℕ) (now : ℤ) (db : Db R) (j : String) (v : JobView)
      → (p == q) ≡ false
      → IsUnleased p db j
      → Shows R q db j v
      → Shows R q (recover_expired_leases_at R link p limit now db).1 j v
  unfolding recover_expired_leases_at recover_leases_script
  recover-elsewhere up p q limit now db j v other free s =
      recover_jobs-elsewhere p q _ db j v other (none_expired p limit now db j free) s
  recover-elsewhere (refused e) p q limit now db j v other free s = s
  recover-elsewhere (cut e) p q limit now db j v other free s =
      recover_jobs-elsewhere p q _ db j v other (none_expired p limit now db j free) s

  recover-IsUnleased :
      (link : Link) (p : String) (limit : ℕ) (now : ℤ) (db : Db R) (r j : String)
      → IsUnleased r db j
      → IsUnleased r (recover_expired_leases_at R link p limit now db).1 j
  unfolding recover_expired_leases_at recover_leases_script
  recover-IsUnleased up p limit now db r j free =
      recover_jobs-IsUnleased p (expired R p limit now db) db r j free
  recover-IsUnleased (refused e) p limit now db r j free = free
  recover-IsUnleased (cut e) p limit now db r j free =
      recover_jobs-IsUnleased p (expired R p limit now db) db r j free

  module _ (links : ℕ → Link) (now : ℕ → ℤ) (ended : ℕ → Bool) (limit : ℤ) where
    swept_cases :
        (P : Db R → Type 0) (b : Bool) (r : Result (List String) × Db R) (rest : Db R → Db R)
        → P r.1
        → (P r.1 → P (rest r.1))
        → P (swept R links now b r rest)
    swept_cases P b r rest p more = elim (Bool-cases (not (is_ok r.0) && b)) [
      | inl stop ↦ rw stop p
      | inr on ↦ rw on (more p)
    ]

    one_spares_live :
        (i : ℕ) (p : String) (db : Db R) (q j : String) (v : JobView)
        → Shows R q db j v
        → ((r : String) → (r == q) ≡ false → IsUnleased r db j)
        → ((k : ℕ) (t : ℤ) → v.lease ≡ some t → now k <ℤ t)
        → Shows R q (recover_expired_leases_at R (links i) p (limit_of limit) (now i) db).1 j v
    one_spares_live i p db q j v s free live = elim (Bool-cases (p == q)) [
      | inl same ↦
          subst
            (λ x.
              Shows R q (recover_expired_leases_at R (links i) x (limit_of limit) (now i) db).1 j v)
            (sym ((eq_iff p q).0 same))
            (recovery_spares_live R (links i) q (limit_of limit) (now i) db j v s (live i))
      | inr other ↦
          recover-elsewhere (links i) p q (limit_of limit) (now i) db j v other (free p other) s
    ]

    -- Whatever queues a sweep goes through, over any links and up to the end of the context, it
    -- leaves the places and the hash of a job as they were whose lease does not run out before the
    -- sweep's clock is read for the last time, and which has no lease in any other queue.
    pub sweep_spares_live :
        (i : ℕ) (qs : List String) (db : Db R) (q j : String) (v : JobView)
        → Shows R q db j v
        → ((p : String) → (p == q) ≡ false → IsUnleased p db j)
        → ((k : ℕ) (t : ℤ) → v.lease ≡ some t → now k <ℤ t)
        → Shows R q (sweep R links now ended i limit qs db) j v
    unfolding sweep
    sweep_spares_live i [] db q j v s free live = s
    sweep_spares_live i (p ∷ qs) db q j v s free live =
        swept_cases (λ w. Shows R q w j v) (ended i)
          (recover_expired_leases_at R (links i) p (limit_of limit) (now i) db)
          (sweep R links now ended (suc i) limit qs) (one_spares_live i p db q j v s free live)
          (λ kept.
            sweep_spares_live (suc i) qs _ q j v kept
              (λ r other.
                recover-IsUnleased (links i) p (limit_of limit) (now i) db r j (free r other))
              live)
