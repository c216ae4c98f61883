-- ===== src/Queue/Refine/Promote.antt =====
-- internal/queue/queue.go, Promote: delayed jobs whose time has come.
use winter.Base.{
  ℕ, ◌<◌, ◌≤◌, String, ℤ, ◌≤ℤ◌, ◌<ℤ◌, ◌≡◌, refl, sym, ◌∙◌, false, ◌&&◌, Option, some, List, [], ◌∷◌,
  arith, ◌==◌, eq_iff, if◌then◌else◌, Bool-cases, inl, inr, length,
}
use winter.Redis.{Redis, Db, elem, to_map}
use winter.Queue.Keys.{ready_key, delayed_key, key_laws}
use winter.Queue.Link.{Link, up, refused, cut, reached, ok}
use winter.Queue.Scripts.{promote_job, promote_jobs, promote_script}
use winter.Queue.View.{JobView, Shows, once}
use winter.Queue.Transitions.{promoted}
use winter.Queue.Api.{promote}

module _ (R : Redis) where
  open R use {
    zscore, zrangebyscore, hget-hset, zscore-zadd, zscore-zrem, range_sound, range_complete,
    range_limit,
  }

  promote_job-Shows :
      (q id : String) (db : Db R) (j : String) (v : JobView)
      → Shows R q db j v
      → Shows R q
          (promote_job R (delayed_key q) (ready_key q) id db)
          j
          (if id == j then promoted v else v)
  unfolding promote_job to_map
  promote_job-Shows q id db j v s = record {
    ready =
        simp (zscore-zadd, zscore-zrem, key_laws) (ground (arith, eq_iff id j, s.hash "priority"));
    delayed = simp (zscore-zadd, zscore-zrem, key_laws) (ground arith);
    lease = simp (zscore-zadd, zscore-zrem, key_laws) (ground arith);
    active = ground arith;
    dead = ground arith;
    hash = λ f. simp (hget-hset, key_laws) (ground (arith, s.hash f));
  }

  promoted-Shows :
      (q : String) (db : Db R) (j : String) (v : JobView)
      → Shows R q db j (promoted (promoted v))
      → Shows R q db j (promoted v)
  unfolding to_map
  promoted-Shows q db j v s = record {
    ready = s.ready;
    delayed = s.delayed;
    lease = s.lease;
    active = s.active;
    dead = s.dead;
    hash = λ f. s.hash f ∙ ground arith;
  }

  promote_jobs-Shows :
      (q : String) (ids : List String) (db : Db R) (j : String) (v : JobView)
      → Shows R q db j v
      → Shows R q
          (promote_jobs R (delayed_key q) (ready_key q) ids db)
          j
          (if elem j ids then promoted v else v)
  unfolding promote_jobs
  promote_jobs-Shows q [] db j v s = s
  promote_jobs-Shows q (id ∷ ids) db j v s =
      once R promoted q _ j v (promoted-Shows q _ j v) (id == j) (elem j ids) (
        promote_jobs-Shows q ids (promote_job R (delayed_key q) (ready_key q) id db) j _
          (promote_job-Shows q id db j v s))

  -- The delayed jobs that a promotion takes.
  abbrev pub due : String → ℕ → ℤ → Db R → List String
  due q limit now db = zrangebyscore db.zsets (delayed_key q) now limit

  -- If the request reaches the server, each delayed job that the script finds due becomes ready at its
  -- priority and pending; every other job stays as it was.
  pub promote-Shows :
      (link : Link) (q : String) (limit : ℕ) (now : ℤ) (db : Db R) (j : String) (v : JobView)
      → Shows R q db j v
      → Shows R q
          (promote R link q limit now db).1
          j
          (if reached link && elem j (due q limit now db) then promoted v else v)
  unfolding promote promote_script
  promote-Shows up q limit now db j v s = promote_jobs-Shows q (due q limit now db) db j v s
  promote-Shows (refused e) q limit now db j v s = s
  promote-Shows (cut e) q limit now db j v s = promote_jobs-Shows q (due q limit now db) db j v s

  -- On a working link a promotion reports how many due jobs it took, which is at most its limit, and
  -- each of them becomes ready at its priority and pending, while every other job stays as it was.
  pub promote_exact :
      (q : String) (limit : ℕ) (now : ℤ) (db : Db R) (j : String) (v : JobView)
      → Shows R q db j v
      → ((promote R up q limit now db).0 ≡ ok (length (due q limit now db)))
        × (length (due q limit now db) ≤ limit)
        × Shows R q
            (promote R up q limit now db).1
            j
            (if elem j (due q limit now db) then promoted v else v)
  promote_exact q limit now db j v s = (
    unfold promote promote_script in refl,
    range_limit db.zsets (delayed_key q) now limit,
    promote-Shows up q limit now db j v s,
  )

  not_due :
      (q : String) (limit : ℕ) (now : ℤ) (db : Db R) (j : String) (delayed : Option ℤ)
      → zscore db.zsets (delayed_key q) j ≡ delayed
      → ((t : ℤ) → delayed ≡ some t → now <ℤ t)
      → elem j (due q limit now db) ≡ false
  not_due q limit now db j delayed e later = elim (Bool-cases (elem j (due q limit now db))) [
    | inl found ↦
        let (t, at, over) = range_sound db.zsets (delayed_key q) now limit j found in
        absurd (omega (arith, later t (sym e ∙ at)))
    | inr missing ↦ missing
  ]

  -- Whatever the limit, a promotion on a working link leaves the places and the hash of a job that
  -- is delayed to a later time, or that is not delayed, exactly as they were.
  pub promotion_spares_later :
      (q : String) (limit : ℕ) (now : ℤ) (db : Db R) (j : String) (v : JobView)
      → Shows R q db j v
      → ((t : ℤ) → v.delayed ≡ some t → now <ℤ t)
      → Shows R q (promote R up q limit now db).1 j v
  promotion_spares_later q limit now db j v s later =
      rw (not_due q limit now db j v.delayed s.delayed later) at
        (promote-Shows up q limit now db j v s)

  -- On a working link, if fewer jobs than the limit are due, a job whose time has come becomes ready
  -- at its priority, and pending.
  pub promotion_complete :
      (q : String) (limit : ℕ) (now t : ℤ) (db : Db R) (j : String) (v : JobView)
      → Shows R q db j v
      → v.delayed ≡ some t
      → t ≤ℤ now
      → length (due q limit now db) < limit
      → Shows R q (promote R up q limit now db).1 j (promoted v)
  promotion_complete q limit now t db j v s at over room =
      rw (range_complete db.zsets (delayed_key q) now limit j t room (s.delayed ∙ at) over) at
        (promote-Shows up q limit now db j v s)
