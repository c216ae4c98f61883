-- ===== src/Server/Beat.antt =====
-- server.go, heartbeatLoop: what a beat does to the leases of the jobs in flight, and what a
-- recovery then leaves alone.
use winter.Base.{
  ℕ, suc, String, ℤ, ◌+ℤ◌, ◌<ℤ◌, ◌≡◌, refl, Bool, true, false, ◌&&◌, ◌||◌, some, List, [], ◌∷◌,
  arith, ◌==◌, if◌then◌else◌, is_some, Bool-cases, inl, inr, prefix_apart,
}
use winter.Redis.{Redis, Db}
use winter.Queue.Keys.{job_key, workers_key, key_laws}
use winter.Queue.Link.{Link, up}
use winter.Queue.Scripts.{extend_lease_script}
use winter.Queue.Api.{heartbeat, extend_lease, recover_expired_leases_at, lease_duration}
use winter.Queue.View.{JobView, Shows, once}
use winter.Queue.Transitions.{extended}
use winter.Queue.Refine.Lease.{recovery_spares_live}
use winter.Server.Upkeep.{extend_all, beat}

workers-job : (id : String) → (workers_key == job_key id) ≡ false
unfolding job_key
workers-job id = prefix_apart "winter:w" "winter:j" "orkers" "ob:" "" id refl refl

-- Whether a job of a queue is in flight.
abbrev pub in_flight : String → String → List (String × String) → Bool
in_flight q j [] = false
in_flight q j ((id, p) ∷ jobs) = ((p == q) && (id == j)) || in_flight q j jobs

module _ (R : Redis) (now : ℤ) where
  abbrev pub now_always : ℕ → ℤ
  now_always i = now

  abbrev pub up_always : ℕ → Link
  up_always i = up

  abbrev pub expiry : ℤ
  expiry = now +ℤ lease_duration

  extend-Shows :
      (p id q : String) (db : Db R) (j : String) (v : JobView)
      → Shows R q db j v
      → Shows R q
          (extend_lease R up p id lease_duration now db).1
          j
          (if (p == q) && (id == j) then extended expiry v else v)
  unfolding extend_lease extend_lease_script
  extend-Shows p id q db j v s = record {
    ready = simp (R.zscore-zadd_xx, key_laws) (ground (arith, s.ready));
    delayed = simp (R.zscore-zadd_xx, key_laws) (ground (arith, s.delayed));
    lease = simp (R.zscore-zadd_xx, s.lease, key_laws) (ground arith);
    active = ground (arith, s.active);
    dead = ground (arith, s.dead);
    hash = λ f. ground (arith, s.hash f);
  }

  extended-Shows :
      (q : String) (db : Db R) (j : String) (v : JobView)
      → Shows R q db j (extended expiry (extended expiry v))
      → Shows R q db j (extended expiry v)
  extended-Shows q db j v s = elim (Bool-cases (is_some v.lease)) [
    | inl held ↦ rw held (rw held at s)
    | inr free ↦ rw free (rw free at s)
  ]

  extend_all-Shows :
      (i : ℕ) (jobs : List (String × String)) (q : String) (db : Db R) (j : String) (v : JobView)
      → Shows R q db j v
      → Shows R q
          (extend_all R up_always now_always i jobs db)
          j
          (if in_flight q j jobs then extended expiry v else v)
  unfolding extend_all
  extend_all-Shows i [] q db j v s = s
  extend_all-Shows i ((id, p) ∷ jobs) q db j v s =
      once R (extended expiry) q _ j v (extended-Shows q _ j v) ((p == q) && (id == j))
        (in_flight q j jobs)
        (extend_all-Shows (suc i) jobs q (extend_lease R up p id lease_duration now db).1 j _
          (extend-Shows p id q db j v s))

  heartbeat-Shows :
      (worker q : String) (db : Db R) (j : String) (v : JobView)
      → Shows R q db j v
      → Shows R q (heartbeat R up worker now db).1 j v
  unfolding heartbeat
  heartbeat-Shows worker q db j v s = record {
    ready = s.ready;
    delayed = s.delayed;
    lease = s.lease;
    active = s.active;
    dead = s.dead;
    hash = λ f. simp (R.hget-hset, workers-job j) (s.hash f);
  }

  pub beat-Shows :
      (worker q : String) (jobs : List (String × String)) (db : Db R) (j : String) (v : JobView)
      → Shows R q db j v
      → is_some v.lease ≡ true
      → in_flight q j jobs ≡ true
      → Shows R q (beat R up_always now_always worker jobs db) j (record v { lease = some expiry })
  unfolding beat
  beat-Shows worker q jobs db j v s held flies =
      rw (flies, held) at
        (extend_all-Shows 1 jobs q (heartbeat R up worker now db).1 j v
          (heartbeat-Shows worker q db j v s))

  -- On working links, after a beat of its worker a job in flight that holds a lease is safe for
  -- thirty seconds: a recovery of its queue at an earlier time than that leaves its places and its
  -- hash as the beat left them, with the new lease and everything else as before, whatever the
  -- limit and whatever other jobs and queues the worker deals with.
  pub beat_protects :
      (worker q : String) (jobs : List (String × String)) (limit : ℕ) (time : ℤ) (db : Db R)
      (j : String) (v : JobView)
      → Shows R q db j v
      → is_some v.lease ≡ true
      → in_flight q j jobs ≡ true
      → time <ℤ expiry
      → Shows R q
          (recover_expired_leases_at R up q limit time
            (beat R up_always now_always worker jobs db)).1
          j
          (record v { lease = some expiry })
  beat_protects worker q jobs limit time db j v s held flies early =
      recovery_spares_live R up q limit time _ j (record v { lease = some expiry })
        (beat-Shows worker q jobs db j v s held flies) (λ t e. ground (arith, e, early))
