-- ===== src/Server/Pool/Bound.antt =====
-- server.go, the semaphore of the poll loops: how many jobs run at once, and what becomes of each.
use winter.Base.{
  ℕ, suc, ◌+◌, ◌≤◌, String, ◌≡◌, refl, ap, Bool, true, false, none, some, Option, List, [], ◌∷◌,
  ◌++◌, arith, ◌==◌, if◌then◌else◌, length,
}
use winter.Redis.{Redis, Db}
use winter.Queue.Job.{JobRecord}
use winter.Queue.Api.{dequeue}
use winter.Server.Poll.{job_of}
use winter.Server.Pool.{
  Poller, holding, Phase, serving, aborted, drained, forced, Pool, PoolConfig, after_job,
  after_pass, start, dispatch, Step, set_up, abort, begin_pass, leave_top, acquire, leave_pass,
  fetch, end_pass, wake, leave_wait, finish, elsewhere, cancel, drain, time_out, Reach, here, next,
}

-- The place of the semaphore that the poll loop itself holds.
abbrev pub held : Poller → ℕ
held (holding q qs fetched) = 1
held _ = 0

held-after_job : (strict : Bool) (qs : List String) → held (after_job strict qs) ≡ 0
held-after_job true qs = refl
held-after_job false qs = refl

held-after_pass : (fetched : Bool) → held (after_pass fetched) ≡ 0
held-after_pass true = refl
held-after_pass false = refl

-- How many jobs of a list have an id.
abbrev pub runs_of : String → List JobRecord → ℕ
runs_of id [] = 0
runs_of id (rec ∷ l) = if rec.id == id then suc (runs_of id l) else runs_of id l

runs_of-middle :
    (id : String) (l : List JobRecord) (rec : JobRecord) (r : List JobRecord)
    → runs_of id (l ++ (rec ∷ r)) ≡ runs_of id (rec ∷ (l ++ r))
runs_of-middle id [] rec r = refl
runs_of-middle id (x ∷ l) rec r = ground (arith, runs_of-middle id l rec r)

pub length-middle :
    (l : List JobRecord) (rec : JobRecord) (r : List JobRecord)
    → length (l ++ (rec ∷ r)) ≡ suc (length (l ++ r))
length-middle [] rec r = refl
length-middle (x ∷ l) rec r = ap suc (length-middle l rec r)

module _ (R : Redis) (cfg : PoolConfig) where
  pub record IsCounted (s : Pool R) : Type 0 where
    pub places : s.sem ≡ length s.running + held s.poller
    pub bounded : s.sem ≤ cfg.concurrency
    pub each : (id : String) → runs_of id s.fetched ≡ runs_of id s.running + runs_of id s.finished

  start-IsCounted : (db : Db R) → IsCounted (start R cfg db)
  start-IsCounted db = record { places = refl; bounded = omega arith; each = λ id. refl }

  dispatch-IsCounted :
      (s : Pool R) (q : String) (qs : List String) (fetched : Bool) (o : Option JobRecord)
      (db : Db R)
      → s.poller ≡ holding q qs fetched
      → IsCounted s
      → IsCounted (dispatch R cfg s qs fetched o db)
  dispatch-IsCounted s q qs fetched none db at c = record {
    places = omega (arith, c.places, ap held at);
    bounded = omega (arith, c.bounded);
    each = c.each;
  }
  dispatch-IsCounted s q qs fetched (some rec) db at c = record {
    places = omega (arith, c.places, ap held at, held-after_job cfg.strict qs);
    bounded = c.bounded;
    each = λ id. ground (arith, c.each id);
  }

  -- A step of the poll loop that may take a place and no job.
  loop-IsCounted :
      (s : Pool R) (p : Poller) (n : ℕ)
      → n + held s.poller ≡ s.sem + held p
      → n ≤ cfg.concurrency
      → IsCounted s
      → IsCounted (record s { poller = p; sem = n })
  loop-IsCounted s p n e le c = record {
    places = omega (arith, c.places, e);
    bounded = le;
    each = c.each;
  }

  aside-IsCounted :
      (s : Pool R) (db : Db R) (stop : Bool) (phase : Phase)
      → IsCounted s
      → IsCounted (record s { db = db; cancelled = stop; phase = phase })
  aside-IsCounted s db stop phase c = record {
    places = c.places;
    bounded = c.bounded;
    each = c.each;
  }

  step-IsCounted : {s t : Pool R} → Step R cfg s t → IsCounted s → IsCounted t
  step-IsCounted {s} (set_up at valid) c = aside-IsCounted s s.db s.cancelled serving c
  step-IsCounted {s} (abort at invalid) c = aside-IsCounted s s.db true aborted c
  step-IsCounted {s} (begin_pass at go) c =
      loop-IsCounted s _ s.sem (omega (arith, ap held at)) c.bounded c
  step-IsCounted {s} (leave_top at no_more) c =
      loop-IsCounted s _ s.sem (omega (arith, ap held at)) c.bounded c
  step-IsCounted {s} (acquire q qs fetched at free) c =
      loop-IsCounted s _ (suc s.sem) (omega (arith, ap held at)) free c
  step-IsCounted {s} (leave_pass q qs fetched at no_more) c =
      loop-IsCounted s _ s.sem (omega (arith, ap held at)) c.bounded c
  step-IsCounted {s} (fetch q qs fetched link now at) c =
      dispatch-IsCounted s q qs fetched (job_of (dequeue R link q cfg.worker_id now s.db).0) _ at c
  step-IsCounted {s} (end_pass fetched at) c =
      loop-IsCounted s _ s.sem (omega (arith, ap held at, held-after_pass fetched)) c.bounded c
  step-IsCounted {s} (wake at) c = loop-IsCounted s _ s.sem (omega (arith, ap held at)) c.bounded c
  step-IsCounted {s} (leave_wait at no_more) c =
      loop-IsCounted s _ s.sem (omega (arith, ap held at)) c.bounded c
  step-IsCounted (finish before rec after db at) c = record {
    places = omega (arith, c.places, ap length at, length-middle before rec after);
    bounded = omega (arith, c.bounded);
    each = λ id. ground (arith, c.each id, ap (runs_of id) at, runs_of-middle id before rec after);
  }
  step-IsCounted {s} (elsewhere db) c = aside-IsCounted s db s.cancelled s.phase c
  step-IsCounted {s} cancel c = aside-IsCounted s s.db true s.phase c
  step-IsCounted {s} (drain link no_more up gone none_left) c =
      aside-IsCounted s _ s.cancelled drained c
  step-IsCounted {s} (time_out link no_more up) c = aside-IsCounted s _ s.cancelled forced c

  pub Reach-IsCounted : {db : Db R} {s : Pool R} → Reach R cfg (start R cfg db) s → IsCounted s
  Reach-IsCounted {db} here = start-IsCounted db
  Reach-IsCounted (next r st) = step-IsCounted st (Reach-IsCounted r)

  -- However the steps of the poll loop, of the jobs, of the shutdown and of everything else are
  -- interleaved, a server never runs more jobs at once than its concurrency, in either poll order.
  pub running-le-concurrency :
      {db : Db R} {s : Pool R} → Reach R cfg (start R cfg db) s → length s.running ≤ cfg.concurrency
  running-le-concurrency r = let c = Reach-IsCounted r in omega (arith, c.places, c.bounded)
