-- ===== src/Server/Promotion.antt =====
-- server.go, promoteLoop: a delayed job whose time has come, over the ticks of a server.
use winter.Base.{
  ℕ, ◌+◌, ◌<◌, ◌≤◌, String, ℤ, ◌≤ℤ◌, ◌≡◌, refl, sym, ◌∙◌, ap, subst, true, false, some, List, [],
  ◌∷◌, arith, eq_refl, Bool-cases, inl, inr, ◌⊎◌, length, is_some, ltb,
}
use winter.Redis.{Redis, Db, elem, flag}
use winter.Queue.Keys.{ready_key, delayed_key, ready-delayed}
use winter.Queue.Link.{up}
use winter.Queue.Scripts.{promote_job, promote_jobs, promote_script, stored_priority}
use winter.Queue.View.{JobView, Shows}
use winter.Queue.Transitions.{promoted}
use winter.Queue.Api.{promote}
use winter.Queue.Refine.Promote.{due, promote-Shows, promotion_spares_later}
use winter.Ticker.{Turn, ticker_loop}
use winter.Server.Upkeep.{promote_loop, promote_all}

module _ (R : Redis) (q : String) where
  open R use {
    zcard, zscore, zcard-zadd, zcard-zrem, zscore-zadd, zscore-zrem, range_sound, range_complete,
  }

  abbrev pub waiting : Db R → ℕ
  waiting db = zcard db.zsets (delayed_key q)

  promote_job-waiting :
      (id : String) (db : Db R)
      → waiting (promote_job R (delayed_key q) (ready_key q) id db)
          + flag (is_some (zscore db.zsets (delayed_key q) id))
        ≡ waiting db
  unfolding promote_job
  promote_job-waiting id db = ground (
    arith,
    ready-delayed q q,
    eq_refl (delayed_key q),
    zcard-zadd (ready_key q) (stored_priority R db.hashes id) id
        (R.zrem (delayed_key q) id db.zsets) (delayed_key q),
    zcard-zrem (delayed_key q) id db.zsets (delayed_key q),
  )

  promote_jobs-waiting :
      (ids : List String) (db : Db R)
      → waiting (promote_jobs R (delayed_key q) (ready_key q) ids db) ≤ waiting db
  unfolding promote_jobs
  promote_jobs-waiting [] db = omega arith
  promote_jobs-waiting (id ∷ ids) db = omega (
    arith,
    promote_jobs-waiting ids (promote_job R (delayed_key q) (ready_key q) id db),
    promote_job-waiting id db,
  )

  -- A promotion that takes a job leaves fewer of them.
  fewer_waiting :
      (ids : List String) (db : Db R)
      → ((m : String) → elem m ids ≡ true → is_some (zscore db.zsets (delayed_key q) m) ≡ true)
      → 0 < length ids
      → waiting (promote_jobs R (delayed_key q) (ready_key q) ids db) < waiting db
  unfolding promote_jobs
  fewer_waiting [] db there some_ids = absurd (omega (arith, some_ids))
  fewer_waiting (id ∷ ids) db there some_ids = ground (
    arith,
    promote_jobs-waiting ids (promote_job R (delayed_key q) (ready_key q) id db),
    promote_job-waiting id db,
    there id,
    eq_refl id,
  )

  taken_there :
      (limit : ℕ) (now : ℤ) (db : Db R) (m : String)
      → elem m (due R q limit now db) ≡ true
      → is_some (zscore db.zsets (delayed_key q) m) ≡ true
  taken_there limit now db m found =
      let (t, at, over) = range_sound db.zsets (delayed_key q) now limit m found in rw at refl

  full_batch :
      (limit : ℕ) (now t : ℤ) (db : Db R) (j : String)
      → zscore db.zsets (delayed_key q) j ≡ some t
      → t ≤ℤ now
      → elem j (due R q limit now db) ≡ false
      → limit ≤ length (due R q limit now db)
  full_batch limit now t db j at over missed =
      elim (Bool-cases (ltb (length (due R q limit now db)) limit)) [
        | inl room ↦ absurd (
            ground (
              arith,
              missed,
              range_complete db.zsets (delayed_key q) now limit j t (ground (arith, room)) at over,
            ))
        | inr full ↦ ground (arith, full)
      ]

  -- A promotion on a working link takes the job, or it takes others and leaves fewer delayed.
  promotes :
      (limit : ℕ) (now t : ℤ) (db : Db R) (j : String) (v : JobView)
      → 0 < limit
      → Shows R q db j v
      → v.delayed ≡ some t
      → t ≤ℤ now
      → Shows R q (promote R up q limit now db).1 j (promoted v)
        ⊎ (Shows R q (promote R up q limit now db).1 j v
            × (waiting (promote R up q limit now db).1 < waiting db))
  promotes limit now t db j v some_limit s at over =
      elim (Bool-cases (elem j (due R q limit now db))) [
        | inl taken ↦ inl (rw taken at (promote-Shows R up q limit now db j v s))
        | inr missed ↦
            let full = full_batch limit now t db j (s.delayed ∙ at) over missed in
            inr (
              rw missed at (promote-Shows R up q limit now db j v s),
              unfold promote promote_script in
                  fewer_waiting (due R q limit now db) db (taken_there limit now db)
                    (omega (arith, full, some_limit)),
            )
      ]

  some_waiting :
      (j : String) (t : ℤ) (db : Db R) → zscore db.zsets (delayed_key q) j ≡ some t → 0 < waiting db
  some_waiting j t db at =
      ground
        (arith, at, eq_refl (delayed_key q), zcard-zrem (delayed_key q) j db.zsets (delayed_key q))

  -- The turns of a loop that goes on, on working links, at times from t on; what others do between
  -- them delays no more jobs and leaves the job j alone.
  abbrev pub Calm : String → ℤ → List (Turn R) → Type 0
  Calm j t [] = Unit
  Calm j t (turn ∷ turns) =
      (turn.done ≡ false)
      × (turn.links 0 ≡ up)
      × (t ≤ℤ turn.now 0)
      × ((db : Db R) (v : JobView) → Shows R q db j v → Shows R q (turn.meanwhile db) j v)
      × ((db : Db R) → waiting (turn.meanwhile db) ≤ waiting db)
      × Calm j t turns

  abbrev pub loop : List (Turn R) → Db R → Db R
  loop turns = promote_loop R (q ∷ []) turns

  goes_on :
      (turn : Turn R) (turns : List (Turn R)) (db : Db R)
      → turn.done ≡ false
      → loop (turn ∷ turns) db
        ≡ loop turns (promote R (turn.links 0) q 100 (turn.now 0) (turn.meanwhile db)).1
  unfolding promote_loop promote_all ticker_loop
  goes_on turn turns db on = rw on refl

  one_turn :
      (turn : Turn R) (turns : List (Turn R)) (db : Db R)
      → turn.done ≡ false
      → turn.links 0 ≡ up
      → loop (turn ∷ turns) db ≡ loop turns (promote R up q 100 (turn.now 0) (turn.meanwhile db)).1
  one_turn turn turns db on works =
      goes_on turn turns db on
      ∙ ap (λ l. loop turns (promote R l q 100 (turn.now 0) (turn.meanwhile db)).1) works

  -- A promoted job stays where it is.
  stays_promoted :
      (turns : List (Turn R)) (t : ℤ) (db : Db R) (j : String) (v : JobView)
      → Calm j t turns
      → Shows R q db j (promoted v)
      → Shows R q (loop turns db) j (promoted v)
  unfolding promote_loop ticker_loop
  stays_promoted [] t db j v calm s = s
  stays_promoted (turn ∷ turns) t db j v (on, works, _, keeps, _, calm) s =
      subst (λ w. Shows R q w j (promoted v)) (sym (one_turn turn turns db on works))
        (stays_promoted turns t _ j v calm (
          promotion_spares_later R q 100 (turn.now 0) (turn.meanwhile db) j (promoted v)
            (keeps db (promoted v) s) (λ u e. ground (arith, e))))

  -- The promote loop of a server of one queue promotes every delayed job whose time has come: after
  -- as many ticks on working links as there are delayed jobs, if others delay no more of them and
  -- leave the job alone, the job is ready at its priority and pending, however many jobs are due
  -- before it and whatever the batches of a hundred hold.
  pub promote_loop_complete :
      (turns : List (Turn R)) (t : ℤ) (db : Db R) (j : String) (v : JobView)
      → Calm j t turns
      → waiting db ≤ length turns
      → Shows R q db j v
      → v.delayed ≡ some t
      → Shows R q (loop turns db) j (promoted v)
  promote_loop_complete [] t db j v calm enough s at =
      absurd (omega (arith, enough, some_waiting j t db (s.delayed ∙ at)))
  promote_loop_complete (turn ∷ turns) t db j v (on, works, over, keeps, none_added, calm) enough s
        at =
      subst (λ w. Shows R q w j (promoted v)) (sym (one_turn turn turns db on works))
        (elim (promotes 100 (turn.now 0) t (turn.meanwhile db) j v (omega arith) (keeps db v s) at
          over) [
            | inl taken ↦ stays_promoted turns t _ j v calm taken
            | inr (left, fewer) ↦
                promote_loop_complete turns t _ j v calm
                  (omega (arith, enough, fewer, none_added db)) left at
          ])
