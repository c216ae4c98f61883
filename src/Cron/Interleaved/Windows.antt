-- ===== src/Cron/Interleaved/Windows.antt =====
-- internal/scheduler/cron.go: no window of an entry is enqueued twice, whatever the order.
use winter.Base.{
  String, ℤ, ltb_ℤ, ◌<ℤ◌, Bool, true, false, none, some, [], ◌≡◌, refl, sym, ap, ◌∙◌, arith, subst,
  inl, inr, ◌⊎◌,
}
use winter.Redis.{Redis, Db, num}
use winter.Queue.Link.{Link, Result, ok, err}
use winter.Cron.{Entry, cron_job, compare_and_swap, read_next_run}
use winter.Cron.Once.{enqueue-cron}
use winter.Cron.Interleaved.{
  waiting, won, after_swap, set_stage, entry_state, Ticks, Step, read, early, swap, put, elsewhere,
  Reach, here, next,
}
use winter.Cron.Interleaved.Orderly.{
  IsDistinct, distinct_none, has_window, held, held-after_read, IsOrderly, swap_cases,
  free-IsOrderly, win-IsOrderly, put-IsOrderly,
}

module _ (R : Redis) (decimal : ℤ → String) (e : Entry) where
  passed : (a b c : ℤ) → ltb_ℤ b a ≡ false → b <ℤ c → a <ℤ c
  passed a b c due h = ground arith

  -- What a reply to a swap leaves.
  replied :
      (s : Ticks R decimal e) (server : String) (reply : Result Bool) (z b : ℤ) (db : Db R)
      → (o : IsOrderly R decimal e s)
      → ((entry_state R decimal e db ≡ some (num o.window)) × (held (after_swap z reply) ≡ none))
        ⊎ ((o.window ≡ z) × (entry_state R decimal e db ≡ some (num b)))
      → (o.window ≡ z → o.window <ℤ b)
      → IsOrderly R decimal e
          (record s { db = db; stage = set_stage server (after_swap z reply) s.stage })
  replied s server reply z b db o (inl (kept, lost)) after =
      free-IsOrderly R decimal e s db server (after_swap z reply) o.window o kept (omega arith) lost
  replied s server (ok true) z b db o (inr (same, moved)) after =
      subst
        (λ w.
          IsOrderly R decimal e (record s { db = db; stage = set_stage server (won w) s.stage }))
        same (win-IsOrderly R decimal e s db server b o moved (after same))
  replied s server (ok false) z b db o (inr (same, moved)) after =
      free-IsOrderly R decimal e s db server waiting b o moved (omega (arith, after same)) refl
  replied s server (err x) z b db o (inr (same, moved)) after =
      free-IsOrderly R decimal e s db server waiting b o moved (omega (arith, after same)) refl

  module _ (later : (t : ℤ) → t <ℤ e.next_time t) where
    swap-IsOrderly :
        (s : Ticks R decimal e) (server : String) (link : Link) (z now : ℤ)
        → ltb_ℤ now z ≡ false
        → IsOrderly R decimal e s
        → IsOrderly R decimal e (record s {
          db = (compare_and_swap R decimal link e.name z (e.next_time now) s.db).1;
          stage =
              set_stage server
                (after_swap z (compare_and_swap R decimal link e.name z (e.next_time now) s.db).0)
                s.stage;
        })
    swap-IsOrderly s server link z now due o =
        replied s server _ z (e.next_time now) _ o
          (swap_cases R decimal e link z (e.next_time now) o.window s.db o.stored)
          (λ same.
            passed o.window now (e.next_time now) (subst (λ w. ltb_ℤ now w ≡ false) (sym same) due)
              (later now))

    step-IsOrderly :
        {s t : Ticks R decimal e}
        → Step R decimal e s t
        → IsOrderly R decimal e s
        → IsOrderly R decimal e t
    step-IsOrderly {s} (read server link at) o =
        free-IsOrderly R decimal e s s.db server _ o.window o o.stored (omega arith)
          (held-after_read (read_next_run R decimal link e.name s.db))
    step-IsOrderly {s} (early server z now at soon) o =
        free-IsOrderly R decimal e s s.db server waiting o.window o o.stored (omega arith) refl
    step-IsOrderly {s} (swap server link z now at due) o = swap-IsOrderly s server link z now due o
    step-IsOrderly {s} (put server link z now at) o =
        put-IsOrderly R decimal e s _ server z o
          (enqueue-cron R decimal link (cron_job R decimal e z now) e.name s.db) at
    step-IsOrderly {s} (elsewhere db same) o = record {
      window = o.window;
      stored = same ∙ o.stored;
      held_before = o.held_before;
      held_once = o.held_once;
      held_new = o.held_new;
      enqueued_before = o.enqueued_before;
      distinct = o.distinct;
    }

    reach-IsOrderly :
        {s t : Ticks R decimal e}
        → Reach R decimal e s t
        → IsOrderly R decimal e s
        → IsOrderly R decimal e t
    reach-IsOrderly here o = o
    reach-IsOrderly (next r p) o = step-IsOrderly p (reach-IsOrderly r o)

    starts-IsOrderly :
        (s : Ticks R decimal e) (first : ℤ)
        → entry_state R decimal e s.db ≡ some (num first)
        → ((k : String) → s.stage k ≡ waiting)
        → s.enqueued ≡ []
        → IsOrderly R decimal e s
    starts-IsOrderly s first at idle fresh = record {
      window = first;
      stored = at;
      held_before = λ k z h. absurd (idle_holds k z h);
      held_once = λ i k z h g. absurd (idle_holds i z h);
      held_new = λ k z h. absurd (idle_holds k z h);
      enqueued_before = λ z h. absurd (ground (arith, h, ap (has_window z) fresh));
      distinct = subst IsDistinct (sym fresh) distinct_none;
    }
      where
        idle_holds : (k : String) (z : ℤ) → held (s.stage k) ≡ some z → ⊥
        idle_holds k z h = ground (arith, h, ap held (idle k))

    -- Whatever the order of the commands by which several servers tick, on a network that may fail
    -- at each of them, for an entry that is seeded and whose schedule's next time is always later:
    -- Enqueue is called at most once for each window.
    pub windows_once :
        {s t : Ticks R decimal e} (first : ℤ)
        → entry_state R decimal e s.db ≡ some (num first)
        → ((k : String) → s.stage k ≡ waiting)
        → s.enqueued ≡ []
        → Reach R decimal e s t
        → IsDistinct t.enqueued
    windows_once {s} first at idle fresh r =
        (reach-IsOrderly r (starts-IsOrderly s first at idle fresh)).distinct
