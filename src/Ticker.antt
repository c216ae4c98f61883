-- ===== src/Ticker.antt =====
-- The loops of the background goroutines: a select over the end of the context and a ticker.
use winter.Base.{ℕ, ℤ, Bool, List, [], ◌∷◌, if◌then◌else◌}
use winter.Redis.{Redis, Db}
use winter.Queue.Link.{Link}

-- A turn of such a loop: which case the select takes, what others have done to the database before
-- it, the links and the clock's readings of the turn's round trips, and whether the context has
-- ended by the time of each.
pub record Turn (R : Redis) : Type 0 where
  pub done : Bool
  pub meanwhile : Db R → Db R
  pub links : ℕ → Link
  pub now : ℕ → ℤ
  pub ended : ℕ → Bool

module _ (R : Redis) where
  unfoldable pub ticker_loop : (Turn R → Db R → Db R) → List (Turn R) → Db R → Db R
  ticker_loop body [] db = db
  ticker_loop body (t ∷ ts) db =
      let rest = ticker_loop body ts in
      let found = t.meanwhile db in if t.done then found else rest (body t found)
