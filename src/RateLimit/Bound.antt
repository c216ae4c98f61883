-- ===== src/RateLimit/Bound.antt =====
-- internal/ratelimit/limiter.go: a bucket that expires.
use winter.Base.{ℕ, pos, leb, if◌then◌else◌, ◌≡◌}
use winter.RateLimit.{Bucket}

abbrev pub min : ℕ → ℕ → ℕ
min a b = if leb a b then a else b

-- A bucket that holds `fill` units, last used at `t`.
pub record Holds (fill t : ℕ) (b : Bucket) : Type 0 where
  pub tokens : b.tokens ≡ pos fill
  pub last_refill : b.last_refill ≡ pos t
