-- ===== src/Tests/Limits.antt =====
-- The rate limiter and the backoff at concrete runs.
use winter.Base.{pos, ◌<ℤ◌, arith}
use winter.Backoff.{next, exponential}
use winter.Backoff.{exponential_overflow}
use winter.RateLimit.{Bucket}
use winter.Tests.{converted}

abbrev full : Bucket
full = record { tokens = pos 10; last_refill = pos 100; expires = pos 110 }

exponential_overflow_example : next converted (exponential (pos 1_000_000_000)) 34 <ℤ pos 0
exponential_overflow_example =
    exponential_overflow converted 1_000_000_000 34 (omega arith) (omega arith) (omega arith)
