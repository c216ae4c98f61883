-- ===== src/RateLimit.antt =====
-- internal/ratelimit/limiter.go: the token bucket. The script counts in floating-point tokens, which
-- it rounds; here a token is `interval` units, so that the refill of `max` tokens per interval is
-- exact: `max` units per millisecond. Near a whole token the script can answer otherwise: a caller
-- that waits for the delay that it is given may be turned away again. A limit of no jobs, or an interval below one millisecond, by which the script
-- divides, is left aside. A bucket that PEXPIRE has removed is one whose time is over.
pub mod Bound
use winter.Base.{
  ℕ, suc, ◌+◌, ◌-◌, ◌*◌, ◌/◌, ◌≤◌, ◌<◌, ℤ, pos, negsuc, ◌+ℤ◌, ◌-ℤ◌, leb_ℤ, ltb_ℤ, String, ◌<>◌,
  Option, none, some, if◌then◌else◌, List, [], ◌∷◌, ◌==◌, Bool, true, false,
}
use winter.Queue.Link.{Link, Result, context, call}
use winter.Backoff.{times}

pub record Bucket : Type 0 where
  pub tokens : ℤ
  pub last_refill : ℤ
  pub expires : ℤ

pub data Answer : Type 0 where
  allowed : ℕ → Answer
  denied : ℕ → Answer

abbrev pub min_ℤ : ℤ → ℤ → ℤ
min_ℤ a b = if leb_ℤ a b then a else b

-- math.floor of a quotient, for a dividend that is not negative.
abbrev pub floor_part : ℤ → ℕ → ℕ
floor_part (pos n) k = n / k
floor_part (negsuc n) k = 0

-- math.ceil of a quotient, for a dividend that is positive.
abbrev pub ceil_part : ℤ → ℕ → ℕ
ceil_part (pos n) k = (n + (k - 1)) / k
ceil_part (negsuc n) k = 0

-- The tokens after the refill: a bucket that is missing is full.
unfoldable pub refilled : ℕ → ℕ → ℤ → Option Bucket → ℤ
refilled max interval now none = pos (max * interval)
refilled max interval now (some b) =
    min_ℤ (pos (max * interval)) (b.tokens +ℤ times (now -ℤ b.last_refill) max)

unfoldable pub token_bucket_script : ℕ → ℕ → ℤ → Option Bucket → Answer × Bucket
unfolding refilled
token_bucket_script max interval now bucket =
    let tokens = refilled max interval now bucket in
    let expires = now +ℤ pos (interval * 2) in
    if leb_ℤ (pos interval) tokens
    then (let left = tokens -ℤ pos interval in
        (
          allowed (floor_part left interval),
          record { tokens = left; last_refill = now; expires = expires },
        ))
    else (
      denied (ceil_part (pos interval -ℤ tokens) max),
      record { tokens = tokens; last_refill = now; expires = expires },
    )

-- What HGET finds: nothing once the key has expired.
unfoldable pub stored : ℤ → Option Bucket → Option Bucket
stored now none = none
stored now (some b) = if leb_ℤ b.expires now then none else some b

unfoldable pub bucket_key : String → String
bucket_key kind = "winter:ratelimit:" <> kind

abbrev pub Buckets : Type 0
Buckets = List (String × Bucket)

abbrev pub bucket_at : String → Buckets → Option Bucket
bucket_at k [] = none
bucket_at k ((j, b) ∷ s) = if j == k then some b else bucket_at k s

-- Allow, with the interval in milliseconds.
unfoldable pub allow : Link → String → ℕ → ℕ → ℤ → Buckets → Result Answer × Buckets
unfolding call token_bucket_script stored
allow link kind max interval now buckets =
    let (result, buckets') =
      call link
        (λ s.
          let (answer, b) =
            token_bucket_script max interval now (stored now (bucket_at (bucket_key kind) s)) in
          (answer, (bucket_key kind, b) ∷ s))
        buckets in
    (context "winter: rate limit" result, buckets')
