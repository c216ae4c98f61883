-- ===== src/Backoff.antt =====
-- winter.go: the delays between attempts. Durations are 64-bit counts of nanoseconds, and their
-- products wrap around.
use winter.Base.{
  ℕ, zero, suc, ◌-◌, ◌*◌, ◌%◌, ◌^◌, ◌≤◌, ◌<◌, ℤ, pos, negsuc, ltb, ltb_ℤ, ◌≤ℤ◌, ◌<ℤ◌, if◌then◌else◌,
  ◌≡◌, arith,
}

-- The value of an int64 after an overflow.
unfoldable pub wrap_64 : ℤ → ℤ
wrap_64 (pos n) = let r = n % 2 ^ 64 in if ltb r (2 ^ 63) then pos r else negsuc (2 ^ 64 - suc r)
wrap_64 (negsuc n) = let r = n % 2 ^ 64 in if ltb r (2 ^ 63) then negsuc r else pos (2 ^ 64 - suc r)

abbrev pub negate : ℤ → ℤ
negate (pos zero) = pos 0
negate (pos (suc n)) = negsuc n
negate (negsuc n) = pos (suc n)

abbrev pub times : ℤ → ℕ → ℤ
times (pos n) k = pos (n * k)
times (negsuc n) k = negate (pos (suc n * k))

abbrev product : ℤ → ℤ → ℤ
product a (pos k) = times a k
product a (negsuc k) = negate (times a (suc k))

pub data BackoffStrategy : Type 0 where
  exponential : ℤ → BackoffStrategy
  linear : ℤ → BackoffStrategy
  fixed : ℤ → BackoffStrategy

-- One hour.
abbrev pub max_backoff : ℤ
max_backoff = pos 3_600_000_000_000

module _ (converted : ℕ → ℤ) where
  -- time.Duration(math.Pow(2, float64(attempt))): exact below 2^63. What the conversion of a larger
  -- float gives depends on the machine, and is the parameter.
  unfoldable pub scaled : ℤ → ℕ → ℤ
  unfolding wrap_64
  scaled base attempt =
      if ltb attempt 63
      then wrap_64 (times base (2 ^ attempt))
      else wrap_64 (product base (converted attempt))

  unfoldable pub next : BackoffStrategy → ℕ → ℤ
  unfolding scaled
  next (exponential base) attempt =
      let d = scaled base attempt in if ltb_ℤ max_backoff d then max_backoff else d
  next (linear step) attempt = wrap_64 (times step (suc attempt))
  next (fixed d) attempt = d

  wrap_small : (n : ℕ) → n < 2 ^ 63 → wrap_64 (pos n) ≡ pos n
  unfolding wrap_64
  wrap_small n h = ground arith

  wrap_negative : (n : ℕ) → 2 ^ 63 ≤ n → n < 2 ^ 64 → wrap_64 (pos n) ≡ negsuc (2 ^ 64 - suc n)
  unfolding wrap_64
  wrap_negative n low high = ground arith

  -- While the product fits 63 bits, an exponential backoff waits the base times two to the attempt,
  -- and never more than an hour.
  pub exponential_exact :
      (b n : ℕ)
      → n < 63
      → b * 2 ^ n < 2 ^ 63
      → next (exponential (pos b)) n
        ≡ (if ltb 3_600_000_000_000 (b * 2 ^ n) then max_backoff else pos (b * 2 ^ n))
  unfolding next scaled
  exponential_exact b n small fits = rw (wrap_small (b * 2 ^ n) fits) (ground arith)

  -- When the product needs the sign bit, the wait of an exponential backoff is negative, so that the
  -- retry is due at once in place of in an hour.
  pub exponential_overflow :
      (b n : ℕ)
      → n < 63
      → 2 ^ 63 ≤ b * 2 ^ n
      → b * 2 ^ n < 2 ^ 64
      → next (exponential (pos b)) n <ℤ pos 0
  unfolding next scaled
  exponential_overflow b n small low high = rw (wrap_negative (b * 2 ^ n) low high) (ground arith)

  -- No strategy of the exponential kind waits longer than an hour, overflow or not.
  pub exponential_capped : (base : ℤ) (n : ℕ) → next (exponential base) n ≤ℤ max_backoff
  unfolding next
  exponential_capped base n = ground arith
