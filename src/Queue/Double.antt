-- ===== src/Queue/Double.antt =====
-- internal/queue/scripts.go: the numbers that the enqueue script passes through Lua. `tonumber` makes
-- a double, and redis.call writes a double with 17 digits.
use winter.Base.{
  ℕ, zero, suc, ◌+◌, ◌-◌, ◌*◌, ◌/◌, ◌%◌, ◌^◌, ◌<◌, ℤ, pos, negsuc, ◌≤ℤ◌, ltb, nat_eq, ◌≡◌,
  if◌then◌else◌, arith,
}

-- The distance of the doubles around `n`, which halves of at least 2 ^ 53 double. Eleven halves are
-- enough for 64 bits.
unfoldable pub spacing : ℕ → ℕ → ℕ
spacing zero n = 1
spacing (suc fuel) n =
    let rest = spacing fuel (n / 2) in if ltb n 9_007_199_254_740_992 then 1 else 2 * rest

-- The multiple of `unit` that is nearest to `n`, and of two the even one.
abbrev pub nearest : ℕ → ℕ → ℕ
nearest unit n =
    let below = n / unit * unit in
    let rest = 2 * (n % unit) in
    if ltb rest unit
    then below
    else if ltb unit rest
    then below + unit
    else if nat_eq (n / unit % 2) 0
    then below
    else below + unit

-- The double that is nearest to a 64-bit integer, as an integer.
unfoldable pub to_double : ℤ → ℤ
unfolding spacing
to_double (pos n) = pos (nearest (spacing 11 n) n)
to_double (negsuc n) = negsuc (nearest (spacing 11 (suc n)) (suc n) - 1)

-- strconv.Atoi and strconv.ParseInt, the error dropped, of a double that is written with 17 digits:
-- from 10 ^ 17 on it is written with an exponent, which they refuse.
unfoldable pub written_double : ℤ → ℤ
written_double (pos n) = if ltb n 100_000_000_000_000_000 then pos n else pos 0
written_double (negsuc n) = if ltb (suc n) 100_000_000_000_000_000 then negsuc n else pos 0

-- An integer below 2 ^ 53 in size, which a double holds exactly.
abbrev pub IsExact : ℤ → Type 0
IsExact z = (negsuc (2 ^ 53 - 2) ≤ℤ z) × (z ≤ℤ pos (2 ^ 53 - 1))

spacing_one : (n : ℕ) → n < 9_007_199_254_740_992 → spacing 11 n ≡ 1
unfolding spacing
spacing_one n h = ground arith

nearest_one : (n : ℕ) → nearest 1 n ≡ n
nearest_one n = ground arith

pub written_double-to_double : (z : ℤ) → IsExact z → written_double (to_double z) ≡ z
unfolding to_double written_double
written_double-to_double (pos n) (low, high) =
    rw (spacing_one n (omega arith), nearest_one n) (ground arith)
written_double-to_double (negsuc n) (low, high) =
    rw (spacing_one (suc n) (omega arith), nearest_one (suc n)) (ground arith)
