-- ===== src/Prelude/Double.antt =====
-- The numbers of the language are doubles. One that is not negative, and is zero or at least
-- 2 ^ -14, is a number of units of 2 ^ -66: the numbers that a price meets are.
pub mod Rounding
use last_chance_platform.Prelude.{ℕ, zero, suc, ◌+◌, ◌*◌, ◌/◌, ◌%◌, ◌^◌, Bool, ltb, if◌then◌else◌}

-- the quotient, to the nearest number; a half goes to the even one
unfoldable pub half_even : ℕ → ℕ → ℕ
half_even p s =
    let n = p / s in
    let r = 2 * (p % s) in if ltb r s then n else if ltb s r then n + 1 else n + n % 2

-- `p` at 53 significant bits: to a multiple of `s`, or of as many times its double as bits are
-- over, `k` at most.
unfoldable pub to_53_bits : ℕ → ℕ → ℕ → ℕ
to_53_bits zero s p = half_even p s * s
to_53_bits (suc k) s p =
    let wider = to_53_bits k (s * 2) p in if ltb p (2 ^ 53 * s) then half_even p s * s else wider

-- how many doublings there are: enough for a value of 2 ^ 67
abbrev pub doublings : ℕ
doublings = 80

-- the double of `n / 100`, `n` a number of hundredths
unfoldable pub of_hundredths : ℕ → ℕ
of_hundredths n = to_53_bits doublings 100 (n * 2 ^ 66) / 100

-- `n * x`, `n` a whole number
unfoldable pub times_double : ℕ → ℕ → ℕ
times_double n x = to_53_bits doublings 1 (n * x)

-- `x / 100`
unfoldable pub over_100 : ℕ → ℕ
over_100 x = to_53_bits doublings 100 x / 100

-- `Math.round`: to the nearest whole number, a half upwards
unfoldable pub math_round : ℕ → ℕ
math_round x = (x + 2 ^ 65) / 2 ^ 66
