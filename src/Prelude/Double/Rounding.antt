-- ===== src/Prelude/Double/Rounding.antt =====
-- About the rounding of doubles: it keeps the order, and changes no number of 53 bits.
use last_chance_platform.Prelude.{
  ℕ, zero, suc, ◌+◌, ◌*◌, ◌/◌, ◌%◌, ◌^◌, ◌≤◌, ◌<◌, ◌≡◌, refl, sym, ◌∙◌, ap, true, ltb, ◌==◌, arith,
  Bool-cases, inl, inr, if◌then◌else◌,
}
use native.Mathlib.Nat.{
  le_trans, mul-le-mul_right, mul-lt-mul_of_pos_right, le-div_iff_mul-le, div-lt_iff_lt-mul,
  div-add-mod', mul-div_cancel, mul_assoc, div-mul-le_self, mul-le-mul,
}
use last_chance_platform.Prelude.Double.{
  half_even, to_53_bits, of_hundredths, times_double, over_100, math_round,
}

div_mono : (s p q : ℕ) → 0 < s → p ≤ q → p / s ≤ q / s
div_mono s p q pos h = (le-div_iff_mul-le pos).1 (le_trans (div-mul-le_self p s) h)

-- Of two numbers with one quotient the larger has the larger remainder.
mod_mono : (s p q : ℕ) → p ≤ q → p / s ≡ q / s → p % s ≤ q % s
mod_mono s p q h e =
    let one = div-add-mod' p s in let two = rw (← e) at (div-add-mod' q s) in omega arith

nearer_mono :
    (n n' r r' s : ℕ)
    → n ≤ n'
    → (n ≡ n' → r ≤ r')
    → (if ltb (2 * r) s then n else if ltb s (2 * r) then n + 1 else n + n % 2)
      ≤ (if ltb (2 * r') s then n' else if ltb s (2 * r') then n' + 1 else n' + n' % 2)
nearer_mono n n' r r' s le same = elim (Bool-cases (n == n')) [
  | inl e ↦ let eq : n ≡ n' = ground arith in let rs = same eq in ground arith
  | inr ne ↦ let lt : n < n' = ground arith in ground arith
]

half_even_mono : (s p q : ℕ) → 0 < s → p ≤ q → half_even p s ≤ half_even q s
unfolding half_even
half_even_mono s p q pos h =
    nearer_mono (p / s) (q / s) (p % s) (q % s) s (div_mono s p q pos h) (mod_mono s p q h)

half_even_ge : (s p n : ℕ) → 0 < s → n * s ≤ p → n ≤ half_even p s
unfolding half_even
half_even_ge s p n pos h = let le = (le-div_iff_mul-le pos).1 h in ground arith

half_even_le : (s p n : ℕ) → 0 < s → p < n * s → half_even p s ≤ n
unfolding half_even
half_even_le s p n pos h = let lt = (div-lt_iff_lt-mul pos).1 h in ground arith

half_even_whole : (s n : ℕ) → 0 < s → half_even (n * s) s ≡ n
unfolding half_even
half_even_whole s n pos =
    let q = mul-div_cancel n pos in
    let m = div-add-mod' (n * s) s in
    let r : n * s % s ≡ 0 = omega (arith, rw q at m) in rw (q, r) (ground arith)

-- A number of at least 52 bits above the step stays one.
to_53_bits_ge : (k s p : ℕ) → 0 < s → 2 ^ 52 * s ≤ p → 2 ^ 52 * s ≤ to_53_bits k s p
unfolding to_53_bits
to_53_bits_ge zero s p pos h = mul-le-mul_right s (half_even_ge s p (2 ^ 52) pos h)
to_53_bits_ge (suc k) s p pos h = elim (Bool-cases (ltb p (2 ^ 53 * s))) [
  | inl short ↦ rw short (mul-le-mul_right s (half_even_ge s p (2 ^ 52) pos h))
  | inr long ↦
      let rest = to_53_bits_ge k (s * 2) p (omega arith) (ground arith) in rw long (omega arith)
]

pub to_53_bits_mono : (k s p q : ℕ) → 0 < s → p ≤ q → to_53_bits k s p ≤ to_53_bits k s q
unfolding to_53_bits
to_53_bits_mono zero s p q pos h = mul-le-mul_right s (half_even_mono s p q pos h)
to_53_bits_mono (suc k) s p q pos h = elim (Bool-cases (ltb q (2 ^ 53 * s))) [
  | inl two ↦
      let one : ltb p (2 ^ 53 * s) ≡ true = ground arith in
      rw (one, two) (mul-le-mul_right s (half_even_mono s p q pos h))
  | inr two ↦ elim (Bool-cases (ltb p (2 ^ 53 * s))) [
    | inl one ↦
        let up : half_even p s * s ≤ 2 ^ 53 * s =
          mul-le-mul_right s (half_even_le s p (2 ^ 53) pos (ground arith)) in
        let low = to_53_bits_ge k (s * 2) q (omega arith) (ground arith) in
        rw (one, two) (omega arith)
    | inr one ↦ rw (one, two) (to_53_bits_mono k (s * 2) p q (omega arith) h)
  ]
]

abbrev doubled : ℕ → ℕ → ℕ
doubled zero s = s
doubled (suc j) s = doubled j (s * 2)

doubled_times : (j s : ℕ) → doubled j s ≡ doubled j 1 * s
doubled_times zero s = omega arith
doubled_times (suc j) s =
    doubled_times j (s * 2) ∙ (grind arith ∙ ap (λ m. m * s) (sym (doubled_times j 2)))

half_even_multiple : (j s n : ℕ) → 0 < s → half_even (n * doubled j s) s * s ≡ n * doubled j s
half_even_multiple j s n pos =
    let e : n * doubled j s ≡ n * doubled j 1 * s =
      ap (λ m. n * m) (doubled_times j s) ∙ sym (mul_assoc n (doubled j 1) s) in
    rw e (ap (λ m. m * s) (half_even_whole s (n * doubled j 1) pos))

-- A number of 53 bits, at a step that doublings lead to, is not changed.
to_53_bits_whole :
    (k j s n : ℕ) → j ≤ k → 0 < s → n < 2 ^ 53 → to_53_bits k s (n * doubled j s) ≡ n * doubled j s
unfolding to_53_bits
to_53_bits_whole zero zero s n le pos lt = half_even_multiple 0 s n pos
to_53_bits_whole zero (suc j) s n le pos lt = absurd (omega arith)
to_53_bits_whole (suc k) zero s n le pos lt =
    let small = mul-lt-mul_of_pos_right lt pos in
    let short : ltb (n * s) (2 ^ 53 * s) ≡ true = ground arith in
    rw short (half_even_multiple 0 s n pos)
to_53_bits_whole (suc k) (suc j) s n le pos lt =
    elim (Bool-cases (ltb (n * doubled j (s * 2)) (2 ^ 53 * s))) [
      | inl short ↦ rw short (half_even_multiple (suc j) s n pos)
      | inr long ↦ rw long (to_53_bits_whole k j (s * 2) n (omega arith) (omega arith) lt)
    ]

module _ (p q : ℕ) (h : p ≤ q) where
  pub of_hundredths_mono : of_hundredths p ≤ of_hundredths q
  unfolding of_hundredths
  of_hundredths_mono =
      div_mono 100 _ _ (omega arith)
        (to_53_bits_mono 80 100 _ _ (omega arith) (mul-le-mul_right (2 ^ 66) h))

  pub over_100_mono : over_100 p ≤ over_100 q
  unfolding over_100
  over_100_mono = div_mono 100 _ _ (omega arith) (to_53_bits_mono 80 100 _ _ (omega arith) h)

  pub math_round_mono : math_round p ≤ math_round q
  unfolding math_round
  math_round_mono = omega arith

pub times_double_mono : (m n x y : ℕ) → m ≤ n → x ≤ y → times_double m x ≤ times_double n y
unfolding times_double
times_double_mono m n x y hm hx = to_53_bits_mono 80 1 _ _ (omega arith) (mul-le-mul hm hx)

hundred : of_hundredths 10000 ≡ 100 * 2 ^ 66
unfolding of_hundredths to_53_bits half_even
hundred = refl

times_hundred : (n : ℕ) → n < 2 ^ 46 → times_double n (100 * 2 ^ 66) ≡ n * (100 * 2 ^ 66)
unfolding times_double
times_hundred n h =
    let units : doubled 66 1 ≡ 2 ^ 66 = refl in
    let e : n * 100 * doubled 66 1 ≡ n * (100 * 2 ^ 66) = rw units (omega arith) in
    rw e at (to_53_bits_whole 80 66 1 (n * 100) (omega arith) (omega arith) (omega arith))

over_hundred : (n : ℕ) → n < 2 ^ 46 → over_100 (n * (100 * 2 ^ 66)) ≡ n * 2 ^ 66
unfolding over_100
over_hundred n h =
    let units : doubled 66 100 ≡ 100 * 2 ^ 66 = refl in
    let e = rw units at (to_53_bits_whole 80 66 100 n (omega arith) (omega arith) (omega arith)) in
    rw e (omega arith)

-- A hundred percent of a whole number below 2 ^ 46 is that number.
pub hundred_percent :
    (n : ℕ) → n < 2 ^ 46 → math_round (over_100 (times_double n (of_hundredths 10000))) ≡ n
unfolding math_round
hundred_percent n h = rw (hundred, times_hundred n h, over_hundred n h) (omega arith)
