-- ===== src/Time/Year.antt =====
-- The two branches of `__year_to_secs` against the Gregorian calendar.
use leblibc.Prelude.{
  ℕ, zero, suc, ◌+◌, ◌-◌, ◌*◌, ◌/◌, ◌%◌, ◌^◌, ◌≤◌, ◌<◌, ◌≡◌, refl, Bool, true, false, not, ◌==◌,
  ◌&&◌, ◌||◌, if◌then◌else◌, arith, Bool-cases, ==_iff, ◌≢◌, inl, inr, ◌∙◌,
}
use leblibc.Prelude.Int.{
  ℤ, pos, negsuc, ◌+ℤ◌, ◌-ℤ◌, ◌*ℤ◌, one_part, ◌/ℤ◌, ◌%ℤ◌, is_negative, ltb_ℤ, negate, pos_part,
  neg_part, int_laws, IsInt, to_int-IsInt,
}
use leblibc.Time.{
  near_years, far_years, floor_quot, floor_rem, in_cycle, year_to_secs, shift_right_two,
  low_two_bits,
}

-- Is the year g of our era a leap year?
abbrev pub gregorian : ℕ → Bool
gregorian g = g % 4 == 0 && (not (g % 100 == 0) || g % 400 == 0)

-- The leap days in the years before year g.
abbrev pub leap_days : ℕ → ℕ
leap_days g = (g + 3) / 4 - (g + 99) / 100 + (g + 399) / 400

-- `year` counts from 1900; with k cycles of 400 years added it is the year g.
abbrev pub IsYear : ℤ → ℕ → ℕ → Type 0
IsYear year g k = pos_part year + 1900 + 400 * k ≡ g + neg_part year

-- The years that __tm_to_secs can pass on, and more.
abbrev pub IsModerate : ℤ → Type 0
IsModerate year = (pos_part year ≤ 2 ^ 33) × (neg_part year ≤ 2 ^ 33)

-- `secs` are the seconds from 1970 to the start of the year g, less those of the k cycles.
abbrev pub StartsAt : ℤ → ℕ → ℕ → Type 0
StartsAt secs g k =
    pos_part secs + 86400 * (146097 * k + 719528) ≡ 86400 * (365 * g + leap_days g) + neg_part secs

shift_parts :
    (a : ℤ)
    → pos_part (shift_right_two a) * 4 + low_two_bits a + neg_part a
      ≡ pos_part a + 4 * neg_part (shift_right_two a)
shift_parts (pos n) = omega arith
shift_parts (negsuc n) = omega arith

low_two_bits-lt : (a : ℤ) → low_two_bits a < 4
low_two_bits-lt (pos n) = omega arith
low_two_bits-lt (negsuc n) = omega arith

abbrev IsNear : ℤ → Type 0
IsNear year = (neg_part year ≡ 0) × (2 ≤ pos_part year) × (pos_part year ≤ 138)

ne_zero : (n : ℕ) → (n == 0) ≡ false → n ≢ 0
ne_zero n e = ground arith

-- The seconds of a near year fit into an int.
near_fits :
    (year leaps : ℤ)
    → IsNear year
    → (pos_part leaps ≤ 17) × (neg_part leaps ≤ 18)
    → IsInt ((year -ℤ pos 70) *ℤ 31536000 +ℤ leaps *ℤ 86400)
near_fits year leaps near small =
    omega (int_laws, one_part ((year -ℤ pos 70) *ℤ 31536000 +ℤ leaps *ℤ 86400))

near_secs : (year : ℤ) (g k : ℕ) → IsNear year → IsYear year g k → StartsAt (near_years year).0 g k
unfolding near_years
near_secs year g k near y =
    let leaps = shift_right_two (year -ℤ pos 68) in
    elim (Bool-cases (low_two_bits (year -ℤ pos 68) == 0)) [
      | inl e ↦
          let zero_bits = (==_iff _ _).0 e in
          let fits = near_fits year (leaps -ℤ pos 1) near (
            omega (int_laws, shift_parts (year -ℤ pos 68), zero_bits, one_part (leaps -ℤ pos 1))) in
          rw (e, to_int-IsInt _ fits) (omega (int_laws, shift_parts (year -ℤ pos 68), zero_bits))
      | inr e ↦
          let bits = ne_zero (low_two_bits (year -ℤ pos 68)) e in
          let fits = near_fits year leaps near (
            omega (
              int_laws,
              shift_parts (year -ℤ pos 68),
              low_two_bits-lt (year -ℤ pos 68),
              bits,
              one_part leaps,
            )) in
          rw (e, to_int-IsInt _ fits)
            (omega (int_laws, shift_parts (year -ℤ pos 68), low_two_bits-lt (year -ℤ pos 68), bits))
    ]

bit : Bool → ℕ
bit true = 1
bit false = 0

in_cycle_lem :
    (rem : ℕ)
    → rem < 400
    → let (centuries, leaps, is_leap) = in_cycle rem in
      (24 * centuries + leaps + 1 ≡ leap_days rem + bit is_leap) × (is_leap ≡ gregorian rem)
unfolding in_cycle bit
in_cycle_lem rem lt = ground arith

low_two_bits_mod : (a : ℤ) → low_two_bits a ≡ (pos_part a + 3 * neg_part a) % 4
low_two_bits_mod (pos n) = omega arith
low_two_bits_mod (negsuc n) = omega arith

gregorian_mod : (a b : ℕ) → a % 400 ≡ b % 400 → gregorian a ≡ gregorian b
gregorian_mod a b e =
    let four : a % 4 ≡ b % 4 = omega arith in
    let century : a % 100 ≡ b % 100 = omega arith in rw (e, four, century)

near_pattern : (n : ℕ) → 2 ≤ n → n ≤ 138 → (n % 4 == 0) ≡ gregorian (n + 1900)
near_pattern n lo hi = ground arith

near_leap : (year : ℤ) (g k : ℕ) → IsNear year → IsYear year g k → (near_years year).1 ≡ gregorian g
unfolding near_years
near_leap year g k near y =
    let low : low_two_bits (year -ℤ pos 68) ≡ pos_part year % 4 =
      omega (int_laws, low_two_bits_mod (year -ℤ pos 68)) in
    rw low (
      near_pattern (pos_part year) near.1 near.2
      ∙ gregorian_mod (pos_part year + 1900) g (omega arith))

IsNear-range :
    (year : ℤ) → (not (ltb_ℤ year (pos 2)) && not (ltb_ℤ (pos 138) year)) ≡ true → IsNear year
IsNear-range (pos n) e = ground arith
IsNear-range (negsuc n) e = ground arith

floor_negative : (m d : ℕ) → 0 < d → (m ≡ d * (m / d) + m % d) × (m % d < d)
floor_negative m d h = (grind arith, grind arith)

-- The quotient of -m, rounded down, and the remainder.
negate_exact : (q : ℕ) → (pos_part (negate q) ≡ 0) × (neg_part (negate q) ≡ q)
negate_exact q = ground arith

negate_less : (q : ℕ) → (pos_part (negate q -ℤ pos 1) ≡ 0) × (neg_part (negate q -ℤ pos 1) ≡ suc q)
unfolding ◌-ℤ◌
negate_less q = ground arith

negate_plus : (r d : ℕ) → r < d → pos_part (negate r +ℤ pos d) ≡ d - r
unfolding ◌+ℤ◌
negate_plus r d h = ground arith

exact_sum : (n d q : ℕ) → suc n ≡ d * q + 0 → 0 + d * q ≡ suc n + d * 0 + 0
exact_sum n d q e = omega arith

less_sum : (n d q r : ℕ) → suc n ≡ d * q + r → r < d → 0 + d * suc q ≡ suc n + d * 0 + (d - r)
less_sum n d q r e h = grind arith

negative_suc : (r : ℕ) → is_negative (negate (suc r)) ≡ true
negative_suc r = ground arith

floor_below :
    (n d q r : ℕ)
    → suc n ≡ d * q + r
    → r < d
    → let quot = if is_negative (negate r) then negate q -ℤ pos 1 else negate q in
      let rem = pos_part (if is_negative (negate r) then negate r +ℤ pos d else negate r) in
      (rem < d) × (0 + d * neg_part quot ≡ suc n + d * pos_part quot + rem)
floor_below n d q zero e h = (h, rw ((negate_exact q).0, (negate_exact q).1) (exact_sum n d q e))
floor_below n d q (suc r) e h =
    rw (negative_suc r, negate_plus (suc r) d h, (negate_less q).0, (negate_less q).1)
      (omega arith, less_sum n d q (suc r) e h)

pub floor_split :
    (a : ℤ) (d : ℕ)
    → 0 < d
    → (floor_rem a d < d)
      × (pos_part a + d * neg_part (floor_quot a d)
          ≡ neg_part a + d * pos_part (floor_quot a d) + floor_rem a d)
unfolding floor_quot floor_rem ◌/ℤ◌ ◌%ℤ◌ ◌-ℤ◌ ◌+ℤ◌
floor_split (pos n) d h = grind arith
floor_split (negsuc n) d h =
    let e = floor_negative (suc n) d h in floor_below n d (suc n / d) (suc n % d) e.0 e.1

bit-if : (b : Bool) → (if b then 1 else 0) ≡ bit b
unfolding bit
bit-if true = refl
bit-if false = refl

-- The cycles of a moderate year, and its leap years, fit into an int.
cycles_fit : (year : ℤ) → IsModerate year → IsInt (floor_quot (year -ℤ pos 100) 400)
cycles_fit year moderate =
    let split = floor_split (year -ℤ pos 100) 400 (omega arith) in
    omega (int_laws, split.0, split.1, one_part (floor_quot (year -ℤ pos 100) 400))

leaps_fit :
    (year : ℤ) (leaps centuries drop : ℕ)
    → IsModerate year
    → (leaps ≤ 400) × (centuries ≤ 3) × (drop ≤ 1)
    → IsInt
        (pos leaps +ℤ (floor_quot (year -ℤ pos 100) 400 *ℤ 97 +ℤ pos (24 * centuries)) -ℤ pos drop)
leaps_fit year leaps centuries drop moderate small =
    let split = floor_split (year -ℤ pos 100) 400 (omega arith) in
    let sum =
      pos leaps +ℤ (floor_quot (year -ℤ pos 100) 400 *ℤ 97 +ℤ pos (24 * centuries)) -ℤ pos drop in
    omega (int_laws, split.0, split.1, one_part (floor_quot (year -ℤ pos 100) 400), one_part sum)

bit-le : (b : Bool) → bit b ≤ 1
unfolding bit
bit-le b = ground arith

in_cycle_small : (rem : ℕ) → rem < 400 → ((in_cycle rem).1 ≤ 400) × ((in_cycle rem).0 ≤ 3)
unfolding in_cycle
in_cycle_small rem lt = ground arith

far_secs :
    (year : ℤ) (g k : ℕ) → IsModerate year → IsYear year g k → StartsAt (far_years year).0 g k
unfolding far_years
far_secs year g k moderate y =
    let split = floor_split (year -ℤ pos 100) 400 (omega arith) in
    let cycle = in_cycle_lem (floor_rem (year -ℤ pos 100) 400) split.0 in
    let (leaps_small, centuries_small) = in_cycle_small (floor_rem (year -ℤ pos 100) 400) split.0 in
    let (centuries, leaps, is_leap) = in_cycle (floor_rem (year -ℤ pos 100) 400) in
    let fits =
      leaps_fit year leaps centuries (bit is_leap) moderate
        (leaps_small, centuries_small, bit-le is_leap) in
    rw (to_int-IsInt _ (cycles_fit year moderate), bit-if, to_int-IsInt _ fits)
      (omega (int_laws, split.1, cycle.0))

far_leap : (year : ℤ) (g k : ℕ) → IsYear year g k → (far_years year).1 ≡ gregorian g
unfolding far_years
far_leap year g k y =
    let split = floor_split (year -ℤ pos 100) 400 (omega arith) in
    (in_cycle_lem (floor_rem (year -ℤ pos 100) 400) split.0).1
    ∙ gregorian_mod (floor_rem (year -ℤ pos 100) 400) g (omega (int_laws, split.1))

-- For every year within 2 ^ 33 years of 1900, which takes in all that __tm_to_secs passes on, the
-- seconds to its start, and whether it is a leap year, are those of the Gregorian calendar,
-- extended to all years: the short way for the years near 1970 and the long way agree. The year is
-- given as year g of our era, with k cycles of 400 years added to make it positive.
pub year_to_secs_calendar :
    (year : ℤ) (g k : ℕ)
    → IsModerate year
    → IsYear year g k
    → StartsAt (year_to_secs year).0 g k × ((year_to_secs year).1 ≡ gregorian g)
unfolding year_to_secs
year_to_secs_calendar year g k moderate y =
    elim (Bool-cases (not (ltb_ℤ year (pos 2)) && not (ltb_ℤ (pos 138) year))) [
      | inl e ↦
          let near = IsNear-range year e in
          rw e (near_secs year g k near y, near_leap year g k near y)
      | inr e ↦ rw e (far_secs year g k moderate y, far_leap year g k y)
    ]
