-- ===== src/Time/Given.antt =====
-- The time that the fields of a date stand for, in range or not.
use leblibc.Prelude.{
  true, zero, suc, ◌<◌, if◌then◌else◌, ◌==◌, ==_iff, ℕ, ◌+◌, ◌*◌, ◌≡◌, refl, ap, ◌∙◌, Bool, false,
  not, ◌||◌, arith, Bool-cases, inl, inr,
}
use leblibc.Prelude.Bits.{all_below, all_below_sound}
use leblibc.Prelude.Int.{
  ℤ, pos, negsuc, ◌+ℤ◌, ◌-ℤ◌, ◌*ℤ◌, ◌/ℤ◌, ◌%ℤ◌, is_negative, ltb_ℤ, pos_part, neg_part, int_laws,
  eq_of_parts, one_part, to_int, IsInt, to_int-IsInt,
}
use leblibc.Time.{Tm, month_to_secs, floor_quot, floor_rem, year_to_secs, tm_to_secs}
use leblibc.Time.Year.{gregorian, leap_days, IsYear, IsModerate, floor_split, year_to_secs_calendar}

-- The days of the months before a month of the Gregorian calendar, which are counted from 0.
abbrev pub month_length : Bool → ℕ → ℕ
month_length is_leap m =
    if m == 1
    then (if is_leap then 29 else 28)
    else if (m == 3) || (m == 5) || (m == 8) || (m == 10)
    then 30
    else 31

unfoldable pub days_before : Bool → ℕ → ℕ
days_before is_leap zero = 0
days_before is_leap (suc m) = days_before is_leap m + month_length is_leap m

days_agree : (b : Bool) → all_below 12 (λ m. month_to_secs m b == 86400 * days_before b m) ≡ true
unfolding month_to_secs days_before all_below
days_agree true = refl
days_agree false = refl

month_to_secs-days_before :
    (m : ℕ) (b : Bool) → m < 12 → month_to_secs m b ≡ 86400 * days_before b m
month_to_secs-days_before m b lt = (==_iff _ _).0 (all_below_sound 12 _ m (days_agree b) lt)

-- The fields are of type int, and `tm_mday-1` is too.
pub record HasInts (tm : Tm) : Type 0 where
  pub sec_int : IsInt tm.sec
  pub min_int : IsInt tm.min
  pub hour_int : IsInt tm.hour
  pub mday_int : IsInt (tm.mday -ℤ pos 1)
  pub mon_int : IsInt tm.mon
  pub year_int : IsInt tm.year

-- The year of the fields, with the years that are in the month.
abbrev pub carried_year : Tm → ℤ
carried_year tm = tm.year +ℤ floor_quot tm.mon 12

-- `t` are the seconds from 1970 to the fields, where `g` is their year with `k` cycles of 400 years
-- added; terms that may be negative stand on the side of their sign.
abbrev pub StandsFor : Tm → ℕ → ℕ → ℤ → Type 0
StandsFor tm g k t =
    pos_part t
      + 86400 * (146097 * k + 719528)
      + 86400 * (neg_part tm.mday + 1)
      + 3600 * neg_part tm.hour
      + 60 * neg_part tm.min
      + neg_part tm.sec
    ≡ neg_part t
      + 86400 * (365 * g + leap_days g)
      + 86400 * days_before (gregorian g) (floor_rem tm.mon 12)
      + 86400 * pos_part tm.mday
      + 3600 * pos_part tm.hour
      + 60 * pos_part tm.min
      + pos_part tm.sec

abbrev is_out : ℤ → Bool
is_out mon = not (ltb_ℤ mon (pos 12)) || is_negative mon

month_in_range :
    (mon : ℤ) → is_out mon ≡ false → (floor_quot mon 12 ≡ pos 0) × (floor_rem mon 12 ≡ pos_part mon)
unfolding floor_quot floor_rem ◌/ℤ◌ ◌%ℤ◌
month_in_range (pos m) h = (ground arith, ground arith)
month_in_range (negsuc m) h = absurd (ground arith)

-- The month is brought into range in either case.
tm_to_secs_carried :
    (tm : Tm)
    → let (t, is_leap) = year_to_secs (carried_year tm) in
      tm_to_secs tm
      ≡ t
        +ℤ pos (month_to_secs (floor_rem tm.mon 12) is_leap)
        +ℤ to_int (tm.mday -ℤ pos 1) *ℤ 86400
        +ℤ tm.hour *ℤ 3600
        +ℤ tm.min *ℤ 60
        +ℤ tm.sec
unfolding tm_to_secs
tm_to_secs_carried tm = elim (Bool-cases (is_out tm.mon)) [
  | inl out ↦ rw out refl
  | inr inside ↦
      let (none_carried, same_month) = month_in_range tm.mon inside in
      let same_year : carried_year tm ≡ tm.year =
        ap (λ q. tm.year +ℤ q) none_carried ∙ eq_of_parts _ _ (omega int_laws) in
      rw (inside, same_month, same_year) refl
]

carried-IsModerate : (tm : Tm) → HasInts tm → IsModerate (carried_year tm)
carried-IsModerate tm ints =
    let split = floor_split tm.mon 12 (omega arith) in
    omega (
      int_laws,
      ints.year_int,
      ints.mon_int,
      split,
      one_part tm.mon,
      one_part (floor_quot tm.mon 12),
      one_part (carried_year tm),
    )

pub tm_to_secs-StandsFor :
    (tm : Tm) (g k : ℕ)
    → HasInts tm
    → IsYear (carried_year tm) g k
    → StandsFor tm g k (tm_to_secs tm)
tm_to_secs-StandsFor tm g k ints year =
    let calendar = year_to_secs_calendar (carried_year tm) g k (carried-IsModerate tm ints) year in
    let months =
      month_to_secs-days_before (floor_rem tm.mon 12) (gregorian g)
        (floor_split tm.mon 12 (omega arith)).0 in
    rw (tm_to_secs_carried tm, calendar.1, to_int-IsInt _ ints.mday_int)
      (omega (int_laws, calendar.0, months))
