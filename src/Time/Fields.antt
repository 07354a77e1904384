-- ===== src/Time/Fields.antt =====
-- What `__secs_to_tm` stores: the ranges of the fields, and how the day of the year, the month and
-- the day of the month fit together.
use leblibc.Prelude.{
  ℕ, ◌+◌, ◌-◌, ◌*◌, ◌/◌, ◌%◌, ◌≤◌, ◌<◌, ◌≡◌, refl, Bool, true, false, not, leb, ◌==◌, ◌&&◌, ◌||◌,
  if◌then◌else◌, arith, Bool-cases, inl, inr, ◌∙◌, sym, ap, Option, some, none, ◌≢◌,
}
use native.Mathlib.Decide.{dec_le}
use leblibc.Prelude.Int.{
  ℤ, pos, ◌+ℤ◌, ◌-ℤ◌, pos_part, neg_part, int_laws, eq_of_parts, IsInt, to_int, to_int-IsInt,
}
use leblibc.Time.{
  Tm, month_to_secs, split_cycle, floor_quot, floor_rem, year_to_secs, secs_to_tm, in_cycle_fields,
  store_fields, leapoch, days_per_400y,
}
use leblibc.Time.Year.{gregorian, IsYear, floor_split, year_to_secs_calendar}
use leblibc.Time.FromSecs.{month_found, late_month, early_month, split_cycle_lem}
use leblibc.Time.RoundTrip.{
  unless_some, out_of_int-IsInt, cycles_fit, some-some, AreChecked, month_checked, out_of_range,
  years,
}

abbrev pub IsBetween : ℕ → ℕ → ℤ → Type 0
IsBetween lo hi a = (neg_part a ≡ 0) × (lo ≤ pos_part a) × (pos_part a ≤ hi)

-- The fields are in their ranges, the year fits into an int, and the day of the year is the one that month and day name.
pub record IsDate (tm : Tm) : Type 0 where
  pub sec_range : IsBetween 0 59 tm.sec
  pub min_range : IsBetween 0 59 tm.min
  pub hour_range : IsBetween 0 23 tm.hour
  pub mday_range : IsBetween 1 31 tm.mday
  pub mon_range : IsBetween 0 11 tm.mon
  pub year_range : IsInt tm.year
  pub wday_range : IsBetween 0 6 tm.wday
  pub yday_range : IsBetween 0 365 tm.yday
  pub yday_agrees :
      month_to_secs (pos_part tm.mon) (year_to_secs tm.year).1 + 86400 * pos_part tm.mday
      ≡ 86400 * (pos_part tm.yday + 1)

abbrev one_if : Bool → ℕ
one_if b = if b then 1 else 0

-- The flag `leap` of `__secs_to_tm`: whether the year of the March is a leap year.
march_leap :
    (n c q y : ℕ)
    → c ≤ 3
    → q ≤ 24
    → y ≤ 3
    → one_if (y == 0 && (not (q == 0) || c == 0))
      ≡ one_if (gregorian (2000 + 400 * n + 100 * c + 4 * q + y))
march_leap n c q y hc hq hy = ground arith

abbrev day_of_year : ℕ → ℕ → ℕ
day_of_year leap r =
    if leb (365 + leap) (r + 31 + 28 + leap)
    then r + 31 + 28 + leap - (365 + leap)
    else r + 31 + 28 + leap

day_early : (leap r : ℕ) → r < 306 → day_of_year leap r ≡ r + 59 + leap
day_early leap r h = ground arith

day_late : (leap r : ℕ) → 306 ≤ r → day_of_year leap r ≡ r - 306
day_late leap r h = ground arith

one_if-le : (b : Bool) → one_if b ≤ 1
one_if-le b = ground arith

-- A date whose month and day stand for the day `n` of its year.
IsDate-of :
    (tm : Tm) (g k mo d n s mi h w : ℕ)
    → IsInt tm.year
    → IsYear tm.year g k
    → month_to_secs mo (gregorian g) + 86400 * d ≡ 86400 * n
    → (mo ≤ 11) × (d ≤ 30) × (n ≤ 365) × (s ≤ 59) × (mi ≤ 59) × (h ≤ 23) × (w ≤ 6)
    → tm.mon ≡ pos mo
    → tm.mday ≡ pos (d + 1)
    → tm.yday ≡ pos n
    → tm.hour ≡ pos h
    → tm.min ≡ pos mi
    → tm.sec ≡ pos s
    → tm.wday ≡ pos w
    → IsDate tm
IsDate-of tm g k mo d n s mi h w in_range year days small emo ed en eh emi es ew =
    let leap = (year_to_secs_calendar tm.year g k (omega (arith, in_range)) year).1 in
    record {
      sec_range = rw es (omega arith);
      min_range = rw emi (omega arith);
      hour_range = rw eh (omega arith);
      mday_range = rw ed (omega arith);
      mon_range = rw emo (omega arith);
      year_range = in_range;
      wday_range = rw ew (omega arith);
      yday_range = rw en (omega arith);
      yday_agrees = rw (emo, ed, en, leap) (omega arith);
    }

module _ (remsecs wday c q y r m d : ℕ) (qc : ℤ) (tm : Tm) where
  abbrev leap_day : ℕ
  leap_day = one_if (y == 0 && (not (q == 0) || c == 0))

  abbrev yday : ℕ
  yday = day_of_year leap_day r

  store_early :
      (c ≤ 3) × (q ≤ 24) × (y ≤ 3) × (r ≤ 365) × (remsecs < 86400) × (wday < 7)
      → m < 10
      → AreChecked r m d
      → store_fields remsecs wday yday (years remsecs wday yday c q y r m d qc tm) (m, d) ≡ some tm
      → IsDate tm
  unfolding store_fields
  store_early small early ch e =
      let g = 2000 + 400 * pos_part qc + 100 * c + 4 * q + y in
      let this_year : leb 10 m ≡ false = ground arith in
      let (in_range, stored) = unless_some _ _ tm (rw this_year at e) in
      let fits = out_of_int-IsInt _ in_range in
      let year = sym (ap (λ x. x.year) stored) ∙ to_int-IsInt _ fits in
      let month = early_month (gregorian g) r m d (month_checked (gregorian g) r m d ch) early in
      let leap = march_leap (pos_part qc) c q y small.0 small.1 small.2 in
      IsDate-of tm g (neg_part qc) (m + 2) d yday (remsecs % 60) (remsecs / 60 % 60)
        (remsecs / 3600) wday (rw year fits) (rw year (omega int_laws))
        (omega (arith, day_early leap_day r month.0, leap, month.2))
        (omega (
          arith,
          day_early leap_day r month.0,
          month.1,
          one_if-le (y == 0 && (not (q == 0) || c == 0)),
        ))
        (sym (ap (λ x. x.mon) stored) ∙ eq_of_parts _ _ (omega int_laws))
        (sym (ap (λ x. x.mday) stored)) (sym (ap (λ x. x.yday) stored))
        (sym (ap (λ x. x.hour) stored)) (sym (ap (λ x. x.min) stored))
        (sym (ap (λ x. x.sec) stored)) (sym (ap (λ x. x.wday) stored))

  store_late :
      (c ≤ 3) × (q ≤ 24) × (y ≤ 3) × (r ≤ 365) × (remsecs < 86400) × (wday < 7)
      → 10 ≤ m
      → AreChecked r m d
      → store_fields remsecs wday yday (years remsecs wday yday c q y r m d qc tm) (m, d) ≡ some tm
      → IsDate tm
  unfolding store_fields
  store_late small late ch e =
      let g = 2000 + 400 * pos_part qc + 100 * c + 4 * q + y + 1 in
      let next_year : leb 10 m ≡ true = ground arith in
      let (in_range, stored) = unless_some _ _ tm (rw next_year at e) in
      let fits = out_of_int-IsInt _ in_range in
      let year = sym (ap (λ x. x.year) stored) ∙ to_int-IsInt _ fits in
      let month = late_month (gregorian g) r m d (month_checked (gregorian g) r m d ch) late in
      IsDate-of tm g (neg_part qc) (m - 10) d yday (remsecs % 60) (remsecs / 60 % 60)
        (remsecs / 3600) wday (rw year fits) (rw year (omega int_laws))
        (omega (arith, day_late leap_day r month.1, month.3))
        (omega (arith, day_late leap_day r month.1, month.0, month.2))
        (sym (ap (λ x. x.mon) stored) ∙ eq_of_parts _ _ (omega int_laws))
        (sym (ap (λ x. x.mday) stored)) (sym (ap (λ x. x.yday) stored))
        (sym (ap (λ x. x.hour) stored)) (sym (ap (λ x. x.min) stored))
        (sym (ap (λ x. x.sec) stored)) (sym (ap (λ x. x.wday) stored))

in_cycle-IsDate :
    (remsecs wday c q y r : ℕ) (qc : ℤ) (tm : Tm)
    → (c ≤ 3) × (q ≤ 24) × (y ≤ 3) × (r ≤ 365) × (remsecs < 86400) × (wday < 7)
    → in_cycle_fields remsecs wday qc (c, q, y, r) ≡ some (some tm)
    → IsDate tm
unfolding in_cycle_fields
in_cycle-IsDate remsecs wday c q y r qc tm small e =
    let ((m, d), found, leap, common) = month_found r (omega arith) in
    let stored = some-some _ tm (rw found at e) in
    elim (dec_le 10 m) [
      | yes late ↦ store_late remsecs wday c q y r m d qc tm small late (leap, common) stored
      | no early ↦
          store_early remsecs wday c q y r m d qc tm small (omega arith) (leap, common) stored
    ]

-- Where secs_to_tm stores a date, every field is in its range, the year in that of int, and the
-- month and the day of the month name the day that is stored as the day of the year.
pub secs_to_tm-IsDate : (t : ℤ) (tm : Tm) → secs_to_tm t ≡ some (some tm) → IsDate tm
unfolding secs_to_tm
secs_to_tm-IsDate t tm e = elim (Bool-cases (out_of_range t)) [
  | inl out ↦ absurd (let h = rw out at e in ground arith)
  | inr inside ↦
      let day = floor_split (t -ℤ pos leapoch) 86400 (omega arith) in
      let days = floor_quot (t -ℤ pos leapoch) 86400 in
      let cycle = floor_split days days_per_400y (omega arith) in
      let week = floor_split (pos 3 +ℤ days) 7 (omega arith) in
      let split = split_cycle_lem (floor_rem days days_per_400y) cycle.0 in
      let (c, q, y, r) = split_cycle (floor_rem days days_per_400y) in
      in_cycle-IsDate (floor_rem (t -ℤ pos leapoch) 86400) (floor_rem (pos 3 +ℤ days) 7) c q y r
        (floor_quot days days_per_400y) tm (split.1, split.2, split.3, split.4, day.0, week.0)
        (rw (inside, to_int-IsInt _ (cycles_fit t inside)) at e)
]

present : (found : Option (Option Tm)) → found ≢ none → (res : Option Tm) × (found ≡ some res)
present none h = absurd (h refl)
present (some res) h = (res, refl)

some_ne_none : (res : Option Tm) → some res ≢ none
some_ne_none res e = ground arith

in_cycle_present :
    (remsecs wday c q y r : ℕ) (qc : ℤ)
    → r ≤ 365
    → in_cycle_fields remsecs wday qc (c, q, y, r) ≢ none
unfolding in_cycle_fields
in_cycle_present remsecs wday c q y r qc hr e =
    let ((m, d), found, leap, common) = month_found r (omega arith) in
    some_ne_none _ (rw found at e)

-- secs_to_tm never reads past the table of the months: it stores a date or returns -1, for every
-- time.
pub secs_to_tm_returns : (t : ℤ) → (res : Option Tm) × (secs_to_tm t ≡ some res)
unfolding secs_to_tm
secs_to_tm_returns t = present (secs_to_tm t) (λ e. elim (Bool-cases (out_of_range t)) [
  | inl out ↦ some_ne_none _ (rw out at e)
  | inr inside ↦
      let days = floor_quot (t -ℤ pos leapoch) 86400 in
      let cycle = floor_split days days_per_400y (omega arith) in
      let split = split_cycle_lem (floor_rem days days_per_400y) cycle.0 in
      let (c, q, y, r) = split_cycle (floor_rem days days_per_400y) in
      in_cycle_present (floor_rem (t -ℤ pos leapoch) 86400) (floor_rem (pos 3 +ℤ days) 7) c q y r
        (to_int (floor_quot days days_per_400y)) split.4 (rw inside at e)
])
