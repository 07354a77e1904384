-- ===== src/Time/RoundTrip.antt =====
-- `__tm_to_secs` after `__secs_to_tm`.
use leblibc.Prelude.{
  ℕ, ◌+◌, ◌-◌, ◌*◌, ◌/◌, ◌%◌, ◌≤◌, ◌<◌, ◌≡◌, refl, Bool, true, false, not, leb, ◌||◌, if◌then◌else◌,
  arith, Bool-cases, inl, inr, ◌∙◌, sym, ap, Option, some, none,
}
use native.Mathlib.Decide.{dec_le}
use leblibc.Prelude.Int.{
  ℤ, pos, negsuc, ◌+ℤ◌, ◌-ℤ◌, ◌*ℤ◌, is_negative, ltb_ℤ, pos_part, neg_part, int_laws, eq_of_parts,
  one_part, to_int, IsInt, to_int-IsInt,
}
use leblibc.Time.{
  Tm, month_to_secs, split_cycle, floor_quot, floor_rem, tm_to_secs, secs_to_tm, in_cycle_fields,
  store_fields, leapoch, days_per_400y, seconds_limit, int_max, out_of_int,
}
use leblibc.Time.Year.{gregorian, leap_days, IsYear, IsModerate, floor_split, year_to_secs_calendar}
use leblibc.Time.FromSecs.{
  month_found, month_checks, late_month, early_month, leap_days_cycles, gregorian-suc,
  split_cycle_lem,
}

day_kept : (d : ℕ) → d ≤ 30 → to_int (pos (d + 1) -ℤ pos 1) ≡ pos d
day_kept d small =
    let day : pos (d + 1) -ℤ pos 1 ≡ pos d = eq_of_parts _ _ (omega int_laws) in
    ap to_int day ∙ to_int-IsInt (pos d) (omega arith)

month_inside : (m : ℕ) → m < 12 → (not (ltb_ℤ (pos m) (pos 12)) || is_negative (pos m)) ≡ false
month_inside m lt = ground arith

-- The seconds of a date whose month is in range.
tm_to_secs_parts :
    (tm : Tm) (g k m s mi h d : ℕ)
    → tm.mon ≡ pos m
    → m < 12
    → IsModerate tm.year
    → IsYear tm.year g k
    → d ≤ 30
    → tm.mday ≡ pos (d + 1)
    → tm.hour ≡ pos h
    → tm.min ≡ pos mi
    → tm.sec ≡ pos s
    → pos_part (tm_to_secs tm) + 86400 * (146097 * k + 719528)
      ≡ neg_part (tm_to_secs tm)
        + 86400 * (365 * g + leap_days g)
        + month_to_secs m (gregorian g)
        + 86400 * d
        + 3600 * h
        + 60 * mi
        + s
unfolding tm_to_secs
tm_to_secs_parts tm g k m s mi h d em lt moderate y small ed eh emi es =
    let calendar = year_to_secs_calendar tm.year g k moderate y in
    rw (em, month_inside m lt, calendar.1, ed, day_kept d small, eh, emi, es)
      (omega (int_laws, calendar.0))

-- The start of the date, in days from 2000-03-01, for the months up to December.
early_days :
    (n c q y r mo d : ℕ)
    → c ≤ 3
    → q ≤ 24
    → y ≤ 3
    → let g = 2000 + 400 * n + 100 * c + 4 * q + y in
      mo + 86400 * d ≡ 86400 * (r + 59 + (if gregorian g then 1 else 0))
      → 86400 * (365 * g + leap_days g) + mo + 86400 * d
        ≡ 86400 * (730545 + 146097 * n + 36524 * c + 1461 * q + 365 * y + r)
early_days n c q y r mo d hc hq hy e =
    let g = 2000 + 400 * n + 100 * c + 4 * q + y in
    omega (arith, leap_days_cycles n c q y hc hq hy, gregorian-suc g)

late_days :
    (n c q y r mo d : ℕ)
    → c ≤ 3
    → q ≤ 24
    → y ≤ 3
    → mo + 86400 * d + 86400 * 306 ≡ 86400 * r
    → let g = 2000 + 400 * n + 100 * c + 4 * q + y + 1 in
      86400 * (365 * g + leap_days g) + mo + 86400 * d
      ≡ 86400 * (730545 + 146097 * n + 36524 * c + 1461 * q + 365 * y + r)
late_days n c q y r mo d hc hq hy e = omega (arith, leap_days_cycles n c q y hc hq hy)

-- What passes the guard behind `years+100`.
pub unless_some :
    (b : Bool) (x tm : Tm) → (if b then none else some x) ≡ some tm → (b ≡ false) × (x ≡ tm)
unless_some true x tm e = absurd (ground arith)
unless_some false x tm e = (refl, ground arith)

pub out_of_int-IsInt : (a : ℤ) → out_of_int a ≡ false → IsInt a
out_of_int-IsInt (pos n) h = ground arith
out_of_int-IsInt (negsuc n) h = ground arith

time_of_day : (n : ℕ) → 3600 * (n / 3600) + 60 * (n / 60 % 60) + n % 60 ≡ n
time_of_day n = omega arith

-- The months and days that are left of a cycle, and both kinds of year.
abbrev pub AreChecked : ℕ → ℕ → ℕ → Type 0
AreChecked r m d = (month_checks true r (m, d) ≡ true) × (month_checks false r (m, d) ≡ true)

pub month_checked : (b : Bool) (r m d : ℕ) → AreChecked r m d → month_checks b r (m, d) ≡ true
month_checked true r m d ch = ch.0
month_checked false r m d ch = ch.1

module _ (remsecs wday yday c q y r m d : ℕ) (qc : ℤ) (tm : Tm) where
  abbrev pub years : ℤ
  years = pos (y + 4 * q + 100 * c) +ℤ qc *ℤ 400

  -- What is stored has as many seconds as the parts it was computed from.
  abbrev IsExact : Type 0
  IsExact =
      pos_part (tm_to_secs tm) + 86400 * (146097 * neg_part qc + 719528)
      ≡ neg_part (tm_to_secs tm)
        + 86400 * (730545 + 146097 * pos_part qc + 36524 * c + 1461 * q + 365 * y + r)
        + remsecs

  store_early :
      c ≤ 3
      → q ≤ 24
      → y ≤ 3
      → m < 10
      → AreChecked r m d
      → store_fields remsecs wday yday years (m, d) ≡ some tm
      → IsExact
  unfolding store_fields
  store_early hc hq hy early ch e =
      let g = 2000 + 400 * pos_part qc + 100 * c + 4 * q + y in
      let this_year : leb 10 m ≡ false = ground arith in
      let (in_range, stored) = unless_some _ _ tm (rw this_year at e) in
      let fits = out_of_int-IsInt _ in_range in
      let year = sym (ap (λ x. x.year) stored) ∙ to_int-IsInt _ fits in
      let month = early_month (gregorian g) r m d (month_checked (gregorian g) r m d ch) early in
      let parts =
        tm_to_secs_parts tm g (neg_part qc) (m + 2) (remsecs % 60) (remsecs / 60 % 60)
          (remsecs / 3600) d (sym (ap (λ x. x.mon) stored) ∙ eq_of_parts _ _ (omega int_laws))
          (omega arith) (rw year (omega (arith, fits))) (rw year (omega int_laws))
          (omega (arith, month)) (sym (ap (λ x. x.mday) stored)) (sym (ap (λ x. x.hour) stored))
          (sym (ap (λ x. x.min) stored)) (sym (ap (λ x. x.sec) stored)) in
      let days =
        early_days (pos_part qc) c q y r (month_to_secs (m + 2) (gregorian g)) d hc hq hy month.2 in
      omega (arith, parts, days, time_of_day remsecs)

  store_late :
      c ≤ 3
      → q ≤ 24
      → y ≤ 3
      → 10 ≤ m
      → AreChecked r m d
      → store_fields remsecs wday yday years (m, d) ≡ some tm
      → IsExact
  unfolding store_fields
  store_late hc hq hy late ch e =
      let g = 2000 + 400 * pos_part qc + 100 * c + 4 * q + y + 1 in
      let next_year : leb 10 m ≡ true = ground arith in
      let (in_range, stored) = unless_some _ _ tm (rw next_year at e) in
      let fits = out_of_int-IsInt _ in_range in
      let year = sym (ap (λ x. x.year) stored) ∙ to_int-IsInt _ fits in
      let month = late_month (gregorian g) r m d (month_checked (gregorian g) r m d ch) late in
      let parts =
        tm_to_secs_parts tm g (neg_part qc) (m - 10) (remsecs % 60) (remsecs / 60 % 60)
          (remsecs / 3600) d (sym (ap (λ x. x.mon) stored) ∙ eq_of_parts _ _ (omega int_laws))
          (omega arith) (rw year (omega (arith, fits))) (rw year (omega int_laws))
          (omega (arith, month)) (sym (ap (λ x. x.mday) stored)) (sym (ap (λ x. x.hour) stored))
          (sym (ap (λ x. x.min) stored)) (sym (ap (λ x. x.sec) stored)) in
      let days =
        late_days (pos_part qc) c q y r (month_to_secs (m - 10) (gregorian g)) d hc hq hy month.3 in
      omega (arith, parts, days, time_of_day remsecs)

  store_exact :
      c ≤ 3
      → q ≤ 24
      → y ≤ 3
      → AreChecked r m d
      → store_fields remsecs wday yday years (m, d) ≡ some tm
      → IsExact
  store_exact hc hq hy ch e = elim (dec_le 10 m) [
    | yes late ↦ store_late hc hq hy late ch e
    | no early ↦ store_early hc hq hy (omega arith) ch e
  ]

pub some-some : (x : Option Tm) (tm : Tm) → some x ≡ some (some tm) → x ≡ some tm
some-some x tm e = ground arith

in_cycle_exact :
    (remsecs wday c q y r : ℕ) (qc : ℤ) (tm : Tm)
    → c ≤ 3
    → q ≤ 24
    → y ≤ 3
    → r ≤ 365
    → in_cycle_fields remsecs wday qc (c, q, y, r) ≡ some (some tm)
    → IsExact remsecs wday 0 c q y r 0 0 qc tm
unfolding in_cycle_fields
in_cycle_exact remsecs wday c q y r qc tm hc hq hy hr e =
    let ((m, d), found, leap, common) = month_found r (omega arith) in
    store_exact remsecs wday _ c q y r m d qc tm hc hq hy (leap, common)
      (some-some _ tm (rw found at e))

abbrev pub out_of_range : ℤ → Bool
out_of_range t =
    ltb_ℤ t (negsuc (2147483648 * seconds_limit - 1)) || ltb_ℤ (pos (int_max * seconds_limit)) t

inside_range :
    (t : ℤ)
    → out_of_range t ≡ false
    → (pos_part t ≤ int_max * seconds_limit) × (neg_part t ≤ 2147483648 * seconds_limit)
inside_range (pos n) h = ground arith
inside_range (negsuc n) h = ground arith

-- The cycles of 400 years in a time that passes the first guard fit into an int.
pub cycles_fit :
    (t : ℤ)
    → out_of_range t ≡ false
    → IsInt (floor_quot (floor_quot (t -ℤ pos leapoch) 86400) days_per_400y)
cycles_fit t inside =
    let days = floor_quot (t -ℤ pos leapoch) 86400 in
    let day = floor_split (t -ℤ pos leapoch) 86400 (omega arith) in
    let cycle = floor_split days days_per_400y (omega arith) in
    omega (
      int_laws,
      inside_range t inside,
      day,
      cycle,
      one_part days,
      one_part (floor_quot days days_per_400y),
    )

-- Where secs_to_tm stores a date, tm_to_secs of that date is the time it was given, for every time,
-- before 1970 and before our era too.
pub tm_to_secs-secs_to_tm : (t : ℤ) (tm : Tm) → secs_to_tm t ≡ some (some tm) → tm_to_secs tm ≡ t
unfolding secs_to_tm
tm_to_secs-secs_to_tm t tm e = elim (Bool-cases (out_of_range t)) [
  | inl out ↦ absurd (let h = rw out at e in ground arith)
  | inr inside ↦
      let day = floor_split (t -ℤ pos leapoch) 86400 (omega arith) in
      let days = floor_quot (t -ℤ pos leapoch) 86400 in
      let cycle = floor_split days days_per_400y (omega arith) in
      let split = split_cycle_lem (floor_rem days days_per_400y) cycle.0 in
      let (c, q, y, r) = split_cycle (floor_rem days days_per_400y) in
      eq_of_parts _ _ (
        omega (
          int_laws,
          day.1,
          cycle.1,
          split.0,
          in_cycle_exact (floor_rem (t -ℤ pos leapoch) 86400) _ c q y r
              (floor_quot days days_per_400y) tm split.1 split.2 split.3 split.4
              (rw (inside, to_int-IsInt _ (cycles_fit t inside)) at e),
        ))
]
