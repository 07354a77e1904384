-- ===== src/Time.antt =====
-- `src/time`: calendar time without time zones. A number is a signed integer. `to_int` stands where an
-- `int` receives the value of a `long long`, and where arithmetic of `int` could leave its range, where
-- it takes the low bits; the theorems have the bounds under which it changes nothing. A `long long`
-- has no bound: within those of the theorems none comes near 2 ^ 63.
pub mod Year
pub mod FromSecs
pub mod RoundTrip
pub mod Fields
pub mod Given
pub mod Normalize
mod Examples
use leblibc.Prelude.{
  ℕ, zero, suc, ◌+◌, ◌-◌, ◌*◌, ◌/◌, ◌%◌, ◌≤◌, ◌<◌, List, [], ◌∷◌, Bool, true, false, not, ltb, leb,
  ◌==◌, ◌&&◌, ◌||◌, if◌then◌else◌, Option, none, some, get_or, ◌>>=◌,
}
use leblibc.Prelude.Int.{
  ℤ, pos, negsuc, ◌+ℤ◌, ◌-ℤ◌, ◌*ℤ◌, ◌/ℤ◌, ◌%ℤ◌, is_negative, ltb_ℤ, pos_part, to_int,
}

-- `struct tm`, whose fields are of type `int`: the fields that the calendar functions read and write.
pub record Tm : Type 0 where
  pub sec : ℤ
  pub min : ℤ
  pub hour : ℤ
  pub mday : ℤ
  pub mon : ℤ
  pub year : ℤ
  pub wday : ℤ
  pub yday : ℤ

abbrev secs_through_month : List ℕ
secs_through_month =
    0
    ∷ 31 * 86400
    ∷ 59 * 86400
    ∷ 90 * 86400
    ∷ 120 * 86400
    ∷ 151 * 86400
    ∷ 181 * 86400
    ∷ 212 * 86400
    ∷ 243 * 86400
    ∷ 273 * 86400
    ∷ 304 * 86400
    ∷ 334 * 86400
    ∷ []

-- `__month_to_secs`, for a month from 0 to 11.
unfoldable pub month_to_secs : ℕ → Bool → ℕ
month_to_secs month is_leap =
    let t = get_or secs_through_month month 0 in if is_leap && leb 2 month then t + 86400 else t

-- `>>2` and `&3` of an `int`: the sign is shifted in, and negative numbers are in two's complement.
abbrev pub shift_right_two : ℤ → ℤ
shift_right_two (pos n) = pos (n / 4)
shift_right_two (negsuc n) = negsuc (n / 4)

abbrev pub low_two_bits : ℤ → ℕ
low_two_bits (pos n) = n % 4
low_two_bits (negsuc n) = 3 - n % 4

-- The branch of `__year_to_secs` for the years from 1902 to 2038.
unfoldable pub near_years : ℤ → ℤ × Bool
near_years year =
    let leaps = shift_right_two (year -ℤ pos 68) in
    let is_leap = low_two_bits (year -ℤ pos 68) == 0 in
    let leaps' = if is_leap then leaps -ℤ pos 1 else leaps in
    (to_int ((year -ℤ pos 70) *ℤ 31536000 +ℤ leaps' *ℤ 86400), is_leap)

-- Within a cycle of 400 years: the centuries, the leap years past them, and whether the year is one.
unfoldable pub in_cycle : ℕ → ℕ × ℕ × Bool
in_cycle rem =
    if rem == 0
    then (0, 0, true)
    else (let centuries =
          if leb 200 rem then (if leb 300 rem then 3 else 2) else (if leb 100 rem then 1 else 0) in
        let left = rem - centuries * 100 in
        if left == 0 then (centuries, 0, false) else (centuries, left / 4, left % 4 == 0))

-- `q = a / d; r = a % d; if (r < 0) { r += d; q--; }`: the quotient, and the remainder, which is no
-- longer negative.
unfoldable pub floor_quot : ℤ → ℕ → ℤ
floor_quot a d = if is_negative (a %ℤ d) then a /ℤ d -ℤ pos 1 else a /ℤ d

unfoldable pub floor_rem : ℤ → ℕ → ℕ
floor_rem a d = pos_part (if is_negative (a %ℤ d) then a %ℤ d +ℤ pos d else a %ℤ d)

unfoldable pub far_years : ℤ → ℤ × Bool
far_years year =
    let cycles = to_int (floor_quot (year -ℤ pos 100) 400) in
    let (centuries, leaps, is_leap) = in_cycle (floor_rem (year -ℤ pos 100) 400) in
    let all =
      to_int
        (pos leaps +ℤ (cycles *ℤ 97 +ℤ pos (24 * centuries)) -ℤ pos (if is_leap then 1 else 0)) in
    ((year -ℤ pos 100) *ℤ 31536000 +ℤ all *ℤ 86400 +ℤ pos (946684800 + 86400), is_leap)

-- `__year_to_secs`: the seconds, and what is stored through `is_leap`. The test `year-2ULL <= 136` is
-- unsigned, so it fails for every year below 2.
unfoldable pub year_to_secs : ℤ → ℤ × Bool
year_to_secs year =
    if not (ltb_ℤ year (pos 2)) && not (ltb_ℤ (pos 138) year)
    then near_years year
    else far_years year

-- `__tm_to_secs`. The month is brought into range first, and the year is moved along.
unfoldable pub tm_to_secs : Tm → ℤ
tm_to_secs tm =
    let out = not (ltb_ℤ tm.mon (pos 12)) || is_negative tm.mon in
    let month = if out then floor_rem tm.mon 12 else pos_part tm.mon in
    let year = if out then tm.year +ℤ floor_quot tm.mon 12 else tm.year in
    let (t, is_leap) = year_to_secs year in
    t
    +ℤ pos (month_to_secs month is_leap)
    +ℤ to_int (tm.mday -ℤ pos 1) *ℤ 86400
    +ℤ tm.hour *ℤ 3600
    +ℤ tm.min *ℤ 60
    +ℤ tm.sec

-- 2000-03-01, in the middle of a cycle of 400 years, just behind a leap day.
abbrev pub leapoch : ℕ
leapoch = 946684800 + 86400 * (31 + 29)

abbrev pub days_per_400y : ℕ
days_per_400y = 365 * 400 + 97

abbrev pub days_per_100y : ℕ
days_per_100y = 365 * 100 + 24

abbrev pub days_per_4y : ℕ
days_per_4y = 365 * 4 + 1

-- The months from March on.
abbrev pub days_in_month : List ℕ
days_in_month = 31 ∷ 30 ∷ 31 ∷ 30 ∷ 31 ∷ 31 ∷ 30 ∷ 31 ∷ 30 ∷ 31 ∷ 31 ∷ 29 ∷ []

-- `for (months=0; days_in_month[months] <= remdays; months++)` with the rest of the table at hand;
-- `none` is a read past its end.
unfoldable pub month_loop : List ℕ → ℕ → ℕ → Option (ℕ × ℕ)
month_loop [] months remdays = none
month_loop (d ∷ table) months remdays =
    let rest = month_loop table (suc months) (remdays - d) in
    if leb d remdays then rest else some (months, remdays)

-- The centuries, groups of four years and years of the cycle, and the days that are left. A last
-- day of a leap year would count as one unit too many, and is put back.
unfoldable pub split_cycle : ℕ → ℕ × ℕ × ℕ × ℕ
split_cycle remdays =
    let c = remdays / days_per_100y in
    let c_cycles = if c == 4 then c - 1 else c in
    let left = remdays - c_cycles * days_per_100y in
    let q = left / days_per_4y in
    let q_cycles = if q == 25 then q - 1 else q in
    let left' = left - q_cycles * days_per_4y in
    let y = left' / 365 in
    let remyears = if y == 4 then y - 1 else y in
    (c_cycles, q_cycles, remyears, left' - remyears * 365)

-- INT_MAX, and -INT_MIN.
abbrev pub int_max : ℕ
int_max = 2147483647

abbrev pub out_of_int : ℤ → Bool
out_of_int a = ltb_ℤ (pos int_max) a || ltb_ℤ a (negsuc int_max)

abbrev pub seconds_limit : ℕ
seconds_limit = 31622400

-- The end of `__secs_to_tm`, from the months since March, which may run into the next year, to the
-- fields; `none` is the return value -1.
unfoldable pub store_fields : ℕ → ℕ → ℕ → ℤ → ℕ × ℕ → Option Tm
store_fields remsecs wday yday years (months, remdays) =
    let months' = if leb 10 months then pos months -ℤ pos 12 else pos months in
    let years' = if leb 10 months then years +ℤ pos 1 else years in
    if out_of_int (years' +ℤ pos 100)
    then none
    else some (record {
      sec = pos (remsecs % 60);
      min = pos (remsecs / 60 % 60);
      hour = pos (remsecs / 3600);
      mday = pos (remdays + 1);
      mon = months' +ℤ pos 2;
      year = to_int (years' +ℤ pos 100);
      wday = pos wday;
      yday = pos yday;
    })

-- The middle of `__secs_to_tm`, with the cycle of 400 years split: the outer `none` is a read past
-- the table of the months.
unfoldable pub in_cycle_fields : ℕ → ℕ → ℤ → ℕ × ℕ × ℕ × ℕ → Option (Option Tm)
in_cycle_fields remsecs wday qc_cycles (c_cycles, q_cycles, remyears, remdays) =
    let leap : ℕ = if remyears == 0 && (not (q_cycles == 0) || c_cycles == 0) then 1 else 0 in
    let yday = remdays + 31 + 28 + leap in
    let yday' = if leb (365 + leap) yday then yday - (365 + leap) else yday in
    let years = pos (remyears + 4 * q_cycles + 100 * c_cycles) +ℤ qc_cycles *ℤ 400 in
    month_loop days_in_month 0 remdays >>= λ months.
    some (store_fields remsecs wday yday' years months)

-- `__secs_to_tm`: the outer `none` is a read past a table, the inner one the return value -1.
unfoldable pub secs_to_tm : ℤ → Option (Option Tm)
secs_to_tm t =
    if ltb_ℤ t (negsuc (2147483648 * seconds_limit - 1)) || ltb_ℤ (pos (int_max * seconds_limit)) t
    then some none
    else (let secs = t -ℤ pos leapoch in
        let days = floor_quot secs 86400 in
        in_cycle_fields (floor_rem secs 86400) (floor_rem (pos 3 +ℤ days) 7)
          (to_int (floor_quot days days_per_400y)) (split_cycle (floor_rem days days_per_400y)))

-- `tm_isdst`, `__tm_gmtoff` and `__tm_zone` are set to constants. `none` is EOVERFLOW.
unfoldable pub gmtime_r : ℤ → Option (Option Tm)
gmtime_r t = secs_to_tm t

-- `timegm`: what is returned, and the fields as they are stored back; `none` is EOVERFLOW, and leaves
-- the fields alone.
unfoldable pub timegm : Tm → Option (Option (ℤ × Tm))
timegm tm =
    let t = tm_to_secs tm in
    secs_to_tm t >>= λ r. some (elim r [ none ↦ none | some new ↦ some (t, new) ])
