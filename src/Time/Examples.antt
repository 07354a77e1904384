-- ===== src/Time/Examples.antt =====
-- Dates on both sides of 1970, and the theorems about them.
use leblibc.Prelude.{Option, ◌≡◌, refl, some, arith}
use leblibc.Prelude.Int.{pos, negsuc, ◌+ℤ◌, ◌-ℤ◌, ◌*ℤ◌, ◌/ℤ◌, ◌%ℤ◌, to_int}
use leblibc.Time.{
  timegm, Tm, near_years, month_to_secs, month_loop, split_cycle, floor_quot, floor_rem,
  year_to_secs, tm_to_secs, secs_to_tm, in_cycle_fields, store_fields,
}
use leblibc.Time.RoundTrip.{tm_to_secs-secs_to_tm}
use leblibc.Time.Fields.{IsDate, secs_to_tm-IsDate, secs_to_tm_returns}
use leblibc.Time.Given.{HasInts, carried_year, StandsFor}
use leblibc.Time.Normalize.{timegm_normalizes}
use leblibc.Time.Year.{gregorian, StartsAt, year_to_secs_calendar}

-- 2024-02-29 12:34:56, a Thursday.
abbrev leap_day : Tm
leap_day = record {
  sec = pos 56;
  min = pos 34;
  hour = pos 12;
  mday = pos 29;
  mon = pos 1;
  year = pos 124;
  wday = pos 4;
  yday = pos 59;
}

leap_day_secs : tm_to_secs leap_day ≡ pos 1709210096
unfolding tm_to_secs ◌+ℤ◌ year_to_secs near_years ◌*ℤ◌ ◌-ℤ◌ to_int month_to_secs
leap_day_secs = refl

leap_day_back : secs_to_tm (pos 1709210096) ≡ some (some leap_day)
unfolding secs_to_tm in_cycle_fields store_fields month_loop split_cycle floor_quot floor_rem ◌+ℤ◌
    ◌-ℤ◌ ◌*ℤ◌ ◌/ℤ◌ ◌%ℤ◌ to_int
leap_day_back = refl

year_to_secs_calendar_example :
    StartsAt (year_to_secs (negsuc 1949)).0 350 1 × ((year_to_secs (negsuc 1949)).1 ≡ gregorian 350)
year_to_secs_calendar_example =
    year_to_secs_calendar (negsuc 1949) 350 1 (omega arith) (omega arith)

tm_to_secs-secs_to_tm_example : tm_to_secs leap_day ≡ pos 1709210096
tm_to_secs-secs_to_tm_example = tm_to_secs-secs_to_tm (pos 1709210096) leap_day leap_day_back

secs_to_tm-IsDate_example : IsDate leap_day
secs_to_tm-IsDate_example = secs_to_tm-IsDate (pos 1709210096) leap_day leap_day_back

secs_to_tm_returns_example : (res : Option Tm) × (secs_to_tm (negsuc 62135596800) ≡ some res)
secs_to_tm_returns_example = secs_to_tm_returns (negsuc 62135596800)

-- The 60th of January.
abbrev past_january : Tm
past_january = record leap_day { mon = pos 0; mday = pos 60; wday = pos 0; yday = pos 0 }

past_january_stored : timegm past_january ≡ some (some (pos 1709210096, leap_day))
unfolding timegm secs_to_tm in_cycle_fields store_fields month_loop split_cycle floor_quot floor_rem
    ◌+ℤ◌ ◌-ℤ◌ ◌*ℤ◌ ◌/ℤ◌ ◌%ℤ◌ to_int tm_to_secs year_to_secs near_years month_to_secs
past_january_stored = refl

past_january-HasInts : HasInts past_january
unfolding ◌-ℤ◌
past_january-HasInts = record {
  sec_int = omega arith;
  min_int = omega arith;
  hour_int = omega arith;
  mday_int = omega arith;
  mon_int = omega arith;
  year_int = omega arith;
}

past_january_year : carried_year past_january ≡ pos 124
unfolding ◌+ℤ◌ floor_quot ◌/ℤ◌ ◌%ℤ◌
past_january_year = refl

timegm_normalizes_example :
    (pos 1709210096 ≡ tm_to_secs past_january)
    × StandsFor past_january 2024 0 (pos 1709210096)
    × IsDate leap_day
    × (tm_to_secs leap_day ≡ pos 1709210096)
    × (timegm leap_day ≡ some (some (pos 1709210096, leap_day)))
timegm_normalizes_example =
    timegm_normalizes past_january leap_day (pos 1709210096) 2024 0 past_january-HasInts
      (rw past_january_year (omega arith)) past_january_stored
