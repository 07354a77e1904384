-- ===== src/Time/Normalize.antt =====
-- `timegm` brings the fields of a date into their ranges.
use leblibc.Prelude.{ℕ, ◌≡◌, refl, ◌∙◌, ap, sym, arith, Option, none, some}
use leblibc.Prelude.Int.{ℤ}
use leblibc.Time.{Tm, tm_to_secs, secs_to_tm, timegm}
use leblibc.Time.RoundTrip.{tm_to_secs-secs_to_tm}
use leblibc.Time.Year.{IsYear}
use leblibc.Time.Given.{HasInts, carried_year, StandsFor, tm_to_secs-StandsFor}
use leblibc.Time.Fields.{IsDate, secs_to_tm-IsDate, secs_to_tm_returns}

abbrev answer : ℤ → Option Tm → Option (ℤ × Tm)
answer t none = none
answer t (some new) = some (t, new)

timegm_of :
    (tm : Tm) (res : Option Tm)
    → secs_to_tm (tm_to_secs tm) ≡ some res
    → timegm tm ≡ some (answer (tm_to_secs tm) res)
unfolding timegm
timegm_of tm none e = rw e refl
timegm_of tm (some new) e = rw e refl

some_pair :
    (t u : ℤ) (x new : Tm)
    → some (answer t (some x)) ≡ some (answer u (some new))
    → (u ≡ t) × (x ≡ new)
some_pair t u x new e = (sym (ap (λ r. time_or r t) e), ap (λ r. date_or r x) e)
  where
    time_or : Option (Option (ℤ × Tm)) → ℤ → ℤ
    time_or (some (some (v, y))) d = v
    time_or (some none) d = d
    time_or none d = d

    date_or : Option (Option (ℤ × Tm)) → Tm → Tm
    date_or (some (some (v, y))) d = y
    date_or (some none) d = d
    date_or none d = d

stored_of :
    (tm new : Tm) (t : ℤ) (res : Option Tm)
    → secs_to_tm (tm_to_secs tm) ≡ some res
    → timegm tm ≡ some (some (t, new))
    → (t ≡ tm_to_secs tm) × (secs_to_tm t ≡ some (some new))
stored_of tm new t none e h = absurd (let g = sym (timegm_of tm none e) ∙ h in ground arith)
stored_of tm new t (some x) e h =
    let (same_time, same_date) =
      some_pair (tm_to_secs tm) t x new (sym (timegm_of tm (some x) e) ∙ h) in
    (same_time, ap secs_to_tm same_time ∙ e ∙ ap (λ y. some (some y)) same_date)

-- For fields of type int, where also the day of the month less 1 is an int, and the year g of our
-- era that the year and the month name, with k cycles of 400 years added to make it positive: where
-- timegm succeeds, it returns the seconds from 1970 to these fields in the Gregorian calendar, and
-- stores a date in range, the year in that of int, that stands for the same time; a second call
-- returns the same and changes nothing.
pub timegm_normalizes :
    (tm new : Tm) (t : ℤ) (g k : ℕ)
    → HasInts tm
    → IsYear (carried_year tm) g k
    → timegm tm ≡ some (some (t, new))
    → (t ≡ tm_to_secs tm)
      × StandsFor tm g k t
      × IsDate new
      × (tm_to_secs new ≡ t)
      × (timegm new ≡ some (some (t, new)))
timegm_normalizes tm new t g k ints year h =
    let (res, returns) = secs_to_tm_returns (tm_to_secs tm) in
    let (same_time, stored) = stored_of tm new t res returns h in
    let back = tm_to_secs-secs_to_tm t new stored in
    (
      same_time,
      rw same_time (tm_to_secs-StandsFor tm g k ints year),
      secs_to_tm-IsDate t new stored,
      back,
      timegm_of new (some new) (ap secs_to_tm back ∙ stored) ∙ ap (λ u. some (some (u, new))) back,
    )
