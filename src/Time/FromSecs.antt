-- ===== src/Time/FromSecs.antt =====
-- `__secs_to_tm` in steps: the 400-year cycle, the months.
use leblibc.Prelude.{
  Option, some, none, ℕ, ◌+◌, ◌-◌, ◌*◌, ◌≤◌, ◌<◌, ◌≡◌, refl, Bool, true, false, ltb, leb, ◌==◌,
  ◌&&◌, if◌then◌else◌, arith, some, none,
}
use leblibc.Prelude.Bits.{all_below, all_below_sound}
use leblibc.Time.Year.{gregorian, leap_days}
use leblibc.Time.{month_to_secs, month_loop, days_in_month, split_cycle}

-- Where the days of a cycle end up.
pub split_cycle_lem :
    (n : ℕ)
    → n < 146097
    → let (c, q, y, rem) = split_cycle n in
      (n ≡ 36524 * c + 1461 * q + 365 * y + rem) × (c ≤ 3) × (q ≤ 24) × (y ≤ 3) × (rem ≤ 365)
unfolding split_cycle
split_cycle_lem n lt = ground arith

-- The month and its day for a day of the year that starts in March, in both kinds of year.
unfoldable pub month_checks : Bool → ℕ → ℕ × ℕ → Bool
month_checks b r (m, d) =
    if leb 10 m
    then (leb m 11
        && leb 306 r
        && leb d 30
        && (month_to_secs (m - 10) b + 86400 * d == 86400 * (r - 306)))
    else (ltb r 306
        && leb d 30
        && (month_to_secs (m + 2) b + 86400 * d == 86400 * (r + 59 + (if b then 1 else 0))))

month_table :
    all_below 366 (λ r. elim (month_loop days_in_month 0 r) [
      | none ↦ false
      | some p ↦ month_checks true r p && month_checks false r p
    ])
    ≡ true
unfolding all_below month_loop month_checks month_to_secs
month_table = refl

checked :
    (found : Option (ℕ × ℕ)) (a b : ℕ × ℕ → Bool)
    → elim found [ none ↦ false | some p ↦ a p && b p ] ≡ true
    → (p : ℕ × ℕ) × (found ≡ some p) × (a p ≡ true) × (b p ≡ true)
checked none a b h = absurd (ground arith)
checked (some p) a b h = (p, refl, ground arith, ground arith)

-- The month loop ends within its table, and the months it counts begin where the other table says.
pub month_found :
    (r : ℕ)
    → r < 366
    → (p : ℕ × ℕ) × (month_loop days_in_month 0 r ≡ some p)
      × (month_checks true r p ≡ true)
      × (month_checks false r p ≡ true)
month_found r h =
    checked (month_loop days_in_month 0 r) (month_checks true r) (month_checks false r)
      (all_below_sound 366 _ r month_table h)

pub gregorian-suc : (g : ℕ) → leap_days (g + 1) ≡ leap_days g + (if gregorian g then 1 else 0)
gregorian-suc g = ground arith

-- The leap days before the March of a year past 2000, given by its cycles.
pub leap_days_cycles :
    (n c q y : ℕ)
    → c ≤ 3
    → q ≤ 24
    → y ≤ 3
    → leap_days (2000 + 400 * n + 100 * c + 4 * q + y + 1) ≡ 486 + 97 * n + 24 * c + q
leap_days_cycles n c q y hc hq hy = omega arith

-- From the January of the next year on, and before.
pub late_month :
    (b : Bool) (r m d : ℕ)
    → month_checks b r (m, d) ≡ true
    → 10 ≤ m
    → (m ≤ 11)
      × (306 ≤ r)
      × (d ≤ 30)
      × (month_to_secs (m - 10) b + 86400 * d + 86400 * 306 ≡ 86400 * r)
unfolding month_checks
late_month b r m d h late = ground arith

pub early_month :
    (b : Bool) (r m d : ℕ)
    → month_checks b r (m, d) ≡ true
    → m < 10
    → (r < 306)
      × (d ≤ 30)
      × (month_to_secs (m + 2) b + 86400 * d ≡ 86400 * (r + 59 + (if b then 1 else 0)))
unfolding month_checks
early_month b r m d h early = ground arith
