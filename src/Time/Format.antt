-- ===== src/Time/Format.antt =====
-- `t.UTC().Format(time.RFC3339)`: the date in the Gregorian calendar and the time of the day.
use poison_trace.Base.{
  ℕ, ◌+◌, ◌*◌, ◌-◌, ◌/◌, ◌%◌, min, ltb, not, Bool, ◌&&◌, ◌||◌, ◌==◌, List, [], ◌∷◌, ◌++◌,
  if◌then◌else◌,
}
use poison_trace.Text.{Str, codes, decimal}
use poison_trace.Time.{Time, second, day}

-- Years, months and days from 1, as are the days of a year here from 0.
record Date : Type 0 where
  year : ℕ
  month : ℕ
  day_of_month : ℕ

is_leap : ℕ → Bool
is_leap y = y % 4 == 0 && (not (y % 100 == 0) || y % 400 == 0)

-- The day of a year from the month of this number on, whose lengths are given.
date_from : ℕ → ℕ → ℕ → List ℕ → Date
date_from y m d [] = record { year = y; month = m; day_of_month = d + 1 }
date_from y m d (size ∷ sizes) =
    let later = date_from y (m + 1) (d - size) sizes in
    if ltb d size then record { year = y; month = m; day_of_month = d + 1 } else later

month_sizes : ℕ → List ℕ
unfolding is_leap
month_sizes y =
    31 ∷ (if is_leap y then 29 else 28) ∷ 31 ∷ 30 ∷ 31 ∷ 30 ∷ 31 ∷ 31 ∷ 30 ∷ 31 ∷ 30 ∷ 31 ∷ []

-- The date of a number of days after 1 January of year 1: the centuries of 400 years, then those of
-- 100, 4 and 1 years, of which the last is the longest.
date_of : ℕ → Date
unfolding date_from month_sizes
date_of n =
    let in_400 = n % 146_097 in
    let c = min (in_400 / 36_524) 3 in
    let in_100 = in_400 - c * 36_524 in
    let in_4 = in_100 % 1_461 in
    let y = min (in_4 / 365) 3 in
    let year = n / 146_097 * 400 + c * 100 + in_100 / 1_461 * 4 + y + 1 in
    date_from year 1 (in_4 - y * 365) (month_sizes year)

two_digits : ℕ → Str
two_digits n = decimal (n / 10) ++ decimal (n % 10)

four_digits : ℕ → Str
unfolding two_digits
four_digits n = if ltb n 10_000 then two_digits (n / 100) ++ two_digits (n % 100) else decimal n

unfoldable pub format_rfc3339 : Time → Str
unfolding date_of four_digits
format_rfc3339 t =
    let d = date_of (t / day) in
    let s = t % day / second in
    four_digits d.year
    ++ (codes "-"
        ++ (two_digits d.month
            ++ (codes "-"
                ++ (two_digits d.day_of_month
                    ++ (codes "T"
                        ++ (two_digits (s / 3_600)
                            ++ (codes ":"
                                ++ (two_digits (s / 60 % 60)
                                    ++ (codes ":" ++ (two_digits (s % 60) ++ codes "Z"))))))))))
