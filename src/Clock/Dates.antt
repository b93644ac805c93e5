-- ===== src/Clock/Dates.antt =====
-- Dates and times of trading/core/clock.py. A date is its proleptic Gregorian ordinal, as Python's
-- `date.toordinal`, a time of day is in microseconds, and a datetime is the number of microseconds
-- of IST since the start of ordinal 0: IST has a fixed offset, so `ts.date()` is a quotient.
use shiny_umbrella.Base.{
  ℕ, zero, suc, ◌+◌, ◌-◌, ◌*◌, ◌/◌, ◌%◌, ◌≤◌, ◌<◌, ◌≡◌, Bool, ◌&&◌, ◌||◌, not, arith, ltb, leb,
  ◌=ℕ◌, if◌then◌else◌,
}

abbrev pub Date : Type 0
Date = ℕ

abbrev pub Time : Type 0
Time = ℕ

abbrev pub Timestamp : Type 0
Timestamp = ℕ

abbrev pub second : ℕ
second = 1000000

abbrev pub day_length : ℕ
day_length = 86400000000

-- `time(hour, minute)`
abbrev pub time_of : ℕ → ℕ → Time
time_of h m = (h * 3600 + m * 60) * second

-- `ts.date()`
abbrev pub date_of : Timestamp → Date
date_of ts = ts / day_length

-- `datetime.combine(d, t, tzinfo=IST)`
abbrev pub combine : Date → Time → Timestamp
combine d t = d * day_length + t

-- `d.weekday()`: Monday is 0.
abbrev pub weekday : Date → ℕ
weekday d = (d + 6) % 7

abbrev is_leap : ℕ → Bool
is_leap y = y % 4 =ℕ 0 && (not (y % 100 =ℕ 0) || y % 400 =ℕ 0)

abbrev days_before_year : ℕ → ℕ
days_before_year y = (y - 1) * 365 + (y - 1) / 4 - (y - 1) / 100 + (y - 1) / 400

abbrev month_starts : ℕ → ℕ
month_starts (suc (suc zero)) = 31
month_starts (suc (suc (suc zero))) = 59
month_starts (suc (suc (suc (suc zero)))) = 90
month_starts (suc (suc (suc (suc (suc zero))))) = 120
month_starts (suc (suc (suc (suc (suc (suc zero)))))) = 151
month_starts (suc (suc (suc (suc (suc (suc (suc zero))))))) = 181
month_starts (suc (suc (suc (suc (suc (suc (suc (suc zero)))))))) = 212
month_starts (suc (suc (suc (suc (suc (suc (suc (suc (suc zero))))))))) = 243
month_starts (suc (suc (suc (suc (suc (suc (suc (suc (suc (suc zero)))))))))) = 273
month_starts (suc (suc (suc (suc (suc (suc (suc (suc (suc (suc (suc zero))))))))))) = 304
month_starts (suc (suc (suc (suc (suc (suc (suc (suc (suc (suc (suc (suc zero)))))))))))) = 334
month_starts _ = 0

abbrev days_before_month : ℕ → ℕ → ℕ
days_before_month y m = month_starts m + (if ltb 2 m && is_leap y then 1 else 0)

-- `date(y, m, d)`
unfoldable pub date : ℕ → ℕ → ℕ → Date
date y m d = days_before_year y + days_before_month y m + d

-- `d.year`, by the cycles of 400, 100, 4 and 1 years
year_in_cycle : ℕ → ℕ → ℕ → ℕ → ℕ
year_in_cycle n400 n100 n4 n1 =
    let y = n400 * 400 + n100 * 100 + n4 * 4 + n1 + 1 in if n1 =ℕ 4 || n100 =ℕ 4 then y - 1 else y

unfoldable pub year : Date → ℕ
unfolding year_in_cycle
year d =
    let n = d - 1 in
    let r400 = n % 146097 in
    let r100 = r400 % 36524 in
    let r4 = r100 % 1461 in year_in_cycle (n / 146097) (r400 / 36524) (r100 / 1461) (r4 / 365)

-- `_nth_sunday`, for an n of at least 1, as it is called
unfoldable pub nth_sunday : ℕ → ℕ → ℕ → Date
nth_sunday y month n =
    let d = date y month 1 in let first = d + (6 - weekday d) % 7 in first + 7 * (n - 1)

unfoldable pub us_dst_active : Date → Bool
unfolding nth_sunday year date
us_dst_active d = leb (nth_sunday (year d) 3 2) d && ltb d (nth_sunday (year d) 11 1)

-- What `_nth_sunday` returns is a Sunday, in the n-th week of the month.
pub nth_sunday_lem :
    (y month n : ℕ)
    → (weekday (nth_sunday y month n) ≡ 6)
      × (date y month 1 + 7 * (n - 1) ≤ nth_sunday y month n)
      × (nth_sunday y month n < date y month 1 + 7 * (n - 1) + 7)
unfolding nth_sunday
nth_sunday_lem y month n = omega arith
