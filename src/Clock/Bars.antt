-- ===== src/Clock/Bars.antt =====
-- Bars of trading/core/clock.py: `session_bars`, `bar_end` and `bar_start`.
pub mod Grid
use shiny_umbrella.Base.{
  ℕ, zero, suc, ◌+◌, ◌-◌, ◌*◌, ◌/◌, ◌%◌, ◌≤◌, ◌<◌, ◌≡◌, Option, none, some, List, [], ◌∷◌, min, ltb,
  if◌then◌else◌, Result, ok, ◌>>=◌,
}
use shiny_umbrella.Types.Enums.{Exchange, Interval, m1, m5, m15, h1, d1, seconds}
use shiny_umbrella.Clock.Dates.{Timestamp, Date, date_of, combine, second, day_length}
use shiny_umbrella.Clock.Calendar.{MarketCalendar, session_bounds}

-- `timedelta(seconds=interval.seconds)`
abbrev pub step_of : Interval → ℕ
step_of interval = seconds interval * second

-- The loop `while t < close`, on fuel.
unfoldable pub starts_from : ℕ → Timestamp → Timestamp → ℕ → List Timestamp
starts_from zero t close step = []
starts_from (suc fuel) t close step =
    let rest = starts_from fuel (t + step) close step in if ltb t close then t ∷ rest else []

-- One more round than there are whole steps in the session.
abbrev pub enough : Timestamp → Timestamp → ℕ → ℕ
enough open_ close step = (close - open_) / step + 1

intraday_starts : Interval → Timestamp → Timestamp → Date → List Timestamp
intraday_starts d1 open_ close d = combine d 0 ∷ []
intraday_starts interval open_ close d =
    starts_from (enough open_ close (step_of interval)) open_ close (step_of interval)

bars_in : Option (Timestamp × Timestamp) → Interval → Date → List Timestamp
unfolding intraday_starts
bars_in none interval d = []
bars_in (some (open_, close)) interval d = intraday_starts interval open_ close d

unfoldable pub session_bars : MarketCalendar → Exchange → Date → Interval → Result (List Timestamp)
unfolding bars_in
session_bars cal exchange d interval = do
  b ← session_bounds cal exchange d
  ok (bars_in b interval d)

end_in : Option (Timestamp × Timestamp) → Interval → Timestamp → Timestamp
end_in none d1 ts = ts + day_length
end_in (some (open_, close)) d1 ts = close
end_in none interval ts = ts + step_of interval
end_in (some (open_, close)) interval ts = min (ts + step_of interval) close

unfoldable pub bar_end : MarketCalendar → Exchange → Timestamp → Interval → Result Timestamp
unfolding end_in
bar_end cal exchange ts interval = do
  b ← session_bounds cal exchange (date_of ts)
  ok (end_in b interval ts)

-- Whole seconds since midnight, floored to the interval.
unfoldable pub bar_start : Timestamp → Interval → Timestamp
bar_start ts d1 = combine (date_of ts) 0
bar_start ts interval =
    let midnight = combine (date_of ts) 0 in
    let elapsed = (ts - midnight) / second in
    midnight + (elapsed - elapsed % seconds interval) * second
