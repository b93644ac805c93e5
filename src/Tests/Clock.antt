-- ===== src/Tests/Clock.antt =====
-- Tests of the market clock: an NSE calendar without holidays or special sessions, about the
-- weekend of 3 January 2026.
use shiny_umbrella.Base.{
  leb, ◌-◌, ℕ, ◌+◌, ◌*◌, ◌%◌, ◌≤◌, ◌<◌, ◌≡◌, ◌≢◌, ◌↔◌, refl, true, Option, none, some, List, [],
  ◌∷◌, ok, arith, inl, inr, Bool-cases, get_elem?, nat_eq, lookup, contains, pos, negsuc,
}
use mathlib.Core.List.{Memᴰ}
use shiny_umbrella.Types.Enums.{nse, m5, h1, d1}
use shiny_umbrella.Clock.Dates.{
  Date, Timestamp, date_of, combine, time_of, weekday, date, nth_sunday, second, day_length,
}
use shiny_umbrella.Clock.Calendar.{
  MarketCalendar, regular_sessions, session, session_bounds, bounds, is_trading_day, is_open,
  next_open, next_open_from, next_close, ahead, within, regular_close, regular_close_for,
}
use shiny_umbrella.Clock.Calendar.Search.{
  IsNextOpen, next_open-IsNextOpen, next_open_finds, next_close_while_open,
}
use shiny_umbrella.Clock.Days.{next_trading_day, trading_days, days_from}
use shiny_umbrella.Clock.Days.Navigation.{Trades, Closed, next_trading_day_first, trading_days_iff}
use shiny_umbrella.Clock.Bars.{bar_start, session_bars, step_of}
use shiny_umbrella.Clock.Bars.Grid.{bar_start_floors, session_bars_grid}
use shiny_umbrella.Clock.SimClock.{Move, set, advance, moves, moves-le}
use shiny_umbrella.Clock.Dates.{nth_sunday_lem}

abbrev cal : MarketCalendar
cal = record {
  sessions = regular_sessions;
  holidays = λ e. [];
  special_sessions = λ e. [];
  mcx_dst_close = some (time_of 23 30);
}

-- Friday, 2 January 2026
abbrev friday : Date
friday = 739618

abbrev monday : Date
monday = 739621

abbrev after_close : Timestamp
after_close = combine friday (time_of 16 0)

abbrev monday_open : Timestamp
monday_open = combine (friday + 3) (time_of 9 15)

the_second_is_friday : date 2026 1 2 ≡ friday
unfolding date
the_second_is_friday = refl

opens_monday : next_open cal nse after_close ≡ ok monday_open
unfolding next_open next_open_from session_bounds session regular_close regular_close_for bounds
    ahead lookup contains
opens_monday = refl

next_open-IsNextOpen_example : IsNextOpen cal nse after_close (date_of after_close) monday_open
next_open-IsNextOpen_example = next_open-IsNextOpen cal nse after_close opens_monday

read_day : (d : Date) → (b : Option (Timestamp × Timestamp)) × (session_bounds cal nse d ≡ ok b)
unfolding session_bounds session regular_close regular_close_for bounds lookup contains
read_day d = elim (Bool-cases (leb 5 (weekday d))) [
  | inl e ↦ (none, rw e refl)
  | inr e ↦ (some (combine d (time_of 9 15), combine d (time_of 15 30)), rw e refl)
]

monday_bounds :
    session_bounds cal nse (friday + 3)
    ≡ ok (some (monday_open, combine (friday + 3) (time_of 15 30)))
unfolding session_bounds session regular_close regular_close_for bounds lookup contains
monday_bounds = refl

next_open_finds_example :
    (t : Timestamp) × (next_open cal nse after_close ≡ ok t)
    × IsNextOpen cal nse after_close (date_of after_close) t
next_open_finds_example =
    next_open_finds cal nse after_close 3 (λ k h. read_day (friday + k)) (omega arith) monday_bounds
      (omega arith)

abbrev noon : Timestamp
noon = combine friday (time_of 12 0)

open_at_noon : is_open cal nse noon ≡ ok true
unfolding is_open within session_bounds session regular_close regular_close_for bounds lookup
    contains
open_at_noon = refl

next_close_while_open_example :
    (o c : Timestamp) × (session_bounds cal nse (date_of noon) ≡ ok (some (o, c)))
    × (next_close cal nse noon ≡ ok c)
    × (o ≤ noon)
    × (noon < c)
next_close_while_open_example = next_close_while_open cal nse noon open_at_noon

monday-Trades : Trades cal nse (friday + 1 + 2)
unfolding is_trading_day session regular_close regular_close_for lookup contains
monday-Trades = refl

weekend-Closed : (j : ℕ) → j < 2 → Closed cal nse (friday + 1 + j)
unfolding is_trading_day session regular_close regular_close_for lookup contains
weekend-Closed ℕ.zero h = refl
weekend-Closed (ℕ.suc ℕ.zero) h = refl
weekend-Closed (ℕ.suc (ℕ.suc j)) h = absurd (omega arith)

next_trading_day_first_example : next_trading_day cal nse 5 friday ≡ ok (some (friday + 1 + 2))
next_trading_day_first_example =
    next_trading_day_first cal nse 5 2 friday (omega arith) weekend-Closed monday-Trades

two_days : trading_days cal nse friday (friday + 3) ≡ ok (friday ∷ monday ∷ [])
unfolding trading_days days_from is_trading_day session regular_close regular_close_for lookup
    contains
two_days = refl

trading_days_iff_example :
    Memᴰ (friday + 3) (friday ∷ monday ∷ [])
    ↔ ((friday ≤ friday + 3) × (friday + 3 ≤ friday + 3) × Trades cal nse (friday + 3))
trading_days_iff_example = trading_days_iff cal nse friday (friday + 3) two_days (friday + 3)

bar_start_floors_example :
    (date_of (bar_start (noon + 123 * second) m5) ≡ date_of (noon + 123 * second))
    × (bar_start (noon + 123 * second) m5 ≤ noon + 123 * second)
    × (noon + 123 * second < bar_start (noon + 123 * second) m5 + step_of m5)
    × ((bar_start (noon + 123 * second) m5 % day_length) % step_of m5 ≡ 0)
    × (bar_start (bar_start (noon + 123 * second) m5) m5 ≡ bar_start (noon + 123 * second) m5)
bar_start_floors_example = bar_start_floors (noon + 123 * second) m5

not_daily : h1 ≢ d1
not_daily h = cc

session_bars_grid_example :
    (starts : List Timestamp) × (session_bars cal nse (friday + 3) h1 ≡ ok starts)
    × ((i s : ℕ)
        → (get_elem? starts i ≡ some s)
          ↔ ((s ≡ monday_open + i * step_of h1) × (s < combine (friday + 3) (time_of 15 30))))
session_bars_grid_example = session_bars_grid cal nse (friday + 3) h1 not_daily monday_bounds

abbrev calls : List Move
calls = set 86400000500 ∷ set 86400000400 ∷ advance (pos 20) ∷ []

clock_after : moves 86400000100 calls ≡ 86400000520
unfolding moves
clock_after = refl

-- A negative `advance` does move the clock back.
went_back : moves 86400000100 (advance (negsuc 49) ∷ []) ≡ 86400000050
unfolding moves
went_back = refl

moves-le_example : 86400000100 ≤ moves 86400000100 calls
moves-le_example = moves-le 86400000100 calls (refl, (refl, (refl, tt)))

nth_sunday_lem_example :
    (weekday (nth_sunday 2026 3 2) ≡ 6)
    × (date 2026 3 1 + 7 * (2 - 1) ≤ nth_sunday 2026 3 2)
    × (nth_sunday 2026 3 2 < date 2026 3 1 + 7 * (2 - 1) + 7)
nth_sunday_lem_example = nth_sunday_lem 2026 3 2
