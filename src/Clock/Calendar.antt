-- ===== src/Clock/Calendar.antt =====
-- `Session` and `MarketCalendar` of trading/core/clock.py: which sessions a day has, when the
-- market is open, and the search for the next open and close. The dictionaries that `load` builds
-- have an entry for each calendar, so they are functions of it here.
pub mod Search
use shiny_umbrella.Base.{
  ℕ, zero, suc, ◌+◌, ◌≤◌, ◌<◌, ◌≡◌, Bool, true, false, ◌&&◌, ◌||◌, Option, none, some, List, arith,
  ltb, leb, if◌then◌else◌, Dict, lookup, contains, is_some, Result, ok, err, Error, assertion_error,
  runtime_error, type_error, ◌>>=◌, or_raise, nat_eq,
}
use shiny_umbrella.Types.Enums.{Exchange, nse, nfo, mcx}
use shiny_umbrella.Clock.Dates.{
  Date, Time, Timestamp, date_of, combine, weekday, time_of, us_dst_active,
}

pub record Session : Type 0 where
  pub opens : Time
  -- `None` only inside `special_sessions`: the regular close
  pub closes : Option Time

pub record MarketCalendar : Type 0 where
  pub sessions : Exchange → Session
  pub holidays : Exchange → List Date
  pub special_sessions : Exchange → Dict Date Session
  pub mcx_dst_close : Option Time

-- `_calendar_key`: NFO trades on the NSE calendar.
abbrev pub calendar_key : Exchange → Exchange
calendar_key nse = nse
calendar_key nfo = nse
calendar_key mcx = mcx

unfoldable pub regular_close_for : MarketCalendar → Exchange → Date → Result Time
regular_close_for cal mcx d = elim cal.mcx_dst_close [
  | some t ↦ if us_dst_active d then ok t else or_raise (cal.sessions mcx).closes assertion_error
  | none ↦ or_raise (cal.sessions mcx).closes assertion_error
]
regular_close_for cal key d = or_raise (cal.sessions key).closes assertion_error

unfoldable pub regular_close : MarketCalendar → Exchange → Date → Result Time
unfolding regular_close_for
regular_close cal exchange d = regular_close_for cal (calendar_key exchange) d

special_close : MarketCalendar → Exchange → Date → Option Time → Result Time
special_close cal key d (some t) = ok t
special_close cal key d none = regular_close cal key d

-- `MarketCalendar.session`
unfoldable pub session : MarketCalendar → Exchange → Date → Result (Option Session)
unfolding special_close
session cal exchange d =
    let key = calendar_key exchange in
    elim (lookup d (cal.special_sessions key)) [
      | some special ↦ do
        closes ← special_close cal key d special.closes
        ok (some (record { opens = special.opens; closes = some closes }))
      | none ↦ if leb 5 (weekday d) || contains d (cal.holidays key) then ok none else (do
        closes ← regular_close cal key d
        ok (some (record { opens = (cal.sessions key).opens; closes = some closes })))
    ]

-- `Session.bounds`
unfoldable pub bounds : Session → Date → Result (Timestamp × Timestamp)
bounds s d = do closes ← or_raise s.closes assertion_error; ok (combine d s.opens, combine d closes)

unfoldable pub is_trading_day : MarketCalendar → Exchange → Date → Result Bool
is_trading_day cal exchange d = do s ← session cal exchange d; ok (is_some s)

bounds_of : Option Session → Date → Result (Option (Timestamp × Timestamp))
bounds_of none d = ok none
bounds_of (some s) d = do b ← bounds s d; ok (some b)

unfoldable pub session_bounds :
    MarketCalendar → Exchange → Date → Result (Option (Timestamp × Timestamp))
unfolding bounds_of
session_bounds cal exchange d = do s ← session cal exchange d; bounds_of s d

unfoldable pub within : Option (Timestamp × Timestamp) → Timestamp → Bool
within none ts = false
within (some (open_, close)) ts = leb open_ ts && ltb ts close

unfoldable pub is_open : MarketCalendar → Exchange → Timestamp → Result Bool
is_open cal exchange ts = do b ← session_bounds cal exchange (date_of ts); ok (within b ts)

-- The opening of the session if it is still ahead of `ts`.
unfoldable pub ahead : Option (Timestamp × Timestamp) → Timestamp → Option Timestamp
ahead none ts = none
ahead (some (open_, close)) ts = if ltb ts open_ then some open_ else none

-- The loop of `next_open`, on the rounds that are left.
unfoldable pub next_open_from : MarketCalendar → Exchange → Timestamp → ℕ → Date → Result Timestamp
next_open_from cal exchange ts zero d = err runtime_error
next_open_from cal exchange ts (suc rounds) d = do
  b ← session_bounds cal exchange d
  elim (ahead b ts) [ some t ↦ ok t | none ↦ next_open_from cal exchange ts rounds (d + 1) ]

unfoldable pub next_open : MarketCalendar → Exchange → Timestamp → Result Timestamp
next_open cal exchange ts = next_open_from cal exchange ts 400 (date_of ts)

-- The close of the session that a search has found; `None[1]` raises.
abbrev close_of : Option (Timestamp × Timestamp) → Result Timestamp
close_of none = err type_error
close_of (some (open_, close)) = ok close

-- The close if it is still ahead of `ts`.
unfoldable pub closing : Option (Timestamp × Timestamp) → Timestamp → Option Timestamp
closing none ts = none
closing (some (open_, close)) ts = if ltb ts close then some close else none

unfoldable pub next_close : MarketCalendar → Exchange → Timestamp → Result Timestamp
next_close cal exchange ts = do
  b ← session_bounds cal exchange (date_of ts)
  elim (closing b ts) [
    | some t ↦ ok t
    | none ↦ do
      next ← next_open cal exchange ts
      later ← session_bounds cal exchange (date_of next)
      close_of later
  ]

-- The NSE and MCX sessions that `load` sets up, with the default closes.
abbrev pub regular_sessions : Exchange → Session
regular_sessions mcx = record { opens = time_of 9 0; closes = some (time_of 23 30) }
regular_sessions _ = record { opens = time_of 9 15; closes = some (time_of 15 30) }
