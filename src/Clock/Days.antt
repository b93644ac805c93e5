-- ===== src/Clock/Days.antt =====
-- Trading-day navigation of trading/core/clock.py. The `while` loops of `next_trading_day` and
-- `previous_trading_day` have no bound in the source: the model takes fuel, and `none` is the loop
-- that is still running.
pub mod Navigation
use shiny_umbrella.Base.{
  ℕ, zero, suc, ◌+◌, ◌-◌, ◌≤◌, ◌<◌, Bool, Option, none, some, List, [], ◌∷◌, leb, Result, ok,
  if◌then◌else◌, ◌>>=◌,
}
use shiny_umbrella.Types.Enums.{Exchange}
use shiny_umbrella.Clock.Dates.{Date}
use shiny_umbrella.Clock.Calendar.{MarketCalendar, is_trading_day}

unfoldable pub next_from : MarketCalendar → Exchange → ℕ → Date → Result (Option Date)
next_from cal exchange zero d = ok none
next_from cal exchange (suc fuel) d =
    let rest = next_from cal exchange fuel (d + 1) in
    (is_trading_day cal exchange d >>= λ trading. if trading then ok (some d) else rest)

unfoldable pub next_trading_day : MarketCalendar → Exchange → ℕ → Date → Result (Option Date)
next_trading_day cal exchange fuel d = next_from cal exchange fuel (d + 1)

unfoldable pub previous_from : MarketCalendar → Exchange → ℕ → Date → Result (Option Date)
previous_from cal exchange zero d = ok none
previous_from cal exchange (suc fuel) d =
    let rest = previous_from cal exchange fuel (d - 1) in
    (is_trading_day cal exchange d >>= λ trading. if trading then ok (some d) else rest)

unfoldable pub previous_trading_day : MarketCalendar → Exchange → ℕ → Date → Result (Option Date)
previous_trading_day cal exchange fuel d = previous_from cal exchange fuel (d - 1)

-- The `while d <= end` loop of `trading_days`, which runs once for each of the `rounds` dates left.
unfoldable pub days_from : MarketCalendar → Exchange → ℕ → Date → Result (List Date)
days_from cal exchange zero d = ok []
days_from cal exchange (suc rounds) d = is_trading_day cal exchange d >>= λ trading.
    days_from cal exchange rounds (d + 1) >>= λ rest. ok (if trading then d ∷ rest else rest)

unfoldable pub trading_days : MarketCalendar → Exchange → Date → Date → Result (List Date)
trading_days cal exchange start end = days_from cal exchange (end + 1 - start) start
