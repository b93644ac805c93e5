-- ===== src/Clock/Bars/Grid.antt =====
-- The starts of a session's bars form the grid of the interval, and `bar_start` floors to it.
use shiny_umbrella.Base.{
  ℕ, zero, suc, ◌+◌, ◌*◌, ◌%◌, ◌≤◌, ◌<◌, ◌≡◌, ◌≢◌, ◌↔◌, refl, List, arith, get_elem?, some, ltb,
  ltb→lt, lt→ltb, Bool-cases, inl, inr, ok,
}
use shiny_umbrella.Types.Enums.{Exchange, Interval, m1, m5, m15, h1, d1}
use shiny_umbrella.Clock.Dates.{Timestamp, Date, date_of, day_length}
use shiny_umbrella.Clock.Bars.{starts_from, enough, bar_start, step_of, session_bars}
use shiny_umbrella.Clock.Calendar.{MarketCalendar, session_bounds}

-- Every entry of the loop's result is its first start plus that many steps, and lies before the
-- close.
starts_from-get :
    (fuel : ℕ) (t close step i : ℕ) {s : ℕ}
    → get_elem? (starts_from fuel t close step) i ≡ some s
    → (s ≡ t + i * step) × (s < close)
unfolding starts_from
starts_from-get zero t close step i h = cc
starts_from-get (suc fuel) t close step zero h = elim (Bool-cases (ltb t close)) [
  | inl e ↦ ground (arith, ltb→lt t close e)
  | inr e ↦ ground arith
]
starts_from-get (suc fuel) t close step (suc i) h = elim (Bool-cases (ltb t close)) [
  | inl e ↦ grind (arith, starts_from-get fuel (t + step) close step i (rw e at h))
  | inr e ↦ ground arith
]

-- With fuel for the whole session, every grid point before the close is in the result.
starts_from_complete :
    (fuel : ℕ) (t close step i : ℕ)
    → close ≤ t + fuel * step
    → t + i * step < close
    → get_elem? (starts_from fuel t close step) i ≡ some (t + i * step)
unfolding starts_from
starts_from_complete zero t close step i f h = absurd (grind arith)
starts_from_complete (suc fuel) t close step zero f h =
    rw (lt→ltb t close (omega arith)) (ground arith)
starts_from_complete (suc fuel) t close step (suc i) f h =
    rw (lt→ltb t close (grind arith))
      (grind (arith, starts_from_complete fuel (t + step) close step i))

enough_lem : (open_ close step : ℕ) → 0 < step → close ≤ open_ + enough open_ close step * step
enough_lem open_ close step h = grind (arith)

-- `bar_start` keeps the day, lies at or before the timestamp by less than the interval, on a whole
-- number of intervals after midnight, and is a fixed point of itself.
pub bar_start_floors :
    (ts : Timestamp) (interval : Interval)
    → (date_of (bar_start ts interval) ≡ date_of ts)
      × (bar_start ts interval ≤ ts)
      × (ts < bar_start ts interval + step_of interval)
      × ((bar_start ts interval % day_length) % step_of interval ≡ 0)
      × (bar_start (bar_start ts interval) interval ≡ bar_start ts interval)
unfolding bar_start
bar_start_floors ts m1 = omega arith
bar_start_floors ts m5 = omega arith
bar_start_floors ts m15 = omega arith
bar_start_floors ts h1 = omega arith
bar_start_floors ts d1 = omega arith

starts_from_iff :
    (t close step : ℕ)
    → 0 < step
    → (i s : ℕ)
    → (get_elem? (starts_from (enough t close step) t close step) i ≡ some s)
      ↔ ((s ≡ t + i * step) × (s < close))
starts_from_iff t close step h i s = (
  starts_from-get (enough t close step) t close step i,
  λ e. rw (e.0) (
      starts_from_complete (enough t close step) t close step i (enough_lem t close step h)
        (omega (arith, e.0, e.1))),
)

-- The intraday bars of a session start exactly at the multiples of the interval after its open that
-- lie before its close, in order: the loop's fuel never cuts them short.
pub session_bars_grid :
    (cal : MarketCalendar) (exchange : Exchange) (d : Date) (interval : Interval)
    {open_ close : Timestamp}
    → interval ≢ d1
    → session_bounds cal exchange d ≡ ok (some (open_, close))
    → (starts : List Timestamp) × (session_bars cal exchange d interval ≡ ok starts)
      × ((i s : ℕ)
          → (get_elem? starts i ≡ some s) ↔ ((s ≡ open_ + i * step_of interval) × (s < close)))
unfolding session_bars
session_bars_grid cal exchange d m1 {open_} {close} h e =
    (_, rw e refl, starts_from_iff open_ close (step_of m1) (omega arith))
session_bars_grid cal exchange d m5 {open_} {close} h e =
    (_, rw e refl, starts_from_iff open_ close (step_of m5) (omega arith))
session_bars_grid cal exchange d m15 {open_} {close} h e =
    (_, rw e refl, starts_from_iff open_ close (step_of m15) (omega arith))
session_bars_grid cal exchange d h1 {open_} {close} h e =
    (_, rw e refl, starts_from_iff open_ close (step_of h1) (omega arith))
session_bars_grid cal exchange d d1 h e = absurd (h refl)
