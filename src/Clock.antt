-- ===== src/Clock.antt =====
-- trading/core/clock.py: the market calendar and the simulated clock.
pub mod Dates
pub mod Calendar
pub mod Days
pub mod Bars
pub mod SimClock
