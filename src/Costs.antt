-- ===== src/Costs.antt =====
-- trading/backtest/costs.py: the fees of a fill and the cost of a round trip.
pub mod Fees
pub mod Defaults
