-- ===== src/Paper.antt =====
-- trading/brokers/paper.py: the paper broker, which backtest/sim_broker.py configures for backtests.
pub mod State
pub mod Positions
pub mod Pricing
pub mod Matching
pub mod Validation
pub mod Calls
pub mod Steps
pub mod Totals
pub mod Liquidation
pub mod Sessions
pub mod Simulator
pub mod Limits
pub mod Ledger
