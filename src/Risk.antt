-- ===== src/Risk.antt =====
-- trading/agents/risk.py: the risk agent, the only component that approves a trade.
pub mod State
pub mod Rules
pub mod Evaluate
pub mod Agent
