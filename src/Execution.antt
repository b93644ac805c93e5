-- ===== src/Execution.antt =====
-- trading/agents/execution.py: the execution agent, the only component that talks to a broker.
pub mod State
pub mod Slices
pub mod Pricing
pub mod Intents
pub mod Approval
pub mod Placing
pub mod Fills
pub mod Updates
pub mod Manage
pub mod Handlers
pub mod Steps
pub mod Halted
pub mod Budget
