-- ===== src/Types.antt =====
-- The domain types of trading/core/types.py that every layer shares.
pub mod Enums
pub mod Market
pub mod Orders
pub mod Intents
pub mod Messages
