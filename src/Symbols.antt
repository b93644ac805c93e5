-- ===== src/Symbols.antt =====
-- trading/brokers/symbols.py and trading/brokers/lots.py: canonical symbols, contract multipliers
-- and lot sizes.
pub mod Text
pub mod Parse
pub mod Make
pub mod Lots
pub mod Instruments
pub mod Policy
pub mod Expiry
