-- ===== src/Training.antt =====
-- trading/training: the walk-forward splits.
pub mod Splits
