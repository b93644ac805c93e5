-- ===== src/Float.antt =====
-- Python's floats, as an interface: the operations that the program calls, over a type that
-- stands for the floats other than NaN. No rounding error is assumed away: the laws that a
-- theorem may take, `OrderLaws`, are those of comparison and of `round`.
pub mod Arith
pub mod Scaled
