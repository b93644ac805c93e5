-- ===== src/Float/Scaled.antt =====
-- A concrete instance of the interface, for tests and witnesses: whole numbers of ten-thousandths.
use shiny_umbrella.Base.{
  suc, ℤ, pos, negsuc, ◌+◌, ◌*◌, ◌/◌, ◌%◌, arith, leb_ℤ, ◌+ℤ◌, ◌-ℤ◌, ◌*ℤ◌, ◌=ℕ◌, [], to_ℕ,
}
use Prim.Native.Nat.{◌^◌}
use shiny_umbrella.Float.Arith.{Arith, OrderLaws}

-- The quotient rounded towards zero.
abbrev pub quot_ℤ : ℤ → ℤ → ℤ
quot_ℤ (pos a) (pos b) = pos (a / b)
quot_ℤ (pos a) (negsuc b) = pos 0 -ℤ pos (a / suc b)
quot_ℤ (negsuc a) (pos b) = pos 0 -ℤ pos (suc a / b)
quot_ℤ (negsuc a) (negsuc b) = pos (suc a / suc b)

abbrev pub floor_ℤ : ℤ → ℤ
floor_ℤ (pos a) = pos (a / 10000)
floor_ℤ (negsuc a) = negsuc (a / 10000)

abbrev pub ceil_ℤ : ℤ → ℤ
ceil_ℤ (pos a) = pos ((a + 9999) / 10000)
ceil_ℤ (negsuc a) = pos 0 -ℤ pos (suc a / 10000)

instance abbrev pub scaled : Arith ℤ
scaled = record {
  add = ◌+ℤ◌;
  sub = ◌-ℤ◌;
  mul = λ a b. quot_ℤ (a *ℤ b) (pos 10000);
  div = λ a b. quot_ℤ (a *ℤ pos 10000) b;
  of_int = λ a. a *ℤ pos 10000;
  literal = λ n k. pos (n * 10000 / 10 ^ k);
  le = leb_ℤ;
  trunc = λ a. quot_ℤ a (pos 10000);
  floor = floor_ℤ;
  ceil = ceil_ℤ;
  is_integer = λ a. to_ℕ a % 10000 =ℕ 0;
  format_g = λ a. [];
  round_to = λ k a. a;
}

pub scaled_laws : OrderLaws scaled
scaled_laws = record {
  le_refl = λ x. ground arith;
  le_trans = λ x y z h k. ground arith;
  le_total = λ x y h. ground arith;
  round_mono = λ k x y h. h;
}
