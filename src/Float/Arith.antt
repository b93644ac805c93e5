-- ===== src/Float/Arith.antt =====
-- The operations on floats, with Python's `min`, `max` and `abs` as it defines them.
use shiny_umbrella.Base.{ℕ, ℤ, pos, ◌≡◌, Bool, true, false, not, if◌then◌else◌, arith, Text}

pub record Arith (F : Type 0) : Type 0 where
  pub add : F → F → F
  pub sub : F → F → F
  pub mul : F → F → F
  pub div : F → F → F
  pub of_int : ℤ → F
  -- `literal n k` is the float that Python reads for n / 10 ^ k.
  pub literal : ℕ → ℕ → F
  pub le : F → F → Bool
  -- `int(x)`, `math.floor(x)`, `math.ceil(x)`
  pub trunc : F → ℤ
  pub floor : F → ℤ
  pub ceil : F → ℤ
  -- `x.is_integer()` and `f"{x:g}"`
  pub is_integer : F → Bool
  pub format_g : F → Text
  -- `round_to k x` is `round(x, k)`.
  pub round_to : ℕ → F → F

module _ {F : Type 0} ⦃fl : Arith F⦄ where
  infixl 65 ◌⊕◌ ◌⊖◌
  infixl 70 ◌⊗◌ ◌⊘◌
  infix 50 ◌≼◌ ◌≺◌
  abbrev pub ◌⊕◌ : F → F → F
  x ⊕ y = fl.add x y

  abbrev pub ◌⊖◌ : F → F → F
  x ⊖ y = fl.sub x y

  abbrev pub ◌⊗◌ : F → F → F
  x ⊗ y = fl.mul x y

  abbrev pub ◌⊘◌ : F → F → F
  x ⊘ y = fl.div x y

  abbrev pub ◌≼◌ : F → F → Bool
  x ≼ y = fl.le x y

  -- Of two floats that are not NaN, the one is below the other or not above it.
  abbrev pub ◌≺◌ : F → F → Bool
  x ≺ y = not (fl.le y x)

  abbrev pub of_int : ℤ → F
  of_int n = fl.of_int n

  abbrev pub of_ℕ : ℕ → F
  of_ℕ n = fl.of_int (pos n)

  abbrev pub literal : ℕ → ℕ → F
  literal n k = fl.literal n k

  abbrev pub round_to : ℕ → F → F
  round_to k x = fl.round_to k x

  -- The first argument is kept where the two are equal, as Python does.
  abbrev pub fmin : F → F → F
  fmin x y = if y ≺ x then y else x

  abbrev pub fmax : F → F → F
  fmax x y = if x ≺ y then y else x

  abbrev pub neg : F → F
  neg x = of_ℕ 0 ⊖ x

  abbrev pub fabs : F → F
  fabs x = if x ≺ of_ℕ 0 then neg x else x

-- Comparison is a total order, and rounding to a number of places is monotone.
pub record OrderLaws {F : Type 0} (fl : Arith F) : Type 0 where
  pub le_refl : (x : F) → fl.le x x ≡ true
  pub le_trans : (x y z : F) → fl.le x y ≡ true → fl.le y z ≡ true → fl.le x z ≡ true
  pub le_total : (x y : F) → fl.le x y ≡ false → fl.le y x ≡ true
  pub round_mono :
      (k : ℕ) (x y : F) → fl.le x y ≡ true → fl.le (fl.round_to k x) (fl.round_to k y) ≡ true

module _ {F : Type 0} ⦃fl : Arith F⦄ (laws : OrderLaws fl) where
  pub fmin-le_left : (x y : F) → (fmin x y ≼ x) ≡ true
  fmin-le_left x y = ground (arith, laws.le_refl x, laws.le_total x y)

  pub fmin-le_right : (x y : F) → (fmin x y ≼ y) ≡ true
  fmin-le_right x y = ground (arith, laws.le_refl y)

  pub le-fmax_left : (x y : F) → (x ≼ fmax x y) ≡ true
  le-fmax_left x y = ground (arith, laws.le_refl x, laws.le_total y x)

  pub le-fmax_right : (x y : F) → (y ≼ fmax x y) ≡ true
  le-fmax_right x y = ground (arith, laws.le_refl y)
