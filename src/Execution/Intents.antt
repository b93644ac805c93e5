-- ===== src/Execution/Intents.antt =====
-- `==` of order intents (trading/core/types.py), by which `check_approval` compares an approval's
-- intent with the one that was seen.
pub mod Same
use shiny_umbrella.Base.{
  ◌≡◌, refl, ◌↔◌, Bool, true, false, ◌&&◌, not, Option, none, some, List, [], ◌∷◌, Text, Dict, keys,
  lookup, contains, nat_eq, list_eq, list_beq_iff, ◌==◌, =ℕ_iff, if◌then◌else◌, arith, Bool-cases,
  inl, inr,
}
use mathlib.Core.Path.{subst}
use shiny_umbrella.Float.Arith.{Arith, ◌≼◌, of_ℕ}
use shiny_umbrella.Types.Enums.{
  Side, is_buy, product_beq, product_beq_iff, Urgency, passive, normal, aggressive,
}
use shiny_umbrella.Types.Intents.{
  OrderIntent, MetaValue, text_value, number_value, flag_value, null,
}

abbrev pub bool_beq : Bool → Bool → Bool
bool_beq true b = b
bool_beq false b = not b

abbrev pub side_beq : Side → Side → Bool
side_beq a b = bool_beq (is_buy a) (is_buy b)

abbrev pub urgency_beq : Urgency → Urgency → Bool
urgency_beq passive passive = true
urgency_beq normal normal = true
urgency_beq aggressive aggressive = true
urgency_beq _ _ = false

-- Options that are both none, or both hold values that are related
abbrev pub opt_beq {ℓ} : {A : Type ℓ} → (A → A → Bool) → Option A → Option A → Bool
opt_beq test none none = true
opt_beq test (some x) (some y) = test x y
opt_beq test _ _ = false

abbrev pub text_beq : Text → Text → Bool
text_beq a b = a == b

module _ {F : Type 0} ⦃fl : Arith F⦄ where
  -- `==` of floats that are not NaN
  abbrev pub float_beq : F → F → Bool
  float_beq x y = (x ≼ y) && (y ≼ x)

  -- In Python a flag is the number 0 or 1.
  abbrev pub flag_number : Bool → F
  flag_number b = of_ℕ (if b then 1 else 0)

  abbrev pub value_beq : MetaValue F → MetaValue F → Bool
  value_beq (text_value a) (text_value b) = text_beq a b
  value_beq (number_value x) (number_value y) = float_beq x y
  value_beq (flag_value a) (flag_value b) = bool_beq a b
  value_beq (flag_value a) (number_value y) = float_beq (flag_number a) y
  value_beq (number_value x) (flag_value b) = float_beq x (flag_number b)
  value_beq null null = true
  value_beq _ _ = false

  -- The dicts hold equal values, or none, under a key.
  abbrev pub agree_at : Dict Text (MetaValue F) → Dict Text (MetaValue F) → Text → Bool
  agree_at d e k = opt_beq value_beq (lookup k d) (lookup k e)

  abbrev pub agree : Dict Text (MetaValue F) → Dict Text (MetaValue F) → List Text → Bool
  agree d e [] = true
  agree d e (k ∷ ks) = agree_at d e k && agree d e ks

  -- `==` of dicts
  abbrev pub meta_beq : Dict Text (MetaValue F) → Dict Text (MetaValue F) → Bool
  meta_beq d e = agree d e (keys d) && agree d e (keys e)

  -- `==` of intents, field by field
  unfoldable pub intent_beq : OrderIntent F → OrderIntent F → Bool
  intent_beq i j =
      i.id == j.id
      && i.ts == j.ts
      && i.strategy_id == j.strategy_id
      && i.symbol == j.symbol
      && side_beq i.side j.side
      && i.qty == j.qty
      && product_beq i.product j.product
      && urgency_beq i.urgency j.urgency
      && float_beq i.reference_price j.reference_price
      && float_beq i.limit_band_bps j.limit_band_bps
      && i.ttl_seconds == j.ttl_seconds
      && float_beq i.expected_edge_bps j.expected_edge_bps
      && opt_beq float_beq i.prob j.prob
      && opt_beq float_beq i.payoff_ratio j.payoff_ratio
      && opt_beq text_beq i.model_version j.model_version
      && opt_beq text_beq i.signal_id j.signal_id
      && meta_beq i.meta j.meta
