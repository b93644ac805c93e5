-- ===== src/Paper/Positions.antt =====
-- `apply_fill_to_position` of trading/brokers/paper.py: average-cost accounting.
use shiny_umbrella.Base.{
  ℕ, Bool, true, false, ◌||◌, ℤ, pos, negsuc, ◌+ℤ◌, eqb_ℤ, ltb_ℤ, to_ℕ, min, if◌then◌else◌, Text,
  none,
}
use shiny_umbrella.Float.Arith.{Arith, ◌⊕◌, ◌⊖◌, ◌⊗◌, ◌⊘◌, of_ℕ, of_int}
use shiny_umbrella.Types.Enums.{Side, ProductType, signed}
use shiny_umbrella.Types.Orders.{Position}

abbrev pub is_pos : ℤ → Bool
is_pos n = ltb_ℤ (pos 0) n

-- `(a > 0) == (b > 0)`
abbrev pub same_sign : ℤ → ℤ → Bool
same_sign a b = if is_pos a then is_pos b else (if is_pos b then false else true)

module _ {F : Type 0} ⦃fl : Arith F⦄ where
  -- The position's first fill, or one that adds to it
  unfoldable pub extend : Position F → ℤ → ℕ → F → Position F × F
  extend p change qty price =
      let new_qty = p.qty +ℤ change in
      (
        record p {
          avg_price = (p.avg_price ⊗ of_ℕ (to_ℕ p.qty) ⊕ price ⊗ of_ℕ qty) ⊘ of_ℕ (to_ℕ new_qty);
          qty = new_qty;
        },
        of_ℕ 0,
      )

  -- The average after a fill against the position: none, the new price, or the old average
  reduced_avg : ℤ → ℤ → F → F → F
  reduced_avg old new avg price =
      if eqb_ℤ new (pos 0) then of_ℕ 0 else (if same_sign new old then avg else price)

  unfoldable pub reduce : Position F → ℤ → ℕ → F → Position F × F
  unfolding reduced_avg
  reduce p change qty price =
      let close_qty = min (to_ℕ p.qty) qty in
      let direction = if is_pos p.qty then pos 1 else negsuc 0 in
      let realised = (price ⊖ p.avg_price) ⊗ of_ℕ close_qty ⊗ of_int direction ⊗ p.multiplier in
      let new_qty = p.qty +ℤ change in
      (
        record p {
          avg_price = reduced_avg p.qty new_qty p.avg_price price;
          qty = new_qty;
          realised_pnl = p.realised_pnl ⊕ realised;
        },
        realised,
      )

  -- The position after the fill, and the profit that the fill realised
  unfoldable pub apply_fill_to_position : Position F → Side → ℕ → F → Position F × F
  unfolding extend reduce
  apply_fill_to_position p side qty price =
      let change = signed side qty in
      if eqb_ℤ p.qty (pos 0) || same_sign p.qty change
      then extend p change qty price
      else reduce p change qty price

  -- `Position(symbol=…, product=…, multiplier=…)`
  abbrev pub flat : Text → ProductType → F → Position F
  flat symbol product multiplier = record {
    symbol = symbol;
    product = product;
    qty = pos 0;
    avg_price = of_ℕ 0;
    realised_pnl = of_ℕ 0;
    fees_paid = of_ℕ 0;
    last_price = none;
    multiplier = multiplier;
  }
