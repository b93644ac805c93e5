-- ===== src/Portfolio/Exposure.antt =====
-- What the portfolio is exposed to, and its adoption of the broker's positions.
use shiny_umbrella.Base.{
  ℤ, pos, ◌+ℤ◌, eqb_ℤ, ltb_ℤ, to_ℕ, Bool, true, ◌&&◌, Option, none, some, List, [], ◌∷◌, Text, Dict,
  lookup, insert, values, ◌==◌, nat_eq, list_eq, pair_eq, or_else, if◌then◌else◌,
}
use shiny_umbrella.Float.Arith.{Arith, ◌⊕◌, ◌⊗◌, ◌≼◌, of_ℕ}
use shiny_umbrella.Types.Enums.{Side, buy, sell, ProductType, product_beq, product_eq}
use shiny_umbrella.Types.Orders.{Position}
use shiny_umbrella.Types.Messages.{Funds}
use shiny_umbrella.Paper.State.{Key}
use shiny_umbrella.Portfolio.{Portfolio, multiplier_of}

any_or : Option ProductType → ProductType → Bool
any_or none p = true
any_or (some wanted) p = product_beq p wanted

side_for : ℤ → Option Side
side_for n = if eqb_ℤ n (pos 0) then none else (if ltb_ℤ (pos 0) n then some buy else some sell)

module _ {F : Type 0} where
  net_from : Text → Option ProductType → Dict Key (Position F) → ℤ → ℤ
  unfolding any_or
  net_from symbol product [] n = n
  net_from symbol product ((k, p) ∷ d) n =
      net_from symbol product d (if k.0 == symbol && any_or product k.1 then n +ℤ p.qty else n)

  -- `net_qty`
  unfoldable pub net_qty : Portfolio F → Text → Option ProductType → ℤ
  unfolding net_from
  net_qty p symbol product = net_from symbol product p.positions (pos 0)

  -- `side_of`
  pub side_of : Portfolio F → Text → Option ProductType → Option Side
  unfolding net_qty side_for
  side_of p symbol product = side_for (net_qty p symbol product)

  -- The first position in a symbol
  first_in : Text → Dict Key (Position F) → Option (Position F)
  first_in symbol [] = none
  first_in symbol ((k, p) ∷ d) = if k.0 == symbol then some p else first_in symbol d

  -- `{(p.symbol, p.product): p for p in positions}`
  by_key : Dict Key (Position F) → List (Position F) → Dict Key (Position F)
  by_key d [] = d
  by_key d (p ∷ ps) = by_key (insert (p.symbol, p.product) p d) ps

module _ {F : Type 0} ⦃fl : Arith F⦄ where
  gross_from : Dict Text F → F → List (Position F) → F
  gross_from last total [] = total
  gross_from last total (p ∷ ps) =
      gross_from last
        (if eqb_ℤ p.qty (pos 0)
          then total
          else total
            ⊕ of_ℕ (to_ℕ p.qty) ⊗ or_else (lookup p.symbol last) p.avg_price ⊗ p.multiplier)
        ps

  -- `gross_exposure`
  unfoldable pub gross_exposure : Portfolio F → F
  unfolding gross_from
  gross_exposure p = gross_from p.last_price (of_ℕ 0) (values p.positions)

  avg_or_zero : Option (Position F) → F
  avg_or_zero none = of_ℕ 0
  avg_or_zero (some p) = p.avg_price

  -- `exposure`
  pub exposure : Portfolio F → Text → Option ProductType → F
  unfolding net_qty multiplier_of avg_or_zero first_in
  exposure p symbol product =
      of_ℕ (to_ℕ (net_qty p symbol product))
      ⊗ or_else (lookup symbol p.last_price) (avg_or_zero (first_in symbol p.positions))
      ⊗ multiplier_of p.multiplier_for symbol

  -- A last price of zero counts as none.
  keep_price : Text → Option F → Dict Text F → Dict Text F
  keep_price symbol none d = d
  keep_price symbol (some price) d =
      if price ≼ of_ℕ 0
      then (if of_ℕ 0 ≼ price then d else insert symbol price d)
      else insert symbol price d

  keep_prices : List (Position F) → Dict Text F → Dict Text F
  unfolding keep_price
  keep_prices [] d = d
  keep_prices (p ∷ ps) d = keep_prices ps (keep_price p.symbol p.last_price d)

  -- `sync_from_broker`
  pub sync_from_broker : Funds F → List (Position F) → Portfolio F → Portfolio F
  unfolding by_key keep_prices
  sync_from_broker funds positions p =
      let d = by_key [] positions in
      record p {
        positions = d;
        last_price = keep_prices (values d) p.last_price;
        realised_pnl = funds.realised_pnl;
      }
