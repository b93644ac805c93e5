-- ===== src/Paper/Totals.antt =====
-- The totals of the paper broker's account (trading/brokers/paper.py): the value of the open
-- positions, the margin in use, and `funds`.
use shiny_umbrella.Base.{
  pos, eqb_ℤ, ltb_ℤ, to_ℕ, Option, none, some, List, [], ◌∷◌, Text, values, lookup, nat_eq, list_eq,
  Result, ok, ◌>>=◌, or_else, or_raise, unknown_order, if◌then◌else◌,
}
use shiny_umbrella.Float.Arith.{Arith, ◌⊕◌, ◌⊖◌, ◌⊗◌, ◌≼◌, of_ℕ}
use shiny_umbrella.Types.Enums.{InstrumentKind, future, option}
use shiny_umbrella.Types.Orders.{Order, Position, unrealised_pnl, market_value}
use shiny_umbrella.Types.Messages.{Funds}
use shiny_umbrella.Symbols.Parse.{parse_symbol}
use shiny_umbrella.Paper.State.{Paper, PaperConfig}

module _ {F : Type 0} where
  -- `order_status`, `orders`, `positions` and `fills`
  abbrev pub order_status : Text → Paper F → Result (Order F)
  order_status id s = or_raise (lookup id s.orders) unknown_order

  abbrev pub all_orders : Paper F → List (Order F)
  all_orders s = values s.orders

  abbrev pub all_positions : Paper F → List (Position F)
  all_positions s = values s.positions

module _ {F : Type 0} ⦃fl : Arith F⦄ where
  -- What an open position adds to cash
  value_as : InstrumentKind → Position F → F
  value_as future p = unrealised_pnl p
  value_as _ p = market_value p

  position_value : Position F → Result F
  unfolding value_as
  position_value p = do parsed ← parse_symbol {F = F} p.symbol; ok (value_as parsed.kind p)

  -- The loop of `positions_value`, from the total so far; a flat position is passed over.
  value_from : F → List (Position F) → Result F
  unfolding position_value
  value_from total [] = ok total
  value_from total (p ∷ ps) =
      if eqb_ℤ p.qty (pos 0)
      then value_from total ps
      else position_value p >>= λ v. value_from (total ⊕ v) ps

  -- `positions_value`
  unfoldable pub positions_value : Paper F → Result F
  unfolding value_from
  positions_value s = value_from (of_ℕ 0) (values s.positions)

  -- `equity`
  unfoldable pub equity_of : Paper F → Result F
  equity_of s = do value ← positions_value s; ok (s.cash ⊕ value)

  -- `parsed.strike or price`: a strike of zero counts as none.
  strike_or : Option F → F → F
  strike_or none price = price
  strike_or (some k) price = if (k ≼ of_ℕ 0) then (if (of_ℕ 0 ≼ k) then price else k) else k

  -- What a position adds to the margin in use: the total after it
  margin_as : PaperConfig F → InstrumentKind → Option F → Position F → F → F
  unfolding strike_or
  margin_as cfg future strike p total =
      let price = or_else p.last_price p.avg_price in
      total ⊕ of_ℕ (to_ℕ p.qty) ⊗ price ⊗ p.multiplier ⊗ cfg.futures_margin_pct
  margin_as cfg option strike p total =
      let price = or_else p.last_price p.avg_price in
      if ltb_ℤ p.qty (pos 0)
      then total
        ⊕ of_ℕ (to_ℕ p.qty) ⊗ strike_or strike price ⊗ p.multiplier ⊗ cfg.short_option_margin_pct
      else total
  margin_as cfg _ strike p total = total

  margin_from : PaperConfig F → F → List (Position F) → Result F
  unfolding margin_as
  margin_from cfg total [] = ok total
  margin_from cfg total (p ∷ ps) =
      if eqb_ℤ p.qty (pos 0)
      then margin_from cfg total ps
      else parse_symbol {F = F} p.symbol >>= λ parsed.
          margin_from cfg (margin_as cfg parsed.kind parsed.strike p total) ps

  -- `_margin_used`
  unfoldable pub margin_used_of : Paper F → Result F
  unfolding margin_from
  margin_used_of s = margin_from s.cfg (of_ℕ 0) (values s.positions)

  -- Python's `sum`, which starts from 0
  abbrev pub total_of : F → (Position F → F) → List (Position F) → F
  total_of total f [] = total
  total_of total f (p ∷ ps) = total_of (total ⊕ f p) f ps

  -- `funds`
  unfoldable pub funds : Paper F → Result (Funds F)
  funds s = do
    margin ← margin_used_of s
    value ← positions_value s
    ok (record {
      cash = s.cash;
      margin_used = margin;
      realised_pnl = total_of (of_ℕ 0) (λ p. p.realised_pnl ⊖ p.fees_paid) (values s.positions);
      unrealised_pnl = total_of (of_ℕ 0) unrealised_pnl (values s.positions);
      positions_value = value;
    })
