-- ===== src/Paper/Validation.antt =====
-- `_validate` of trading/brokers/paper.py: why an order cannot be accepted.
use shiny_umbrella.Base.{
  arith, inl, inr, Result-cases, ℕ, ◌+◌, ◌≡◌, Bool, false, ◌&&◌, not, Option, none, some, List, [],
  ◌∷◌, Text, lookup, values, nat_eq, list_eq, pair_eq, ◌==◌, Result, ok, err, if◌then◌else◌, ℤ, pos,
  ltb_ℤ,
}
use shiny_umbrella.Float.Arith.{Arith, ◌⊗◌, ◌≺◌, of_ℕ}
use shiny_umbrella.Types.Enums.{
  InstrumentKind, equity, index, future, option, is_future, is_buy, ProductType, cnc, nrml,
  product_beq, product_eq, is_working,
}
use shiny_umbrella.Types.Orders.{
  Order, Position, Problem, index_not_tradable, equity_product, derivative_product,
  insufficient_funds, exceeds_holdings, remaining_qty,
}
use shiny_umbrella.Symbols.Parse.{ParsedSymbol, parse_symbol}
use shiny_umbrella.Paper.State.{Paper, Action}
use shiny_umbrella.Paper.Matching.{multiplier}

module _ {F : Type 0} ⦃fl : Arith F⦄ where
  -- The products that an instrument trades as
  product_problem : InstrumentKind → ProductType → Option (Problem F)
  product_problem index _ = some index_not_tradable
  product_problem equity nrml = some equity_product
  product_problem future cnc = some derivative_product
  product_problem option cnc = some derivative_product
  product_problem _ _ = none

  is_open_sell : Text → Order F → Bool
  is_open_sell symbol o =
      o.symbol == symbol && product_beq o.product cnc && not (is_buy o.side) && is_working o.status

  open_sells : Text → List (Order F) → ℕ
  open_sells symbol [] = 0
  open_sells symbol (o ∷ os) =
      (if is_open_sell symbol o then remaining_qty o else 0) + open_sells symbol os

  held_qty : Option (Position F) → ℤ
  held_qty none = pos 0
  held_qty (some p) = p.qty

  funds_problem : Paper F → Order F → ParsedSymbol F → F → F → Option (Problem F)
  funds_problem s o p ref mult =
      let needed = of_ℕ o.qty ⊗ ref ⊗ mult in
      if is_buy o.side && not (is_future p.kind) && (s.cash ≺ needed)
      then some (insufficient_funds needed s.cash)
      else none

  is_delivery_sell : Order F → InstrumentKind → Bool
  is_delivery_sell o equity = not (is_buy o.side) && product_beq o.product cnc
  is_delivery_sell o _ = false

  holdings_problem : Paper F → Order F → ParsedSymbol F → Option (Problem F)
  unfolding is_open_sell open_sells held_qty is_delivery_sell
  holdings_problem s o p =
      let held = held_qty (lookup (o.symbol, cnc) s.positions) in
      if is_delivery_sell o p.kind
        && ltb_ℤ held (pos (o.qty + open_sells o.symbol (values s.orders)))
      then some (exceeds_holdings held)
      else none

  first_problem : Option (Problem F) → Option (Problem F) → Option (Problem F)
  first_problem none q = q
  first_problem (some p) q = some p

  -- The price at which an order is valued: its own, or the last one
  reference : Option F → Option F → Option F
  reference (some price) last = some price
  reference none last = last

  valued : Paper F → Order F → ParsedSymbol F → Option F → Result (Option (Problem F))
  unfolding funds_problem holdings_problem first_problem
  valued s o p none = ok none
  valued s o p (some ref) =
      if is_buy o.side && not (is_future p.kind)
      then elim (multiplier s.cfg o.symbol) [
        | ok mult ↦ ok (first_problem (funds_problem s o p ref mult) (holdings_problem s o p))
        | err x ↦ err x
      ]
      else ok (holdings_problem s o p)

  valid_product :
      Paper F → Order F → ParsedSymbol F → Option (Problem F) → Result (Option (Problem F))
  unfolding valued
  valid_product s o p (some problem) = ok (some problem)
  valid_product s o p none = valued s o p (reference o.price (lookup o.symbol s.last))

  -- `_validate`
  unfoldable pub validate : Order F → Action F (Option (Problem F))
  unfolding product_problem reference valid_product
  validate o s = elim (parse_symbol {F = F} o.symbol) [
    | ok p ↦ (valid_product s o p (product_problem p.kind o.product), s)
    | err x ↦ (err x, s)
  ]

  -- Validation reads the account and changes nothing.
  pub validate-same : (o : Order F) (s : Paper F) → (validate o s).1 ≡ s
  unfolding validate
  validate-same o s = elim (Result-cases (parse_symbol {F = F} o.symbol)) [
    | inl (p, e) ↦ ground arith
    | inr (x, e) ↦ ground arith
  ]
