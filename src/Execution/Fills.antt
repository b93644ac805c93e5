-- ===== src/Execution/Fills.antt =====
-- The fills and the stops that the execution agent derives: `_synthesise_fill`, for a broker that only
-- reports the states of orders, and the request for a bracket stop.
use shiny_umbrella.Base.{
  ℕ, Bool, ◌&&◌, Option, none, some, Text, [], ◌∷◌, codes, lookup, nat_eq, list_eq, Result, ok, err,
  type_error, ◌>>=◌, if◌then◌else◌,
}
use shiny_umbrella.Float.Arith.{Arith, ◌⊕◌, ◌⊖◌, ◌⊗◌, ◌⊘◌, ◌≼◌, of_ℕ, literal, fmax}
use shiny_umbrella.Types.Enums.{Side, buy, sell, opposite, sl, day}
use shiny_umbrella.Types.Intents.{
  OrderIntent, MetaValue, text_value, number_value, flag_value, null,
}
use shiny_umbrella.Types.Orders.{Order, OrderRequest, Fill}
use shiny_umbrella.Costs.Fees.{compute_fees}
use shiny_umbrella.Symbols.Instruments.{Instrument}
use shiny_umbrella.Symbols.Make.{contract_multiplier}
use shiny_umbrella.Symbols.Parse.{parse_symbol}
use shiny_umbrella.Execution.State.{Tracked, Exec}
use shiny_umbrella.Execution.Pricing.{round_to_tick}

module _ {F : Type 0} ⦃fl : Arith F⦄ where
  is_zero : F → Bool
  is_zero x = (x ≼ of_ℕ 0) && (of_ℕ 0 ≼ x)

  -- `x or y`: neither None nor 0.0
  unfoldable pub or_number : Option F → F → F
  unfolding is_zero
  or_number none y = y
  or_number (some x) y = if is_zero x then y else x

  pub number : Option F → Option F
  unfolding is_zero
  number none = none
  number (some x) = if is_zero x then none else some x

  -- A flag counts as a number here too; arithmetic with a text raises, unless it is empty.
  stop_pct_in : Option (MetaValue F) → Result (Option F)
  stop_pct_in none = ok none
  stop_pct_in (some null) = ok none
  stop_pct_in (some (number_value x)) = ok (number (some x))
  stop_pct_in (some (flag_value b)) = ok (if b then some (of_ℕ 1) else none)
  stop_pct_in (some (text_value [])) = ok none
  stop_pct_in (some (text_value (c ∷ cs))) = err type_error

  unfoldable pub stop_pct_of : Option (OrderIntent F) → Result (Option F)
  unfolding stop_pct_in
  stop_pct_of none = ok none
  stop_pct_of (some i) = stop_pct_in (lookup (codes "stop_loss_pct") i.meta)

  multiplier_in : Option (Instrument F) → Text → Result F
  multiplier_in none symbol = contract_multiplier symbol
  multiplier_in (some inst) symbol = ok inst.multiplier

  -- The average price of what was filled since, where both averages are known
  since : Option F → Option F → Order F → ℕ → ℕ → F → F
  since (some old) (some new) o old_qty delta price =
      (new ⊗ of_ℕ o.filled_qty ⊖ old ⊗ of_ℕ old_qty) ⊘ of_ℕ delta
  since _ _ o old_qty delta price = price

  delta_price : Order F → ℕ → Option (Tracked F) → F
  unfolding number since
  delta_price o delta none = or_number o.avg_fill_price (or_number o.price (of_ℕ 0))
  delta_price o delta (some t) =
      since (number t.order.avg_fill_price) (number o.avg_fill_price) o t.order.filled_qty delta
        (or_number o.avg_fill_price (or_number o.price (of_ℕ 0)))

  -- `_synthesise_fill`
  unfoldable pub synthesise_fill :
      {B : Type 0} → Exec F B → Order F → ℕ → Option (Tracked F) → Result (Fill F)
  unfolding delta_price multiplier_in
  synthesise_fill s o delta previous = do
    mult ← multiplier_in (lookup o.symbol s.instruments) o.symbol
    let price = fmax (delta_price o delta previous) (literal 1 6)
    p ← parse_symbol o.symbol
    fees ← compute_fees s.fee_schedule p o.side delta price o.product mult
    ok (record {
      order_id = o.id;
      symbol = o.symbol;
      side = o.side;
      qty = delta;
      price = price;
      ts = o.updated_at;
      product = o.product;
      fees = fees;
      multiplier = mult;
    })

  stop_price : Side → F → F → F
  stop_price buy price pct = price ⊗ (of_ℕ 1 ⊖ pct)
  stop_price sell price pct = price ⊗ (of_ℕ 1 ⊕ pct)

  -- How far the limit of a stop is from its trigger, by the side of the stop
  slack : Side → F
  slack sell = literal 998 3
  slack buy = literal 1002 3

  -- The request of `_maybe_bracket`
  unfoldable pub bracket_request :
      {B : Type 0} → Exec F B → OrderIntent F → Fill F → F → Text → OrderRequest F
  unfolding stop_price slack
  bracket_request s i f pct tag =
      let side = opposite i.side in
      let trigger = round_to_tick s i.symbol (stop_price i.side f.price pct) side in
      record {
        symbol = i.symbol;
        side = side;
        qty = f.qty;
        order_type = sl;
        product = i.product;
        price = some (round_to_tick s i.symbol (trigger ⊗ slack side) side);
        trigger_price = some trigger;
        validity = day;
        tag = tag;
      }
