-- ===== src/Paper/Pricing.antt =====
-- Where and at what price the paper broker fills an order: the tests of `_try_fill` and
-- `_try_trigger` (trading/brokers/paper.py), without their effects.
use shiny_umbrella.Base.{
  ℕ, ◌*◌, ◌/◌, pos_part, Bool, true, false, Option, none, some, Text, Result, ok, err,
  zero_division, ◌>>=◌, min, if◌then◌else◌, ◌=ℕ◌, or_else, [],
}
use shiny_umbrella.Float.Arith.{Arith, ◌⊕◌, ◌⊗◌, ◌⊘◌, ◌≼◌, ◌≺◌, of_ℕ, of_int, fmin, fmax}
use shiny_umbrella.Types.Enums.{Side, buy, sell, sign, OrderType, market, slm}
use shiny_umbrella.Types.Orders.{Order, remaining_qty}
use shiny_umbrella.Symbols.Lots.{get}
use shiny_umbrella.Paper.State.{PaperConfig, PriceCtx}

-- `order_type in {MARKET, SLM}`
abbrev pub fills_at_market : OrderType → Bool
fills_at_market market = true
fills_at_market slm = true
fills_at_market _ = false

module _ {F : Type 0} ⦃fl : Arith F⦄ where
  unfoldable pub beyond : Side → F → F → Bool
  beyond buy x at = x ≺ at
  beyond sell x at = at ≺ x

  -- The price that is the better one for the limit's owner
  unfoldable pub within_limit : Side → F → F → F
  within_limit buy at x = fmin at x
  within_limit sell at x = fmax at x

  -- `_try_trigger`: the market has reached the trigger.
  trigger_hit : Side → F → PriceCtx F → Bool
  trigger_hit buy trig px = trig ≼ px.high
  trigger_hit sell trig px = px.low ≼ trig

  gapped : Side → F → PriceCtx F → Bool
  gapped buy trig px = trig ≼ px.opens
  gapped sell trig px = px.opens ≼ trig

  reachable : Side → F → F → Bool
  reachable buy touch at = touch ≼ at
  reachable sell touch at = at ≼ touch

module _ {F : Type 0} ⦃fl : Arith F⦄ (cfg : PaperConfig F) where
  -- `_slip`
  unfoldable pub slip : Order F → F → PriceCtx F → ℕ → F
  slip o price px qty =
      price ⊗ (of_ℕ 1 ⊕ of_int (sign o.side) ⊗ cfg.slippage_bps o qty px ⊘ of_ℕ 10000)

  resolve_lot : Option (Text → Result ℕ) → Text → Result ℕ
  resolve_lot none symbol = get F [] symbol
  resolve_lot (some lots) symbol = lots symbol

  -- The cap of the bar's volume in whole lots; a cap below zero fills nothing, as zero does.
  unfoldable pub volume_cap : Option ℕ → Option F → Text → ℕ → Result ℕ
  unfolding resolve_lot
  volume_cap (some volume) (some share) symbol qty = do
    lot ← resolve_lot cfg.lot_size_for symbol
    if lot =ℕ 0
        then err zero_division
        else ok (min qty (pos_part (fl.trunc (of_ℕ volume ⊗ share)) / lot * lot))
  volume_cap _ _ symbol qty = ok qty

  -- `_fillable_qty`
  unfoldable pub fillable_qty : Order F → PriceCtx F → Result ℕ
  unfolding volume_cap
  fillable_qty o px = volume_cap px.volume cfg.max_participation o.symbol (remaining_qty o)

  -- The market has come to the limit, or through it where that is required.
  crossed : Side → F → PriceCtx F → Bool
  crossed buy at px = if cfg.require_trade_through then px.low ≺ at else px.low ≼ at
  crossed sell at px = if cfg.require_trade_through then at ≺ px.high else at ≼ px.high

  unfoldable pub limit_fill_price : Order F → F → PriceCtx F → Bool → ℕ → F
  unfolding beyond within_limit
  limit_fill_price o at px at_placement qty =
      if at_placement
      then within_limit o.side at (slip o px.last px qty)
      else if beyond o.side px.opens at
      then if o.marketable then within_limit o.side at (slip o px.opens px qty) else px.opens
      else at

  -- The price at which a limit order fills, if the market has reached it
  unfoldable pub limit_price : Order F → F → PriceCtx F → Bool → ℕ → Option F
  unfolding crossed limit_fill_price
  limit_price o at px at_placement qty =
      if crossed o.side at px then some (limit_fill_price o at px at_placement qty) else none

  -- The price at which a stop meets the market, if its trigger is reached
  unfoldable pub touch_price : Order F → PriceCtx F → Bool → Option F
  unfolding trigger_hit gapped
  touch_price o px at_placement =
      let trig = or_else o.trigger_price (of_ℕ 0) in
      if trigger_hit o.side trig px
      then some (if at_placement then px.last else if gapped o.side trig px then px.opens else trig)
      else none

  -- A stop-limit lives as a limit from the touch price.
  unfoldable pub stop_limit_price : Order F → F → F → PriceCtx F → ℕ → Option F
  unfolding reachable within_limit
  stop_limit_price o at touch px qty =
      if reachable o.side touch at
      then some (within_limit o.side at (slip o touch px qty))
      else none
