-- ===== src/Paper/Matching.antt =====
-- The matching of trading/brokers/paper.py: `_fill`, `_try_trigger`, `_try_fill` and the price
-- events.
pub mod Fills
pub mod Events
use shiny_umbrella.Base.{
  ℕ, zero, suc, ◌+◌, ◌≡◌, Bool, true, false, ◌&&◌, not, Option, none, some, List, [], ◌∷◌, ◌++◌,
  map, Text, Dict, lookup, insert, keys, nat_eq, list_eq, pair_eq, Eq, ◌==◌, Result, ok, err, Error,
  assertion_error, value_error, raise_if, ltb, leb, if◌then◌else◌, or_else, ◌=ℕ◌,
}
use shiny_umbrella.Float.Arith.{Arith, ◌⊕◌, ◌⊖◌, ◌⊗◌, ◌⊘◌, ◌≺◌, of_ℕ, of_int, round_to}
use shiny_umbrella.Types.Enums.{
  Side, sign, is_buy, OrderType, limit, market, sl, slm, ProductType, product_eq, OrderStatus,
  pending, trigger_pending, open_, partial, filled, rejected, is_working, is_future,
}
use shiny_umbrella.Types.Market.{Bar, Tick}
use shiny_umbrella.Types.Orders.{
  Order, Fill, Position, FeeBreakdown, total, insufficient_at_fill, Problem,
}
use shiny_umbrella.Symbols.Parse.{ParsedSymbol, parse_symbol}
use shiny_umbrella.Costs.Fees.{compute_fees}
use shiny_umbrella.Paper.State.{
  PriceCtx, from_tick, from_bar, PaperConfig, Paper, Key, order_update, fill_update, Action, ◌>>=◌,
  ◌>>◌, pure, lift, gets, modify, put_order, persist_order, persist_fill, emit,
}
use shiny_umbrella.Paper.Positions.{apply_fill_to_position, flat}
use shiny_umbrella.Paper.Pricing.{
  slip, fillable_qty, fills_at_market, limit_price, touch_price, stop_limit_price,
}

module _ {F : Type 0} ⦃fl : Arith F⦄ where
  -- `_multiplier`
  multiplier_by : Option (Text → Result F) → Text → Result F
  multiplier_by none symbol = ok (of_ℕ 1)
  multiplier_by (some f) symbol = f symbol

  unfoldable pub multiplier : PaperConfig F → Text → Result F
  unfolding multiplier_by
  multiplier cfg symbol = multiplier_by cfg.multiplier_for symbol

  -- The order after a fill of it
  unfoldable pub filled_order : Order F → ℕ → F → ℕ → Order F
  filled_order o qty price ts = record o {
    filled_qty = o.filled_qty + qty;
    avg_fill_price = some (
        (or_else o.avg_fill_price (of_ℕ 0) ⊗ of_ℕ o.filled_qty ⊕ of_ℕ qty ⊗ price)
        ⊘ of_ℕ (o.filled_qty + qty));
    status = if leb o.qty (o.filled_qty + qty) then filled else partial;
    updated_at = ts;
  }

  unfoldable pub rejected_order : Order F → Problem F → ℕ → Order F
  rejected_order o problem ts = record o {
    status = rejected;
    status_message = some problem;
    updated_at = ts;
  }

  unfoldable pub triggered_order : Order F → ℕ → Order F
  triggered_order o ts = record o { status = open_; updated_at = ts }

  -- What a fill moves in cash, before fees: a future's profit, or the whole value of the trade
  unfoldable pub cash_move : Bool → F → F → Side → F → F
  cash_move true cash realised side notional = cash ⊕ realised
  cash_move false cash realised side notional = cash ⊖ of_int (sign side) ⊗ notional

  -- The position after a fill of it, with the fees and the price that it leaves, and the profit
  unfoldable pub fill_position : Position F → Fill F → Position F × F
  fill_position p f =
      let (p', realised) = apply_fill_to_position p f.side f.qty f.price in
      (record p' { fees_paid = p'.fees_paid ⊕ total f.fees; last_price = some f.price }, realised)

  -- The accounts after a fill: positions and cash
  unfoldable pub book_fill : Bool → Fill F → Dict Key (Position F) × F → Dict Key (Position F) × F
  book_fill is_fut f (positions, cash) =
      let key : Key = (f.symbol, f.product) in
      let p : Position F = or_else (lookup key positions) (flat f.symbol f.product f.multiplier) in
      let (p', realised) = fill_position p f in
      let notional = of_ℕ f.qty ⊗ f.price ⊗ f.multiplier in
      (insert key p' positions, cash_move is_fut cash realised f.side notional ⊖ total f.fees)

  book : Bool → Fill F → Action F (Unit {0})
  book is_fut f = modify λ s.
      let (positions, cash) = book_fill is_fut f (s.positions, s.cash) in
      record s { positions = positions; cash = cash; fills = s.fills ++ f ∷ [] }

  -- The final affordability check: a purchase that is paid for in full, and not covered
  abbrev pub unaffordable : Bool → Side → F → F → Bool
  unaffordable is_fut side notional cash = is_buy side && not is_fut && (cash ≺ notional)

  pub reject : Order F → Problem F → ℕ → Action F (Unit {0})
  reject o problem ts = do
    put_order (rejected_order o problem ts)
    persist_order (rejected_order o problem ts)
    emit (order_update (rejected_order o problem ts))

  -- The fields' bounds in `Fill`, outside which it raises a `ValidationError`, a `ValueError`
  pub fill_valid : ℕ → F → F → Bool
  fill_valid qty price mult = ltb 0 qty && (of_ℕ 0 ≺ price) && (of_ℕ 0 ≺ mult)

  pub make_fill : Order F → ℕ → F → ℕ → FeeBreakdown F → F → Fill F
  make_fill o qty price ts fees mult = record {
    order_id = o.id;
    symbol = o.symbol;
    side = o.side;
    qty = qty;
    price = price;
    ts = ts;
    product = o.product;
    fees = fees;
    multiplier = mult;
  }

  abbrev position_of : Fill F → Paper F → Position F
  position_of f s =
      or_else (lookup (f.symbol, f.product) s.positions) (flat f.symbol f.product f.multiplier)

  pub execute : Order F → Bool → Fill F → Action F (Unit {0})
  unfolding book
  execute o is_fut f = do
    put_order (filled_order o f.qty f.price f.ts)
    book is_fut f
    p ← gets (position_of f)
    persist_fill f p
    persist_order (filled_order o f.qty f.price f.ts)
    emit (fill_update f)
    emit (order_update (filled_order o f.qty f.price f.ts))

  -- The end of `_fill`, once the symbol and the multiplier are known
  pub fill_at : Order F → ℕ → F → ℕ → ParsedSymbol F → F → Action F (Unit {0})
  unfolding reject make_fill execute fill_valid
  fill_at o qty price ts p mult = do
    cfg ← gets λ s. s.cfg
    cash ← gets λ s. s.cash
    let notional = of_ℕ qty ⊗ price ⊗ mult
    let is_fut = is_future p.kind
    if unaffordable is_fut o.side notional cash
        then reject o (insufficient_at_fill notional) ts
        else (do
          fees ← lift (compute_fees cfg.fee_schedule p o.side qty price o.product mult)
          lift (raise_if (not (fill_valid qty price mult)) value_error)
          execute o is_fut (make_fill o qty price ts fees mult))

  -- `_fill`
  pub fill : Order F → ℕ → F → ℕ → Action F (Unit {0})
  unfolding fill_at
  fill o qty raw_price ts = do
    p ← lift (parse_symbol {F = F} o.symbol)
    cfg ← gets λ s. s.cfg
    mult ← lift (multiplier cfg o.symbol)
    fill_at o qty (round_to 4 raw_price) ts p mult

  pub fill_if : Order F → ℕ → ℕ → Option F → Action F (Unit {0})
  unfolding fill
  fill_if o qty ts none = pure tt
  fill_if o qty ts (some price) = fill o qty price ts

  pub stop_limit : Order F → PriceCtx F → F → ℕ → Option F → Action F (Unit {0})
  unfolding fill_if
  stop_limit o px touch qty none = lift (err assertion_error)
  stop_limit o px touch qty (some at) = do
    cfg ← gets λ s. s.cfg
    fill_if o qty px.ts (stop_limit_price cfg o at touch px qty)

  -- A triggered stop fills at the market, a stop-limit lives as a limit from the touch price.
  pub after_trigger_as : Order F → PriceCtx F → F → ℕ → OrderType → Action F (Unit {0})
  unfolding fill stop_limit
  after_trigger_as o px touch qty slm = do
    cfg ← gets λ s. s.cfg
    fill o qty (slip cfg o touch px qty) px.ts
  after_trigger_as o px touch qty _ = stop_limit o px touch qty o.price

  pub after_trigger : Order F → PriceCtx F → F → ℕ → Action F (Unit {0})
  unfolding after_trigger_as
  after_trigger o px touch qty = after_trigger_as o px touch qty o.order_type

  -- A stop whose trigger is reached, at the price where it meets the market
  pub trigger_at : Order F → PriceCtx F → F → Action F (Unit {0})
  unfolding after_trigger
  trigger_at o px touch = do
    put_order (triggered_order o px.ts)
    cfg ← gets λ s. s.cfg
    qty ← lift (fillable_qty cfg (triggered_order o px.ts) px)
    if qty =ℕ 0 then pure tt else after_trigger (triggered_order o px.ts) px touch qty

  pub trigger_if : Order F → PriceCtx F → Option F → Action F (Unit {0})
  unfolding trigger_at
  trigger_if o px none = pure tt
  trigger_if o px (some touch) = trigger_at o px touch

  -- `_try_trigger`
  pub try_trigger : Order F → PriceCtx F → Bool → Action F (Unit {0})
  unfolding trigger_if
  try_trigger o px at_placement = do
    cfg ← gets λ s. s.cfg
    trigger_if o px (touch_price cfg o px at_placement)

  pub limit_or_raise :
      PaperConfig F → Order F → PriceCtx F → Bool → ℕ → Option F → Result (Option F)
  limit_or_raise cfg o px at_placement qty none = err assertion_error
  limit_or_raise cfg o px at_placement qty (some at) = ok (limit_price cfg o at px at_placement qty)

  -- The price for an order that is live, by its type
  pub live_price : PaperConfig F → Order F → PriceCtx F → Bool → ℕ → Result (Option F)
  unfolding limit_or_raise
  live_price cfg o px at_placement qty =
      if fills_at_market o.order_type
      then ok (some (slip cfg o (if at_placement then px.last else px.opens) px qty))
      else limit_or_raise cfg o px at_placement qty o.price

  pub try_live : Order F → PriceCtx F → Bool → Action F (Unit {0})
  unfolding live_price fill_if
  try_live o px at_placement = do
    cfg ← gets λ s. s.cfg
    qty ← lift (fillable_qty cfg o px)
    if qty =ℕ 0
        then pure tt
        else (do price ← lift (live_price cfg o px at_placement qty); fill_if o qty px.ts price)

  abbrev pub by_status :
      OrderStatus → Action F (Unit {0}) → Action F (Unit {0}) → Action F (Unit {0})
  by_status trigger_pending waiting live = waiting
  by_status pending waiting live = live
  by_status open_ waiting live = live
  by_status partial waiting live = live
  by_status _ waiting live = pure tt

  -- `_try_fill`
  unfoldable pub try_fill : Order F → PriceCtx F → Bool → Action F (Unit {0})
  unfolding try_trigger try_live
  try_fill o px at_placement =
      by_status o.status (try_trigger o px at_placement) (try_live o px at_placement)

  pub match_order : Text → PriceCtx F → Option (Order F) → Action F (Unit {0})
  match_order symbol px none = pure tt
  match_order symbol px (some o) =
      if o.symbol == symbol && is_working o.status then try_fill o px false else pure tt

  -- The loop of `_match_all`, over the orders there were when it began
  pub match_each : Text → PriceCtx F → List Text → Action F (Unit {0})
  unfolding match_order
  match_each symbol px [] = pure tt
  match_each symbol px (id ∷ ids) = do
    o ← gets λ s. lookup id s.orders
    match_order symbol px o
    match_each symbol px ids

  pub match_all : Text → PriceCtx F → Action F (Unit {0})
  unfolding match_each
  match_all symbol px = do ids ← gets λ s. keys s.orders; match_each symbol px ids

  abbrev pub mark_position : Text → F → Key × Position F → Key × Position F
  mark_position symbol price (key, p) =
      if key.0 == symbol then (key, record p { last_price = some price }) else (key, p)

  -- `_mark`
  pub mark : Text → F → Action F (Unit {0})
  mark symbol price = modify λ s. record s {
    last = insert symbol price s.last;
    positions = map (mark_position symbol price) s.positions;
  }

  unfoldable pub on_tick : Tick F → Action F (Unit {0})
  unfolding mark match_all
  on_tick t = do mark t.symbol t.ltp; match_all t.symbol (from_tick t)

  unfoldable pub on_bar : Bar F → Action F (Unit {0})
  unfolding mark match_all
  on_bar b = do match_all b.symbol (from_bar b); mark b.symbol b.close
