-- ===== src/Paper/Calls.antt =====
-- The broker interface of trading/brokers/paper.py: placing, modifying, cancelling and liquidating,
-- and the account's totals.
pub mod Runs
pub mod Repeats
pub mod Placement
use shiny_umbrella.Base.{
  ℕ, zero, suc, ◌+◌, ◌≡◌, Bool, true, false, ◌&&◌, ◌||◌, not, Option, none, some, List, [], ◌∷◌,
  ◌++◌, Text, Dict, lookup, insert, keys, values, contains, nat_eq, list_eq, pair_eq, Eq, ◌==◌,
  Result, ok, err, Error, unknown_order, value_error, ltb, leb, if◌then◌else◌, or_else, is_some, ℤ,
  pos, to_ℕ, ltb_ℤ, eqb_ℤ, sum, map, raise_if, or_raise,
}
use mathlib.Core.List.{foldl}
use shiny_umbrella.Float.Arith.{Arith, ◌⊕◌, ◌⊗◌, ◌≺◌, ◌≼◌, of_ℕ, of_int}
use shiny_umbrella.Types.Enums.{
  Exchange, InstrumentKind, equity, index, future, option, is_derivative, is_future, Side, buy,
  sell, is_buy, OrderType, limit, market, sl, slm, ProductType, mis, cnc, nrml, product_beq,
  product_eq, OrderStatus, trigger_pending, open_, cancelled, rejected, is_working, day,
}
use shiny_umbrella.Types.Orders.{
  Order, OrderRequest, Position, Problem, index_not_tradable, equity_product, derivative_product,
  insufficient_funds, exceeds_holdings, from_request, remaining_qty, unrealised_pnl, market_value,
}
use shiny_umbrella.Symbols.Parse.{ParsedSymbol, parse_symbol}
use shiny_umbrella.Paper.State.{
  PriceCtx, price_at, PaperConfig, Paper, Key, order_update, Action, ◌>>=◌, ◌>>◌, pure, lift, gets,
  modify, put_order, persist_order, emit,
}
use shiny_umbrella.Paper.Positions.{is_pos}
use shiny_umbrella.Paper.Matching.{try_fill}
use shiny_umbrella.Paper.Validation.{validate}

abbrev pub first_status : OrderType → OrderStatus
first_status sl = trigger_pending
first_status slm = trigger_pending
first_status _ = open_

-- What `modify_order` may change
pub record Changes (F : Type 0) : Type 0 where
  pub new_price : Option F
  pub new_trigger : Option F
  pub new_qty : Option ℕ
  pub new_type : Option OrderType

module _ {F : Type 0} ⦃fl : Arith F⦄ where
  crosses : Side → F → F → Bool
  crosses buy price last = last ≺ price
  crosses sell price last = price ≺ last

  -- The mark that `_tag_marketable` leaves: only a limit order with a price gets one.
  mark_by : OrderType → Option F → Side → F → Bool → Bool
  unfolding crosses
  mark_by limit (some price) side last old = crosses side price last
  mark_by _ _ side last old = old

  -- `_tag_marketable`
  pub tag_marketable : Order F → F → Order F
  unfolding mark_by
  tag_marketable o last = record o {
    marketable = mark_by o.order_type o.price o.side last o.marketable;
  }

  -- `_get`
  pub get_order : Text → Action F (Order F)
  get_order id = do found ← gets λ s. lookup id s.orders; lift (or_raise found unknown_order)

  -- An order that has just been written meets the last price: it fills, or is tagged for later.
  pub meet_at : Order F → ℕ → Option F → Bool → Action F (Unit {0})
  meet_at o ts none now_ = pure tt
  meet_at o ts (some last) true = try_fill o (price_at ts last) true
  meet_at o ts (some last) false = put_order (tag_marketable o last)

  pub meet : Order F → ℕ → Action F (Unit {0})
  unfolding meet_at tag_marketable
  meet o ts = do
    last ← gets λ s. lookup o.symbol s.last
    cfg ← gets λ s. s.cfg
    meet_at o ts last cfg.fill_at_placement

  -- Store and announce an order as it now is.
  pub report : Text → Action F (Order F)
  unfolding get_order
  report id = do o ← get_order id; persist_order o; emit (order_update o); pure o

  pub placed : Order F → ℕ → Option (Problem F) → Action F (Order F)
  unfolding report meet
  placed o now (some problem) = do
    put_order (record o { status = rejected; status_message = some problem })
    report o.id
  placed o now none = do put_order o; meet o now; report o.id

  pub place_new : OrderRequest F → ℕ → Action F (Order F)
  unfolding placed
  place_new req now = do
    modify λ s. record s { seq = suc s.seq }
    number ← gets λ s. s.seq
    let o = from_request req now number (first_status req.order_type)
    problem ← validate o
    placed o now problem

  pub place_if_new : OrderRequest F → ℕ → Option (Order F) → Action F (Order F)
  unfolding place_new
  place_if_new req now (some o) = pure o
  place_if_new req now none = place_new req now

  -- `place_order`, at the clock's time
  unfoldable pub place_order : OrderRequest F → ℕ → Action F (Order F)
  unfolding place_if_new
  place_order req now = do known ← gets λ s. lookup req.tag s.orders; place_if_new req now known

  or_opt : Option F → Option F → Option F
  or_opt none old = old
  or_opt (some new) old = some new

  pub with_prices : Changes F → Order F → Order F
  unfolding or_opt
  with_prices c o = record o {
    price = or_opt c.new_price o.price;
    trigger_price = or_opt c.new_trigger o.trigger_price;
  }

  pub with_rest : Changes F → ℕ → Order F → Order F
  with_rest c now o = record o {
    qty = or_else c.new_qty o.qty;
    order_type = or_else c.new_type o.order_type;
    updated_at = now;
  }

  pub below_filled : Option ℕ → Order F → Bool
  below_filled none o = false
  below_filled (some q) o = ltb q o.filled_qty

  -- The end of `modify_order`, once the quantity is accepted
  pub resized : Order F → Changes F → ℕ → Text → Action F (Order F)
  unfolding with_rest meet report
  resized o c now id = do put_order (with_rest c now o); meet (with_rest c now o) now; report id

  -- The prices are written before the quantity is refused.
  pub repriced : Order F → Changes F → ℕ → Text → Action F (Order F)
  unfolding with_prices below_filled resized
  repriced o c now id = do
    put_order (with_prices c o)
    lift (raise_if (below_filled c.new_qty o) value_error)
    resized (with_prices c o) c now id

  -- `modify_order`
  unfoldable pub modify_order : Text → Changes F → ℕ → Action F (Order F)
  unfolding get_order repriced
  modify_order id c now = do
    o ← get_order id
    lift (raise_if (not (is_working o.status)) unknown_order)
    repriced o c now id

  pub cancel_if : Order F → ℕ → Bool → Action F (Order F)
  cancel_if o now false = pure o
  cancel_if o now true = do
    put_order (record o { status = cancelled; updated_at = now })
    report o.id

  -- `cancel_order`
  unfoldable pub cancel_order : Text → ℕ → Action F (Order F)
  unfolding get_order cancel_if report
  cancel_order id now = do o ← get_order id; cancel_if o now (is_working o.status)
