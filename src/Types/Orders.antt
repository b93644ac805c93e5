-- ===== src/Types/Orders.antt =====
-- Orders, fills, positions and fees of trading/core/types.py. The keys of `Order.meta` that the
-- program uses are fields, and `status_message` holds the case of the message without its text.
use shiny_umbrella.Base.{
  ℕ, ◌-◌, ℤ, pos, Bool, true, false, ◌&&◌, not, Option, none, some, Text, Result, ok, ◌>>◌,
  raise_if, value_error, is_some, eqb_ℤ, or_else,
}
use shiny_umbrella.Float.Arith.{Arith, ◌⊕◌, ◌⊖◌, ◌⊗◌, of_ℕ, of_int, round_to}
use shiny_umbrella.Types.Enums.{Side, OrderType, limit, sl, slm, ProductType, Validity, OrderStatus}

pub record FeeBreakdown (F : Type 0) : Type 0 where
  pub brokerage : F
  pub stt : F
  pub exchange : F
  pub sebi : F
  pub stamp : F
  pub gst : F
  pub other : F

pub record OrderRequest (F : Type 0) : Type 0 where
  pub symbol : Text
  pub side : Side
  pub qty : ℕ
  pub order_type : OrderType
  pub product : ProductType
  pub price : Option F
  pub trigger_price : Option F
  pub validity : Validity
  pub tag : Text

-- Why the paper broker rejected an order.
pub data Problem (F : Type 0) : Type 0 where
  index_not_tradable equity_product derivative_product : Problem F
  insufficient_funds : F → F → Problem F
  exceeds_holdings : ℤ → Problem F
  insufficient_at_fill : F → Problem F

pub record Order (F : Type 0) : Type 0 where
  pub id : Text
  pub broker_order_id : Option ℕ
  pub symbol : Text
  pub side : Side
  pub qty : ℕ
  pub filled_qty : ℕ
  pub order_type : OrderType
  pub product : ProductType
  pub price : Option F
  pub trigger_price : Option F
  pub validity : Validity
  pub status : OrderStatus
  pub avg_fill_price : Option F
  pub status_message : Option (Problem F)
  pub created_at : ℕ
  pub updated_at : ℕ
  -- `meta["marketable"]` and `meta["liquidation"]`
  pub marketable : Bool
  pub liquidation : Option Text

pub record Fill (F : Type 0) : Type 0 where
  pub order_id : Text
  pub symbol : Text
  pub side : Side
  pub qty : ℕ
  pub price : F
  pub ts : ℕ
  pub product : ProductType
  pub fees : FeeBreakdown F
  pub multiplier : F

pub record Position (F : Type 0) : Type 0 where
  pub symbol : Text
  pub product : ProductType
  pub qty : ℤ
  pub avg_price : F
  pub realised_pnl : F
  pub fees_paid : F
  pub last_price : Option F
  pub multiplier : F

abbrev needs_price : OrderType → Bool
needs_price limit = true
needs_price sl = true
needs_price _ = false

abbrev needs_trigger : OrderType → Bool
needs_trigger sl = true
needs_trigger slm = true
needs_trigger _ = false

module _ {F : Type 0} where
  -- `OrderRequest._check_prices`
  unfoldable pub check_prices : OrderRequest F → Result (OrderRequest F)
  check_prices r = do
    raise_if (needs_price r.order_type && not (is_some r.price)) value_error
    raise_if (needs_trigger r.order_type && not (is_some r.trigger_price)) value_error
    ok r

  -- `Order.from_request`, with the broker's number and the status that its callers give
  unfoldable pub from_request : OrderRequest F → ℕ → ℕ → OrderStatus → Order F
  from_request r ts number status = record {
    id = r.tag;
    broker_order_id = some number;
    symbol = r.symbol;
    side = r.side;
    qty = r.qty;
    filled_qty = 0;
    order_type = r.order_type;
    product = r.product;
    price = r.price;
    trigger_price = r.trigger_price;
    validity = r.validity;
    status = status;
    avg_fill_price = none;
    status_message = none;
    created_at = ts;
    updated_at = ts;
    marketable = false;
    liquidation = none;
  }

  -- `Order.remaining_qty`, where no more than the quantity is filled
  abbrev pub remaining_qty : Order F → ℕ
  remaining_qty o = o.qty - o.filled_qty

module _ {F : Type 0} ⦃fl : Arith F⦄ where
  -- `FeeBreakdown.total`: Python's `sum` starts from 0.
  unfoldable pub total : FeeBreakdown F → F
  total f =
      round_to 4 (of_ℕ 0 ⊕ f.brokerage ⊕ f.stt ⊕ f.exchange ⊕ f.sebi ⊕ f.stamp ⊕ f.gst ⊕ f.other)

  -- `FeeBreakdown.__add__`
  unfoldable pub add_fees : FeeBreakdown F → FeeBreakdown F → FeeBreakdown F
  add_fees f g = record {
    brokerage = f.brokerage ⊕ g.brokerage;
    stt = f.stt ⊕ g.stt;
    exchange = f.exchange ⊕ g.exchange;
    sebi = f.sebi ⊕ g.sebi;
    stamp = f.stamp ⊕ g.stamp;
    gst = f.gst ⊕ g.gst;
    other = f.other ⊕ g.other;
  }

  unrealised : Option F → Position F → F
  unrealised none p = of_ℕ 0
  unrealised (some last) p = (last ⊖ p.avg_price) ⊗ of_int p.qty ⊗ p.multiplier

  -- `Position.unrealised_pnl`
  unfoldable pub unrealised_pnl : Position F → F
  unfolding unrealised
  unrealised_pnl p = unrealised (if_open (eqb_ℤ p.qty (pos 0)) p.last_price) p
    where
      if_open : Bool → Option F → Option F
      if_open true last = none
      if_open false last = last

  -- `Position.market_value`
  unfoldable pub market_value : Position F → F
  market_value p = of_int p.qty ⊗ or_else p.last_price p.avg_price ⊗ p.multiplier
