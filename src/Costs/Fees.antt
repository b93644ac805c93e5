-- ===== src/Costs/Fees.antt =====
-- `segment_for`, `compute_fees`, `round_trip_fees` and `round_trip_cost_bps` of
-- trading/backtest/costs.py. A schedule has an entry for every segment.
use shiny_umbrella.Base.{ℕ, Option, none, some, Result, ok, err, value_error, ◌>>=◌, ◌>>◌, raise_if}
use shiny_umbrella.Float.Arith.{Arith, ◌⊕◌, ◌⊗◌, ◌⊘◌, ◌≼◌, of_ℕ, fmin, round_to}
use shiny_umbrella.Types.Enums.{
  Exchange, mcx, InstrumentKind, equity, index, future, option, Side, buy, sell, ProductType, cnc,
}
use shiny_umbrella.Types.Orders.{FeeBreakdown, total, add_fees}
use shiny_umbrella.Symbols.Parse.{ParsedSymbol}

pub data Segment : Type 0 where
  equity_delivery equity_intraday futures options mcx_futures mcx_options : Segment

pub record SegmentFees (F : Type 0) : Type 0 where
  pub brokerage_pct : F
  pub brokerage_cap : Option F
  pub stt_buy_pct : F
  pub stt_sell_pct : F
  pub exchange_pct : F
  pub sebi_pct : F
  pub stamp_buy_pct : F
  pub gst_pct : F
  pub dp_charge_sell : F

abbrev pub FeeSchedule : Type 0 → Type 0
FeeSchedule F = Segment → SegmentFees F

segment_on : Exchange → InstrumentKind → ProductType → Result Segment
segment_on mcx option _ = ok mcx_options
segment_on mcx _ _ = ok mcx_futures
segment_on _ option _ = ok options
segment_on _ future _ = ok futures
segment_on _ index _ = err value_error
segment_on _ equity cnc = ok equity_delivery
segment_on _ equity _ = ok equity_intraday

module _ {F : Type 0} where
  unfoldable pub segment_for : ParsedSymbol F → ProductType → Result Segment
  unfolding segment_on
  segment_for p product = segment_on p.exchange p.kind product

module _ {F : Type 0} ⦃fl : Arith F⦄ where
  capped : Option F → F → F
  capped none brokerage = brokerage
  capped (some cap) brokerage = fmin brokerage cap

  by_side : Side → F → F → F
  by_side buy x y = x
  by_side sell x y = y

  -- The fees by the rates of one segment
  unfoldable pub fees_of : SegmentFees F → Side → ℕ → F → F → FeeBreakdown F
  unfolding capped by_side
  fees_of seg side qty price multiplier =
      let value = of_ℕ qty ⊗ price ⊗ multiplier in
      let brokerage = capped seg.brokerage_cap (value ⊗ seg.brokerage_pct) in
      let stt = value ⊗ by_side side seg.stt_buy_pct seg.stt_sell_pct in
      let exchange = value ⊗ seg.exchange_pct in
      let sebi = value ⊗ seg.sebi_pct in
      let stamp = by_side side (value ⊗ seg.stamp_buy_pct) (of_ℕ 0) in
      let gst = (brokerage ⊕ exchange ⊕ sebi) ⊗ seg.gst_pct in
      let other = by_side side (of_ℕ 0) seg.dp_charge_sell in
      record {
        brokerage = round_to 4 brokerage;
        stt = round_to 4 stt;
        exchange = round_to 4 exchange;
        sebi = round_to 4 sebi;
        stamp = round_to 4 stamp;
        gst = round_to 4 gst;
        other = round_to 4 other;
      }

  unfoldable pub compute_fees :
      FeeSchedule F → ParsedSymbol F → Side → ℕ → F → ProductType → F → Result (FeeBreakdown F)
  compute_fees schedule p side qty price product multiplier = do
    seg ← segment_for p product
    ok (fees_of (schedule seg) side qty price multiplier)

  unfoldable pub round_trip_fees :
      FeeSchedule F → ParsedSymbol F → ℕ → F → ProductType → F → Result (FeeBreakdown F)
  round_trip_fees schedule p qty price product multiplier = do
    entry ← compute_fees schedule p buy qty price product multiplier
    exit ← compute_fees schedule p sell qty price product multiplier
    ok (add_fees entry exit)

  unfoldable pub round_trip_cost_bps :
      FeeSchedule F → ParsedSymbol F → ℕ → F → ProductType → F → F → Result F
  round_trip_cost_bps schedule p qty price product slippage_bps multiplier =
      let value = of_ℕ qty ⊗ price ⊗ multiplier in
      do
        raise_if (value ≼ of_ℕ 0) value_error
        fees ← round_trip_fees schedule p qty price product multiplier
        ok (total fees ⊘ value ⊗ of_ℕ 10000 ⊕ of_ℕ 2 ⊗ slippage_bps)
