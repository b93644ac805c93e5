-- ===== src/Tests/Paper.antt =====
-- Tests of the paper broker: sessions with an equity order.
use shiny_umbrella.Base.{
  All, ◌≤◌, contains, ◌*ℤ◌, ℤ, pos, ◌≡◌, refl, true, false, none, some, List, [], ◌∷◌, Text, codes,
  lookup, insert, nat_eq, list_eq, ok, ◌++◌,
}
use shiny_umbrella.Float.Scaled.{scaled, scaled_laws}
use shiny_umbrella.Types.Enums.{buy, limit, cnc, day, open_, is_terminal}
use shiny_umbrella.Types.Market.{Tick}
use shiny_umbrella.Types.Orders.{Fill, OrderRequest, Order, from_request}
use shiny_umbrella.Costs.Defaults.{zero_fees, default_fees}
use shiny_umbrella.Costs.Fees.{compute_fees, segment_for}
use shiny_umbrella.Paper.Pricing.{fillable_qty, limit_price}
use shiny_umbrella.Paper.Ledger.{ledger, unmarked, history_booked}
use shiny_umbrella.Paper.Limits.{Made, history_fills_come_from_orders}
use shiny_umbrella.Paper.Calls.Repeats.{place_again}
use shiny_umbrella.Paper.Simulator.{
  SimConfig, sim_config, fixed_slippage, priceless, no_fill_before_next_price,
}
use shiny_umbrella.Symbols.Make.{contract_multiplier}
use shiny_umbrella.Paper.State.{PaperConfig, new_paper}
use shiny_umbrella.Paper.Calls.{place_order}
use shiny_umbrella.Paper.Matching.{on_tick, try_fill, multiplier, filled_order}
use shiny_umbrella.Paper.Validation.{validate}
use shiny_umbrella.Paper.Sessions.{
  Call, places, cancels, ticks, after, history, history_order_ok, history_keeps_ended, status_fits,
}
use shiny_umbrella.Symbols.Parse.{parse_symbol, valid_underlying}
use shiny_umbrella.Symbols.Text.{split_once, upper, split, chomp, join, all}

abbrev cfg : PaperConfig ℤ
cfg = record {
  starting_cash = pos 1000000000;
  slippage_bps = λ o qty px. pos 0;
  fee_schedule = zero_fees;
  futures_margin_pct = pos 1000;
  short_option_margin_pct = pos 1500;
  require_trade_through = false;
  multiplier_for = none;
  fill_at_placement = true;
  max_participation = none;
  lot_size_for = none;
  stored = true;
}

abbrev reliance : Text
reliance = codes "NSE:RELIANCE"

abbrev tag : Text
tag = codes "t1"

abbrev bid : OrderRequest ℤ
bid = record {
  symbol = reliance;
  side = buy;
  qty = 10;
  order_type = limit;
  product = cnc;
  price = some (pos 1000000);
  trigger_price = none;
  validity = day;
  tag = tag;
}

abbrev waiting : Order ℤ
waiting = from_request bid 5 1 open_

abbrev dip : Tick ℤ
dip = record {
  symbol = reliance;
  ts = 9;
  ltp = pos 950000;
  ltq = 1;
  volume = 1;
  bid = none;
  ask = none;
  oi = none;
}

abbrev done : Order ℤ
done = filled_order waiting 10 (pos 950000) 9

abbrev a_fill : List (Call ℤ)
a_fill = places bid 5 ∷ ticks dip ∷ []

bid_waits : lookup tag (history (places bid 5 ∷ []) (new_paper cfg)).orders ≡ some waiting
unfolding history after lookup insert place_order validate parse_symbol from_request split_once
    upper split valid_underlying chomp join all contains multiplier ◌*ℤ◌
bid_waits = refl

filled_at_dip : lookup tag (history a_fill (new_paper cfg)).orders ≡ some done
unfolding history after lookup insert place_order validate parse_symbol from_request split_once
    upper split valid_underlying chomp join all contains multiplier ◌*ℤ◌ on_tick filled_order
    try_fill fillable_qty limit_price compute_fees segment_for
filled_at_dip = refl

history_order_ok_example :
    (done.id ≡ tag)
    × (done.filled_qty ≤ done.qty)
    × (status_fits done.status done.filled_qty done.qty ≡ true)
history_order_ok_example = history_order_ok cfg a_fill tag filled_at_dip

done_ended : is_terminal done.status ≡ true
unfolding filled_order from_request
done_ended = refl

history_keeps_ended_example :
    lookup tag (history (cancels tag 12 ∷ ticks dip ∷ []) (history a_fill (new_paper cfg))).orders
    ≡ some done
history_keeps_ended_example =
    history_keeps_ended cfg a_fill (cancels tag 12 ∷ ticks dip ∷ []) tag filled_at_dip done_ended

history_booked_example :
    ledger
      (history a_fill (new_paper cfg)).fills
      ([], (history a_fill (new_paper cfg)).cfg.starting_cash)
    ≡ (unmarked (history a_fill (new_paper cfg)).positions, (history a_fill (new_paper cfg)).cash)
history_booked_example = history_booked cfg a_fill

history_fills_come_from_orders_example :
    (fs : List (Fill ℤ)) × ((after (ticks dip) (history (places bid 5 ∷ []) (new_paper cfg))).fills
      ≡ (history (places bid 5 ∷ []) (new_paper cfg)).fills ++ fs)
    × All
        (Made
          (history (places bid 5 ∷ []) (new_paper cfg))
          (after (ticks dip) (history (places bid 5 ∷ []) (new_paper cfg))))
        fs
history_fills_come_from_orders_example =
    history_fills_come_from_orders scaled_laws cfg (places bid 5 ∷ []) (ticks dip)

first_placing : (place_order bid 5 (new_paper cfg)).0 ≡ ok waiting
unfolding lookup insert place_order validate parse_symbol from_request split_once upper split
    valid_underlying chomp join all contains multiplier ◌*ℤ◌
first_placing = refl

place_again_example :
    place_order bid 8 (place_order bid 5 (new_paper cfg)).1
    ≡ (ok waiting, (place_order bid 5 (new_paper cfg)).1)
place_again_example = place_again bid 5 8 (new_paper cfg) first_placing

abbrev sim : SimConfig ℤ
sim = record {
  starting_cash = pos 1000000000;
  slippage = fixed_slippage (pos 20000);
  fee_schedule = default_fees;
  max_participation = none;
  futures_margin_pct = pos 1000;
  lot_size_for = none;
  multiplier_for = contract_multiplier;
}

two_calls_priceless : priceless {F = ℤ} (places bid 5 ∷ cancels tag 6 ∷ []) ≡ true
unfolding priceless
two_calls_priceless = refl

no_fill_before_next_price_example :
    (history
      (places bid 5 ∷ cancels tag 6 ∷ [])
      (history (ticks dip ∷ []) (new_paper (sim_config sim)))).fills
    ≡ (history (ticks dip ∷ []) (new_paper (sim_config sim))).fills
no_fill_before_next_price_example =
    no_fill_before_next_price sim (ticks dip ∷ []) (places bid 5 ∷ cancels tag 6 ∷ [])
      two_calls_priceless
