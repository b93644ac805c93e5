-- ===== src/Tests/Accounts.antt =====
-- Tests of the broker's totals and of the agents' portfolio.
use shiny_umbrella.Symbols.Parse.{parse_symbol, valid_underlying}
use shiny_umbrella.Symbols.Text.{split_once, upper, split, chomp, join, all}
use shiny_umbrella.Base.{
  contains, ℤ, pos, ◌+ℤ◌, ◌≡◌, refl, true, false, none, some, List, [], ◌∷◌, Text, codes, lookup,
  nat_eq, list_eq, ok, ◌*ℤ◌, ◌-ℤ◌,
}
use shiny_umbrella.Float.Scaled.{scaled}
use shiny_umbrella.Types.Enums.{buy, sell, cnc, product_eq}
use shiny_umbrella.Types.Orders.{Fill, FeeBreakdown, Position, unrealised_pnl, market_value}
use shiny_umbrella.Types.Messages.{Funds}
use shiny_umbrella.Costs.Defaults.{zero_fees}
use shiny_umbrella.Paper.State.{Paper, PaperConfig, new_paper}
use shiny_umbrella.Paper.Positions.{flat}
use shiny_umbrella.Paper.Totals.{funds, positions_value, margin_used_of}
use shiny_umbrella.Portfolio.{Portfolio, apply_fills}
use shiny_umbrella.Portfolio.Quantities.{qty_at, booked_qty, apply_fills-qty_at}

abbrev plain : PaperConfig ℤ
plain = record {
  starting_cash = pos 1000000000;
  slippage_bps = λ o qty px. pos 0;
  fee_schedule = zero_fees;
  futures_margin_pct = pos 1000;
  short_option_margin_pct = pos 1500;
  require_trade_through = false;
  multiplier_for = none;
  fill_at_placement = true;
  max_participation = none;
  lot_size_for = none;
  stored = false;
}

abbrev infy : Text
infy = codes "NSE:INFY"

-- Ten shares bought at 100, now at 110
abbrev holding : Position ℤ
holding = record (flat infy cnc (pos 10000)) {
  qty = pos 10;
  avg_price = pos 1000000;
  last_price = some (pos 1100000);
}

abbrev account : Paper ℤ
account = record (new_paper plain) { cash = pos 990000000; positions = ((infy, cnc), holding) ∷ [] }

abbrev report : Funds ℤ
report = record {
  cash = pos 990000000;
  margin_used = pos 0;
  realised_pnl = pos 0;
  unrealised_pnl = pos 1000000;
  positions_value = pos 11000000;
}

reported : funds account ≡ ok report
unfolding funds margin_used_of parse_symbol split_once lookup upper split valid_underlying chomp
    join all contains positions_value ◌*ℤ◌ ◌+ℤ◌ ◌-ℤ◌ unrealised_pnl market_value
reported = refl

abbrev no_fees : FeeBreakdown ℤ
no_fees = record {
  brokerage = pos 0;
  stt = pos 0;
  exchange = pos 0;
  sebi = pos 0;
  stamp = pos 0;
  gst = pos 0;
  other = pos 0;
}

abbrev bought : Fill ℤ
bought = record {
  order_id = codes "a";
  symbol = infy;
  side = buy;
  qty = 10;
  price = pos 1000000;
  ts = 5;
  product = cnc;
  fees = no_fees;
  multiplier = pos 10000;
}

abbrev two_fills : List (Fill ℤ)
two_fills = bought ∷ record bought { side = sell; qty = 4 } ∷ []

abbrev fresh : Portfolio ℤ
fresh = record {
  starting_equity = pos 1000000000;
  multiplier_for = none;
  positions = [];
  last_price = [];
  realised_pnl = pos 0;
  fees_paid = pos 0;
  day = none;
  fills_seen = 0;
}

six_left : booked_qty (infy, cnc) (pos 0) two_fills ≡ pos 6
unfolding booked_qty ◌+ℤ◌
six_left = refl

apply_fills-qty_at_example :
    qty_at (infy, cnc) (apply_fills two_fills fresh)
    ≡ booked_qty (infy, cnc) (qty_at (infy, cnc) fresh) two_fills
apply_fills-qty_at_example = apply_fills-qty_at (infy, cnc) two_fills fresh
