-- ===== src/Costs/Defaults.antt =====
-- The default and the zero schedule of trading/backtest/costs.py.
use shiny_umbrella.Base.{none, some}
use shiny_umbrella.Float.Arith.{Arith, literal, of_ℕ}
use shiny_umbrella.Costs.Fees.{
  FeeSchedule, equity_delivery, equity_intraday, futures, options, mcx_futures, mcx_options,
}

module _ {F : Type 0} ⦃fl : Arith F⦄ where
  -- `SEBI`: Rs 10 per crore
  abbrev sebi : F
  sebi = literal 1 6

  -- `DEFAULT_FEES`
  abbrev pub default_fees : FeeSchedule F
  default_fees equity_delivery = record {
    brokerage_pct = of_ℕ 0;
    brokerage_cap = none;
    stt_buy_pct = literal 1 3;
    stt_sell_pct = literal 1 3;
    exchange_pct = literal 297 7;
    sebi_pct = sebi;
    stamp_buy_pct = literal 15 5;
    gst_pct = literal 18 2;
    dp_charge_sell = literal 1475 2;
  }
  default_fees equity_intraday = record {
    brokerage_pct = literal 3 4;
    brokerage_cap = some (of_ℕ 20);
    stt_buy_pct = of_ℕ 0;
    stt_sell_pct = literal 25 5;
    exchange_pct = literal 297 7;
    sebi_pct = sebi;
    stamp_buy_pct = literal 3 5;
    gst_pct = literal 18 2;
    dp_charge_sell = of_ℕ 0;
  }
  default_fees futures = record {
    brokerage_pct = literal 3 4;
    brokerage_cap = some (of_ℕ 20);
    stt_buy_pct = of_ℕ 0;
    stt_sell_pct = literal 2 4;
    exchange_pct = literal 173 7;
    sebi_pct = sebi;
    stamp_buy_pct = literal 2 5;
    gst_pct = literal 18 2;
    dp_charge_sell = of_ℕ 0;
  }
  default_fees options = record {
    brokerage_pct = literal 3 4;
    brokerage_cap = some (of_ℕ 20);
    stt_buy_pct = of_ℕ 0;
    stt_sell_pct = literal 1 3;
    exchange_pct = literal 3503 7;
    sebi_pct = sebi;
    stamp_buy_pct = literal 3 5;
    gst_pct = literal 18 2;
    dp_charge_sell = of_ℕ 0;
  }
  default_fees mcx_futures = record {
    brokerage_pct = literal 3 4;
    brokerage_cap = some (of_ℕ 20);
    stt_buy_pct = of_ℕ 0;
    stt_sell_pct = literal 1 4;
    exchange_pct = literal 21 6;
    sebi_pct = sebi;
    stamp_buy_pct = literal 2 5;
    gst_pct = literal 18 2;
    dp_charge_sell = of_ℕ 0;
  }
  default_fees mcx_options = record {
    brokerage_pct = literal 3 4;
    brokerage_cap = some (of_ℕ 20);
    stt_buy_pct = of_ℕ 0;
    stt_sell_pct = literal 5 4;
    exchange_pct = literal 418 6;
    sebi_pct = sebi;
    stamp_buy_pct = literal 3 5;
    gst_pct = literal 18 2;
    dp_charge_sell = of_ℕ 0;
  }

  -- `ZERO_FEES`
  abbrev pub zero_fees : FeeSchedule F
  zero_fees _ = record {
    brokerage_pct = of_ℕ 0;
    brokerage_cap = none;
    stt_buy_pct = of_ℕ 0;
    stt_sell_pct = of_ℕ 0;
    exchange_pct = of_ℕ 0;
    sebi_pct = of_ℕ 0;
    stamp_buy_pct = of_ℕ 0;
    gst_pct = of_ℕ 0;
    dp_charge_sell = of_ℕ 0;
  }
