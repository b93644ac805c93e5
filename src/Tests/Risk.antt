-- ===== src/Tests/Risk.antt =====
-- Tests of the risk agent: an entry trimmed to the position cap, an exit on a halted day, and the
-- kill switch.
use shiny_umbrella.Types.Orders.{total, add_fees}
use shiny_umbrella.Costs.Fees.{
  round_trip_cost_bps, round_trip_fees, compute_fees, segment_for, fees_of,
}
use shiny_umbrella.Symbols.Make.{canonical, make_symbol, contract_multiplier, multiplier_of}
use shiny_umbrella.Symbols.Lots.{get, canonical_of}
use shiny_umbrella.Symbols.Text.{split_once, upper, split, chomp, join, all}
use shiny_umbrella.Symbols.Parse.{parse_symbol, valid_underlying}
use shiny_umbrella.Portfolio.Exposure.{net_qty, gross_exposure}
use shiny_umbrella.Base.{
  ◌+◌, ◌*◌, ℤ, pos, ◌+ℤ◌, ◌*ℤ◌, ◌≡◌, ◌≢◌, refl, sym, ◌∙◌, true, false, none, some, List, [], ◌∷◌,
  Option, Text, codes, lookup, contains, nat_eq, list_eq, ok, ◌+ℤ◌, ◌-ℤ◌,
}
use shiny_umbrella.Float.Scaled.{scaled}
use shiny_umbrella.Types.Enums.{buy, sell, cnc, product_eq, normal}
use shiny_umbrella.Types.Intents.{OrderIntent, RiskApproval}
use shiny_umbrella.Clock.Dates.{Date, Timestamp, combine, time_of, second}
use shiny_umbrella.Clock.Calendar.{
  MarketCalendar, regular_sessions, is_open, session_bounds, session, regular_close, bounds, within,
}
use shiny_umbrella.Costs.Defaults.{zero_fees}
use shiny_umbrella.Paper.Positions.{flat}
use shiny_umbrella.Portfolio.{Portfolio, day_pnl}
use shiny_umbrella.Risk.State.{Risk, RiskLimits, kelly_fraction}
use shiny_umbrella.Risk.Rules.{
  is_exit, market_hours_rule, instrument_rule, daily_loss_limit, intraday_cutoff_rule,
  cost_threshold_rule, kelly_size_rule, qty_for_value, position_limit_rule, room_rule,
  gross_exposure_rule,
}
use shiny_umbrella.Risk.Evaluate.{approved, evaluate, apply_rule}
use shiny_umbrella.Risk.Evaluate.Guarantees.{
  Promised, evaluate-Promised, Entered, evaluate-Entered, exit_approved_in_full,
}
use shiny_umbrella.Risk.Agent.{Event, intent, command, handle_all, control_of, resume, pause}
use shiny_umbrella.Risk.Agent.Halts.{Stays, killed_approves_nothing, approvals}
use shiny_umbrella.Risk.Agent.Counts.{IsTallied, history-IsTallied, rejected_under}

abbrev cal : MarketCalendar
cal = record {
  sessions = regular_sessions;
  holidays = λ e. [];
  special_sessions = λ e. [];
  mcx_dst_close = some (time_of 23 30);
}

abbrev monday : Date
monday = 739621

abbrev ten : Timestamp
ten = combine monday (time_of 10 0)

abbrev infy : Text
infy = codes "NSE:INFY"

abbrev limits : RiskLimits ℤ
limits = record {
  max_position_value = pos 300000000;
  max_gross_exposure = pos 20000000000;
  max_daily_loss = pos 250000000;
  max_daily_loss_fraction = none;
  max_kelly_fraction = pos 500;
  kelly_loss_fraction = pos 100;
  min_edge_multiple = pos 15000;
  slippage_bps = pos 20000;
  max_order_value = pos 10000000000;
  require_market_open = true;
  mis_entry_cutoff_minutes = some 15;
  allow_exits_when_closed = false;
  approval_ttl_seconds = 120;
  fee_schedule = zero_fees;
}

abbrev cash_only : Portfolio ℤ
cash_only = record {
  starting_equity = pos 10000000000;
  multiplier_for = some (λ s. pos 10000);
  positions = [];
  last_price = [];
  realised_pnl = pos 0;
  fees_paid = pos 0;
  day = none;
  fills_seen = 0;
}

abbrev fresh : Risk ℤ
fresh = record {
  portfolio = cash_only;
  calendar = cal;
  limits = limits;
  lots = [];
  killed = false;
  kill_reason = [];
  halted_day = none;
  paused = [];
  approved_count = 0;
  rejected_count = 0;
  rejections = [];
  errors = 0;
  published = [];
}

-- Five hundred shares at 100, for an edge of 100 basis points
abbrev entry : OrderIntent ℤ
entry = record {
  id = codes "i1";
  ts = ten;
  strategy_id = codes "s1";
  symbol = infy;
  side = buy;
  qty = 500;
  product = cnc;
  urgency = normal;
  reference_price = pos 1000000;
  limit_band_bps = pos 200000;
  ttl_seconds = 60;
  expected_edge_bps = pos 1000000;
  prob = some (pos 6000);
  payoff_ratio = none;
  model_version = none;
  signal_id = none;
  meta = [];
}

abbrev token : Text
token = codes "t1"

abbrev three_hundred : RiskApproval ℤ
three_hundred = record {
  token = token;
  intent_id = codes "i1";
  intent = entry;
  ts = ten;
  expires_at = ten + 120 * second;
  approved_qty = 300;
}

entry_trimmed : evaluate fresh ten entry token ≡ ok (approved three_hundred)
unfolding evaluate is_exit net_qty apply_rule contains market_hours_rule parse_symbol split_once
    lookup upper split valid_underlying chomp join all is_open session_bounds session regular_close
    bounds within instrument_rule get canonical_of canonical make_symbol contract_multiplier ◌*ℤ◌
    multiplier_of day_pnl ◌-ℤ◌ daily_loss_limit intraday_cutoff_rule cost_threshold_rule
    round_trip_cost_bps round_trip_fees compute_fees segment_for ◌+ℤ◌ total add_fees fees_of
    kelly_size_rule kelly_fraction qty_for_value position_limit_rule room_rule gross_exposure_rule
    gross_exposure
entry_trimmed = refl

opens : is_exit fresh entry ≡ false
unfolding is_exit net_qty
opens = refl

evaluate-Promised_example : Promised fresh ten entry token three_hundred
evaluate-Promised_example = evaluate-Promised fresh ten entry token entry_trimmed

evaluate-Entered_example : Entered fresh ten entry three_hundred
evaluate-Entered_example = evaluate-Entered fresh ten entry token opens entry_trimmed

-- Ten shares are held, on a day on which entries are halted.
abbrev halted : Risk ℤ
halted = record fresh {
  portfolio = record cash_only {
    positions = ((infy, cnc), record (flat infy cnc (pos 10000)) { qty = pos 10 }) ∷ [];
  };
  halted_day = some monday;
}

abbrev closing : OrderIntent ℤ
closing = record entry { side = sell; qty = 10 }

closes : is_exit halted closing ≡ true
unfolding is_exit net_qty ◌+ℤ◌
closes = refl

exit_approved_in_full_example :
    ((a : RiskApproval ℤ)
      → evaluate halted ten closing token ≡ ok (approved a)
      → a.approved_qty ≡ 10)
    × ((day : Option Date)
        → evaluate (record halted { halted_day = day }) ten closing token
          ≡ evaluate halted ten closing token)
exit_approved_in_full_example = exit_approved_in_full halted ten closing token closes

exit_on_halted_day :
    evaluate halted ten closing token
    ≡ ok (approved (record three_hundred { intent = closing; approved_qty = 10 }))
unfolding evaluate is_exit net_qty ◌+ℤ◌ apply_rule contains market_hours_rule parse_symbol
    split_once lookup upper split valid_underlying chomp join all is_open session_bounds session
    regular_close bounds within instrument_rule get canonical_of canonical make_symbol
    contract_multiplier ◌*ℤ◌ multiplier_of
exit_on_halted_day = refl

abbrev killed : Risk ℤ
killed = record fresh { killed = true }

abbrev messages : List (Event ℤ)
messages =
    intent entry ten token
    ∷ command (record {
      ts = ten;
      command = codes "pause";
      reason = codes "s1";
      issued_by = codes "user";
    })
    ∷ intent closing ten token
    ∷ []

pause_read : control_of (codes "pause") ≡ pause
unfolding control_of upper
pause_read = refl

pausing : control_of (codes "pause") ≢ resume
pausing h = cc (sym pause_read ∙ h)

killed_approves_nothing_example : Stays killed (handle_all messages killed)
killed_approves_nothing_example =
    killed_approves_nothing killed messages refl (tt, (pausing, (tt, tt)))

fresh-IsTallied : IsTallied fresh
unfolding approvals rejected_under lookup
fresh-IsTallied = record { approved_tally = refl; rejected_tally = λ rule. refl; sound = tt }

history-IsTallied_example : IsTallied (handle_all messages fresh)
history-IsTallied_example = history-IsTallied messages fresh fresh-IsTallied
