-- ===== src/Tests/Execution.antt =====
-- Tests of the execution agent: an approved purchase in three slices, at a broker that leaves every
-- order open, and the kill switch.
use shiny_umbrella.Execution.Placing.{on_approval}
use shiny_umbrella.Execution.Manage.{manage, cancel_where}
use shiny_umbrella.Symbols.Make.{canonical, make_symbol}
use shiny_umbrella.Symbols.Text.{split_once, upper, split, chomp, join, all}
use shiny_umbrella.Base.{
  ℕ, suc, ◌+◌, ◌*◌, ℤ, pos, ◌≡◌, ◌≢◌, ◌↔◌, refl, sym, ◌∙◌, true, false, none, some, List, [], ◌∷◌,
  Option, Text, codes, lookup, insert, contains, nat_eq, list_eq, ok, err, unknown_order, arith,
  ◌*ℤ◌, ◌+ℤ◌,
}
use shiny_umbrella.Base.Actions.{for_each}
use shiny_umbrella.Float.Scaled.{scaled, scaled_laws}
use shiny_umbrella.Types.Enums.{buy, cnc, normal, limit, OrderType, open_, filled, day, nse, equity}
use shiny_umbrella.Types.Intents.{OrderIntent, RiskApproval, number_value, flag_value}
use shiny_umbrella.Execution.Intents.{intent_beq}
use shiny_umbrella.Types.Orders.{OrderRequest, from_request}
use shiny_umbrella.Clock.Dates.{Timestamp, second}
use shiny_umbrella.Costs.Defaults.{zero_fees}
use shiny_umbrella.Symbols.Parse.{ParsedSymbol, parse_symbol, valid_underlying}
use shiny_umbrella.Symbols.Lots.{get, canonical_of}
use shiny_umbrella.Execution.State.{Tracked, Router, ExecutionConfig, Exec}
use shiny_umbrella.Execution.Slices.{least, lot_cap, caps_for, plan_slices, slices_by, chunks}
use shiny_umbrella.Execution.Slices.Sums.{IsSplit, plan_slices-IsSplit}
use shiny_umbrella.Execution.Pricing.{price_order, round_to_tick, limit_price_of}
use shiny_umbrella.Execution.Pricing.Bands.{Priced, price_order-Priced}
use shiny_umbrella.Execution.Placing.{all_slices, progress, on_order_progress}
use shiny_umbrella.Execution.Placing.Fuel.{on_order_progress-progress}
use shiny_umbrella.Execution.Approval.{another_intent, check_approval, IsLive, check_approval_iff}
use shiny_umbrella.Execution.Handlers.{
  Event, approval, command, timer, handle_all, control_of, resume, kill,
}
use shiny_umbrella.Execution.Halted.{SendsNone, halted-SendsNone}
use shiny_umbrella.Execution.Budget.{sent_under, IsBudgeted}
use shiny_umbrella.Execution.Budget.Spending.{history-IsBudgeted}

abbrev infy : Text
infy = codes "NSE:INFY"

abbrev opened : OrderRequest ℤ → Tracked ℤ
opened req = record {
  order = from_request req 5 1 open_;
  intent_id = [];
  approval_token = [];
  parent_id = [];
  protective = false;
}

-- A broker whose state is the number of its orders
abbrev desk : Router ℤ ℕ
desk = record {
  place_order = λ req n. (ok (opened req), n + 1);
  modify_price = λ id price n. (err unknown_order, n);
  cancel_order = λ id n. (err unknown_order, n);
  orders = λ n. (ok [], n);
}

abbrev tag_of : ℕ → Text
tag_of n = n ∷ []

abbrev config : ExecutionConfig ℤ
config = record {
  max_participation = pos 1000;
  volume_lookback_bars = 5;
  max_chase_steps = 3;
  max_chase_bps = pos 150000;
  chase_interval = 5 * second;
  default_tick_size = pos 500;
  place_bracket_stop = true;
  allow_market_orders = false;
}

-- A thousand shares were traded in the last bar.
abbrev idle : Exec ℤ ℕ
idle = record {
  broker = 0;
  cfg = config;
  fee_schedule = zero_fees;
  instruments = [];
  lots = [];
  intents = [];
  used_tokens = [];
  plans = [];
  working = [];
  quotes = [];
  volume = (infy, 1000 ∷ []) ∷ [];
  orders_seen = [];
  real_fill_orders = [];
  net = [];
  protective = [];
  halted = false;
  placed_count = 0;
  rejected_without_approval = 0;
  fills_published = 0;
  errors = 0;
  published = [];
  sent = [];
  accepted = [];
}

abbrev entry : OrderIntent ℤ
entry = record {
  id = codes "i1";
  ts = 5;
  strategy_id = codes "s1";
  symbol = infy;
  side = buy;
  qty = 500;
  product = cnc;
  urgency = normal;
  reference_price = pos 1000000;
  limit_band_bps = pos 200000;
  ttl_seconds = 60;
  expected_edge_bps = pos 1000000;
  prob = none;
  payoff_ratio = none;
  model_version = none;
  signal_id = none;
  meta = [];
}

abbrev token : Text
token = codes "t1"

abbrev three_hundred : RiskApproval ℤ
three_hundred = record {
  token = token;
  intent_id = codes "i1";
  intent = entry;
  ts = 5;
  expires_at = 5 + 120 * second;
  approved_qty = 300;
}

one_share : get ℤ idle.lots infy ≡ ok 1
unfolding get canonical_of parse_symbol split_once lookup upper split valid_underlying chomp join
    all contains canonical make_symbol
one_share = refl

plan_slices-IsSplit_example :
    (xs : List ℕ) × (plan_slices idle infy 300 ≡ ok xs)
    × IsSplit 300 (lot_cap (least 300 (caps_for idle infy)) 1) 1 xs
plan_slices-IsSplit_example =
    plan_slices-IsSplit idle infy 300 1 (omega arith) one_share (omega arith)

three_slices : plan_slices idle infy 300 ≡ ok (100 ∷ 100 ∷ 100 ∷ [])
unfolding plan_slices get canonical_of parse_symbol split_once lookup upper split valid_underlying
    chomp join all contains canonical make_symbol slices_by caps_for ◌*ℤ◌ chunks
three_slices = refl

-- The agent meanwhile was asked to buy, then killed, then asked again.
abbrev messages : List (Timestamp × Event ℤ ℕ)
messages =
    (6, approval three_hundred)
    ∷ (
      7,
      command (record { ts = 7; command = codes "kill"; reason = []; issued_by = codes "user" }),
    )
    ∷ (8, approval (record three_hundred { token = codes "t2" }))
    ∷ (9 * 60 * second, timer)
    ∷ []

first_slice_sent : sent_under token (handle_all desk tag_of messages idle).sent ≡ 100
unfolding sent_under handle_all manage for_each on_approval check_approval control_of upper
    cancel_where contains lookup plan_slices get canonical_of parse_symbol split_once split
    valid_underlying chomp join all canonical make_symbol slices_by caps_for ◌*ℤ◌ chunks price_order
    from_request insert
first_slice_sent = refl

idle-IsBudgeted : IsBudgeted idle
unfolding lookup sent_under
idle-IsBudgeted = record {
  unused = λ t h. refl;
  spent = λ t. omega arith;
  planned = λ k p h. cc;
  one_key = λ k j p q h. cc;
}

history-IsBudgeted_example : IsBudgeted (handle_all desk tag_of messages idle)
history-IsBudgeted_example = history-IsBudgeted desk tag_of idle messages idle-IsBudgeted

abbrev killed : Exec ℤ ℕ
killed = record idle { halted = true }

kill_read : control_of (codes "kill") ≡ kill
unfolding control_of upper
kill_read = refl

killing : control_of (codes "kill") ≢ resume
killing h = cc (sym kill_read ∙ h)

halted-SendsNone_example : SendsNone killed (handle_all desk tag_of messages killed)
halted-SendsNone_example =
    halted-SendsNone desk tag_of killed messages refl (tt, (killing, (tt, (tt, tt))))

-- The agent has seen an intent with a signal and a stop, written with its keys in another order.
abbrev signalled : OrderIntent ℤ
signalled = record entry {
  signal_id = some (codes "g1");
  meta = (codes "is_exit", flag_value false) ∷ (codes "stop_loss_pct", number_value (pos 100)) ∷ [];
}

abbrev reordered : OrderIntent ℤ
reordered = record signalled {
  meta = (codes "stop_loss_pct", number_value (pos 100)) ∷ (codes "is_exit", flag_value false) ∷ [];
}

abbrev informed : Exec ℤ ℕ
informed = record idle { intents = (codes "i1", signalled) ∷ [] }

abbrev signalled_approval : RiskApproval ℤ
signalled_approval = record three_hundred { intent = reordered }

same_accepted : check_approval informed 6 signalled_approval ≡ none
unfolding check_approval intent_beq lookup contains
same_accepted = refl

tampered_refused : check_approval informed 6 three_hundred ≡ some another_intent
unfolding check_approval intent_beq lookup contains
tampered_refused = refl

check_approval_iff_example :
    (check_approval informed 6 signalled_approval ≡ none) ↔ IsLive informed 6 signalled_approval
check_approval_iff_example = check_approval_iff informed 6 signalled_approval

abbrev parsed : ParsedSymbol ℤ
parsed = record {
  exchange = nse;
  underlying = codes "INFY";
  kind = equity;
  expiry = none;
  strike = none;
  option_type = none;
}

parses : parse_symbol entry.symbol ≡ ok parsed
unfolding parse_symbol split_once lookup upper split valid_underlying chomp join all contains
parses = refl

abbrev priced : Option ℤ × OrderType
priced = (some (pos 1000000), limit)

priced_at_mid : price_order idle entry ≡ ok priced
unfolding price_order parse_symbol split_once lookup upper split valid_underlying chomp join all
    contains limit_price_of round_to_tick ◌*ℤ◌ ◌+ℤ◌
priced_at_mid = refl

price_order-Priced_example : Priced entry idle parsed (some (pos 1000000)) limit
price_order-Priced_example = price_order-Priced entry scaled_laws idle parsed parses priced_at_mid

abbrev ask : OrderRequest ℤ
ask = record {
  symbol = infy;
  side = buy;
  qty = 100;
  order_type = limit;
  product = cnc;
  price = some (pos 1000000);
  trigger_price = none;
  validity = day;
  tag = tag_of 0;
}

-- The first slice is reported as filled.
abbrev first_filled : Tracked ℤ
first_filled = record (opened ask) {
  order = record (from_request ask 5 1 filled) { filled_qty = 100 };
  intent_id = codes "i1";
}

abbrev buying : Exec ℤ ℕ
buying = handle_all desk tag_of ((6, approval three_hundred) ∷ []) idle

on_order_progress-progress_example :
    on_order_progress desk tag_of 7 first_filled buying
    ≡ progress desk tag_of 7 (suc (all_slices buying.plans + 5)) first_filled buying
on_order_progress-progress_example = on_order_progress-progress desk tag_of 7 first_filled buying 5
