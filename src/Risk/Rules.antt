-- ===== src/Risk/Rules.antt =====
-- The rules of the risk agent (trading/agents/risk.py), one function each.
pub mod Trim
pub mod Keep
use shiny_umbrella.Base.{
  ℕ, ◌+◌, ◌-◌, ◌*◌, ◌/◌, ◌%◌, min, ℤ, pos, eqb_ℤ, ltb_ℤ, to_ℕ, pos_part, Bool, true, false, not,
  ◌&&◌, ◌||◌, Option, none, some, Text, contains, nat_eq, list_eq, Eq, ◌==◌, Result, ok, err, Error,
  missing_lot_size, zero_division, ◌>>=◌, ◌>>◌, raise_if, ltb, leb, ◌=ℕ◌, if◌then◌else◌, or_else,
}
use shiny_umbrella.Float.Arith.{Arith, ◌⊕◌, ◌⊖◌, ◌⊗◌, ◌⊘◌, ◌≼◌, ◌≺◌, of_ℕ, fmin, neg, fabs}
use shiny_umbrella.Types.Enums.{
  Exchange, InstrumentKind, equity, index, future, option, Side, is_buy, ProductType, mis, cnc,
  nrml, product_beq,
}
use shiny_umbrella.Types.Intents.{OrderIntent}
use shiny_umbrella.Clock.Dates.{Date, Timestamp, date_of, second}
use shiny_umbrella.Clock.Calendar.{is_open, next_open, session_bounds}
use shiny_umbrella.Symbols.Parse.{ParsedSymbol, parse_symbol}
use shiny_umbrella.Symbols.Make.{contract_multiplier}
use shiny_umbrella.Symbols.Lots.{get}
use shiny_umbrella.Costs.Fees.{round_trip_cost_bps}
use shiny_umbrella.Portfolio.{Portfolio, DaySnapshot, day_pnl, equity_now}
use shiny_umbrella.Portfolio.Exposure.{net_qty, gross_exposure}
use shiny_umbrella.Risk.State.{Risk, RiskLimits, RuleResult, fails, passes, kelly_fraction}

abbrev pub on_day : Option Date → Date → Bool
on_day none d = false
on_day (some h) d = h =ℕ d

unfoldable pub against : ℤ → Side → Bool
against held side =
    if eqb_ℤ held (pos 0)
    then false
    else (if ltb_ℤ (pos 0) held then not (is_buy side) else is_buy side)

unfoldable pub bad_product : InstrumentKind → ProductType → Bool
bad_product index _ = true
bad_product equity nrml = true
bad_product future cnc = true
bad_product option cnc = true
bad_product _ _ = false

unfoldable pub before_cutoff : ℕ → Timestamp → Option (Timestamp × Timestamp) → RuleResult
before_cutoff minutes now none = passes none
before_cutoff minutes now (some (open_, close)) =
    if leb (close - minutes * 60 * second) now then fails else passes none

-- A trimming rule, once the quantity that it allows is known
abbrev pub trimmed : ℕ → ℕ → RuleResult
trimmed qty allowed = if allowed =ℕ 0 then fails else passes (some (min qty allowed))

module _ {F : Type 0} where
  -- `_is_exit`
  unfoldable pub is_exit : Risk F → OrderIntent F → Bool
  unfolding against
  is_exit s i = against (net_qty s.portfolio i.symbol (some i.product)) i.side

  -- `_kill_switch` and `_strategy_enabled`
  abbrev pub kill_switch_rule : Risk F → RuleResult
  kill_switch_rule s = if s.killed then fails else passes none

  abbrev pub strategy_enabled_rule : Risk F → OrderIntent F → RuleResult
  strategy_enabled_rule s i = if contains i.strategy_id s.paused then fails else passes none

module _ {F : Type 0} ⦃fl : Arith F⦄ where
  -- `_value`
  unfoldable pub value_of : Text → ℕ → F → Result F
  value_of symbol qty price = do mult ← contract_multiplier symbol; ok (of_ℕ qty ⊗ price ⊗ mult)

  unfoldable pub whole_lots : F → F → ℕ → Result ℕ
  whole_lots value unit lot =
      if lot =ℕ 0 then err zero_division else ok (pos_part (fl.trunc (value ⊘ unit)) / lot * lot)

  -- `_qty_for_value`; a negative answer stands as 0, since its callers only ask whether it is
  -- positive.
  unfoldable pub qty_for_value : Risk F → Text → F → F → Result ℕ
  unfolding whole_lots
  qty_for_value s symbol value price = do
    mult ← contract_multiplier symbol
    if price ⊗ mult ≼ of_ℕ 0
        then ok 0
        else (get F s.lots symbol >>= whole_lots value (price ⊗ mult))

  unfoldable pub fraction_of : Option F → Option (DaySnapshot F) → F → F
  fraction_of (some fraction) (some day) limit = fmin limit (day.start_equity ⊗ fraction)
  fraction_of _ _ limit = limit

  -- `_daily_loss_limit`
  unfoldable pub daily_loss_limit : Risk F → F
  unfolding fraction_of
  daily_loss_limit s =
      fabs (fraction_of s.limits.max_daily_loss_fraction s.portfolio.day s.limits.max_daily_loss)

  -- `_market_hours`: the next open is only read for the message, where it may raise.
  unfoldable pub market_hours_rule : Risk F → Timestamp → OrderIntent F → Result RuleResult
  market_hours_rule s now i = if not s.limits.require_market_open then ok (passes none) else (do
    p ← parse_symbol {F = F} i.symbol
    open_ ← is_open s.calendar p.exchange now
    if open_ || (is_exit s i && s.limits.allow_exits_when_closed)
        then ok (passes none)
        else (next_open s.calendar p.exchange now >>= λ _. ok fails))

  unfoldable pub order_value : Risk F → OrderIntent F → ℕ → Result RuleResult
  unfolding value_of
  order_value s i qty = do
    value ← value_of i.symbol qty i.reference_price
    if s.limits.max_order_value ≺ value then ok fails else ok (passes none)

  -- `lot` divides the quantity, or the lot is not known.
  unfoldable pub sized_order : Risk F → OrderIntent F → ℕ → Result ℕ → Result RuleResult
  unfolding order_value
  sized_order s i qty (err missing_lot_size) = ok fails
  sized_order s i qty (err x) = err x
  sized_order s i qty (ok lot) =
      if lot =ℕ 0
      then err zero_division
      else (if qty % lot =ℕ 0 then order_value s i qty else ok fails)

  -- `_instrument`
  unfoldable pub instrument_rule : Risk F → OrderIntent F → ℕ → Result RuleResult
  unfolding sized_order bad_product
  instrument_rule s i qty = do
    p ← parse_symbol {F = F} i.symbol
    if bad_product p.kind i.product then ok fails else sized_order s i qty (get F s.lots i.symbol)

  -- `_daily_loss`
  abbrev pub daily_loss_rule : Risk F → Timestamp → RuleResult
  daily_loss_rule s now =
      if on_day s.halted_day (date_of now) || (day_pnl s.portfolio ≼ neg (daily_loss_limit s))
      then fails
      else passes none

  unfoldable pub cutoff_at : Risk F → Timestamp → Text → Option ℕ → Result RuleResult
  unfolding before_cutoff
  cutoff_at s now symbol none = ok (passes none)
  cutoff_at s now symbol (some minutes) = do
    p ← parse_symbol {F = F} symbol
    bounds ← session_bounds s.calendar p.exchange (date_of now)
    ok (before_cutoff minutes now bounds)

  -- `_intraday_cutoff`
  unfoldable pub intraday_cutoff_rule : Risk F → Timestamp → OrderIntent F → Result RuleResult
  unfolding cutoff_at
  intraday_cutoff_rule s now i =
      if product_beq i.product mis
      then cutoff_at s now i.symbol s.limits.mis_entry_cutoff_minutes
      else ok (passes none)

  -- `_cost_threshold`
  unfoldable pub cost_threshold_rule : Risk F → OrderIntent F → ℕ → Result RuleResult
  cost_threshold_rule s i qty = do
    mult ← contract_multiplier i.symbol
    p ← parse_symbol {F = F} i.symbol
    cost ←
        round_trip_cost_bps s.limits.fee_schedule p qty i.reference_price i.product
          s.limits.slippage_bps mult
    if fabs i.expected_edge_bps ≼ cost ⊗ s.limits.min_edge_multiple
        then ok fails
        else ok (passes none)

  unfoldable pub kelly_at : Risk F → OrderIntent F → ℕ → Option F → Result RuleResult
  kelly_at s i qty none = ok (passes none)
  kelly_at s i qty (some prob) =
      let f = kelly_fraction prob (or_else i.payoff_ratio (of_ℕ 1)) s.limits.kelly_loss_fraction in
      if f ≼ of_ℕ 0 then ok fails else (do
        let budget = equity_now s.portfolio ⊗ fmin f s.limits.max_kelly_fraction
        allowed ← qty_for_value s i.symbol budget i.reference_price
        ok (trimmed qty allowed))

  -- `_kelly_size`
  unfoldable pub kelly_size_rule : Risk F → OrderIntent F → ℕ → Result RuleResult
  unfolding kelly_at
  kelly_size_rule s i qty = kelly_at s i qty i.prob

  -- A cap with some room left under it: what the room buys
  unfoldable pub room_rule : Risk F → OrderIntent F → ℕ → F → Result RuleResult
  room_rule s i qty room =
      if room ≼ of_ℕ 0
      then ok fails
      else (do allowed ← qty_for_value s i.symbol room i.reference_price; ok (trimmed qty allowed))

  -- `_position_limit`
  unfoldable pub position_limit_rule : Risk F → OrderIntent F → ℕ → Result RuleResult
  unfolding value_of
  position_limit_rule s i qty = do
    current ←
        value_of i.symbol (to_ℕ (net_qty s.portfolio i.symbol (some i.product))) i.reference_price
    room_rule s i qty (s.limits.max_position_value ⊖ current)

  -- `_gross_exposure`
  unfoldable pub gross_exposure_rule : Risk F → OrderIntent F → ℕ → Result RuleResult
  gross_exposure_rule s i qty =
      room_rule s i qty (s.limits.max_gross_exposure ⊖ gross_exposure s.portfolio)
