-- ===== src/Risk/State.antt =====
-- The limits and the state of the risk agent (trading/agents/risk.py). The texts of details and of
-- halts are left out.
use shiny_umbrella.Base.{ℕ, Bool, ◌&&◌, if◌then◌else◌, Option, List, Text, codes, Dict}
use shiny_umbrella.Float.Arith.{Arith, ◌⊖◌, ◌⊗◌, ◌⊘◌, ◌≺◌, of_ℕ}
use shiny_umbrella.Types.Messages.{AlertLevel, RiskRejection}
use shiny_umbrella.Types.Intents.{RiskApproval}
use shiny_umbrella.Clock.Dates.{Date}
use shiny_umbrella.Clock.Calendar.{MarketCalendar}
use shiny_umbrella.Symbols.Lots.{LotSizes}
use shiny_umbrella.Costs.Fees.{FeeSchedule}
use shiny_umbrella.Portfolio.{Portfolio}

pub record RiskLimits (F : Type 0) : Type 0 where
  pub max_position_value : F
  pub max_gross_exposure : F
  pub max_daily_loss : F
  pub max_daily_loss_fraction : Option F
  pub max_kelly_fraction : F
  pub kelly_loss_fraction : F
  pub min_edge_multiple : F
  pub slippage_bps : F
  pub max_order_value : F
  pub require_market_open : Bool
  pub mis_entry_cutoff_minutes : Option ℕ
  pub allow_exits_when_closed : Bool
  pub approval_ttl_seconds : ℕ
  pub fee_schedule : FeeSchedule F

-- The rules; `size` is the name under which an intent trimmed to nothing is rejected.
pub data Rule : Type 0 where
  kill_switch strategy_enabled market_hours instrument daily_loss intraday_cutoff : Rule
  cost_threshold kelly_size position_limit gross_exposure size : Rule

abbrev pub rule_name : Rule → Text
rule_name kill_switch = codes "kill_switch"
rule_name strategy_enabled = codes "strategy_enabled"
rule_name market_hours = codes "market_hours"
rule_name instrument = codes "instrument"
rule_name daily_loss = codes "daily_loss"
rule_name intraday_cutoff = codes "intraday_cutoff"
rule_name cost_threshold = codes "cost_threshold"
rule_name kelly_size = codes "kelly_size"
rule_name position_limit = codes "position_limit"
rule_name gross_exposure = codes "gross_exposure"
rule_name size = codes "size"

-- `RuleResult`: `fails`, or passes with the trimmed quantity where the rule reduces size.
pub data RuleResult : Type 0 where
  fails : RuleResult
  passes : Option ℕ → RuleResult

-- What the agent puts on the bus
pub data Published (F : Type 0) : Type 0 where
  approval : RiskApproval F → Published F
  rejection : RiskRejection → Published F
  alert : AlertLevel → Published F

pub record Risk (F : Type 0) : Type 0 where
  pub portfolio : Portfolio F
  pub calendar : MarketCalendar
  pub limits : RiskLimits F
  pub lots : LotSizes
  pub killed : Bool
  pub kill_reason : Text
  pub halted_day : Option Date
  pub paused : List Text
  pub approved_count : ℕ
  pub rejected_count : ℕ
  pub rejections : Dict Text ℕ
  pub errors : ℕ
  pub published : List (Published F)

module _ {F : Type 0} ⦃fl : Arith F⦄ where
  -- The test of `kelly_fraction` for arguments that it has an answer for
  unfoldable pub bettable : F → F → F → Bool
  bettable prob payoff loss =
      (of_ℕ 0 ≺ prob) && (prob ≺ of_ℕ 1) && (of_ℕ 0 ≺ payoff) && (of_ℕ 0 ≺ loss)

  -- `kelly_fraction`
  unfoldable pub kelly_fraction : F → F → F → F
  unfolding bettable
  kelly_fraction prob payoff loss =
      if bettable prob payoff loss then prob ⊘ loss ⊖ (of_ℕ 1 ⊖ prob) ⊘ (payoff ⊗ loss) else of_ℕ 0
