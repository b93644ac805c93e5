-- ===== src/Risk/Evaluate.antt =====
-- `evaluate` of the risk agent (trading/agents/risk.py): every rule in order, on the quantity that
-- the earlier ones leave.
pub mod Approvals
pub mod Guarantees
use shiny_umbrella.Base.{
  ℕ, ◌+◌, ◌*◌, Bool, true, false, Option, none, some, List, [], ◌∷◌, ◌++◌, Text, Result, ok, err,
  ◌>>=◌, if◌then◌else◌, or_else, ◌=ℕ◌,
}
use shiny_umbrella.Float.Arith.{Arith}
use shiny_umbrella.Types.Intents.{OrderIntent, RiskApproval}
use shiny_umbrella.Types.Messages.{RiskRejection}
use shiny_umbrella.Clock.Dates.{Timestamp, second}
use shiny_umbrella.Risk.State.{
  Risk, Rule, kill_switch, strategy_enabled, market_hours, instrument, daily_loss, intraday_cutoff,
  cost_threshold, kelly_size, position_limit, gross_exposure, size, rule_name, RuleResult, fails,
  passes,
}
use shiny_umbrella.Risk.Rules.{
  is_exit, kill_switch_rule, strategy_enabled_rule, market_hours_rule, instrument_rule,
  daily_loss_rule, intraday_cutoff_rule, cost_threshold_rule, kelly_size_rule, position_limit_rule,
  gross_exposure_rule,
}

abbrev pub common_rules : List Rule
common_rules = kill_switch ∷ strategy_enabled ∷ market_hours ∷ instrument ∷ []

abbrev pub entry_rules : List Rule
entry_rules =
    daily_loss ∷ intraday_cutoff ∷ cost_threshold ∷ kelly_size ∷ position_limit ∷ gross_exposure
    ∷ []

-- What a run of rules comes to: the first rule that fails, or the quantity that is left.
pub data Outcome : Type 0 where
  failed : Rule → Outcome
  left : ℕ → Outcome

-- Exactly one of an approval and a rejection
pub data Verdict (F : Type 0) : Type 0 where
  approved : RiskApproval F → Verdict F
  rejected_by : RiskRejection → Verdict F

module _ {F : Type 0} ⦃fl : Arith F⦄ (s : Risk F) (now : Timestamp) (i : OrderIntent F) where
  -- A rule of the agent on the quantity so far
  unfoldable pub apply_rule : Rule → ℕ → Result RuleResult
  apply_rule kill_switch qty = ok (kill_switch_rule s)
  apply_rule strategy_enabled qty = ok (strategy_enabled_rule s i)
  apply_rule market_hours qty = market_hours_rule s now i
  apply_rule instrument qty = instrument_rule s i qty
  apply_rule daily_loss qty = ok (daily_loss_rule s now)
  apply_rule intraday_cutoff qty = intraday_cutoff_rule s now i
  apply_rule cost_threshold qty = cost_threshold_rule s i qty
  apply_rule kelly_size qty = kelly_size_rule s i qty
  apply_rule position_limit qty = position_limit_rule s i qty
  apply_rule gross_exposure qty = gross_exposure_rule s i qty
  apply_rule size qty = ok (passes none)

  -- `_rules`
  unfoldable pub rules_for : List Rule
  rules_for = if is_exit s i then common_rules else common_rules ++ entry_rules

  -- What follows a rule: the end, or the rules that are left on the quantity that it leaves.
  unfoldable pub follow : Rule → ℕ → (ℕ → Result Outcome) → RuleResult → Result Outcome
  follow r qty rest fails = ok (failed r)
  follow r qty rest (passes none) = rest qty
  follow r qty rest (passes (some q)) = rest q

  -- The loop of `evaluate`
  unfoldable pub run_rules : List Rule → ℕ → Result Outcome
  unfolding follow
  run_rules [] qty = ok (left qty)
  run_rules (r ∷ rs) qty = apply_rule r qty >>= follow r qty (run_rules rs)

  unfoldable pub reject_by : Rule → Verdict F
  reject_by r = rejected_by (record { intent_id = i.id; ts = now; rule = rule_name r })

  unfoldable pub approve : Text → ℕ → Verdict F
  approve token qty = approved (record {
    token = token;
    intent_id = i.id;
    intent = i;
    ts = now;
    expires_at = now + s.limits.approval_ttl_seconds * second;
    approved_qty = qty;
  })

  unfoldable pub verdict : Text → Outcome → Verdict F
  unfolding reject_by approve
  verdict token (failed r) = reject_by r
  verdict token (left qty) = if qty =ℕ 0 then reject_by size else approve token qty

  -- `evaluate`, at the clock's time and with a fresh token
  unfoldable pub evaluate : Text → Result (Verdict F)
  unfolding run_rules rules_for verdict
  evaluate token = do outcome ← run_rules rules_for i.qty; ok (verdict token outcome)
