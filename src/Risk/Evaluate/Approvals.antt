-- ===== src/Risk/Evaluate/Approvals.antt =====
-- What an approval of the risk agent guarantees.
use shiny_umbrella.Base.{
  ℕ, ◌%◌, ◌≤◌, ◌<◌, ◌≡◌, refl, sym, ap, ◌∙◌, inl, inr, Bool, true, false, Option, none, some, List,
  [], ◌∷◌, ◌++◌, Text, contains, nat_eq, list_eq, ok, ok_injective, >>=-eq-ok, if◌then◌else◌, ◌=ℕ◌,
  or_else, Bool-cases, arith,
}
use mathlib.Core.Path.{subst}
use shiny_umbrella.Float.Arith.{Arith}
use shiny_umbrella.Types.Intents.{OrderIntent, RiskApproval}
use shiny_umbrella.Clock.Dates.{Timestamp}
use shiny_umbrella.Symbols.Lots.{get}
use shiny_umbrella.Risk.State.{
  Risk, Rule, kill_switch, strategy_enabled, market_hours, instrument, daily_loss, intraday_cutoff,
  cost_threshold, kelly_size, position_limit, gross_exposure, size, RuleResult, fails, passes,
}
use shiny_umbrella.Risk.Rules.{is_exit, position_limit_rule, gross_exposure_rule}
use shiny_umbrella.Risk.Rules.Trim.{
  IsTrim, keeps, IsTrim-le, IsTrim-mod, Bought-IsTrim, room_rule-passes, position_limit_rule-passes,
  kelly_size_rule-IsTrim,
}
use shiny_umbrella.Risk.Rules.Keep.{
  MarketOk, market_hours_rule-passes, passes-Keeps, test-Keeps, market_hours_rule-Keeps,
  instrument_rule-passes, intraday_cutoff_rule-Keeps, cost_threshold_rule-Keeps,
}
use shiny_umbrella.Risk.Evaluate.{
  common_rules, entry_rules, Outcome, failed, left, approved, apply_rule, rules_for, follow,
  run_rules, reject_by, approve, verdict, evaluate,
}

pub test_false :
    (b : Bool) {o : Option ℕ} → ok (if b then fails else passes none) ≡ ok (passes o) → b ≡ false
test_false true h = cc
test_false false h = refl

module _ {F : Type 0} ⦃fl : Arith F⦄ (s : Risk F) (now : Timestamp) (i : OrderIntent F) where
  -- Every rule of the list passes in turn, the first on `qty`, and `q` is left at the end.
  abbrev pub Passed : List Rule → ℕ → ℕ → Type 0
  Passed [] qty q = qty ≡ q
  Passed (r ∷ rs) qty q =
      (o : Option ℕ) × (apply_rule s now i r qty ≡ ok (passes o)) × Passed rs (or_else o qty) q

  pub run_rules-Passed :
      (rs : List Rule) (qty : ℕ) {q : ℕ} → run_rules s now i rs qty ≡ ok (left q) → Passed rs qty q
  unfolding run_rules follow
  run_rules-Passed [] qty h = left_injective (ok_injective h)
    where
      left_injective : {a b : ℕ} → left a ≡ left b → a ≡ b
      left_injective e = ground arith
  run_rules-Passed (r ∷ rs) qty {q} h =
      let (res, e, k) = >>=-eq-ok (apply_rule s now i r qty) _ h in
      by res e k (λ n. run_rules-Passed rs n)
    where
      by :
          (res : RuleResult)
          → apply_rule s now i r qty ≡ ok res
          → follow s now i r qty (run_rules s now i rs) res ≡ ok (left q)
          → ((n : ℕ) → run_rules s now i rs n ≡ ok (left q) → Passed rs n q)
          → Passed (r ∷ rs) qty q
      by fails e k rec = cc
      by (passes none) e k rec = (none, e, rec qty k)
      by (passes (some n)) e k rec = (some n, e, rec n k)

  none-IsTrim : {qty : ℕ} {o : Option ℕ} → o ≡ none → IsTrim s i.symbol qty o
  none-IsTrim {qty} e = subst (IsTrim s i.symbol qty) (sym e) keeps

  -- A rule that passes leaves the quantity or trims it to whole lots.
  apply_rule-IsTrim :
      (r : Rule) (qty : ℕ) (o : Option ℕ)
      → apply_rule s now i r qty ≡ ok (passes o)
      → IsTrim s i.symbol qty o
  unfolding apply_rule position_limit_rule gross_exposure_rule
  apply_rule-IsTrim kill_switch qty o h = none-IsTrim (test-Keeps s.killed o h)
  apply_rule-IsTrim strategy_enabled qty o h =
      none-IsTrim (test-Keeps (contains i.strategy_id s.paused) o h)
  apply_rule-IsTrim market_hours qty o h = none-IsTrim (market_hours_rule-Keeps s i now o h)
  apply_rule-IsTrim instrument qty o h = none-IsTrim (instrument_rule-passes s i qty h).0
  apply_rule-IsTrim daily_loss qty o h = none-IsTrim (test-Keeps _ o h)
  apply_rule-IsTrim intraday_cutoff qty o h = none-IsTrim (intraday_cutoff_rule-Keeps s i now o h)
  apply_rule-IsTrim cost_threshold qty o h = none-IsTrim (cost_threshold_rule-Keeps s i qty o h)
  apply_rule-IsTrim kelly_size qty o h = kelly_size_rule-IsTrim s i qty h
  apply_rule-IsTrim position_limit qty o h =
      Bought-IsTrim s i qty (position_limit_rule-passes s i qty h).2
  apply_rule-IsTrim gross_exposure qty o h = Bought-IsTrim s i qty (room_rule-passes s i qty _ h).1
  apply_rule-IsTrim size qty o h = none-IsTrim (passes-Keeps o h)

  pub Passed-le : (rs : List Rule) (qty : ℕ) {q : ℕ} → Passed rs qty q → q ≤ qty
  Passed-le [] qty h = omega (arith, h)
  Passed-le (r ∷ rs) qty (o, e, p) =
      omega
        (arith, Passed-le rs (or_else o qty) p, IsTrim-le s i.symbol (apply_rule-IsTrim r qty o e))

  pub Passed-mod :
      (rs : List Rule) (qty lot q : ℕ)
      → get F s.lots i.symbol ≡ ok lot
      → qty % lot ≡ 0
      → Passed rs qty q
      → q % lot ≡ 0
  Passed-mod [] qty lot q g d h = subst (λ n. n % lot ≡ 0) h d
  Passed-mod (r ∷ rs) qty lot q g d (o, e, p) =
      Passed-mod rs (or_else o qty) lot q g
        (IsTrim-mod s i.symbol g d (apply_rule-IsTrim r qty o e)) p

  drop_none : (P : ℕ → Type 0) {qty : ℕ} {o : Option ℕ} → o ≡ none → P (or_else o qty) → P qty
  drop_none P {qty} e p = subst (λ o. P (or_else o qty)) e p

  -- What the rules that are run for every intent say when they pass
  pub record Common : Type 0 where
    pub not_killed : s.killed ≡ false
    pub not_paused : contains i.strategy_id s.paused ≡ false
    pub market : MarketOk s i now
    pub lot : ℕ
    pub sized : get F s.lots i.symbol ≡ ok lot
    pub whole : i.qty % lot ≡ 0

  pub Passed-Common :
      (rest : List Rule) (q : ℕ)
      → Passed (common_rules ++ rest) i.qty q
      → Common × Passed rest i.qty q
  unfolding apply_rule
  Passed-Common rest q (o₁, e₁, p₁) =
      let (o₂, e₂, p₂) =
        drop_none (λ n. Passed (strategy_enabled ∷ market_hours ∷ instrument ∷ rest) n q)
          (test-Keeps s.killed o₁ e₁) p₁ in
      let (o₃, e₃, p₃) =
        drop_none (λ n. Passed (market_hours ∷ instrument ∷ rest) n q)
          (test-Keeps (contains i.strategy_id s.paused) o₂ e₂) p₂ in
      let (o₄, e₄, p₄) =
        drop_none (λ n. Passed (instrument ∷ rest) n q) (market_hours_rule-Keeps s i now o₃ e₃)
          p₃ in
      let (n₄, lot, g, d) = instrument_rule-passes s i i.qty e₄ in
      (
        record {
          not_killed = test_false s.killed e₁;
          not_paused = test_false (contains i.strategy_id s.paused) e₂;
          market = market_hours_rule-passes s i now e₃;
          lot = lot;
          sized = g;
          whole = d;
        },
        drop_none (λ n. Passed rest n q) n₄ p₄,
      )

  abbrev pub rest_of : List Rule
  rest_of = if is_exit s i then [] else entry_rules

  rules_split :
      (b : Bool) (q : ℕ)
      → Passed (if b then common_rules else common_rules ++ entry_rules) i.qty q
      → Passed (common_rules ++ (if b then [] else entry_rules)) i.qty q
  rules_split true q p = p
  rules_split false q p = p

  verdict-approved :
      (token : Text) (o : Outcome) {a : RiskApproval F}
      → verdict s now i token o ≡ approved a
      → (q : ℕ) × (o ≡ left q) × (0 < q) × (approve s now i token q ≡ approved a)
  unfolding verdict reject_by
  verdict-approved token (failed r) h = cc
  verdict-approved token (left qty) {a} h = elim (Bool-cases (qty =ℕ 0)) [
    | inl none_ ↦ cc (rw none_ at h)
    | inr any_ ↦ (qty, refl, ground arith, rw any_ at h)
  ]

  -- An approval comes of a run of all the rules, which leaves the quantity approved.
  pub record Approval (token : Text) (a : RiskApproval F) : Type 0 where
    pub left_qty : ℕ
    pub common : Common
    pub passed : Passed rest_of i.qty left_qty
    pub positive : 0 < left_qty
    pub same : approve s now i token left_qty ≡ approved a

  pub evaluate-Approval :
      (token : Text) {a : RiskApproval F}
      → evaluate s now i token ≡ ok (approved a)
      → Approval token a
  unfolding evaluate rules_for
  evaluate-Approval token h =
      let (o, e, k) = >>=-eq-ok (run_rules s now i (rules_for s now i) i.qty) _ h in
      let (q, left_, positive, same) = verdict-approved token o (ok_injective k) in
      let (common, passed) = Passed-Common rest_of q (
        rules_split (is_exit s i) q
          (run_rules-Passed (rules_for s now i) i.qty (e ∙ ap ok left_))) in
      record { left_qty = q; common = common; passed = passed; positive = positive; same = same }
