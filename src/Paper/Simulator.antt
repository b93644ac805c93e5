-- ===== src/Paper/Simulator.antt =====
-- backtest/sim_broker.py: the paper broker configured for backtests.
use shiny_umbrella.Base.{
  ℕ, ◌=ℕ◌, ◌≡◌, refl, ap, ◌∙◌, Bool, true, false, Option, some, List, [], ◌∷◌, Text, Result,
  if◌then◌else◌, arith, or_else,
}
use shiny_umbrella.Float.Arith.{Arith, ◌⊕◌, ◌⊗◌, ◌⊘◌, of_ℕ, fmin, literal}
use shiny_umbrella.Types.Orders.{Order}
use shiny_umbrella.Costs.Fees.{FeeSchedule}
use shiny_umbrella.Paper.State.{Paper, PaperConfig, new_paper}
use shiny_umbrella.Paper.Steps.{Step, Run, here, next, notes, admits, changes, trades, marks}
use shiny_umbrella.Paper.Calls.Placement.{
  Quiet, Quiet-trans, Quiet-refl, place_order-Quiet, modify_order-Quiet, cancel_order-Quiet,
}
use shiny_umbrella.Paper.Sessions.{
  Call, places, modifies, cancels, ticks, bars, after, history, history-Run,
}

-- `cost_bps` of a slippage model: order, quantity, price and the bar's volume
abbrev pub SlippageModel : Type 0 → Type 0
SlippageModel F = Order F → ℕ → F → Option ℕ → F

pub record SimConfig (F : Type 0) : Type 0 where
  pub starting_cash : F
  pub slippage : SlippageModel F
  pub fee_schedule : FeeSchedule F
  pub max_participation : Option F
  pub futures_margin_pct : F
  pub lot_size_for : Option (Text → Result ℕ)
  pub multiplier_for : Text → Result F

-- `FixedSlippage`
abbrev pub fixed_slippage : {F : Type 0} → F → SlippageModel F
fixed_slippage bps order qty price volume = bps

-- `VolumeSlippage`: `sqrt` is `math.sqrt`; a volume of 0 counts as none.
module _ {F : Type 0} ⦃fl : Arith F⦄ where
  unfoldable pub volume_slippage : (F → F) → F → F → SlippageModel F
  volume_slippage sqrt base impact order qty price volume =
      if or_else volume 0 =ℕ 0
      then base ⊕ impact
      else base ⊕ impact ⊗ sqrt (fmin (of_ℕ qty ⊘ of_ℕ (or_else volume 0)) (of_ℕ 1))

  -- The configuration of `SimBroker.__init__`, with its `_slippage_bps`; the margin of short
  -- options keeps the paper broker's default.
  abbrev pub sim_config : SimConfig F → PaperConfig F
  sim_config sim = record {
    starting_cash = sim.starting_cash;
    slippage_bps = λ order qty px. sim.slippage order qty px.last px.volume;
    fee_schedule = sim.fee_schedule;
    futures_margin_pct = sim.futures_margin_pct;
    short_option_margin_pct = literal 15 2;
    require_trade_through = true;
    multiplier_for = some sim.multiplier_for;
    fill_at_placement = false;
    max_participation = sim.max_participation;
    lot_size_for = sim.lot_size_for;
    stored = false;
  }

module _ {F : Type 0} where
  -- Only ticks and bars bring prices.
  brings_price : Call F → Bool
  brings_price (ticks t) = true
  brings_price (bars b) = true
  brings_price _ = false

  -- No call of the list brings a price.
  unfoldable pub priceless : List (Call F) → Bool
  unfolding brings_price
  priceless [] = true
  priceless (c ∷ cs) = if brings_price c then false else priceless cs

module _ {F : Type 0} ⦃fl : Arith F⦄ where
  Step-cfg : {edits : Bool} {s t : Paper F} → Step edits s t → t.cfg ≡ s.cfg
  Step-cfg (notes s j e n) = refl
  Step-cfg (admits s o new z st) = refl
  Step-cfg (changes s o o' found w c) = refl
  Step-cfg (trades s o f found w t) = refl
  Step-cfg (marks s symbol price) = refl

  pub Run-cfg : {edits : Bool} {s t : Paper F} → Run edits s t → t.cfg ≡ s.cfg
  Run-cfg here = refl
  Run-cfg (next r step) = Step-cfg step ∙ Run-cfg r

  after-Quiet :
      (c : Call F) (s : Paper F)
      → s.cfg.fill_at_placement ≡ false
      → brings_price c ≡ false
      → Quiet s (after c s)
  unfolding after brings_price
  after-Quiet (places req now) s h p = place_order-Quiet req now s h
  after-Quiet (modifies id c now) s h p = modify_order-Quiet id c now s h
  after-Quiet (cancels id now) s h p = cancel_order-Quiet id now s
  after-Quiet (ticks t) s h p = absurd (ground arith)
  after-Quiet (bars b) s h p = absurd (ground arith)

  history-Quiet :
      (cs : List (Call F)) (s : Paper F)
      → s.cfg.fill_at_placement ≡ false
      → priceless cs ≡ true
      → Quiet s (history cs s)
  unfolding history priceless
  history-Quiet [] s h p = Quiet-refl s
  history-Quiet (c ∷ cs) s h p =
      let quiet : brings_price c ≡ false = ground arith in
      let rest : priceless cs ≡ true = ground arith in
      let first = after-Quiet c s h quiet in
      Quiet-trans first
        (history-Quiet cs (after c s) (ap (λ c. c.fill_at_placement) first.cfg_same ∙ h) rest)

  -- No look-ahead: whatever a simulated broker has been through, orders that are then placed,
  -- modified and cancelled fill nothing before the next tick or bar.
  pub no_fill_before_next_price :
      (sim : SimConfig F) (cs ds : List (Call F))
      → priceless ds ≡ true
      → let s = history cs (new_paper (sim_config sim)) in (history ds s).fills ≡ s.fills
  no_fill_before_next_price sim cs ds p =
      let start = new_paper (sim_config sim) in
      let kept = Run-cfg (history-Run cs start tt) in
      (history-Quiet ds (history cs start) (ap (λ c. c.fill_at_placement) kept) p).fills_same
