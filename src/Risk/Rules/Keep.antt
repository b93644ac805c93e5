-- ===== src/Risk/Rules/Keep.antt =====
-- The rules of the risk agent that only pass or fail, and what a pass of them says.
use shiny_umbrella.Base.{
  ℕ, ◌*◌, ◌%◌, ◌≡◌, refl, ◌⊎◌, inl, inr, Bool, true, false, not, ◌&&◌, ◌||◌, Option, none, some,
  Result, ok, err, Error, missing_lot_size, symbol_error, unknown_symbol, unknown_order,
  value_error, type_error, assertion_error, zero_division, runtime_error, broker_error, key_error,
  overflow_error, ◌>>=◌, >>=-eq-ok, if◌then◌else◌, if_either, ◌=ℕ◌, leb, ◌-◌, Bool-cases, arith,
}
use shiny_umbrella.Float.Arith.{Arith, ◌≼◌, ◌≺◌, ◌⊗◌, fabs}
use shiny_umbrella.Types.Enums.{mis, product_beq}
use shiny_umbrella.Types.Intents.{OrderIntent}
use shiny_umbrella.Clock.Dates.{Timestamp, date_of, second}
use shiny_umbrella.Clock.Calendar.{is_open, next_open, session_bounds}
use shiny_umbrella.Symbols.Parse.{ParsedSymbol, parse_symbol}
use shiny_umbrella.Symbols.Make.{contract_multiplier}
use shiny_umbrella.Symbols.Lots.{get}
use shiny_umbrella.Costs.Fees.{round_trip_cost_bps}
use shiny_umbrella.Risk.State.{Risk, RuleResult, fails, passes}
use shiny_umbrella.Risk.Rules.{
  is_exit, market_hours_rule, bad_product, order_value, value_of, sized_order, instrument_rule,
  before_cutoff, cutoff_at, intraday_cutoff_rule, cost_threshold_rule,
}

-- A result that leaves the quantity as it is, if it passes
abbrev pub Keeps : Result RuleResult → Type 0
Keeps r = (o : Option ℕ) → r ≡ ok (passes o) → o ≡ none

pub passes-Keeps : Keeps (ok (passes none))
passes-Keeps o h = ground arith

pub fails-Keeps : Keeps (ok fails)
fails-Keeps o h = cc

pub test-Keeps : (b : Bool) → Keeps (ok (if b then fails else passes none))
test-Keeps true = fails-Keeps
test-Keeps false = passes-Keeps

Keeps-bind :
    {A : Type 0} (m : Result A) (f : A → Result RuleResult)
    → ((a : A) → Keeps (f a))
    → Keeps (m >>= f)
Keeps-bind (ok a) f h = h a
Keeps-bind (err x) f h = λ o e. cc

module _ {F : Type 0} ⦃fl : Arith F⦄ (s : Risk F) (i : OrderIntent F) where
  pub market_hours_rule-Keeps : (now : Timestamp) → Keeps (market_hours_rule s now i)
  unfolding market_hours_rule
  market_hours_rule-Keeps now = if_either Keeps (not s.limits.require_market_open) passes-Keeps (
      Keeps-bind (parse_symbol {F = F} i.symbol) _ λ p.
        Keeps-bind (is_open s.calendar p.exchange now) _ λ open_.
          if_either Keeps (open_ || (is_exit s i && s.limits.allow_exits_when_closed)) passes-Keeps
            (Keeps-bind (next_open s.calendar p.exchange now) _ λ _. fails-Keeps))

  -- The market is open for the intent: hours are not enforced, its exchange is open, or it is an
  -- exit and exits are allowed out of hours.
  abbrev pub MarketOk : Timestamp → Type 0
  MarketOk now =
      (s.limits.require_market_open ≡ false)
      ⊎ ((p : ParsedSymbol F) × (parse_symbol i.symbol ≡ ok p)
          × ((is_open s.calendar p.exchange now ≡ ok true)
              ⊎ ((is_exit s i && s.limits.allow_exits_when_closed) ≡ true)))

  pub market_hours_rule-passes :
      (now : Timestamp) {o : Option ℕ} → market_hours_rule s now i ≡ ok (passes o) → MarketOk now
  unfolding market_hours_rule is_exit
  market_hours_rule-passes now {o} h = elim (Bool-cases s.limits.require_market_open) [
    | inr free ↦ inl free
    | inl enforced ↦
        let (p, e, k) = >>=-eq-ok (parse_symbol {F = F} i.symbol) _ (rw enforced at h) in
        let (open_, e', k') = >>=-eq-ok (is_open s.calendar p.exchange now) _ k in
        let exempt = is_exit s i && s.limits.allow_exits_when_closed in
        inr (p, e, by p open_ exempt e' k')
  ]
    where
      by :
          (p : ParsedSymbol F) (open_ exempt : Bool)
          → is_open s.calendar p.exchange now ≡ ok open_
          → (if open_ || exempt
              then ok (passes none)
              else (next_open s.calendar p.exchange now >>= λ _. ok fails))
            ≡ ok (passes o)
          → (is_open s.calendar p.exchange now ≡ ok true) ⊎ (exempt ≡ true)
      by p true exempt e k = inl e
      by p false true e k = inr refl
      by p false false e k =
          let (t, e', k') = >>=-eq-ok (next_open s.calendar p.exchange now) _ k in cc

  order_value-Keeps : (qty : ℕ) → Keeps (order_value s i qty)
  unfolding order_value
  order_value-Keeps qty =
      Keeps-bind (value_of i.symbol qty i.reference_price) _
        λ value. if_either Keeps (s.limits.max_order_value ≺ value) fails-Keeps passes-Keeps

  -- An order that passes has a quantity of whole lots, if the lot is known.
  sized_order-passes :
      (qty lot : ℕ) {o : Option ℕ}
      → sized_order s i qty (ok lot) ≡ ok (passes o)
      → (o ≡ none) × (qty % lot ≡ 0)
  unfolding sized_order
  sized_order-passes qty lot {o} h = elim (Bool-cases (lot =ℕ 0)) [
    | inl zero_ ↦ cc (rw zero_ at h)
    | inr some_ ↦
        let h' : (if qty % lot =ℕ 0 then order_value s i qty else ok fails) ≡ ok (passes o) =
          rw some_ at h in
        elim (Bool-cases (qty % lot =ℕ 0)) [
          | inl whole ↦ (order_value-Keeps qty o (rw whole at h'), ground arith)
          | inr odd ↦ cc (rw odd at h')
        ]
  ]

  unsized_order-fails :
      (qty : ℕ) (x : Error) (o : Option ℕ) → sized_order s i qty (err x) ≡ ok (passes o) → ⊥
  unfolding sized_order
  unsized_order-fails qty missing_lot_size o h = cc
  unsized_order-fails qty symbol_error o h = cc
  unsized_order-fails qty unknown_symbol o h = cc
  unsized_order-fails qty unknown_order o h = cc
  unsized_order-fails qty value_error o h = cc
  unsized_order-fails qty type_error o h = cc
  unsized_order-fails qty assertion_error o h = cc
  unsized_order-fails qty zero_division o h = cc
  unsized_order-fails qty runtime_error o h = cc
  unsized_order-fails qty broker_error o h = cc
  unsized_order-fails qty key_error o h = cc
  unsized_order-fails qty overflow_error o h = cc

  -- So does an order that passes the rule on instruments.
  pub instrument_rule-passes :
      (qty : ℕ) {o : Option ℕ}
      → instrument_rule s i qty ≡ ok (passes o)
      → (o ≡ none) × (lot : ℕ) × (get F s.lots i.symbol ≡ ok lot) × (qty % lot ≡ 0)
  unfolding instrument_rule
  instrument_rule-passes qty {o} h =
      let (p, e, k) = >>=-eq-ok (parse_symbol {F = F} i.symbol) _ h in
      elim (Bool-cases (bad_product p.kind i.product)) [
        | inl bad ↦ cc (rw bad at k)
        | inr good ↦ by (get F s.lots i.symbol) refl (rw good at k)
      ]
    where
      by :
          (r : Result ℕ)
          → get F s.lots i.symbol ≡ r
          → sized_order s i qty r ≡ ok (passes o)
          → (o ≡ none) × (lot : ℕ) × (get F s.lots i.symbol ≡ ok lot) × (qty % lot ≡ 0)
      by (ok lot) g k = let (n, d) = sized_order-passes qty lot k in (n, lot, g, d)
      by (err x) g k = absurd (unsized_order-fails qty x o k)

  cutoff_at-Keeps :
      (now : Timestamp) (minutes : Option ℕ) → Keeps (cutoff_at s now i.symbol minutes)
  unfolding cutoff_at before_cutoff
  cutoff_at-Keeps now none = passes-Keeps
  cutoff_at-Keeps now (some minutes) =
      Keeps-bind (parse_symbol {F = F} i.symbol) _
        λ p. Keeps-bind (session_bounds s.calendar p.exchange (date_of now)) _ λ b. by b
    where
      by : (b : Option (Timestamp × Timestamp)) → Keeps (ok (before_cutoff minutes now b))
      by none = passes-Keeps
      by (some (o, c)) = test-Keeps (leb (c - minutes * 60 * second) now)

  pub intraday_cutoff_rule-Keeps : (now : Timestamp) → Keeps (intraday_cutoff_rule s now i)
  unfolding intraday_cutoff_rule
  intraday_cutoff_rule-Keeps now =
      if_either Keeps (product_beq i.product mis)
        (cutoff_at-Keeps now s.limits.mis_entry_cutoff_minutes) passes-Keeps

  pub cost_threshold_rule-Keeps : (qty : ℕ) → Keeps (cost_threshold_rule s i qty)
  unfolding cost_threshold_rule
  cost_threshold_rule-Keeps qty = Keeps-bind (contract_multiplier {F = F} i.symbol) _ λ mult.
      Keeps-bind (parse_symbol {F = F} i.symbol) _ λ p.
        Keeps-bind
          (round_trip_cost_bps s.limits.fee_schedule p qty i.reference_price i.product
            s.limits.slippage_bps mult)
          _
          λ cost.
            if_either Keeps (fabs i.expected_edge_bps ≼ cost ⊗ s.limits.min_edge_multiple)
              fails-Keeps passes-Keeps
