-- ===== src/Risk/Evaluate/Guarantees.antt =====
-- What an approval of the risk agent promises, for an exit and for an entry.
use shiny_umbrella.Base.{
  ℕ, ◌+◌, ◌*◌, ◌%◌, ◌≤◌, ◌<◌, min, to_ℕ, ◌≡◌, refl, sym, ap, ◌∙◌, Bool, true, false, ◌||◌, Option,
  some, [], ◌∷◌, Text, contains, nat_eq, list_eq, ok, ◌>>=◌, or_else, arith,
}
use mathlib.Core.Path.{subst}
use shiny_umbrella.Float.Arith.{Arith, ◌⊖◌, ◌≼◌, neg}
use shiny_umbrella.Types.Intents.{OrderIntent, RiskApproval}
use shiny_umbrella.Clock.Dates.{Timestamp, Date, second, date_of}
use shiny_umbrella.Symbols.Lots.{get}
use shiny_umbrella.Portfolio.{day_pnl}
use shiny_umbrella.Portfolio.Exposure.{net_qty, gross_exposure}
use shiny_umbrella.Risk.State.{Risk, gross_exposure as gross_cap, passes}
use shiny_umbrella.Risk.Rules.{
  is_exit, value_of, qty_for_value, daily_loss_limit, on_day, daily_loss_rule, position_limit_rule,
  gross_exposure_rule, market_hours_rule, instrument_rule, sized_order, order_value,
}
use shiny_umbrella.Risk.Rules.Trim.{Bought, room_rule-passes, position_limit_rule-passes}
use shiny_umbrella.Risk.Rules.Keep.{MarketOk}
use shiny_umbrella.Risk.Evaluate.{
  approved, reject_by, run_rules, rules_for, follow, common_rules, entry_rules, verdict, approve,
  apply_rule, evaluate,
}
use shiny_umbrella.Risk.Evaluate.Approvals.{
  Passed, Passed-le, Passed-mod, test_false, rest_of, Approval, evaluate-Approval,
}

approved_injective : {F : Type 0} {a b : RiskApproval F} → approved a ≡ approved b → a ≡ b
approved_injective h = cc h

or_false : (a b : Bool) → (a || b) ≡ false → (a ≡ false) × (b ≡ false)
or_false a b h = ground arith

module _ {F : Type 0} ⦃fl : Arith F⦄ (s : Risk F) (now : Timestamp) (i : OrderIntent F) where
  -- What every approval of an intent promises
  pub record Promised (token : Text) (a : RiskApproval F) : Type 0 where
    pub of_intent : a.intent ≡ i
    pub same_id : a.intent_id ≡ i.id
    pub same_token : a.token ≡ token
    pub made_now : a.ts ≡ now
    pub expires : a.expires_at ≡ now + s.limits.approval_ttl_seconds * second
    pub positive : 0 < a.approved_qty
    pub within : a.approved_qty ≤ i.qty
    pub lot : ℕ
    pub sized : get F s.lots i.symbol ≡ ok lot
    pub whole : a.approved_qty % lot ≡ 0
    pub not_killed : s.killed ≡ false
    pub not_paused : contains i.strategy_id s.paused ≡ false
    pub market : MarketOk s i now

  Approval-Promised :
      (token : Text) {a : RiskApproval F} → Approval s now i token a → Promised token a
  unfolding approve
  Approval-Promised token p = subst (Promised token) (approved_injective p.same) record {
    of_intent = refl;
    same_id = refl;
    same_token = refl;
    made_now = refl;
    expires = refl;
    positive = p.positive;
    within = Passed-le s now i (rest_of s now i) i.qty p.passed;
    lot = p.common.lot;
    sized = p.common.sized;
    whole =
        Passed-mod s now i (rest_of s now i) i.qty p.common.lot p.left_qty p.common.sized
          p.common.whole p.passed;
    not_killed = p.common.not_killed;
    not_paused = p.common.not_paused;
    market = p.common.market;
  }

  -- An approval carries the intent it was asked for, under its id, with the token it was given, a
  -- life from now to the end of its time, and a positive quantity of at most the one asked for, in
  -- whole lots of the symbol; the kill switch was off, the strategy was not paused, and the market
  -- was open for the intent.
  pub evaluate-Promised :
      (token : Text) {a : RiskApproval F}
      → evaluate s now i token ≡ ok (approved a)
      → Promised token a
  evaluate-Promised token h = Approval-Promised token (evaluate-Approval s now i token h)

  approve_qty :
      (token : Text) (q : ℕ) {a : RiskApproval F}
      → approve s now i token q ≡ approved a
      → q ≡ a.approved_qty
  unfolding approve
  approve_qty token q h = ap (λ a. a.approved_qty) (approved_injective h)

  Passed-all_in :
      {q : ℕ} → is_exit s i ≡ true → Passed s now i (rest_of s now i) i.qty q → i.qty ≡ q
  Passed-all_in exit p = rw exit at p

  common_unseen :
      (day : Option Date) (qty : ℕ)
      → run_rules (record s { halted_day = day }) now i common_rules qty
        ≡ run_rules s now i common_rules qty
  unfolding run_rules apply_rule market_hours_rule instrument_rule sized_order order_value is_exit
      follow
  common_unseen day qty = refl

  halt_unseen :
      (day : Option Date) (token : Text)
      → is_exit s i ≡ true
      → evaluate (record s { halted_day = day }) now i token ≡ evaluate s now i token
  unfolding evaluate rules_for is_exit verdict approve reject_by
  halt_unseen day token exit =
      rw exit (ap (λ r. r >>= λ o. ok (verdict s now i token o)) (common_unseen day i.qty))

  -- An intent that reduces a position is approved for all of its quantity, if it is approved at
  -- all, and the answer does not depend on whether entries are halted.
  pub exit_approved_in_full :
      (token : Text)
      → is_exit s i ≡ true
      → ((a : RiskApproval F) → evaluate s now i token ≡ ok (approved a) → a.approved_qty ≡ i.qty)
        × ((day : Option Date)
            → evaluate (record s { halted_day = day }) now i token ≡ evaluate s now i token)
  exit_approved_in_full token exit = (full, λ day. halt_unseen day token exit)
    where
      full :
          (a : RiskApproval F) → evaluate s now i token ≡ ok (approved a) → a.approved_qty ≡ i.qty
      full a h =
          let p = evaluate-Approval s now i token h in
          sym (Passed-all_in exit p.passed ∙ approve_qty token p.left_qty p.same)

  -- What the approval of an intent that opens or adds to a position promises besides
  pub record Entered (a : RiskApproval F) : Type 0 where
    pub not_halted : on_day s.halted_day (date_of now) ≡ false
    pub no_loss : (day_pnl s.portfolio ≼ neg (daily_loss_limit s)) ≡ false
    pub held : F
    pub held_value :
        value_of i.symbol (to_ℕ (net_qty s.portfolio i.symbol (some i.product))) i.reference_price
        ≡ ok held
    pub room : ℕ
    pub room_buys :
        qty_for_value s i.symbol (s.limits.max_position_value ⊖ held) i.reference_price ≡ ok room
    pub in_room : a.approved_qty ≤ room
    pub gross_room : ℕ
    pub gross_buys :
        qty_for_value s i.symbol
          (s.limits.max_gross_exposure ⊖ gross_exposure s.portfolio)
          i.reference_price
        ≡ ok gross_room
    pub in_gross_room : a.approved_qty ≤ gross_room

  Bought-le :
      (qty : ℕ) {money : F} {o : Option ℕ}
      → (b : Bought s i qty money o) → or_else o qty ≤ b.allowed
  Bought-le qty b =
      let least : min qty b.allowed ≤ b.allowed = omega arith in
      subst (λ o. or_else o qty ≤ b.allowed) (sym b.leaves) least

  daily_loss_open :
      {o : Option ℕ}
      → ok (daily_loss_rule s now) ≡ ok (passes o)
      → (on_day s.halted_day (date_of now) ≡ false)
        × ((day_pnl s.portfolio ≼ neg (daily_loss_limit s)) ≡ false)
  daily_loss_open h =
      or_false (on_day s.halted_day (date_of now)) _
        (test_false (on_day s.halted_day (date_of now) || _) h)

  Passed-Entered :
      {a : RiskApproval F} (q : ℕ)
      → Passed s now i entry_rules i.qty q
      → q ≡ a.approved_qty
      → Entered a
  unfolding apply_rule position_limit_rule gross_exposure_rule
  Passed-Entered {a} q (o₁, e₁, (o₂, e₂, (o₃, e₃, (o₄, e₄, (o₅, e₅, (o₆, e₆, last)))))) same =
      let n₅ = or_else o₄ (or_else o₃ (or_else o₂ (or_else o₁ i.qty))) in
      let n₆ = or_else o₅ n₅ in
      let (held, held_value, b) = position_limit_rule-passes s i n₅ e₅ in
      let g = (room_rule-passes s i n₆ _ e₆).1 in
      let n₆_fits : n₆ ≤ b.allowed = Bought-le n₅ b in
      let q_fits : or_else o₆ n₆ ≤ g.allowed = Bought-le n₆ g in
      let q_less : q ≤ n₆ = Passed-le s now i (gross_cap ∷ []) n₆ (o₆, e₆, last) in
      record {
        not_halted = (daily_loss_open e₁).0;
        no_loss = (daily_loss_open e₁).1;
        held = held;
        held_value = held_value;
        room = b.allowed;
        room_buys = b.buys;
        in_room = omega (arith, q_less, n₆_fits, same);
        gross_room = g.allowed;
        gross_buys = g.buys;
        in_gross_room = omega (arith, last, q_fits, same);
      }

  Passed-entering :
      {q : ℕ}
      → is_exit s i ≡ false
      → Passed s now i (rest_of s now i) i.qty q
      → Passed s now i entry_rules i.qty q
  Passed-entering entry p = rw entry at p

  -- An intent that opens or adds to a position is approved only on a day that is not halted and
  -- whose loss is within the limit, and for no more than what the money left under the cap on the
  -- position and what the money left under the cap on the whole exposure buy in whole lots.
  pub evaluate-Entered :
      (token : Text) {a : RiskApproval F}
      → is_exit s i ≡ false
      → evaluate s now i token ≡ ok (approved a)
      → Entered a
  evaluate-Entered token entry h =
      let p = evaluate-Approval s now i token h in
      Passed-Entered p.left_qty (Passed-entering entry p.passed)
        (approve_qty token p.left_qty p.same)
