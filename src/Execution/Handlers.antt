-- ===== src/Execution/Handlers.antt =====
-- The handlers of the execution agent behind the guard of every agent (trading/agents/base.py), and
-- what may happen to it: messages, reports and timers in any order.
use shiny_umbrella.Base.{
  ℕ, ◌+◌, true, false, List, [], ◌∷◌, ◌++◌, Text, codes, lookup, insert, nat_eq, list_eq, ◌==◌,
  Result, ok, err, ltb, if◌then◌else◌, or_else, length, map,
}
use shiny_umbrella.Base.Actions.{Act, pure, modify, ◌>>◌}
use shiny_umbrella.Float.Arith.{Arith}
use shiny_umbrella.Types.Intents.{OrderIntent, RiskApproval}
use shiny_umbrella.Types.Market.{Tick, Bar}
use shiny_umbrella.Types.Messages.{ControlCommand, error}
use shiny_umbrella.Types.Orders.{Order, Fill}
use shiny_umbrella.Clock.Dates.{Timestamp}
use shiny_umbrella.Symbols.Text.{upper}
use shiny_umbrella.Execution.State.{Tracked, Router, alert, Exec}
use shiny_umbrella.Execution.Placing.{on_approval}
use shiny_umbrella.Execution.Updates.{on_order_update, on_fill_update}
use shiny_umbrella.Execution.Manage.{manage, cancel_all, reconcile}

-- `command.upper()`, as far as the agent tells commands apart
pub data Control : Type 0 where
  kill resume flatten other : Control

unfoldable pub control_of : Text → Control
control_of c =
    if upper c == codes "KILL"
    then kill
    else if upper c == codes "RESUME"
    then resume
    else if upper c == codes "FLATTEN"
    then flatten
    else other

-- What may happen: a message of the bus, an update of the broker's stream, the timer, a
-- reconciliation, a change at the broker, or a change that the broker makes to the orders that it
-- handed out, where it shares them
pub data Event (F B : Type 0) : Type 0 where
  intent : OrderIntent F → Event F B
  approval : RiskApproval F → Event F B
  tick : Tick F → Event F B
  bar : Bar F → Event F B
  command : ControlCommand → Event F B
  order_report : Tracked F → Event F B
  fill_report : Fill F → Event F B
  timer : Event F B
  reconnect : Event F B
  broker_moves : B → Event F B
  shared_orders : (Order F → Order F) → Event F B

abbrev drop_first : List ℕ → List ℕ
drop_first [] = []
drop_first (v ∷ vs) = vs

abbrev recent : ℕ → List ℕ → List ℕ
recent n vols = if ltb n (length vols) then drop_first vols else vols

abbrev pub touch : {F : Type 0} → (Order F → Order F) → Tracked F → Tracked F
touch f t = record t { order = f t.order }

module _ {F B : Type 0} where
  -- `_on_intent`, `_on_tick` and `_on_bar`
  abbrev pub on_intent : OrderIntent F → Exec F B → Exec F B
  on_intent i s = record s { intents = insert i.id i s.intents }

  abbrev pub on_tick : Tick F → Exec F B → Exec F B
  on_tick t s = record s { quotes = insert t.symbol t s.quotes }

  abbrev pub on_bar : Bar F → Exec F B → Exec F B
  on_bar b s = record s {
    volume =
        insert b.symbol
          (recent s.cfg.volume_lookback_bars
            (or_else (lookup b.symbol s.volume) [] ++ b.volume ∷ []))
          s.volume;
  }

  -- `Agent._guard`: a handler that raises is counted and alerted.
  abbrev pub settle : Result (Unit {0}) → Exec F B → Exec F B
  settle (ok x) s = s
  settle (err x) s = record s { errors = s.errors + 1; published = alert error ∷ s.published }

  abbrev pub guarded : Act (Exec F B) (Unit {0}) → Exec F B → Exec F B
  guarded m s = settle (m s).0 (m s).1

  -- The state after a call that nothing guards
  abbrev pub left_by : Act (Exec F B) (Unit {0}) → Exec F B → Exec F B
  left_by m s = (m s).1

  abbrev pub touched : (Order F → Order F) → Exec F B → Exec F B
  touched f s = record s {
    orders_seen = map (λ e. (e.0, touch f e.1)) s.orders_seen;
    working = map (λ e. (e.0, record (e.1) { tracked = touch f e.1.tracked })) s.working;
  }

module _ {F B : Type 0} ⦃fl : Arith F⦄ (router : Router F B) (tag_of : ℕ → Text)
    (now : Timestamp) where
  unfoldable pub control : Control → Act (Exec F B) (Unit {0})
  control kill = modify (λ s. record s { halted = true }) >> cancel_all router tag_of now
  control resume = modify λ s. record s { halted = false }
  control flatten = cancel_all router tag_of now
  control other = pure tt

  unfoldable pub handle : Event F B → Exec F B → Exec F B
  unfolding control
  handle (intent i) s = on_intent i s
  handle (approval a) s = guarded (on_approval router tag_of now a) s
  handle (tick t) s = on_tick t s
  handle (bar b) s = on_bar b s
  handle (command c) s = guarded (control (control_of c.command)) s
  handle (order_report t) s = left_by (on_order_update router tag_of now t) s
  handle (fill_report f) s = left_by (on_fill_update router tag_of now f) s
  handle timer s = left_by (manage router tag_of now) s
  handle reconnect s = left_by (reconcile router) s
  handle (broker_moves b) s = record s { broker = b }
  handle (shared_orders f) s = touched f s

module _ {F B : Type 0} ⦃fl : Arith F⦄ (router : Router F B) (tag_of : ℕ → Text) where
  -- A history: each event at its time
  unfoldable pub handle_all : List (Timestamp × Event F B) → Exec F B → Exec F B
  unfolding handle
  handle_all [] s = s
  handle_all (e ∷ es) s = handle_all es (handle router tag_of e.0 e.1 s)
