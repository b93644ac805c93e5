-- ===== src/Risk/Agent.antt =====
-- The handlers of the risk agent (trading/agents/risk.py) behind the guard of every agent
-- (trading/agents/base.py), and the messages that reach them.
pub mod Halts
pub mod Counts
use shiny_umbrella.Base.{
  ℕ, ◌+◌, Bool, true, false, not, ◌||◌, Option, none, some, List, [], ◌∷◌, ◌++◌, Text, codes,
  contains, lookup, insert, nat_eq, list_eq, ◌==◌, Result, ok, err, if◌then◌else◌, or_else,
}
use mathlib.Core.Bool.{◌&&◌}
use shiny_umbrella.Float.Arith.{Arith, ◌≼◌, neg}
use shiny_umbrella.Types.Intents.{OrderIntent, RiskApproval}
use shiny_umbrella.Types.Orders.{Fill}
use shiny_umbrella.Types.Messages.{RiskRejection, ControlCommand, AlertLevel, warn, error, critical}
use shiny_umbrella.Clock.Dates.{Date, Timestamp, date_of}
use shiny_umbrella.Symbols.Text.{upper}
use shiny_umbrella.Portfolio.{Portfolio, DaySnapshot, day_pnl}
use shiny_umbrella.Risk.State.{Risk, Published, approval, rejection, alert}
use shiny_umbrella.Risk.Rules.{daily_loss_limit, on_day}
use shiny_umbrella.Risk.Evaluate.{Verdict, approved, rejected_by, evaluate}

-- `command.upper()`, as far as the agent tells commands apart
pub data Control : Type 0 where
  kill resume pause unpause other : Control

unfoldable pub control_of : Text → Control
control_of c =
    if upper c == codes "KILL"
    then kill
    else if upper c == codes "RESUME"
    then resume
    else if upper c == codes "PAUSE"
    then pause
    else if upper c == codes "UNPAUSE"
    then unpause
    else other

-- A set of strategies as a list: adding and discarding
unfoldable pub add_paused : Text → List Text → List Text
add_paused sid paused = if contains sid paused then paused else paused ++ sid ∷ []

unfoldable pub discard : Text → List Text → List Text
discard sid [] = []
discard sid (p ∷ ps) = let rest = discard sid ps in if p == sid then rest else p ∷ rest

pub kill_text : Text → Text
kill_text [] = codes "kill switch engaged"
kill_text (c ∷ cs) = c ∷ cs

module _ {F : Type 0} where
  -- `Agent.publish` and `Agent.alert`
  abbrev pub publish : Published F → Risk F → Risk F
  publish m s = record s { published = s.published ++ m ∷ [] }

  -- `Agent._guard`, for a handler that raises: the error is counted and alerted.
  unfoldable pub failed_handling : Risk F → Risk F
  failed_handling s = publish (alert error) (record s { errors = s.errors + 1 })

  unfoldable pub control : Control → Text → Risk F → Risk F
  unfolding kill_text
  control kill reason s =
      publish (alert critical) (record s { killed = true; kill_reason = kill_text reason })
  control resume reason s = publish (alert warn) (record s { killed = false; kill_reason = [] })
  control pause [] s = s
  control pause (c ∷ cs) s = record s { paused = add_paused (c ∷ cs) s.paused }
  control unpause reason s = record s { paused = discard reason s.paused }
  control other reason s = s

  -- `_on_control`
  unfoldable pub on_control : ControlCommand → Risk F → Risk F
  on_control cmd s = control (control_of cmd.command) cmd.reason s

  abbrev pub loss_day : Option (DaySnapshot F) → Fill F → Date
  loss_day none f = date_of f.ts
  loss_day (some d) f = d.day

  -- The counting of a rejection, and its publication
  unfoldable pub reject : RiskRejection → Risk F → Risk F
  reject r s = publish (rejection r) (record s {
    rejected_count = s.rejected_count + 1;
    rejections = insert r.rule (or_else (lookup r.rule s.rejections) 0 + 1) s.rejections;
  })

  -- `_on_intent`, once the intent is evaluated, behind the guard
  unfoldable pub answer : Result (Verdict F) → Risk F → Risk F
  answer (err x) s = failed_handling s
  answer (ok (rejected_by r)) s = reject r s
  answer (ok (approved a)) s =
      publish (approval a) (record s { approved_count = s.approved_count + 1 })

module _ {F : Type 0} ⦃fl : Arith F⦄ where
  -- `_on_fill`
  unfoldable pub on_fill : Fill F → Risk F → Risk F
  on_fill f s =
      let day = loss_day s.portfolio.day f in
      if on_day s.halted_day day
      then s
      else if day_pnl s.portfolio ≼ neg (daily_loss_limit s)
      then publish (alert critical) (record s { halted_day = some day })
      else s

  -- `_on_intent`
  unfoldable pub on_intent : OrderIntent F → Timestamp → Text → Risk F → Risk F
  on_intent i now token s = answer (evaluate s now i token) s

-- What may happen to the agent: a message, or a change of the portfolio that others make
pub data Event (F : Type 0) : Type 0 where
  intent : OrderIntent F → Timestamp → Text → Event F
  command : ControlCommand → Event F
  fill : Fill F → Event F
  moved : Portfolio F → Event F

module _ {F : Type 0} ⦃fl : Arith F⦄ where
  unfoldable pub handle : Event F → Risk F → Risk F
  unfolding on_intent on_control on_fill
  handle (intent i now token) s = on_intent i now token s
  handle (command c) s = on_control c s
  handle (fill f) s = on_fill f s
  handle (moved p) s = record s { portfolio = p }

  unfoldable pub handle_all : List (Event F) → Risk F → Risk F
  handle_all [] s = s
  handle_all (e ∷ es) s = handle_all es (handle e s)
