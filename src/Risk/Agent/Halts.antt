-- ===== src/Risk/Agent/Halts.antt =====
-- The kill switch of the risk agent over whole histories of messages.
use shiny_umbrella.Base.{
  ◌≡◌, ◌≢◌, if_either, refl, ap, ◌∙◌, true, List, [], ◌∷◌, ◌++◌, Result, ok, err, All, Text,
}
use mathlib.Core.List.{append-nil}
use shiny_umbrella.Float.Arith.{Arith, ◌≼◌, neg}
use shiny_umbrella.Types.Intents.{OrderIntent, RiskApproval}
use shiny_umbrella.Types.Orders.{Fill}
use shiny_umbrella.Types.Messages.{AlertLevel, error, critical, RiskRejection}
use shiny_umbrella.Clock.Dates.{Timestamp}
use shiny_umbrella.Portfolio.{day_pnl}
use shiny_umbrella.Risk.State.{Risk, Published, approval, rejection, alert}
use shiny_umbrella.Risk.Rules.{on_day, daily_loss_limit}
use shiny_umbrella.Risk.Evaluate.{Verdict, approved, rejected_by, evaluate}
use shiny_umbrella.Risk.Evaluate.Guarantees.{evaluate-Promised}
use shiny_umbrella.Risk.Agent.{
  Control, kill, resume, pause, unpause, other, control_of, control, on_control, on_fill, on_intent,
  answer, reject, failed_handling, Event, intent, command, fill, moved, handle, handle_all,
  loss_day,
}

module _ {F : Type 0} where
  -- The approvals among the messages that the agent published
  unfoldable pub approvals : List (Published F) → List (RiskApproval F)
  approvals [] = []
  approvals (approval a ∷ ms) = a ∷ approvals ms
  approvals (rejection r ∷ ms) = approvals ms
  approvals (alert l ∷ ms) = approvals ms

  pub approvals-append :
      (ms ns : List (Published F)) → approvals (ms ++ ns) ≡ approvals ms ++ approvals ns
  unfolding approvals
  approvals-append [] ns = refl
  approvals-append (approval a ∷ ms) ns = ap (λ l. a ∷ l) (approvals-append ms ns)
  approvals-append (rejection r ∷ ms) ns = approvals-append ms ns
  approvals-append (alert l ∷ ms) ns = approvals-append ms ns

  pub approvals-alert :
      (ms : List (Published F)) (l : AlertLevel) → approvals (ms ++ alert l ∷ []) ≡ approvals ms
  unfolding approvals
  approvals-alert ms l = approvals-append ms (alert l ∷ []) ∙ append-nil (approvals ms)

  pub approvals-rejection :
      (ms : List (Published F)) (r : RiskRejection)
      → approvals (ms ++ rejection r ∷ []) ≡ approvals ms
  unfolding approvals
  approvals-rejection ms r = approvals-append ms (rejection r ∷ []) ∙ append-nil (approvals ms)

  -- From one state to another the switch is still on, and nothing is approved.
  pub record Stays (s t : Risk F) : Type 0 where
    pub killed : t.killed ≡ true
    pub none_counted : t.approved_count ≡ s.approved_count
    pub none_approved : approvals t.published ≡ approvals s.published

  -- The event is not a command to resume.
  abbrev pub NotResume : Event F → Type 0
  NotResume (intent i now token) = Unit
  NotResume (command c) = control_of c.command ≢ resume
  NotResume (fill f) = Unit
  NotResume (moved p) = Unit

  control-Stays :
      (s : Risk F) (c : Control) (reason : Text)
      → s.killed ≡ true
      → c ≢ resume
      → Stays s (control c reason s)
  unfolding control approvals
  control-Stays s kill reason k n = record {
    killed = refl;
    none_counted = refl;
    none_approved = approvals-alert s.published critical;
  }
  control-Stays s resume reason k n = absurd (n refl)
  control-Stays s pause [] k n = record { killed = k; none_counted = refl; none_approved = refl }
  control-Stays s pause (c ∷ cs) k n = record {
    killed = k;
    none_counted = refl;
    none_approved = refl;
  }
  control-Stays s unpause reason k n = record {
    killed = k;
    none_counted = refl;
    none_approved = refl;
  }
  control-Stays s other reason k n = record {
    killed = k;
    none_counted = refl;
    none_approved = refl;
  }

  quiet : (s : Risk F) → s.killed ≡ true → Stays s s
  quiet s k = record { killed = k; none_counted = refl; none_approved = refl }

  answer-Stays :
      (s : Risk F) (v : Result (Verdict F))
      → s.killed ≡ true
      → ((a : RiskApproval F) → v ≢ ok (approved a))
      → Stays s (answer v s)
  unfolding answer failed_handling reject
  answer-Stays s (err x) k n = record {
    killed = k;
    none_counted = refl;
    none_approved = approvals-alert s.published error;
  }
  answer-Stays s (ok (rejected_by r)) k n = record {
    killed = k;
    none_counted = refl;
    none_approved = approvals-rejection s.published r;
  }
  answer-Stays s (ok (approved a)) k n = absurd (n a refl)

  Stays-trans : {s t u : Risk F} → Stays s t → Stays t u → Stays s u
  Stays-trans p q = record {
    killed = q.killed;
    none_counted = q.none_counted ∙ p.none_counted;
    none_approved = q.none_approved ∙ p.none_approved;
  }

module _ {F : Type 0} ⦃fl : Arith F⦄ where
  killed_not_approved :
      (s : Risk F) (i : OrderIntent F) (now : Timestamp) (token : Text)
      → s.killed ≡ true
      → (a : RiskApproval F) → evaluate s now i token ≢ ok (approved a)
  killed_not_approved s i now token k a h =
      let off = (evaluate-Promised s now i token h).not_killed in cc

  on_fill-Stays : (s : Risk F) (f : Fill F) → s.killed ≡ true → Stays s (on_fill f s)
  unfolding on_fill
  on_fill-Stays s f k =
      if_either (Stays s) (on_day s.halted_day (loss_day s.portfolio.day f)) (quiet s k) (
        if_either (Stays s) (day_pnl s.portfolio ≼ neg (daily_loss_limit s))
          record {
            killed = k;
            none_counted = refl;
            none_approved = approvals-alert s.published critical;
          }
          (quiet s k))

  handle-Stays : (s : Risk F) (e : Event F) → s.killed ≡ true → NotResume e → Stays s (handle e s)
  unfolding handle on_intent on_control
  handle-Stays s (intent i now token) k n =
      answer-Stays s (evaluate s now i token) k (killed_not_approved s i now token k)
  handle-Stays s (command c) k n = control-Stays s (control_of c.command) c.reason k n
  handle-Stays s (fill f) k n = on_fill-Stays s f k
  handle-Stays s (moved p) k n = record { killed = k; none_counted = refl; none_approved = refl }

  -- Once the kill switch is on, whatever intents, fills, changes of the portfolio and commands other
  -- than RESUME come, in any order, it is still on after them, and no approval was counted or
  -- published.
  pub killed_approves_nothing :
      (s : Risk F) (es : List (Event F))
      → s.killed ≡ true
      → All NotResume es
      → Stays s (handle_all es s)
  unfolding handle_all
  killed_approves_nothing s [] k n = quiet s k
  killed_approves_nothing s (e ∷ es) k n =
      let first = handle-Stays s e k n.0 in
      Stays-trans first (killed_approves_nothing (handle e s) es first.killed n.1)
