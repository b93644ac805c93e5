-- ===== src/Risk/Agent/Counts.antt =====
-- The counters of the risk agent, and its approvals, over whole histories of messages.
use shiny_umbrella.Base.{
  ℕ, ◌≡◌, ◌≤◌, ◌<◌, refl, sym, ap, ◌∙◌, true, false, List, [], ◌∷◌, ◌++◌, Result, ok, err, ◌+◌, All,
  All-append, Text, arith, length, length-append, lookup, insert, lookup-insert, or_else, if_either,
  Option, some, Bool, if◌then◌else◌, Dict, nat_eq, list_eq, list_beq_iff, ◌==◌, Bool-cases, inl,
  inr,
}
use mathlib.Core.Path.{subst}
use shiny_umbrella.Float.Arith.{Arith, ◌≼◌, neg}
use shiny_umbrella.Types.Intents.{OrderIntent, RiskApproval}
use shiny_umbrella.Types.Messages.{AlertLevel, error, warn, critical, RiskRejection}
use shiny_umbrella.Types.Orders.{Fill}
use shiny_umbrella.Clock.Dates.{Timestamp, Date}
use shiny_umbrella.Portfolio.{Portfolio, day_pnl}
use shiny_umbrella.Risk.Rules.{on_day, daily_loss_limit}
use shiny_umbrella.Risk.State.{Risk, Published, approval, rejection, alert}
use shiny_umbrella.Risk.Evaluate.{Verdict, approved, rejected_by, evaluate}
use shiny_umbrella.Risk.Evaluate.Guarantees.{evaluate-Promised}
use shiny_umbrella.Risk.Agent.{
  kill_text, Control, kill, resume, pause, unpause, other, control_of, control, on_control, on_fill,
  on_intent, answer, reject, failed_handling, Event, intent, command, fill, moved, handle,
  handle_all, loss_day,
}
use shiny_umbrella.Risk.Agent.Halts.{
  approvals, approvals-append, approvals-alert, approvals-rejection,
}

module _ {F : Type 0} where
  -- The rejections under a rule among the messages that the agent published
  unfoldable pub rejected_under : Text → List (Published F) → ℕ
  rejected_under rule [] = 0
  rejected_under rule (approval a ∷ ms) = rejected_under rule ms
  rejected_under rule (alert l ∷ ms) = rejected_under rule ms
  rejected_under rule (rejection r ∷ ms) =
      let rest = rejected_under rule ms in if r.rule == rule then rest + 1 else rest

  rejected_under-append :
      (rule : Text) (ms ns : List (Published F))
      → rejected_under rule (ms ++ ns) ≡ rejected_under rule ms + rejected_under rule ns
  unfolding rejected_under
  rejected_under-append rule [] ns = omega arith
  rejected_under-append rule (approval a ∷ ms) ns = rejected_under-append rule ms ns
  rejected_under-append rule (alert l ∷ ms) ns = rejected_under-append rule ms ns
  rejected_under-append rule (rejection r ∷ ms) ns =
      ground (arith, rejected_under-append rule ms ns)

  -- An approval that no later check of its own fields can refuse
  abbrev pub IsSound : RiskApproval F → Type 0
  IsSound a = (a.intent.id ≡ a.intent_id) × (0 < a.approved_qty) × (a.approved_qty ≤ a.intent.qty)

  -- The counters say what was published, and every approval published is sound.
  pub record IsTallied (s : Risk F) : Type 0 where
    pub approved_tally : s.approved_count ≡ length (approvals s.published)
    pub rejected_tally :
        (rule : Text) → or_else (lookup rule s.rejections) 0 ≡ rejected_under rule s.published
    pub sound : All IsSound (approvals s.published)

  -- The tally is only about the counters and the messages.
  set_tally :
      {s : Risk F} {p : Portfolio F} {killed : Bool} {reason : Text} {day : Option Date}
      {paused : List Text} {errors : ℕ}
      → IsTallied s
      → IsTallied (record s {
        portfolio = p;
        killed = killed;
        kill_reason = reason;
        halted_day = day;
        paused = paused;
        errors = errors;
      })
  set_tally t = record {
    approved_tally = t.approved_tally;
    rejected_tally = t.rejected_tally;
    sound = t.sound;
  }

  alerted :
      (s : Risk F) (l : AlertLevel)
      → IsTallied s
      → IsTallied (record s { published = s.published ++ alert l ∷ [] })
  unfolding rejected_under
  alerted s l t =
      let same = approvals-alert s.published l in
      record {
        approved_tally = rw same t.approved_tally;
        rejected_tally = λ rule.
            rw (rejected_under-append rule s.published (alert l ∷ [])) omega
              (arith, t.rejected_tally rule);
        sound = rw same t.sound;
      }

  -- A rejection is counted under its rule, and under no other.
  rejected_one_more :
      (r : RiskRejection) (d : Dict Text ℕ) (ms : List (Published F))
      → ((rule : Text) → or_else (lookup rule d) 0 ≡ rejected_under rule ms)
      → (rule : Text)
      → or_else (lookup rule (insert r.rule (or_else (lookup r.rule d) 0 + 1) d)) 0
        ≡ rejected_under rule (ms ++ rejection r ∷ [])
  unfolding rejected_under
  rejected_one_more r d ms tally rule =
      rw
        (
          lookup-insert r.rule rule (or_else (lookup r.rule d) 0 + 1) d,
          rejected_under-append rule ms (rejection r ∷ []),
        )
        elim (Bool-cases (r.rule == rule)) [
          | inl hit ↦
              let key : r.rule ≡ rule = (list_beq_iff r.rule rule).0 hit in
              let here : or_else (lookup r.rule d) 0 ≡ rejected_under rule ms =
                rw key (tally rule) in
              rw hit omega (arith, here)
          | inr miss ↦ rw miss omega (arith, tally rule)
        ]

  reject-IsTallied : (s : Risk F) (r : RiskRejection) → IsTallied s → IsTallied (reject r s)
  unfolding reject rejected_under
  reject-IsTallied s r t =
      let same = approvals-rejection s.published r in
      record {
        approved_tally = rw same t.approved_tally;
        rejected_tally = rejected_one_more r s.rejections s.published t.rejected_tally;
        sound = rw same t.sound;
      }

  approve-IsTallied :
      (s : Risk F) (a : RiskApproval F)
      → IsSound a
      → IsTallied s
      → IsTallied (answer (ok (approved a)) s)
  unfolding answer approvals rejected_under
  approve-IsTallied s a sound t =
      let same = approvals-append s.published (approval a ∷ []) in
      record {
        approved_tally =
            ap (λ n. n + 1) t.approved_tally
            ∙ sym (ap length same ∙ length-append (approvals s.published) (a ∷ []));
        rejected_tally = λ rule.
            rw (rejected_under-append rule s.published (approval a ∷ [])) omega
              (arith, t.rejected_tally rule);
        sound = rw same (All-append IsSound (approvals s.published) (a ∷ []) t.sound (sound, tt));
      }

  command-IsTallied :
      (s : Risk F) (c : Control) (reason : Text) → IsTallied s → IsTallied (control c reason s)
  unfolding control
  command-IsTallied s kill reason t =
      alerted (record s { killed = true; kill_reason = kill_text reason }) critical (set_tally t)
  command-IsTallied s resume reason t =
      alerted (record s { killed = false; kill_reason = [] }) warn (set_tally t)
  command-IsTallied s pause [] t = t
  command-IsTallied s pause (c ∷ cs) t = set_tally t
  command-IsTallied s unpause reason t = set_tally t
  command-IsTallied s other reason t = t

module _ {F : Type 0} ⦃fl : Arith F⦄ where
  answer-IsTallied :
      (s : Risk F) (i : OrderIntent F) (now : Timestamp) (token : Text)
      → IsTallied s
      → IsTallied (on_intent i now token s)
  unfolding on_intent answer failed_handling
  answer-IsTallied s i now token t = by (evaluate s now i token) refl
    where
      by : (v : Result (Verdict F)) → evaluate s now i token ≡ v → IsTallied (answer v s)
      by (err x) v = alerted (record s { errors = s.errors + 1 }) error (set_tally t)
      by (ok (rejected_by r)) e = reject-IsTallied s r t
      by (ok (approved a)) e =
          let p = evaluate-Promised s now i token e in
          approve-IsTallied s a
            (
              rw (p.of_intent) (sym p.same_id),
              p.positive,
              subst (λ j. a.approved_qty ≤ j.qty) (sym p.of_intent) p.within,
            )
            t

  fill-IsTallied : (s : Risk F) (f : Fill F) → IsTallied s → IsTallied (on_fill f s)
  unfolding on_fill
  fill-IsTallied s f t = if_either IsTallied (on_day s.halted_day (loss_day s.portfolio.day f)) t (
      if_either IsTallied (day_pnl s.portfolio ≼ neg (daily_loss_limit s))
        (alerted (record s { halted_day = some (loss_day s.portfolio.day f) }) critical
          (set_tally t))
        t)

  handle-IsTallied : (s : Risk F) (e : Event F) → IsTallied s → IsTallied (handle e s)
  unfolding handle on_control
  handle-IsTallied s (intent i now token) t = answer-IsTallied s i now token t
  handle-IsTallied s (command c) t = command-IsTallied s (control_of c.command) c.reason t
  handle-IsTallied s (fill f) t = fill-IsTallied s f t
  handle-IsTallied s (moved p) t = set_tally t

  -- If the counters tally with what was published, and every approval published is sound, then so
  -- it is after every message: the approvals counted are those published, the rejections counted
  -- under each rule are those published under it, and every approval carries its own intent's id
  -- and a positive quantity of at most the intent's.
  pub history-IsTallied :
      (es : List (Event F)) (s : Risk F) → IsTallied s → IsTallied (handle_all es s)
  unfolding handle_all
  history-IsTallied [] s t = t
  history-IsTallied (e ∷ es) s t = history-IsTallied es (handle e s) (handle-IsTallied s e t)
