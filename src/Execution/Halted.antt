-- ===== src/Execution/Halted.antt =====
-- The kill switch of the execution agent over whole histories.
use shiny_umbrella.Base.{ℕ, ◌≡◌, ◌≢◌, refl, ap, ◌∙◌, true, List, [], ◌∷◌, All, Text, if◌then◌else◌}
use shiny_umbrella.Float.Arith.{Arith}
use shiny_umbrella.Clock.Dates.{Timestamp}
use shiny_umbrella.Execution.State.{Router, Sent, Exec}
use shiny_umbrella.Execution.Handlers.{
  resume, control_of, Event, intent, approval, tick, bar, command, order_report, fill_report, timer,
  reconnect, broker_moves, shared_orders, handle_all,
}
use shiny_umbrella.Execution.Steps.{
  Step, writes, stops, kills, amends, skips, places, accepts, starts,
}
use shiny_umbrella.Execution.Steps.Histories.{Allowed, handle_all-Keeps}

module _ {F : Type 0} where
  -- The orders sent other than protective stops
  unfoldable pub entries : List (Sent F) → List (Sent F)
  entries [] = []
  entries (m ∷ ms) = let rest = entries ms in if m.protective then rest else m ∷ rest

module _ {F B : Type 0} where
  -- The agent is halted, and has sent no more orders than from the first state, but for stops.
  pub record SendsNone (s t : Exec F B) : Type 0 where
    pub halted : t.halted ≡ true
    pub none_sent : entries t.sent ≡ entries s.sent

  abbrev pub NotResume : Event F B → Type 0
  NotResume (command c) = control_of c.command ≢ resume
  NotResume _ = Unit

  Step-SendsNone : (s₀ s t : Exec F B) → Step s t → SendsNone s₀ s → SendsNone s₀ t
  unfolding entries
  Step-SendsNone s₀ s t (writes _ _ u) h = record {
    halted = u.halted ∙ h.halted;
    none_sent = ap entries u.sent ∙ h.none_sent;
  }
  Step-SendsNone s₀ s t (stops _ m b p) h = record {
    halted = h.halted;
    none_sent = rw p h.none_sent;
  }
  Step-SendsNone s₀ s t (kills _) h = record { halted = refl; none_sent = h.none_sent }
  Step-SendsNone s₀ s t (amends _ key p q e a) h = record {
    halted = h.halted;
    none_sent = h.none_sent;
  }
  Step-SendsNone s₀ s t (skips _ key p qty due) h = record {
    halted = h.halted;
    none_sent = h.none_sent;
  }
  Step-SendsNone s₀ s t (places _ key p qty m b due tok q) h =
      let r = due.running in let k = h.halted in cc
  Step-SendsNone s₀ s t (accepts _ a u) h = record { halted = h.halted; none_sent = h.none_sent }
  Step-SendsNone s₀ s t (starts _ a slices u total) h = record {
    halted = h.halted;
    none_sent = h.none_sent;
  }

  allowed : (P : Exec F B → Type 0) (e : Event F B) → NotResume e → Allowed P e
  allowed P (command c) n = λ e. absurd (n e)
  allowed P (intent i) n = tt
  allowed P (approval a) n = tt
  allowed P (tick t) n = tt
  allowed P (bar b) n = tt
  allowed P (order_report t) n = tt
  allowed P (fill_report f) n = tt
  allowed P timer n = tt
  allowed P reconnect n = tt
  allowed P (broker_moves b) n = tt
  allowed P (shared_orders f) n = tt

  allowed_events :
      (P : Exec F B → Type 0) (es : List (Timestamp × Event F B))
      → All (λ e. NotResume e.1) es
      → All (λ e. Allowed P e.1) es
  allowed_events P [] n = tt
  allowed_events P (e ∷ es) n = (allowed P e.1 n.0, allowed_events P es n.1)

module _ {F B : Type 0} ⦃fl : Arith F⦄ (router : Router F B) (tag_of : ℕ → Text) where
  -- Once the agent is halted, whatever comes in any order other than a command to resume, approvals,
  -- reports, timers and reconnections included, whatever the broker answers, and even where it
  -- changes the orders that it handed out: the agent stays halted, and it asks the broker for no
  -- order other than a protective stop.
  pub halted-SendsNone :
      (s : Exec F B) (es : List (Timestamp × Event F B))
      → s.halted ≡ true
      → All (λ e. NotResume e.1) es
      → SendsNone s (handle_all router tag_of es s)
  halted-SendsNone s es h n =
      handle_all-Keeps router tag_of (SendsNone s) (Step-SendsNone s) es s
        (allowed_events (SendsNone s) es n) record { halted = h; none_sent = refl }
