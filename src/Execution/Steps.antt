-- ===== src/Execution/Steps.antt =====
-- The writes of the execution agent that matter to what it may place, as a step relation. Every
-- handler is a run of such steps (Steps/Runs), so what the steps keep, the handlers keep.
pub mod Runs
pub mod Reports
pub mod Histories
use shiny_umbrella.Base.{
  ℕ, ◌+◌, ◌≡◌, Bool, true, false, Option, none, some, List, [], ◌∷◌, Text, Dict, lookup, insert,
  contains, nat_eq, list_eq, get_elem?, sum,
}
use shiny_umbrella.Types.Intents.{RiskApproval}
use shiny_umbrella.Execution.State.{ExecutionPlan, Sent, Exec}
use shiny_umbrella.Execution.Placing.{new_plan}

module _ {F : Type 0} where
  -- A plan is changed, but for its approval, its slices and how many of them are placed.
  pub record Amended (p q : ExecutionPlan F) : Type 0 where
    pub approval : q.approval ≡ p.approval
    pub slices : q.slices ≡ p.slices
    pub placed : q.placed ≡ p.placed

  abbrev pub placed_more : ExecutionPlan F → ExecutionPlan F
  placed_more p = record p { placed = p.placed + 1 }

module _ {F B : Type 0} where
  -- The two states agree on what decides what may be placed.
  pub record Untouched (s t : Exec F B) : Type 0 where
    pub halted : t.halted ≡ s.halted
    pub used_tokens : t.used_tokens ≡ s.used_tokens
    pub plans : t.plans ≡ s.plans
    pub sent : t.sent ≡ s.sent
    pub accepted : t.accepted ≡ s.accepted

  -- A slice of a plan is due: the agent is not halted, and the plan is the one under its key.
  pub record Due (s : Exec F B) (key : Text) (p : ExecutionPlan F) (qty : ℕ) : Type 0 where
    pub found : lookup key s.plans ≡ some p
    pub running : s.halted ≡ false
    pub slice : get_elem? p.slices p.placed ≡ some qty

  pub data Step : Exec F B → Exec F B → Type 0 where
    writes : (s t : Exec F B) → Untouched s t → Step s t
    stops :
        (s : Exec F B) (m : Sent F) (b : B)
        → m.protective ≡ true
        → Step s (record s { broker = b; sent = m ∷ s.sent })
    kills : (s : Exec F B) → Step s (record s { halted = true })
    amends :
        (s : Exec F B) (key : Text) (p q : ExecutionPlan F)
        → lookup key s.plans ≡ some p
        → Amended p q
        → Step s (record s { plans = insert key q s.plans })
    skips :
        (s : Exec F B) (key : Text) (p : ExecutionPlan F) (qty : ℕ)
        → Due s key p qty
        → Step s (record s { plans = insert key (placed_more p) s.plans })
    places :
        (s : Exec F B) (key : Text) (p : ExecutionPlan F) (qty : ℕ) (m : Sent F) (b : B)
        → Due s key p qty
        → m.token ≡ p.approval.token
        → m.request.qty ≡ qty
        → Step s
            (record s { broker = b; sent = m ∷ s.sent; plans = insert key (placed_more p) s.plans })
    accepts :
        (s : Exec F B) (a : RiskApproval F)
        → contains a.token s.used_tokens ≡ false
        → Step s (record s {
          used_tokens = a.token ∷ s.used_tokens;
          accepted = insert a.token a.approved_qty s.accepted;
        })
    starts :
        (s : Exec F B) (a : RiskApproval F) (slices : List ℕ)
        → contains a.token s.used_tokens ≡ false
        → sum slices ≡ a.approved_qty
        → Step s (record s {
          used_tokens = a.token ∷ s.used_tokens;
          accepted = insert a.token a.approved_qty s.accepted;
          plans = insert a.intent.id (new_plan a slices) s.plans;
        })
