-- ===== src/Execution/Approval.antt =====
-- The approval gate of the execution agent: `check_approval`.
use shiny_umbrella.Base.{
  ◌≤◌, ◌<◌, ◌≡◌, ◌↔◌, Bool, false, not, Option, none, some, lookup, contains, nat_eq, list_eq, leb,
  ltb, ltb→ge, ge→ltb, ◌=ℕ◌, if◌then◌else◌, arith, refl,
}
use shiny_umbrella.Float.Arith.{Arith}
use shiny_umbrella.Execution.Intents.{intent_beq}
use shiny_umbrella.Execution.Intents.Same.{SameIntent, intent_beq_iff}
use mathlib.Core.Path.{subst}
use shiny_umbrella.Types.Intents.{OrderIntent, RiskApproval}
use shiny_umbrella.Clock.Dates.{Timestamp}
use shiny_umbrella.Execution.State.{Exec}

-- Why an approval is refused
pub data Refusal : Type 0 where
  execution_halted token_used expired zero_quantity another_intent exceeds_intent : Refusal

-- Nothing is refused where every test is false.
all_false :
    (h u e z d x : Bool)
    → (if h
        then some execution_halted
        else if u
        then some token_used
        else if e
        then some expired
        else if z
        then some zero_quantity
        else if d
        then some another_intent
        else if x
        then some exceeds_intent
        else none)
      ≡ none
    → (h ≡ false) × (u ≡ false) × (e ≡ false) × (z ≡ false) × (d ≡ false) × (x ≡ false)
all_false h u e z d x p = ground arith

module _ {F : Type 0} ⦃fl : Arith F⦄ where
  pub differs : Option (OrderIntent F) → OrderIntent F → Bool
  differs none i = false
  differs (some known) i = not (intent_beq known i)

  -- `check_approval`
  unfoldable pub check_approval :
      {B : Type 0} → Exec F B → Timestamp → RiskApproval F → Option Refusal
  unfolding differs
  check_approval s now a =
      if s.halted
      then some execution_halted
      else if contains a.token s.used_tokens
      then some token_used
      else if leb a.expires_at now
      then some expired
      else if a.approved_qty =ℕ 0
      then some zero_quantity
      else if differs (lookup a.intent_id s.intents) a.intent
      then some another_intent
      else if ltb a.intent.qty a.approved_qty
      then some exceeds_intent
      else none

  -- The intent is the one seen under its id, if one was.
  abbrev IsSeen : Option (OrderIntent F) → OrderIntent F → Type 0
  IsSeen seen i = (known : OrderIntent F) → seen ≡ some known → SameIntent known i

  differs-IsSeen :
      (seen : Option (OrderIntent F)) (i : OrderIntent F) → (differs seen i ≡ false) ↔ IsSeen seen i
  unfolding differs
  differs-IsSeen none i = (λ h known e. absurd (ground (arith, e)), λ h. refl)
  differs-IsSeen (some first) i = (
    λ h known e.
        let same : first ≡ known = ground (arith, e) in
        subst (λ x. SameIntent x i) same ((intent_beq_iff first i).0 (ground (arith, h))),
    λ h. let same = (intent_beq_iff first i).1 (h first refl) in rw same refl,
  )

  -- What an approval that may be acted on satisfies
  pub record IsLive {B : Type 0} (s : Exec F B) (now : Timestamp) (a : RiskApproval F)
      : Type 0 where
    pub running : s.halted ≡ false
    pub unused : contains a.token s.used_tokens ≡ false
    pub in_time : now < a.expires_at
    pub positive : 0 < a.approved_qty
    pub unchanged :
        (known : OrderIntent F)
        → lookup a.intent_id s.intents ≡ some known
        → SameIntent known a.intent
    pub within : a.approved_qty ≤ a.intent.qty

  -- An approval may be acted on exactly if the agent is not halted, its token is unused, it has not
  -- expired, its quantity is positive and at most the intent's, and its intent is the same, field by
  -- field, as the one that was seen under its id, if one was.
  pub check_approval_iff :
      {B : Type 0} (s : Exec F B) (now : Timestamp) (a : RiskApproval F)
      → (check_approval s now a ≡ none) ↔ IsLive s now a
  unfolding check_approval
  check_approval_iff s now a =
      let (seen, unseen) = differs-IsSeen (lookup a.intent_id s.intents) a.intent in
      (
        λ h.
            let (running, unused, live, any_, same, fits) =
              all_false s.halted (contains a.token s.used_tokens) (leb a.expires_at now)
                (a.approved_qty =ℕ 0) (differs (lookup a.intent_id s.intents) a.intent)
                (ltb a.intent.qty a.approved_qty) h in
            record {
              running = running;
              unused = unused;
              in_time = ground arith;
              positive = ground arith;
              unchanged = seen same;
              within = ltb→ge a.intent.qty a.approved_qty fits;
            },
        λ l.
            let live : leb a.expires_at now ≡ false = ground (arith, l.in_time) in
            let any_ : (a.approved_qty =ℕ 0) ≡ false = ground (arith, l.positive) in
            rw
              (
                l.running,
                l.unused,
                live,
                any_,
                unseen l.unchanged,
                ge→ltb a.intent.qty a.approved_qty l.within,
              )
              refl,
      )
