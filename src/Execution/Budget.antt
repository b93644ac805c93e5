-- ===== src/Execution/Budget.antt =====
-- What an agent that spends no more than it may looks like: no more is sent for an approval than it approved.
pub mod Spending
use shiny_umbrella.Base.{
  ℕ, zero, suc, ◌+◌, ◌≤◌, ◌≡◌, ◌≢◌, ◌⊎◌, refl, sym, ap, ◌∙◌, inl, inr, true, false, not, Bool, ◌||◌,
  Option, none, some, List, [], ◌∷◌, All, Text, Dict, lookup, insert, lookup-insert, contains,
  nat_eq, list_eq, list_beq_iff, ◌==◌, or_else, sum, get_elem?, arith, if◌then◌else◌, Bool-cases,
}
use mathlib.Core.Path.{subst}
use shiny_umbrella.Float.Arith.{Arith}
use shiny_umbrella.Types.Intents.{RiskApproval}
use shiny_umbrella.Clock.Dates.{Timestamp}
use shiny_umbrella.Execution.State.{Router, ExecutionPlan, Sent, Exec}
use shiny_umbrella.Execution.Placing.{new_plan}
use shiny_umbrella.Execution.Handlers.{Event, command, handle_all}
use shiny_umbrella.Execution.Steps.{
  Untouched, Amended, Due, placed_more, Step, writes, stops, kills, amends, skips, places, accepts,
  starts,
}
use shiny_umbrella.Execution.Steps.Histories.{Allowed, handle_all-Keeps}

-- What is left of a list of numbers from a place on
unfoldable pub sum_from : ℕ → List ℕ → ℕ
sum_from n [] = 0
sum_from zero (x ∷ xs) = x + sum_from zero xs
sum_from (suc n) (x ∷ xs) = sum_from n xs

pub sum_from-zero : (xs : List ℕ) → sum_from 0 xs ≡ sum xs
unfolding sum_from
sum_from-zero [] = refl
sum_from-zero (x ∷ xs) = ap (λ n. x + n) (sum_from-zero xs)

some_injective : {A : Type 0} {a b : A} → some a ≡ some b → a ≡ b
some_injective h = cc h

-- A slice and what is left after it
pub sum_from-suc :
    (n : ℕ) (xs : List ℕ) {q : ℕ}
    → get_elem? xs n ≡ some q
    → sum_from n xs ≡ q + sum_from (n + 1) xs
unfolding sum_from
sum_from-suc n [] h = ground arith
sum_from-suc zero (x ∷ xs) {q} h = ap (λ n. n + sum_from 0 xs) (some_injective h)
sum_from-suc (suc n) (x ∷ xs) {q} h =
    let next : suc n + 1 ≡ suc (n + 1) = omega arith in rw next (sum_from-suc n xs h)

module _ {F : Type 0} where
  -- The quantity of the orders sent under a token, other than protective stops
  unfoldable pub sent_under : Text → List (Sent F) → ℕ
  sent_under token [] = 0
  sent_under token (m ∷ ms) =
      let rest = sent_under token ms in
      if m.protective || not (m.token == token) then rest else m.request.qty + rest

  -- What a plan has left to place
  abbrev pub left_of : ExecutionPlan F → ℕ
  left_of p = sum_from p.placed p.slices

  -- A plan of an accepted approval, whose orders sent and slices left are within what was approved
  pub record Within (accepted : Dict Text ℕ) (sent : List (Sent F)) (p : ExecutionPlan F)
      : Type 0 where
    pub approved : ℕ
    pub under : lookup p.approval.token accepted ≡ some approved
    pub fits : sent_under p.approval.token sent + left_of p ≤ approved

  -- The books of the agent: an unused token is accepted nowhere, no more was sent under a token than
  -- was approved, nor will be by the slices left, and no two plans share a token.
  pub record Budgeted (used : List Text) (accepted : Dict Text ℕ) (sent : List (Sent F))
      (plans : Dict Text (ExecutionPlan F)) : Type 0 where
    pub unused : (token : Text) → contains token used ≡ false → lookup token accepted ≡ none
    pub spent : (token : Text) → sent_under token sent ≤ or_else (lookup token accepted) 0
    pub planned :
        (key : Text) (p : ExecutionPlan F) → lookup key plans ≡ some p → Within accepted sent p
    pub one_key :
        (k j : Text) (p q : ExecutionPlan F)
        → lookup k plans ≡ some p
        → lookup j plans ≡ some q
        → p.approval.token ≡ q.approval.token
        → k ≡ j

  abbrev pub IsBudgeted : {B : Type 0} → Exec F B → Type 0
  IsBudgeted s = Budgeted s.used_tokens s.accepted s.sent s.plans

  pub sent_under-le :
      (token : Text) (m : Sent F) (ms : List (Sent F))
      → sent_under token (m ∷ ms) ≤ m.request.qty + sent_under token ms
  unfolding sent_under
  sent_under-le token m ms = elim (Bool-cases (m.protective || not (m.token == token))) [
    | inl h ↦ rw h omega arith
    | inr h ↦ rw h omega arith
  ]

  pub sent_under-stop :
      (token : Text) (m : Sent F) (ms : List (Sent F))
      → m.protective ≡ true
      → sent_under token (m ∷ ms) ≡ sent_under token ms
  unfolding sent_under
  sent_under-stop token m ms h = rw h refl

  pub sent_under-other :
      (token : Text) (m : Sent F) (ms : List (Sent F))
      → (m.token == token) ≡ false
      → sent_under token (m ∷ ms) ≡ sent_under token ms
  unfolding sent_under
  sent_under-other token m ms h = by m.protective
    where
      by :
          (b : Bool)
          → (if b || not (m.token == token)
              then sent_under token ms
              else m.request.qty + sent_under token ms)
            ≡ sent_under token ms
      by true = refl
      by false = rw h refl

-- What is found after a write is what was written, or what was there.
pub lookup-insert_cases :
    {V : Type 0} (key k : Text) (v : V) (d : Dict Text V) {w : V}
    → lookup k (insert key v d) ≡ some w
    → ((key ≡ k) × (v ≡ w)) ⊎ (((key == k) ≡ false) × (lookup k d ≡ some w))
lookup-insert_cases key k v d {w} h =
    let both = sym (lookup-insert key k v d) ∙ h in
    elim (Bool-cases (key == k)) [
      | inl hit ↦ inl ((list_beq_iff key k).0 hit, some_injective (rw hit at both))
      | inr miss ↦ inr (miss, rw miss at both)
    ]
