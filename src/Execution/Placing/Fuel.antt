-- ===== src/Execution/Placing/Fuel.antt =====
-- A chain of orders that each place the next slice has fuel enough.
use shiny_umbrella.Base.{
  ℕ, zero, suc, ◌+◌, ◌-◌, ◌≤◌, ◌<◌, ◌≡◌, refl, ap, inl, inr, Bool, false, ◌||◌, not, Option, none,
  some, [], ◌∷◌, Text, Dict, lookup, insert, contains, nat_eq, list_eq, ◌==◌, get_elem?, length,
  sum, map, Result, ok, err, Bool-cases, arith,
}
use shiny_umbrella.Base.Actions.{Act, after, pure}
use shiny_umbrella.Float.Arith.{Arith}
use shiny_umbrella.Types.Enums.{
  OrderType, OrderStatus, pending, trigger_pending, open_, partial, filled, cancelled, rejected,
  is_terminal,
}
use shiny_umbrella.Types.Intents.{OrderIntent}
use shiny_umbrella.Clock.Dates.{Timestamp}
use shiny_umbrella.Execution.State.{Tracked, Router, WorkingOrder, ExecutionPlan, Exec}
use shiny_umbrella.Execution.Pricing.{price_order}
use shiny_umbrella.Execution.Steps.{placed_more}
use shiny_umbrella.Execution.Placing.{
  done, is_protective, intent_id_of, plan_at, released, mark_order, answered, placed_reply, send,
  place, keep_order, update_plan, plans_with, note_order, place_priced, place_slice,
  place_next_slice, release_next, advance, progress, all_slices, on_order_progress, drop_ended,
}

module _ {F : Type 0} where
  -- The slices of a plan that are not placed yet, and those of all plans
  abbrev left : ExecutionPlan F → ℕ
  left p = length p.slices - p.placed

  abbrev pub left_total : Dict Text (ExecutionPlan F) → ℕ
  left_total plans = sum (map (λ e. left e.1) plans)

  left_total-insert :
      (key : Text) (p q : ExecutionPlan F) (plans : Dict Text (ExecutionPlan F))
      → lookup key plans ≡ some p
      → left_total (insert key q plans) + left p ≡ left_total plans + left q
  unfolding lookup insert
  left_total-insert key p q [] h = cc
  left_total-insert key p q ((j, r) ∷ plans) h = elim (Bool-cases (j == key)) [
    | inl hit ↦
        let same : r ≡ p = some_injective (rw hit at h) in
        let less : left r ≡ left p = ap left same in rw hit omega (arith, less)
    | inr miss ↦
        let rest = left_total-insert key p q plans (rw miss at h) in rw miss omega (arith, rest)
  ]
    where
      some_injective : {a b : ExecutionPlan F} → some a ≡ some b → a ≡ b
      some_injective e = cc e

  left_total-released :
      (key : Text) (seen : Dict Text (Tracked F)) (id : Text) (plans : Dict Text (ExecutionPlan F))
      (o : Option (ExecutionPlan F))
      → lookup key plans ≡ o
      → left_total (plans_with key (released seen id) o plans) ≡ left_total plans
  left_total-released key seen id plans none h = refl
  left_total-released key seen id plans (some p) h =
      omega (arith, left_total-insert key p (released seen id p) plans h)

  left_total-le : (plans : Dict Text (ExecutionPlan F)) → left_total plans ≤ all_slices plans
  left_total-le [] = omega arith
  left_total-le (e ∷ plans) = omega (arith, left_total-le plans)

module _ {F B : Type 0} ⦃fl : Arith F⦄ (router : Router F B) (tag_of : ℕ → Text)
    (now : Timestamp) where
  -- Two ways to go on after an order agree while fewer slices than a bound are left.
  abbrev Agree :
      ℕ → (Tracked F → Act (Exec F B) (Unit {0})) → (Tracked F → Act (Exec F B) (Unit {0})) → Type 0
  Agree bound f g = (t : Tracked F) (s : Exec F B) → left_total s.plans < bound → f t s ≡ g t s

  answered-Agree :
      (f g : Tracked F → Act (Exec F B) (Unit {0})) (x : OrderStatus) (t : Tracked F) (bound : ℕ)
      (s : Exec F B)
      → Agree bound f g
      → left_total s.plans < bound
      → answered x (f t) s ≡ answered x (g t) s
  unfolding answered
  answered-Agree f g filled t bound s h l = h t s l
  answered-Agree f g rejected t bound s h l = refl
  answered-Agree f g pending t bound s h l = refl
  answered-Agree f g trigger_pending t bound s h l = refl
  answered-Agree f g open_ t bound s h l = refl
  answered-Agree f g partial t bound s h l = refl
  answered-Agree f g cancelled t bound s h l = refl

  placed_reply-Agree :
      (f g : Tracked F → Act (Exec F B) (Unit {0})) (i : OrderIntent F) (token : Text) (b : Bool)
      (r : Result (Tracked F)) (bound : ℕ) (s : Exec F B)
      → Agree bound f g
      → left_total s.plans < bound
      → placed_reply router tag_of now f i token b r s
        ≡ placed_reply router tag_of now g i token b r s
  unfolding placed_reply keep_order answered
  placed_reply-Agree f g i token b (err x) bound s h l = refl
  placed_reply-Agree f g i token b (ok t) bound s h l =
      let marked = mark_order t i token b in
      ap (λ r. after r.0 (λ _. pure (some marked)) r.1)
        (answered-Agree f g marked.order.status marked bound _ h l)

  place_priced-Agree :
      (f g : Tracked F → Act (Exec F B) (Unit {0})) (key : Text) (p : ExecutionPlan F) (qty : ℕ)
      (priced : Option F × OrderType) (bound : ℕ) (s : Exec F B)
      → Agree bound f g
      → left_total s.plans < bound
      → place_priced router tag_of now f key p qty priced s
        ≡ place_priced router tag_of now g key p qty priced s
  unfolding place_priced place send
  place_priced-Agree f g key p qty priced bound s h l =
      ap (λ r. after r.0 (note_order key) r.1)
        (placed_reply-Agree f g p.intent p.approval.token false _ bound _ h l)

  place_slice-Agree :
      (f g : Tracked F → Act (Exec F B) (Unit {0})) (key : Text) (p : ExecutionPlan F)
      (s : Exec F B)
      → Agree (left_total s.plans) f g
      → lookup key s.plans ≡ some p
      → 0 < left p
      → (o : Option ℕ)
      → place_slice router tag_of now f key p o s ≡ place_slice router tag_of now g key p o s
  unfolding place_slice update_plan
  place_slice-Agree f g key p s h found some_left none = refl
  place_slice-Agree f g key p s h found some_left (some qty) =
      rw found (by (price_order (record s { plans = insert key (placed_more p) s.plans }) p.intent))
    where
      fewer : left_total (insert key (placed_more p) s.plans) < left_total s.plans
      fewer = omega (arith, left_total-insert key p (placed_more p) s.plans found, some_left)

      by :
          (r : Result (Option F × OrderType))
          → after r
              (place_priced router tag_of now f key p qty)
              (record s { plans = insert key (placed_more p) s.plans })
            ≡ after r
                (place_priced router tag_of now g key p qty)
                (record s { plans = insert key (placed_more p) s.plans })
      by (err x) = refl
      by (ok priced) =
          place_priced-Agree f g key p qty priced (left_total s.plans)
            (record s { plans = insert key (placed_more p) s.plans }) h fewer

  place_next_slice-Agree :
      (f g : Tracked F → Act (Exec F B) (Unit {0})) (key : Text) (s : Exec F B)
      → Agree (left_total s.plans) f g
      → (o : Option (ExecutionPlan F)) → lookup key s.plans ≡ o
      → place_next_slice router tag_of now f key o s ≡ place_next_slice router tag_of now g key o s
  unfolding place_next_slice
  place_next_slice-Agree f g key s h none e = refl
  place_next_slice-Agree f g key s h (some p) e = elim (Bool-cases (done p || s.halted)) [
    | inl ended ↦ rw ended refl
    | inr going ↦
        let some_left : 0 < left p = ground arith in
        rw going (place_slice-Agree f g key p s h e some_left (get_elem? p.slices p.placed))
  ]

  advance-Agree :
      (f g : Tracked F → Act (Exec F B) (Unit {0})) (key : Text) (t : Tracked F) (s : Exec F B)
      → Agree (left_total s.plans) f g
      → (o : Option (ExecutionPlan F))
      → advance router tag_of now f key t o s ≡ advance router tag_of now g key t o s
  unfolding advance release_next update_plan
  advance-Agree f g key t s h none = refl
  advance-Agree f g key t s h (some p) =
      elim (Bool-cases (not (is_terminal t.order.status) || contains t.order.id p.advanced)) [
        | inl stays ↦ rw stays refl
        | inr goes ↦ rw goes (place_next_slice-Agree f g key _ same_left _ refl)
      ]
    where
      same_left :
          Agree
            (left_total
              (plans_with key (released s.orders_seen t.order.id) (lookup key s.plans) s.plans))
            f
            g
      same_left = λ u s' l. h u s' (
          omega (
            arith,
            l,
            left_total-released key s.orders_seen t.order.id s.plans (lookup key s.plans) refl,
          ))

  progress_from :
      (n m : ℕ) (t : Tracked F) (s : Exec F B)
      → Agree (left_total s.plans) (progress router tag_of now n) (progress router tag_of now m)
      → progress router tag_of now (suc n) t s ≡ progress router tag_of now (suc m) t s
  unfolding progress
  progress_from n m t s h = elim (Bool-cases (is_protective working)) [
    | inl stop ↦ rw stop refl
    | inr child ↦ rw child (
        advance-Agree (progress router tag_of now n) (progress router tag_of now m)
          (intent_id_of t working) t (drop_ended t s) h (plan_at (intent_id_of t working) s.plans))
  ]
    where
      working : Option (WorkingOrder F)
      working = lookup t.order.id s.working

  -- With fuel for as many slices as are left, more fuel makes no difference.
  progress-Agree :
      (n k : ℕ) (t : Tracked F) (s : Exec F B)
      → left_total s.plans ≤ n
      → progress router tag_of now (suc n) t s ≡ progress router tag_of now (suc (n + k)) t s
  progress-Agree zero k t s l =
      progress_from zero (zero + k) t s λ u s' less. absurd (omega (arith, l, less))
  progress-Agree (suc n) k t s l =
      let more : suc n + k ≡ suc (n + k) = omega arith in
      rw more (
        progress_from (suc n) (suc (n + k)) t s
          λ u s' less. progress-Agree n k u s' (omega (arith, l, less)))

  -- The fuel that `on_order_progress` is given is enough: with any more of it the outcome and the
  -- state are the same, however many orders fill at placement in a chain.
  pub on_order_progress-progress :
      (t : Tracked F) (s : Exec F B) (k : ℕ)
      → on_order_progress router tag_of now t s
        ≡ progress router tag_of now (suc (all_slices s.plans + k)) t s
  unfolding on_order_progress
  on_order_progress-progress t s k =
      progress-Agree (all_slices s.plans) k t s (left_total-le s.plans)
