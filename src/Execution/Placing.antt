-- ===== src/Execution/Placing.antt =====
-- Placing orders: `execute`, `_place_next_slice`, `_place` and `_on_order_progress` of the execution
-- agent, which call each other; a chain of calls that each place a slice is bounded by fuel.
pub mod Fuel
use shiny_umbrella.Base.{
  ℕ, zero, suc, ◌+◌, ◌*◌, Bool, false, ◌||◌, not, Option, none, some, List, [], ◌∷◌, ◌++◌, Text,
  Dict, lookup, insert, erase, contains, nat_eq, list_eq, get_elem?, length, sum, map, Result, ok,
  err, runtime_error, leb, if◌then◌else◌,
}
use shiny_umbrella.Base.Actions.{Act, ◌>>=◌, ◌>>◌, pure, raises, lift, gets, modify}
use shiny_umbrella.Float.Arith.{Arith}
use shiny_umbrella.Types.Enums.{
  OrderType, OrderStatus, filled, rejected, is_working, is_terminal, day,
}
use shiny_umbrella.Types.Intents.{OrderIntent, RiskApproval}
use shiny_umbrella.Types.Messages.{warn, error}
use shiny_umbrella.Types.Orders.{OrderRequest}
use shiny_umbrella.Clock.Dates.{Timestamp, second}
use shiny_umbrella.Execution.State.{
  Tracked, Router, is_broker_error, WorkingOrder, ExecutionPlan, order_message, alert, Sent, Exec,
  publish,
}
use shiny_umbrella.Execution.Slices.{plan_slices}
use shiny_umbrella.Execution.Pricing.{price_order}
use shiny_umbrella.Execution.Approval.{Refusal, check_approval}

-- `a or b` of texts, of which the empty one is false
abbrev pub or_text : Text → Text → Text
or_text [] b = b
or_text (c ∷ cs) b = c ∷ cs

module _ {F : Type 0} where
  -- `plan.done`
  abbrev pub done : ExecutionPlan F → Bool
  done p = leb (length p.slices) p.placed

  abbrev pub is_protective : Option (WorkingOrder F) → Bool
  is_protective none = false
  is_protective (some w) = w.protective

  -- `order.intent_id or (working.intent.id if working else None)`
  abbrev pub intent_id_of : Tracked F → Option (WorkingOrder F) → Text
  intent_id_of t none = t.intent_id
  intent_id_of t (some w) = or_text t.intent_id w.intent.id

  abbrev filled_of : Option (Tracked F) → ℕ
  filled_of none = 0
  filled_of (some t) = t.order.filled_qty

  -- The quantity filled of the plan's orders
  abbrev plan_filled : Dict Text (Tracked F) → List Text → ℕ
  plan_filled seen ids = sum (map (λ id. filled_of (lookup id seen)) ids)

  -- The plan once a child order has released its successor
  abbrev pub released : Dict Text (Tracked F) → Text → ExecutionPlan F → ExecutionPlan F
  released seen id p = record p {
    advanced = id ∷ p.advanced;
    filled_qty = plan_filled seen p.orders;
  }

  -- `_plans.get(id) if id else None`
  abbrev pub plan_at : Text → Dict Text (ExecutionPlan F) → Option (ExecutionPlan F)
  plan_at [] plans = none
  plan_at (c ∷ cs) plans = lookup (c ∷ cs) plans

  -- The request for a slice of a plan
  abbrev pub slice_request : ExecutionPlan F → ℕ → Text → Option F × OrderType → OrderRequest F
  slice_request p qty tag priced = record {
    symbol = p.intent.symbol;
    side = p.intent.side;
    qty = qty;
    order_type = priced.1;
    product = p.intent.product;
    price = priced.0;
    trigger_price = none;
    validity = day;
    tag = tag;
  }

-- The plans with one of them changed
abbrev pub plans_with :
    {F : Type 0}
    → Text
    → (ExecutionPlan F → ExecutionPlan F)
    → Option (ExecutionPlan F)
    → Dict Text (ExecutionPlan F)
    → Dict Text (ExecutionPlan F)
plans_with key f none plans = plans
plans_with key f (some p) plans = insert key (f p) plans

module _ {F : Type 0} where
  -- The order that the broker returned, as the agent marks and keeps it
  unfoldable pub mark_order : Tracked F → OrderIntent F → Text → Bool → Tracked F
  mark_order t i token protective = record t {
    intent_id = i.id;
    approval_token = token;
    protective = t.protective || protective;
  }

  -- Fuel for all the slices of all the plans
  abbrev pub all_slices : Dict Text (ExecutionPlan F) → ℕ
  all_slices plans = sum (map (λ e. length e.1.slices) plans)

  -- The plan of an approval, before any slice is placed
  abbrev pub new_plan : RiskApproval F → List ℕ → ExecutionPlan F
  new_plan a slices = record {
    intent = a.intent;
    approval = a;
    slices = slices;
    placed = 0;
    filled_qty = 0;
    orders = [];
    advanced = [];
  }

module _ {F B : Type 0} where
  abbrev pub drop_ended : Tracked F → Exec F B → Exec F B
  drop_ended t s = record s {
    working = if is_terminal t.order.status then erase t.order.id s.working else s.working;
  }

  abbrev pub count_refusal : Exec F B → Exec F B
  count_refusal s = record s { rejected_without_approval = s.rejected_without_approval + 1 }

  -- The end of `_place`: what the broker's answer leads to
  unfoldable pub answered : OrderStatus → Act (Exec F B) (Unit {0}) → Act (Exec F B) (Unit {0})
  answered rejected progress = publish (alert warn)
  answered filled progress = progress
  answered _ progress = pure tt

  -- A write to the plan of an intent
  unfoldable pub update_plan :
      Text → (ExecutionPlan F → ExecutionPlan F) → Act (Exec F B) (Unit {0})
  update_plan key f = modify λ s. record s { plans = plans_with key f (lookup key s.plans) s.plans }

  unfoldable pub note_order : Text → Option (Tracked F) → Act (Exec F B) (Unit {0})
  unfolding update_plan
  note_order key none = pure tt
  note_order key (some t) = update_plan key λ p. record p { orders = p.orders ++ t.order.id ∷ [] }

-- `tag_of n` is the tag that `new_tag` makes for the request after n others.
module _ {F B : Type 0} ⦃fl : Arith F⦄ (router : Router F B) (tag_of : ℕ → Text)
    (now : Timestamp) where
  -- `self.broker.place_order(req)`, noted
  unfoldable pub send : Sent F → Act (Exec F B) (Tracked F)
  send m s =
      let (reply, broker) = router.place_order m.request s.broker in
      (reply, record s { broker = broker; sent = m ∷ s.sent })

  abbrev working_for : Tracked F → OrderIntent F → Text → Bool → WorkingOrder F
  working_for t i token protective = record {
    tracked = t;
    intent = i;
    approval_token = token;
    deadline = now + i.ttl_seconds * second;
    chase_steps = 0;
    protective = protective;
  }

  unfoldable pub keep_order : Tracked F → OrderIntent F → Text → Bool → Act (Exec F B) (Unit {0})
  keep_order t i token protective = modify λ s. record s {
    placed_count = s.placed_count + 1;
    orders_seen = insert t.order.id t s.orders_seen;
    working =
        if is_working t.order.status
        then insert t.order.id (working_for t i token protective) s.working
        else s.working;
  }

  -- `_place`, once the broker has answered; `progress` is `_on_order_progress`.
  unfoldable pub placed_reply :
      (Tracked F → Act (Exec F B) (Unit {0}))
      → OrderIntent F
      → Text
      → Bool
      → Result (Tracked F)
      → Act (Exec F B) (Option (Tracked F))
  unfolding mark_order keep_order answered
  placed_reply progress i token protective (err x) =
      if is_broker_error x then (publish (alert error) >> pure none) else raises x
  placed_reply progress i token protective (ok t) =
      let marked = mark_order t i token protective in
      do
        keep_order marked i token protective
        publish (order_message marked)
        answered marked.order.status (progress marked)
        pure (some marked)

  -- `_place`
  unfoldable pub place :
      (Tracked F → Act (Exec F B) (Unit {0}))
      → OrderRequest F
      → OrderIntent F
      → Text
      → Bool
      → Act (Exec F B) (Option (Tracked F))
  unfolding send placed_reply
  place progress req i token protective s =
      let (reply, s') = send (record { request = req; token = token; protective = protective }) s in
      placed_reply progress i token protective reply s'

  -- A slice at its price
  unfoldable pub place_priced :
      (Tracked F → Act (Exec F B) (Unit {0}))
      → Text
      → ExecutionPlan F
      → ℕ
      → Option F × OrderType
      → Act (Exec F B) (Unit {0})
  unfolding place note_order
  place_priced progress key p qty priced = do
    number ← gets λ s. length s.sent
    placed ←
        place progress (slice_request p qty (tag_of number) priced) p.intent p.approval.token false
    note_order key placed

  unfoldable pub place_slice :
      (Tracked F → Act (Exec F B) (Unit {0}))
      → Text
      → ExecutionPlan F
      → Option ℕ
      → Act (Exec F B) (Unit {0})
  unfolding place_priced update_plan
  place_slice progress key p none = pure tt
  place_slice progress key p (some qty) = do
    update_plan key λ q. record q { placed = q.placed + 1 }
    answer ← gets λ s. price_order s p.intent
    priced ← lift answer
    place_priced progress key p qty priced

  -- `_place_next_slice`, of a plan and its key
  unfoldable pub place_next_slice :
      (Tracked F → Act (Exec F B) (Unit {0}))
      → Text
      → Option (ExecutionPlan F)
      → Act (Exec F B) (Unit {0})
  unfolding place_slice
  place_next_slice progress key none = pure tt
  place_next_slice progress key (some p) = do
    halted ← gets λ s. s.halted
    if done p || halted then pure tt else place_slice progress key p (get_elem? p.slices p.placed)

  unfoldable pub release_next :
      (Tracked F → Act (Exec F B) (Unit {0})) → Text → Act (Exec F B) (Unit {0})
  unfolding place_next_slice
  release_next progress key s = place_next_slice progress key (lookup key s.plans) s

  -- The end of `_on_order_progress`, for the plan that the order belongs to
  unfoldable pub advance :
      (Tracked F → Act (Exec F B) (Unit {0}))
      → Text
      → Tracked F
      → Option (ExecutionPlan F)
      → Act (Exec F B) (Unit {0})
  unfolding update_plan release_next
  advance progress key t none = pure tt
  advance progress key t (some p) =
      if not (is_terminal t.order.status) || contains t.order.id p.advanced then pure tt else (do
        seen ← gets λ s. s.orders_seen
        update_plan key (released seen t.order.id)
        release_next progress key)

  -- `_on_order_progress`, with fuel for the slices that it may lead to
  unfoldable pub progress : ℕ → Tracked F → Act (Exec F B) (Unit {0})
  unfolding advance
  progress zero t = raises runtime_error
  progress (suc n) t = do
    working ← gets λ s. lookup t.order.id s.working
    modify (drop_ended t)
    plan ← gets λ s. plan_at (intent_id_of t working) s.plans
    if is_protective working then pure tt else advance (progress n) (intent_id_of t working) t plan

  unfoldable pub on_order_progress : Tracked F → Act (Exec F B) (Unit {0})
  unfolding progress
  on_order_progress t s = progress (suc (all_slices s.plans)) t s

  -- `execute`, of an approval and its intent
  unfoldable pub execute : RiskApproval F → Act (Exec F B) (Unit {0})
  unfolding place_next_slice on_order_progress
  execute a = do
    answer ← gets λ s. plan_slices s a.intent.symbol a.approved_qty
    slices ← lift answer
    modify λ s. record s { plans = insert a.intent.id (new_plan a slices) s.plans }
    place_next_slice on_order_progress a.intent.id (some (new_plan a slices))

  unfoldable pub gate : RiskApproval F → Option Refusal → Act (Exec F B) (Unit {0})
  unfolding execute
  gate a (some why) = do modify count_refusal; publish (alert error)
  gate a none = do
    modify λ s. record s {
      used_tokens = a.token ∷ s.used_tokens;
      accepted = insert a.token a.approved_qty s.accepted;
    }
    execute a

  -- `_on_approval`
  unfoldable pub on_approval : RiskApproval F → Act (Exec F B) (Unit {0})
  unfolding gate
  on_approval a = do problem ← gets λ s. check_approval s now a; gate a problem
