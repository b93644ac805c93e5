-- ===== src/Execution/Steps/Runs.antt =====
-- Every call of the execution agent keeps what the steps keep.
use shiny_umbrella.Base.{
  ℕ, zero, suc, ◌≡◌, refl, Bool, true, false, ◌||◌, not, Option, none, some, List, ◌∷◌, Text,
  lookup, lookup-insert_self, insert, contains, ◌<◌, runtime_error, nat_eq, list_eq, get_elem?,
  length, Result, ok, err, if◌then◌else◌, if_either,
}
use mathlib.Core.Path.{subst}
use shiny_umbrella.Base.Actions.{
  Act, ◌>>◌, after, pure, modify, Keeps, Keeps-bind, Keeps-lift, Keeps-gets, bind_at,
}
use shiny_umbrella.Float.Arith.{Arith}
use shiny_umbrella.Types.Enums.{
  OrderType, OrderStatus, pending, trigger_pending, open_, partial, filled, cancelled, rejected,
  is_terminal,
}
use shiny_umbrella.Types.Intents.{OrderIntent, RiskApproval}
use shiny_umbrella.Types.Messages.{warn, error}
use shiny_umbrella.Clock.Dates.{Timestamp}
use shiny_umbrella.Execution.State.{
  Tracked, Router, is_broker_error, ExecutionPlan, Message, order_message, alert, Exec, publish,
}
use shiny_umbrella.Execution.Approval.{Refusal, check_approval, check_approval_iff}
use shiny_umbrella.Execution.Slices.{plan_slices}
use shiny_umbrella.Execution.Slices.Sums.{sum-plan_slices}
use shiny_umbrella.Execution.Pricing.{price_order}
use shiny_umbrella.Execution.Placing.{
  done, slice_request, send, mark_order, keep_order, answered, placed_reply, place, update_plan,
  plans_with, note_order, place_priced, place_slice, place_next_slice, drop_ended, count_refusal,
  advance, released, release_next, progress, on_order_progress, plan_at, intent_id_of,
  is_protective, all_slices, new_plan, execute, gate, on_approval,
}
use shiny_umbrella.Execution.Steps.{
  Untouched, Amended, Due, placed_more, Step, writes, amends, skips, places, accepts, starts,
}

module _ {F B : Type 0} ⦃fl : Arith F⦄ (router : Router F B) (tag_of : ℕ → Text) (now : Timestamp)
    (P : Exec F B → Type 0) (closed : (s t : Exec F B) → Step s t → P s → P t) where
  -- A write that leaves alone what decides what may be placed
  pub write-Keeps :
      (f : Exec F B → Exec F B) → ((s : Exec F B) → Untouched s (f s)) → Keeps P (modify f)
  write-Keeps f u = record { holds = λ s p. closed s (f s) (writes s (f s) (u s)) p }

  pub publish-Keeps : (m : Message F) → Keeps P (publish m)
  publish-Keeps m =
      write-Keeps _ λ s. record {
        halted = refl;
        used_tokens = refl;
        plans = refl;
        sent = refl;
        accepted = refl;
      }

  keep_order-Keeps :
      (t : Tracked F) (i : OrderIntent F) (token : Text) (b : Bool)
      → Keeps P (keep_order router tag_of now t i token b)
  unfolding keep_order
  keep_order-Keeps t i token b =
      write-Keeps _ λ s. record {
        halted = refl;
        used_tokens = refl;
        plans = refl;
        sent = refl;
        accepted = refl;
      }

  answered-Keeps :
      (x : OrderStatus) (m : Act (Exec F B) (Unit {0})) → Keeps P m → Keeps P (answered x m)
  unfolding answered
  answered-Keeps rejected m h = publish-Keeps (alert warn)
  answered-Keeps filled m h = h
  answered-Keeps pending m h = Keeps-lift P (ok tt)
  answered-Keeps trigger_pending m h = Keeps-lift P (ok tt)
  answered-Keeps open_ m h = Keeps-lift P (ok tt)
  answered-Keeps partial m h = Keeps-lift P (ok tt)
  answered-Keeps cancelled m h = Keeps-lift P (ok tt)

  pub placed_reply-Keeps :
      (prog : Tracked F → Act (Exec F B) (Unit {0})) (i : OrderIntent F) (token : Text) (b : Bool)
      (r : Result (Tracked F))
      → ((t : Tracked F) → Keeps P (prog t))
      → Keeps P (placed_reply router tag_of now prog i token b r)
  unfolding placed_reply
  placed_reply-Keeps prog i token b (err x) h =
      if_either (Keeps P) (is_broker_error x)
        (Keeps-bind P (publish (alert error)) (λ _. pure none) (publish-Keeps (alert error))
          (λ _. Keeps-lift P (ok none)))
        (Keeps-lift P (err x))
  placed_reply-Keeps prog i token b (ok t) h =
      let marked = mark_order t i token b in
      Keeps-bind P (keep_order router tag_of now marked i token b) _
        (keep_order-Keeps marked i token b)
        λ _.
          Keeps-bind P (publish (order_message marked)) _ (publish-Keeps (order_message marked))
            λ _.
              Keeps-bind P (answered marked.order.status (prog marked)) _
                (answered-Keeps marked.order.status (prog marked) (h marked))
                λ _. Keeps-lift P (ok (some marked))

  -- A write to a plan that amends it
  update_plan-Keeps :
      (key : Text) (f : ExecutionPlan F → ExecutionPlan F)
      → ((p : ExecutionPlan F) → Amended p (f p))
      → Keeps P (update_plan key f)
  unfolding update_plan
  update_plan-Keeps key f h = record { holds = λ s p. by s p (lookup key s.plans) refl }
    where
      by :
          (s : Exec F B)
          → P s
          → (o : Option (ExecutionPlan F)) → lookup key s.plans ≡ o
          → P (record s { plans = plans_with key f o s.plans })
      by s p none e = p
      by s p (some q) e = closed s _ (amends s key q (f q) e (h q)) p

  note_order-Keeps : (key : Text) (o : Option (Tracked F)) → Keeps P (note_order key o)
  unfolding note_order
  note_order-Keeps key none = Keeps-lift P (ok tt)
  note_order-Keeps key (some t) =
      update_plan-Keeps key _ λ p. record { approval = refl; slices = refl; placed = refl }

  -- A slice that is due is sent as its plan says.
  place_priced_at :
      (prog : Tracked F → Act (Exec F B) (Unit {0})) (key : Text) (p : ExecutionPlan F) (qty : ℕ)
      (priced : Option F × OrderType) (s : Exec F B)
      → ((t : Tracked F) → Keeps P (prog t))
      → Due s key p qty
      → P s
      → P
          (place_priced router tag_of now prog key p qty priced
            (record s { plans = insert key (placed_more p) s.plans })).1
  unfolding place_priced place send
  place_priced_at prog key p qty priced s h due q =
      let s' = record s { plans = insert key (placed_more p) s.plans } in
      let tag = tag_of (length s.sent) in
      let req = slice_request p qty tag priced in
      let reply = router.place_order req s.broker in
      bind_at P (place router tag_of now prog req p.intent p.approval.token false) (note_order key)
        s'
        ((placed_reply-Keeps prog p.intent p.approval.token false reply.0 h).holds _
          (closed s _ (places s key p qty _ reply.1 due refl refl) q))
        (note_order-Keeps key)

  place_slice_at :
      (prog : Tracked F → Act (Exec F B) (Unit {0})) (key : Text) (p : ExecutionPlan F) (qty : ℕ)
      (s : Exec F B)
      → ((t : Tracked F) → Keeps P (prog t))
      → Due s key p qty
      → P s
      → P (place_slice router tag_of now prog key p (some qty) s).1
  unfolding place_slice update_plan
  place_slice_at prog key p qty s h due q =
      rw due.found
        (by (price_order (record s { plans = insert key (placed_more p) s.plans }) p.intent))
    where
      by :
          (r : Result (Option F × OrderType))
          → P
              (after r
                (place_priced router tag_of now prog key p qty)
                (record s { plans = insert key (placed_more p) s.plans })).1
      by (err x) = closed s _ (skips s key p qty due) q
      by (ok priced) = place_priced_at prog key p qty priced s h due q

  place_next_slice-Keeps :
      (prog : Tracked F → Act (Exec F B) (Unit {0})) (key : Text) (s : Exec F B)
      → ((t : Tracked F) → Keeps P (prog t))
      → P s
      → P (place_next_slice router tag_of now prog key (lookup key s.plans) s).1
  unfolding place_next_slice place_slice
  place_next_slice-Keeps prog key s h q = by (lookup key s.plans) refl
    where
      due_or_not :
          (p : ExecutionPlan F) (o : Option ℕ)
          → lookup key s.plans ≡ some p
          → s.halted ≡ false
          → get_elem? p.slices p.placed ≡ o
          → P (place_slice router tag_of now prog key p o s).1
      due_or_not p none e r g = q
      due_or_not p (some qty) e r g =
          place_slice_at prog key p qty s h (record { found = e; running = r; slice = g }) q

      unless :
          (p : ExecutionPlan F) (d b : Bool)
          → lookup key s.plans ≡ some p
          → s.halted ≡ b
          → P
              ((if d || b
                  then pure tt
                  else place_slice router tag_of now prog key p (get_elem? p.slices p.placed))
                s).1
      unless p true b e r = q
      unless p false true e r = q
      unless p false false e r = due_or_not p (get_elem? p.slices p.placed) e r refl

      by :
          (o : Option (ExecutionPlan F))
          → lookup key s.plans ≡ o
          → P (place_next_slice router tag_of now prog key o s).1
      by none e = q
      by (some p) e = unless p (done p) s.halted e refl

  advance-Keeps :
      (prog : Tracked F → Act (Exec F B) (Unit {0})) (key : Text) (t : Tracked F)
      (o : Option (ExecutionPlan F))
      → ((u : Tracked F) → Keeps P (prog u))
      → Keeps P (advance router tag_of now prog key t o)
  unfolding advance release_next
  advance-Keeps prog key t none h = Keeps-lift P (ok tt)
  advance-Keeps prog key t (some p) h =
      if_either (Keeps P) (not (is_terminal t.order.status) || contains t.order.id p.advanced)
        (Keeps-lift P (ok tt))
        (Keeps-gets P (λ s. s.orders_seen)
          (λ seen.
            update_plan key (released seen t.order.id) >> release_next router tag_of now prog key)
          λ seen.
            Keeps-bind P (update_plan key (released seen t.order.id))
              (λ _. release_next router tag_of now prog key)
              (update_plan-Keeps key (released seen t.order.id)
                λ q. record { approval = refl; slices = refl; placed = refl })
              λ _. record { holds = λ s q. place_next_slice-Keeps prog key s h q })

  progress-Keeps : (n : ℕ) (t : Tracked F) → Keeps P (progress router tag_of now n t)
  unfolding progress
  progress-Keeps zero t = Keeps-lift P (err runtime_error)
  progress-Keeps (suc n) t =
      Keeps-gets P (λ s. lookup t.order.id s.working) _
        λ working.
          Keeps-bind P (modify (drop_ended t)) _
            (write-Keeps (drop_ended t) λ s. record {
              halted = refl;
              used_tokens = refl;
              plans = refl;
              sent = refl;
              accepted = refl;
            })
            λ _.
              Keeps-gets P (λ s. plan_at (intent_id_of t working) s.plans) _
                λ plan. if_either (Keeps P) (is_protective working) (Keeps-lift P (ok tt)) (
                  advance-Keeps (progress router tag_of now n) (intent_id_of t working) t plan
                    (progress-Keeps n))

  pub on_order_progress-Keeps : (t : Tracked F) → Keeps P (on_order_progress router tag_of now t)
  unfolding on_order_progress
  on_order_progress-Keeps t = record {
    holds = λ s q. (progress-Keeps (suc (all_slices s.plans)) t).holds s q;
  }

  execute_at :
      (a : RiskApproval F) (s : Exec F B)
      → contains a.token s.used_tokens ≡ false
      → 0 < a.approved_qty
      → P s
      → P (gate router tag_of now a none s).1
  unfolding gate execute
  execute_at a s unused some_qty q = by (plan_slices s' a.intent.symbol a.approved_qty) refl
    where
      s' : Exec F B
      s' = record s {
        used_tokens = a.token ∷ s.used_tokens;
        accepted = insert a.token a.approved_qty s.accepted;
      }

      started : List ℕ → Exec F B
      started slices = record s' { plans = insert a.intent.id (new_plan a slices) s.plans }

      go :
          (slices : List ℕ)
          → P (started slices)
          → P
              (place_next_slice router tag_of now
                (on_order_progress router tag_of now)
                a.intent.id
                (some (new_plan a slices))
                (started slices)).1
      go slices p =
          subst
            (λ o.
              P
                (place_next_slice router tag_of now (on_order_progress router tag_of now)
                  a.intent.id o (started slices)).1)
            (lookup-insert_self a.intent.id (new_plan a slices) s.plans)
            (place_next_slice-Keeps (on_order_progress router tag_of now) a.intent.id
              (started slices) on_order_progress-Keeps p)

      by :
          (r : Result (List ℕ))
          → plan_slices s' a.intent.symbol a.approved_qty ≡ r
          → P
              (after r
                (λ slices.
                  modify (λ s. record s { plans = insert a.intent.id (new_plan a slices) s.plans })
                  >> place_next_slice router tag_of now
                      (on_order_progress router tag_of now)
                      a.intent.id
                      (some (new_plan a slices)))
                s').1
      by (err x) e = closed s _ (accepts s a unused) q
      by (ok slices) e = go slices (
          closed s _
            (starts s a slices unused
              (sum-plan_slices s' a.intent.symbol a.approved_qty some_qty e))
            q)

  pub on_approval-Keeps : (a : RiskApproval F) → Keeps P (on_approval router tag_of now a)
  unfolding on_approval gate
  on_approval-Keeps a = record { holds = λ s q. by s q (check_approval s now a) refl }
    where
      by :
          (s : Exec F B)
          → P s
          → (o : Option Refusal) → check_approval s now a ≡ o
          → P (gate router tag_of now a o s).1
      by s q (some why) e =
          (Keeps-bind P (modify count_refusal) (λ _. publish (alert error))
              (write-Keeps count_refusal λ s. record {
                halted = refl;
                used_tokens = refl;
                plans = refl;
                sent = refl;
                accepted = refl;
              })
              (λ _. publish-Keeps (alert error))).holds
            s q
      by s q none e =
          let live = (check_approval_iff s now a).0 e in execute_at a s live.unused live.positive q
