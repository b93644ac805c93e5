-- ===== src/Execution/Updates.antt =====
-- What the broker reports to the execution agent: fills, which it publishes and brackets, and the
-- states of orders; and the cancelling of orders.
use shiny_umbrella.Base.{
  ℕ, ◌+◌, ◌-◌, pos, ◌+ℤ◌, eqb_ℤ, true, ◌||◌, not, Option, none, some, List, [], ◌∷◌, ◌++◌, Text,
  lookup, insert, erase, contains, nat_eq, list_eq, pair_eq, ◌==◌, Result, ok, err, ltb,
  if◌then◌else◌, or_else, is_some, length,
}
use shiny_umbrella.Base.Actions.{Act, ◌>>=◌, ◌>>◌, pure, raises, lift, gets, modify, for_each}
use shiny_umbrella.Float.Arith.{Arith}
use shiny_umbrella.Types.Enums.{signed, product_eq}
use shiny_umbrella.Types.Intents.{OrderIntent}
use shiny_umbrella.Types.Messages.{warn}
use shiny_umbrella.Types.Orders.{Fill}
use shiny_umbrella.Clock.Dates.{Timestamp}
use shiny_umbrella.Paper.State.{Key}
use shiny_umbrella.Execution.State.{
  Tracked, Router, is_broker_error, WorkingOrder, ExecutionPlan, order_message, fill_message, alert,
  Exec, publish,
}
use shiny_umbrella.Execution.Fills.{stop_pct_of, synthesise_fill, bracket_request}
use shiny_umbrella.Execution.Placing.{or_text, is_protective, place, on_order_progress}

-- `list.remove(x)`
unfoldable pub remove_first : Text → List Text → List Text
remove_first id [] = []
remove_first id (x ∷ xs) = let rest = remove_first id xs in if x == id then xs else x ∷ rest

module _ {F : Type 0} where
  abbrev pub filled_before : Option (Tracked F) → ℕ
  filled_before none = 0
  filled_before (some t) = t.order.filled_qty

  -- The order with what the agent knows of it
  abbrev pub adopt : Tracked F → Option (WorkingOrder F) → Tracked F
  adopt t none = t
  adopt t (some w) = record t {
    intent_id = or_text t.intent_id w.intent.id;
    approval_token = or_text t.approval_token w.approval_token;
  }

  abbrev intent_in : Option (ExecutionPlan F) → Option (OrderIntent F) → Option (OrderIntent F)
  intent_in none known = known
  intent_in (some p) known = some p.intent

  -- `_intent_for`
  abbrev pub intent_for : {B : Type 0} → Exec F B → Text → Option (OrderIntent F)
  intent_for s [] = none
  intent_for s (c ∷ cs) = intent_in (lookup (c ∷ cs) s.plans) (lookup (c ∷ cs) s.intents)

  abbrev pub bracketed_intent :
      Option (WorkingOrder F) → Option (OrderIntent F) → Option (OrderIntent F)
  bracketed_intent none found = found
  bracketed_intent (some w) found = some w.intent

  abbrev pub token_in : Option (WorkingOrder F) → Text
  token_in none = []
  token_in (some w) = w.approval_token

  abbrev pub child_of : Text → Tracked F → Tracked F
  child_of parent t = record t { parent_id = parent }

  abbrev pub working_child : Text → WorkingOrder F → WorkingOrder F
  working_child parent w = record w { tracked = child_of parent w.tracked }

  abbrev pub reworked : Tracked F → WorkingOrder F → WorkingOrder F
  reworked t w = record w { tracked = t }

  -- The working order with its order replaced, if it is there
  abbrev pub working_with :
      {B : Type 0}
      → Text
      → (WorkingOrder F → WorkingOrder F)
      → Option (WorkingOrder F)
      → Exec F B
      → Exec F B
  working_with id f none s = s
  working_with id f (some w) s = record s { working = insert id (f w) s.working }

  abbrev pub seen_with :
      {B : Type 0} → Text → (Tracked F → Tracked F) → Option (Tracked F) → Exec F B → Exec F B
  seen_with id f none s = s
  seen_with id f (some t) s = record s { orders_seen = insert id (f t) s.orders_seen }

module _ {F B : Type 0} where
  abbrev pub note_cancelled : Text → Tracked F → Exec F B → Exec F B
  note_cancelled id t s = record s {
    working = erase id s.working;
    orders_seen = insert t.order.id t s.orders_seen;
  }

  abbrev pub forget_stop : Key → Text → Exec F B → Exec F B
  forget_stop key id s = record s {
    protective = insert key (remove_first id (or_else (lookup key s.protective) [])) s.protective;
  }

  abbrev pub count_fill : Exec F B → Exec F B
  count_fill s = record s { fills_published = s.fills_published + 1 }

  abbrev pub book_net : Fill F → Exec F B → Exec F B
  book_net f s = record s {
    net =
        insert (f.symbol, f.product)
          (or_else (lookup (f.symbol, f.product) s.net) (pos 0) +ℤ signed f.side f.qty) s.net;
  }

  abbrev pub see_order : Tracked F → Exec F B → Exec F B
  see_order t s = record s { orders_seen = insert t.order.id t s.orders_seen }

  abbrev pub remember_stop : OrderIntent F → Text → Exec F B → Exec F B
  remember_stop i id s = record s {
    protective =
        insert (i.symbol, i.product)
          (or_else (lookup (i.symbol, i.product) s.protective) [] ++ id ∷ []) s.protective;
  }

  abbrev pub note_real : Fill F → Exec F B → Exec F B
  note_real f s = record s { real_fill_orders = f.order_id ∷ s.real_fill_orders }

module _ {F B : Type 0} ⦃fl : Arith F⦄ (router : Router F B) (tag_of : ℕ → Text)
    (now : Timestamp) where
  unfoldable pub cancelled_reply : Text → Result (Tracked F) → Act (Exec F B) (Unit {0})
  unfolding on_order_progress
  cancelled_reply id (err x) = if is_broker_error x then publish (alert warn) else raises x
  cancelled_reply id (ok t) = do
    modify (note_cancelled id t)
    publish (order_message t)
    on_order_progress router tag_of now t

  -- `cancel`
  unfoldable pub cancel : Text → Act (Exec F B) (Unit {0})
  unfolding cancelled_reply
  cancel id s =
      let (reply, broker) = router.cancel_order id s.broker in
      cancelled_reply id reply (record s { broker = broker })

  -- The turn of an order in `_cancel_protective`
  unfoldable pub release : Key → Text → Text → Act (Exec F B) (Unit {0})
  unfolding cancel
  release key exclude id = do
    modify (forget_stop key id)
    working ← gets λ s. lookup id s.working
    if id == exclude || not (is_some working) then pure tt else cancel id

  -- `_cancel_protective`
  unfoldable pub cancel_protective : Key → Text → Act (Exec F B) (Unit {0})
  unfolding release
  cancel_protective key exclude = do
    ids ← gets λ s. or_else (lookup key s.protective) []
    for_each ids (release key exclude)

  -- `_publish_fill`
  unfoldable pub publish_fill : Fill F → Act (Exec F B) (Unit {0})
  unfolding cancel_protective
  publish_fill f = do
    modify count_fill
    publish (fill_message f)
    let key : Key = (f.symbol, f.product)
    modify (book_net f)
    position ← gets λ s. or_else (lookup key s.net) (pos 0)
    if eqb_ℤ position (pos 0) then cancel_protective key f.order_id else pure tt

  unfoldable pub publish_delta : Tracked F → Option (Tracked F) → Act (Exec F B) (Unit {0})
  unfolding publish_fill
  publish_delta t previous =
      if ltb (filled_before previous) t.order.filled_qty
      then (do
        answer ←
            gets
              λ s. synthesise_fill s t.order (t.order.filled_qty - filled_before previous) previous
        f ← lift answer
        publish_fill f)
      else pure tt

  -- `_on_order_update`
  unfoldable pub on_order_update : Tracked F → Act (Exec F B) (Unit {0})
  unfolding publish_delta on_order_progress
  on_order_update raw = do
    let id = raw.order.id
    previous ← gets λ s. lookup id s.orders_seen
    known ← gets λ s. lookup id s.working
    let t = adopt raw known
    modify (working_with id (reworked t) known)
    modify (see_order t)
    publish (order_message t)
    real ← gets λ s. contains id s.real_fill_orders
    if real then pure tt else publish_delta t previous
    on_order_progress router tag_of now t

  -- `placed.parent_id = order.id`, and the entry of the stop under its position
  unfoldable pub note_stop : Text → OrderIntent F → Option (Tracked F) → Act (Exec F B) (Unit {0})
  note_stop parent i none = pure tt
  note_stop parent i (some stop) = do
    let id = stop.order.id
    seen ← gets λ s. lookup id s.orders_seen
    modify (seen_with id (child_of parent) seen)
    working ← gets λ s. lookup id s.working
    modify (working_with id (working_child parent) working)
    modify (remember_stop i id)

  unfoldable pub bracket :
      Tracked F → Fill F → Text → Option (OrderIntent F) → Option F → Act (Exec F B) (Unit {0})
  unfolding place note_stop on_order_progress
  bracket t f token none pct = pure tt
  bracket t f token (some i) none = pure tt
  bracket t f token (some i) (some pct) = do
    made ← gets λ s. bracket_request s i f pct (tag_of (length s.sent))
    stop ← place router tag_of now (on_order_progress router tag_of now) made i token true
    note_stop t.order.id i stop

  -- `_maybe_bracket`
  unfoldable pub maybe_bracket : Tracked F → Fill F → Act (Exec F B) (Unit {0})
  unfolding bracket
  maybe_bracket t f = do
    cfg ← gets λ s. s.cfg
    working ← gets λ s. lookup t.order.id s.working
    found ← gets λ s. intent_for s t.intent_id
    let i = bracketed_intent working found
    if not cfg.place_bracket_stop || is_protective working
        then pure tt
        else (do pct ← lift (stop_pct_of i); bracket t f (token_in working) i pct)

  unfoldable pub bracket_seen : Fill F → Option (Tracked F) → Act (Exec F B) (Unit {0})
  unfolding maybe_bracket
  bracket_seen f none = pure tt
  bracket_seen f (some t) = maybe_bracket t f

  -- `handle_update`, of a fill
  unfoldable pub on_fill_update : Fill F → Act (Exec F B) (Unit {0})
  unfolding publish_fill bracket_seen
  on_fill_update f = do
    modify (note_real f)
    publish_fill f
    seen ← gets λ s. lookup f.order_id s.orders_seen
    bracket_seen f seen
