-- ===== src/Execution/Manage.antt =====
-- Chasing and cancelling what rests, and the reconciliation with the broker's book: `manage`,
-- `cancel_where` and `reconcile` of the execution agent.
use shiny_umbrella.Base.{
  ℕ, ◌+◌, Bool, true, false, ◌&&◌, not, List, Text, lookup, erase, contains, nat_eq, list_eq,
  values, keys, map, Result, ok, err, ltb, leb, if◌then◌else◌, or_else, is_some,
}
use shiny_umbrella.Base.Actions.{Act, ◌>>=◌, ◌>>◌, pure, raises, gets, modify, for_each}
use shiny_umbrella.Float.Arith.{Arith, ◌⊕◌, ◌⊖◌, ◌⊗◌, ◌⊘◌, ◌≺◌, of_ℕ, round_to}
use shiny_umbrella.Types.Enums.{Side, buy, sell, OrderType, limit, is_working}
use shiny_umbrella.Types.Messages.{warn, error}
use shiny_umbrella.Types.Orders.{Order}
use shiny_umbrella.Clock.Dates.{Timestamp}
use shiny_umbrella.Execution.State.{
  Tracked, Router, is_broker_error, WorkingOrder, order_message, alert, Exec, publish,
}
use shiny_umbrella.Execution.Fills.{or_number}
use shiny_umbrella.Execution.Pricing.{tick_size}
use shiny_umbrella.Execution.Placing.{on_order_progress}
use shiny_umbrella.Execution.Updates.{working_with, see_order, cancel}

abbrev is_limit : OrderType → Bool
is_limit limit = true
is_limit _ = false

module _ {F : Type 0} where
  -- A working order as it now is, if it is still there
  abbrev pub now_working : {B : Type 0} → Exec F B → WorkingOrder F → WorkingOrder F
  now_working s w = or_else (lookup w.tracked.order.id s.working) w

  abbrev pub chased : Tracked F → WorkingOrder F → WorkingOrder F
  chased t w = record w { chase_steps = w.chase_steps + 1; tracked = t }

  abbrev pub drop_idle : {B : Type 0} → Tracked F → Exec F B → Exec F B
  drop_idle t s = record s {
    working = if is_working t.order.status then s.working else erase t.order.id s.working;
  }

  abbrev pub drop_working : {B : Type 0} → Text → Exec F B → Exec F B
  drop_working id s = record s { working = erase id s.working }

module _ {F : Type 0} ⦃fl : Arith F⦄ where
  -- A step of the chase and its bound
  stepped : Side → F → F → F
  stepped buy price tick = price ⊕ tick
  stepped sell price tick = price ⊖ tick

  chase_bound : Side → F → F → F
  chase_bound buy ref bps = ref ⊗ (of_ℕ 1 ⊕ bps ⊘ of_ℕ 10000)
  chase_bound sell ref bps = ref ⊗ (of_ℕ 1 ⊖ bps ⊘ of_ℕ 10000)

  unfoldable pub too_far : Side → F → F → Bool
  too_far buy price bound = bound ≺ price
  too_far sell price bound = price ≺ bound

  -- The price to chase to
  unfoldable pub chase_price : {B : Type 0} → Exec F B → WorkingOrder F → F
  unfolding stepped
  chase_price s w =
      stepped w.intent.side (or_number w.tracked.order.price w.intent.reference_price)
        (tick_size s w.intent.symbol)

  -- Whether a working order is chased
  unfoldable pub chases : {B : Type 0} → Exec F B → Timestamp → WorkingOrder F → Bool
  unfolding chase_bound too_far
  chases s now w =
      is_limit w.tracked.order.order_type
      && is_working w.tracked.order.status
      && ltb w.chase_steps s.cfg.max_chase_steps
      && leb (w.tracked.order.updated_at + s.cfg.chase_interval) now
      && not (
          too_far w.intent.side (chase_price s w)
            (chase_bound w.intent.side w.intent.reference_price s.cfg.max_chase_bps))

module _ {F B : Type 0} ⦃fl : Arith F⦄ (router : Router F B) (tag_of : ℕ → Text)
    (now : Timestamp) where
  unfoldable pub chased_reply : Text → Result (Tracked F) → Act (Exec F B) (Unit {0})
  unfolding on_order_progress
  chased_reply id (err x) = if is_broker_error x then publish (alert warn) else raises x
  chased_reply id (ok t) = do
    entry ← gets λ s. lookup id s.working
    modify (working_with id (chased t) entry)
    modify (see_order t)
    publish (order_message t)
    on_order_progress router tag_of now t

  unfoldable pub chase : WorkingOrder F → Act (Exec F B) (Unit {0})
  unfolding chased_reply
  chase w s =
      let id = w.tracked.order.id in
      let (reply, broker) = router.modify_price id (round_to 4 (chase_price s w)) s.broker in
      chased_reply id reply (record s { broker = broker })

  -- `_maybe_chase`
  unfoldable pub maybe_chase : WorkingOrder F → Act (Exec F B) (Unit {0})
  unfolding chase
  maybe_chase w = do chased ← gets λ s. chases s now w; if chased then chase w else pure tt

  -- The turn of a working order in `manage`
  unfoldable pub tend : WorkingOrder F → Act (Exec F B) (Unit {0})
  unfolding maybe_chase cancel
  tend old = do
    w ← gets λ s. now_working s old
    if w.protective
        then pure tt
        else (if leb w.deadline now
            then cancel router tag_of now w.tracked.order.id
            else maybe_chase w)

  -- `manage`
  unfoldable pub manage : Act (Exec F B) (Unit {0})
  unfolding tend
  manage = do ws ← gets λ s. values s.working; for_each ws tend

  unfoldable pub cancel_if : (Order F → Bool) → Text × WorkingOrder F → Act (Exec F B) (Unit {0})
  unfolding cancel
  cancel_if test entry = do
    w ← gets λ s. or_else (lookup entry.0 s.working) entry.1
    if test w.tracked.order then cancel router tag_of now entry.0 else pure tt

  -- `cancel_where`, and `cancel_all`
  unfoldable pub cancel_where : (Order F → Bool) → Act (Exec F B) (Unit {0})
  unfolding cancel_if
  cancel_where test = do ws ← gets λ s. s.working; for_each ws (cancel_if test)

  abbrev pub cancel_all : Act (Exec F B) (Unit {0})
  cancel_all = cancel_where λ o. true

module _ {F B : Type 0} where
  -- The turn of an order of the broker's book in `reconcile`
  unfoldable pub reconcile_order : Tracked F → Act (Exec F B) (Unit {0})
  reconcile_order t = do
    previous ← gets λ s. lookup t.order.id s.orders_seen
    modify (see_order t)
    if not (is_some previous) && is_working t.order.status then publish (alert warn) else pure tt
    modify (drop_idle t)
    publish (order_message t)

  -- The turn of a working order in `reconcile`
  unfoldable pub close_vanished : List Text → Text → Act (Exec F B) (Unit {0})
  close_vanished seen id =
      if contains id seen then pure tt else (modify (drop_working id) >> publish (alert warn))

  unfoldable pub reconcile_with : List (Tracked F) → Act (Exec F B) (Unit {0})
  unfolding reconcile_order close_vanished
  reconcile_with book = do
    for_each book reconcile_order
    ids ← gets λ s. keys s.working
    for_each ids (close_vanished (map (λ t. t.order.id) book))

  unfoldable pub reconciled : Result (List (Tracked F)) → Act (Exec F B) (Unit {0})
  unfolding reconcile_with
  reconciled (err x) = if is_broker_error x then publish (alert error) else raises x
  reconciled (ok book) = reconcile_with book

  -- `reconcile`, without the counts that it returns and logs
  unfoldable pub reconcile : Router F B → Act (Exec F B) (Unit {0})
  unfolding reconciled
  reconcile router s =
      let (reply, broker) = router.orders s.broker in
      reconciled reply (record s { broker = broker })
