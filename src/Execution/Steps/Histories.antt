-- ===== src/Execution/Steps/Histories.antt =====
-- Every event keeps what the steps keep, but for a command to resume; and so does a history.
use shiny_umbrella.Base.{
  ℕ, ◌≡◌, refl, Bool, true, false, not, ◌&&◌, List, [], ◌∷◌, Text, lookup, nat_eq, list_eq,
  contains, values, keys, map, or_else, is_some, All, Result, ok, err, if◌then◌else◌, if_either,
  leb,
}
use shiny_umbrella.Base.Actions.{
  pure, modify, for_each, Keeps, Keeps-bind, Keeps-lift, Keeps-gets, Keeps-for_each,
}
use shiny_umbrella.Float.Arith.{Arith, round_to}
use shiny_umbrella.Types.Enums.{is_working}
use shiny_umbrella.Types.Messages.{warn, error}
use shiny_umbrella.Types.Orders.{Order}
use shiny_umbrella.Clock.Dates.{Timestamp}
use shiny_umbrella.Execution.State.{
  Tracked, Router, is_broker_error, WorkingOrder, Message, order_message, alert, Exec, publish,
}
use shiny_umbrella.Execution.Placing.{on_approval}
use shiny_umbrella.Execution.Updates.{working_with, see_order}
use shiny_umbrella.Execution.Manage.{
  now_working, chased, drop_idle, drop_working, chase_price, chases, chased_reply, chase,
  maybe_chase, tend, manage, cancel_if, cancel_where, cancel_all, reconcile_order, close_vanished,
  reconcile_with, reconciled, reconcile,
}
use shiny_umbrella.Execution.Handlers.{
  Control, kill, resume, flatten, other, control_of, control, Event, intent, approval, tick, bar,
  command, order_report, fill_report, timer, reconnect, broker_moves, shared_orders, settle, handle,
  handle_all,
}
use shiny_umbrella.Execution.Steps.{Untouched, Step, writes, kills}
use shiny_umbrella.Execution.Steps.Runs.{on_approval-Keeps}
use shiny_umbrella.Execution.Steps.Reports.{
  wrote, said, progressed, moved, working_with-Untouched, cancel-Keeps, on_order_update-Keeps,
  on_fill_update-Keeps,
}

module _ {F B : Type 0} where
  -- What is kept is kept by a resumption too, if the event is one.
  abbrev pub Allowed : (Exec F B → Type 0) → Event F B → Type 0
  Allowed P (command c) =
      control_of c.command ≡ resume → (s : Exec F B) → P s → P (record s { halted = false })
  Allowed P _ = Unit

module _ {F B : Type 0} ⦃fl : Arith F⦄ (router : Router F B) (tag_of : ℕ → Text) (now : Timestamp)
    (P : Exec F B → Type 0) (closed : (s t : Exec F B) → Step s t → P s → P t) where
  write : (f : Exec F B → Exec F B) → ((s : Exec F B) → Untouched s (f s)) → Keeps P (modify f)
  write = wrote router tag_of now P closed

  say : (m : Message F) → Keeps P (publish m)
  say = said router tag_of now P closed

  chased_reply-Keeps :
      (id : Text) (r : Result (Tracked F)) → Keeps P (chased_reply router tag_of now id r)
  unfolding chased_reply
  chased_reply-Keeps id (err x) =
      if_either (Keeps P) (is_broker_error x) (say (alert warn)) (Keeps-lift P (err x))
  chased_reply-Keeps id (ok t) =
      Keeps-gets P (λ s. lookup id s.working) _
        λ entry.
          Keeps-bind P (modify (working_with id (chased t) entry)) _
            (write _ (working_with-Untouched router tag_of now P closed id (chased t) entry))
            λ _.
              Keeps-bind P (modify (see_order t)) _
                (write (see_order t) (λ s. record {
                  halted = refl;
                  used_tokens = refl;
                  plans = refl;
                  sent = refl;
                  accepted = refl;
                }))
                λ _.
                  Keeps-bind P (publish (order_message t)) _ (say (order_message t))
                    λ _. progressed router tag_of now P closed t

  chase-Keeps : (w : WorkingOrder F) → Keeps P (chase router tag_of now w)
  unfolding chase
  chase-Keeps w = record {
    holds = λ s q.
        let reply =
          router.modify_price w.tracked.order.id (round_to 4 (chase_price s w)) s.broker in
        (chased_reply-Keeps w.tracked.order.id reply.0).holds _
          (moved router tag_of now P closed s reply.1 q);
  }

  tend-Keeps : (w : WorkingOrder F) → Keeps P (tend router tag_of now w)
  unfolding tend maybe_chase
  tend-Keeps old =
      Keeps-gets P (λ s. now_working s old) _
        λ w. if_either (Keeps P) w.protective (Keeps-lift P (ok tt)) (
          if_either (Keeps P) (leb w.deadline now)
            (cancel-Keeps router tag_of now P closed w.tracked.order.id)
            (Keeps-gets P (λ s. chases s now w) _
              λ chased. if_either (Keeps P) chased (chase-Keeps w) (Keeps-lift P (ok tt))))

  manage-Keeps : Keeps P (manage router tag_of now)
  unfolding manage
  manage-Keeps =
      Keeps-gets P (λ s. values s.working) _
        λ ws. Keeps-for_each P ws (tend router tag_of now) tend-Keeps

  cancel_if-Keeps :
      (test : Order F → Bool) (e : Text × WorkingOrder F)
      → Keeps P (cancel_if router tag_of now test e)
  unfolding cancel_if
  cancel_if-Keeps test e =
      Keeps-gets P (λ s. or_else (lookup e.0 s.working) e.1) _
        λ w.
          if_either (Keeps P) (test w.tracked.order) (cancel-Keeps router tag_of now P closed e.0)
            (Keeps-lift P (ok tt))

  cancel_where-Keeps : (test : Order F → Bool) → Keeps P (cancel_where router tag_of now test)
  unfolding cancel_where
  cancel_where-Keeps test =
      Keeps-gets P (λ s. s.working) _
        λ ws. Keeps-for_each P ws (cancel_if router tag_of now test) (cancel_if-Keeps test)

  reconcile_order-Keeps : (t : Tracked F) → Keeps P (reconcile_order t)
  unfolding reconcile_order
  reconcile_order-Keeps t =
      Keeps-gets P (λ s. lookup t.order.id s.orders_seen) _
        λ previous.
          Keeps-bind P (modify (see_order t)) _
            (write (see_order t) (λ s. record {
              halted = refl;
              used_tokens = refl;
              plans = refl;
              sent = refl;
              accepted = refl;
            }))
            λ _.
              Keeps-bind P
                (if not (is_some previous) && is_working t.order.status
                  then publish (alert warn)
                  else pure tt)
                _
                (if_either (Keeps P) (not (is_some previous) && is_working t.order.status)
                  (say (alert warn)) (Keeps-lift P (ok tt)))
                λ _.
                  Keeps-bind P (modify (drop_idle t)) _
                    (write (drop_idle t) (λ s. record {
                      halted = refl;
                      used_tokens = refl;
                      plans = refl;
                      sent = refl;
                      accepted = refl;
                    }))
                    λ _. say (order_message t)

  close_vanished-Keeps : (seen : List Text) (id : Text) → Keeps P (close_vanished seen id)
  unfolding close_vanished
  close_vanished-Keeps seen id = if_either (Keeps P) (contains id seen) (Keeps-lift P (ok tt)) (
      Keeps-bind P (modify (drop_working id)) _
        (write (drop_working id) (λ s. record {
          halted = refl;
          used_tokens = refl;
          plans = refl;
          sent = refl;
          accepted = refl;
        }))
        λ _. say (alert warn))

  reconciled-Keeps : (r : Result (List (Tracked F))) → Keeps P (reconciled r)
  unfolding reconciled reconcile_with
  reconciled-Keeps (err x) =
      if_either (Keeps P) (is_broker_error x) (say (alert error)) (Keeps-lift P (err x))
  reconciled-Keeps (ok book) =
      Keeps-bind P (for_each book reconcile_order) _
        (Keeps-for_each P book reconcile_order reconcile_order-Keeps)
        λ _.
          Keeps-gets P (λ s. keys s.working) _
            λ ids.
              Keeps-for_each P ids (close_vanished (map (λ t. t.order.id) book))
                (close_vanished-Keeps (map (λ t. t.order.id) book))

  control-Keeps :
      (c : Control)
      → (c ≡ resume → (s : Exec F B) → P s → P (record s { halted = false }))
      → Keeps P (control router tag_of now c)
  unfolding control
  control-Keeps kill n =
      Keeps-bind P (modify λ s. record s { halted = true }) (λ _. cancel_all router tag_of now)
        record { holds = λ s q. closed s _ (kills s) q } λ _. cancel_where-Keeps (λ o. true)
  control-Keeps resume n = record { holds = n refl }
  control-Keeps flatten n = cancel_where-Keeps (λ o. true)
  control-Keeps other n = Keeps-lift P (ok tt)

  settle-Keeps : (r : Result (Unit {0})) (s : Exec F B) → P s → P (settle r s)
  settle-Keeps (ok x) s q = q
  settle-Keeps (err x) s q =
      closed s _
        (writes s _
          record { halted = refl; used_tokens = refl; plans = refl; sent = refl; accepted = refl })
        q

  handle-Keeps :
      (e : Event F B) (s : Exec F B) → Allowed P e → P s → P (handle router tag_of now e s)
  unfolding handle reconcile
  handle-Keeps (intent i) s n q =
      closed s _
        (writes s _
          record { halted = refl; used_tokens = refl; plans = refl; sent = refl; accepted = refl })
        q
  handle-Keeps (approval a) s n q =
      settle-Keeps (on_approval router tag_of now a s).0 _
        ((on_approval-Keeps router tag_of now P closed a).holds s q)
  handle-Keeps (tick t) s n q =
      closed s _
        (writes s _
          record { halted = refl; used_tokens = refl; plans = refl; sent = refl; accepted = refl })
        q
  handle-Keeps (bar b) s n q =
      closed s _
        (writes s _
          record { halted = refl; used_tokens = refl; plans = refl; sent = refl; accepted = refl })
        q
  handle-Keeps (command c) s n q =
      let kept = (control-Keeps (control_of c.command) n).holds s q in
      settle-Keeps (control router tag_of now (control_of c.command) s).0 _ kept
  handle-Keeps (order_report t) s n q =
      (on_order_update-Keeps router tag_of now P closed t).holds s q
  handle-Keeps (fill_report f) s n q = (on_fill_update-Keeps router tag_of now P closed f).holds s q
  handle-Keeps timer s n q = manage-Keeps.holds s q
  handle-Keeps reconnect s n q =
      let reply = router.orders s.broker in
      (reconciled-Keeps reply.0).holds _ (moved router tag_of now P closed s reply.1 q)
  handle-Keeps (broker_moves b) s n q =
      closed s _
        (writes s _
          record { halted = refl; used_tokens = refl; plans = refl; sent = refl; accepted = refl })
        q
  handle-Keeps (shared_orders f) s n q =
      closed s _
        (writes s _
          record { halted = refl; used_tokens = refl; plans = refl; sent = refl; accepted = refl })
        q

module _ {F B : Type 0} ⦃fl : Arith F⦄ (router : Router F B) (tag_of : ℕ → Text)
    (P : Exec F B → Type 0) (closed : (s t : Exec F B) → Step s t → P s → P t) where
  pub handle_all-Keeps :
      (es : List (Timestamp × Event F B)) (s : Exec F B)
      → All (λ e. Allowed P e.1) es
      → P s
      → P (handle_all router tag_of es s)
  unfolding handle_all
  handle_all-Keeps [] s n q = q
  handle_all-Keeps (e ∷ es) s n q =
      handle_all-Keeps es (handle router tag_of e.0 e.1 s) n.1
        (handle-Keeps router tag_of e.0 P closed e.1 s n.0 q)
