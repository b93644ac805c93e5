-- ===== src/Execution/Steps/Reports.antt =====
-- The reports of the broker, and the agent's own cancelling, chasing and reconciling, keep what the
-- steps keep.
use shiny_umbrella.Base.{
  ℕ, ◌-◌, pos, eqb_ℤ, ◌≡◌, refl, true, ◌||◌, not, Option, none, some, [], Text, lookup, nat_eq,
  list_eq, pair_eq, contains, ◌==◌, or_else, is_some, length, Result, ok, err, if◌then◌else◌,
  if_either, ltb,
}
use shiny_umbrella.Base.Actions.{
  pure, lift, modify, Keeps, Keeps-bind, Keeps-lift, Keeps-gets, Keeps-for_each,
}
use shiny_umbrella.Float.Arith.{Arith}
use shiny_umbrella.Types.Enums.{product_eq}
use shiny_umbrella.Types.Intents.{OrderIntent}
use shiny_umbrella.Types.Messages.{warn}
use shiny_umbrella.Types.Orders.{Fill}
use shiny_umbrella.Clock.Dates.{Timestamp}
use shiny_umbrella.Paper.State.{Key}
use shiny_umbrella.Execution.State.{
  Tracked, Router, is_broker_error, WorkingOrder, order_message, Message, fill_message, alert, Sent,
  Exec, publish,
}
use shiny_umbrella.Execution.Fills.{stop_pct_of, synthesise_fill, bracket_request}
use shiny_umbrella.Execution.Placing.{send, place, on_order_progress, is_protective}
use shiny_umbrella.Execution.Updates.{
  adopt, filled_before, intent_for, bracketed_intent, token_in, working_with, seen_with, child_of,
  working_child, reworked, note_cancelled, forget_stop, count_fill, book_net, see_order,
  remember_stop, note_real, cancelled_reply, cancel, release, cancel_protective, publish_fill,
  publish_delta, on_order_update, note_stop, bracket, maybe_bracket, bracket_seen, on_fill_update,
}
use shiny_umbrella.Execution.Steps.{Untouched, Step, writes, stops}
use shiny_umbrella.Execution.Steps.Runs.{
  write-Keeps, publish-Keeps, placed_reply-Keeps, on_order_progress-Keeps,
}

module _ {F B : Type 0} ⦃fl : Arith F⦄ (router : Router F B) (tag_of : ℕ → Text) (now : Timestamp)
    (P : Exec F B → Type 0) (closed : (s t : Exec F B) → Step s t → P s → P t) where
  pub wrote : (f : Exec F B → Exec F B) → ((s : Exec F B) → Untouched s (f s)) → Keeps P (modify f)
  wrote = write-Keeps router tag_of now P closed

  pub said : (m : Message F) → Keeps P (publish m)
  said = publish-Keeps router tag_of now P closed

  pub progressed : (t : Tracked F) → Keeps P (on_order_progress router tag_of now t)
  progressed = on_order_progress-Keeps router tag_of now P closed

  -- The broker may change at any call.
  pub moved : (s : Exec F B) (b : B) → P s → P (record s { broker = b })
  moved s b q =
      closed s _
        (writes s _
          record { halted = refl; used_tokens = refl; plans = refl; sent = refl; accepted = refl })
        q

  pub working_with-Untouched :
      (id : Text) (f : WorkingOrder F → WorkingOrder F) (o : Option (WorkingOrder F)) (s : Exec F B)
      → Untouched s (working_with id f o s)
  working_with-Untouched id f none s = record {
    halted = refl;
    used_tokens = refl;
    plans = refl;
    sent = refl;
    accepted = refl;
  }
  working_with-Untouched id f (some w) s = record {
    halted = refl;
    used_tokens = refl;
    plans = refl;
    sent = refl;
    accepted = refl;
  }

  seen_with-Untouched :
      (id : Text) (f : Tracked F → Tracked F) (o : Option (Tracked F)) (s : Exec F B)
      → Untouched s (seen_with id f o s)
  seen_with-Untouched id f none s = record {
    halted = refl;
    used_tokens = refl;
    plans = refl;
    sent = refl;
    accepted = refl;
  }
  seen_with-Untouched id f (some w) s = record {
    halted = refl;
    used_tokens = refl;
    plans = refl;
    sent = refl;
    accepted = refl;
  }

  cancelled_reply-Keeps :
      (id : Text) (r : Result (Tracked F)) → Keeps P (cancelled_reply router tag_of now id r)
  unfolding cancelled_reply
  cancelled_reply-Keeps id (err x) =
      if_either (Keeps P) (is_broker_error x) (said (alert warn)) (Keeps-lift P (err x))
  cancelled_reply-Keeps id (ok t) =
      Keeps-bind P (modify (note_cancelled id t)) _
        (wrote (note_cancelled id t) (λ s. record {
          halted = refl;
          used_tokens = refl;
          plans = refl;
          sent = refl;
          accepted = refl;
        }))
        λ _. Keeps-bind P (publish (order_message t)) _ (said (order_message t)) λ _. progressed t

  pub cancel-Keeps : (id : Text) → Keeps P (cancel router tag_of now id)
  unfolding cancel
  cancel-Keeps id = record {
    holds = λ s q.
        let reply = router.cancel_order id s.broker in
        (cancelled_reply-Keeps id reply.0).holds _ (moved s reply.1 q);
  }

  release-Keeps :
      (key : Key) (exclude id : Text) → Keeps P (release router tag_of now key exclude id)
  unfolding release
  release-Keeps key exclude id =
      Keeps-bind P (modify (forget_stop key id)) _
        (wrote (forget_stop key id) (λ s. record {
          halted = refl;
          used_tokens = refl;
          plans = refl;
          sent = refl;
          accepted = refl;
        }))
        λ _.
          Keeps-gets P (λ s. lookup id s.working) _
            λ working.
              if_either (Keeps P) (id == exclude || not (is_some working)) (Keeps-lift P (ok tt))
                (cancel-Keeps id)

  publish_fill-Keeps : (f : Fill F) → Keeps P (publish_fill router tag_of now f)
  unfolding publish_fill cancel_protective
  publish_fill-Keeps f =
      Keeps-bind P (modify count_fill) _
        (wrote count_fill (λ s. record {
          halted = refl;
          used_tokens = refl;
          plans = refl;
          sent = refl;
          accepted = refl;
        }))
        λ _. Keeps-bind P (publish (fill_message f)) _ (said (fill_message f)) λ _.
          Keeps-bind P (modify (book_net f)) _
            (wrote (book_net f) (λ s. record {
              halted = refl;
              used_tokens = refl;
              plans = refl;
              sent = refl;
              accepted = refl;
            }))
            λ _.
              Keeps-gets P (λ s. or_else (lookup (f.symbol, f.product) s.net) (pos 0)) _
                λ position.
                  if_either (Keeps P) (eqb_ℤ position (pos 0))
                    (Keeps-gets P (λ s. or_else (lookup (f.symbol, f.product) s.protective) []) _
                      λ ids.
                        Keeps-for_each P ids
                          (release router tag_of now (f.symbol, f.product) f.order_id)
                          (release-Keeps (f.symbol, f.product) f.order_id))
                    (Keeps-lift P (ok tt))

  publish_delta-Keeps :
      (t : Tracked F) (o : Option (Tracked F)) → Keeps P (publish_delta router tag_of now t o)
  unfolding publish_delta
  publish_delta-Keeps t o =
      if_either (Keeps P) (ltb (filled_before o) t.order.filled_qty)
        (Keeps-gets P (λ s. synthesise_fill s t.order (t.order.filled_qty - filled_before o) o) _
          λ answer. Keeps-bind P (lift answer) _ (Keeps-lift P answer) publish_fill-Keeps)
        (Keeps-lift P (ok tt))

  pub on_order_update-Keeps : (t : Tracked F) → Keeps P (on_order_update router tag_of now t)
  unfolding on_order_update
  on_order_update-Keeps raw =
      let id = raw.order.id in
      Keeps-gets P (λ s. lookup id s.orders_seen) _
        λ previous.
          Keeps-gets P (λ s. lookup id s.working) _
            λ known.
              let t = adopt raw known in
              Keeps-bind P (modify (working_with id (reworked t) known)) _
                (wrote _ (working_with-Untouched id (reworked t) known))
                λ _.
                  Keeps-bind P (modify (see_order t)) _
                    (wrote (see_order t) (λ s. record {
                      halted = refl;
                      used_tokens = refl;
                      plans = refl;
                      sent = refl;
                      accepted = refl;
                    }))
                    λ _. Keeps-bind P (publish (order_message t)) _ (said (order_message t)) λ _.
                      Keeps-gets P (λ s. contains id s.real_fill_orders) _
                        λ real.
                          Keeps-bind P
                            (if real then pure tt else publish_delta router tag_of now t previous) _
                            (if_either (Keeps P) real (Keeps-lift P (ok tt))
                              (publish_delta-Keeps t previous))
                            λ _. progressed t

  note_stop-Keeps :
      (parent : Text) (i : OrderIntent F) (o : Option (Tracked F))
      → Keeps P (note_stop router tag_of now parent i o)
  unfolding note_stop
  note_stop-Keeps parent i none = Keeps-lift P (ok tt)
  note_stop-Keeps parent i (some stop) =
      let id = stop.order.id in
      Keeps-gets P (λ s. lookup id s.orders_seen) _
        λ seen.
          Keeps-bind P (modify (seen_with id (child_of parent) seen)) _
            (wrote _ (seen_with-Untouched id (child_of parent) seen))
            λ _.
              Keeps-gets P (λ s. lookup id s.working) _
                λ working.
                  Keeps-bind P (modify (working_with id (working_child parent) working)) _
                    (wrote _ (working_with-Untouched id (working_child parent) working))
                    λ _. wrote (remember_stop i id) (λ s. record {
                      halted = refl;
                      used_tokens = refl;
                      plans = refl;
                      sent = refl;
                      accepted = refl;
                    })

  -- A stop is sent as a protective order.
  stop_sent :
      (m : Sent F) → m.protective ≡ true → (s : Exec F B) → P s → P (send router tag_of now m s).1
  unfolding send
  stop_sent m h s q = closed s _ (stops s m _ h) q

  bracket-Keeps :
      (t : Tracked F) (f : Fill F) (token : Text) (i : Option (OrderIntent F)) (pct : Option F)
      → Keeps P (bracket router tag_of now t f token i pct)
  unfolding bracket place
  bracket-Keeps t f token none pct = Keeps-lift P (ok tt)
  bracket-Keeps t f token (some i) none = Keeps-lift P (ok tt)
  bracket-Keeps t f token (some i) (some pct) =
      Keeps-gets P (λ s. bracket_request s i f pct (tag_of (length s.sent))) _
        λ made.
          Keeps-bind P
            (place router tag_of now (on_order_progress router tag_of now) made i token true)
            (note_stop router tag_of now t.order.id i)
            record {
              holds = λ s q.
                  let m : Sent F = record { request = made; token = token; protective = true } in
                  (placed_reply-Keeps router tag_of now P closed
                      (on_order_progress router tag_of now) i token true
                      (send router tag_of now m s).0 progressed).holds
                    (send router tag_of now m s).1 (stop_sent m refl s q);
            }
            (note_stop-Keeps t.order.id i)

  maybe_bracket-Keeps : (t : Tracked F) (f : Fill F) → Keeps P (maybe_bracket router tag_of now t f)
  unfolding maybe_bracket
  maybe_bracket-Keeps t f =
      Keeps-gets P (λ s. s.cfg) _
        λ cfg.
          Keeps-gets P (λ s. lookup t.order.id s.working) _
            λ working.
              Keeps-gets P (λ s. intent_for s t.intent_id) _
                λ found.
                  let i = bracketed_intent working found in
                  if_either (Keeps P) (not cfg.place_bracket_stop || is_protective working)
                    (Keeps-lift P (ok tt))
                    (Keeps-bind P (lift (stop_pct_of i))
                      (λ pct. bracket router tag_of now t f (token_in working) i pct)
                      (Keeps-lift P (stop_pct_of i))
                      (λ pct. bracket-Keeps t f (token_in working) i pct))

  bracket_seen-Keeps :
      (f : Fill F) (o : Option (Tracked F)) → Keeps P (bracket_seen router tag_of now f o)
  unfolding bracket_seen
  bracket_seen-Keeps f none = Keeps-lift P (ok tt)
  bracket_seen-Keeps f (some t) = maybe_bracket-Keeps t f

  pub on_fill_update-Keeps : (f : Fill F) → Keeps P (on_fill_update router tag_of now f)
  unfolding on_fill_update
  on_fill_update-Keeps f =
      Keeps-bind P (modify (note_real f)) _
        (wrote (note_real f) (λ s. record {
          halted = refl;
          used_tokens = refl;
          plans = refl;
          sent = refl;
          accepted = refl;
        }))
        λ _.
          Keeps-bind P (publish_fill router tag_of now f) _ (publish_fill-Keeps f)
            λ _. Keeps-gets P (λ s. lookup f.order_id s.orders_seen) _ (bracket_seen-Keeps f)
