-- ===== src/Paper/Matching/Events.antt =====
-- The price events of the paper broker are runs of the step relation.
use shiny_umbrella.Base.{
  ℕ, ◌≤◌, ◌<◌, ◌≡◌, refl, sym, ap, ◌∙◌, inl, inr, Bool, true, false, Option, none, some, List, [],
  ◌∷◌, Text, lookup, insert, lookup-insert_self, lookup-All, keys, &&-true, ◌&&◌, nat_eq, list_eq,
  ok, Result-cases, if_either, Bool-cases, arith, ◌=ℕ◌, ◌==◌,
}
use mathlib.Core.Path.{subst}
use shiny_umbrella.Float.Arith.{Arith}
use shiny_umbrella.Types.Enums.{
  OrderType, limit, market, sl, slm, OrderStatus, pending, trigger_pending, open_, partial, filled,
  cancelled, rejected, is_working,
}
use shiny_umbrella.Types.Orders.{Order, remaining_qty}
use shiny_umbrella.Paper.State.{Paper, PaperConfig, PriceCtx, from_tick, from_bar}
use shiny_umbrella.Paper.Pricing.{
  slip, fillable_qty, volume_cap, limit_price, limit_fill_price, touch_price, stop_limit_price,
  beyond,
}
use shiny_umbrella.Paper.Matching.{
  triggered_order, after_trigger, after_trigger_as, stop_limit, fill_if, trigger_at, trigger_if,
  try_trigger, live_price, limit_or_raise, by_status, try_live, try_fill, match_order, match_each,
  match_all, mark, on_tick, on_bar,
}
use shiny_umbrella.Paper.Steps.{
  Respects, Run, here, Run-trans, Run-bind, one, capped, better, exact, triggers, changes, marks,
}
use shiny_umbrella.Paper.Matching.Fills.{Live, Limited, fill-Run}
use shiny_umbrella.Paper.Steps.Lifecycle.{IsBook, EntryOk, Run-IsBook}
use shiny_umbrella.Types.Market.{Bar, Tick}

positive : (n : ℕ) → (n =ℕ 0) ≡ false → 0 < n
positive n h = ground arith

module _ {F : Type 0} ⦃fl : Arith F⦄ where
  volume_cap-le :
      (cfg : PaperConfig F) (volume : Option ℕ) (share : Option F) (symbol : Text) (qty : ℕ) {q : ℕ}
      → volume_cap cfg volume share symbol qty ≡ ok q
      → q ≤ qty
  unfolding volume_cap
  volume_cap-le cfg (some v) (some x) symbol qty h = ground arith
  volume_cap-le cfg (some v) none symbol qty h = ground arith
  volume_cap-le cfg none x symbol qty h = ground arith

  -- No more than what remains of the order is fillable.
  fillable_qty-le :
      (cfg : PaperConfig F) (o : Order F) (px : PriceCtx F) {q : ℕ}
      → fillable_qty cfg o px ≡ ok q
      → q ≤ remaining_qty o
  unfolding fillable_qty
  fillable_qty-le cfg o px h =
      volume_cap-le cfg px.volume cfg.max_participation o.symbol (remaining_qty o) h

  limit_fill_price-Respects :
      (cfg : PaperConfig F) (o : Order F) (at : F) (px : PriceCtx F) (b : Bool) (qty : ℕ)
      → Respects o.side at (limit_fill_price cfg o at px b qty)
  unfolding limit_fill_price
  limit_fill_price-Respects cfg o at px true qty = capped (slip cfg o px.last px qty) refl
  limit_fill_price-Respects cfg o at px false qty = elim (Bool-cases (beyond o.side px.opens at)) [
    | inr not_through ↦ rw not_through (exact refl)
    | inl through ↦ rw through (
        if_either (Respects o.side at) o.marketable (capped (slip cfg o px.opens px qty) refl)
          (better through))
  ]

  limit_price-Respects :
      (cfg : PaperConfig F) (o : Order F) (at : F) (px : PriceCtx F) (b : Bool) (qty : ℕ) {raw : F}
      → limit_price cfg o at px b qty ≡ some raw
      → Respects o.side at raw
  unfolding limit_price
  limit_price-Respects cfg o at px b qty {raw} h =
      let same : limit_fill_price cfg o at px b qty ≡ raw = ground arith in
      subst (Respects o.side at) same (limit_fill_price-Respects cfg o at px b qty)

  stop_limit-Respects :
      (cfg : PaperConfig F) (o : Order F) (at touch : F) (px : PriceCtx F) (qty : ℕ) {raw : F}
      → stop_limit_price cfg o at touch px qty ≡ some raw
      → Respects o.side at raw
  unfolding stop_limit_price
  stop_limit-Respects cfg o at touch px qty h = capped (slip cfg o touch px qty) (ground arith)

  fill_if-Run :
      (s : Paper F) (o : Order F) (qty ts : ℕ) (price : Option F)
      → Live s o
      → 0 < qty
      → qty ≤ remaining_qty o
      → ((raw : F) → price ≡ some raw → Limited o raw)
      → Run false s (fill_if o qty ts price s).1
  unfolding fill_if
  fill_if-Run s o qty ts none live p fits limited = here
  fill_if-Run s o qty ts (some raw) live p fits limited =
      fill-Run s o qty raw ts live p fits (limited raw refl)

  -- The state after the trigger is noted, and the order in it
  abbrev triggered : Paper F → Order F → ℕ → Paper F
  triggered s o ts = record s { orders = insert o.id (triggered_order o ts) s.orders }

  triggered-Live :
      (s : Paper F) (o : Order F) (ts : ℕ) → Live (triggered s o ts) (triggered_order o ts)
  unfolding triggered_order
  triggered-Live s o ts = record {
    booked = lookup-insert_self o.id (triggered_order o ts) s.orders;
    working = refl;
  }

  stop_limit_Limited :
      (cfg : PaperConfig F) (o : Order F) (at touch : F) (px : PriceCtx F) (qty : ℕ)
      → o.price ≡ some at
      → (raw : F) → stop_limit_price cfg o at touch px qty ≡ some raw
      → Limited o raw
  stop_limit_Limited cfg o at touch px qty e raw h at' _ e' =
      let same : at ≡ at' = ground arith in
      subst (λ a. Respects o.side a raw) same (stop_limit-Respects cfg o at touch px qty h)

  -- What happens after a trigger: a stop fills at the market, a stop-limit by its limit.
  after_trigger-Run :
      (s : Paper F) (o : Order F) (px : PriceCtx F) (touch : F) (qty : ℕ)
      → Live s o
      → 0 < qty
      → qty ≤ remaining_qty o
      → Run false s (after_trigger o px touch qty s).1
  unfolding after_trigger after_trigger_as stop_limit
  after_trigger-Run s o px touch qty live p fits = by_type o.order_type refl
    where
      by_price :
          (price : Option F) → o.price ≡ price → Run false s (stop_limit o px touch qty price s).1
      by_price none e = here
      by_price (some at) e =
          fill_if-Run s o qty px.ts (stop_limit_price s.cfg o at touch px qty) live p fits
            (stop_limit_Limited s.cfg o at touch px qty e)

      by_type :
          (type : OrderType)
          → o.order_type ≡ type
          → Run false s (after_trigger_as o px touch qty type s).1
      by_type slm e = fill-Run s o qty _ px.ts live p fits (λ at m. ground arith)
      by_type sl e = by_price o.price refl
      by_type limit e = by_price o.price refl
      by_type market e = by_price o.price refl

  trigger_at-Run :
      (s : Paper F) (o : Order F) (px : PriceCtx F) (touch : F)
      → Live s o
      → o.status ≡ trigger_pending
      → Run false s (trigger_at o px touch s).1
  unfolding trigger_at triggered_order
  trigger_at-Run s o px touch live waiting =
      let s' = triggered s o px.ts in
      let o' = triggered_order o px.ts in
      let first : Run false s s' =
        one (changes s o o' live.booked live.working (triggers px.ts waiting)) in
      elim (Result-cases (fillable_qty s.cfg o' px)) [
        | inr (x, e) ↦ rw e first
        | inl (qty, e) ↦ elim (Bool-cases (qty =ℕ 0)) [
          | inl nothing ↦ rw (e, nothing) first
          | inr some_ ↦
              rw (e, some_)
                (Run-trans first (
                  after_trigger-Run s' o' px touch qty (triggered-Live s o px.ts)
                    (positive qty some_) (fillable_qty-le s.cfg o' px e)))
        ]
      ]

  try_trigger-Run :
      (s : Paper F) (o : Order F) (px : PriceCtx F) (b : Bool)
      → Live s o
      → o.status ≡ trigger_pending
      → Run false s (try_trigger o px b s).1
  unfolding try_trigger trigger_if
  try_trigger-Run s o px b live waiting = by_touch (touch_price s.cfg o px b)
    where
      by_touch : (touch : Option F) → Run false s (trigger_if o px touch s).1
      by_touch none = here
      by_touch (some touch) = trigger_at-Run s o px touch live waiting

  limit_or_raise-Limited :
      (cfg : PaperConfig F) (o : Order F) (px : PriceCtx F) (b : Bool) (qty : ℕ) (at : Option F)
      {raw : F}
      → limit_or_raise cfg o px b qty at ≡ ok (some raw)
      → o.price ≡ at
      → Limited o raw
  unfolding limit_or_raise
  limit_or_raise-Limited cfg o px b qty none h e at' _ e' = cc
  limit_or_raise-Limited cfg o px b qty (some at) {raw} h e at' _ e' =
      let same : at ≡ at' = ground arith in
      subst (λ a. Respects o.side a raw) same
        (limit_price-Respects cfg o at px b qty (ground arith))

  live_price-Limited :
      (cfg : PaperConfig F) (o : Order F) (px : PriceCtx F) (b : Bool) (qty : ℕ) {price : Option F}
      → live_price cfg o px b qty ≡ ok price
      → (raw : F) → price ≡ some raw
      → Limited o raw
  unfolding live_price
  live_price-Limited cfg o px b qty h raw e at m e' =
      limit_or_raise-Limited cfg o px b qty o.price ((rw m at h) ∙ ap ok e) refl at m e'

  try_live-Run :
      (s : Paper F) (o : Order F) (px : PriceCtx F) (b : Bool)
      → Live s o
      → Run false s (try_live o px b s).1
  unfolding try_live
  try_live-Run s o px b live = elim (Result-cases (fillable_qty s.cfg o px)) [
    | inr (x, e) ↦ rw e here
    | inl (qty, e) ↦ elim (Bool-cases (qty =ℕ 0)) [
      | inl nothing ↦ rw (e, nothing) here
      | inr some_ ↦ elim (Result-cases (live_price s.cfg o px b qty)) [
        | inr (x, e') ↦ rw (e, some_, e') here
        | inl (price, e') ↦
            rw (e, some_, e')
              (fill_if-Run s o qty px.ts price live (positive qty some_)
                (fillable_qty-le s.cfg o px e) (live_price-Limited s.cfg o px b qty e'))
      ]
    ]
  ]

  -- `_try_fill` is a run, whatever the order's status.
  pub try_fill-Run :
      (s : Paper F) (o : Order F) (px : PriceCtx F) (b : Bool)
      → Live s o
      → Run false s (try_fill o px b s).1
  unfolding try_fill
  try_fill-Run s o px b live = by o.status refl
    where
      by :
          (status : OrderStatus)
          → o.status ≡ status
          → Run false s (by_status status (try_trigger o px b) (try_live o px b) s).1
      by trigger_pending e = try_trigger-Run s o px b live e
      by pending e = try_live-Run s o px b live
      by open_ e = try_live-Run s o px b live
      by partial e = try_live-Run s o px b live
      by filled e = here
      by cancelled e = here
      by rejected e = here

  match_order-Run :
      (symbol : Text) (px : PriceCtx F) (s : Paper F) (id : Text) (found : Option (Order F))
      → lookup id s.orders ≡ found
      → IsBook s
      → Run false s (match_order symbol px found s).1
  unfolding match_order
  match_order-Run symbol px s id none e b = here
  match_order-Run symbol px s id (some o) e b =
      elim (Bool-cases (o.symbol == symbol && is_working o.status)) [
        | inr skip ↦ rw skip here
        | inl take ↦
            let (_, works) = &&-true (o.symbol == symbol) (is_working o.status) take in
            let key : id ≡ o.id = sym (lookup-All EntryOk id s.orders b e).keyed in
            rw take (
              try_fill-Run s o px false (record {
                booked = subst (λ k. lookup k s.orders ≡ some o) key e;
                working = works;
              }))
      ]

  match_each-Run :
      (symbol : Text) (px : PriceCtx F) (ids : List Text) (s : Paper F)
      → IsBook s
      → Run false s (match_each symbol px ids s).1
  unfolding match_each
  match_each-Run symbol px [] s b = here
  match_each-Run symbol px (id ∷ ids) s b =
      let first = match_order-Run symbol px s id (lookup id s.orders) refl b in
      Run-bind (match_order symbol px (lookup id s.orders)) _ s first
        (λ a e. match_each-Run symbol px ids _ (Run-IsBook b first))

  -- A tick and a bar are runs: of fills at its prices, and a mark.
  pub on_tick-Run : (s : Paper F) (t : Tick F) → IsBook s → Run false s (on_tick t s).1
  unfolding on_tick mark match_all
  on_tick-Run s t b =
      Run-trans (one (marks s t.symbol t.ltp))
        (match_each-Run t.symbol (from_tick t) (keys s.orders) (mark t.symbol t.ltp s).1 b)

  pub on_bar-Run : (s : Paper F) (bar : Bar F) → IsBook s → Run false s (on_bar bar s).1
  unfolding on_bar mark match_all
  on_bar-Run s bar b =
      Run-bind (match_all bar.symbol (from_bar bar)) _ s
        (match_each-Run bar.symbol (from_bar bar) (keys s.orders) s b)
        (λ a e. one (marks _ bar.symbol bar.close))
