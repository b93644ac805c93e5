-- ===== src/Paper/Calls/Placement.antt =====
-- Calls on orders that do not meet the market: where `fill_at_placement` is off, placing,
-- modifying and cancelling make no fill; and a tag that is known places nothing.
use shiny_umbrella.Base.{
  ℕ, suc, ◌≡◌, refl, sym, ap, ◌∙◌, Bool, true, false, not, Option, none, some, Text, lookup, insert,
  nat_eq, list_eq, Result, ok, err, arith, unknown_order, value_error, raise_if,
}
use mathlib.Core.Path.{subst}
use shiny_umbrella.Float.Arith.{Arith}
use shiny_umbrella.Types.Enums.{is_working}
use shiny_umbrella.Types.Orders.{Order, OrderRequest, Problem, from_request}
use shiny_umbrella.Paper.State.{Paper, Action, ◌>>=◌, continue, lift}
use shiny_umbrella.Paper.Validation.{validate, validate-same}
use shiny_umbrella.Paper.Calls.{
  Changes, first_status, get_order, meet_at, meet, report, placed, place_new, place_if_new,
  place_order, with_prices, with_rest, resized, repriced, below_filled, modify_order, cancel_if,
  cancel_order,
}

module _ {F : Type 0} where
  -- The second state has the first one's configuration and fills.
  pub record Quiet (s t : Paper F) : Type 0 where
    pub fills_same : t.fills ≡ s.fills
    pub cfg_same : t.cfg ≡ s.cfg

  still : {s t : Paper F} → t.fills ≡ s.fills → t.cfg ≡ s.cfg → Quiet s t
  still f c = record { fills_same = f; cfg_same = c }

  pub Quiet-refl : (s : Paper F) → Quiet s s
  Quiet-refl s = still refl refl

  pub Quiet-trans : {s t u : Paper F} → Quiet s t → Quiet t u → Quiet s u
  Quiet-trans p q = still (q.fills_same ∙ p.fills_same) (q.cfg_same ∙ p.cfg_same)

  Quiet-bind :
      {A B : Type 0} (m : Action F A) (f : A → Action F B) (s : Paper F)
      → Quiet s (m s).1
      → ((a : A) → Quiet (m s).1 (f a (m s).1).1)
      → Quiet s ((m >>= f) s).1
  Quiet-bind {A} {B} m f s first second = by (m s).0
    where
      by : (r : Result A) → Quiet s (continue r f (m s).1).1
      by (ok a) = Quiet-trans first (second a)
      by (err x) = first

module _ {F : Type 0} ⦃fl : Arith F⦄ where
  get_order-Quiet : (id : Text) (s : Paper F) → Quiet s (get_order id s).1
  unfolding get_order
  get_order-Quiet id s = still refl refl

  report-Quiet : (id : Text) (s : Paper F) → Quiet s (report id s).1
  unfolding report
  report-Quiet id s = Quiet-bind (get_order id) _ s (get_order-Quiet id s) (λ o. (still refl refl))

  meet-Quiet :
      (o : Order F) (ts : ℕ) (s : Paper F)
      → s.cfg.fill_at_placement ≡ false
      → Quiet s (meet o ts s).1
  unfolding meet
  meet-Quiet o ts s h = by (lookup o.symbol s.last) s.cfg.fill_at_placement h
    where
      by : (last : Option F) (b : Bool) → b ≡ false → Quiet s (meet_at o ts last b s).1
      by none b e = still refl refl
      by (some last) false e = still refl refl
      by (some last) true e = absurd (ground arith)

  placed-Quiet :
      (o : Order F) (now : ℕ) (problem : Option (Problem F)) (s : Paper F)
      → s.cfg.fill_at_placement ≡ false
      → Quiet s (placed o now problem s).1
  unfolding placed
  placed-Quiet o now (some problem) s h = Quiet-trans (still refl refl) (report-Quiet o.id _)
  placed-Quiet o now none s h =
      let t : Paper F = record s { orders = insert o.id o s.orders } in
      Quiet-trans {t = t} (still refl refl) (
        Quiet-bind (meet o now) (λ _. report o.id) t (meet-Quiet o now t h)
          (λ u. report-Quiet o.id _))

  place_new-Quiet :
      (req : OrderRequest F) (now : ℕ) (s : Paper F)
      → s.cfg.fill_at_placement ≡ false
      → Quiet s (place_new req now s).1
  unfolding place_new
  place_new-Quiet req now s h =
      let t = record s { seq = suc s.seq } in
      let o = from_request req now (suc s.seq) (first_status req.order_type) in
      let kept : (validate o t).1 ≡ t = validate-same o t in
      Quiet-trans {t = t} (still refl refl) (
        Quiet-bind (validate o) (placed o now) t (subst (Quiet t) (sym kept) (still refl refl))
          (λ p. placed-Quiet o now p _ (ap (λ u. u.cfg.fill_at_placement) kept ∙ h)))

  pub place_order-Quiet :
      (req : OrderRequest F) (now : ℕ) (s : Paper F)
      → s.cfg.fill_at_placement ≡ false
      → Quiet s (place_order req now s).1
  unfolding place_order place_if_new
  place_order-Quiet req now s h = by (lookup req.tag s.orders)
    where
      by : (known : Option (Order F)) → Quiet s (place_if_new req now known s).1
      by (some o) = still refl refl
      by none = place_new-Quiet req now s h

  resized-Quiet :
      (o : Order F) (c : Changes F) (now : ℕ) (id : Text) (s : Paper F)
      → s.cfg.fill_at_placement ≡ false
      → Quiet s (resized o c now id s).1
  unfolding resized with_rest
  resized-Quiet o c now id s h =
      let o' = with_rest c now o in
      let t : Paper F = record s { orders = insert o.id o' s.orders } in
      Quiet-trans {t = t} (still refl refl) (
        Quiet-bind (meet o' now) (λ _. report id) t (meet-Quiet o' now t h)
          (λ v. report-Quiet id _))

  repriced-Quiet :
      (o : Order F) (c : Changes F) (now : ℕ) (id : Text) (s : Paper F)
      → s.cfg.fill_at_placement ≡ false
      → Quiet s (repriced o c now id s).1
  unfolding repriced with_prices
  repriced-Quiet o c now id s h =
      let o' = with_prices c o in
      let t : Paper F = record s { orders = insert o.id o' s.orders } in
      Quiet-trans {t = t} (still refl refl) (
        Quiet-bind (lift (raise_if (below_filled c.new_qty o) value_error))
          (λ _. resized o' c now id) t (still refl refl) (λ u. resized-Quiet o' c now id t h))

  pub modify_order-Quiet :
      (id : Text) (c : Changes F) (now : ℕ) (s : Paper F)
      → s.cfg.fill_at_placement ≡ false
      → Quiet s (modify_order id c now s).1
  unfolding modify_order get_order
  modify_order-Quiet id c now s h = Quiet-bind (get_order id) _ s (still refl refl) (λ o.
      Quiet-bind (lift (raise_if (not (is_working o.status)) unknown_order)) _ s (still refl refl)
        (λ u. repriced-Quiet o c now id s h))

  pub cancel_order-Quiet : (id : Text) (now : ℕ) (s : Paper F) → Quiet s (cancel_order id now s).1
  unfolding cancel_order get_order cancel_if
  cancel_order-Quiet id now s =
      Quiet-bind (get_order id) _ s (still refl refl) (λ o. by o (is_working o.status))
    where
      by : (o : Order F) (b : Bool) → Quiet s (cancel_if o now b s).1
      by o true = Quiet-trans (still refl refl) (report-Quiet o.id _)
      by o false = still refl refl
