-- ===== src/Paper/Calls/Runs.antt =====
-- Placing and cancelling orders are runs of the step relation that edit no terms; modifying an order
-- is such a run after edits.
use shiny_umbrella.Base.{
  ℕ, suc, ◌≤◌, ◌≡◌, refl, sym, ◌⊎◌, inl, inr, Bool, true, false, not, Option, none, some, Text,
  lookup, insert, lookup-insert_self, lookup-All, nat_eq, list_eq, ok, Bool-cases, Option-cases,
  arith, unknown_order, raise_if, or_else,
}
use mathlib.Core.Path.{subst}
use shiny_umbrella.Float.Arith.{Arith}
use shiny_umbrella.Types.Enums.{
  OrderType, limit, market, sl, slm, open_, trigger_pending, is_working,
}
use shiny_umbrella.Types.Orders.{Order, OrderRequest, Problem, from_request}
use shiny_umbrella.Paper.State.{Paper, ◌>>◌, lift}
use shiny_umbrella.Paper.Steps.{
  Run, here, one, Edited, unedited, after_edit, Edited-bind, Run-trans, Run-bind, notes, admits,
  changes, tags, reprices, resizes, cancels,
}
use shiny_umbrella.Paper.Steps.Lifecycle.{IsBook, EntryOk}
use shiny_umbrella.Paper.Matching.Fills.{Live}
use shiny_umbrella.Paper.Matching.Events.{try_fill-Run}
use shiny_umbrella.Paper.Validation.{validate, validate-same}
use shiny_umbrella.Paper.Calls.{
  Changes, first_status, tag_marketable, get_order, meet_at, meet, report, placed, place_new,
  place_if_new, place_order, with_prices, with_rest, resized, repriced, below_filled, modify_order,
  cancel_if, cancel_order,
}

first_status_waits :
    (type : OrderType) → (first_status type ≡ open_) ⊎ (first_status type ≡ trigger_pending)
first_status_waits limit = inl refl
first_status_waits market = inl refl
first_status_waits sl = inr refl
first_status_waits slm = inr refl

module _ {F : Type 0} ⦃fl : Arith F⦄ where
  -- What `get_order` returns stands in the book under that id.
  get_order-lookup :
      (id : Text) (s : Paper F) (o : Order F)
      → (get_order id s).0 ≡ ok o
      → lookup id s.orders ≡ some o
  unfolding get_order
  get_order-lookup id s o h = elim (Option-cases (lookup id s.orders)) [
    | inl e ↦ ground arith
    | inr (x, e) ↦ ground arith
  ]

  found_live :
      (id : Text) (s : Paper F) (o : Order F)
      → IsBook s
      → (get_order id s).0 ≡ ok o
      → lookup o.id s.orders ≡ some o
  found_live id s o b h =
      let e = get_order-lookup id s o h in
      subst (λ k. lookup k s.orders ≡ some o) (sym (lookup-All EntryOk id s.orders b e).keyed) e

  get_order-Run : (id : Text) (s : Paper F) → Run false s (get_order id s).1
  unfolding get_order
  get_order-Run id s = here

  report-Run : (id : Text) (s : Paper F) → Run false s (report id s).1
  unfolding report
  report-Run id s = Run-bind (get_order id) _ s (get_order-Run id s) (λ o e. one (notes _ _ _ _))

  meet-Run : (s : Paper F) (o : Order F) (ts : ℕ) → Live s o → Run false s (meet o ts s).1
  unfolding meet tag_marketable
  meet-Run s o ts live = by (lookup o.symbol s.last) s.cfg.fill_at_placement
    where
      by : (last : Option F) (now_ : Bool) → Run false s (meet_at o ts last now_ s).1
      by none b = here
      by (some last) true = try_fill-Run s o _ true live
      by (some last) false = one (changes s o _ live.booked live.working (tags _))

  abbrev added : Paper F → Order F → Paper F
  added s o = record s { orders = insert o.id o s.orders }

  placed-Run :
      (s : Paper F) (o : Order F) (now : ℕ) (problem : Option (Problem F))
      → lookup o.id s.orders ≡ none
      → o.filled_qty ≡ 0
      → (o.status ≡ open_) ⊎ (o.status ≡ trigger_pending)
      → Run false s (placed o now problem s).1
  unfolding placed
  placed-Run s o now (some problem) fresh empty status =
      Run-trans (one (admits s _ fresh empty (inr (inr refl)))) (report-Run o.id _)
  placed-Run s o now none fresh empty status =
      let first : Run false s (added s o) = one (admits s o fresh empty (ground arith)) in
      let live : Live (added s o) o = record {
        booked = lookup-insert_self o.id o s.orders;
        working = ground arith;
      } in
      Run-trans first (
        Run-bind (meet o now) (λ _. report o.id) (added s o) (meet-Run (added s o) o now live)
          (λ _ _. report-Run o.id _))

  place_new-Run :
      (s : Paper F) (req : OrderRequest F) (now : ℕ)
      → lookup req.tag s.orders ≡ none
      → Run false s (place_new req now s).1
  unfolding place_new from_request
  place_new-Run s req now fresh =
      let o = from_request req now (suc s.seq) (first_status req.order_type) in
      let s' : Paper F = record s { seq = suc s.seq } in
      let same = validate-same o s' in
      Run-trans (one (notes s s.journal s.emitted (suc s.seq))) (
        Run-bind (validate o) (placed o now) s' (subst (Run false s') (sym same) here) (λ problem _.
          subst (λ t. Run false t (placed o now problem t).1) (sym same)
            (placed-Run s' o now problem fresh refl (first_status_waits req.order_type))))

  -- Placing an order is a run, whatever comes of it.
  pub place_order-Run :
      (s : Paper F) (req : OrderRequest F) (now : ℕ) → Run false s (place_order req now s).1
  unfolding place_order place_if_new
  place_order-Run s req now = by (lookup req.tag s.orders) refl
    where
      by :
          (known : Option (Order F))
          → lookup req.tag s.orders ≡ known
          → Run false s (place_if_new req now known s).1
      by none e = place_new-Run s req now e
      by (some o) e = here

  -- Cancelling is a run.
  pub cancel_order-Run :
      (s : Paper F) (id : Text) (now : ℕ) → IsBook s → Run false s (cancel_order id now s).1
  unfolding cancel_order
  cancel_order-Run s id now b =
      Run-bind (get_order id) (λ o. cancel_if o now (is_working o.status)) s (get_order-Run id s)
        (λ o e. by o (found_live id s o b e) (is_working o.status) refl)
    where
      by :
          (o : Order F)
          → lookup o.id s.orders ≡ some o
          → (working : Bool) → is_working o.status ≡ working
          → Run false (get_order id s).1 (cancel_if o now working (get_order id s).1).1
      by o found false e = here
      by o found true e = Run-trans (one (changes s o _ found e (cancels now))) (report-Run o.id _)

  fits_new_qty :
      (o : Order F) (new : Option ℕ)
      → o.filled_qty ≤ o.qty
      → below_filled new o ≡ false
      → o.filled_qty ≤ or_else new o.qty
  unfolding below_filled
  fits_new_qty o none fits h = fits
  fits_new_qty o (some q) fits h = ground arith

  resized-Run :
      (s : Paper F) (o : Order F) (c : Changes F) (now : ℕ) (id : Text)
      → Live s o
      → o.filled_qty ≤ or_else c.new_qty o.qty
      → Edited s (resized o c now id s).1
  unfolding resized with_rest
  resized-Run s o c now id live fits =
      let o' = with_rest c now o in
      let s' : Paper F = record s { orders = insert o.id o' s.orders } in
      let live' : Live s' o' = record {
        booked = lookup-insert_self o.id o' s.orders;
        working = live.working;
      } in
      after_edit (changes s o o' live.booked live.working (resizes _ _ now fits refl)) refl (
        unedited (
          Run-bind (meet o' now) (λ _. report id) s' (meet-Run s' o' now live')
            (λ _ _. report-Run id _)))

  repriced-Run :
      (s : Paper F) (o : Order F) (c : Changes F) (now : ℕ) (id : Text)
      → Live s o
      → o.filled_qty ≤ o.qty
      → Edited s (repriced o c now id s).1
  unfolding repriced with_prices
  repriced-Run s o c now id live fits =
      let o' = with_prices c o in
      let s' : Paper F = record s { orders = insert o.id o' s.orders } in
      let live' : Live s' o' = record {
        booked = lookup-insert_self o.id o' s.orders;
        working = live.working;
      } in
      after_edit (changes s o o' live.booked live.working (reprices _ _ refl)) refl
        (elim (Bool-cases (below_filled c.new_qty o)) [
          | inl low ↦ rw low (unedited here)
          | inr fine ↦
              rw fine (resized-Run s' o' c now id live' (fits_new_qty o c.new_qty fits fine))
        ])

  -- Modifying an order edits it and then runs, also where it raises.
  pub modify_order-Edited :
      (s : Paper F) (id : Text) (c : Changes F) (now : ℕ)
      → IsBook s
      → Edited s (modify_order id c now s).1
  unfolding modify_order
  modify_order-Edited s id c now b =
      Edited-bind (get_order id)
        (λ o. lift (raise_if (not (is_working o.status)) unknown_order) >> repriced o c now id) s
        (unedited (get_order-Run id s))
        (λ o e. elim (Bool-cases (is_working o.status)) [
          | inr ended ↦ rw ended (unedited here)
          | inl works ↦
              let booked = found_live id s o b e in
              rw works (
                repriced-Run s o c now id (record { booked = booked; working = works })
                  (lookup-All EntryOk o.id s.orders b booked).fits)
        ])
