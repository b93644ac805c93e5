-- ===== src/Paper/Calls/Repeats.antt =====
-- The order that `place_order` returns stands in the book under its tag, so that the same request
-- placed again returns it and does nothing else.
use shiny_umbrella.Base.{
  ℕ, suc, ◌≡◌, refl, ap, Option, none, some, Text, lookup, nat_eq, list_eq, Result, ok, err, arith,
}
use shiny_umbrella.Float.Arith.{Arith}
use shiny_umbrella.Types.Orders.{Order, OrderRequest, Problem, from_request}
use shiny_umbrella.Paper.State.{Paper, Action, ◌>>=◌, continue, put_order}
use shiny_umbrella.Paper.Validation.{validate}
use shiny_umbrella.Paper.Calls.{
  first_status, get_order, meet, report, placed, place_new, place_if_new, place_order,
}

module _ {F : Type 0} ⦃fl : Arith F⦄ where
  -- The call, if it returns an order, leaves it in the book under the id.
  abbrev Leaves : Text → Result (Order F) × Paper F → Type 0
  Leaves id r = (o : Order F) → r.0 ≡ ok o → lookup id r.1.orders ≡ some o

  -- A call leaves what the call that ends it leaves.
  Leaves-bind :
      {A : Type 0} (id : Text) (m : Action F A) (f : A → Action F (Order F)) (s : Paper F)
      → ((a : A) → Leaves id (f a (m s).1))
      → Leaves id ((m >>= f) s)
  Leaves-bind {A} id m f s after = by (m s).0
    where
      by : (r : Result A) → Leaves id (continue r f (m s).1)
      by (ok a) o e = after a o e
      by (err x) o e = cc

  report-Leaves : (id : Text) (s : Paper F) → Leaves id (report id s)
  unfolding report get_order
  report-Leaves id s = by (lookup id s.orders) refl
    where
      by : (r : Option (Order F)) → lookup id s.orders ≡ r → Leaves id (report id s)
      by (some x) e o h = ground arith
      by none e o h = ground arith

  placed-Leaves :
      (o : Order F) (now : ℕ) (problem : Option (Problem F)) (s : Paper F)
      → Leaves o.id (placed o now problem s)
  unfolding placed
  placed-Leaves o now (some problem) s = report-Leaves o.id _
  placed-Leaves o now none s =
      Leaves-bind o.id (meet o now) (λ _. report o.id) (put_order o s).1 (λ u. report-Leaves o.id _)

  place_new-Leaves :
      (req : OrderRequest F) (now : ℕ) (s : Paper F) → Leaves req.tag (place_new req now s)
  unfolding place_new from_request
  place_new-Leaves req now s =
      let t : Paper F = record s { seq = suc s.seq } in
      let o = from_request req now (suc s.seq) (first_status req.order_type) in
      Leaves-bind req.tag (validate o) (placed o now) t (λ p. placed-Leaves o now p _)

  place_order-Leaves :
      (req : OrderRequest F) (now : ℕ) (s : Paper F) → Leaves req.tag (place_order req now s)
  unfolding place_order place_if_new
  place_order-Leaves req now s = by (lookup req.tag s.orders) refl
    where
      by :
          (known : Option (Order F))
          → lookup req.tag s.orders ≡ known
          → Leaves req.tag (place_if_new req now known s)
      by (some x) e o h = ground arith
      by none e o h = place_new-Leaves req now s o h

  place_known :
      (req : OrderRequest F) (now : ℕ) (s : Paper F) {o : Order F}
      → lookup req.tag s.orders ≡ some o
      → place_order req now s ≡ (ok o, s)
  unfolding place_order place_if_new
  place_known req now s {o} e = ap (λ r. place_if_new req now r s) e

  -- If placing a request returns an order, placing it again, at any later time, returns the same
  -- order and leaves the broker as it was: no second order, no fill, no store call, no update.
  pub place_again :
      (req : OrderRequest F) (now later : ℕ) (s : Paper F) {o : Order F}
      → (place_order req now s).0 ≡ ok o
      → place_order req later (place_order req now s).1 ≡ (ok o, (place_order req now s).1)
  place_again req now later s {o} h =
      place_known req later (place_order req now s).1 (place_order-Leaves req now s o h)
