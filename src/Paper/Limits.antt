-- ===== src/Paper/Limits.antt =====
-- The fills that a call of the paper broker makes against the orders they fill: which order each of
-- them is of, and that none is made past that order's limit.
use shiny_umbrella.Base.{
  ◌≤◌, ◌<◌, ◌≡◌, sym, ap, ◌∙◌, Bool, true, false, some, List, [], ◌∷◌, ◌++◌, Text, Dict, lookup,
  insert, lookup-insert_self, nat_eq, list_eq, arith, All, All-append, Bool-cases, inl, inr,
}
use mathlib.Core.Path.{subst}
use mathlib.Core.List.{append-nil, append_assoc}
use native.Mathlib.Nat.{le_trans}
use shiny_umbrella.Float.Arith.{Arith, OrderLaws}
use shiny_umbrella.Types.Enums.{is_working, is_terminal}
use shiny_umbrella.Types.Orders.{Order, Fill}
use shiny_umbrella.Paper.State.{Paper, PaperConfig, new_paper}
use shiny_umbrella.Paper.Pricing.{fills_at_market}
use shiny_umbrella.Paper.Matching.{filled_order}
use shiny_umbrella.Paper.Steps.{
  Step, Run, Trade, here, next, notes, admits, changes, trades, marks, Run-trans, loosen,
}
use shiny_umbrella.Paper.Steps.Lifecycle.{KeepsEnded, Run-KeepsEnded, working_not_ended}
use shiny_umbrella.Paper.Sessions.{Call, history, after, after-Edited, consistent}
use shiny_umbrella.Paper.Steps.Prices.{keeps_limit, respects_limit, Trade-respects_limit}
use shiny_umbrella.Paper.Steps.Terms.{Terms, Stays, Step-Stays}

module _ {F : Type 0} ⦃fl : Arith F⦄ where
  -- The order of a fill stands in the book: it has the fill's symbol, side and product, is filled
  -- by at least as much, and its limit is kept by the fill's price.
  pub record Origin (orders : Dict Text (Order F)) (f : Fill F) : Type 0 where
    pub order : Order F
    pub found : lookup f.order_id orders ≡ some order
    pub same_symbol : f.symbol ≡ order.symbol
    pub same_side : f.side ≡ order.side
    pub same_product : f.product ≡ order.product
    pub some_qty : 0 < f.qty
    pub fits : f.qty ≤ order.filled_qty
    pub limited : respects_limit order f.price ≡ true

  -- A fill made between two states: it is of an order that had not ended in the first one.
  pub record Made (s t : Paper F) (f : Fill F) : Type 0 where
    pub origin : Origin t.orders f
    pub not_ended :
        (o : Order F) → lookup f.order_id s.orders ≡ some o → is_terminal o.status ≡ false

  terms_respect : Terms F → F → Bool
  terms_respect x price = keeps_limit (fills_at_market x.order_type) x.price x.side price

  Stays-Origin :
      {os os' : Dict Text (Order F)} (f : Fill F) → Stays os os' → Origin os f → Origin os' f
  unfolding respects_limit terms_respect
  Stays-Origin f k o =
      let (o', found, (same, more)) = k f.order_id o.order o.found in
      record {
        order = o';
        found = found;
        same_symbol = o.same_symbol ∙ sym (ap (λ x. x.symbol) same);
        same_side = o.same_side ∙ sym (ap (λ x. x.side) same);
        same_product = o.same_product ∙ sym (ap (λ x. x.product) same);
        some_qty = o.some_qty;
        fits = le_trans o.fits more;
        limited = ap (λ x. terms_respect x f.price) same ∙ o.limited;
      }

  -- A trade leaves its order in the book, with the fill counted.
  Trade-Origin :
      (laws : OrderLaws fl) {s : Paper F} (o : Order F) (f : Fill F)
      → Trade s o f
      → Origin (insert o.id (filled_order o f.qty f.price f.ts) s.orders) f
  unfolding filled_order respects_limit
  Trade-Origin laws {s} o f t =
      let o' = filled_order o f.qty f.price f.ts in
      record {
        order = o';
        found =
            ap (λ k. lookup k (insert o.id o' s.orders)) t.of_order
            ∙ lookup-insert_self o.id o' s.orders;
        same_symbol = t.same_symbol;
        same_side = t.same_side;
        same_product = t.same_product;
        some_qty = t.some_qty;
        fits = omega arith;
        limited = Trade-respects_limit laws t;
      }

  -- An order that is traded has not ended before.
  traded_not_ended :
      (s t : Paper F) {o : Order F} {f : Fill F}
      → KeepsEnded s t
      → lookup o.id t.orders ≡ some o
      → is_working o.status ≡ true
      → Trade t o f
      → (p : Order F) → lookup f.order_id s.orders ≡ some p
      → is_terminal p.status ≡ false
  traded_not_ended s t {o} {f} keeps found works trade p h =
      elim (Bool-cases (is_terminal p.status)) [
        | inr running ↦ running
        | inl ended ↦
            let there : lookup o.id t.orders ≡ some p =
              subst (λ k. lookup k t.orders ≡ some p) trade.of_order (keeps f.order_id p h ended) in
            let same : p ≡ o = ground (arith, there, found) in
            absurd (
              working_not_ended o.status works
                (subst (λ x. is_terminal x.status ≡ true) same ended))
      ]

  -- What a run from the first state to the second has added to the fills
  abbrev Adds : Paper F → Paper F → Type 0
  Adds s t = (fs : List (Fill F)) × (t.fills ≡ s.fills ++ fs) × All (Made s t) fs

  still_Made :
      (s t u : Paper F)
      → Stays t.orders u.orders
      → (fs : List (Fill F)) → All (Made s t) fs
      → All (Made s u) fs
  still_Made s t u k [] a = tt
  still_Made s t u k (f ∷ fs) (m, a) = (
    record { origin = Stays-Origin f k m.origin; not_ended = m.not_ended },
    still_Made s t u k fs a,
  )

  Step-Adds :
      (laws : OrderLaws fl) {s t u : Paper F}
      → KeepsEnded s t
      → Adds s t
      → Step false t u
      → Adds s u
  Step-Adds laws {s} {u = u} keeps (fs, e, a) (notes t j em n) =
      (fs, e, still_Made s t u (Step-Stays (notes t j em n)) fs a)
  Step-Adds laws {s} {u = u} keeps (fs, e, a) (admits t o new z st) =
      (fs, e, still_Made s t u (Step-Stays (admits t o new z st)) fs a)
  Step-Adds laws {s} {u = u} keeps (fs, e, a) (changes t o o' found w c) =
      (fs, e, still_Made s t u (Step-Stays (changes t o o' found w c)) fs a)
  Step-Adds laws {s} {u = u} keeps (fs, e, a) (marks t symbol price) =
      (fs, e, still_Made s t u (Step-Stays (marks t symbol price)) fs a)
  Step-Adds laws {s} {u = u} keeps (fs, e, a) (trades t o f found w tr) = (
    fs ++ f ∷ [],
    ap (λ xs. xs ++ f ∷ []) e ∙ append_assoc s.fills fs (f ∷ []),
    All-append (Made s u) fs (f ∷ []) (still_Made s t u (Step-Stays (trades t o f found w tr)) fs a)
        (
          record {
            origin = Trade-Origin laws o f tr;
            not_ended = traded_not_ended s t keeps found w tr;
          },
          tt,
        ),
  )

  Run-Adds :
      (laws : OrderLaws fl) {s m t : Paper F}
      → Run true s m
      → m.fills ≡ s.fills
      → Run false m t
      → Adds s t
  Run-Adds laws {s} edit same here = ([], same ∙ sym (append-nil s.fills), tt)
  Run-Adds laws {s} edit same (next r step) =
      Step-Adds laws (Run-KeepsEnded (Run-trans edit (loosen r))) (Run-Adds laws edit same r) step

  -- After any history of calls, a further call only adds fills, and each that it adds is of an order
  -- in the book after the call that had not ended before it, if it was there: the fill has the order's
  -- symbol, side and product and a positive quantity, which the order counts as filled, and its price
  -- is no worse than the order's limit, rounded to four places, where the order has one. Comparison of
  -- floats is assumed to be a total order, that is no price is NaN, and rounding to be monotone.
  pub history_fills_come_from_orders :
      (laws : OrderLaws fl) (cfg : PaperConfig F) (cs : List (Call F)) (c : Call F)
      → let s = history cs (new_paper cfg) in
        (fs : List (Fill F)) × ((after c s).fills ≡ s.fills ++ fs) × All (Made s (after c s)) fs
  history_fills_come_from_orders laws cfg cs c =
      let e = after-Edited c (history cs (new_paper cfg)) (consistent cfg cs) in
      Run-Adds laws e.edit e.fills_same e.rest
