-- ===== src/Paper/Matching/Fills.antt =====
-- A fill by the paper broker is a run of the step relation.
use shiny_umbrella.Base.{
  ℕ, ◌≤◌, ◌<◌, ◌≡◌, refl, inl, inr, Bool, true, false, some, lookup, nat_eq, list_eq, ok,
  Result-cases, Bool-cases,
}
use shiny_umbrella.Float.Arith.{Arith, round_to, of_ℕ, ◌⊗◌}
use shiny_umbrella.Types.Enums.{is_working, is_future}
use shiny_umbrella.Types.Orders.{Order, Fill, insufficient_at_fill, remaining_qty}
use shiny_umbrella.Symbols.Parse.{ParsedSymbol, parse_symbol}
use shiny_umbrella.Costs.Fees.{compute_fees}
use shiny_umbrella.Paper.State.{Paper}
use shiny_umbrella.Paper.Pricing.{fills_at_market}
use shiny_umbrella.Paper.Matching.{
  multiplier, unaffordable, rejected_order, filled_order, make_fill, fill_valid, execute, reject,
  book, fill, fill_at,
}
use shiny_umbrella.Paper.Steps.{
  Respects, Trade, Run, here, next, one, rejects, changes, trades, notes,
}

module _ {F : Type 0} ⦃fl : Arith F⦄ where
  -- The order is in the book as it is given, and is working.
  pub record Live (s : Paper F) (o : Order F) : Type 0 where
    pub booked : lookup o.id s.orders ≡ some o
    pub working : is_working o.status ≡ true

  abbrev pub Limited : Order F → F → Type 0
  Limited o raw =
      (at : F) → fills_at_market o.order_type ≡ false → o.price ≡ some at → Respects o.side at raw

  reject-Run :
      (s : Paper F) (o : Order F) (x : F) (ts : ℕ)
      → Live s o
      → Run false s (reject o (insufficient_at_fill x) ts s).1
  unfolding reject rejected_order
  reject-Run s o x ts live =
      next (one (changes s o _ live.booked live.working (rejects (insufficient_at_fill x) ts)))
        (notes _ _ _ _)

  execute-Run :
      (s : Paper F) (o : Order F) (f : Fill F) (b : Bool)
      → Live s o
      → (t : Trade s o f) → b ≡ is_future t.parsed.kind
      → Run false s (execute o b f s).1
  unfolding execute book filled_order
  execute-Run s o f b live t e =
      rw e (next (one (trades s o f live.booked live.working t)) (notes _ _ _ _))

  priced :
      (s : Paper F) (o : Order F) (qty : ℕ) (raw : F) (ts : ℕ)
      → Live s o
      → 0 < qty
      → qty ≤ remaining_qty o
      → Limited o raw
      → (p : ParsedSymbol F) (mult : F) → parse_symbol o.symbol ≡ ok p
      → multiplier s.cfg o.symbol ≡ ok mult
      → Run false s (fill_at o qty (round_to 4 raw) ts p mult s).1
  unfolding fill_at make_fill
  priced s o qty raw ts live some_qty fits limited p mult e e' =
      let price = round_to 4 raw in
      let notional = of_ℕ qty ⊗ price ⊗ mult in
      elim (Bool-cases (unaffordable (is_future p.kind) o.side notional s.cash)) [
        | inl poor ↦ rw poor (reject-Run s o notional ts live)
        | inr rich ↦
            elim (Result-cases
              (compute_fees s.cfg.fee_schedule p o.side qty price o.product mult)) [
                | inr (x, c) ↦ rw (rich, c) here
                | inl (fees, c) ↦ elim (Bool-cases (fill_valid qty price mult)) [
                  | inr bad ↦ rw (rich, c, bad) here
                  | inl good ↦
                      rw (rich, c, good)
                        (execute-Run s o (make_fill o qty price ts fees mult) (is_future p.kind)
                          live
                          (record {
                            parsed = p;
                            parses = e;
                            of_order = refl;
                            same_symbol = refl;
                            same_side = refl;
                            same_product = refl;
                            some_qty = some_qty;
                            fits = fits;
                            scaled = e';
                            charged = c;
                            affordable = rich;
                            raw = raw;
                            rounded = refl;
                            limited = limited;
                          })
                          refl)
                ]
              ]
      ]

  -- A fill that fits the order is a rejection for want of funds, a trade, or an error that changes
  -- nothing.
  pub fill-Run :
      (s : Paper F) (o : Order F) (qty : ℕ) (raw : F) (ts : ℕ)
      → Live s o
      → 0 < qty
      → qty ≤ remaining_qty o
      → Limited o raw
      → Run false s (fill o qty raw ts s).1
  unfolding fill
  fill-Run s o qty raw ts live some_qty fits limited =
      elim (Result-cases (parse_symbol {F = F} o.symbol)) [
        | inr (x, e) ↦ rw e here
        | inl (p, e) ↦ elim (Result-cases (multiplier s.cfg o.symbol)) [
          | inr (x, e') ↦ rw (e, e') here
          | inl (mult, e') ↦
              rw (e, e') (priced s o qty raw ts live some_qty fits limited p mult e e')
        ]
      ]
