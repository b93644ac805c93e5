-- ===== src/Paper/Steps.antt =====
-- The transitions of the paper broker as a step relation: what one write to its accounts may do.
-- Every call of the broker edits the terms of an order, or not, and then is a run of steps that edit
-- none (Paper/Calls/Runs, Paper/Matching/Events), so what the steps keep, calls keep.
pub mod Lifecycle
pub mod Prices
pub mod Terms
use shiny_umbrella.Base.{
  ℕ, ◌≤◌, ◌<◌, ◌≡◌, Bool, true, false, ◌⊎◌, Option, none, some, List, ◌∷◌, [], ◌++◌, map, Text,
  Dict, lookup, insert, nat_eq, list_eq, ok, err, Result, refl, ◌∙◌,
}
use shiny_umbrella.Float.Arith.{Arith, round_to, of_ℕ, ◌⊗◌}
use shiny_umbrella.Types.Enums.{
  Side, OrderType, OrderStatus, trigger_pending, open_, cancelled, rejected, is_working, is_future,
}
use shiny_umbrella.Types.Orders.{Order, Fill, Problem, remaining_qty}
use shiny_umbrella.Symbols.Parse.{ParsedSymbol, parse_symbol}
use shiny_umbrella.Costs.Fees.{compute_fees}
use shiny_umbrella.Paper.State.{Paper, StoreCall, Update, Action, ◌>>=◌, continue}
use shiny_umbrella.Paper.Pricing.{fills_at_market, within_limit, beyond}
use shiny_umbrella.Paper.Matching.{
  filled_order, rejected_order, triggered_order, book_fill, mark_position, unaffordable, multiplier,
}

module _ {F : Type 0} ⦃fl : Arith F⦄ where
  -- How a price comes to respect a limit: capped by it, past it by the test, or equal to it
  pub data Respects (side : Side) (at raw : F) : Type 0 where
    capped : (x : F) → raw ≡ within_limit side at x → Respects side at raw
    better : beyond side raw at ≡ true → Respects side at raw
    exact : raw ≡ at → Respects side at raw

  -- The changes to a working order other than a fill, with or without those of its terms
  pub data Change (edits : Bool) (o : Order F) : Order F → Type 0 where
    rejects : (problem : Problem F) (ts : ℕ) → Change edits o (rejected_order o problem ts)
    triggers : (ts : ℕ) → o.status ≡ trigger_pending → Change edits o (triggered_order o ts)
    cancels : (ts : ℕ) → Change edits o (record o { status = cancelled; updated_at = ts })
    tags : (crosses : Bool) → Change edits o (record o { marketable = crosses })
    reprices :
        (price trigger : Option F)
        → edits ≡ true
        → Change edits o (record o { price = price; trigger_price = trigger })
    resizes :
        (qty : ℕ) (type : OrderType) (ts : ℕ)
        → o.filled_qty ≤ qty
        → edits ≡ true
        → Change edits o (record o { qty = qty; order_type = type; updated_at = ts })

  -- A fill that the broker may make of a working order
  pub record Trade (s : Paper F) (o : Order F) (f : Fill F) : Type 0 where
    pub parsed : ParsedSymbol F
    pub parses : parse_symbol o.symbol ≡ ok parsed
    pub of_order : f.order_id ≡ o.id
    pub same_symbol : f.symbol ≡ o.symbol
    pub same_side : f.side ≡ o.side
    pub same_product : f.product ≡ o.product
    pub some_qty : 0 < f.qty
    pub fits : f.qty ≤ remaining_qty o
    pub scaled : multiplier s.cfg o.symbol ≡ ok f.multiplier
    pub charged :
        compute_fees s.cfg.fee_schedule parsed o.side f.qty f.price o.product f.multiplier
        ≡ ok f.fees
    pub affordable :
        unaffordable (is_future parsed.kind) o.side (of_ℕ f.qty ⊗ f.price ⊗ f.multiplier) s.cash
        ≡ false
    pub raw : F
    pub rounded : f.price ≡ round_to 4 raw
    pub limited :
        (at : F) → fills_at_market o.order_type ≡ false → o.price ≡ some at → Respects o.side at raw

  -- One write to the accounts. The terms of an order change only in steps that may edit.
  pub data Step (edits : Bool) : Paper F → Paper F → Type 0 where
    notes :
        (s : Paper F) (journal : List (StoreCall F)) (emitted : List (Update F)) (seq : ℕ)
        → Step edits s (record s { journal = journal; emitted = emitted; seq = seq })
    admits :
        (s : Paper F) (o : Order F)
        → lookup o.id s.orders ≡ none
        → o.filled_qty ≡ 0
        → (o.status ≡ open_) ⊎ (o.status ≡ trigger_pending) ⊎ (o.status ≡ rejected)
        → Step edits s (record s { orders = insert o.id o s.orders })
    changes :
        (s : Paper F) (o o' : Order F)
        → lookup o.id s.orders ≡ some o
        → is_working o.status ≡ true
        → Change edits o o'
        → Step edits s (record s { orders = insert o.id o' s.orders })
    trades :
        (s : Paper F) (o : Order F) (f : Fill F)
        → lookup o.id s.orders ≡ some o
        → is_working o.status ≡ true
        → (t : Trade s o f)
        → Step edits s (
            let (positions, cash) = book_fill (is_future t.parsed.kind) f (s.positions, s.cash) in
            record s {
              orders = insert o.id (filled_order o f.qty f.price f.ts) s.orders;
              positions = positions;
              cash = cash;
              fills = s.fills ++ f ∷ [];
            })
    marks :
        (s : Paper F) (symbol : Text) (price : F)
        → Step edits s (record s {
          last = insert symbol price s.last;
          positions = map (mark_position symbol price) s.positions;
        })

  pub data Run (edits : Bool) (s : Paper F) : Paper F → Type 0 where
    here : Run edits s s
    next : {t u : Paper F} → Run edits s t → Step edits t u → Run edits s u

  pub Run-trans : {edits : Bool} {s t u : Paper F} → Run edits s t → Run edits t u → Run edits s u
  Run-trans r here = r
  Run-trans r (next q step) = next (Run-trans r q) step

  pub one : {edits : Bool} {s t : Paper F} → Step edits s t → Run edits s t
  one step = next here step

  -- A call followed by another is a run if the first is one, and the second one where it begins.
  pub Run-bind :
      {edits : Bool} {A B : Type 0} (m : Action F A) (f : A → Action F B) (s : Paper F)
      → Run edits s (m s).1
      → ((a : A) → (m s).0 ≡ ok a → Run edits (m s).1 (f a (m s).1).1)
      → Run edits s ((m >>= f) s).1
  Run-bind {edits} {A} {B} m f s first second = by (m s).0 refl
    where
      by : (r : Result A) → (m s).0 ≡ r → Run edits s (continue r f (m s).1).1
      by (ok a) e = Run-trans first (second a e)
      by (err x) e = first

  Change-loosen : {edits : Bool} {o o' : Order F} → Change edits o o' → Change true o o'
  Change-loosen (rejects problem ts) = rejects problem ts
  Change-loosen (triggers ts h) = triggers ts h
  Change-loosen (cancels ts) = cancels ts
  Change-loosen (tags crosses) = tags crosses
  Change-loosen (reprices price trigger m) = reprices price trigger refl
  Change-loosen (resizes qty type ts fits m) = resizes qty type ts fits refl

  Step-loosen : {edits : Bool} {s t : Paper F} → Step edits s t → Step true s t
  Step-loosen (notes s j e n) = notes s j e n
  Step-loosen (admits s o new z st) = admits s o new z st
  Step-loosen (changes s o o' found w c) = changes s o o' found w (Change-loosen c)
  Step-loosen (trades s o f found w t) = trades s o f found w t
  Step-loosen (marks s symbol price) = marks s symbol price

  pub loosen : {edits : Bool} {s t : Paper F} → Run edits s t → Run true s t
  loosen here = here
  loosen (next r step) = next (loosen r) (Step-loosen step)

  -- A call first edits an order, which fills nothing, and then runs without editing.
  pub record Edited (s t : Paper F) : Type 0 where
    pub middle : Paper F
    pub edit : Run true s middle
    pub fills_same : middle.fills ≡ s.fills
    pub rest : Run false middle t

  pub Edited-Run : {s t : Paper F} → Edited s t → Run true s t
  Edited-Run e = Run-trans e.edit (loosen e.rest)

  -- A run that edits nothing, after no edit
  pub unedited : {s t : Paper F} → Run false s t → Edited s t
  unedited {s} r = record { middle = s; edit = here; fills_same = refl; rest = r }

  -- A further edit before the others
  pub after_edit : {s m t : Paper F} → Step true s m → m.fills ≡ s.fills → Edited m t → Edited s t
  after_edit step same e = record {
    middle = e.middle;
    edit = Run-trans (one step) e.edit;
    fills_same = e.fills_same ∙ same;
    rest = e.rest;
  }

  pub Edited-bind :
      {A B : Type 0} (m : Action F A) (f : A → Action F B) (s : Paper F)
      → Edited s (m s).1
      → ((a : A) → (m s).0 ≡ ok a → Edited s (f a (m s).1).1)
      → Edited s ((m >>= f) s).1
  Edited-bind {A} {B} m f s first second = by (m s).0 refl
    where
      by : (r : Result A) → (m s).0 ≡ r → Edited s (continue r f (m s).1).1
      by (ok a) e = second a e
      by (err x) e = first
