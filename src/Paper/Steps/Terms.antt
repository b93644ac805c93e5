-- ===== src/Paper/Steps/Terms.antt =====
-- The terms of the orders in the paper broker's book, which steps that do not edit keep.
use shiny_umbrella.Base.{
  ℕ, ◌≤◌, ◌≡◌, refl, sym, ◌∙◌, false, Option, some, Text, Dict, lookup, insert, lookup-insert,
  nat_eq, list_eq, list_beq_iff, ◌==◌, arith, Bool-cases, inl, inr,
}
use mathlib.Core.Path.{subst}
use native.Mathlib.Nat.{le_refl}
use shiny_umbrella.Float.Arith.{Arith}
use shiny_umbrella.Types.Enums.{Side, ProductType, OrderType}
use shiny_umbrella.Types.Orders.{Order}
use shiny_umbrella.Paper.State.{Paper}
use shiny_umbrella.Paper.Matching.{filled_order, rejected_order, triggered_order}
use shiny_umbrella.Paper.Steps.{
  Change, rejects, triggers, cancels, tags, reprices, resizes, Step, notes, admits, changes, trades,
  marks,
}

-- What an order asks for, its quantity aside
pub record Terms (F : Type 0) : Type 0 where
  pub symbol : Text
  pub side : Side
  pub product : ProductType
  pub order_type : OrderType
  pub price : Option F

abbrev pub terms : {F : Type 0} → Order F → Terms F
terms o = record {
  symbol = o.symbol;
  side = o.side;
  product = o.product;
  order_type = o.order_type;
  price = o.price;
}

module _ {F : Type 0} ⦃fl : Arith F⦄ where
  -- A later version of an order with the same terms
  abbrev Continues : Order F → Order F → Type 0
  Continues o o' = (terms o' ≡ terms o) × (o.filled_qty ≤ o'.filled_qty)

  Change-Continues : {o o' : Order F} → Change false o o' → Continues o o'
  unfolding rejected_order triggered_order
  Change-Continues (rejects problem ts) = (refl, le_refl _)
  Change-Continues (triggers ts h) = (refl, le_refl _)
  Change-Continues (cancels ts) = (refl, le_refl _)
  Change-Continues (tags crosses) = (refl, le_refl _)
  Change-Continues (reprices price trigger m) = absurd (ground (arith, m))
  Change-Continues (resizes qty type ts fits m) = absurd (ground (arith, m))

  filled-Continues :
      (o : Order F) (qty : ℕ) (price : F) (ts : ℕ) → Continues o (filled_order o qty price ts)
  unfolding filled_order
  filled-Continues o qty price ts = (refl, omega arith)

  -- An order of the first book is in the second with the same terms.
  abbrev pub Stays : Dict Text (Order F) → Dict Text (Order F) → Type 0
  Stays os os' =
      (id : Text) (o : Order F)
      → lookup id os ≡ some o
      → (o' : Order F) × (lookup id os' ≡ some o') × Continues o o'

  Stays-refl : (os : Dict Text (Order F)) → Stays os os
  Stays-refl os id o h = (o, h, (refl, le_refl _))

  -- So it is where an order is put in the place of none, or of one that it continues.
  insert-Stays :
      (os : Dict Text (Order F)) (k : Text) (o' : Order F)
      → ((o : Order F) → lookup k os ≡ some o → Continues o o')
      → Stays os (insert k o' os)
  insert-Stays os k o' c id x h = elim (Bool-cases (k == id)) [
    | inr miss ↦ (x, lookup-insert k id o' os ∙ rw miss h, (refl, le_refl _))
    | inl hit ↦
        let key : id ≡ k = sym ((list_beq_iff k id).0 hit) in
        (o', lookup-insert k id o' os ∙ rw hit refl, c x (subst (λ i. lookup i os ≡ some x) key h))
  ]

  -- The order in a place is the one found there.
  only :
      (os : Dict Text (Order F)) (k : Text) {o : Order F} (o' : Order F)
      → lookup k os ≡ some o
      → Continues o o'
      → (x : Order F) → lookup k os ≡ some x
      → Continues x o'
  only os k {o} o' found c x h =
      let same : o ≡ x = ground (arith, found, h) in subst (λ y. Continues y o') same c

  pub Step-Stays : {s t : Paper F} → Step false s t → Stays s.orders t.orders
  Step-Stays {s} (notes _ j e n) = Stays-refl s.orders
  Step-Stays {s} (admits _ o new z st) =
      insert-Stays s.orders o.id o (λ x h. absurd (ground (arith, new, h)))
  Step-Stays {s} (changes _ o o' found w c) =
      insert-Stays s.orders o.id o' (only s.orders o.id o' found (Change-Continues c))
  Step-Stays {s} (trades _ o f found w t) =
      insert-Stays s.orders o.id (filled_order o f.qty f.price f.ts) (
        only s.orders o.id (filled_order o f.qty f.price f.ts) found
          (filled-Continues o f.qty f.price f.ts))
  Step-Stays {s} (marks _ symbol price) = Stays-refl s.orders
