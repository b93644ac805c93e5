-- ===== src/Paper/Liquidation.antt =====
-- `liquidate` of trading/brokers/paper.py: closing open positions at the last price.
use shiny_umbrella.Base.{
  ℕ, suc, pos, eqb_ℤ, ltb_ℤ, to_ℕ, Bool, true, false, not, ◌||◌, Option, none, some, List, [], ◌∷◌,
  Text, lookup, keys, contains, nat_eq, list_eq, pair_eq, if◌then◌else◌, or_else,
}
use shiny_umbrella.Float.Arith.{Arith, ◌≼◌, of_ℕ}
use shiny_umbrella.Types.Enums.{buy, sell, market, ProductType, product_beq, product_eq, day, open_}
use shiny_umbrella.Types.Orders.{Order, OrderRequest, Position, from_request}
use shiny_umbrella.Paper.State.{Key, Action, ◌>>=◌, ◌>>◌, pure, gets, modify, put_order, price_at}
use shiny_umbrella.Paper.Matching.{try_fill}
use shiny_umbrella.Paper.Calls.{report}

-- The guards of the loop
other_product : Option ProductType → ProductType → Bool
other_product none p = false
other_product (some wanted) p = not (product_beq p wanted)

other_symbol : Option (List Text) → Text → Bool
other_symbol none symbol = false
other_symbol (some symbols) symbol = not (contains symbol symbols)

module _ {F : Type 0} ⦃fl : Arith F⦄ where
  -- `pos.last_price or pos.avg_price`: a last price of zero counts as none.
  own_price : Option F → F → F
  own_price none avg = avg
  own_price (some p) avg = if p ≼ of_ℕ 0 then (if of_ℕ 0 ≼ p then avg else p) else p

  skipped : Option ProductType → Option (List Text) → Position F → Bool
  unfolding other_product other_symbol
  skipped product symbols p =
      eqb_ℤ p.qty (pos 0) || other_product product p.product || other_symbol symbols p.symbol

  closing_request : Text → Position F → OrderRequest F
  closing_request tag p = record {
    symbol = p.symbol;
    side = if ltb_ℤ (pos 0) p.qty then sell else buy;
    qty = to_ℕ p.qty;
    order_type = market;
    product = p.product;
    price = none;
    trigger_price = none;
    validity = day;
    tag = tag;
  }

  -- One position closed; `new_tag` is the source of fresh tags.
  close_one : (ℕ → Text) → Text → ℕ → Position F → Action F (Order F)
  unfolding closing_request own_price
  close_one new_tag reason now p = do
    last ← gets λ s. or_else (lookup p.symbol s.last) (own_price p.last_price p.avg_price)
    modify λ s. record s { seq = suc s.seq }
    number ← gets λ s. s.seq
    let made = from_request (closing_request (new_tag number) p) now number open_
    let o = record made { liquidation = some reason }
    put_order o
    try_fill o (price_at now last) true
    report o.id

  close_if :
      (ℕ → Text)
      → Text
      → ℕ
      → Option ProductType
      → Option (List Text)
      → Option (Position F)
      → Action F (List (Order F))
      → Action F (List (Order F))
  unfolding skipped close_one
  close_if new_tag reason now product symbols none rest = rest
  close_if new_tag reason now product symbols (some p) rest =
      if skipped product symbols p
      then rest
      else (do o ← close_one new_tag reason now p; os ← rest; pure (o ∷ os))

  -- The loop over the positions that there were when it began: closing one changes no other.
  close_each :
      (ℕ → Text)
      → Text
      → ℕ
      → Option ProductType
      → Option (List Text)
      → List Key
      → Action F (List (Order F))
  unfolding close_if
  close_each new_tag reason now product symbols [] = pure []
  close_each new_tag reason now product symbols (k ∷ ks) = do
    p ← gets λ s. lookup k s.positions
    close_if new_tag reason now product symbols p (close_each new_tag reason now product symbols ks)

  -- `liquidate`
  unfoldable pub liquidate :
      (ℕ → Text) → Option ProductType → Option (List Text) → Text → ℕ → Action F (List (Order F))
  unfolding close_each
  liquidate new_tag product symbols reason now = do
    ks ← gets λ s. keys s.positions
    close_each new_tag reason now product symbols ks
