-- ===== src/Portfolio/Quantities.antt =====
-- The quantities of the portfolio's positions are those of its fills.
use shiny_umbrella.Base.{
  ℕ, ℤ, pos, ◌+ℤ◌, eqb_ℤ, ◌||◌, ◌≡◌, refl, ap, ◌∙◌, Bool, true, false, Option, none, some, List, [],
  ◌∷◌, lookup, lookup-insert, ◌==◌, nat_eq, list_eq, pair_eq, or_else, if◌then◌else◌, Bool-cases,
  inl, inr,
}
use shiny_umbrella.Float.Arith.{Arith}
use shiny_umbrella.Types.Enums.{Side, signed, product_eq}
use shiny_umbrella.Types.Orders.{Fill, Position}
use shiny_umbrella.Paper.State.{Key}
use shiny_umbrella.Paper.Positions.{apply_fill_to_position, extend, reduce, same_sign}
use shiny_umbrella.Portfolio.{
  Portfolio, position_in, filled_position, roll_day, apply_fill, apply_fills,
}

module _ {F : Type 0} where
  held_qty : Option (Position F) → ℤ
  held_qty none = pos 0
  held_qty (some p) = p.qty

  -- The signed quantity of the position under a key, none counting as zero
  pub qty_at : Key → Portfolio F → ℤ
  unfolding held_qty
  qty_at k p = held_qty (lookup k p.positions)

  -- A quantity after the fills of a key among a list, buys counted up and sells down
  unfoldable pub booked_qty : Key → ℤ → List (Fill F) → ℤ
  booked_qty k n [] = n
  booked_qty k n (f ∷ fs) =
      booked_qty k (if (f.symbol, f.product) == k then n +ℤ signed f.side f.qty else n) fs

  qty-if :
      (b : Bool) (x y : Position F × F) (n : ℤ)
      → x.0.qty ≡ n
      → y.0.qty ≡ n
      → (if b then x else y).0.qty ≡ n
  qty-if true x y n h k = h
  qty-if false x y n h k = k

module _ {F : Type 0} ⦃fl : Arith F⦄ where
  apply_fill_to_position-qty :
      (p : Position F) (side : Side) (qty : ℕ) (price : F)
      → (apply_fill_to_position p side qty price).0.qty ≡ p.qty +ℤ signed side qty
  unfolding apply_fill_to_position extend reduce
  apply_fill_to_position-qty p side qty price =
      let change = signed side qty in
      qty-if (eqb_ℤ p.qty (pos 0) || same_sign p.qty change) (extend p change qty price)
        (reduce p change qty price) (p.qty +ℤ change) refl refl

  or_else-held_qty :
      (r : Option (Position F)) (start : Position F)
      → start.qty ≡ pos 0
      → (or_else r start).qty ≡ held_qty r
  unfolding held_qty
  or_else-held_qty none start h = h
  or_else-held_qty (some p) start h = refl

  filled_position-qty :
      (p : Portfolio F) (f : Fill F)
      → (filled_position p f).0.qty ≡ qty_at (f.symbol, f.product) p +ℤ signed f.side f.qty
  unfolding filled_position qty_at position_in
  filled_position-qty p f =
      let start = record (position_in p f.symbol f.product) { multiplier = f.multiplier } in
      apply_fill_to_position-qty start f.side f.qty f.price
      ∙ ap (λ n. n +ℤ signed f.side f.qty)
          (or_else-held_qty (lookup (f.symbol, f.product) p.positions) _ refl)

  apply_fill-qty_at :
      (k : Key) (p : Portfolio F) (f : Fill F)
      → qty_at k (apply_fill f p)
        ≡ (if (f.symbol, f.product) == k then qty_at k p +ℤ signed f.side f.qty else qty_at k p)
  unfolding apply_fill qty_at roll_day held_qty
  apply_fill-qty_at k p f =
      let key : Key = (f.symbol, f.product) in
      let q = (filled_position (roll_day f.ts p) f).0 in
      ap held_qty (lookup-insert key k q p.positions) ∙ (elim (Bool-cases (key == k)) [
        | inr other ↦ rw other refl
        | inl same ↦ rw same (
            filled_position-qty (roll_day f.ts p) f
            ∙ ap (λ j. qty_at j p +ℤ signed f.side f.qty) ((pair_eq.beq_iff key k).0 same))
      ])

  -- After any list of fills, the quantity of every position of the portfolio is the one it had
  -- before, counted up by the fills bought and down by the fills sold of its symbol and product.
  pub apply_fills-qty_at :
      (k : Key) (fs : List (Fill F)) (p : Portfolio F)
      → qty_at k (apply_fills fs p) ≡ booked_qty k (qty_at k p) fs
  unfolding apply_fills booked_qty
  apply_fills-qty_at k [] p = refl
  apply_fills-qty_at k (f ∷ fs) p =
      apply_fills-qty_at k fs (apply_fill f p)
      ∙ ap (λ n. booked_qty k n fs) (apply_fill-qty_at k p f)
