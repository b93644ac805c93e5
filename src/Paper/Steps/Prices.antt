-- ===== src/Paper/Steps/Prices.antt =====
-- What a limit asks of the price of a fill (trading/brokers/paper.py), and that trades keep it.
use shiny_umbrella.Base.{◌≡◌, refl, Bool, true, false, Option, none, some, nat_eq, list_eq, arith}
use shiny_umbrella.Float.Arith.{Arith, ◌≼◌, round_to, OrderLaws, fmin-le_left, le-fmax_left}
use shiny_umbrella.Types.Enums.{Side, buy, sell}
use shiny_umbrella.Types.Orders.{Order, Fill}
use shiny_umbrella.Paper.State.{Paper}
use shiny_umbrella.Paper.Pricing.{fills_at_market, within_limit, beyond}
use shiny_umbrella.Paper.Steps.{Respects, capped, better, exact, Trade}

module _ {F : Type 0} ⦃fl : Arith F⦄ where
  -- The price is no worse than the limit for the order's side.
  no_worse : Side → F → F → Bool
  no_worse buy at price = price ≼ at
  no_worse sell at price = at ≼ price

  pub keeps_limit : Bool → Option F → Side → F → Bool
  unfolding no_worse
  keeps_limit false (some at) side price = no_worse side (round_to 4 at) price
  keeps_limit _ _ side price = true

  -- A limit to four places, where the order has one, is kept by a price.
  unfoldable pub respects_limit : Order F → F → Bool
  unfolding keeps_limit
  respects_limit o price = keeps_limit (fills_at_market o.order_type) o.price o.side price

  Respects-no_worse :
      (laws : OrderLaws fl) (side : Side) (at raw : F)
      → Respects side at raw
      → no_worse side (round_to 4 at) (round_to 4 raw) ≡ true
  unfolding no_worse within_limit beyond
  Respects-no_worse laws buy at raw (capped x e) =
      laws.round_mono 4 raw at (rw e (fmin-le_left laws at x))
  Respects-no_worse laws sell at raw (capped x e) =
      laws.round_mono 4 at raw (rw e (le-fmax_left laws at x))
  Respects-no_worse laws buy at raw (better h) =
      laws.round_mono 4 raw at (ground (arith, laws.le_total at raw))
  Respects-no_worse laws sell at raw (better h) =
      laws.round_mono 4 at raw (ground (arith, laws.le_total raw at))
  Respects-no_worse laws buy at raw (exact e) = laws.round_mono 4 raw at (rw e (laws.le_refl at))
  Respects-no_worse laws sell at raw (exact e) = laws.round_mono 4 at raw (rw e (laws.le_refl at))

  pub Trade-respects_limit :
      (laws : OrderLaws fl) {s : Paper F} {o : Order F} {f : Fill F}
      → Trade s o f
      → respects_limit o f.price ≡ true
  unfolding respects_limit keeps_limit
  Trade-respects_limit laws {s} {o} {f} t = by (fills_at_market o.order_type) o.price refl refl
    where
      by :
          (b : Bool) (p : Option F)
          → fills_at_market o.order_type ≡ b
          → o.price ≡ p
          → keeps_limit b p o.side f.price ≡ true
      by true p h e = refl
      by false none h e = refl
      by false (some at) h e =
          rw t.rounded (Respects-no_worse laws o.side at t.raw (t.limited at h e))
