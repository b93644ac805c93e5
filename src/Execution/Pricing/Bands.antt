-- ===== src/Execution/Pricing/Bands.antt =====
-- An order is priced within the band of its intent.
use shiny_umbrella.Base.{
  ◌≡◌, refl, Bool, true, false, ◌&&◌, not, Option, none, some, lookup, nat_eq, list_eq, Result, ok,
  ok_injective, if◌then◌else◌,
}
use mathlib.Core.Path.{subst}
use shiny_umbrella.Float.Arith.{
  Arith, OrderLaws, ◌⊕◌, ◌⊖◌, ◌⊗◌, ◌⊘◌, ◌≼◌, of_ℕ, fmin-le_right, le-fmax_right,
}
use shiny_umbrella.Types.Enums.{Side, buy, sell, OrderType, limit, market}
use shiny_umbrella.Types.Intents.{OrderIntent}
use shiny_umbrella.Symbols.Parse.{ParsedSymbol, parse_symbol}
use shiny_umbrella.Execution.State.{Exec}
use shiny_umbrella.Execution.Pricing.{
  is_option, is_aggressive, clamp_to_band, wanted, round_to_tick, limit_price_of, price_order,
}

module _ {F : Type 0} ⦃fl : Arith F⦄ (i : OrderIntent F) where
  -- The price is no worse than the band around the reference price allows.
  abbrev pub InBand : Side → F → Type 0
  InBand buy x = (x ≼ i.reference_price ⊗ (of_ℕ 1 ⊕ i.limit_band_bps ⊘ of_ℕ 10000)) ≡ true
  InBand sell x = (i.reference_price ⊗ (of_ℕ 1 ⊖ i.limit_band_bps ⊘ of_ℕ 10000) ≼ x) ≡ true

  clamp_to_band-InBand :
      (laws : OrderLaws fl) (price : F) (side : Side)
      → InBand side (clamp_to_band price i.reference_price i side)
  unfolding clamp_to_band
  clamp_to_band-InBand laws price buy = fmin-le_right laws price _
  clamp_to_band-InBand laws price sell = le-fmax_right laws price _

  -- How an intent may be priced: at the market, which the configuration must allow and which
  -- options never are, or with a limit that is the rounding to a tick of a price within the band
  pub data Priced {B : Type 0} (s : Exec F B) (p : ParsedSymbol F)
      : Option F → OrderType → Type 0 where
    at_market :
        is_aggressive i.urgency ≡ true
        → s.cfg.allow_market_orders ≡ true
        → is_option p.kind ≡ false
        → Priced s p none market
    at_limit :
        (x : F) → InBand i.side x → Priced s p (some (round_to_tick s i.symbol x i.side)) limit

  -- A price is given at the market only where the configuration allows market orders, for an
  -- aggressive intent in a symbol that is not an option; any other is a limit, the rounding to a
  -- tick of a price within the band of the intent.
  pub price_order-Priced :
      {B : Type 0} (laws : OrderLaws fl) (s : Exec F B) (p : ParsedSymbol F)
      {priced : Option F × OrderType}
      → parse_symbol i.symbol ≡ ok p
      → price_order s i ≡ ok priced
      → Priced s p priced.0 priced.1
  unfolding price_order limit_price_of
  price_order-Priced laws s p {priced} parsed h =
      by (is_aggressive i.urgency) s.cfg.allow_market_orders (is_option p.kind) refl refl refl
        (rw parsed at h)
    where
      limited : ok (some (limit_price_of s i), limit) ≡ ok priced → Priced s p priced.0 priced.1
      limited k =
          subst (λ q. Priced s p q.0 q.1) (ok_injective k)
            (at_limit _
              (clamp_to_band-InBand laws (wanted i (lookup i.symbol s.quotes) i.urgency) i.side))

      by :
          (a m o : Bool)
          → is_aggressive i.urgency ≡ a
          → s.cfg.allow_market_orders ≡ m
          → is_option p.kind ≡ o
          → (if◌then◌else◌ {A = Result (Option F × OrderType)}
              (a && m && not o)
              (ok (none, market))
              (ok (some (limit_price_of s i), limit)))
            ≡ ok priced
          → Priced s p priced.0 priced.1
      by true true false ea em eo k =
          subst (λ q. Priced s p q.0 q.1) (ok_injective k) (at_market ea em eo)
      by true true true ea em eo k = limited k
      by true false o ea em eo k = limited k
      by false m o ea em eo k = limited k
