-- ===== src/Execution/Pricing.antt =====
-- How the execution agent prices an order: from the urgency of its intent, within its band, on the
-- tick.
pub mod Bands
use shiny_umbrella.Base.{
  ℕ, suc, ℤ, pos, negsuc, Bool, true, false, ◌&&◌, not, Option, none, some, Text, lookup, nat_eq,
  list_eq, Result, ok, ◌>>=◌, or_else, if◌then◌else◌, ltb_ℤ,
}
use shiny_umbrella.Float.Arith.{
  Arith, ◌⊕◌, ◌⊖◌, ◌⊗◌, ◌⊘◌, ◌≼◌, ◌≺◌, of_ℕ, of_int, round_to, fmin, fmax,
}
use shiny_umbrella.Types.Enums.{
  Side, buy, sell, is_buy, OrderType, limit, market, Urgency, passive, normal, aggressive,
  InstrumentKind, option,
}
use shiny_umbrella.Types.Intents.{OrderIntent}
use shiny_umbrella.Types.Market.{Tick, mid}
use shiny_umbrella.Symbols.Instruments.{Instrument}
use shiny_umbrella.Symbols.Parse.{parse_symbol}
use shiny_umbrella.Execution.State.{Exec}

abbrev pub is_option : InstrumentKind → Bool
is_option option = true
is_option _ = false

abbrev pub is_aggressive : Urgency → Bool
is_aggressive aggressive = true
is_aggressive _ = false

-- `max(n, 1)`
abbrev at_least_one : ℤ → ℤ
at_least_one n = if ltb_ℤ n (pos 1) then pos 1 else n

module _ {F : Type 0} ⦃fl : Arith F⦄ where
  tick_of : Option (Instrument F) → F → F
  tick_of none default = default
  tick_of (some inst) default = if of_ℕ 0 ≺ inst.tick_size then inst.tick_size else default

  -- The whole number of ticks for a side
  unfoldable pub whole_ticks : Side → F → ℤ
  whole_ticks buy steps = fl.floor steps
  whole_ticks sell steps = fl.ceil steps

  unfoldable pub to_tick : F → F → Side → F
  unfolding whole_ticks
  to_tick tick price side =
      round_to 4 (of_int (at_least_one (whole_ticks side (round_to 9 (price ⊘ tick)))) ⊗ tick)

  -- `_clamp_to_band`
  unfoldable pub clamp_to_band : F → F → OrderIntent F → Side → F
  clamp_to_band price ref i buy = fmin price (ref ⊗ (of_ℕ 1 ⊕ i.limit_band_bps ⊘ of_ℕ 10000))
  clamp_to_band price ref i sell = fmax price (ref ⊗ (of_ℕ 1 ⊖ i.limit_band_bps ⊘ of_ℕ 10000))

  -- What the quote of a symbol says of the bid, the ask and the middle; a bid or ask is above zero,
  -- so its truth is its presence.
  bid_of : Option (Tick F) → Option F
  bid_of none = none
  bid_of (some t) = t.bid

  ask_of : Option (Tick F) → Option F
  ask_of none = none
  ask_of (some t) = t.ask

  mid_or : Option (Tick F) → F → F
  mid_or none ref = ref
  mid_or (some t) ref = mid t

  -- The other side of the book, and the own side
  across : Side → Option (Tick F) → F → F
  unfolding ask_of bid_of
  across buy t mid = or_else (ask_of t) mid
  across sell t mid = or_else (bid_of t) mid

  own_side : Side → Option (Tick F) → F → F
  unfolding ask_of bid_of
  own_side buy t mid = or_else (bid_of t) mid
  own_side sell t mid = or_else (ask_of t) mid

  through : Side → F → F → F
  through buy touch band = touch ⊗ (of_ℕ 1 ⊕ band)
  through sell touch band = touch ⊗ (of_ℕ 1 ⊖ band)

  -- The price before the band and the tick
  pub wanted : OrderIntent F → Option (Tick F) → Urgency → F
  unfolding mid_or across own_side through
  wanted i t aggressive =
      through i.side (across i.side t (mid_or t i.reference_price)) (i.limit_band_bps ⊘ of_ℕ 10000)
  wanted i t passive = own_side i.side t (mid_or t i.reference_price)
  wanted i t normal = mid_or t i.reference_price

module _ {F : Type 0} ⦃fl : Arith F⦄ {B : Type 0} (s : Exec F B) where
  -- `tick_size`
  unfoldable pub tick_size : Text → F
  unfolding tick_of
  tick_size symbol = tick_of (lookup symbol s.instruments) s.cfg.default_tick_size

  -- `round_to_tick`
  unfoldable pub round_to_tick : Text → F → Side → F
  unfolding to_tick tick_size
  round_to_tick symbol price side = to_tick (tick_size symbol) price side

  -- The limit price of an intent
  unfoldable pub limit_price_of : OrderIntent F → F
  unfolding clamp_to_band wanted
  limit_price_of i =
      round_to_tick i.symbol
        (clamp_to_band (wanted i (lookup i.symbol s.quotes) i.urgency) i.reference_price i i.side)
        i.side

  -- `price_order`
  unfoldable pub price_order : OrderIntent F → Result (Option F × OrderType)
  price_order i = do
    p ← parse_symbol {F = F} i.symbol
    if is_aggressive i.urgency && s.cfg.allow_market_orders && not (is_option p.kind)
        then ok (none, market)
        else ok (some (limit_price_of i), limit)
