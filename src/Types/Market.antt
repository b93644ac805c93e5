-- ===== src/Types/Market.antt =====
-- Bars and ticks of trading/core/types.py.
use shiny_umbrella.Base.{ℕ, ◌||◌, Option, some, Text, Result, ok, ◌>>◌, raise_if, value_error}
use shiny_umbrella.Float.Arith.{Arith, ◌≺◌, ◌⊕◌, ◌⊘◌, of_ℕ, fmin, fmax}
use shiny_umbrella.Types.Enums.{Interval}

pub record Bar (F : Type 0) : Type 0 where
  pub symbol : Text
  pub ts : ℕ
  pub interval : Interval
  pub opens : F
  pub high : F
  pub low : F
  pub close : F
  pub volume : ℕ
  pub oi : Option ℕ

pub record Tick (F : Type 0) : Type 0 where
  pub symbol : Text
  pub ts : ℕ
  pub ltp : F
  pub ltq : ℕ
  pub volume : ℕ
  pub bid : Option F
  pub ask : Option F
  pub oi : Option ℕ

module _ {F : Type 0} ⦃fl : Arith F⦄ where
  -- `Bar._check_range`
  pub check_range : Bar F → Result (Bar F)
  check_range b = do
    raise_if (b.high ≺ fmax b.opens b.close || fmin b.opens b.close ≺ b.low) value_error
    ok b

  -- `Tick.mid`; a bid or ask is above zero, so its truth is its presence.
  mid_of : Option F → Option F → F → F
  mid_of (some bid) (some ask) ltp = (bid ⊕ ask) ⊘ of_ℕ 2
  mid_of _ _ ltp = ltp

  pub mid : Tick F → F
  unfolding mid_of
  mid t = mid_of t.bid t.ask t.ltp
