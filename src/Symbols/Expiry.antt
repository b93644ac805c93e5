-- ===== src/Symbols/Expiry.antt =====
-- The expiry of a parsed symbol, and `is_valid_symbol`, of trading/brokers/symbols.py.
use shiny_umbrella.Base.{
  ℕ, ◌+◌, [], ◌∷◌, Bool, true, false, not, Option, none, some, Text, Result, ok, err, symbol_error,
  unknown_symbol, assertion_error, ◌>>=◌, ◌>>◌, or_raise, raise_if, value_error,
}
use shiny_umbrella.Float.Arith.{Arith}
use shiny_umbrella.Clock.Dates.{Date, date}
use shiny_umbrella.Symbols.Parse.{ParsedSymbol, parse_symbol, match_expiry}

-- The parts of a token: an empty one counts as none, and one that does not match raises.
parts_of : Option Text → Result (Option (Option ℕ × ℕ × ℕ))
parts_of none = ok none
parts_of (some []) = ok none
parts_of (some (c ∷ token)) = do
  m ← or_raise (match_expiry (c ∷ token)) assertion_error
  ok (some m)

month_in : Option (Option ℕ × ℕ × ℕ) → Option (ℕ × ℕ)
month_in none = none
month_in (some (day, month, yy)) = some (2000 + yy, month)

-- A token with a day whose date does not exist raises, as the check `exists_` of `date` says.
date_in : (ℕ → ℕ → ℕ → Bool) → Option (Option ℕ × ℕ × ℕ) → Result (Option Date)
date_in exists_ none = ok none
date_in exists_ (some (none, month, yy)) = ok none
date_in exists_ (some (some day, month, yy)) = do
  raise_if (not (exists_ (2000 + yy) month day)) value_error
  ok (some (date (2000 + yy) month day))

validity : {F : Type 0} → Result (ParsedSymbol F) → Result Bool
validity (ok p) = ok true
validity (err symbol_error) = ok false
validity (err unknown_symbol) = ok false
validity (err x) = err x

module _ {F : Type 0} where
  -- `ParsedSymbol.expiry_month`: year and month
  pub expiry_month : ParsedSymbol F → Result (Option (ℕ × ℕ))
  unfolding parts_of month_in
  expiry_month p = do m ← parts_of p.expiry; ok (month_in m)

  -- `ParsedSymbol.expiry_date`
  pub expiry_date : (ℕ → ℕ → ℕ → Bool) → ParsedSymbol F → Result (Option Date)
  unfolding date_in
  expiry_date exists_ p = do m ← parts_of p.expiry; date_in exists_ m

-- `is_valid_symbol`
pub is_valid_symbol : (F : Type 0) ⦃fl : Arith F⦄ → Text → Result Bool
unfolding validity
is_valid_symbol F symbol = validity (parse_symbol {F = F} symbol)
