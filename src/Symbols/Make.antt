-- ===== src/Symbols/Make.antt =====
-- `make_symbol`, `ParsedSymbol.canonical` and `contract_multiplier` of trading/brokers/symbols.py.
use shiny_umbrella.Base.{
  ℕ, suc, ℤ, pos, negsuc, Option, none, some, List, [], ◌∷◌, Text, codes, Dict, lookup, nat_eq,
  list_eq, ◌==◌, Result, ok, err, symbol_error, ◌>>=◌, if◌then◌else◌, ◌++◌,
}
use shiny_umbrella.Float.Arith.{Arith, of_ℕ}
use shiny_umbrella.Types.Enums.{Exchange, mcx, OptionType, ce, pe}
use shiny_umbrella.Symbols.Text.{upper, join, show_ℕ}
use shiny_umbrella.Symbols.Parse.{ParsedSymbol, exchange_name, parse_symbol}

abbrev option_name : OptionType → Text
option_name ce = codes "CE"
option_name pe = codes "PE"

abbrev show_ℤ : ℤ → Text
show_ℤ (pos n) = show_ℕ n
show_ℤ (negsuc n) = b'-' ∷ show_ℕ (suc n)

-- `MCX_CONTRACT_MULTIPLIER`
abbrev multipliers : Dict Text ℕ
multipliers =
    (codes "GOLD", 100)
    ∷ (codes "GOLDM", 10)
    ∷ (codes "GOLDGUINEA", 1)
    ∷ (codes "GOLDPETAL", 1)
    ∷ (codes "GOLDTEN", 1)
    ∷ (codes "SILVER", 30)
    ∷ (codes "SILVERM", 5)
    ∷ (codes "SILVERMIC", 1)
    ∷ (codes "CRUDEOIL", 100)
    ∷ (codes "CRUDEOILM", 10)
    ∷ (codes "NATURALGAS", 1250)
    ∷ (codes "NATGASMINI", 250)
    ∷ (codes "COPPER", 2500)
    ∷ (codes "ZINC", 5000)
    ∷ (codes "ZINCMINI", 1000)
    ∷ (codes "LEAD", 5000)
    ∷ (codes "LEADMINI", 1000)
    ∷ (codes "ALUMINIUM", 5000)
    ∷ (codes "ALUMINI", 1000)
    ∷ (codes "NICKEL", 1500)
    ∷ []

expiry_parts : Option Text → List Text
expiry_parts none = []
expiry_parts (some e) = if e == [] then [] else upper e ∷ []

module _ {F : Type 0} ⦃fl : Arith F⦄ where
  -- `_format_strike`
  format_strike : F → Text
  format_strike strike =
      if fl.is_integer strike then show_ℤ (fl.trunc strike) else fl.format_g strike

  strike_parts : Option F → Option OptionType → Result (List Text)
  unfolding format_strike
  strike_parts none _ = ok []
  strike_parts (some strike) none = err symbol_error
  strike_parts (some strike) (some ot) = ok (format_strike strike ∷ option_name ot ∷ [])

  -- `make_symbol`
  unfoldable pub make_symbol :
      Exchange → Text → Option Text → Option F → Option OptionType → Result Text
  unfolding strike_parts expiry_parts
  make_symbol ex underlying expiry strike ot = do
    last ← strike_parts strike ot
    ok (exchange_name ex ++ (b':' ∷ join b'-' ((upper underlying ∷ expiry_parts expiry) ++ last)))

  -- `ParsedSymbol.canonical`
  unfoldable pub canonical : ParsedSymbol F → Result Text
  canonical p = make_symbol p.exchange p.underlying p.expiry p.strike p.option_type

  multiplier_on : Exchange → Text → F
  multiplier_on mcx u = elim (lookup u multipliers) [ some m ↦ of_ℕ m | none ↦ of_ℕ 1 ]
  multiplier_on _ u = of_ℕ 1

  -- `contract_multiplier` of a parsed symbol, and of a symbol
  unfoldable pub multiplier_of : ParsedSymbol F → F
  unfolding multiplier_on
  multiplier_of p = multiplier_on p.exchange p.underlying

  unfoldable pub contract_multiplier : Text → Result F
  contract_multiplier symbol = do p ← parse_symbol symbol; ok (multiplier_of p)
