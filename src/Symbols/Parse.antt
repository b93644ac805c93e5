-- ===== src/Symbols/Parse.antt =====
-- `ParsedSymbol`, `parse_symbol`, `make_symbol` and `contract_multiplier` of
-- trading/brokers/symbols.py.
use shiny_umbrella.Base.{
  ℕ, ◌+◌, ◌*◌, Bool, true, false, ◌&&◌, ◌||◌, not, Option, none, some, List, [], ◌∷◌, Text, codes,
  Dict, lookup, contains, nat_eq, list_eq, ◌==◌, Result, ok, err, symbol_error, ◌>>=◌, ◌>>◌,
  raise_if, or_raise, is_some, ◌=ℕ◌, leb, if◌then◌else◌,
}
use mathlib.Core.List.{reverse}
use shiny_umbrella.Float.Arith.{Arith, literal}
use shiny_umbrella.Types.Enums.{
  Exchange, nse, nfo, mcx, InstrumentKind, equity, index, future, option, OptionType, ce, pe,
  is_derivative,
}
use shiny_umbrella.Symbols.Text.{upper, is_digit, digit, all, split_once, split, join, chomp}

pub record ParsedSymbol (F : Type 0) : Type 0 where
  pub exchange : Exchange
  pub underlying : Text
  pub kind : InstrumentKind
  pub expiry : Option Text
  pub strike : Option F
  pub option_type : Option OptionType

-- `Exchange(text)`
abbrev exchanges : Dict Text Exchange
exchanges = (codes "NSE", nse) ∷ (codes "NFO", nfo) ∷ (codes "MCX", mcx) ∷ []

abbrev pub exchange_name : Exchange → Text
exchange_name nse = codes "NSE"
exchange_name nfo = codes "NFO"
exchange_name mcx = codes "MCX"

-- `_MONTHS`
abbrev months : Dict Text ℕ
months =
    (codes "JAN", 1)
    ∷ (codes "FEB", 2)
    ∷ (codes "MAR", 3)
    ∷ (codes "APR", 4)
    ∷ (codes "MAY", 5)
    ∷ (codes "JUN", 6)
    ∷ (codes "JUL", 7)
    ∷ (codes "AUG", 8)
    ∷ (codes "SEP", 9)
    ∷ (codes "OCT", 10)
    ∷ (codes "NOV", 11)
    ∷ (codes "DEC", 12)
    ∷ []

abbrev index_names : List Text
index_names =
    codes "NIFTY"
    ∷ codes "NIFTY50"
    ∷ codes "BANKNIFTY"
    ∷ codes "FINNIFTY"
    ∷ codes "MIDCPNIFTY"
    ∷ codes "NIFTYNXT50"
    ∷ codes "INDIAVIX"
    ∷ codes "SENSEX"
    ∷ codes "BANKEX"
    ∷ []

-- The match of `_EXPIRY_RE` on a token without its newline: day, month and year of the century.
dated : Option ℕ → Option ℕ → ℕ → ℕ → Option (Option ℕ × ℕ × ℕ)
dated day none y z = none
dated day (some month) y z =
    if is_digit y && is_digit z then some (day, month, digit y * 10 + digit z) else none

expiry_of : Text → Option (Option ℕ × ℕ × ℕ)
unfolding dated
expiry_of (a ∷ b ∷ c ∷ y ∷ z ∷ []) = dated none (lookup (a ∷ b ∷ c ∷ []) months) y z
expiry_of (d ∷ a ∷ b ∷ c ∷ y ∷ z ∷ []) =
    if is_digit d then dated (some (digit d)) (lookup (a ∷ b ∷ c ∷ []) months) y z else none
expiry_of (d ∷ e ∷ a ∷ b ∷ c ∷ y ∷ z ∷ []) =
    if is_digit d && is_digit e
    then dated (some (digit d * 10 + digit e)) (lookup (a ∷ b ∷ c ∷ []) months) y z
    else none
expiry_of _ = none

-- `_EXPIRY_RE.match`
unfoldable pub match_expiry : Text → Option (Option ℕ × ℕ × ℕ)
unfolding expiry_of
match_expiry token = expiry_of (chomp token)

-- The digits of a number without sign, with the places behind its point: value and places.
number_from : Text → ℕ → Option ℕ → Option (ℕ × ℕ)
number_from [] n none = some (n, 0)
number_from [] n (some places) = some (n, places)
number_from (c ∷ s) n none =
    let pointed = number_from s n (some 0) in
    let more = number_from s (n * 10 + digit c) none in
    if is_digit c then more else if c =ℕ b'.' then pointed else none
number_from (c ∷ s) n (some places) =
    let more = number_from s (n * 10 + digit c) (some (places + 1)) in
    if is_digit c then more else none

-- A number has a digit first and a digit last.
abbrev ends_in_digit : Text → Bool
ends_in_digit [] = false
ends_in_digit (c ∷ []) = is_digit c
ends_in_digit (c ∷ d ∷ s) = ends_in_digit (d ∷ s)

abbrev starts_with_digit : Text → Bool
starts_with_digit [] = false
starts_with_digit (c ∷ s) = is_digit c

-- `_STRIKE_RE.match`, with the value that `float` reads
unfoldable pub match_strike : Text → Option (ℕ × ℕ)
unfolding number_from
match_strike token =
    let t = chomp token in
    if starts_with_digit t && ends_in_digit t then number_from t 0 none else none

abbrev underlying_code : ℕ → Bool
underlying_code c = (leb b'A' c && leb c b'Z') || is_digit c || c =ℕ b'&' || c =ℕ b'_' || c =ℕ b'-'

-- `underlying and _UNDERLYING_RE.match(underlying)`
unfoldable pub valid_underlying : Text → Bool
valid_underlying u = not (chomp u == []) && all underlying_code (chomp u)

-- Tolerate an explicit FUT suffix; the tokens come in reverse, here the ones before it.
short_or_undated : List Text → Bool
short_or_undated (e ∷ u ∷ us) = not (is_some (match_expiry e))
short_or_undated _ = true

drop_fut : List Text → Result (List Text)
unfolding short_or_undated
drop_fut [] = ok []
drop_fut (t ∷ ts) =
    if t == codes "FUT" then (raise_if (short_or_undated ts) symbol_error >> ok ts) else ok (t ∷ ts)

abbrev option_type_of : Text → Option OptionType
option_type_of t = if t == codes "CE" then some ce else if t == codes "PE" then some pe else none

abbrev pub is_nse : Exchange → Bool
is_nse nse = true
is_nse _ = false

module _ {F : Type 0} ⦃fl : Arith F⦄ where
  option_symbol :
      Exchange
      → OptionType
      → Text
      → Text
      → List Text
      → Option (ℕ × ℕ)
      → Bool
      → Result (ParsedSymbol F)
  option_symbol ex ot s e us (some (n, places)) true = ok (record {
    exchange = ex;
    underlying = join b'-' (reverse us);
    kind = option;
    expiry = some e;
    strike = some (literal n places);
    option_type = some ot;
  })
  option_symbol ex ot s e us _ _ = err symbol_error

  future_symbol : Exchange → Text → List Text → ParsedSymbol F
  future_symbol ex e us = record {
    exchange = ex;
    underlying = join b'-' (reverse us);
    kind = future;
    expiry = some e;
    strike = none;
    option_type = none;
  }

  cash_symbol : List Text → Result (ParsedSymbol F)
  cash_symbol tokens =
      let u = join b'-' (reverse tokens) in
      ok (record {
        exchange = nse;
        underlying = u;
        kind = if contains u index_names || contains b'_' u then index else equity;
        expiry = none;
        strike = none;
        option_type = none;
      })

  cash_on : Exchange → List Text → Result (ParsedSymbol F)
  unfolding cash_symbol
  cash_on nse tokens = cash_symbol tokens
  cash_on _ tokens = err symbol_error

  future_or_cash : Exchange → List Text → Result (ParsedSymbol F)
  unfolding future_symbol cash_on
  future_or_cash ex (e ∷ u ∷ us) =
      if is_some (match_expiry e) then ok (future_symbol ex e (u ∷ us)) else cash_on ex (e ∷ u ∷ us)
  future_or_cash ex tokens = cash_on ex tokens

  -- The three forms of a symbol, by its tokens in reverse.
  classify : Exchange → List Text → Result (ParsedSymbol F)
  unfolding option_symbol future_or_cash
  classify ex (o ∷ s ∷ e ∷ u ∷ us) = elim (option_type_of o) [
    | some ot ↦ option_symbol ex ot s e (u ∷ us) (match_strike s) (is_some (match_expiry e))
    | none ↦ future_or_cash ex (o ∷ s ∷ e ∷ u ∷ us)
  ]
  classify ex tokens = future_or_cash ex tokens

  unfoldable pub parse_symbol : Text → Result (ParsedSymbol F)
  unfolding classify drop_fut
  parse_symbol symbol = do
    parts ← or_raise (split_once b':' symbol) symbol_error
    exchange ← or_raise (lookup (upper parts.0) exchanges) symbol_error
    tokens ← drop_fut (reverse (split b'-' (upper parts.1)))
    p ← classify exchange tokens
    raise_if (not (valid_underlying p.underlying)) symbol_error
    raise_if (is_nse p.exchange && is_derivative p.kind) symbol_error
    ok p
