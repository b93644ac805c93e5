-- ===== src/Symbols/Policy.antt =====
-- `known`, `require` and `from_symbol_map` of `LotSizes` (trading/brokers/lots.py).
use shiny_umbrella.Base.{
  ℕ, ◌≡◌, refl, ◌∙◌, ap, Bool, true, false, List, [], ◌∷◌, Text, nat_eq, list_eq, Result, ok, err,
  missing_lot_size, unknown_symbol, symbol_error, unknown_order, value_error, type_error,
  assertion_error, zero_division, runtime_error, broker_error, key_error, overflow_error, ◌>>=◌,
  if◌then◌else◌, All, >>=-eq-ok, arith,
}
use shiny_umbrella.Float.Arith.{Arith}
use shiny_umbrella.Symbols.Lots.{LotSizes, get}

-- `except MissingLotSize: return False`
sized : Result ℕ → Result Bool
sized (ok lot) = ok true
sized (err missing_lot_size) = ok false
sized (err symbol_error) = err symbol_error
sized (err unknown_symbol) = err unknown_symbol
sized (err unknown_order) = err unknown_order
sized (err value_error) = err value_error
sized (err type_error) = err type_error
sized (err assertion_error) = err assertion_error
sized (err zero_division) = err zero_division
sized (err runtime_error) = err runtime_error
sized (err broker_error) = err broker_error
sized (err key_error) = err key_error
sized (err overflow_error) = err overflow_error

module _ (F : Type 0) ⦃fl : Arith F⦄ where
  -- `LotSizes.known`
  unfoldable pub known_lot : LotSizes → Text → Result Bool
  unfolding sized
  known_lot known symbol = sized (get F known symbol)

  -- The symbols that cannot be sized, in order
  missing_of : LotSizes → List Text → Result (List Text)
  missing_of known [] = ok []
  missing_of known (s ∷ symbols) = do
    has ← known_lot known s
    rest ← missing_of known symbols
    ok (if has then rest else s ∷ rest)

  refuse : List Text → Result (Unit {0})
  refuse [] = ok tt
  refuse (s ∷ rest) = err missing_lot_size

  -- `LotSizes.require`
  unfoldable pub require : LotSizes → List Text → Result (Unit {0})
  unfolding missing_of refuse
  require known symbols = missing_of known symbols >>= refuse

  -- The symbol has a lot.
  abbrev pub IsSized : LotSizes → Text → Type 0
  IsSized known symbol = (lot : ℕ) × (get F known symbol ≡ ok lot)

  known_lot-IsSized :
      (known : LotSizes) (symbol : Text) → known_lot known symbol ≡ ok true → IsSized known symbol
  unfolding known_lot sized
  known_lot-IsSized known symbol h = by (get F known symbol) refl
    where
      by : (r : Result ℕ) → get F known symbol ≡ r → IsSized known symbol
      by (ok lot) e = (lot, e)
      by (err missing_lot_size) e = cc
      by (err symbol_error) e = cc
      by (err unknown_symbol) e = cc
      by (err unknown_order) e = cc
      by (err value_error) e = cc
      by (err type_error) e = cc
      by (err assertion_error) e = cc
      by (err zero_division) e = cc
      by (err runtime_error) e = cc
      by (err broker_error) e = cc
      by (err key_error) e = cc
      by (err overflow_error) e = cc

  nothing_missing :
      (known : LotSizes) (symbols : List Text)
      → missing_of known symbols ≡ ok []
      → All (IsSized known) symbols
  unfolding missing_of
  nothing_missing known [] h = tt
  nothing_missing known (s ∷ symbols) h =
      let (has, e, k) = >>=-eq-ok (known_lot known s) _ h in
      let (rest, e', k') = >>=-eq-ok (missing_of known symbols) _ k in
      let all_in : has ≡ true = ground arith in
      let none_left : rest ≡ [] = ground arith in
      (
        known_lot-IsSized known s (e ∙ ap ok all_in),
        nothing_missing known symbols (e' ∙ ap ok none_left),
      )

  -- Where `require` returns without raising, `get` returns a lot for every one of the symbols.
  pub require-IsSized :
      (known : LotSizes) (symbols : List Text)
      → require known symbols ≡ ok tt
      → All (IsSized known) symbols
  unfolding require refuse
  require-IsSized known symbols h =
      let (missing, e, k) = >>=-eq-ok (missing_of known symbols) refuse h in by missing e k
    where
      by :
          (missing : List Text)
          → missing_of known symbols ≡ ok missing
          → refuse missing ≡ ok tt
          → All (IsSized known) symbols
      by [] e k = nothing_missing known symbols e
      by (s ∷ rest) e k = cc
