-- ===== src/Symbols/Lots.antt =====
-- `LotSizes` of trading/brokers/lots.py: the lots that are known, by canonical symbol.
use shiny_umbrella.Base.{
  ℕ, ◌≤◌, ◌≡◌, Bool, true, false, none, some, List, [], ◌∷◌, Text, Dict, lookup, insert, nat_eq,
  list_eq, Result, ok, err, missing_lot_size, value_error, ◌>>=◌, ◌>>◌, raise_if, ltb, All, arith,
  Bool-cases, inl, inr, >>=-eq-ok, Option-cases, ltb→ge, lookup-All,
}
use mathlib.Core.Path.{subst}
use shiny_umbrella.Float.Arith.{Arith}
use shiny_umbrella.Types.Enums.{is_derivative}
use shiny_umbrella.Symbols.Parse.{parse_symbol}
use shiny_umbrella.Symbols.Make.{canonical}

abbrev pub LotSizes : Type 0
LotSizes = Dict Text ℕ

abbrev pub equity_lot : ℕ
equity_lot = 1

-- The check of the constructor, on the dictionary that it has built.
unfoldable pub check_lots : LotSizes → Result LotSizes
check_lots [] = ok []
check_lots ((s, lot) ∷ known) = do
  raise_if (ltb lot 1) value_error
  rest ← check_lots known
  ok ((s, lot) ∷ rest)

-- The policy for a symbol that is not listed
default_lot : Bool → Result ℕ
default_lot true = err missing_lot_size
default_lot false = ok equity_lot

-- The floats of a strike pass through `parse_symbol`, so the functions name their type.
module _ (F : Type 0) ⦃fl : Arith F⦄ where
  unfoldable pub canonical_of : Text → Result Text
  canonical_of s = do p ← parse_symbol {F = F} s; canonical p

  abbrev is_derivative_symbol : Text → Result Bool
  is_derivative_symbol s = do p ← parse_symbol {F = F} s; ok (is_derivative p.kind)

  collect : LotSizes → List (Text × ℕ) → Result LotSizes
  collect known [] = ok known
  collect known ((s, lot) ∷ more) = do c ← canonical_of s; collect (insert c lot known) more

  -- `LotSizes(known)`
  unfoldable pub lot_sizes : List (Text × ℕ) → Result LotSizes
  unfolding collect
  lot_sizes known = do d ← collect [] known; check_lots d

  -- `LotSizes.get`
  unfoldable pub get : LotSizes → Text → Result ℕ
  unfolding default_lot
  get known symbol = do
    c ← canonical_of symbol
    elim (lookup c known) [ some lot ↦ ok lot | none ↦ is_derivative_symbol c >>= default_lot ]

abbrev IsPositive : LotSizes → Type 0
IsPositive = All (λ e. 1 ≤ e.1)

check_lots-IsPositive : (d known : LotSizes) → check_lots d ≡ ok known → IsPositive known
unfolding check_lots
check_lots-IsPositive [] known h = ground arith
check_lots-IsPositive ((s, lot) ∷ d) known h = elim (Bool-cases (ltb lot 1)) [
  | inl low ↦ cc (rw low at h)
  | inr fine ↦
      let (rest, e, k) = >>=-eq-ok (check_lots d) _ (rw fine at h) in
      let same : (s, lot) ∷ rest ≡ known = ground arith in
      subst IsPositive same (ltb→ge lot 1 fine, check_lots-IsPositive d rest e)
]

lot_sizes-IsPositive :
    (F : Type 0) ⦃fl : Arith F⦄ (given : List (Text × ℕ)) {known : LotSizes}
    → lot_sizes F given ≡ ok known
    → IsPositive known
unfolding lot_sizes
lot_sizes-IsPositive F given h =
    let (d, e, k) = >>=-eq-ok (collect F [] given) _ h in check_lots-IsPositive d _ k

default_lot_pos : (derivative : Bool) (lot : ℕ) → default_lot derivative ≡ ok lot → 1 ≤ lot
unfolding default_lot
default_lot_pos true lot h = cc
default_lot_pos false lot h = ground arith

get_pos :
    (F : Type 0) ⦃fl : Arith F⦄ (known : LotSizes) (symbol : Text) {lot : ℕ}
    → IsPositive known
    → get F known symbol ≡ ok lot
    → 1 ≤ lot
unfolding get
get_pos F known symbol {lot} p h =
    let (c, e, k) = >>=-eq-ok (canonical_of F symbol) _ h in
    elim (Option-cases (lookup c known)) [
      | inl none_ ↦
          let k' : (is_derivative_symbol F c >>= default_lot) ≡ ok lot = ground arith in
          let (b, e', k'') = >>=-eq-ok (is_derivative_symbol F c) _ k' in default_lot_pos b lot k''
      | inr (v, found) ↦
          let same : lot ≡ v = ground arith in rw same (lookup-All (λ _ n. 1 ≤ n) c known p found)
    ]

-- Whatever lot sizes the constructor accepts, the lot that `get` returns for a symbol is at least
-- one.
pub sized_pos :
    (F : Type 0) ⦃fl : Arith F⦄ (given : List (Text × ℕ)) (symbol : Text) {known : LotSizes}
    → lot_sizes F given ≡ ok known
    → {lot : ℕ} → get F known symbol ≡ ok lot
    → 1 ≤ lot
sized_pos F given symbol {known} h k = get_pos F known symbol (lot_sizes-IsPositive F given h) k
