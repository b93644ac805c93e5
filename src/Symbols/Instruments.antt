-- ===== src/Symbols/Instruments.antt =====
-- `Instrument` of trading/brokers/base.py and `SymbolMap` of trading/brokers/symbols.py.
use shiny_umbrella.Base.{
  ℕ, ◌≡◌, refl, Bool, true, false, Option, none, some, List, [], ◌∷◌, ◌++◌, Text, Dict, lookup,
  insert, lookup-insert, lookup-insert_self, nat_eq, list_eq, list_beq_iff, pair_eq, ◌==◌, Result,
  ok, symbol_error, unknown_symbol, key_error, ◌>>=◌, ◌>>◌, raise_if, or_raise, if◌then◌else◌,
  is_some, or_else, >>=-eq-ok, ok_injective, Bool-cases, All, inl, inr, ◌∙◌, arith,
}
use mathlib.Core.Path.{subst}
use shiny_umbrella.Float.Arith.{Arith}
use shiny_umbrella.Types.Enums.{
  Exchange, nse, nfo, mcx, InstrumentKind, equity, index, future, option, OptionType, is_derivative,
}
use shiny_umbrella.Symbols.Lots.{canonical_of}

pub record Instrument (F : Type 0) : Type 0 where
  pub symbol : Text
  pub exchange : Exchange
  pub kind : InstrumentKind
  pub broker_id : Text
  pub broker_segment : Text
  pub broker_kind : Text
  pub name : Text
  pub lot_size : ℕ
  pub tick_size : F
  pub multiplier : F
  pub freeze_qty : Option ℕ
  pub expiry : Option ℕ
  pub expiry_flag : Option Text
  pub strike : Option F
  pub option_type : Option OptionType
  pub underlying : Option Text
  pub isin : Option Text
  pub series : Option Text

-- `Instrument.tradable`
abbrev pub tradable : InstrumentKind → Bool
tradable index = false
tradable _ = true

abbrev exchange_code : Exchange → ℕ
exchange_code nse = 0
exchange_code nfo = 1
exchange_code mcx = 2

abbrev kind_code : InstrumentKind → ℕ
kind_code equity = 0
kind_code index = 1
kind_code future = 2
kind_code option = 3

-- A key of `_contracts`, with its exchange and kind as numbers
abbrev ContractKey : Type 0
ContractKey = (ℕ × ℕ) × Text

abbrev pub contract_key : Exchange → Text → InstrumentKind → ContractKey
contract_key ex underlying kind = ((exchange_code ex, kind_code kind), underlying)

pub record SymbolMap (F : Type 0) : Type 0 where
  pub instruments : Dict Text (Instrument F)
  pub aliases : Dict Text Text
  pub by_broker : Dict (Text × Text) Text
  pub contracts_of : Dict ContractKey (List (Instrument F))

-- `self._aliases.setdefault(a, symbol)` for each alias
add_aliases : Text → List Text → Dict Text Text → Dict Text Text
add_aliases symbol [] d = d
add_aliases symbol (a ∷ rest) d =
    add_aliases symbol rest (if is_some (lookup a d) then d else insert a symbol d)

module _ {F : Type 0} where
  -- An instrument with an underlying, which is not empty, is listed under it.
  add_contract :
      Instrument F
      → Option Text
      → Dict ContractKey (List (Instrument F))
      → Dict ContractKey (List (Instrument F))
  add_contract i none d = d
  add_contract i (some []) d = d
  add_contract i (some (c ∷ u)) d =
      let key = contract_key i.exchange (c ∷ u) i.kind in
      if is_derivative i.kind then insert key (or_else (lookup key d) [] ++ i ∷ []) d else d

  added : SymbolMap F → Instrument F → List Text → SymbolMap F
  unfolding add_aliases add_contract
  added m i aliases = record {
    instruments = insert i.symbol i m.instruments;
    aliases = add_aliases i.symbol aliases m.aliases;
    by_broker = insert (i.broker_segment, i.broker_id) i.symbol m.by_broker;
    contracts_of = add_contract i i.underlying m.contracts_of;
  }

  -- `SymbolMap.add`
  unfoldable pub add : SymbolMap F → Instrument F → List Text → Result (SymbolMap F)
  unfolding added
  add m i aliases = do
    raise_if (is_some (lookup i.symbol m.instruments)) symbol_error
    ok (added m i aliases)

  by_alias : SymbolMap F → Option Text → Option (Instrument F)
  by_alias m none = none
  by_alias m (some []) = none
  by_alias m (some (c ∷ alias)) = lookup (c ∷ alias) m.instruments

  found_or_alias : SymbolMap F → Text → Option (Instrument F) → Option (Instrument F)
  unfolding by_alias
  found_or_alias m canonical (some i) = some i
  found_or_alias m canonical none = by_alias m (lookup canonical m.aliases)

  -- `SymbolMap.canonical`
  unfoldable pub canonical_for : SymbolMap F → Text → Text → Result Text
  canonical_for m segment id = or_raise (lookup (segment, id) m.by_broker) unknown_symbol

  -- `SymbolMap.instrument_by_broker`
  unfoldable pub instrument_by_broker : SymbolMap F → Text → Text → Result (Instrument F)
  instrument_by_broker m segment id = do
    symbol ← canonical_for m segment id
    or_raise (lookup symbol m.instruments) key_error

  -- Instruments added one after another, each with its aliases
  unfoldable pub add_all : SymbolMap F → List (Instrument F × List Text) → Result (SymbolMap F)
  add_all m [] = ok m
  add_all m ((i, aliases) ∷ rest) = add m i aliases >>= λ m'. add_all m' rest

  -- The segment and identifier under which the broker knows an instrument
  abbrev pub broker_key : Instrument F → Text × Text
  broker_key i = (i.broker_segment, i.broker_id)

  record IsListed (m : SymbolMap F) (i : Instrument F) : Type 0 where
    named : lookup (broker_key i) m.by_broker ≡ some i.symbol
    kept : lookup i.symbol m.instruments ≡ some i

  added-IsListed :
      (m : SymbolMap F) (i : Instrument F) (aliases : List Text) → IsListed (added m i aliases) i
  unfolding added
  added-IsListed m i aliases = record {
    named = lookup-insert_self (broker_key i) i.symbol m.by_broker;
    kept = lookup-insert_self i.symbol i m.instruments;
  }

  -- An addition that succeeds is of a new symbol.
  add-added :
      (m : SymbolMap F) (i : Instrument F) (aliases : List Text) {m' : SymbolMap F}
      → add m i aliases ≡ ok m'
      → (is_some (lookup i.symbol m.instruments) ≡ false) × (added m i aliases ≡ m')
  unfolding add
  add-added m i aliases h = elim (Bool-cases (is_some (lookup i.symbol m.instruments))) [
    | inl known ↦ let clash = rw known at h in ground (arith, clash)
    | inr new ↦ (new, ok_injective (rw new at h))
  ]

  -- A new symbol is not one that is listed.
  new_symbol :
      (m : SymbolMap F) (i j : Instrument F)
      → IsListed m i
      → is_some (lookup j.symbol m.instruments) ≡ false
      → (j.symbol == i.symbol) ≡ false
  new_symbol m i j l new = elim (Bool-cases (j.symbol == i.symbol)) [
    | inr other ↦ other
    | inl same ↦
        let e : j.symbol ≡ i.symbol = (list_beq_iff j.symbol i.symbol).0 same in
        let known : is_some (lookup j.symbol m.instruments) ≡ true = rw (e, l.kept) refl in
        ground (arith, known, new)
  ]

  add-keeps :
      (m : SymbolMap F) (i j : Instrument F) (aliases : List Text) {m' : SymbolMap F}
      → IsListed m i
      → (broker_key j == broker_key i) ≡ false
      → add m j aliases ≡ ok m'
      → IsListed m' i
  unfolding added
  add-keeps m i j aliases l other h =
      let (new, e) = add-added m j aliases h in
      let kept : IsListed (added m j aliases) i = record {
        named = lookup-insert (broker_key j) (broker_key i) j.symbol m.by_broker ∙ rw other l.named;
        kept = lookup-insert j.symbol i.symbol j m.instruments ∙ rw (new_symbol m i j l new) l.kept;
      } in
      subst (λ n. IsListed n i) e kept

  add_all-keeps :
      (m : SymbolMap F) (i : Instrument F) (later : List (Instrument F × List Text))
      {m' : SymbolMap F}
      → IsListed m i
      → All (λ p. (broker_key p.0 == broker_key i) ≡ false) later
      → add_all m later ≡ ok m'
      → IsListed m' i
  unfolding add_all
  add_all-keeps m i [] l others h = subst (λ n. IsListed n i) (ok_injective h) l
  add_all-keeps m i ((j, aliases) ∷ rest) l others h =
      let (n, e, k) = >>=-eq-ok (add m j aliases) (λ m'. add_all m' rest) h in
      add_all-keeps n i rest (add-keeps m i j aliases l others.0 e) others.1 k

  -- An instrument that has been added is found by the broker's segment and identifier, and under
  -- its canonical symbol, also after further additions, as long as none of them is of an instrument
  -- with the same segment and identifier.
  pub add-instrument_by_broker :
      (m : SymbolMap F) (i : Instrument F) (aliases : List Text)
      (later : List (Instrument F × List Text)) {m' m'' : SymbolMap F}
      → add m i aliases ≡ ok m'
      → add_all m' later ≡ ok m''
      → All (λ p. (broker_key p.0 == broker_key i) ≡ false) later
      → (canonical_for m'' i.broker_segment i.broker_id ≡ ok i.symbol)
        × (instrument_by_broker m'' i.broker_segment i.broker_id ≡ ok i)
  unfolding canonical_for instrument_by_broker
  add-instrument_by_broker m i aliases later h more others =
      let first =
        subst (λ n. IsListed n i) (add-added m i aliases h).1 (added-IsListed m i aliases) in
      let l = add_all-keeps _ i later first others more in
      (rw l.named refl, rw (l.named, l.kept) refl)

module _ {F : Type 0} ⦃fl : Arith F⦄ where
  -- `SymbolMap.resolve`
  unfoldable pub resolve : SymbolMap F → Text → Result (Instrument F)
  unfolding found_or_alias
  resolve m symbol = do
    c ← canonical_of F symbol
    or_raise (found_or_alias m c (lookup c m.instruments)) unknown_symbol

  -- `SymbolMap.broker_id`
  unfoldable pub broker_id_of : SymbolMap F → Text → Result (Text × Text)
  broker_id_of m symbol = do i ← resolve m symbol; ok (i.broker_segment, i.broker_id)

  -- `SymbolMap.multipliers`
  unfoldable pub multipliers_of : SymbolMap F → List Text → Result (Dict Text F)
  multipliers_of m [] = ok []
  multipliers_of m (s ∷ rest) = do
    i ← resolve m s
    more ← multipliers_of m rest
    ok ((s, i.multiplier) ∷ more)
