-- ===== src/Tests/Symbols.antt =====
-- Tests of symbols and lot sizes.
use shiny_umbrella.Types.Enums.{nfo, future}
use shiny_umbrella.Symbols.Policy.{known_lot, require, IsSized, require-IsSized}
use shiny_umbrella.Symbols.Instruments.{
  Instrument, SymbolMap, contract_key, add, add_all, canonical_for, instrument_by_broker,
  add-instrument_by_broker,
}
use shiny_umbrella.Base.{
  All, contains, pos, none, some, ℤ, ◌≡◌, ◌≤◌, refl, [], ◌∷◌, Text, codes, lookup, insert, ok,
}
use shiny_umbrella.Float.Scaled.{scaled}
use shiny_umbrella.Symbols.Lots.{LotSizes, lot_sizes, get, check_lots, canonical_of, sized_pos}
use shiny_umbrella.Symbols.Parse.{parse_symbol, valid_underlying, match_expiry}
use shiny_umbrella.Symbols.Make.{make_symbol, canonical}
use shiny_umbrella.Symbols.Text.{split_once, upper, split, chomp, join, all}

abbrev nifty : Text
nifty = codes "NFO:NIFTY-AUG26"

abbrev lots : LotSizes
lots = (nifty, 75) ∷ []

read_lots : lot_sizes ℤ ((nifty, 75) ∷ []) ≡ ok lots
unfolding lot_sizes check_lots canonical_of parse_symbol insert split_once lookup upper split
    match_expiry chomp valid_underlying join all canonical make_symbol
read_lots = refl

listed : get ℤ lots (codes "nfo:nifty-aug26") ≡ ok 75
unfolding get canonical_of parse_symbol lookup split_once upper split match_expiry chomp
    valid_underlying join all canonical make_symbol
listed = refl

sized_pos_example : 1 ≤ 75
sized_pos_example = sized_pos ℤ ((nifty, 75) ∷ []) (codes "nfo:nifty-aug26") read_lots listed

required : require ℤ lots (nifty ∷ codes "NSE:INFY" ∷ []) ≡ ok tt
unfolding require known_lot get canonical_of parse_symbol lookup split_once upper split match_expiry
    chomp valid_underlying join all canonical make_symbol contains
required = refl

require-IsSized_example : All (IsSized ℤ lots) (nifty ∷ codes "NSE:INFY" ∷ [])
require-IsSized_example = require-IsSized ℤ lots (nifty ∷ codes "NSE:INFY" ∷ []) required

abbrev contract : Instrument ℤ
contract = record {
  symbol = nifty;
  exchange = nfo;
  kind = future;
  broker_id = codes "52175";
  broker_segment = codes "NSE_FNO";
  broker_kind = codes "FUTIDX";
  name = codes "NIFTY";
  lot_size = 75;
  tick_size = pos 500;
  multiplier = pos 10000;
  freeze_qty = none;
  expiry = none;
  expiry_flag = none;
  strike = none;
  option_type = none;
  underlying = some (codes "NIFTY");
  isin = none;
  series = none;
}

abbrev empty_map : SymbolMap ℤ
empty_map = record { instruments = []; aliases = []; by_broker = []; contracts_of = [] }

abbrev one_contract : SymbolMap ℤ
one_contract = record {
  instruments = (nifty, contract) ∷ [];
  aliases = [];
  by_broker = ((codes "NSE_FNO", codes "52175"), nifty) ∷ [];
  contracts_of = (contract_key nfo (codes "NIFTY") future, contract ∷ []) ∷ [];
}

contract_added : add empty_map contract [] ≡ ok one_contract
unfolding add insert lookup
contract_added = refl

abbrev other_contract : Instrument ℤ
other_contract = record contract { symbol = codes "NFO:NIFTY-SEP26"; broker_id = codes "52176" }

abbrev two_contracts : SymbolMap ℤ
two_contracts = record {
  instruments = (nifty, contract) ∷ (codes "NFO:NIFTY-SEP26", other_contract) ∷ [];
  aliases = [];
  by_broker =
      ((codes "NSE_FNO", codes "52175"), nifty)
      ∷ ((codes "NSE_FNO", codes "52176"), codes "NFO:NIFTY-SEP26")
      ∷ [];
  contracts_of = (contract_key nfo (codes "NIFTY") future, contract ∷ other_contract ∷ []) ∷ [];
}

other_added : add_all one_contract ((other_contract, []) ∷ []) ≡ ok two_contracts
unfolding add_all add insert lookup
other_added = refl

add-instrument_by_broker_example :
    (canonical_for two_contracts (codes "NSE_FNO") (codes "52175") ≡ ok nifty)
    × (instrument_by_broker two_contracts (codes "NSE_FNO") (codes "52175") ≡ ok contract)
add-instrument_by_broker_example =
    add-instrument_by_broker empty_map contract [] ((other_contract, []) ∷ []) contract_added
      other_added (refl, tt)

-- A later instrument with the same segment and identifier takes the entry over.
abbrev twin : Instrument ℤ
twin = record contract { symbol = codes "NFO:NIFTY-SEP26" }

abbrev twins : SymbolMap ℤ
twins = record {
  instruments = (nifty, contract) ∷ (codes "NFO:NIFTY-SEP26", twin) ∷ [];
  aliases = [];
  by_broker = ((codes "NSE_FNO", codes "52175"), codes "NFO:NIFTY-SEP26") ∷ [];
  contracts_of = (contract_key nfo (codes "NIFTY") future, contract ∷ twin ∷ []) ∷ [];
}

twin_added : add one_contract twin [] ≡ ok twins
unfolding add insert lookup
twin_added = refl
