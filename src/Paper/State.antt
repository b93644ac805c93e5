-- ===== src/Paper/State.antt =====
-- The state of `PaperBroker` (trading/brokers/paper.py) and calls on it. A call may raise; what was
-- written before stays written. `journal` holds the calls of the store, `emitted` what the update
-- queues were given, both newest first.
use shiny_umbrella.Base.{
  ℕ, Bool, Option, none, some, List, [], ◌∷◌, Text, Dict, insert, nat_eq, list_eq, Result, ok, err,
  if◌then◌else◌,
}
use shiny_umbrella.Types.Enums.{ProductType}
use shiny_umbrella.Types.Orders.{Order, Fill, Position}
use shiny_umbrella.Types.Market.{Bar, Tick}
use shiny_umbrella.Costs.Fees.{FeeSchedule}

pub record PriceCtx (F : Type 0) : Type 0 where
  pub ts : ℕ
  pub last : F
  pub opens : F
  pub high : F
  pub low : F
  pub volume : Option ℕ

module _ {F : Type 0} where
  -- `PriceCtx.from_tick`, `from_bar` and `at`
  abbrev pub from_tick : Tick F → PriceCtx F
  from_tick t = record {
    ts = t.ts;
    last = t.ltp;
    opens = t.ltp;
    high = t.ltp;
    low = t.ltp;
    volume = none;
  }

  abbrev pub from_bar : Bar F → PriceCtx F
  from_bar b = record {
    ts = b.ts;
    last = b.close;
    opens = b.opens;
    high = b.high;
    low = b.low;
    volume = some b.volume;
  }

  abbrev pub price_at : ℕ → F → PriceCtx F
  price_at ts price = record {
    ts = ts;
    last = price;
    opens = price;
    high = price;
    low = price;
    volume = none;
  }

-- `slippage_bps` is the method `_slippage_bps`, which the simulator overrides; `stored` tells
-- whether there is a store.
pub record PaperConfig (F : Type 0) : Type 0 where
  pub starting_cash : F
  pub slippage_bps : Order F → ℕ → PriceCtx F → F
  pub fee_schedule : FeeSchedule F
  pub futures_margin_pct : F
  pub short_option_margin_pct : F
  pub require_trade_through : Bool
  pub multiplier_for : Option (Text → Result F)
  pub fill_at_placement : Bool
  pub max_participation : Option F
  pub lot_size_for : Option (Text → Result ℕ)
  pub stored : Bool

pub data StoreCall (F : Type 0) : Type 0 where
  save_account : F → F → StoreCall F
  upsert_order : Order F → StoreCall F
  add_fill : Fill F → StoreCall F
  upsert_position : Position F → StoreCall F

pub data Update (F : Type 0) : Type 0 where
  order_update : Order F → Update F
  fill_update : Fill F → Update F

abbrev pub Key : Type 0
Key = Text × ProductType

pub record Paper (F : Type 0) : Type 0 where
  pub cfg : PaperConfig F
  pub cash : F
  pub orders : Dict Text (Order F)
  pub fills : List (Fill F)
  pub positions : Dict Key (Position F)
  pub last : Dict Text F
  pub seq : ℕ
  pub journal : List (StoreCall F)
  pub emitted : List (Update F)

-- A new broker with no stored account: a store is given the opening balance.
abbrev pub new_paper : {F : Type 0} → PaperConfig F → Paper F
new_paper cfg = record {
  cfg = cfg;
  cash = cfg.starting_cash;
  orders = [];
  fills = [];
  positions = [];
  last = [];
  seq = 0;
  journal = if cfg.stored then save_account cfg.starting_cash cfg.starting_cash ∷ [] else [];
  emitted = [];
}

abbrev pub Action : Type 0 → Type 0 → Type 0
Action F A = Paper F → Result A × Paper F

-- What follows a call, by how it ended
abbrev pub continue : {F A B : Type 0} → Result A → (A → Action F B) → Paper F → Result B × Paper F
continue (ok a) f s = f a s
continue (err x) f s = (err x, s)

infixl 5 ◌>>=◌ ◌>>◌
abbrev pub ◌>>=◌ : {F A B : Type 0} → Action F A → (A → Action F B) → Action F B
◌>>=◌ m f s = continue (m s).0 f (m s).1

abbrev pub ◌>>◌ : {F A B : Type 0} → Action F A → Action F B → Action F B
m >> k = m >>= λ _. k

module _ {F : Type 0} where
  abbrev pub pure : {A : Type 0} → A → Action F A
  pure a s = (ok a, s)

  abbrev pub lift : {A : Type 0} → Result A → Action F A
  lift r s = (r, s)

  abbrev pub gets : {A : Type 0} → (Paper F → A) → Action F A
  gets f s = (ok (f s), s)

  abbrev pub modify : (Paper F → Paper F) → Action F (Unit {0})
  modify f s = (ok tt, f s)

  abbrev record_call : StoreCall F → Paper F → Paper F
  record_call c s = record s { journal = if s.cfg.stored then c ∷ s.journal else s.journal }

  -- `self._orders[order.id] = order`; a change of an order's field in place
  abbrev pub put_order : Order F → Action F (Unit {0})
  put_order o = modify λ s. record s { orders = insert o.id o s.orders }

  -- `_persist_order` and `_persist_fill`
  abbrev pub persist_order : Order F → Action F (Unit {0})
  persist_order o = modify (record_call (upsert_order o))

  abbrev pub persist_fill : Fill F → Position F → Action F (Unit {0})
  persist_fill f p = modify λ s.
      record_call (save_account s.cfg.starting_cash s.cash)
        (record_call (upsert_position p) (record_call (add_fill f) s))

  -- `_emit`
  abbrev pub emit : Update F → Action F (Unit {0})
  emit u = modify λ s. record s { emitted = u ∷ s.emitted }
