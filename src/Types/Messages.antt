-- ===== src/Types/Messages.antt =====
-- Feature vectors, signals, rejections, funds and the messages of operations of
-- trading/core/types.py. Free-form `meta` and `data` dictionaries are left out,
-- and the text of a rejection's reason.
use shiny_umbrella.Base.{ℕ, Bool, Option, Text, Dict, lookup, nat_eq, list_eq, or_else}
use shiny_umbrella.Float.Arith.{Arith, ◌⊕◌, ◌⊖◌}
use shiny_umbrella.Types.Enums.{Interval}
use shiny_umbrella.Types.Market.{Bar}

pub data AlertLevel : Type 0 where
  info warn error critical : AlertLevel

pub record FeatureVector (F : Type 0) : Type 0 where
  pub symbol : Text
  pub ts : ℕ
  pub interval : Interval
  pub bar : Bar F
  pub values : Dict Text F
  pub warm : Bool

-- `FeatureVector.get`
abbrev pub feature : {F : Type 0} → FeatureVector F → Text → F → F
feature v name default = or_else (lookup name v.values) default

pub record Signal (F : Type 0) : Type 0 where
  pub id : Text
  pub ts : ℕ
  pub strategy_id : Text
  pub symbol : Text
  pub score : F
  pub prob : Option F
  pub expected_edge_bps : Option F
  pub model_version : Option Text

pub record RiskRejection : Type 0 where
  pub intent_id : Text
  pub ts : ℕ
  pub rule : Text

pub record Funds (F : Type 0) : Type 0 where
  pub cash : F
  pub margin_used : F
  pub realised_pnl : F
  pub unrealised_pnl : F
  pub positions_value : F

module _ {F : Type 0} ⦃fl : Arith F⦄ where
  -- `Funds.available`
  abbrev pub available : Funds F → F
  available f = f.cash ⊖ f.margin_used

  -- `Funds.equity`
  abbrev pub funds_equity : Funds F → F
  funds_equity f = f.cash ⊕ f.positions_value

pub record Alert : Type 0 where
  pub id : Text
  pub ts : ℕ
  pub level : AlertLevel
  pub source : Text
  pub message : Text

pub record Heartbeat : Type 0 where
  pub ts : ℕ
  pub agent : Text
  pub status : Text

pub record ControlCommand : Type 0 where
  pub ts : ℕ
  pub command : Text
  pub reason : Text
  pub issued_by : Text
