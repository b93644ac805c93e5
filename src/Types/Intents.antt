-- ===== src/Types/Intents.antt =====
-- Order intents, approvals and rejections of trading/core/types.py. The texts of an approval's
-- checks and of a rejection's reason are left out.
use shiny_umbrella.Base.{
  ℕ, Bool, Dict, Option, Text, Result, ok, ◌>>◌, raise_if, value_error, not, ◌==◌, nat_eq, list_eq,
}
use shiny_umbrella.Types.Enums.{Side, ProductType, Urgency}

-- A value of an intent's `meta`, where the program puts texts, numbers, flags and None
pub data MetaValue (F : Type 0) : Type 0 where
  text_value : Text → MetaValue F
  number_value : F → MetaValue F
  flag_value : Bool → MetaValue F
  null : MetaValue F

pub record OrderIntent (F : Type 0) : Type 0 where
  pub id : Text
  pub ts : ℕ
  pub strategy_id : Text
  pub symbol : Text
  pub side : Side
  pub qty : ℕ
  pub product : ProductType
  pub urgency : Urgency
  pub reference_price : F
  pub limit_band_bps : F
  pub ttl_seconds : ℕ
  pub expected_edge_bps : F
  pub prob : Option F
  pub payoff_ratio : Option F
  pub model_version : Option Text
  pub signal_id : Option Text
  pub meta : Dict Text (MetaValue F)

pub record RiskApproval (F : Type 0) : Type 0 where
  pub token : Text
  pub intent_id : Text
  pub intent : OrderIntent F
  pub ts : ℕ
  pub expires_at : ℕ
  pub approved_qty : ℕ

-- `RiskApproval._ids_match`
pub ids_match : {F : Type 0} → RiskApproval F → Result (RiskApproval F)
ids_match a = do raise_if (not (a.intent.id == a.intent_id)) value_error; ok a
