-- ===== src/Execution/State.antt =====
-- The configuration and the state of the execution agent, and the broker that it calls.
-- `sent` holds the orders that the agent asked the broker to place, newest first, and `accepted` the
-- approvals that it acted on; both are there for the proofs alone.
use shiny_umbrella.Base.{
  ℕ, ℤ, Bool, true, false, List, ◌∷◌, Text, Dict, Result, Error, unknown_order, broker_error,
}
use shiny_umbrella.Base.Actions.{Act, modify}
use shiny_umbrella.Types.Intents.{OrderIntent, RiskApproval}
use shiny_umbrella.Types.Market.{Tick}
use shiny_umbrella.Types.Messages.{AlertLevel}
use shiny_umbrella.Types.Orders.{Order, OrderRequest, Fill}
use shiny_umbrella.Symbols.Instruments.{Instrument}
use shiny_umbrella.Symbols.Lots.{LotSizes}
use shiny_umbrella.Costs.Fees.{FeeSchedule}
use shiny_umbrella.Paper.State.{Key}

-- An order with the attributes that the agent sets on it; the empty text stands for none.
pub record Tracked (F : Type 0) : Type 0 where
  pub order : Order F
  pub intent_id : Text
  pub approval_token : Text
  pub parent_id : Text
  pub protective : Bool

-- `OrderRouter` (trading/brokers/base.py), as far as the agent calls it: what each call returns or
-- raises, and how the broker changes.
pub record Router (F B : Type 0) : Type 0 where
  pub place_order : OrderRequest F → B → Result (Tracked F) × B
  pub modify_price : Text → F → B → Result (Tracked F) × B
  pub cancel_order : Text → B → Result (Tracked F) × B
  pub orders : B → Result (List (Tracked F)) × B

-- The errors that `except BrokerError` catches
abbrev pub is_broker_error : Error → Bool
is_broker_error unknown_order = true
is_broker_error broker_error = true
is_broker_error _ = false

pub record ExecutionConfig (F : Type 0) : Type 0 where
  pub max_participation : F
  pub volume_lookback_bars : ℕ
  pub max_chase_steps : ℕ
  pub max_chase_bps : F
  -- in microseconds
  pub chase_interval : ℕ
  pub default_tick_size : F
  pub place_bracket_stop : Bool
  pub allow_market_orders : Bool

pub record WorkingOrder (F : Type 0) : Type 0 where
  pub tracked : Tracked F
  pub intent : OrderIntent F
  pub approval_token : Text
  pub deadline : ℕ
  pub chase_steps : ℕ
  pub protective : Bool

pub record ExecutionPlan (F : Type 0) : Type 0 where
  pub intent : OrderIntent F
  pub approval : RiskApproval F
  pub slices : List ℕ
  pub placed : ℕ
  pub filled_qty : ℕ
  pub orders : List Text
  pub advanced : List Text

-- What the agent puts on the bus
pub data Message (F : Type 0) : Type 0 where
  order_message : Tracked F → Message F
  fill_message : Fill F → Message F
  alert : AlertLevel → Message F

-- A call of `place_order`
pub record Sent (F : Type 0) : Type 0 where
  pub request : OrderRequest F
  pub token : Text
  pub protective : Bool

pub record Exec (F B : Type 0) : Type 0 where
  pub broker : B
  pub cfg : ExecutionConfig F
  pub fee_schedule : FeeSchedule F
  pub instruments : Dict Text (Instrument F)
  pub lots : LotSizes
  pub intents : Dict Text (OrderIntent F)
  pub used_tokens : List Text
  pub plans : Dict Text (ExecutionPlan F)
  pub working : Dict Text (WorkingOrder F)
  pub quotes : Dict Text (Tick F)
  pub volume : Dict Text (List ℕ)
  pub orders_seen : Dict Text (Tracked F)
  pub real_fill_orders : List Text
  pub net : Dict Key ℤ
  pub protective : Dict Key (List Text)
  pub halted : Bool
  pub placed_count : ℕ
  pub rejected_without_approval : ℕ
  pub fills_published : ℕ
  pub errors : ℕ
  pub published : List (Message F)
  pub sent : List (Sent F)
  pub accepted : Dict Text ℕ

-- `Agent.publish`
abbrev pub publish : {F B : Type 0} → Message F → Act (Exec F B) (Unit {0})
publish m = modify λ s. record s { published = m ∷ s.published }
