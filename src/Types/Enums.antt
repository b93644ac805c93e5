-- ===== src/Types/Enums.antt =====
-- The enumerations of trading/core/types.py with their properties, and tests on their values.
use shiny_umbrella.Base.{ℕ, ℤ, pos, negsuc, ◌≡◌, ◌↔◌, Bool, true, false, arith, Eq}

pub data Exchange : Type 0 where
  nse nfo mcx : Exchange

pub data InstrumentKind : Type 0 where
  equity index future option : InstrumentKind

pub data OptionType : Type 0 where
  ce pe : OptionType

pub data Side : Type 0 where
  buy sell : Side

pub data OrderType : Type 0 where
  limit market sl slm : OrderType

pub data ProductType : Type 0 where
  mis cnc nrml : ProductType

pub data Validity : Type 0 where
  day ioc : Validity

pub data Urgency : Type 0 where
  passive normal aggressive : Urgency

pub data OrderStatus : Type 0 where
  pending trigger_pending open_ partial filled cancelled rejected : OrderStatus

pub data Interval : Type 0 where
  m1 m5 m15 h1 d1 : Interval

-- `Side.sign`
abbrev pub sign : Side → ℤ
sign buy = pos 1
sign sell = negsuc 0

-- `side.sign * qty`
abbrev pub signed : Side → ℕ → ℤ
signed buy n = pos n
signed sell ℕ.zero = pos 0
signed sell (ℕ.suc n) = negsuc n

abbrev pub opposite : Side → Side
opposite buy = sell
opposite sell = buy

abbrev pub is_buy : Side → Bool
is_buy buy = true
is_buy sell = false

abbrev pub is_terminal : OrderStatus → Bool
is_terminal filled = true
is_terminal cancelled = true
is_terminal rejected = true
is_terminal _ = false

abbrev pub is_working : OrderStatus → Bool
is_working pending = true
is_working trigger_pending = true
is_working open_ = true
is_working partial = true
is_working _ = false

-- `Interval.seconds`
abbrev pub seconds : Interval → ℕ
seconds m1 = 60
seconds m5 = 300
seconds m15 = 900
seconds h1 = 3600
seconds d1 = 86400

abbrev pub product_beq : ProductType → ProductType → Bool
product_beq mis mis = true
product_beq cnc cnc = true
product_beq nrml nrml = true
product_beq _ _ = false

pub product_beq_iff : (p q : ProductType) → (product_beq p q ≡ true) ↔ (p ≡ q)
product_beq_iff p q = ground arith

instance abbrev pub product_eq : Eq ProductType
product_eq = record { beq = product_beq; beq_iff = product_beq_iff }

-- `kind in {FUTURE, OPTION}`
abbrev pub is_derivative : InstrumentKind → Bool
is_derivative future = true
is_derivative option = true
is_derivative _ = false

abbrev pub is_future : InstrumentKind → Bool
is_future future = true
is_future _ = false
