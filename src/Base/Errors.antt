-- ===== src/Base/Errors.antt =====
-- Python's exceptions, by class (`broker_error` is any `BrokerError` other than `UnknownOrder`), and calls that may raise one.
use mathlib.Core.Path.{◌≡◌, refl}
use mathlib.Core.Logic.{◌⊎◌, inl, inr}
use mathlib.Core.Bool.{Bool, true, false}
use mathlib.Core.Option.{Option, none, some}

pub data Error : Type 0 where
  symbol_error unknown_symbol missing_lot_size : Error
  unknown_order value_error type_error assertion_error zero_division runtime_error broker_error
        key_error overflow_error :
      Error

pub data Result {ℓ} (A : Type ℓ) : Type ℓ where
  err : Error → Result A
  ok : A → Result A

infixl 5 ◌>>=◌ ◌>>◌
abbrev pub ◌>>=◌ {ℓ μ} : {X : Type ℓ} {Y : Type μ} → Result X → (X → Result Y) → Result Y
err problem >>= call = err problem
ok value >>= call = call value

abbrev pub ◌>>◌ {μ} : {Y : Type μ} → Result (Unit {0}) → Result Y → Result Y
first >> second = first >>= λ _. second

-- `if c: raise x`
abbrev pub raise_if : Bool → Error → Result (Unit {0})
raise_if true x = err x
raise_if false x = ok tt

abbrev pub or_raise {ℓ} : {A : Type ℓ} → Option A → Error → Result A
or_raise none x = err x
or_raise (some a) x = ok a

-- A call that succeeds began with one that did.
pub >>=-eq-ok {ℓ μ} :
    {X : Type ℓ} {Y : Type μ} (first : Result X) (call : X → Result Y) {y : Y}
    → (first >>= call) ≡ ok y
    → (x : X) × (first ≡ ok x) × (call x ≡ ok y)
>>=-eq-ok (err problem) call h = cc
>>=-eq-ok (ok x) call h = (x, refl, h)

pub Result-cases {ℓ} :
    {A : Type ℓ} (r : Result A) → ((a : A) × (r ≡ ok a)) ⊎ ((x : Error) × (r ≡ err x))
Result-cases (ok a) = inl (a, refl)
Result-cases (err x) = inr (x, refl)

pub ok_injective {ℓ} : {A : Type ℓ} {a b : A} → ok a ≡ ok b → a ≡ b
ok_injective h = cc h
