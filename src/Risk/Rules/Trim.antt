-- ===== src/Risk/Rules/Trim.antt =====
-- What the rules of the risk agent do to a quantity: they leave it, or trim it to whole lots.
use shiny_umbrella.Base.{
  ℕ, ◌*◌, ◌/◌, ◌%◌, ◌≤◌, ◌<◌, pos_part, to_ℕ, ◌≡◌, sym, ◌∙◌, min, ◌⊎◌, inl, inr, false, Option,
  none, some, Text, ok, ◌>>=◌, ok_injective, >>=-eq-ok, ◌=ℕ◌, leb, leb→le, or_else, Bool-cases,
  arith,
}
use mathlib.Core.Path.{subst}
use native.Mathlib.Nat.{mul-mod_left}
use shiny_umbrella.Float.Arith.{Arith, ◌≼◌, ◌⊗◌, ◌⊖◌, of_ℕ}
use shiny_umbrella.Types.Intents.{OrderIntent}
use shiny_umbrella.Symbols.Lots.{get}
use shiny_umbrella.Symbols.Make.{contract_multiplier}
use shiny_umbrella.Portfolio.Exposure.{net_qty}
use shiny_umbrella.Risk.State.{Risk, passes, kelly_fraction}
use shiny_umbrella.Risk.Rules.{
  whole_lots, qty_for_value, value_of, trimmed, kelly_at, kelly_size_rule, room_rule,
  position_limit_rule,
}

min_either : (P : ℕ → Type 0) (a b : ℕ) → P a → P b → P (min a b)
min_either P a b p q = elim (Bool-cases (leb a b)) [
  | inl h ↦ let same : a ≡ min a b = omega (arith, leb→le a b h) in subst P same p
  | inr h ↦ let same : b ≡ min a b = ground arith in subst P same q
]

module _ {F : Type 0} ⦃fl : Arith F⦄ (s : Risk F) (symbol : Text) where
  -- A number of whole lots of the symbol
  pub data IsLots : ℕ → Type 0 where
    lots : (lot x : ℕ) → get F s.lots symbol ≡ ok lot → IsLots (x / lot * lot)

  -- What a passing rule leaves of a quantity: all of it, or no more than some whole lots
  pub data IsTrim (qty : ℕ) : Option ℕ → Type 0 where
    keeps : IsTrim qty none
    trims : (allowed : ℕ) → IsLots allowed → IsTrim qty (some (min qty allowed))

  pub IsTrim-le : {qty : ℕ} {o : Option ℕ} → IsTrim qty o → or_else o qty ≤ qty
  IsTrim-le keeps = omega arith
  IsTrim-le (trims allowed l) = omega arith

  IsLots-mod : {n lot : ℕ} → get F s.lots symbol ≡ ok lot → IsLots n → n % lot ≡ 0
  IsLots-mod {lot = lot} h (lots k x e) =
      let same : k ≡ lot = ok_injective (sym e ∙ h) in rw same (mul-mod_left (x / lot) lot)

  pub IsTrim-mod :
      {qty lot : ℕ} {o : Option ℕ}
      → get F s.lots symbol ≡ ok lot
      → qty % lot ≡ 0
      → IsTrim qty o
      → or_else o qty % lot ≡ 0
  IsTrim-mod h d keeps = d
  IsTrim-mod {qty} {lot} h d (trims allowed l) =
      min_either (λ n. n % lot ≡ 0) qty allowed d (IsLots-mod h l)

  whole_lots-IsLots :
      (value unit : F) (lot : ℕ) {allowed : ℕ}
      → get F s.lots symbol ≡ ok lot
      → whole_lots value unit lot ≡ ok allowed
      → IsLots allowed
  unfolding whole_lots
  whole_lots-IsLots value unit lot {allowed} g h = elim (Bool-cases (lot =ℕ 0)) [
    | inl zero_ ↦ cc (rw zero_ at h)
    | inr some_ ↦
        let same : pos_part (fl.trunc (fl.div value unit)) / lot * lot ≡ allowed =
          ok_injective (rw some_ at h) in
        subst IsLots same (lots lot _ g)
  ]

  -- What `qty_for_value` returns is nothing, or whole lots of the symbol.
  pub qty_for_value-IsLots :
      (value price : F) {allowed : ℕ}
      → qty_for_value s symbol value price ≡ ok allowed
      → (allowed ≡ 0) ⊎ IsLots allowed
  unfolding qty_for_value
  qty_for_value-IsLots value price {allowed} h =
      let (mult, e, k) = >>=-eq-ok (contract_multiplier symbol) _ h in
      elim (Bool-cases (price ⊗ mult ≼ of_ℕ 0)) [
        | inl worthless ↦ inl (sym (ok_injective (rw worthless at k)))
        | inr worth ↦
            let (lot, g, w) = >>=-eq-ok (get F s.lots symbol) _ (rw worth at k) in
            inr (whole_lots-IsLots value (price ⊗ mult) lot g w)
      ]

-- A rule that trims to what is allowed passes with it, if it is anything at all.
trimmed-passes :
    (qty allowed : ℕ) {o : Option ℕ}
    → trimmed qty allowed ≡ passes o
    → (o ≡ some (min qty allowed)) × (0 < allowed)
trimmed-passes qty allowed h = elim (Bool-cases (allowed =ℕ 0)) [
  | inl none_ ↦ cc (rw none_ at h)
  | inr any_ ↦ (sym (passes_injective (rw any_ at h)), ground arith)
]
  where
    passes_injective : {a b : Option ℕ} → passes a ≡ passes b → a ≡ b
    passes_injective e = ground arith

module _ {F : Type 0} ⦃fl : Arith F⦄ (s : Risk F) (i : OrderIntent F) (qty : ℕ) where
  -- The rule passed with what an amount of money allows.
  pub record Bought (money : F) (o : Option ℕ) : Type 0 where
    pub allowed : ℕ
    pub buys : qty_for_value s i.symbol money i.reference_price ≡ ok allowed
    pub some_allowed : 0 < allowed
    pub leaves : o ≡ some (min qty allowed)

  pub Bought-IsTrim : {money : F} {o : Option ℕ} → Bought money o → IsTrim s i.symbol qty o
  Bought-IsTrim {money} {o} b =
      elim (qty_for_value-IsLots s i.symbol money i.reference_price b.buys) [
        | inl none_ ↦ absurd (omega (arith, b.some_allowed, none_))
        | inr l ↦ subst (IsTrim s i.symbol qty) (sym b.leaves) (trims b.allowed l)
      ]

  bought :
      (money : F) {o : Option ℕ}
      → (qty_for_value s i.symbol money i.reference_price >>= λ allowed. ok (trimmed qty allowed))
        ≡ ok (passes o)
      → Bought money o
  bought money {o} h =
      let (allowed, e, k) = >>=-eq-ok (qty_for_value s i.symbol money i.reference_price) _ h in
      let (leaves, any_) = trimmed-passes qty allowed (ok_injective k) in
      record { allowed = allowed; buys = e; some_allowed = any_; leaves = leaves }

  -- A cap that passes has room left, and leaves no more than the room buys.
  pub room_rule-passes :
      (room : F) {o : Option ℕ}
      → room_rule s i qty room ≡ ok (passes o)
      → ((room ≼ of_ℕ 0) ≡ false) × Bought room o
  unfolding room_rule
  room_rule-passes room h = elim (Bool-cases (room ≼ of_ℕ 0)) [
    | inl full ↦ cc (rw full at h)
    | inr room_left ↦ (room_left, bought room (rw room_left at h))
  ]

  kelly_at-IsTrim :
      (prob : Option F) {o : Option ℕ}
      → kelly_at s i qty prob ≡ ok (passes o)
      → IsTrim s i.symbol qty o
  unfolding kelly_at
  kelly_at-IsTrim none {o} h =
      let same : none ≡ o = ground arith in subst (IsTrim s i.symbol qty) same keeps
  kelly_at-IsTrim (some prob) h =
      let payoff = or_else i.payoff_ratio (of_ℕ 1) in
      elim (Bool-cases (kelly_fraction prob payoff s.limits.kelly_loss_fraction ≼ of_ℕ 0)) [
        | inl no_bet ↦ cc (rw no_bet at h)
        | inr bet ↦ Bought-IsTrim (bought _ (rw bet at h))
      ]

  pub kelly_size_rule-IsTrim :
      {o : Option ℕ} → kelly_size_rule s i qty ≡ ok (passes o) → IsTrim s i.symbol qty o
  unfolding kelly_size_rule
  kelly_size_rule-IsTrim h = kelly_at-IsTrim i.prob h

  -- The room that the position limit leaves: the cap less what is held at the reference price
  pub position_limit_rule-passes :
      {o : Option ℕ}
      → position_limit_rule s i qty ≡ ok (passes o)
      → (current : F) × (value_of i.symbol
            (to_ℕ (net_qty s.portfolio i.symbol (some i.product)))
            i.reference_price
          ≡ ok current)
        × Bought (s.limits.max_position_value ⊖ current) o
  unfolding position_limit_rule
  position_limit_rule-passes h =
      let (current, e, k) = >>=-eq-ok (value_of i.symbol _ i.reference_price) _ h in
      (current, e, (room_rule-passes (s.limits.max_position_value ⊖ current) k).1)
