-- ===== src/Clock/Days/Navigation.antt =====
-- What the trading-day navigation returns.
use shiny_umbrella.Base.{
  ℕ, zero, suc, ◌+◌, ◌-◌, ◌≤◌, ◌<◌, ◌≡◌, refl, sym, ap, ◌⊎◌, inl, inr, ◌↔◌, Bool, true, false, some,
  List, [], ◌∷◌, arith, ltb, ltb→lt, ltb→ge, Bool-cases, ok, >>=-eq-ok, if◌then◌else◌,
}
use mathlib.Core.List.{Memᴰ}
use mathlib.Core.Path.{subst}
use shiny_umbrella.Types.Enums.{Exchange}
use shiny_umbrella.Clock.Dates.{Date}
use shiny_umbrella.Clock.Calendar.{MarketCalendar, is_trading_day}
use shiny_umbrella.Clock.Days.{next_from, next_trading_day, days_from, trading_days}

not_in_nil : (d : Date) → Memᴰ d [] → ⊥
not_in_nil d m = elim m [ ]

in_kept :
    (trading : Bool) (start : Date) (rest : List Date) (d : Date)
    → Memᴰ d (if trading then start ∷ rest else rest)
    → ((d ≡ start) × (trading ≡ true)) ⊎ Memᴰ d rest
in_kept true start rest d (Memᴰ.head e) = inl (e, refl)
in_kept true start rest d (Memᴰ.tail m) = inr m
in_kept false start rest d m = inr m

kept_later :
    (trading : Bool) (start : Date) (rest : List Date) (d : Date)
    → Memᴰ d rest
    → Memᴰ d (if trading then start ∷ rest else rest)
kept_later true start rest d m = Memᴰ.tail m
kept_later false start rest d m = m

kept_here :
    (trading : Bool) (start : Date) (rest : List Date) (d : Date)
    → d ≡ start
    → trading ≡ true
    → Memᴰ d (if trading then start ∷ rest else rest)
kept_here true start rest d e h = Memᴰ.head e
kept_here false start rest d e h = cc

module _ (cal : MarketCalendar) (exchange : Exchange) where
  abbrev pub Trades : Date → Type 0
  Trades d = is_trading_day cal exchange d ≡ ok true

  abbrev pub Closed : Date → Type 0
  Closed d = is_trading_day cal exchange d ≡ ok false

  next_from-skips :
      (k fuel : ℕ) (d : Date)
      → k < fuel
      → ((j : ℕ) → j < k → Closed (d + j))
      → Trades (d + k)
      → next_from cal exchange fuel d ≡ ok (some (d + k))
  unfolding next_from
  next_from-skips k zero d h closed trades = elim h [ ]
  next_from-skips zero (suc fuel) d h closed trades =
      let same : d + 0 ≡ d = omega arith in
      let here : Trades d = rw same at trades in rw here (ap (λ x. ok (some x)) (sym same))
  next_from-skips (suc k) (suc fuel) d h closed trades =
      let same : d + 0 ≡ d = omega arith in
      let shift : (j : ℕ) → d + suc j ≡ d + 1 + j = λ j. omega arith in
      let shut : Closed d = rw same at (closed 0 (omega arith)) in
      rw (shut, shift k)
        (next_from-skips k fuel (d + 1) (omega arith)
          (λ j hj. rw (shift j) at (closed (suc j) (omega arith))) (rw (shift k) at trades))

  -- With more fuel than the days to wait, `next_trading_day` returns the first trading day after
  -- the given one: the market is closed on every day in between.
  pub next_trading_day_first :
      (fuel k : ℕ) (d : Date)
      → k < fuel
      → ((j : ℕ) → j < k → Closed (d + 1 + j))
      → Trades (d + 1 + k)
      → next_trading_day cal exchange fuel d ≡ ok (some (d + 1 + k))
  unfolding next_trading_day
  next_trading_day_first fuel k d h closed trades = next_from-skips k fuel (d + 1) h closed trades

  days_from_sound :
      (rounds : ℕ) (start : Date) (days : List Date) (d : Date)
      → days_from cal exchange rounds start ≡ ok days
      → Memᴰ d days
      → (start ≤ d) × (d < start + rounds) × Trades d
  unfolding days_from
  days_from_sound zero start days d h m = absurd (not_in_nil d (subst (Memᴰ d) (ground arith) m))
  days_from_sound (suc rounds) start days d h m =
      let (trading, e, k) = >>=-eq-ok (is_trading_day cal exchange start) _ h in
      let (rest, e', k') = >>=-eq-ok (days_from cal exchange rounds (start + 1)) _ k in
      elim (in_kept trading start rest d (subst (Memᴰ d) (ground arith) m)) [
        | inl (same, yes_) ↦
            (omega (arith, same), omega (arith, same), cc (ap (is_trading_day cal exchange) same))
        | inr later ↦
            let (lo, hi, trades) = days_from_sound rounds (start + 1) rest d e' later in
            (omega (arith, lo), omega (arith, hi), trades)
      ]

  days_from_complete :
      (rounds : ℕ) (start : Date) (days : List Date) (d : Date)
      → days_from cal exchange rounds start ≡ ok days
      → start ≤ d
      → d < start + rounds
      → Trades d
      → Memᴰ d days
  unfolding days_from
  days_from_complete zero start days d h lo hi t = absurd (omega arith)
  days_from_complete (suc rounds) start days d h lo hi t =
      let (trading, e, k) = >>=-eq-ok (is_trading_day cal exchange start) _ h in
      let (rest, e', k') = >>=-eq-ok (days_from cal exchange rounds (start + 1)) _ k in
      let shape : (if trading then start ∷ rest else rest) ≡ days = ground arith in
      subst (Memᴰ d) shape (elim (Bool-cases (ltb start d)) [
        | inl later ↦ kept_later trading start rest d (
            days_from_complete rounds (start + 1) rest d e' (omega (arith, ltb→lt start d later))
              (omega arith) t)
        | inr now ↦
            let same : d ≡ start = omega (arith, ltb→ge start d now) in
            kept_here trading start rest d same (cc (ap (is_trading_day cal exchange) same))
      ])

  -- `trading_days` returns exactly the trading days of the range, both ends included.
  pub trading_days_iff :
      (start end : Date) {days : List Date}
      → trading_days cal exchange start end ≡ ok days
      → (d : Date) → Memᴰ d days ↔ ((start ≤ d) × (d ≤ end) × Trades d)
  unfolding trading_days
  trading_days_iff start end {days} h d = (
    λ m.
        let (lo, hi, t) = days_from_sound (end + 1 - start) start days d h m in
        (lo, omega (arith, lo, hi), t),
    λ k. days_from_complete (end + 1 - start) start days d h k.0 (omega (arith, k.0, k.1)) k.2,
  )
