-- ===== src/Execution/Slices/Sums.antt =====
-- What the slices of an order come to.
use shiny_umbrella.Base.{
  ℕ, zero, suc, ◌+◌, ◌-◌, ◌*◌, ◌/◌, ◌%◌, ◌≤◌, ◌<◌, min, ◌≡◌, refl, sym, ap, ◌∙◌, inl, inr, false,
  List, [], ◌∷◌, Text, All, sum, ok, >>=-eq-ok, ok_injective, ltb, leb, leb→le, ltb→ge, ◌=ℕ◌,
  if◌then◌else◌, if_either, Bool-cases, arith, nat_eq, list_eq,
}
use mathlib.Core.Path.{subst}
use native.Mathlib.Nat.{mul-mod_left, mod_self, add-mod, mod-mod}
use shiny_umbrella.Float.Arith.{Arith}
use shiny_umbrella.Symbols.Lots.{get}
use shiny_umbrella.Execution.State.{Exec}
use shiny_umbrella.Execution.Slices.{least, chunks, lot_cap, slices_by, caps_for, plan_slices}

-- A difference of multiples is a multiple.
sub-mod : (a b l : ℕ) → b ≤ a → a % l ≡ 0 → b % l ≡ 0 → (a - b) % l ≡ 0
sub-mod a b l le ha hb =
    let whole : (a - b) + b ≡ a = omega (arith, le) in
    let drop : (a - b) % l + b % l ≡ (a - b) % l = omega (arith, hb) in
    sym (mod-mod (a - b) l)
    ∙ ap (λ n. n % l) (sym drop)
    ∙ sym (add-mod (a - b) b l)
    ∙ ap (λ n. n % l) whole
    ∙ ha

-- The slices of a quantity under a cap
pub record IsSplit (qty cap lot : ℕ) (xs : List ℕ) : Type 0 where
  pub total : sum xs ≡ qty
  pub each_some : All (λ n. 0 < n) xs
  pub each_capped : All (λ n. n ≤ cap) xs
  pub each_whole : qty % lot ≡ 0 → All (λ n. n % lot ≡ 0) xs

chunk_whole : (cap left lot : ℕ) → cap % lot ≡ 0 → left % lot ≡ 0 → min cap left % lot ≡ 0
chunk_whole cap left lot hc hl = elim (Bool-cases (leb cap left)) [
  | inl h ↦
      let same : cap ≡ min cap left = omega (arith, leb→le cap left h) in
      subst (λ n. n % lot ≡ 0) same hc
  | inr h ↦ let same : left ≡ min cap left = ground arith in subst (λ n. n % lot ≡ 0) same hl
]

chunks-IsSplit :
    (n cap lot left : ℕ)
    → 0 < cap
    → cap % lot ≡ 0
    → left ≤ n
    → IsSplit left cap lot (chunks n cap left)
unfolding chunks
chunks-IsSplit zero cap lot left c w h = record {
  total = omega arith;
  each_some = tt;
  each_capped = tt;
  each_whole = λ d. tt;
}
chunks-IsSplit (suc n) cap lot left c w h = elim (Bool-cases (left =ℕ 0)) [
  | inl done ↦
      let none_left : 0 ≡ left = ground arith in
      rw done record { total = none_left; each_some = tt; each_capped = tt; each_whole = λ d. tt }
  | inr some_left ↦
      let any_left : 0 < left = ground arith in
      let rest =
        chunks-IsSplit n cap lot (left - min cap left) c w (omega (arith, c, h, any_left)) in
      rw some_left record {
        total = omega (arith, rest.total);
        each_some = (omega (arith, c, any_left), rest.each_some);
        each_capped = (omega arith, rest.each_capped);
        each_whole = λ d. (
          chunk_whole cap left lot w d,
          rest.each_whole
              (sub-mod left (min cap left) lot (omega arith) d (chunk_whole cap left lot w d)),
        );
      }
]

lot_cap-pos : (cap lot : ℕ) → 0 < lot → 0 < lot_cap cap lot
lot_cap-pos cap lot h = elim (Bool-cases (ltb (cap / lot * lot) lot)) [
  | inl less ↦ rw less h
  | inr more ↦ rw more omega (arith, h, ltb→ge (cap / lot * lot) lot more)
]

lot_cap-mod : (cap lot : ℕ) → lot_cap cap lot % lot ≡ 0
lot_cap-mod cap lot =
    if_either (λ n. n % lot ≡ 0) (ltb (cap / lot * lot) lot) (mod_self lot)
      (mul-mod_left (cap / lot) lot)

slices_by-IsSplit :
    (qty cap lot : ℕ) {xs : List ℕ}
    → 0 < qty
    → slices_by qty cap lot ≡ ok xs
    → IsSplit qty (lot_cap cap lot) lot xs
unfolding slices_by
slices_by-IsSplit qty cap lot {xs} q h = elim (Bool-cases (lot =ℕ 0)) [
  | inl no_lot ↦ cc (rw no_lot at h)
  | inr a_lot ↦ let lot_pos : 0 < lot = ground arith in by lot_pos (rw a_lot at h)
]
  where
    by :
        0 < lot
        → (if leb qty (lot_cap cap lot)
            then ok (qty ∷ [])
            else ok (chunks qty (lot_cap cap lot) qty))
          ≡ ok xs
        → IsSplit qty (lot_cap cap lot) lot xs
    by l k = elim (Bool-cases (leb qty (lot_cap cap lot))) [
      | inl fits ↦ subst (IsSplit qty (lot_cap cap lot) lot) (ok_injective (rw fits at k)) record {
        total = omega arith;
        each_some = (q, tt);
        each_capped = (leb→le qty (lot_cap cap lot) fits, tt);
        each_whole = λ d. (d, tt);
      }
      | inr over ↦ subst (IsSplit qty (lot_cap cap lot) lot) (ok_injective (rw over at k)) (
          chunks-IsSplit qty (lot_cap cap lot) lot qty (lot_cap-pos cap lot l) (lot_cap-mod cap lot)
            (omega arith))
    ]

-- With a lot of at least one there is a split.
slices_by-ok : (qty cap lot : ℕ) → 0 < lot → (xs : List ℕ) × (slices_by qty cap lot ≡ ok xs)
unfolding slices_by
slices_by-ok qty cap lot l =
    let a_lot : (lot =ℕ 0) ≡ false = ground arith in
    rw a_lot elim (Bool-cases (leb qty (lot_cap cap lot))) [
      | inl fits ↦ (qty ∷ [], rw fits refl)
      | inr over ↦ (chunks qty (lot_cap cap lot) qty, rw over refl)
    ]

module _ {F : Type 0} ⦃fl : Arith F⦄ {B : Type 0} (s : Exec F B) (symbol : Text) where
  -- A positive quantity of a symbol with a known lot of at least one is split: the slices sum to it;
  -- each is positive and no more than the least of the caps on the symbol in whole lots, or one lot
  -- where the cap is less than that; and where the quantity is in whole lots, so is each slice.
  pub plan_slices-IsSplit :
      (qty lot : ℕ)
      → 0 < qty
      → get F s.lots symbol ≡ ok lot
      → 0 < lot
      → (xs : List ℕ) × (plan_slices s symbol qty ≡ ok xs)
        × IsSplit qty (lot_cap (least qty (caps_for s symbol)) lot) lot xs
  unfolding plan_slices
  plan_slices-IsSplit qty lot q g l =
      let (xs, e) = slices_by-ok qty (least qty (caps_for s symbol)) lot l in
      (xs, rw g e, slices_by-IsSplit qty (least qty (caps_for s symbol)) lot q e)

  -- Slices that are returned sum to the quantity.
  pub sum-plan_slices :
      (qty : ℕ) {xs : List ℕ} → 0 < qty → plan_slices s symbol qty ≡ ok xs → sum xs ≡ qty
  unfolding plan_slices
  sum-plan_slices qty q h =
      let (lot, g, k) = >>=-eq-ok (get F s.lots symbol) _ h in
      (slices_by-IsSplit qty (least qty (caps_for s symbol)) lot q k).total
