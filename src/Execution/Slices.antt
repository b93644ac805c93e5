-- ===== src/Execution/Slices.antt =====
-- `plan_slices` of the execution agent, and what the slices come to.
pub mod Sums
use shiny_umbrella.Base.{
  ℕ, zero, suc, ◌+◌, ◌-◌, ◌*◌, ◌/◌, ◌%◌, ◌≤◌, ◌<◌, min, pos_part, ◌≡◌, refl, sym, ap, ◌∙◌, inl, inr,
  Bool, true, false, Option, none, some, List, [], ◌∷◌, ◌++◌, Text, Dict, lookup, nat_eq, list_eq,
  All, sum, length, Result, ok, err, zero_division, ◌>>=◌, >>=-eq-ok, ok_injective, ltb, leb,
  leb→le, ◌=ℕ◌, if◌then◌else◌, or_else, Bool-cases, arith,
}
use shiny_umbrella.Float.Arith.{Arith, ◌⊗◌, ◌⊘◌, ◌≺◌, of_ℕ}
use shiny_umbrella.Symbols.Instruments.{Instrument}
use shiny_umbrella.Symbols.Lots.{LotSizes, get}
use shiny_umbrella.Execution.State.{ExecutionConfig, Exec}

-- `max(a, b)` of numbers
abbrev pub larger : ℕ → ℕ → ℕ
larger a b = if ltb a b then b else a

-- The smallest of the caps, or a value where there is none
abbrev pub least : ℕ → List ℕ → ℕ
least default [] = default
least default (c ∷ []) = c
least default (c ∷ cs) = min c (least default cs)

-- The loop of `plan_slices`; a number of rounds equal to what is left is enough.
unfoldable pub chunks : ℕ → ℕ → ℕ → List ℕ
chunks zero cap left = []
chunks (suc n) cap left =
    let rest = chunks n cap (left - min cap left) in if left =ℕ 0 then [] else min cap left ∷ rest

-- The cap on a child order, rounded down to whole lots, but no less than one lot
abbrev pub lot_cap : ℕ → ℕ → ℕ
lot_cap cap lot = larger (cap / lot * lot) lot

unfoldable pub slices_by : ℕ → ℕ → ℕ → Result (List ℕ)
slices_by qty cap lot =
    if lot =ℕ 0
    then err zero_division
    else (if leb qty (lot_cap cap lot)
        then ok (qty ∷ [])
        else ok (chunks qty (lot_cap cap lot) qty))

freeze_caps : {F : Type 0} → Option (Instrument F) → List ℕ
freeze_caps none = []
freeze_caps (some inst) = let q = or_else inst.freeze_qty 0 in if q =ℕ 0 then [] else q ∷ []

module _ {F : Type 0} ⦃fl : Arith F⦄ where
  volume_caps : ExecutionConfig F → List ℕ → List ℕ
  volume_caps cfg [] = []
  volume_caps cfg (v ∷ vols) =
      let recent = of_ℕ (sum (v ∷ vols)) ⊘ of_ℕ (length (v ∷ vols)) in
      let by_volume = pos_part (fl.trunc (recent ⊗ cfg.max_participation)) in
      if of_ℕ 0 ≺ cfg.max_participation then (if by_volume =ℕ 0 then [] else by_volume ∷ []) else []

  -- `caps`
  unfoldable pub caps_for : {B : Type 0} → Exec F B → Text → List ℕ
  unfolding freeze_caps volume_caps
  caps_for s symbol =
      volume_caps s.cfg (or_else (lookup symbol s.volume) [])
      ++ freeze_caps (lookup symbol s.instruments)

  -- `plan_slices`
  unfoldable pub plan_slices : {B : Type 0} → Exec F B → Text → ℕ → Result (List ℕ)
  plan_slices s symbol qty = do
    lot ← get F s.lots symbol
    slices_by qty (least qty (caps_for s symbol)) lot
