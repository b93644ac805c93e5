-- ===== src/Tests/Training.antt =====
-- Tests of the splits: ten days with a row each, two folds of two days.
use shiny_umbrella.Base.{
  sym, ap, ◌≤◌, ◌≢◌, ◌==◌, any, contains, nat_eq, ℕ, zero, suc, ◌+◌, ◌<◌, ◌≡◌, refl, true, false,
  Bool, none, some, List, [], ◌∷◌, All, ok, arith, if◌then◌else◌, Bool-cases, inl, inr,
}
use mathlib.Core.Path.{subst}
use mathlib.Core.List.{Memᴰ}
use mathlib.Core.List.Memᴰ.{head, tail, not-nil, cases_cons}
use shiny_umbrella.Training.Splits.{Frame, FrameLaws, is_empty, Fold, Options, walk_forward}
use shiny_umbrella.Training.Splits.Folds.{IsFit, NoLeak, walk_forward-NoLeak}

-- The numbers from `k` on, `c` of them, that pass a test
pick : (ℕ → Bool) → ℕ → ℕ → List ℕ
pick p zero k = []
pick p (suc c) k = let rest = pick p c (k + 1) in if p k then k ∷ rest else rest

pick-passes : (p : ℕ → Bool) (c k r : ℕ) → Memᴰ r (pick p c k) → p r ≡ true
unfolding pick
pick-passes p zero k r m = absurd (not-nil m)
pick-passes p (suc c) k r m = elim (Bool-cases (p k)) [
  | inl hit ↦ elim (cases_cons (rw hit at m)) [
    | inl e ↦ subst (λ x. p x ≡ true) (sym e) hit
    | inr rest ↦ pick-passes p c (k + 1) r rest
  ]
  | inr miss ↦ pick-passes p c (k + 1) r (rw miss at m)
]

pick_some :
    (p : ℕ → Bool) (c k t : ℕ) → k ≤ t → t < k + c → p t ≡ true → is_empty (pick p c k) ≡ false
unfolding pick
pick_some p zero k t low high h = absurd (omega (arith, low, high))
pick_some p (suc c) k t low high h = elim (Bool-cases (p k)) [
  | inl hit ↦ rw hit refl
  | inr miss ↦
      let later : k ≢ t = λ e. let same : p k ≡ p t = ap p e in cc in
      rw miss (pick_some p c (k + 1) t (omega (arith, low, later)) (omega (arith, high)) h)
]

last_or : ℕ → List ℕ → ℕ
last_or d [] = d
last_or d (x ∷ xs) = last_or x xs

last_or-Memᴰ : (d : ℕ) (xs : List ℕ) → Memᴰ (last_or d xs) (d ∷ xs)
unfolding last_or
last_or-Memᴰ d [] = head refl
last_or-Memᴰ d (x ∷ xs) = tail (last_or-Memᴰ x xs)

first : List ℕ → ℕ
first [] = 0
first (x ∷ xs) = x

last : List ℕ → ℕ
unfolding last_or
last [] = 0
last (x ∷ xs) = last_or x xs

last-Memᴰ : (xs : List ℕ) → is_empty xs ≡ false → (r : ℕ) × Memᴰ r xs × (last xs ≡ r)
unfolding last
last-Memᴰ [] h = cc
last-Memᴰ (x ∷ xs) h = (last_or x xs, last_or-Memᴰ x xs, refl)

first-Memᴰ : (xs : List ℕ) → is_empty xs ≡ false → (r : ℕ) × Memᴰ r xs × (first xs ≡ r)
unfolding first
first-Memᴰ [] h = cc
first-Memᴰ (x ∷ xs) h = (x, head refl, refl)

shares : List ℕ → List ℕ → Bool
shares xs ys = any (λ x. contains x ys) xs

contains-Memᴰ : (x : ℕ) (ys : List ℕ) → contains x ys ≡ true → Memᴰ x ys
unfolding contains
contains-Memᴰ x [] h = cc
contains-Memᴰ x (y ∷ ys) h = elim (Bool-cases (y == x)) [
  | inl hit ↦ let same : x ≡ y = ground arith in head same
  | inr miss ↦ tail (contains-Memᴰ x ys (rw miss at h))
]

shares-Memᴰ : (xs ys : List ℕ) → shares xs ys ≡ true → (r : ℕ) × Memᴰ r xs × Memᴰ r ys
unfolding shares
shares-Memᴰ [] ys h = cc
shares-Memᴰ (x ∷ xs) ys h = elim (Bool-cases (contains x ys)) [
  | inl hit ↦ (x, head refl, contains-Memᴰ x ys hit)
  | inr miss ↦ let (r, m, k) = shares-Memᴰ xs ys (rw miss at h) in (r, tail m, k)
]

abbrev days : Frame
days = record {
  n = 10;
  row_time = λ r. r;
  nonzero = λ p. pick p 10 0;
  latest = last;
  earliest = first;
  meet = shares;
}

days-FrameLaws : FrameLaws days
days-FrameLaws = record {
  nonzero_passes = λ p r m. pick-passes p 10 0 r m;
  nonzero_some = λ p t l h. pick_some p 10 0 t (omega arith) l h;
  latest_of = last-Memᴰ;
  earliest_of = first-Memᴰ;
  meet_of = shares-Memᴰ;
}

abbrev options : Options
options = record {
  n_folds = 2;
  purge = 1;
  embargo = 1;
  horizon = some 1;
  min_train = 3;
  validation_size = none;
  expanding = true;
  train_size = none;
}

options-IsFit : IsFit days options
options-IsFit = record {
  long_purge = refl;
  some_folds = omega arith;
  windowed = refl;
  some_size = omega arith;
  fits = omega arith;
  some_train = omega arith;
  wide = λ h. cc;
}

walk_forward-NoLeak_example :
    (folds : List Fold) × (walk_forward days options ≡ ok folds) × All (NoLeak days) folds
walk_forward-NoLeak_example = walk_forward-NoLeak days days-FrameLaws options options-IsFit
