-- ===== src/Training/Splits/Folds.antt =====
-- No fold of a walk-forward split leaks.
use shiny_umbrella.Base.{
  ℕ, zero, suc, ◌+◌, ◌-◌, ◌*◌, ◌≤◌, ◌<◌, ◌≡◌, refl, sym, ap, ◌∙◌, inl, inr, true, false, ◌&&◌, ◌||◌,
  not, List, [], ◌∷◌, ok, ltb, leb, ge→ltb, ◌=ℕ◌, or_else, Bool-cases, arith, All,
}
use mathlib.Core.List.{Memᴰ}
use native.Mathlib.Nat.{add-mul, suc-mul}
use shiny_umbrella.Training.Splits.{
  Frame, FrameLaws, is_empty, Fold, Options, in_range, gap, fold_size, valid_from, valid_to,
  train_to, train_from, make_fold, fold_at, folds_from, check_fold, check_no_leakage, short_purge,
  walk_forward,
}

suc-split : (k m v : ℕ) → (k + suc m) * v ≡ k * v + (v + m * v)
suc-split k m v =
    let parts = add-mul k (suc m) v in let one_more = suc-mul m v in omega (arith, parts, one_more)

in_range-bounds : (low high t : ℕ) → in_range low high t ≡ true → (low ≤ t) × (t < high)
in_range-bounds low high t h = ground arith

-- Every training row is earlier than every validation row, by more than the purge and the embargo.
abbrev pub NoLeak : Frame → Fold → Type 0
NoLeak f fold =
    (r q : ℕ)
    → Memᴰ r fold.train
    → Memᴰ q fold.validation
    → f.row_time r + fold.purge + fold.embargo < f.row_time q

-- What the checks of the arguments leave
pub record IsFit (f : Frame) (o : Options) : Type 0 where
  pub long_purge : short_purge o.horizon o.purge ≡ false
  pub some_folds : 0 < o.n_folds
  pub windowed : (not o.expanding && (or_else o.train_size 0 =ℕ 0)) ≡ false
  pub some_size : 0 < fold_size f o
  pub fits : o.min_train + gap o + o.n_folds * fold_size f o ≤ f.n
  pub some_train : 0 < o.min_train
  pub wide : o.expanding ≡ false → o.min_train ≤ or_else o.train_size 0

module _ (f : Frame) (laws : FrameLaws f) (o : Options) where
  -- Where the times of a fold lie
  record Placed (k : ℕ) : Type 0 where
    after_gap : gap o + o.min_train ≤ valid_from f o k
    in_data : valid_from f o k < f.n
    valid_some : valid_from f o k < valid_to f o k
    train_some : o.min_train ≤ train_to f o k - train_from f o k
    train_early : train_from f o k < train_to f o k

  fold-Placed : (k more : ℕ) → IsFit f o → k + suc more ≡ o.n_folds → Placed k
  fold-Placed k more fit e = record {
    after_gap = omega (arith, size, fit.fits);
    in_data = below;
    valid_some = elim (Bool-cases (k + 1 =ℕ o.n_folds)) [
      | inl last ↦ rw last below
      | inr inner ↦ rw inner omega (arith, fit.some_size)
    ];
    train_some = window;
    train_early = omega (arith, window, fit.some_train);
  }
    where
      size : o.n_folds * fold_size f o ≡ k * fold_size f o + (fold_size f o + more * fold_size f o)
      size = ap (λ m. m * fold_size f o) (sym e) ∙ suc-split k more (fold_size f o)

      below : valid_from f o k < f.n
      below = omega (arith, size, fit.fits, fit.some_size)

      window : o.min_train ≤ train_to f o k - train_from f o k
      window = elim (Bool-cases o.expanding) [
        | inl all ↦ rw all omega (arith, size, fit.fits)
        | inr rolling ↦ rw rolling omega (arith, size, fit.fits, fit.wide rolling)
      ]

  make_fold-NoLeak : (k : ℕ) → gap o ≤ valid_from f o k → NoLeak f (make_fold f o k)
  make_fold-NoLeak k g r q hr hq =
      let early =
        in_range-bounds (train_from f o k) (train_to f o k) (f.row_time r)
          (laws.nonzero_passes _ r hr) in
      let late =
        in_range-bounds (valid_from f o k) (valid_to f o k) (f.row_time q)
          (laws.nonzero_passes _ q hq) in
      omega (arith, early.1, late.0, g)

  fold_at-ok : (k : ℕ) → Placed k → fold_at f o k ≡ ok (make_fold f o k)
  unfolding fold_at
  fold_at-ok k p =
      let enough : ltb (train_to f o k - train_from f o k) o.min_train ≡ false =
        ge→ltb (train_to f o k - train_from f o k) o.min_train p.train_some in
      rw enough refl

  check_fold-ok : (k : ℕ) → Placed k → check_fold f o.purge (make_fold f o k) ≡ ok tt
  unfolding check_fold
  check_fold-ok k p = rw (trains, validates, apart_, disjoint) refl
    where
      fold : Fold
      fold = make_fold f o k

      safe : NoLeak f fold
      safe = make_fold-NoLeak k (omega (arith, p.after_gap))

      trains : is_empty fold.train ≡ false
      trains =
          laws.nonzero_some _ (train_from f o k) (omega (arith, p.train_early, p.in_data))
            (ground (arith, p.train_early))

      validates : is_empty fold.validation ≡ false
      validates = laws.nonzero_some _ (valid_from f o k) p.in_data (ground (arith, p.valid_some))

      apart_ : leb (f.earliest fold.validation) (f.latest fold.train + o.purge) ≡ false
      apart_ =
          let (r, hr, er) = laws.latest_of fold.train trains in
          let (q, hq, eq_) = laws.earliest_of fold.validation validates in
          let far = safe r q hr hq in ground (arith, er, eq_, far)

      disjoint : f.meet fold.train fold.validation ≡ false
      disjoint = elim (Bool-cases (f.meet fold.train fold.validation)) [
        | inl common ↦
            let (r, hr, hq) = laws.meet_of fold.train fold.validation common in
            absurd (omega (arith, safe r r hr hq))
        | inr apart_ ↦ apart_
      ]

  folds_from-ok :
      (more k : ℕ)
      → IsFit f o
      → k + more ≡ o.n_folds
      → (folds : List Fold) × (folds_from f o more k ≡ ok folds)
        × (check_no_leakage f o.purge folds ≡ ok tt)
        × All (NoLeak f) folds
  unfolding folds_from check_no_leakage
  folds_from-ok zero k fit e = ([], refl, refl, tt)
  folds_from-ok (suc more) k fit e =
      let p = fold-Placed k more fit e in
      let (folds, made, checked, safe) = folds_from-ok more (k + 1) fit (omega (arith, e)) in
      (
        make_fold f o k ∷ folds,
        rw (fold_at-ok k p, made) refl,
        rw (check_fold-ok k p) checked,
        (make_fold-NoLeak k (omega (arith, p.after_gap)), safe),
      )

  -- With arguments that fit the data, among them at least one training bar, walk_forward returns, so
  -- its own check finds no leakage, and in each of its folds every training row is earlier than every
  -- validation row by more than the purge and the embargo, if the libraries answer as documented.
  pub walk_forward-NoLeak :
      IsFit f o → (folds : List Fold) × (walk_forward f o ≡ ok folds) × All (NoLeak f) folds
  unfolding walk_forward
  walk_forward-NoLeak fit =
      let (folds, made, checked, safe) = folds_from-ok o.n_folds 0 fit (omega arith) in
      let folds_some : (o.n_folds =ℕ 0) ≡ false = ground (arith, fit.some_folds) in
      let fits : (fold_size f o =ℕ 0 || ltb f.n (o.min_train + gap o + o.n_folds * fold_size f o))
          ≡ false =
        ground (arith, fit.some_size, fit.fits) in
      (folds, rw (fit.long_purge, folds_some, fit.windowed, fits, made, checked) refl, safe)
