-- ===== src/Training/Splits.antt =====
-- trading/training/splits.py: walk-forward folds and the holdout. Times are positions among the sorted
-- unique timestamps; what numpy and pandas answer is a parameter.
pub mod Folds
use shiny_umbrella.Base.{
  ℕ, zero, suc, ◌+◌, ◌-◌, ◌*◌, ◌/◌, ◌≤◌, ◌<◌, ◌≡◌, Bool, true, false, ◌&&◌, ◌||◌, not, Option, none,
  some, List, [], ◌∷◌, Result, ok, err, value_error, Error, ◌>>=◌, ◌>>◌, raise_if, ltb, leb, ◌=ℕ◌,
  if◌then◌else◌, or_else,
}
use mathlib.Core.List.{Memᴰ}

-- The rows of a data set: `n` unique times, the time of each row, and the answers of the libraries:
-- the rows whose time passes a test (`np.nonzero`), the latest and the earliest time of some rows,
-- and whether two sets of rows meet (`np.intersect1d`).
pub record Frame : Type 0 where
  pub n : ℕ
  pub row_time : ℕ → ℕ
  pub nonzero : (ℕ → Bool) → List ℕ
  pub latest : List ℕ → ℕ
  pub earliest : List ℕ → ℕ
  pub meet : List ℕ → List ℕ → Bool

abbrev pub is_empty : List ℕ → Bool
is_empty [] = true
is_empty (r ∷ rs) = false

-- What those answers are documented to be
pub record FrameLaws (f : Frame) : Type 0 where
  pub nonzero_passes : (p : ℕ → Bool) (r : ℕ) → Memᴰ r (f.nonzero p) → p (f.row_time r) ≡ true
  pub nonzero_some : (p : ℕ → Bool) (t : ℕ) → t < f.n → p t ≡ true → is_empty (f.nonzero p) ≡ false
  pub latest_of :
      (rs : List ℕ) → is_empty rs ≡ false → (r : ℕ) × Memᴰ r rs × (f.latest rs ≡ f.row_time r)
  pub earliest_of :
      (rs : List ℕ) → is_empty rs ≡ false → (r : ℕ) × Memᴰ r rs × (f.earliest rs ≡ f.row_time r)
  pub meet_of : (rs qs : List ℕ) → f.meet rs qs ≡ true → (r : ℕ) × Memᴰ r rs × Memᴰ r qs

-- The first and the last times stand as positions.
pub record Fold : Type 0 where
  pub index : ℕ
  pub train : List ℕ
  pub validation : List ℕ
  pub train_times : ℕ × ℕ
  pub validation_times : ℕ × ℕ
  pub purge : ℕ
  pub embargo : ℕ

-- The arguments of `walk_forward`
pub record Options : Type 0 where
  pub n_folds : ℕ
  pub purge : ℕ
  pub embargo : ℕ
  pub horizon : Option ℕ
  pub min_train : ℕ
  pub validation_size : Option ℕ
  pub expanding : Bool
  pub train_size : Option ℕ

-- The test that a position lies in a range
abbrev pub in_range : ℕ → ℕ → ℕ → Bool
in_range low high t = leb low t && ltb t high

abbrev pub gap : Options → ℕ
gap o = o.purge + o.embargo

abbrev pub fold_size : Frame → Options → ℕ
fold_size f o = or_else o.validation_size ((f.n - o.min_train - gap o) / o.n_folds)

-- Where the validation block of a fold begins and ends, and where its training ends and begins
abbrev pub valid_from : Frame → Options → ℕ → ℕ
valid_from f o k = f.n - o.n_folds * fold_size f o + k * fold_size f o

abbrev pub valid_to : Frame → Options → ℕ → ℕ
valid_to f o k = if k + 1 =ℕ o.n_folds then f.n else valid_from f o k + fold_size f o

abbrev pub train_to : Frame → Options → ℕ → ℕ
train_to f o k = valid_from f o k - gap o

abbrev pub train_from : Frame → Options → ℕ → ℕ
train_from f o k = if o.expanding then 0 else train_to f o k - or_else o.train_size 0

-- `times[t - 1]`, which is the last time where `t` is 0
abbrev before : Frame → ℕ → ℕ
before f zero = f.n - 1
before f (suc t) = t

abbrev pub make_fold : Frame → Options → ℕ → Fold
make_fold f o k = record {
  index = k;
  train = f.nonzero (in_range (train_from f o k) (train_to f o k));
  validation = f.nonzero (in_range (valid_from f o k) (valid_to f o k));
  train_times = (train_from f o k, before f (train_to f o k));
  validation_times = (valid_from f o k, before f (valid_to f o k));
  purge = o.purge;
  embargo = o.embargo;
}

-- The turn of a fold in the loop of `walk_forward`
unfoldable pub fold_at : Frame → Options → ℕ → Result Fold
fold_at f o k =
    if ltb (train_to f o k - train_from f o k) o.min_train
    then err value_error
    else ok (make_fold f o k)

-- The loop of `walk_forward`, for some more folds
unfoldable pub folds_from : Frame → Options → ℕ → ℕ → Result (List Fold)
unfolding fold_at
folds_from f o zero k = ok []
folds_from f o (suc more) k = do
  fold ← fold_at f o k
  rest ← folds_from f o more (k + 1)
  ok (fold ∷ rest)

-- `LeakageError` is a `ValueError`.
abbrev leakage : Error
leakage = value_error

-- The turn of a fold in `check_no_leakage`
unfoldable pub check_fold : Frame → ℕ → Fold → Result (Unit {0})
check_fold f purge fold = do
  raise_if (is_empty fold.train || is_empty fold.validation) leakage
  raise_if (leb (f.earliest fold.validation) (f.latest fold.train + purge)) leakage
  raise_if (f.meet fold.train fold.validation) leakage

-- `check_no_leakage`
unfoldable pub check_no_leakage : Frame → ℕ → List Fold → Result (Unit {0})
unfolding check_fold
check_no_leakage f purge [] = ok tt
check_no_leakage f purge (fold ∷ folds) = do check_fold f purge fold; check_no_leakage f purge folds

abbrev pub short_purge : Option ℕ → ℕ → Bool
short_purge none purge = false
short_purge (some horizon) purge = ltb purge horizon

-- `walk_forward`
unfoldable pub walk_forward : Frame → Options → Result (List Fold)
unfolding folds_from check_no_leakage
walk_forward f o = do
  raise_if (short_purge o.horizon o.purge) leakage
  raise_if (o.n_folds =ℕ 0) value_error
  raise_if (not o.expanding && (or_else o.train_size 0 =ℕ 0)) value_error
  raise_if (fold_size f o =ℕ 0 || ltb f.n (o.min_train + gap o + o.n_folds * fold_size f o))
      value_error
  folds ← folds_from f o o.n_folds 0
  check_no_leakage f o.purge folds
  ok folds

-- `holdout_split`
unfoldable pub holdout_split : Frame → ℕ → ℕ → ℕ → Result (List ℕ × List ℕ)
holdout_split f holdout purge embargo = do
  raise_if (holdout =ℕ 0 || leb f.n (holdout + purge + embargo)) value_error
  ok (
    f.nonzero (λ t. ltb t (f.n - holdout - purge - embargo)),
    f.nonzero (λ t. leb (f.n - holdout) t),
  )
