-- ===== src/Base/Actions.antt =====
-- Calls that read and write a state and may raise: what was written before stays written.
use mathlib.Core.List.{List, [], ◌∷◌}
use shiny_umbrella.Base.Errors.{Result, ok, err, Error}

abbrev pub Act : Type 0 → Type 0 → Type 0
Act S A = S → Result A × S

-- What follows a call, by how it ended
abbrev pub after : {S A B : Type 0} → Result A → (A → Act S B) → Act S B
after (ok a) f s = f a s
after (err x) f s = (err x, s)

infixl 5 ◌>>=◌ ◌>>◌
abbrev pub ◌>>=◌ : {S A B : Type 0} → Act S A → (A → Act S B) → Act S B
◌>>=◌ m f s = after (m s).0 f (m s).1

abbrev pub ◌>>◌ : {S A B : Type 0} → Act S A → Act S B → Act S B
m >> k = m >>= λ _. k

module _ {S : Type 0} where
  abbrev pub pure : {A : Type 0} → A → Act S A
  pure a s = (ok a, s)

  abbrev pub raises : {A : Type 0} → Error → Act S A
  raises x s = (err x, s)

  abbrev pub lift : {A : Type 0} → Result A → Act S A
  lift r s = (r, s)

  abbrev pub gets : {A : Type 0} → (S → A) → Act S A
  gets f s = (ok (f s), s)

  abbrev pub modify : (S → S) → Act S (Unit {0})
  modify f s = (ok tt, f s)

  -- `for x in xs`
  unfoldable pub for_each : {A : Type 0} → List A → (A → Act S (Unit {0})) → Act S (Unit {0})
  for_each [] f = pure tt
  for_each (x ∷ xs) f = f x >> for_each xs f

  -- The call keeps what holds of the state, however it ends.
  pub record Keeps (P : S → Type 0) {A : Type 0} (m : Act S A) : Type 0 where
    pub holds : (s : S) → P s → P (m s).1

  -- What follows a call that has kept P from a state
  pub bind_at :
      (P : S → Type 0) {A B : Type 0} (m : Act S A) (f : A → Act S B) (s : S)
      → P (m s).1
      → ((a : A) → Keeps P (f a))
      → P ((m >>= f) s).1
  bind_at P {A} {B} m f s p h = by (m s).0
    where
      by : (r : Result A) → P (after r f (m s).1).1
      by (ok a) = (h a).holds (m s).1 p
      by (err x) = p

  pub Keeps-bind :
      (P : S → Type 0) {A B : Type 0} (m : Act S A) (f : A → Act S B)
      → Keeps P m
      → ((a : A) → Keeps P (f a))
      → Keeps P (m >>= f)
  Keeps-bind P m f hm hf = record { holds = λ s p. bind_at P m f s (hm.holds s p) hf }

  -- A value that is only looked up, or the end of a call
  pub Keeps-lift : (P : S → Type 0) {A : Type 0} (r : Result A) → Keeps P (lift r)
  Keeps-lift P r = record { holds = λ s p. p }

  pub Keeps-gets :
      (P : S → Type 0) {A B : Type 0} (look : S → A) (f : A → Act S B)
      → ((a : A) → Keeps P (f a))
      → Keeps P (gets look >>= f)
  Keeps-gets P look f h = record { holds = λ s p. (h (look s)).holds s p }

  pub Keeps-for_each :
      (P : S → Type 0) {A : Type 0} (xs : List A) (f : A → Act S (Unit {0}))
      → ((x : A) → Keeps P (f x))
      → Keeps P (for_each xs f)
  unfolding for_each
  Keeps-for_each P [] f h = Keeps-lift P (ok tt)
  Keeps-for_each P (x ∷ xs) f h =
      Keeps-bind P (f x) (λ _. for_each xs f) (h x) (λ _. Keeps-for_each P xs f h)
