-- ===== src/Base/Keys.antt =====
-- Equality tests as an interface, and Python dicts with such keys as association lists in
-- insertion order.
use Prim.Native.Nat.{ℕ}
use mathlib.Core.Path.{subst, sym, ◌≡◌, refl}
use mathlib.Core.Logic.{◌↔◌, inl, inr}
use mathlib.Core.Bool.{Bool, true, false, ◌&&◌, ◌||◌}
use mathlib.Core.Option.{Option, none, some}
use mathlib.Core.List.{List, [], ◌∷◌, map}
use native.Mathlib.Omega.{arith}
use shiny_umbrella.Base.Tests.{◌=ℕ◌, =ℕ_iff, if◌then◌else◌, Bool-cases}
use shiny_umbrella.Base.Lists.{All}

infix 50 ◌==◌
-- A test of keys that decides their equality.
pub record Eq {ℓ} (K : Type ℓ) : Type ℓ where
  pub beq : K → K → Bool
  pub beq_iff : (k j : K) → (beq k j ≡ true) ↔ (k ≡ j)

instance abbrev pub nat_eq : Eq ℕ
nat_eq = record { beq_iff = =ℕ_iff; beq = ◌=ℕ◌ }

abbrev pub ◌==◌ {ℓ} : {K : Type ℓ} ⦃d : Eq K⦄ → K → K → Bool
◌==◌ ⦃d⦄ = d.beq

abbrev pub list_beq {ℓ} : {K : Type ℓ} ⦃d : Eq K⦄ → List K → List K → Bool
list_beq (k ∷ ks) (j ∷ js) = k == j && list_beq ks js
list_beq (k ∷ ks) [] = false
list_beq [] (j ∷ js) = false
list_beq [] [] = true

pub list_beq_iff {ℓ} :
    {K : Type ℓ} ⦃d : Eq K⦄ (ks js : List K) → (list_beq ks js ≡ true) ↔ (ks ≡ js)
list_beq_iff (k ∷ ks) [] = ground arith
list_beq_iff [] (j ∷ js) = ground arith
list_beq_iff [] [] = ground arith
list_beq_iff ⦃d⦄ (k ∷ ks) (j ∷ js) = ground (arith, d.beq_iff k j, list_beq_iff ks js)

instance abbrev pub list_eq {ℓ} : {K : Type ℓ} ⦃d : Eq K⦄ → Eq (List K)
list_eq = record { beq_iff = list_beq_iff; beq = list_beq }

abbrev pub pair_beq {ℓ κ} : {A : Type ℓ} {B : Type κ} ⦃e : Eq A⦄ ⦃d : Eq B⦄ → A × B → A × B → Bool
pair_beq p q = p.0 == q.0 && p.1 == q.1

pub pair_beq_iff {ℓ κ} :
    {A : Type ℓ} {B : Type κ} ⦃e : Eq A⦄ ⦃d : Eq B⦄ (p q : A × B) → (pair_beq p q ≡ true) ↔ (p ≡ q)
pair_beq_iff ⦃e⦄ ⦃d⦄ (a, b) (a', b') = ground (arith, e.beq_iff a a', d.beq_iff b b')

instance abbrev pub pair_eq {ℓ κ} : {A : Type ℓ} {B : Type κ} ⦃e : Eq A⦄ ⦃d : Eq B⦄ → Eq (A × B)
pair_eq = record { beq = pair_beq; beq_iff = pair_beq_iff }

abbrev pub Dict {ℓ κ} : Type ℓ → Type κ → Type (ℓ ⊔ κ)
Dict K V = List (K × V)

module _ {ℓ κ} {K : Type ℓ} {V : Type κ} ⦃e : Eq K⦄ where
  -- `d.get(k)`
  unfoldable pub lookup : K → Dict K V → Option V
  lookup k [] = none
  lookup k ((j, v) ∷ d) = if j == k then some v else lookup k d

  -- `d[k] = v`
  unfoldable pub insert : K → V → Dict K V → Dict K V
  insert k v [] = (k, v) ∷ []
  insert k v ((j, w) ∷ d) = if j == k then (j, v) ∷ d else (j, w) ∷ insert k v d

  -- `d.pop(k, None)`
  unfoldable pub erase : K → Dict K V → Dict K V
  erase k [] = []
  erase k ((j, w) ∷ d) = if j == k then d else (j, w) ∷ erase k d

  pub lookup-insert :
      (k j : K) (v : V) (d : Dict K V)
      → lookup j (insert k v d) ≡ (if k == j then some v else lookup j d)
  unfolding lookup insert
  lookup-insert k j v [] = refl
  lookup-insert k j v ((i, w) ∷ d) =
      ground (arith, e.beq_iff k j, e.beq_iff i k, e.beq_iff i j, lookup-insert k j v d)

  pub lookup-insert_self : (k : K) (v : V) (d : Dict K V) → lookup k (insert k v d) ≡ some v
  lookup-insert_self k v d = rw (lookup-insert k k v d, (e.beq_iff k k).1 refl)

  pub lookup-All {μ} :
      (P : K → V → Type μ) (k : K) {v : V} (d : Dict K V)
      → All (λ p. P p.0 p.1) d
      → lookup k d ≡ some v
      → P k v
  unfolding lookup
  lookup-All P k [] a h = cc
  lookup-All P k {v} ((j, w) ∷ d) a h = elim (Bool-cases (j == k)) [
    | inl hit ↦
        let key : j ≡ k = (e.beq_iff j k).0 hit in
        let value : w ≡ v = ground arith in subst (λ i. P i v) key (subst (P j) value a.0)
    | inr miss ↦ lookup-All P k d a.1 (rw miss at h)
  ]

  pub insert-All {μ} :
      (P : K → V → Type μ) (k : K) (v : V) (d : Dict K V)
      → P k v
      → All (λ p. P p.0 p.1) d
      → All (λ p. P p.0 p.1) (insert k v d)
  unfolding insert
  insert-All P k v [] p a = (p, tt)
  insert-All P k v ((j, w) ∷ d) p a = elim (Bool-cases (j == k)) [
    | inl hit ↦
        let key : k ≡ j = sym ((e.beq_iff j k).0 hit) in rw hit (subst (λ i. P i v) key p, a.1)
    | inr miss ↦ rw miss (a.0, insert-All P k v d p a.1)
  ]

-- `d.values()`
abbrev pub values {ℓ κ} : {K : Type ℓ} {V : Type κ} → Dict K V → List V
values = map λ p. p.1

-- `d.keys()`
abbrev pub keys {ℓ κ} : {K : Type ℓ} {V : Type κ} → Dict K V → List K
keys = map λ p. p.0

-- `x in xs`
module _ {ℓ} {A : Type ℓ} ⦃e : Eq A⦄ where
  unfoldable pub contains : A → List A → Bool
  contains a [] = false
  contains a (x ∷ xs) = x == a || contains a xs
