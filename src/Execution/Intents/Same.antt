-- ===== src/Execution/Intents/Same.antt =====
-- What `==` of order intents decides: that they are the same field by field.
use shiny_umbrella.Base.{
  ◌≡◌, refl, ◌↔◌, Bool, true, false, ◌&&◌, Option, none, some, List, [], ◌∷◌, Text, Dict, keys,
  lookup, contains, nat_eq, list_eq, list_beq_iff, ◌==◌, =ℕ_iff, arith, Bool-cases, inl, inr,
}
use mathlib.Core.Path.{subst}
use shiny_umbrella.Float.Arith.{Arith, ◌≼◌}
use shiny_umbrella.Types.Enums.{Side, product_beq, product_beq_iff, Urgency}
use shiny_umbrella.Types.Intents.{
  OrderIntent, MetaValue, text_value, number_value, flag_value, null,
}
use shiny_umbrella.Execution.Intents.{
  bool_beq, side_beq, urgency_beq, opt_beq, text_beq, float_beq, flag_number, value_beq, agree_at,
  agree, meta_beq, intent_beq,
}

bool_beq_iff : (a b : Bool) → (bool_beq a b ≡ true) ↔ (a ≡ b)
bool_beq_iff a b = ground arith

side_beq_iff : (a b : Side) → (side_beq a b ≡ true) ↔ (a ≡ b)
side_beq_iff a b = ground arith

urgency_beq_iff : (a b : Urgency) → (urgency_beq a b ≡ true) ↔ (a ≡ b)
urgency_beq_iff a b = ground arith

-- What decides two statements decides both of them.
both {ℓ κ} :
    {P : Type ℓ} {Q : Type κ} (a b : Bool)
    → (a ≡ true) ↔ P
    → (b ≡ true) ↔ Q
    → ((a && b) ≡ true) ↔ (P × Q)
both true b (to, from) (to', from') = (λ h. (to refl, to' h), λ h. from' h.1)
both false b (to, from) (to', from') = (λ h. absurd (ground (arith, h)), λ h. from h.0)

abbrev Alike {ℓ} : {A : Type ℓ} → (A → A → Type 0) → Option A → Option A → Type 0
Alike R none none = Unit
Alike R (some x) (some y) = R x y
Alike R _ _ = ⊥

opt_beq_iff {ℓ} :
    {A : Type ℓ} (test : A → A → Bool) (R : A → A → Type 0)
    → ((x y : A) → (test x y ≡ true) ↔ R x y)
    → (o p : Option A) → (opt_beq test o p ≡ true) ↔ Alike R o p
opt_beq_iff test R iff none none = (λ h. tt, λ h. refl)
opt_beq_iff test R iff (some x) (some y) = iff x y
opt_beq_iff test R iff none (some y) = (λ h. absurd (ground (arith, h)), λ h. absurd h)
opt_beq_iff test R iff (some x) none = (λ h. absurd (ground (arith, h)), λ h. absurd h)

abbrev SameText : Text → Text → Type 0
SameText a b = a ≡ b

differ : {b : Bool} → b ≡ false → (b ≡ true) ↔ ⊥
differ e = (λ h. ground (arith, e, h), λ h. absurd h)

-- Each of the tests of a conjunction that holds is true.
all_true :
    (a b c d e f g h i j k l m n o p q : Bool)
    → (a && b && c && d && e && f && g && h && i && j && k && l && m && n && o && p && q) ≡ true
    → (a ≡ true)
      × (b ≡ true)
      × (c ≡ true)
      × (d ≡ true)
      × (e ≡ true)
      × (f ≡ true)
      × (g ≡ true)
      × (h ≡ true)
      × (i ≡ true)
      × (j ≡ true)
      × (k ≡ true)
      × (l ≡ true)
      × (m ≡ true)
      × (n ≡ true)
      × (o ≡ true)
      × (p ≡ true)
      × (q ≡ true)
all_true a b c d e f g h i j k l m n o p q all = ground arith

module _ {F : Type 0} ⦃fl : Arith F⦄ where
  -- Neither float is above the other.
  abbrev SameFloat : F → F → Type 0
  SameFloat x y = ((x ≼ y) ≡ true) × ((y ≼ x) ≡ true)

  float_beq_iff : (x y : F) → (float_beq x y ≡ true) ↔ SameFloat x y
  float_beq_iff x y = both (x ≼ y) (y ≼ x) (λ h. h, λ h. h) (λ h. h, λ h. h)

  abbrev SameValue : MetaValue F → MetaValue F → Type 0
  SameValue (text_value a) (text_value b) = a ≡ b
  SameValue (number_value x) (number_value y) = SameFloat x y
  SameValue (flag_value a) (flag_value b) = a ≡ b
  SameValue (flag_value a) (number_value y) = SameFloat (flag_number a) y
  SameValue (number_value x) (flag_value b) = SameFloat x (flag_number b)
  SameValue null null = Unit
  SameValue _ _ = ⊥

  value_beq_iff : (v w : MetaValue F) → (value_beq v w ≡ true) ↔ SameValue v w
  value_beq_iff (text_value a) (text_value b) = list_beq_iff a b
  value_beq_iff (number_value x) (number_value y) = float_beq_iff x y
  value_beq_iff (flag_value a) (flag_value b) = bool_beq_iff a b
  value_beq_iff (flag_value a) (number_value y) = float_beq_iff (flag_number a) y
  value_beq_iff (number_value x) (flag_value b) = float_beq_iff x (flag_number b)
  value_beq_iff null null = (λ h. tt, λ h. refl)
  value_beq_iff (text_value a) (number_value y) = differ refl
  value_beq_iff (text_value a) (flag_value b) = differ refl
  value_beq_iff (text_value a) null = differ refl
  value_beq_iff (number_value x) (text_value b) = differ refl
  value_beq_iff (number_value x) null = differ refl
  value_beq_iff (flag_value a) (text_value b) = differ refl
  value_beq_iff (flag_value a) null = differ refl
  value_beq_iff null (text_value b) = differ refl
  value_beq_iff null (number_value y) = differ refl
  value_beq_iff null (flag_value b) = differ refl

  -- The dicts have the same keys, with equal values under each.
  abbrev SameMeta : Dict Text (MetaValue F) → Dict Text (MetaValue F) → Type 0
  SameMeta d e = (k : Text) → Alike SameValue (lookup k d) (lookup k e)

  agree-at :
      (d e : Dict Text (MetaValue F)) (ks : List Text) (k : Text)
      → agree d e ks ≡ true
      → contains k ks ≡ true
      → agree_at d e k ≡ true
  unfolding contains
  agree-at d e [] k h c = absurd (ground (arith, c))
  agree-at d e (x ∷ ks) k h c =
      let (first, rest) =
        (both (agree_at d e x) (agree d e ks) (λ t. t, λ t. t) (λ t. t, λ t. t)).0 h in
      elim (Bool-cases (x == k)) [
        | inl hit ↦ subst (λ y. agree_at d e y ≡ true) ((list_beq_iff x k).0 hit) first
        | inr miss ↦ agree-at d e ks k rest (rw miss at c)
      ]

  -- Under a key that is not among the keys there is no value.
  absent :
      (d : Dict Text (MetaValue F)) (k : Text) → contains k (keys d) ≡ false → lookup k d ≡ none
  unfolding contains lookup
  absent [] k h = refl
  absent ((j, v) ∷ d) k h = elim (Bool-cases (j == k)) [
    | inl hit ↦ absurd (ground (arith, rw hit at h))
    | inr miss ↦ rw miss (absent d k (rw miss at h))
  ]

  agree-all :
      (d e : Dict Text (MetaValue F))
      → ((k : Text) → agree_at d e k ≡ true)
      → (ks : List Text) → agree d e ks ≡ true
  agree-all d e h [] = refl
  agree-all d e h (k ∷ ks) = rw (h k, agree-all d e h ks) refl

  meta_beq_iff : (d e : Dict Text (MetaValue F)) → (meta_beq d e ≡ true) ↔ SameMeta d e
  meta_beq_iff d e = (
    λ h k.
        let (left, right) =
          (both (agree d e (keys d)) (agree d e (keys e)) (λ t. t, λ t. t) (λ t. t, λ t. t)).0 h in
        (opt_beq_iff value_beq SameValue value_beq_iff (lookup k d) (lookup k e)).0
          (elim (Bool-cases (contains k (keys d))) [
            | inl here_ ↦ agree-at d e (keys d) k left here_
            | inr gone ↦ elim (Bool-cases (contains k (keys e))) [
              | inl there ↦ agree-at d e (keys e) k right there
              | inr gone' ↦ rw (absent d k gone, absent e k gone') refl
            ]
          ]),
    λ same.
        let at : (k : Text) → agree_at d e k ≡ true = λ k.
          (opt_beq_iff value_beq SameValue value_beq_iff (lookup k d) (lookup k e)).1 (same k) in
        rw (agree-all d e at (keys d), agree-all d e at (keys e)) refl,
  )

  -- Two intents that are the same in every field, floats up to the order between them, and `meta`
  -- up to the order of its keys
  pub record SameIntent (i j : OrderIntent F) : Type 0 where
    pub same_id : i.id ≡ j.id
    pub same_ts : i.ts ≡ j.ts
    pub same_strategy_id : i.strategy_id ≡ j.strategy_id
    pub same_symbol : i.symbol ≡ j.symbol
    pub same_side : i.side ≡ j.side
    pub same_qty : i.qty ≡ j.qty
    pub same_product : i.product ≡ j.product
    pub same_urgency : i.urgency ≡ j.urgency
    pub same_reference_price : SameFloat i.reference_price j.reference_price
    pub same_limit_band_bps : SameFloat i.limit_band_bps j.limit_band_bps
    pub same_ttl_seconds : i.ttl_seconds ≡ j.ttl_seconds
    pub same_expected_edge_bps : SameFloat i.expected_edge_bps j.expected_edge_bps
    pub same_prob : Alike SameFloat i.prob j.prob
    pub same_payoff_ratio : Alike SameFloat i.payoff_ratio j.payoff_ratio
    pub same_model_version : Alike SameText i.model_version j.model_version
    pub same_signal_id : Alike SameText i.signal_id j.signal_id
    pub same_meta : SameMeta i.meta j.meta

  pub intent_beq_iff : (i j : OrderIntent F) → (intent_beq i j ≡ true) ↔ SameIntent i j
  unfolding intent_beq
  intent_beq_iff i j =
      let floats = opt_beq_iff float_beq SameFloat float_beq_iff in
      let texts = opt_beq_iff text_beq SameText list_beq_iff in
      (
        λ h.
            let (
              e_id, e_ts, e_strategy_id, e_symbol, e_side, e_qty, e_product, e_urgency,
              e_reference_price, e_limit_band_bps, e_ttl_seconds, e_expected_edge_bps, e_prob,
              e_payoff_ratio, e_model_version, e_signal_id, e_meta,
            ) =
              all_true (i.id == j.id) (i.ts == j.ts) (i.strategy_id == j.strategy_id)
                (i.symbol == j.symbol) (side_beq i.side j.side) (i.qty == j.qty)
                (product_beq i.product j.product) (urgency_beq i.urgency j.urgency)
                (float_beq i.reference_price j.reference_price)
                (float_beq i.limit_band_bps j.limit_band_bps) (i.ttl_seconds == j.ttl_seconds)
                (float_beq i.expected_edge_bps j.expected_edge_bps)
                (opt_beq float_beq i.prob j.prob) (opt_beq float_beq i.payoff_ratio j.payoff_ratio)
                (opt_beq text_beq i.model_version j.model_version)
                (opt_beq text_beq i.signal_id j.signal_id) (meta_beq i.meta j.meta) h in
            record {
              same_id = (list_beq_iff i.id j.id).0 e_id;
              same_ts = (=ℕ_iff i.ts j.ts).0 e_ts;
              same_strategy_id = (list_beq_iff i.strategy_id j.strategy_id).0 e_strategy_id;
              same_symbol = (list_beq_iff i.symbol j.symbol).0 e_symbol;
              same_side = (side_beq_iff i.side j.side).0 e_side;
              same_qty = (=ℕ_iff i.qty j.qty).0 e_qty;
              same_product = (product_beq_iff i.product j.product).0 e_product;
              same_urgency = (urgency_beq_iff i.urgency j.urgency).0 e_urgency;
              same_reference_price =
                  (float_beq_iff i.reference_price j.reference_price).0 e_reference_price;
              same_limit_band_bps =
                  (float_beq_iff i.limit_band_bps j.limit_band_bps).0 e_limit_band_bps;
              same_ttl_seconds = (=ℕ_iff i.ttl_seconds j.ttl_seconds).0 e_ttl_seconds;
              same_expected_edge_bps =
                  (float_beq_iff i.expected_edge_bps j.expected_edge_bps).0 e_expected_edge_bps;
              same_prob = (floats i.prob j.prob).0 e_prob;
              same_payoff_ratio = (floats i.payoff_ratio j.payoff_ratio).0 e_payoff_ratio;
              same_model_version = (texts i.model_version j.model_version).0 e_model_version;
              same_signal_id = (texts i.signal_id j.signal_id).0 e_signal_id;
              same_meta = (meta_beq_iff i.meta j.meta).0 e_meta;
            },
        λ r.
            rw
              (
                (list_beq_iff i.id j.id).1 r.same_id,
                (=ℕ_iff i.ts j.ts).1 r.same_ts,
                (list_beq_iff i.strategy_id j.strategy_id).1 r.same_strategy_id,
                (list_beq_iff i.symbol j.symbol).1 r.same_symbol,
                (side_beq_iff i.side j.side).1 r.same_side,
                (=ℕ_iff i.qty j.qty).1 r.same_qty,
                (product_beq_iff i.product j.product).1 r.same_product,
                (urgency_beq_iff i.urgency j.urgency).1 r.same_urgency,
                (float_beq_iff i.reference_price j.reference_price).1 r.same_reference_price,
                (float_beq_iff i.limit_band_bps j.limit_band_bps).1 r.same_limit_band_bps,
                (=ℕ_iff i.ttl_seconds j.ttl_seconds).1 r.same_ttl_seconds,
                (float_beq_iff i.expected_edge_bps j.expected_edge_bps).1 r.same_expected_edge_bps,
                (floats i.prob j.prob).1 r.same_prob,
                (floats i.payoff_ratio j.payoff_ratio).1 r.same_payoff_ratio,
                (texts i.model_version j.model_version).1 r.same_model_version,
                (texts i.signal_id j.signal_id).1 r.same_signal_id,
                (meta_beq_iff i.meta j.meta).1 r.same_meta,
              )
              refl,
      )
