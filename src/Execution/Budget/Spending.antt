-- ===== src/Execution/Budget/Spending.antt =====
-- No more is sent for an approval than it approved, over whole histories.
use shiny_umbrella.Base.{
  ℕ, ◌+◌, ◌≤◌, ◌≡◌, ◌≢◌, refl, sym, ap, ◌∙◌, inl, inr, true, false, Bool, ◌||◌, none, some, List,
  [], ◌∷◌, All, Text, Dict, lookup, insert, lookup-insert, lookup-insert_self, contains, nat_eq,
  list_eq, list_beq_iff, ◌==◌, or_else, sum, arith, Bool-cases,
}
use mathlib.Core.Path.{subst}
use shiny_umbrella.Float.Arith.{Arith}
use shiny_umbrella.Types.Intents.{RiskApproval}
use shiny_umbrella.Clock.Dates.{Timestamp}
use shiny_umbrella.Execution.State.{Router, ExecutionPlan, Sent, Exec}
use shiny_umbrella.Execution.Placing.{new_plan}
use shiny_umbrella.Execution.Handlers.{
  Event, intent, approval, tick, bar, command, order_report, fill_report, timer, reconnect,
  broker_moves, shared_orders, handle_all,
}
use shiny_umbrella.Execution.Steps.{
  placed_more, Step, writes, stops, kills, amends, skips, places, accepts, starts,
}
use shiny_umbrella.Execution.Steps.Histories.{Allowed, handle_all-Keeps}
use shiny_umbrella.Execution.Budget.{
  sum_from-zero, sum_from-suc, sent_under, left_of, Within, Budgeted, IsBudgeted, sent_under-le,
  sent_under-stop, sent_under-other, lookup-insert_cases,
}

apart : (k j : Text) → (k == j) ≡ false → k ≢ j
apart k j h e = let hit : (k == j) ≡ true = (list_beq_iff k j).1 e in cc

apart_false : (k j : Text) → k ≢ j → (k == j) ≡ false
apart_false k j n = elim (Bool-cases (k == j)) [
  | inl hit ↦ absurd (n ((list_beq_iff k j).0 hit))
  | inr miss ↦ miss
]

module _ {F : Type 0} where
  -- A plan found after a plan was replaced by one of the same token: it had a plan of its token there.
  found_before :
      (plans : Dict Text (ExecutionPlan F)) (key : Text) (p q : ExecutionPlan F) (k : Text)
      (r : ExecutionPlan F)
      → lookup key plans ≡ some p
      → q.approval.token ≡ p.approval.token
      → lookup k (insert key q plans) ≡ some r
      → (o : ExecutionPlan F) × (lookup k plans ≡ some o) × (o.approval.token ≡ r.approval.token)
  found_before plans key p q k r found same h = elim (lookup-insert_cases key k q plans h) [
    | inl e ↦ (
      p,
      subst (λ j. lookup j plans ≡ some p) e.0 found,
      sym same ∙ ap (λ x. x.approval.token) e.1,
    )
    | inr o ↦ (r, o.1, refl)
  ]

module _ {F : Type 0} {used : List Text} {accepted : Dict Text ℕ} {sent : List (Sent F)}
    {plans : Dict Text (ExecutionPlan F)} where
  -- A plan is replaced by one of the same token, and the orders sent grow by no more than what it
  -- gives up, under its token alone.
  replaced :
      (sent' : List (Sent F)) (key : Text) (p q : ExecutionPlan F)
      → Budgeted used accepted sent plans
      → lookup key plans ≡ some p
      → q.approval.token ≡ p.approval.token
      → sent_under p.approval.token sent' + left_of q ≤ sent_under p.approval.token sent + left_of p
      → ((token : Text)
          → (p.approval.token == token) ≡ false
          → sent_under token sent' ≡ sent_under token sent)
      → Budgeted used accepted sent' (insert key q plans)
  replaced sent' key p q b found same less others = record {
    unused = b.unused;
    spent = λ token. elim (Bool-cases (p.approval.token == token)) [
      | inl hit ↦
          subst (λ t. sent_under t sent' ≤ or_else (lookup t accepted) 0)
            ((list_beq_iff p.approval.token token).0 hit) (rw w.under omega (arith, w.fits, less))
      | inr miss ↦ rw (others token miss) (b.spent token)
    ];
    planned = λ k r h. elim (lookup-insert_cases key k q plans h) [
      | inl e ↦ subst (Within accepted sent') e.1 own
      | inr o ↦ other_plan k r o.0 o.1
    ];
    one_key = λ k j x y hk hj e.
        let (x', hx, ex) = found_before plans key p q k x found same hk in
        let (y', hy, ey) = found_before plans key p q j y found same hj in
        b.one_key k j x' y' hx hy (ex ∙ e ∙ sym ey);
  }
    where
      w : Within accepted sent p
      w = b.planned key p found

      own : Within accepted sent' q
      own = record {
        approved = w.approved;
        under = ap (λ t. lookup t accepted) same ∙ w.under;
        fits =
            let e : sent_under q.approval.token sent' ≡ sent_under p.approval.token sent' =
              ap (λ t. sent_under t sent') same in
            omega (arith, e, less, w.fits);
      }

      other_plan :
          (k : Text) (r : ExecutionPlan F)
          → (key == k) ≡ false
          → lookup k plans ≡ some r
          → Within accepted sent' r
      other_plan k r miss h =
          let v = b.planned k r h in
          let differs =
            apart_false p.approval.token r.approval.token
              (λ e. apart key k miss (b.one_key key k p r found h e)) in
          record {
            approved = v.approved;
            under = v.under;
            fits = let e = others r.approval.token differs in omega (arith, e, v.fits);
          }

  accepted_other :
      (a : RiskApproval F) (token : Text) {n : ℕ}
      → contains a.token used ≡ false
      → Budgeted used accepted sent plans
      → lookup token accepted ≡ some n
      → lookup token (insert a.token a.approved_qty accepted) ≡ some n
  accepted_other a token fresh b h =
      let free = b.unused a.token fresh in
      let differs =
        apart_false a.token token (λ e. by (subst (λ t. lookup t accepted ≡ none) e free)) in
      lookup-insert a.token token a.approved_qty accepted ∙ rw differs h
    where
      by : lookup token accepted ≡ none → ⊥
      by none_ = cc

  accepted_more :
      (a : RiskApproval F)
      → contains a.token used ≡ false
      → Budgeted used accepted sent plans
      → Budgeted (a.token ∷ used) (insert a.token a.approved_qty accepted) sent plans
  unfolding contains
  accepted_more a fresh b = record {
    unused = λ token h.
        let (differs, old) = both_false (a.token == token) (contains token used) h in
        lookup-insert a.token token a.approved_qty accepted ∙ rw differs (b.unused token old);
    spent = λ token.
        rw (lookup-insert a.token token a.approved_qty accepted)
          elim (Bool-cases (a.token == token)) [
            | inl hit ↦ rw hit omega (arith, b.spent token, nothing_under token hit)
            | inr miss ↦ rw miss (b.spent token)
          ];
    planned = λ k p h.
        let w = b.planned k p h in
        record {
          approved = w.approved;
          under = accepted_other a p.approval.token fresh b w.under;
          fits = w.fits;
        };
    one_key = b.one_key;
  }
    where
      both_false : (x y : Bool) → (x || y) ≡ false → (x ≡ false) × (y ≡ false)
      both_false x y h = ground arith

      nothing_under :
          (token : Text) → (a.token == token) ≡ true → or_else (lookup token accepted) 0 ≡ 0
      nothing_under token hit =
          let free = b.unused a.token fresh in
          let same = (list_beq_iff a.token token).0 hit in
          ap (λ o. or_else o 0) (subst (λ t. lookup t accepted ≡ none) same free)

  -- The new plan of an approval that was just accepted
  started :
      (a : RiskApproval F) (slices : List ℕ)
      → contains a.token used ≡ false
      → sum slices ≡ a.approved_qty
      → Budgeted used accepted sent plans
      → Budgeted
          (a.token ∷ used)
          (insert a.token a.approved_qty accepted)
          sent
          (insert a.intent.id (new_plan a slices) plans)
  started a slices fresh total b =
      let c = accepted_more a fresh b in
      record {
        unused = c.unused;
        spent = c.spent;
        planned = λ k p h. elim (lookup-insert_cases a.intent.id k (new_plan a slices) plans h) [
          | inl e ↦ subst (Within (insert a.token a.approved_qty accepted) sent) e.1 own
          | inr o ↦ c.planned k p o.1
        ];
        one_key = λ k j x y hk hj e.
            elim (lookup-insert_cases a.intent.id k (new_plan a slices) plans hk) [
              | inl ek ↦ elim (lookup-insert_cases a.intent.id j (new_plan a slices) plans hj) [
                | inl ej ↦ sym ek.0 ∙ ej.0
                | inr oj ↦ absurd (not_new j y oj.1 (ap (λ p. p.approval.token) ek.1 ∙ e))
              ]
              | inr ok_ ↦ elim (lookup-insert_cases a.intent.id j (new_plan a slices) plans hj) [
                | inl ej ↦ absurd (not_new k x ok_.1 (ap (λ p. p.approval.token) ej.1 ∙ sym e))
                | inr oj ↦ b.one_key k j x y ok_.1 oj.1 e
              ]
            ];
      }
    where
      own : Within (insert a.token a.approved_qty accepted) sent (new_plan a slices)
      own = record {
        approved = a.approved_qty;
        under = lookup-insert_self a.token a.approved_qty accepted;
        fits =
            let none_sent : sent_under a.token sent ≤ 0 =
              subst (λ o. sent_under a.token sent ≤ or_else o 0) (b.unused a.token fresh)
                (b.spent a.token) in
            omega (arith, none_sent, sum_from-zero slices, total);
      }

      not_new :
          (k : Text) (p : ExecutionPlan F)
          → lookup k plans ≡ some p
          → a.token ≡ p.approval.token
          → ⊥
      not_new k p h e =
          let w = b.planned k p h in
          let free = subst (λ t. lookup t accepted ≡ none) e (b.unused a.token fresh) in
          by w.approved w.under free
        where
          by :
              (n : ℕ)
              → lookup p.approval.token accepted ≡ some n
              → lookup p.approval.token accepted ≡ none
              → ⊥
          by n h k = cc

module _ {F B : Type 0} where
  Step-IsBudgeted : (s t : Exec F B) → Step s t → IsBudgeted s → IsBudgeted t
  Step-IsBudgeted s t (writes _ _ u) b = rw (u.used_tokens, u.accepted, u.sent, u.plans) b
  Step-IsBudgeted s t (stops _ m broker p) b = record {
    unused = b.unused;
    spent = λ token. rw (sent_under-stop token m s.sent p) (b.spent token);
    planned = λ k q h.
        let w = b.planned k q h in
        record {
          approved = w.approved;
          under = w.under;
          fits = rw (sent_under-stop q.approval.token m s.sent p) w.fits;
        };
    one_key = b.one_key;
  }
  Step-IsBudgeted s t (kills _) b = b
  Step-IsBudgeted s t (amends _ key p q e a) b =
      replaced s.sent key p q b e (ap (λ x. x.token) a.approval)
        (let same : left_of q ≡ left_of p = rw (a.placed, a.slices) refl in omega (arith, same))
        (λ token miss. refl)
  Step-IsBudgeted s t (skips _ key p qty due) b =
      replaced s.sent key p (placed_more p) b due.found refl
        (omega (arith, sum_from-suc p.placed p.slices due.slice)) (λ token miss. refl)
  Step-IsBudgeted s t (places _ key p qty m broker due same_token same_qty) b =
      replaced (m ∷ s.sent) key p (placed_more p) b due.found refl
        (omega (
          arith,
          sum_from-suc p.placed p.slices due.slice,
          sent_under-le p.approval.token m s.sent,
          same_qty,
        ))
        (λ token miss. sent_under-other token m s.sent (ap (λ k. k == token) same_token ∙ miss))
  Step-IsBudgeted s t (accepts _ a fresh) b = accepted_more a fresh b
  Step-IsBudgeted s t (starts _ a slices fresh total) b = started a slices fresh total b

  allowed : (e : Event F B) → Allowed IsBudgeted e
  allowed (command c) = λ e s b. b
  allowed (intent i) = tt
  allowed (approval a) = tt
  allowed (tick t) = tt
  allowed (bar b) = tt
  allowed (order_report t) = tt
  allowed (fill_report f) = tt
  allowed timer = tt
  allowed reconnect = tt
  allowed (broker_moves b) = tt
  allowed (shared_orders f) = tt

  All-allowed : (es : List (Timestamp × Event F B)) → All (λ e. Allowed IsBudgeted e.1) es
  All-allowed [] = tt
  All-allowed (e ∷ es) = (allowed e.1, All-allowed es)

module _ {F B : Type 0} ⦃fl : Arith F⦄ (router : Router F B) (tag_of : ℕ → Text) where
  -- If the books are in order, then so they are after whatever comes, in any order, and whatever the
  -- broker answers: the orders sent for an approval, other than protective stops, and the slices left
  -- of its plan never come to more than the quantity that was approved, and no two plans share a
  -- token.
  pub history-IsBudgeted :
      (s : Exec F B) (es : List (Timestamp × Event F B))
      → IsBudgeted s
      → IsBudgeted (handle_all router tag_of es s)
  history-IsBudgeted s es b =
      handle_all-Keeps router tag_of IsBudgeted Step-IsBudgeted es s (All-allowed es) b
