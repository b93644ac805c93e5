-- ===== src/Paper/Steps/Lifecycle.antt =====
-- What every step of the paper broker keeps: the book of orders is consistent, an order that has
-- ended stays as it is, and fills are only added.
use shiny_umbrella.Base.{
  Bool, ℕ, ◌≤◌, ◌<◌, ◌≡◌, refl, sym, ap, ◌∙◌, inl, inr, true, none, some, List, [], ◌∷◌, ◌++◌, Text,
  Dict, lookup, insert, lookup-insert, lookup-All, insert-All, All, nat_eq, list_eq, list_beq_iff,
  arith, Bool-cases, ◌==◌,
}
use mathlib.Core.Path.{subst}
use mathlib.Core.List.{append-nil, append_assoc}
use shiny_umbrella.Float.Arith.{Arith}
use shiny_umbrella.Types.Enums.{
  OrderStatus, trigger_pending, open_, partial, filled, is_working, is_terminal,
}
use shiny_umbrella.Types.Orders.{Order, Fill, remaining_qty}
use shiny_umbrella.Paper.State.{Paper}
use shiny_umbrella.Paper.Matching.{filled_order, rejected_order, triggered_order}
use shiny_umbrella.Paper.Steps.{
  Change, rejects, triggers, cancels, tags, reprices, resizes, Step, notes, admits, changes, trades,
  marks, Run, here, next,
}

module _ {F : Type 0} where
  -- An entry of the book: the order stands under its id, no more than its quantity is filled, and
  -- its status says how much.
  pub record EntryOk (k : Text) (o : Order F) : Type 0 where
    pub keyed : o.id ≡ k
    pub fits : o.filled_qty ≤ o.qty
    pub whole : o.status ≡ filled → o.filled_qty ≡ o.qty
    pub untouched_open : o.status ≡ open_ → o.filled_qty ≡ 0
    pub untouched_stop : o.status ≡ trigger_pending → o.filled_qty ≡ 0
    pub partly : o.status ≡ partial → 0 < o.filled_qty

  abbrev pub IsBook : Paper F → Type 0
  IsBook s = All (λ e. EntryOk e.0 e.1) s.orders

  -- An order of the first state that has ended is the same in the second.
  abbrev pub KeepsEnded : Paper F → Paper F → Type 0
  KeepsEnded s t =
      (id : Text) (o : Order F)
      → lookup id s.orders ≡ some o
      → is_terminal o.status ≡ true
      → lookup id t.orders ≡ some o

pub working_not_ended : (x : OrderStatus) → is_working x ≡ true → is_terminal x ≡ true → ⊥
working_not_ended x w e = ground arith

module _ {F : Type 0} ⦃fl : Arith F⦄ where
  Change-EntryOk :
      {edits : Bool} {o o' : Order F} (k : Text)
      → is_working o.status ≡ true
      → EntryOk k o
      → Change edits o o'
      → EntryOk k o'
  unfolding rejected_order triggered_order
  Change-EntryOk k w e (rejects p ts) = ground arith
  Change-EntryOk k w e (triggers ts h) = ground arith
  Change-EntryOk k w e (cancels ts) = ground arith
  Change-EntryOk k w e (tags b) = ground arith
  Change-EntryOk k w e (reprices p q m) = ground arith
  Change-EntryOk k w e (resizes q ty ts h m) = ground arith

  filled_order-EntryOk :
      (k : Text) (o : Order F) (qty : ℕ) (price : F) (ts : ℕ)
      → 0 < qty
      → qty ≤ remaining_qty o
      → EntryOk k o
      → EntryOk k (filled_order o qty price ts)
  unfolding filled_order
  filled_order-EntryOk k o qty price ts p h e = ground arith

  -- Every step keeps the book consistent.
  pub Step-IsBook : {edits : Bool} {s t : Paper F} → IsBook s → Step edits s t → IsBook t
  Step-IsBook b (notes s j e n) = b
  Step-IsBook b (admits s o new zero_ status) = insert-All EntryOk o.id o s.orders (ground arith) b
  Step-IsBook b (changes s o o' found w c) =
      insert-All EntryOk o.id o' s.orders
        (Change-EntryOk o.id w (lookup-All EntryOk o.id s.orders b found) c) b
  Step-IsBook b (trades s o f found w t) =
      insert-All EntryOk o.id (filled_order o f.qty f.price f.ts) s.orders
        (filled_order-EntryOk o.id o f.qty f.price f.ts t.some_qty t.fits
          (lookup-All EntryOk o.id s.orders b found))
        b
  Step-IsBook b (marks s sym_ price) = b

  pub Run-IsBook : {edits : Bool} {s t : Paper F} → IsBook s → Run edits s t → IsBook t
  Run-IsBook b here = b
  Run-IsBook b (next r step) = Step-IsBook (Run-IsBook b r) step

  elsewhere :
      (k id : Text) (v x : Order F) (d : Dict Text (Order F))
      → (k ≡ id → ⊥)
      → lookup id d ≡ some x
      → lookup id (insert k v d) ≡ some x
  elsewhere k id v x d apart h = elim (Bool-cases (k == id)) [
    | inr other ↦ rw (lookup-insert k id v d, other) h
    | inl same ↦ absurd (apart ((list_beq_iff k id).0 same))
  ]

  -- A write to a working order leaves the ended ones alone.
  write_working :
      (s : Paper F) (o o' : Order F)
      → lookup o.id s.orders ≡ some o
      → is_working o.status ≡ true
      → KeepsEnded s (record s { orders = insert o.id o' s.orders })
  write_working s o o' found w id x h ended =
      elsewhere o.id id o' x s.orders
        (λ same.
          let both : some x ≡ some o = sym h ∙ ap (λ k. lookup k s.orders) (sym same) ∙ found in
          let one : x ≡ o = ground arith in
          working_not_ended o.status w (subst (λ y. is_terminal y.status ≡ true) one ended))
        h

  pub Step-KeepsEnded : {edits : Bool} {s t : Paper F} → Step edits s t → KeepsEnded s t
  Step-KeepsEnded (notes s j e n) id x h ended = h
  Step-KeepsEnded (admits s o new zero_ status) id x h ended =
      elsewhere o.id id o x s.orders
        (λ same.
          let both : some x ≡ none = sym h ∙ ap (λ k. lookup k s.orders) (sym same) ∙ new in cc)
        h
  Step-KeepsEnded (changes s o o' found w c) id x h ended =
      write_working s o o' found w id x h ended
  Step-KeepsEnded (trades s o f found w t) id x h ended =
      write_working s o (filled_order o f.qty f.price f.ts) found w id x h ended
  Step-KeepsEnded (marks s sym_ price) id x h ended = h

  pub Run-KeepsEnded : {edits : Bool} {s t : Paper F} → Run edits s t → KeepsEnded s t
  Run-KeepsEnded here id x h ended = h
  Run-KeepsEnded (next r step) id x h ended =
      Step-KeepsEnded step id x (Run-KeepsEnded r id x h ended) ended

  abbrev pub AddsFills : Paper F → Paper F → Type 0
  AddsFills s t = (more : List (Fill F)) × (t.fills ≡ s.fills ++ more)

  Step-AddsFills : {edits : Bool} {s t : Paper F} → Step edits s t → AddsFills s t
  Step-AddsFills (notes s j e n) = ([], sym (append-nil s.fills))
  Step-AddsFills (admits s o new zero_ status) = ([], sym (append-nil s.fills))
  Step-AddsFills (changes s o o' found w c) = ([], sym (append-nil s.fills))
  Step-AddsFills (trades s o f found w t) = (f ∷ [], refl)
  Step-AddsFills (marks s sym_ price) = ([], sym (append-nil s.fills))

  pub Run-AddsFills : {edits : Bool} {s t : Paper F} → Run edits s t → AddsFills s t
  Run-AddsFills {s} here = ([], sym (append-nil s.fills))
  Run-AddsFills {s} (next r step) =
      let (xs, e) = Run-AddsFills r in
      let (ys, e') = Step-AddsFills step in
      (xs ++ ys, e' ∙ ap (λ l. l ++ ys) e ∙ append_assoc s.fills xs ys)
