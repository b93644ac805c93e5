-- ===== src/Paper/Ledger.antt =====
-- The accounts of the paper broker as a function of its fills: cash and positions are what one gets
-- by booking the list of fills from the starting cash, marks of the last price aside.
use shiny_umbrella.Base.{
  eqb_ℤ, pos, ◌||◌, ℕ, ◌≡◌, refl, sym, ap, ◌∙◌, inl, inr, Bool, true, false, Option, none, some,
  List, [], ◌∷◌, ◌++◌, map, Text, Dict, lookup, insert, nat_eq, list_eq, pair_eq, ◌==◌, Bool-cases,
  arith, if◌then◌else◌, Result, ok, err, or_else,
}
use mathlib.Core.Option
use shiny_umbrella.Float.Arith.{Arith, ◌⊖◌, ◌⊗◌, of_ℕ}
use shiny_umbrella.Types.Enums.{Side, product_eq, is_future, signed}
use shiny_umbrella.Types.Orders.{Order, Fill, Position, total}
use shiny_umbrella.Symbols.Parse.{ParsedSymbol, parse_symbol}
use shiny_umbrella.Paper.State.{Paper, PaperConfig, Key, new_paper}
use shiny_umbrella.Paper.Positions.{flat, extend, reduce, same_sign, apply_fill_to_position}
use shiny_umbrella.Paper.Matching.{book_fill, cash_move, fill_position, mark_position}
use shiny_umbrella.Paper.Steps.{Step, Run, Trade, here, next, notes, admits, changes, trades, marks}
use shiny_umbrella.Paper.Sessions.{Call, history, history-Run}

abbrev pub Accounts : Type 0 → Type 0
Accounts F = Dict Key (Position F) × F

module _ {F : Type 0} where
  -- A position without its mark
  abbrev pub unmark : Position F → Position F
  unmark p = record p { last_price = none }

  abbrev unmark_entry : Key × Position F → Key × Position F
  unmark_entry (k, p) = (k, unmark p)

  abbrev pub unmarked : Dict Key (Position F) → Dict Key (Position F)
  unmarked = map unmark_entry

  unmarked-unmarked : (d : Dict Key (Position F)) → unmarked (unmarked d) ≡ unmarked d
  unmarked-unmarked [] = refl
  unmarked-unmarked ((k, p) ∷ d) = ap (λ r. (k, unmark p) ∷ r) (unmarked-unmarked d)

  lookup-unmarked :
      (k : Key) (d : Dict Key (Position F)) → lookup k (unmarked d) ≡ Option.map unmark (lookup k d)
  unfolding lookup
  lookup-unmarked k [] = refl
  lookup-unmarked k ((j, p) ∷ d) = ground (arith, lookup-unmarked k d)

  insert-unmarked :
      (k : Key) (p : Position F) (d : Dict Key (Position F))
      → unmarked (insert k p d) ≡ insert k (unmark p) (unmarked d)
  unfolding insert
  insert-unmarked k p [] = refl
  insert-unmarked k p ((j, q) ∷ d) = ground (arith, insert-unmarked k p d)

kind_is_future : {F : Type 0} → Result (ParsedSymbol F) → Bool
kind_is_future (ok p) = is_future p.kind
kind_is_future (err x) = false

module _ {F : Type 0} ⦃fl : Arith F⦄ where
  mark-unmarked :
      (symbol : Text) (price : F) (d : Dict Key (Position F))
      → unmarked (map (mark_position symbol price) d) ≡ unmarked d
  mark-unmarked symbol price [] = refl
  mark-unmarked symbol price ((j, q) ∷ d) = elim (Bool-cases (j.0 == symbol)) [
    | inl hit ↦ rw (hit, mark-unmarked symbol price d) refl
    | inr miss ↦ rw (miss, mark-unmarked symbol price d) refl
  ]

  replay_by : Bool → Fill F → Accounts F → Accounts F
  replay_by is_fut f acc =
      let (positions, cash) = book_fill is_fut f acc in (unmarked positions, cash)

  -- One fill booked on accounts without marks
  replay : Fill F → Accounts F → Accounts F
  unfolding kind_is_future replay_by
  replay f acc = replay_by (kind_is_future (parse_symbol {F = F} f.symbol)) f acc

  -- The accounts by a list of fills, oldest first
  pub ledger : List (Fill F) → Accounts F → Accounts F
  unfolding replay
  ledger [] acc = acc
  ledger (f ∷ fs) acc = ledger fs (replay f acc)

  ledger-snoc :
      (fs : List (Fill F)) (f : Fill F) (acc : Accounts F)
      → ledger (fs ++ f ∷ []) acc ≡ replay f (ledger fs acc)
  unfolding ledger
  ledger-snoc [] f acc = refl
  ledger-snoc (g ∷ fs) f acc = ledger-snoc fs f (replay g acc)

  unmark_first : Position F × F → Position F × F
  unmark_first (p, x) = (unmark p, x)

  unmark_first-if :
      (b : Bool) (x y : Position F × F)
      → unmark_first (if b then x else y) ≡ (if b then unmark_first x else unmark_first y)
  unfolding unmark_first
  unmark_first-if true x y = refl
  unmark_first-if false x y = refl

  apply_fill_to_position-unmark :
      (p : Position F) (side : Side) (qty : ℕ) (price : F)
      → apply_fill_to_position (unmark p) side qty price
        ≡ unmark_first (apply_fill_to_position p side qty price)
  unfolding apply_fill_to_position unmark_first extend reduce
  apply_fill_to_position-unmark p side qty price =
      let change = signed side qty in
      sym (
        unmark_first-if (eqb_ℤ p.qty (pos 0) || same_sign p.qty change) (extend p change qty price)
          (reduce p change qty price))

  fill_position-unmark :
      (p : Position F) (f : Fill F) → fill_position (unmark p) f ≡ fill_position p f
  unfolding fill_position unmark_first
  fill_position-unmark p f = rw (apply_fill_to_position-unmark p f.side f.qty f.price) refl

  position_unmarked :
      (k : Key) (d : Dict Key (Position F)) (p : Position F)
      → p ≡ unmark p
      → or_else (lookup k (unmarked d)) p ≡ unmark (or_else (lookup k d) p)
  position_unmarked k d p e = rw (lookup-unmarked k d) (by (lookup k d))
    where
      by : (r : Option (Position F)) → or_else (Option.map unmark r) p ≡ unmark (or_else r p)
      by none = e
      by (some q) = refl

  booked : Bool → Fill F → F → Position F × F → Dict Key (Position F) → Accounts F
  booked b f cash x d = (
    unmarked (insert (f.symbol, f.product) x.0 d),
    cash_move b cash x.1 f.side (of_ℕ f.qty ⊗ f.price ⊗ f.multiplier) ⊖ total f.fees,
  )

  booked-unmarked :
      (b : Bool) (f : Fill F) (cash : F) (x : Position F × F) (d : Dict Key (Position F))
      → booked b f cash x (unmarked d) ≡ booked b f cash x d
  unfolding booked
  booked-unmarked b f cash x d =
      let key : Key = (f.symbol, f.product) in
      let entries : unmarked (insert key x.0 (unmarked d)) ≡ unmarked (insert key x.0 d) =
        insert-unmarked key x.0 (unmarked d)
        ∙ ap (insert key (unmark x.0)) (unmarked-unmarked d)
        ∙ sym (insert-unmarked key x.0 d) in
      rw entries refl

  book_fill-unmarked :
      (b : Bool) (f : Fill F) (d : Dict Key (Position F)) (cash : F)
      → replay_by b f (unmarked d, cash) ≡ replay_by b f (d, cash)
  unfolding book_fill replay_by booked
  book_fill-unmarked b f d cash =
      let key : Key = (f.symbol, f.product) in
      let start : Position F = flat f.symbol f.product f.multiplier in
      let same : fill_position (or_else (lookup key (unmarked d)) start) f
          ≡ fill_position (or_else (lookup key d) start) f =
        ap (λ p. fill_position p f) (position_unmarked key d start refl)
        ∙ fill_position-unmark (or_else (lookup key d) start) f in
      ap (λ x. booked b f cash x (unmarked d)) same
      ∙ booked-unmarked b f cash (fill_position (or_else (lookup key d) start) f) d

  -- The accounts agree with the fills.
  abbrev pub Booked : Paper F → Type 0
  Booked s = ledger s.fills ([], s.cfg.starting_cash) ≡ (unmarked s.positions, s.cash)

  trades-Booked :
      (s : Paper F) (o : Order F) (f : Fill F) (t : Trade s o f)
      → Booked s
      → ledger (s.fills ++ f ∷ []) ([], s.cfg.starting_cash)
        ≡ replay_by (is_future t.parsed.kind) f (s.positions, s.cash)
  unfolding replay kind_is_future
  trades-Booked s o f t h =
      let kind : kind_is_future (parse_symbol {F = F} f.symbol) ≡ is_future t.parsed.kind =
        ap kind_is_future (ap parse_symbol t.same_symbol ∙ t.parses) in
      ledger-snoc s.fills f ([], s.cfg.starting_cash)
      ∙ ap (replay f) h
      ∙ ap (λ b. replay_by b f (unmarked s.positions, s.cash)) kind
      ∙ book_fill-unmarked (is_future t.parsed.kind) f s.positions s.cash

  Step-Booked : {edits : Bool} {s t : Paper F} → Booked s → Step edits s t → Booked t
  unfolding replay_by
  Step-Booked h (notes s j e n) = h
  Step-Booked h (admits s o new zero_ status) = h
  Step-Booked h (changes s o o' found w c) = h
  Step-Booked h (trades s o f found w t) = trades-Booked s o f t h
  Step-Booked h (marks s symbol price) =
      h ∙ ap (λ d. (d, s.cash)) (sym (mark-unmarked symbol price s.positions))

  Run-Booked : {edits : Bool} {s t : Paper F} → Booked s → Run edits s t → Booked t
  Run-Booked h here = h
  Run-Booked h (next r step) = Step-Booked (Run-Booked h r) step

  -- After any history of calls of a new broker, booking the broker's list of fills, oldest first,
  -- from the starting cash gives its cash, and its positions but for their last prices.
  pub history_booked :
      (cfg : PaperConfig F) (cs : List (Call F))
      → let s = history cs (new_paper cfg) in
        ledger s.fills ([], s.cfg.starting_cash) ≡ (unmarked s.positions, s.cash)
  unfolding ledger
  history_booked cfg cs = Run-Booked {s = new_paper cfg} refl (history-Run cs (new_paper cfg) tt)
