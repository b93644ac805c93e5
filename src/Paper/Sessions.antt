-- ===== src/Paper/Sessions.antt =====
-- Histories of the paper broker: any sequence of orders, modifications, cancellations, ticks and
-- bars, those that raise included.
use shiny_umbrella.Base.{
  ◌=ℕ◌, ltb, arith, ℕ, ◌≤◌, ◌≡◌, refl, Bool, true, some, List, [], ◌∷◌, Text, lookup, lookup-All,
  nat_eq, list_eq,
}
use shiny_umbrella.Float.Arith.{Arith}
use shiny_umbrella.Types.Enums.{
  is_terminal, OrderStatus, pending, trigger_pending, open_, partial, filled, cancelled, rejected,
}
use shiny_umbrella.Types.Market.{Tick, Bar}
use shiny_umbrella.Types.Orders.{Order, OrderRequest}
use shiny_umbrella.Paper.State.{Paper, PaperConfig, new_paper}
use shiny_umbrella.Paper.Matching.{on_tick, on_bar}
use shiny_umbrella.Paper.Matching.Events.{on_tick-Run, on_bar-Run}
use shiny_umbrella.Paper.Calls.{Changes, place_order, modify_order, cancel_order}
use shiny_umbrella.Paper.Calls.Runs.{place_order-Run, modify_order-Edited, cancel_order-Run}
use shiny_umbrella.Paper.Steps.{Run, here, Run-trans, Edited, unedited, Edited-Run}
use shiny_umbrella.Paper.Steps.Lifecycle.{IsBook, EntryOk, Run-IsBook, Run-KeepsEnded}

pub data Call (F : Type 0) : Type 0 where
  places : OrderRequest F → ℕ → Call F
  modifies : Text → Changes F → ℕ → Call F
  cancels : Text → ℕ → Call F
  ticks : Tick F → Call F
  bars : Bar F → Call F

-- A status against the filled and the whole quantity
pub status_fits : OrderStatus → ℕ → ℕ → Bool
status_fits filled done qty = done =ℕ qty
status_fits partial done qty = ltb 0 done
status_fits open_ done qty = done =ℕ 0
status_fits trigger_pending done qty = done =ℕ 0
status_fits _ done qty = true

EntryOk-status_fits :
    {F : Type 0} {id : Text} {o : Order F}
    → EntryOk id o
    → (o.id ≡ id) × (o.filled_qty ≤ o.qty) × (status_fits o.status o.filled_qty o.qty ≡ true)
unfolding status_fits
EntryOk-status_fits {id = id} {o} e = (e.keyed, e.fits, fits o.status refl)
  where
    fits : (st : OrderStatus) → o.status ≡ st → status_fits st o.filled_qty o.qty ≡ true
    fits filled h = ground (arith, e.whole h)
    fits partial h = ground (arith, e.partly h)
    fits open_ h = ground (arith, e.untouched_open h)
    fits trigger_pending h = ground (arith, e.untouched_stop h)
    fits pending h = refl
    fits cancelled h = refl
    fits rejected h = refl

module _ {F : Type 0} ⦃fl : Arith F⦄ where
  -- The broker after a call
  unfoldable pub after : Call F → Paper F → Paper F
  after (places req now) s = (place_order req now s).1
  after (modifies id c now) s = (modify_order id c now s).1
  after (cancels id now) s = (cancel_order id now s).1
  after (ticks t) s = (on_tick t s).1
  after (bars b) s = (on_bar b s).1

  unfoldable pub history : List (Call F) → Paper F → Paper F
  unfolding after
  history [] s = s
  history (c ∷ cs) s = history cs (after c s)

  -- A call edits orders, which fills nothing, and then runs without editing.
  pub after-Edited : (c : Call F) (s : Paper F) → IsBook s → Edited s (after c s)
  unfolding after
  after-Edited (places req now) s b = unedited (place_order-Run s req now)
  after-Edited (modifies id c now) s b = modify_order-Edited s id c now b
  after-Edited (cancels id now) s b = unedited (cancel_order-Run s id now b)
  after-Edited (ticks t) s b = unedited (on_tick-Run s t b)
  after-Edited (bars bar) s b = unedited (on_bar-Run s bar b)

  -- Whatever calls are made of a broker whose book is consistent, they amount to a run of steps.
  pub history-Run : (cs : List (Call F)) (s : Paper F) → IsBook s → Run true s (history cs s)
  unfolding history
  history-Run [] s b = here
  history-Run (c ∷ cs) s b =
      let first = Edited-Run (after-Edited c s b) in
      Run-trans first (history-Run cs (after c s) (Run-IsBook b first))

  pub consistent : (cfg : PaperConfig F) (cs : List (Call F)) → IsBook (history cs (new_paper cfg))
  consistent cfg cs = Run-IsBook {s = new_paper cfg} tt (history-Run cs (new_paper cfg) tt)

  -- Every order in the book of a broker, after any history of calls, stands under its own id, is
  -- never filled beyond its quantity, and is filled by as much as its status says: wholly if FILLED,
  -- by something if PARTIAL, and not at all while OPEN or waiting for its trigger.
  pub history_order_ok :
      (cfg : PaperConfig F) (cs : List (Call F)) (id : Text) {o : Order F}
      → lookup id (history cs (new_paper cfg)).orders ≡ some o
      → (o.id ≡ id) × (o.filled_qty ≤ o.qty) × (status_fits o.status o.filled_qty o.qty ≡ true)
  history_order_ok cfg cs id h = EntryOk-status_fits (lookup-All EntryOk id _ (consistent cfg cs) h)

  -- An order that is filled, cancelled or rejected stays exactly as it is through any further calls.
  pub history_keeps_ended :
      (cfg : PaperConfig F) (cs ds : List (Call F)) (id : Text) {o : Order F}
      → let s = history cs (new_paper cfg) in
        lookup id s.orders ≡ some o
        → is_terminal o.status ≡ true
        → lookup id (history ds s).orders ≡ some o
  history_keeps_ended cfg cs ds id {o} h ended =
      let s = history cs (new_paper cfg) in
      Run-KeepsEnded (history-Run ds s (consistent cfg cs)) id o h ended
