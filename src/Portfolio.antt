-- ===== src/Portfolio.antt =====
-- trading/agents/portfolio.py: the positions and the day's result as the agents see them, fed by
-- fills and prices. `multiplier_for` answers for every symbol here.
pub mod Quantities
pub mod Exposure
use shiny_umbrella.Base.{
  ℕ, suc, ℤ, pos, ◌+ℤ◌, eqb_ℤ, ltb_ℤ, to_ℕ, ◌≡◌, refl, sym, ap, ◌∙◌, Bool, true, false, ◌&&◌, ◌||◌,
  not, Option, none, some, List, [], ◌∷◌, map, Text, Dict, lookup, insert, values, lookup-insert,
  Eq, ◌==◌, nat_eq, list_eq, pair_eq, Result, ok, ◌>>=◌, or_else, if◌then◌else◌, ◌=ℕ◌, Bool-cases,
  inl, inr, arith,
}
use shiny_umbrella.Float.Arith.{Arith, ◌⊕◌, ◌⊖◌, ◌⊗◌, ◌≼◌, of_ℕ}
use shiny_umbrella.Types.Enums.{Side, buy, sell, signed, ProductType, product_beq, product_eq}
use shiny_umbrella.Types.Orders.{Fill, Position, total, unrealised_pnl}
use shiny_umbrella.Types.Messages.{Funds}
use shiny_umbrella.Clock.Dates.{Date, Timestamp, date_of}
use shiny_umbrella.Paper.State.{Key}
use shiny_umbrella.Paper.Positions.{flat, apply_fill_to_position, extend, reduce, same_sign}

pub record DaySnapshot (F : Type 0) : Type 0 where
  pub day : Date
  pub start_equity : F
  pub realised_pnl : F
  pub fees_paid : F
  pub trades : ℕ

pub record Portfolio (F : Type 0) : Type 0 where
  pub starting_equity : F
  pub multiplier_for : Option (Text → F)
  pub positions : Dict Key (Position F)
  pub last_price : Dict Text F
  pub realised_pnl : F
  pub fees_paid : F
  pub day : Option (DaySnapshot F)
  pub fills_seen : ℕ

module _ {F : Type 0} ⦃fl : Arith F⦄ where
  multiplier_of : Option (Text → F) → Text → F
  multiplier_of none symbol = of_ℕ 1
  multiplier_of (some f) symbol = f symbol

  -- `Portfolio.position`, without its entry in the dictionary
  position_in : Portfolio F → Text → ProductType → Position F
  unfolding multiplier_of
  position_in p symbol product =
      or_else (lookup (symbol, product) p.positions)
        (flat symbol product (multiplier_of p.multiplier_for symbol))

  -- `open_positions`
  abbrev open_among : List (Position F) → List (Position F)
  open_among [] = []
  open_among (p ∷ ps) = if eqb_ℤ p.qty (pos 0) then open_among ps else p ∷ open_among ps

  abbrev pub open_positions : Portfolio F → List (Position F)
  open_positions p = open_among (values p.positions)

  abbrev sum_by : F → (Position F → F) → List (Position F) → F
  sum_by n f [] = n
  sum_by n f (p ∷ ps) = sum_by (n ⊕ f p) f ps

  -- `unrealised_pnl`, `net_pnl` and `equity`
  abbrev pub unrealised_of : Portfolio F → F
  unrealised_of p = sum_by (of_ℕ 0) unrealised_pnl (values p.positions)

  abbrev pub net_pnl : Portfolio F → F
  net_pnl p = p.realised_pnl ⊕ unrealised_of p ⊖ p.fees_paid

  abbrev pub equity_now : Portfolio F → F
  equity_now p = p.starting_equity ⊕ net_pnl p

  pnl_since : Option (DaySnapshot F) → F → F
  pnl_since none equity = of_ℕ 0
  pnl_since (some d) equity = equity ⊖ d.start_equity

  -- `day_pnl`
  unfoldable pub day_pnl : Portfolio F → F
  unfolding pnl_since
  day_pnl p = pnl_since p.day (equity_now p)

  new_day : Date → F → DaySnapshot F
  new_day d equity = record {
    day = d;
    start_equity = equity;
    realised_pnl = of_ℕ 0;
    fees_paid = of_ℕ 0;
    trades = 0;
  }

  day_at : Date → F → Option (DaySnapshot F) → DaySnapshot F
  unfolding new_day
  day_at d equity none = new_day d equity
  day_at d equity (some old) = if old.day =ℕ d then old else new_day d equity

  -- `roll_day`
  pub roll_day : Timestamp → Portfolio F → Portfolio F
  unfolding day_at
  roll_day ts p = record p { day = some (day_at (date_of ts) (equity_now p) p.day) }

  rolled : Option Timestamp → Portfolio F → Portfolio F
  unfolding roll_day
  rolled none p = p
  rolled (some ts) p = roll_day ts p

  mark_one : Text → F → Key × Position F → Key × Position F
  mark_one symbol price (k, q) =
      if k.0 == symbol then (k, record q { last_price = some price }) else (k, q)

  -- `mark`
  pub mark_price : Text → F → Option Timestamp → Portfolio F → Portfolio F
  unfolding rolled mark_one
  mark_price symbol price ts p =
      let q = rolled ts p in
      record q {
        last_price = insert symbol price q.last_price;
        positions = map (mark_one symbol price) q.positions;
      }

  counted : F → F → Option (DaySnapshot F) → Option (DaySnapshot F)
  counted realised fees none = none
  counted realised fees (some d) = some (record d {
    realised_pnl = d.realised_pnl ⊕ realised;
    fees_paid = d.fees_paid ⊕ fees;
    trades = suc d.trades;
  })

  -- The position with the fill's multiplier, which is above zero, and the profit realised by it
  filled_position : Portfolio F → Fill F → Position F × F
  unfolding position_in
  filled_position p f =
      let start = record (position_in p f.symbol f.product) { multiplier = f.multiplier } in
      let (q, realised) = apply_fill_to_position start f.side f.qty f.price in
      (record q { fees_paid = q.fees_paid ⊕ total f.fees; last_price = some f.price }, realised)

  -- `apply_fill`; the day is there once it has been rolled.
  unfoldable pub apply_fill : Fill F → Portfolio F → Portfolio F
  unfolding roll_day filled_position counted
  apply_fill f p =
      let r = roll_day f.ts p in
      let (q, realised) = filled_position r f in
      record r {
        positions = insert (f.symbol, f.product) q r.positions;
        last_price = insert f.symbol f.price r.last_price;
        realised_pnl = r.realised_pnl ⊕ realised;
        fees_paid = r.fees_paid ⊕ total f.fees;
        fills_seen = suc r.fills_seen;
        day = counted realised (total f.fees) r.day;
      }

  -- A list of fills, in order
  unfoldable pub apply_fills : List (Fill F) → Portfolio F → Portfolio F
  apply_fills [] p = p
  apply_fills (f ∷ fs) p = apply_fills fs (apply_fill f p)
