-- ===== src/Clock/Calendar/Search.antt =====
-- The searches of the market calendar: what `next_open` and `next_close` return, and that they do.
use shiny_umbrella.Base.{
  ℕ, zero, suc, ◌+◌, ◌≤◌, ◌<◌, ◌≡◌, sym, ap, ◌∙◌, inl, inr, true, Option, none, some, arith, ltb,
  ltb→lt, ltb→ge, Bool-cases, Option-cases, ok, >>=-eq-ok,
}
use shiny_umbrella.Types.Enums.{Exchange}
use shiny_umbrella.Clock.Dates.{Date, Timestamp, date_of}
use shiny_umbrella.Clock.Calendar.{
  MarketCalendar, session_bounds, ahead, closing, next_open_from, next_open, next_close, within,
  is_open,
}

abbrev Bounds : Type 0
Bounds = Option (Timestamp × Timestamp)

no_open_ahead :
    (b : Bounds) (ts open_ close : Timestamp)
    → ahead b ts ≡ none
    → b ≡ some (open_, close)
    → open_ ≤ ts
unfolding ahead
no_open_ahead none ts open_ close h e = cc
no_open_ahead (some (o, c)) ts open_ close h e = ground arith

ahead_lt : (ts o c : Timestamp) → ts < o → ahead (some (o, c)) ts ≡ some o
unfolding ahead
ahead_lt ts o c h = ground arith

an_open_ahead :
    (b : Bounds) (ts t : Timestamp)
    → ahead b ts ≡ some t
    → (ts < t) × (close : Timestamp) × (b ≡ some (t, close))
unfolding ahead
an_open_ahead none ts t h = cc
an_open_ahead (some (o, c)) ts t h = elim (Bool-cases (ltb ts o)) [
  | inl lt ↦ (ground (arith, ltb→lt ts o lt), c, ground arith)
  | inr ge ↦ ground arith
]

module _ (cal : MarketCalendar) (exchange : Exchange) (ts : Timestamp) where
  -- `t` is the open of a session on a day from `d` on, after `ts`, and no session of an earlier day
  -- from `d` on opens after `ts`.
  pub record IsNextOpen (d : Date) (t : Timestamp) : Type 0 where
    pub on : Date
    pub later : d ≤ on
    pub close : Timestamp
    pub opens : session_bounds cal exchange on ≡ ok (some (t, close))
    pub after : ts < t
    pub first :
        (d' : Date) (o c : Timestamp)
        → d ≤ d'
        → d' < on
        → session_bounds cal exchange d' ≡ ok (some (o, c))
        → o ≤ ts

  first_step :
      (d on d' o c : ℕ) (b : Bounds)
      → ((d'' : Date) (o c : Timestamp)
          → d + 1 ≤ d''
          → d'' < on
          → session_bounds cal exchange d'' ≡ ok (some (o, c))
          → o ≤ ts)
      → session_bounds cal exchange d ≡ ok b
      → ahead b ts ≡ none
      → d ≤ d'
      → d' < on
      → session_bounds cal exchange d' ≡ ok (some (o, c))
      → o ≤ ts
  first_step d on d' o c b rest e a h k s = elim (Bool-cases (ltb d d')) [
    | inl lt ↦ rest d' o c (omega (arith, ltb→lt d d' lt)) k s
    | inr ge ↦
        let same : d' ≡ d = omega (arith, ltb→ge d d' ge) in
        no_open_ahead b ts o c a (cc (sym e, ap (session_bounds cal exchange) same, s))
  ]

  extend :
      (d : Date) {t : Timestamp} (b : Bounds)
      → session_bounds cal exchange d ≡ ok b
      → ahead b ts ≡ none
      → IsNextOpen (d + 1) t
      → IsNextOpen d t
  extend d b e a n = record {
    on = n.on;
    later = omega (arith, n.later);
    close = n.close;
    opens = n.opens;
    after = n.after;
    first = λ d' o c. first_step d n.on d' o c b n.first e a;
  }

  here :
      (d : Date) {t : Timestamp} (b : Bounds)
      → session_bounds cal exchange d ≡ ok b
      → ahead b ts ≡ some t
      → IsNextOpen d t
  here d {t} b e a =
      let (after, close, shape) = an_open_ahead b ts t a in
      record {
        on = d;
        later = omega arith;
        close = close;
        opens = e ∙ ap ok shape;
        after = after;
        first = λ d' o c h k s. absurd (omega arith);
      }

  next_open_from-IsNextOpen :
      (rounds : ℕ) (d : Date) (t : Timestamp)
      → next_open_from cal exchange ts rounds d ≡ ok t
      → IsNextOpen d t
  unfolding next_open_from
  next_open_from-IsNextOpen zero d t h = cc
  next_open_from-IsNextOpen (suc rounds) d t h =
      let (b, e, k) = >>=-eq-ok (session_bounds cal exchange d) _ h in
      elim (Option-cases (ahead b ts)) [
        | inl a ↦ extend d b e a (next_open_from-IsNextOpen rounds (d + 1) t (rw a at k))
        | inr (u, a) ↦ here d b e (ground arith)
      ]

  -- What `next_open` returns is the open of a session, strictly after `ts`, on the day of `ts` or
  -- a later one, and no session in between opens after `ts`.
  pub next_open-IsNextOpen :
      {t : Timestamp} → next_open cal exchange ts ≡ ok t → IsNextOpen (date_of ts) t
  unfolding next_open
  next_open-IsNextOpen {t} h = next_open_from-IsNextOpen 400 (date_of ts) t h

  -- The days of the search have bounds, read without an error.
  abbrev pub Reads : ℕ → Date → Type 0
  Reads rounds d =
      (k : ℕ) → k < rounds → (b : Bounds) × (session_bounds cal exchange (d + k) ≡ ok b)

  step_on :
      (rounds : ℕ) (d : Date) (b : Bounds)
      → session_bounds cal exchange d ≡ ok b
      → ahead b ts ≡ none
      → next_open_from cal exchange ts (suc rounds) d
        ≡ next_open_from cal exchange ts rounds (d + 1)
  unfolding next_open_from
  step_on rounds d b e a = rw e (ground arith)

  step_found :
      (rounds : ℕ) (d : Date) (b : Bounds) {t : Timestamp}
      → session_bounds cal exchange d ≡ ok b
      → ahead b ts ≡ some t
      → next_open_from cal exchange ts (suc rounds) d ≡ ok t
  unfolding next_open_from
  step_found rounds d b e a = rw e (ground arith)

  next_open_from_finds :
      (rounds : ℕ) (d : Date) (k : ℕ) {o c : Timestamp}
      → Reads rounds d
      → k < rounds
      → session_bounds cal exchange (d + k) ≡ ok (some (o, c))
      → ts < o
      → (t : Timestamp) × (next_open_from cal exchange ts rounds d ≡ ok t)
  unfolding next_open_from
  next_open_from_finds zero d k r h s a = elim h [ ]
  next_open_from_finds (suc rounds) d zero {o} {c} r h s a =
      let same : d + 0 ≡ d = omega arith in
      let here : session_bounds cal exchange d ≡ ok (some (o, c)) =
        cc (ap (session_bounds cal exchange) same) in
      (o, step_found rounds d _ here (ahead_lt ts o c a))
  next_open_from_finds (suc rounds) d (suc k) {o} {c} r h s a =
      let (b, e₀) = r 0 (omega arith) in
      let same : d + 0 ≡ d = omega arith in
      let e : session_bounds cal exchange d ≡ ok b = cc (ap (session_bounds cal exchange) same) in
      let shift : (j : ℕ) → d + suc j ≡ d + 1 + j = λ j. omega arith in
      let (t, q) =
        next_open_from_finds rounds (d + 1) k {o = o} {c = c}
          (λ j hj. let (b', e') = r (suc j) (omega arith) in (b', rw (shift j) at e')) (omega arith)
          (rw (shift k) at s) a in
      elim (Option-cases (ahead b ts)) [
        | inl a' ↦ (t, step_on rounds d b e a' ∙ q)
        | inr (u, a') ↦ (u, step_found rounds d b e a')
      ]

  -- If the bounds of the next 400 days can be read and one of those days has a session that opens
  -- after `ts`, then `next_open` returns, with the earliest such open.
  pub next_open_finds :
      (k : ℕ) {o c : Timestamp}
      → Reads 400 (date_of ts)
      → k < 400
      → session_bounds cal exchange (date_of ts + k) ≡ ok (some (o, c))
      → ts < o
      → (t : Timestamp) × (next_open cal exchange ts ≡ ok t) × IsNextOpen (date_of ts) t
  unfolding next_open
  next_open_finds k r h s a =
      let (t, e) = next_open_from_finds 400 (date_of ts) k r h s a in (t, e, next_open-IsNextOpen e)

  close_comes :
      (b : Bounds) → within b ts ≡ true → (t : Timestamp) × (closing b ts ≡ some t) × (ts < t)
  unfolding within closing
  close_comes none h = cc
  close_comes (some (o, c)) h = (c, ground arith, ground arith)

  -- While the market is open, `next_close` returns the close of the running session, which is ahead.
  pub next_close_while_open :
      is_open cal exchange ts ≡ ok true
      → (o c : Timestamp) × (session_bounds cal exchange (date_of ts) ≡ ok (some (o, c)))
        × (next_close cal exchange ts ≡ ok c)
        × (o ≤ ts)
        × (ts < c)
  unfolding next_close is_open within closing
  next_close_while_open h = running (>>=-eq-ok (session_bounds cal exchange (date_of ts)) _ h)
    where
      running :
          (b : Bounds) × (session_bounds cal exchange (date_of ts) ≡ ok b)
            × (ok (within b ts) ≡ ok true)
          → (o c : Timestamp) × (session_bounds cal exchange (date_of ts) ≡ ok (some (o, c)))
            × (next_close cal exchange ts ≡ ok c)
            × (o ≤ ts)
            × (ts < c)
      running (none, e, w) = cc
      running (some (o, c), e, w) = (o, c, e, rw e (ground arith), ground arith, ground arith)
