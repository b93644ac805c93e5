-- ===== src/Clock/SimClock.antt =====
-- `SimClock` of trading/core/clock.py: a clock that a replay sets and advances.
use shiny_umbrella.Base.{
  ℕ, suc, ◌+◌, ◌-◌, ◌*◌, ◌≤◌, ◌≡◌, Bool, true, false, ◌&&◌, ℤ, pos, negsuc, List, [], ◌∷◌, All,
  arith, ltb, leb, if◌then◌else◌, Error, value_error, overflow_error, Option, none, some,
}
use shiny_umbrella.Clock.Dates.{Timestamp, day_length}
use native.Mathlib.Nat.{le_refl, le_trans}

-- `set` with a timestamp, and `advance` by a duration in microseconds, which may be negative.
pub data Move : Type 0 where
  set : ℕ → Move
  advance : ℤ → Move

-- Python's datetimes: from the start of ordinal 1 to the end of the year 9999.
abbrev in_range : Timestamp → Bool
in_range ts = leb day_length ts && ltb ts (3652060 * day_length)

-- The clock moved by a duration. A time before ordinal 0 is 0 here, which is out of range too.
abbrev shifted : Timestamp → ℤ → Timestamp
shifted now (pos delta) = now + delta
shifted now (negsuc delta) = now - suc delta

-- The clock after a call, and the exception that the call raised.
unfoldable pub move : Timestamp → Move → Timestamp × Option Error
move now (set ts) = if ltb ts now then (now, some value_error) else (ts, none)
move now (advance delta) =
    let later = shifted now delta in
    if in_range later then (later, none) else (now, some overflow_error)

unfoldable pub moves : Timestamp → List Move → Timestamp
unfolding move
moves now [] = now
moves now (m ∷ ms) = moves (move now m).0 ms

-- The call is not an `advance` by a negative duration.
abbrev pub is_forward : Move → Bool
is_forward (set ts) = true
is_forward (advance (pos delta)) = true
is_forward (advance (negsuc delta)) = false

move-le : (now : Timestamp) (m : Move) → is_forward m ≡ true → now ≤ (move now m).0
unfolding move
move-le now (set ts) h = ground arith
move-le now (advance (pos delta)) h = ground arith
move-le now (advance (negsuc delta)) h = ground arith

-- A simulated clock never goes back, whatever calls are made, those that raise included, as long as
-- no `advance` among them is by a negative duration.
pub moves-le :
    (now : Timestamp) (ms : List Move) → All (λ m. is_forward m ≡ true) ms → now ≤ moves now ms
unfolding moves
moves-le now [] a = le_refl now
moves-le now (m ∷ ms) a = le_trans (move-le now m a.0) (moves-le (move now m).0 ms a.1)
