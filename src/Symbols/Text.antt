-- ===== src/Symbols/Text.antt =====
-- The text functions that trading/brokers/symbols.py calls, over ASCII. `str.upper` and `\d` of
-- Python also know other scripts; canonical symbols have none.
use shiny_umbrella.Base.{
  ℕ, zero, suc, ◌+◌, ◌-◌, ◌/◌, ◌%◌, Bool, true, ◌&&◌, Option, none, some, List, [], ◌∷◌, ◌++◌, map,
  Text, ltb, leb, ◌=ℕ◌, if◌then◌else◌,
}

upper_code : ℕ → ℕ
upper_code c = if leb b'a' c && leb c b'z' then c - 32 else c

-- `str.upper`
unfoldable pub upper : Text → Text
unfolding upper_code
upper s = map upper_code s

abbrev pub is_digit : ℕ → Bool
is_digit c = leb b'0' c && leb c b'9'

abbrev pub digit : ℕ → ℕ
digit c = c - b'0'

unfoldable pub all : (ℕ → Bool) → Text → Bool
all p [] = true
all p (c ∷ s) = p c && all p s

-- `s.split(c, 1)` for a text that has `c`; `none` for one that does not.
after_first : ℕ → Option (Text × Text) → Option (Text × Text)
after_first c none = none
after_first c (some (l, r)) = some (c ∷ l, r)

unfoldable pub split_once : ℕ → Text → Option (Text × Text)
unfolding after_first
split_once sep [] = none
split_once sep (c ∷ s) =
    let rest = after_first c (split_once sep s) in if c =ℕ sep then some ([], s) else rest

cons_head : ℕ → List Text → List Text
cons_head c [] = (c ∷ []) ∷ []
cons_head c (t ∷ ts) = (c ∷ t) ∷ ts

-- `s.split(sep)`
unfoldable pub split : ℕ → Text → List Text
unfolding cons_head
split sep [] = [] ∷ []
split sep (c ∷ s) = let rest = split sep s in if c =ℕ sep then [] ∷ rest else cons_head c rest

-- `sep.join(tokens)`
unfoldable pub join : ℕ → List Text → Text
join sep [] = []
join sep (t ∷ []) = t
join sep (t ∷ u ∷ us) = t ++ (sep ∷ join sep (u ∷ us))

-- `$` in a regular expression matches before one trailing newline too.
unfoldable pub chomp : Text → Text
chomp [] = []
chomp (c ∷ []) = if c =ℕ 10 then [] else c ∷ []
chomp (c ∷ d ∷ s) = c ∷ chomp (d ∷ s)

-- `str(n)`, on fuel: the number itself is more than its digits.
decimal_from : ℕ → ℕ → Text → Text
decimal_from zero n acc = acc
decimal_from (suc fuel) n acc =
    let rest = decimal_from fuel (n / 10) ((b'0' + n % 10) ∷ acc) in
    if ltb n 10 then (b'0' + n) ∷ acc else rest

unfoldable pub show_ℕ : ℕ → Text
unfolding decimal_from
show_ℕ n = decimal_from (suc n) n []
