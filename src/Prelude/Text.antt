-- ===== src/Prelude/Text.antt =====
-- Text operations of the standard library that the program calls.
use Prim.Native.Nat.{ℕ, zero, suc, ◌/◌, ◌%◌}
use Prim.Native.Char.{code}
use Prim.Native.String.{String, ◌++◌}
use mathlib.Core.Bool.{Bool, true, false}
use mathlib.Core.Option.{Option, none, some}
use mathlib.Core.Option
use mathlib.Core.List.{List, [], ◌∷◌}
use attow_nexus.Prelude.Tests.{eqb, ltb, if◌then◌else◌}

-- `format!` of several pieces
abbrev pub concat : List String → String
concat [] = ""
concat (s ∷ ss) = s ++ concat ss

-- `join(sep)`
unfoldable pub join : String → List String → String
join sep [] = ""
join sep (s ∷ []) = s
join sep (s ∷ t ∷ ss) = s ++ sep ++ join sep (t ∷ ss)

-- `strip_suffix('*')`
unfoldable pub strip_star : String → Option String
strip_star String.[] = none
strip_star (String.◌∷◌ c String.[]) = if eqb (code c) b'*' then some "" else none
strip_star (String.◌∷◌ c (String.◌∷◌ d s)) =
    Option.map (λ rest. String.◌∷◌ c rest) (strip_star (String.◌∷◌ d s))

-- `strip_prefix(prefix)`
unfoldable pub strip_prefix : String → String → Option String
strip_prefix String.[] s = some s
strip_prefix (String.◌∷◌ c p) String.[] = none
strip_prefix (String.◌∷◌ c p) (String.◌∷◌ d s) =
    if eqb (code c) (code d) then strip_prefix p s else none

-- `starts_with(prefix)`
unfoldable pub has_prefix : String → String → Bool
has_prefix p s = elim (strip_prefix p s) [ none ↦ false | some rest ↦ true ]

-- `contains(part)`
unfoldable pub has_part : String → String → Bool
has_part part String.[] = has_prefix part ""
has_part part (String.◌∷◌ c s) = if has_prefix part (String.◌∷◌ c s) then true else has_part part s

-- the decimal digits that `{}` prints
digit : ℕ → String
digit n =
    if eqb n 0
    then "0"
    else if eqb n 1
    then "1"
    else if eqb n 2
    then "2"
    else if eqb n 3
    then "3"
    else if eqb n 4
    then "4"
    else if eqb n 5
    then "5"
    else if eqb n 6
    then "6"
    else if eqb n 7
    then "7"
    else if eqb n 8
    then "8"
    else "9"

decimal : ℕ → ℕ → String
decimal zero n = ""
decimal (suc fuel) n =
    let rest = decimal fuel (n / 10) in if ltb n 10 then digit n else rest ++ digit (n % 10)

unfoldable pub to_string : ℕ → String
unfolding decimal digit
to_string n = decimal (suc n) n

-- `&s[..n]` of an ASCII text that is long enough
unfoldable pub take_text : ℕ → String → String
take_text zero s = ""
take_text (suc n) String.[] = ""
take_text (suc n) (String.◌∷◌ c s) = String.◌∷◌ c (take_text n s)
