-- ===== src/Prelude/Text.antt =====
-- Python texts: f-strings, `str.join`, `str` of a number, `str.strip`, and their lengths.
use Prim.Native.Nat.{ℕ, zero, suc, ◌+◌, ◌/◌, ◌%◌}
use Prim.Native.Char.{Char, code}
use Prim.Native.String
use Prim.Native.String.{String, count}
use mathlib.Core.Bool.{Bool, ◌&&◌, ◌||◌, not}
use mathlib.Core.List.{List, [], ◌∷◌}
use text.Mathlib.Text.{◌==◌ as str_eq}
use ron_personal_assistant.Prelude.Tests.{ltb, leb, ◌==◌, if◌then◌else◌}

-- An f-string, as the list of its literal parts and of the values in its braces.
abbrev pub f_string : List String → String
f_string [] = ""
f_string (s ∷ parts) = String.◌++◌ s (f_string parts)

-- `separator.join(parts)`
unfoldable pub join : String → List String → String
join separator [] = ""
join separator (s ∷ []) = s
join separator (s ∷ t ∷ parts) = String.◌++◌ s (String.◌++◌ separator (join separator (t ∷ parts)))

digit : ℕ → String
digit d =
    if d == 0
    then "0"
    else if d == 1
    then "1"
    else if d == 2
    then "2"
    else if d == 3
    then "3"
    else if d == 4
    then "4"
    else if d == 5
    then "5"
    else if d == 6
    then "6"
    else if d == 7
    then "7"
    else if d == 8
    then "8"
    else "9"

decimal_digits : ℕ → ℕ → String
unfolding digit
decimal_digits zero n = ""
decimal_digits (suc fuel) n =
    let higher = decimal_digits fuel (n / 10) in
    if ltb n 10 then digit n else String.◌++◌ higher (digit (n % 10))

-- `str(n)`; a number has fewer digits than `n + 1`.
unfoldable pub decimal : ℕ → String
unfolding decimal_digits
decimal n = decimal_digits (n + 1) n

-- The characters that `str.isspace` accepts.
unfoldable pub is_space : ℕ → Bool
is_space c =
    (leb 9 c && leb c 13)
    || (leb 28 c && leb c 32)
    || c == 0x85
    || c == 0xa0
    || c == 0x1680
    || (leb 0x2000 c && leb c 0x200a)
    || c == 0x2028
    || c == 0x2029
    || c == 0x202f
    || c == 0x205f
    || c == 0x3000

strip_left : String → String
strip_left String.[] = ""
strip_left (String.◌∷◌ c s) =
    let rest = strip_left s in if is_space (code c) then rest else String.◌∷◌ c s

strip_right : String → String
strip_right String.[] = ""
strip_right (String.◌∷◌ c s) =
    let rest = strip_right s in
    if str_eq rest "" && is_space (code c) then "" else String.◌∷◌ c rest

-- `text.strip()`
unfoldable pub strip : String → String
unfolding strip_left strip_right is_space
strip text = strip_right (strip_left text)

-- `bool(text)`
abbrev pub is_truthy : String → Bool
is_truthy text = not (str_eq text "")

-- `text in choices`
abbrev pub mem_text : String → List String → Bool
mem_text text [] = Bool.false
mem_text text (c ∷ choices) = str_eq text c || mem_text text choices

-- The pieces of a text between its white space, the empty ones too.
pieces : String → List String
pieces String.[] = "" ∷ []
pieces (String.◌∷◌ c s) =
    let rest = pieces s in if is_space (code c) then "" ∷ rest else longer c rest
  where
    longer : Char → List String → List String
    longer c [] = String.◌∷◌ c "" ∷ []
    longer c (w ∷ ws) = String.◌∷◌ c w ∷ ws

without_empty : List String → List String
without_empty [] = []
without_empty (w ∷ ws) = let rest = without_empty ws in if is_truthy w then w ∷ rest else rest

-- `" ".join(text.split())`
unfoldable pub squeeze : String → String
unfolding pieces without_empty join is_space
squeeze text = join " " (without_empty (pieces text))

-- `text.rstrip()`
unfoldable pub rstrip : String → String
unfolding strip_right is_space
rstrip text = strip_right text

-- `text[:n]`
unfoldable pub take_text : ℕ → String → String
take_text zero text = ""
take_text (suc n) String.[] = ""
take_text (suc n) (String.◌∷◌ c s) = String.◌∷◌ c (take_text n s)
