-- ===== src/Text.antt =====
-- The `str` methods that the program calls, on a text as the list of its character codes. The
-- texts that they meet are ASCII: header values that passed `to_str`, and file names.
pub mod Decimal
pub mod Same
pub mod Split
use Prim.Native.Char.{code}
use Prim.Native.String.{String}
use den_remux.Prelude.{ℕ, ◌+◌, ◌-◌, ◌*◌, ◌^◌, Bool, true, false, ◌&&◌, ◌||◌}
use den_remux.Prelude.{List, [], ◌∷◌, Option, none, some, ltb, leb, ◌==◌, if◌then◌else◌, ◌>>=◌}
use mathlib.Core.List.{reverse, map}

abbrev pub Text : Type 0
Text = List ℕ

abbrev pub codes : String → Text
codes String.[] = []
codes (String.◌∷◌ c s) = code c ∷ codes s

-- `==`
unfoldable pub same : Text → Text → Bool
same [] [] = true
same (c ∷ s) (d ∷ t) = (c == d) && same s t
same _ _ = false

-- `strip_prefix(p)`
unfoldable pub strip_prefix : Text → Text → Option Text
strip_prefix [] s = some s
strip_prefix (p ∷ ps) [] = none
strip_prefix (p ∷ ps) (c ∷ s) = elim (p == c) [ true ↦ strip_prefix ps s | false ↦ none ]

-- `strip_suffix(p)`
unfoldable pub strip_suffix : Text → Text → Option Text
strip_suffix p s = do r ← strip_prefix (reverse p) (reverse s); some (reverse r)

-- `split_once(c)`: the text before the first `c`, and the text behind it.
unfoldable pub split_once : ℕ → Text → Option (Text × Text)
split_once c [] = none
split_once c (d ∷ s) = elim (d == c) [
  | true ↦ some ([], s)
  | false ↦ elim (split_once c s) [ none ↦ none | some (a, b) ↦ some (d ∷ a, b) ]
]

-- `contains(c)`
unfoldable pub contains : ℕ → Text → Bool
contains c [] = false
contains c (d ∷ s) = (d == c) || contains c s

-- `char::is_whitespace`, on ASCII.
unfoldable pub is_space : ℕ → Bool
is_space c = (c == 32) || (leb 9 c && leb c 13)

unfoldable pub trim_start : Text → Text
unfolding is_space
trim_start [] = []
trim_start (c ∷ s) = elim (is_space c) [ true ↦ trim_start s | false ↦ c ∷ s ]

-- `trim()`
unfoldable pub trim : Text → Text
unfolding trim_start
trim s = reverse (trim_start (reverse (trim_start s)))

unfoldable pub is_digit : ℕ → Bool
is_digit c = leb b'0' c && leb c b'9'

-- The digits of `from_str_radix`, each step checked against the type's bound.
unfoldable pub parse_digits : ℕ → ℕ → Text → Option ℕ
unfolding is_digit
parse_digits bound acc [] = some acc
parse_digits bound acc (c ∷ s) =
    let acc' = acc * 10 + (c - b'0') in
    elim (is_digit c && ltb acc' bound) [ true ↦ parse_digits bound acc' s | false ↦ none ]

-- `parse` of an unsigned integer type below `bound`: one leading `+` is taken, and at least one
-- digit is needed.
unfoldable pub parse_below : ℕ → Text → Option ℕ
unfolding parse_digits
parse_below bound [] = none
parse_below bound (c ∷ []) = if c == b'+' then none else parse_digits bound 0 (c ∷ [])
parse_below bound (c ∷ d ∷ s) =
    if c == b'+' then parse_digits bound 0 (d ∷ s) else parse_digits bound 0 (c ∷ d ∷ s)

-- `parse::<u64>()`
unfoldable pub parse_u64 : Text → Option ℕ
unfolding parse_below
parse_u64 = parse_below (2 ^ 64)

-- `to_ascii_lowercase`
abbrev pub lower : ℕ → ℕ
lower c = if leb 65 c && leb c 90 then c + 32 else c

unfoldable pub to_lower : Text → Text
to_lower s = map lower s
