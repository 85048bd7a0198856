-- ===== src/Text/Split.antt =====
-- `split`, and the numbers of codec strings: two decimal digits at least, and hexadecimal.
pub mod Print
use den_remux.Prelude.{ℕ, zero, suc, ◌+◌, ◌-◌, ◌*◌, ◌/◌, ◌%◌, ◌^◌, Bool, true, false, ◌&&◌, ◌||◌}
use den_remux.Prelude.{List, [], ◌∷◌, ◌++◌, Option, none, some, ltb, leb, ◌==◌, if◌then◌else◌}
use den_remux.Text.{Text, is_digit}
use den_remux.Text.Decimal.{print}

abbrev pub with_first : ℕ → List Text → List Text
with_first c [] = (c ∷ []) ∷ []
with_first c (p ∷ ps) = (c ∷ p) ∷ ps

-- `split(c)`: one piece at least.
unfoldable pub split : ℕ → Text → List Text
split c [] = [] ∷ []
split c (d ∷ s) = elim (d == c) [ true ↦ [] ∷ split c s | false ↦ with_first d (split c s) ]

-- `{:02}`
unfoldable pub print_two : ℕ → Text
print_two n = if ltb n 10 then 48 ∷ (n + 48) ∷ [] else print n

-- A digit of `{:x}` and of `{:X}`.
abbrev pub hex_digit : ℕ → ℕ
hex_digit d = if ltb d 10 then d + 48 else d + 87

abbrev pub hex_digit_upper : ℕ → ℕ
hex_digit_upper d = if ltb d 10 then d + 48 else d + 55

-- `{:02x}`, of a byte.
abbrev pub hex_two : ℕ → Text
hex_two b = hex_digit (b / 16 % 16) ∷ hex_digit (b % 16) ∷ []

-- `{:X}`, on fuel for the number of digits.
unfoldable pub hex_fuel : ℕ → ℕ → Text
hex_fuel zero n = hex_digit_upper (n % 16) ∷ []
hex_fuel (suc f) n =
    let more = hex_fuel f (n / 16) in
    if ltb n 16 then hex_digit_upper n ∷ [] else more ++ (hex_digit_upper (n % 16) ∷ [])

unfoldable pub hex_upper : ℕ → Text
hex_upper n = hex_fuel n n

-- `to_digit(16)`
unfoldable pub hex_value : ℕ → Option ℕ
unfolding is_digit
hex_value c =
    if is_digit c
    then some (c - 48)
    else if leb 97 c && leb c 102
    then some (c - 87)
    else if leb 65 c && leb c 70
    then some (c - 55)
    else none

unfoldable pub parse_hex_digits : ℕ → ℕ → Text → Option ℕ
parse_hex_digits bound acc [] = some acc
parse_hex_digits bound acc (c ∷ s) = elim (hex_value c) [
  | none ↦ none
  | some d ↦ elim (ltb (acc * 16 + d) bound) [
    | true ↦ parse_hex_digits bound (acc * 16 + d) s
    | false ↦ none
  ]
]

-- `from_str_radix(_, 16)` of an unsigned type below `bound`.
unfoldable pub parse_hex : ℕ → Text → Option ℕ
parse_hex bound [] = none
parse_hex bound (c ∷ []) = if c == b'+' then none else parse_hex_digits bound 0 (c ∷ [])
parse_hex bound (c ∷ d ∷ s) =
    if c == b'+' then parse_hex_digits bound 0 (d ∷ s) else parse_hex_digits bound 0 (c ∷ d ∷ s)

-- `trim_start_matches(['A', 'B', 'C'])`
unfoldable pub trim_abc : Text → Text
trim_abc [] = []
trim_abc (c ∷ s) = elim (leb 65 c && leb c 67) [ true ↦ trim_abc s | false ↦ c ∷ s ]
