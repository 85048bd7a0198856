-- ===== src/Codec/Names/Read/Av1.antt =====
-- That an AV1 name is read back: its profile, level, tier, bit depth and range.
use den_remux.Prelude.{ℕ, ◌/◌, ◌%◌}
use den_remux.Prelude.{List, [], ◌∷◌, ◌++◌, Option, none, some, ◌==◌, if◌then◌else◌}
use den_remux.Text.{Text}
use den_remux.Text.Decimal.{print}
use den_remux.Text.Split.{print_two}
use den_remux.Codec.Colour.{Colour}
use den_remux.Codec.Names.{code_of, full_code, xyz, coloured}
use den_remux.Codec.Names.Read.{Range, pq, hlg}

-- The pieces of the optional fields.
abbrev colour_pieces : ℕ → Colour → List Text
colour_pieces b c =
    if coloured b c
    then print (b / 16 % 2)
      ∷ xyz b
      ∷ print_two (code_of c.primaries)
      ∷ print_two (code_of c.transfer)
      ∷ print_two (code_of c.matrix)
      ∷ print (full_code c.full_range)
      ∷ []
    else []

abbrev tier_letter : ℕ → ℕ
tier_letter b = if b / 128 % 2 == 1 then 72 else 77

abbrev level_tier : ℕ → ℕ → Text
level_tier a b = print_two (a % 32) ++ (tier_letter b ∷ [])

-- The range that a transfer names.
abbrev pub transfer_range : ℕ → Option Range
transfer_range t = if t == 16 then some pq else if t == 18 then some hlg else none
