-- ===== src/Codec/Colour.antt =====
-- `Colour` of src/probe/mod.rs: what something says of a stream's colours, as H.273 code points.
use den_remux.Prelude.{ℕ, Bool, ◌||◌, not, Option, none, ◌==◌, or_else, if◌then◌else◌}

pub record Colour : Type 0 where
  pub primaries : ℕ
  pub transfer : ℕ
  pub matrix : ℕ
  pub full_range : Option Bool

-- `Colour::default()`
abbrev pub silent : Colour
silent = record { primaries = 0; transfer = 0; matrix = 0; full_range = none }

-- `matches!(c, 0 | 2)`
abbrev pub unsaid : ℕ → Bool
unsaid c = (c == 0) || (c == 2)

unfoldable pub pick : ℕ → ℕ → ℕ
pick a b = if unsaid a then b else a

-- `Colour::or`
unfoldable pub colour_or : Colour → Colour → Colour
colour_or c d = record {
  primaries = pick c.primaries d.primaries;
  transfer = pick c.transfer d.transfer;
  matrix = pick c.matrix d.matrix;
  full_range = or_else c.full_range d.full_range;
}

unfoldable pub says : Colour → Bool
says c = not (unsaid c.primaries) || not (unsaid c.transfer) || not (unsaid c.matrix)

unfoldable pub is_hdr : ℕ → ℕ → ℕ → Bool
is_hdr transfer primaries matrix =
    ((transfer == 16) || (transfer == 18)) || (primaries == 9) || (matrix == 9)
