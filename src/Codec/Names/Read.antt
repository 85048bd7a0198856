-- ===== src/Codec/Names/Read.antt =====
-- `profile_level`, `av1_bit_depth` and `av1_video_range` of src/probe/mod.rs, on ASCII texts.
pub mod RoundTrip
pub mod Hevc
pub mod Av1
use den_remux.Prelude.{ℕ, zero, suc, ◌+◌, ◌^◌, Bool, true, false, ◌||◌}
use den_remux.Prelude.{
  List, [], ◌∷◌, ◌++◌, Option, none, some, ◌>>=◌, ltb, ◌==◌, length, take, drop, get_elem?,
  if◌then◌else◌,
}
use den_remux.Text.{Text, codes, same, strip_prefix, parse_below}
use den_remux.Text.Split.{split, parse_hex, trim_abc}

-- What a codec string names: a profile, a level and whether the tier is the high one.
pub record Named : Type 0 where
  pub profile : ℕ
  pub level : ℕ
  pub high_tier : Bool

abbrev named : Bool → ℕ → ℕ → Option Named
named tier p l = some (record { profile = p; level = l; high_tier = tier })

-- `get(i..j)`
unfoldable pub slice_of : Text → ℕ → ℕ → Option Text
slice_of s i j = if ltb (length s) j then none else some (drop i (take j s))

-- `u8::from_str_radix(p.get(i..i + 2)?, 16).ok()`
unfoldable pub hex_byte : Text → ℕ → Option ℕ
hex_byte p i = slice_of p i (i + 2) >>= parse_hex 256

unfoldable pub avc_level : List Text → Option Named
avc_level [] = none
avc_level (p ∷ ps) = do profile ← hex_byte p 0; level ← hex_byte p 4; named false profile level

-- The tier's letter, and the number behind it.
abbrev pub tier_level : Text → ℕ → Option Named
tier_level [] profile = none
tier_level (t ∷ l) profile = parse_below (2 ^ 16) l >>= named (t == b'H') profile

unfoldable pub hevc_level : List Text → Option Named
hevc_level (p ∷ c ∷ t ∷ ps) = parse_below 256 (trim_abc p) >>= tier_level t
hevc_level (p ∷ c ∷ []) = parse_below 256 (trim_abc p) >>= λ _. none
hevc_level _ = none

unfoldable pub av1_level : List Text → Option Named
av1_level (p ∷ lt ∷ ps) = do
  profile ← parse_below 256 p
  digits ← slice_of lt 0 2
  level ← parse_below (2 ^ 16) digits
  named (same (drop 2 lt) (codes "H")) profile level
av1_level _ = none

unfoldable pub vp9_level_of : List Text → Option Named
vp9_level_of (p ∷ l ∷ ps) = do
  profile ← parse_below 256 p
  level ← parse_below (2 ^ 16) l
  named false profile level
vp9_level_of _ = none

unfoldable pub level_of : Text → List Text → Option Named
level_of kind ps =
    if same kind (codes "avc1") || same kind (codes "avc3")
    then avc_level ps
    else if same kind (codes "hvc1") || same kind (codes "hev1")
    then hevc_level ps
    else if same kind (codes "av01")
    then av1_level ps
    else if same kind (codes "vp09")
    then vp9_level_of ps
    else none

abbrev pub level_of_parts : List Text → Option Named
level_of_parts [] = none
level_of_parts (kind ∷ ps) = level_of kind ps

unfoldable pub profile_level : Text → Option Named
profile_level s = level_of_parts (split b'.' s)

unfoldable pub av1_bit_depth : Text → Option ℕ
av1_bit_depth s = do
  rest ← strip_prefix (codes "av01.") s
  depth ← get_elem? (split b'.' rest) 2
  parse_below 256 depth

pub data Range : Type 0 where
  pq : Range
  hlg : Range
  sdr : Range

unfoldable pub range_named : Text → Option Range
range_named t =
    if same t (codes "16") then some pq else if same t (codes "18") then some hlg else none

unfoldable pub av1_video_range : Text → Option Range
av1_video_range s = do
  rest ← strip_prefix (codes "av01.") s
  transfer ← get_elem? (split b'.' rest) 6
  range_named transfer
