-- ===== src/Codec/Names.antt =====
-- The RFC 6381 strings of src/probe/mod.rs: `avc_codecs`, `hevc_codecs`, `av1_codecs` and `vp9_track`, which
-- name a stream's codec, and `profile_level`, `av1_bit_depth` and `av1_video_range`, which read such a name.
pub mod Read
use den_remux.Prelude.{ℕ, zero, suc, ◌+◌, ◌*◌, ◌/◌, ◌%◌, ◌^◌, Bool, true, false, not, ◌&&◌, ◌||◌}
use den_remux.Prelude.{
  List, [], ◌∷◌, ◌++◌, Option, none, some, ◌>>=◌, ltb, ◌==◌, length, take, drop, get_elem?,
  if◌then◌else◌, or_else,
}
use den_remux.Text.{Text, codes, same, strip_prefix, parse_below}
use den_remux.Text.Decimal.{print}
use den_remux.Text.Split.{split, print_two, hex_two, hex_upper, parse_hex, trim_abc}
use den_remux.Codec.Colour.{Colour, silent, colour_or, says, is_hdr}
use den_remux.Codec.Av1.{av1_sequence_colour}
use den_remux.Codec.Hevc.{hevc_colour}
use mathlib.Core.List.{reverse}

-- `avc1.PPCCLL`, of a record's first four bytes.
unfoldable pub avc_codecs : List ℕ → Option Text
avc_codecs (v ∷ p ∷ c ∷ l ∷ rest) =
    if v == 1 then some (codes "avc1." ++ (hex_two p ++ (hex_two c ++ hex_two l))) else none
avc_codecs _ = none

-- `u32::reverse_bits`, of the `n` low bits.
unfoldable pub reverse_bits : ℕ → ℕ → ℕ → ℕ
reverse_bits zero acc v = acc
reverse_bits (suc n) acc v = reverse_bits n (acc * 2 + v % 2) (v / 2)

unfoldable pub drop_zeros : List ℕ → List ℕ
drop_zeros [] = []
drop_zeros (b ∷ bs) = elim (b == 0) [ true ↦ drop_zeros bs | false ↦ b ∷ bs ]

-- The constraint bytes without the zeros at their end.
unfoldable pub popped : List ℕ → List ℕ
popped bs = reverse (drop_zeros (reverse bs))

unfoldable pub constraints : List ℕ → Text
constraints [] = []
constraints (c ∷ cs) = 46 ∷ (hex_upper c ++ constraints cs)

-- `["", "A", "B", "C"][_]`
unfoldable pub space : ℕ → Text
space n = if n == 0 then [] else (n + 64) ∷ []

-- What `hevc_codecs` prints: the profile with its space and tier, the compatibility flags, the level.
unfoldable pub hevc_name : ℕ → ℕ → ℕ → List ℕ → Text
hevc_name general compat level more =
    codes "hvc1."
    ++ ((space (general / 64) ++ print (general % 32))
        ++ (46
            ∷ (hex_upper (reverse_bits 32 0 compat)
                ++ (46
                    ∷ ((if general / 32 % 2 == 1 then b'H' else b'L')
                        ∷ (print level ++ constraints (popped more)))))))

unfoldable pub hevc_codecs : List ℕ → Option Text
hevc_codecs (v ∷ g ∷ a ∷ b ∷ c ∷ d ∷ m0 ∷ m1 ∷ m2 ∷ m3 ∷ m4 ∷ m5 ∷ level ∷ rest) =
    some
      (hevc_name g (((a * 256 + b) * 256 + c) * 256 + d) level (m0 ∷ m1 ∷ m2 ∷ m3 ∷ m4 ∷ m5 ∷ []))
hevc_codecs _ = none

unfoldable pub hevc_track : List ℕ → Colour → Option Text × (Bool × Bool)
hevc_track hvcc container =
    let colour = hevc_colour hvcc container in
    (
      hevc_codecs hvcc,
      (is_hdr colour.transfer colour.primaries colour.matrix, colour.transfer == 18),
    )

-- A code point that names nothing is printed as 2, unspecified.
abbrev pub code_of : ℕ → ℕ
code_of c = if c == 0 then 2 else c

abbrev pub full_code : Option Bool → ℕ
full_code (some true) = 1
full_code _ = 0

-- `".{primaries:02}.{transfer:02}.{matrix:02}."`
abbrev pub colour_codes : Colour → Text → Text
colour_codes c rest =
    46
    ∷ (print_two (code_of c.primaries)
        ++ (46
            ∷ (print_two (code_of c.transfer)
                ++ (46 ∷ (print_two (code_of c.matrix) ++ (46 ∷ rest))))))

abbrev pub av1_depth : ℕ → ℕ
av1_depth b = if b / 64 % 2 == 0 then 8 else if b / 32 % 2 == 0 then 10 else 12

-- Chroma that is subsampled both ways: 4:2:0.
abbrev pub is_420 : ℕ → Bool
is_420 b = (b / 8 % 2 == 1) && (b / 4 % 2 == 1)

-- `"{x}{y}{position}"`, the position for 4:2:0 only.
abbrev pub xyz : ℕ → Text
xyz b = print (b / 8 % 2) ++ (print (b / 4 % 2) ++ print (if is_420 b then b % 4 else 0))

-- Whether the optional fields are written.
abbrev pub coloured : ℕ → Colour → Bool
coloured b c = says c || ((b / 16 % 2 == 1) || not (is_420 b))

unfoldable pub av1_colours : ℕ → Colour → Text
av1_colours b c =
    if coloured b c
    then 46
      ∷ (print (b / 16 % 2) ++ (46 ∷ (xyz b ++ colour_codes c (print (full_code c.full_range)))))
    else []

abbrev pub av1_name : ℕ → ℕ → Colour → Text
av1_name a b c =
    codes "av01."
    ++ (print (a / 32)
        ++ (46
            ∷ ((print_two (a % 32) ++ ((if b / 128 % 2 == 1 then b'H' else b'M') ∷ []))
                ++ (46 ∷ (print_two (av1_depth b) ++ av1_colours b c)))))

unfoldable pub av1_codecs : List ℕ → Colour → Option Text
av1_codecs (v ∷ a ∷ b ∷ d ∷ rest) colour = if v == 129 then some (av1_name a b colour) else none
av1_codecs _ colour = none

-- `av1c.get(4..).and_then(av1_sequence_colour).unwrap_or_default()`
abbrev pub sequence_or_silent : List ℕ → Colour
sequence_or_silent av1c =
    if ltb (length av1c) 4
    then silent
    else elim (av1_sequence_colour (drop 4 av1c)) [ none ↦ silent | some c ↦ c ]

unfoldable pub av1_track : List ℕ → Colour → Option Text × Bool
av1_track av1c container =
    let colour = colour_or container (sequence_or_silent av1c) in
    (av1_codecs av1c colour, is_hdr colour.transfer colour.primaries colour.matrix)
