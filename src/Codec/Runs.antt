-- ===== src/Codec/Runs.antt =====
-- Runs of the codec headers over a few bytes.
use den_remux.Prelude.{ℕ, ◌≡◌, refl, arith, false, List, [], ◌∷◌, some, ◌>>=◌ as and_then, drop}
use den_remux.Text.{Text, codes}
use den_remux.Codec.Bits.{uvlc, run}
use den_remux.Codec.Bits.Spec.{bits, parse, left_of, run-parse}
use den_remux.Codec.Colour.{Colour}
use den_remux.Codec.Hevc.Record.{ParameterSets}
use den_remux.Codec.Names.{
  hevc_codecs, hevc_name, space, reverse_bits, constraints, popped, drop_zeros,
}
use den_remux.Text.Decimal.{print}
use den_remux.Text.Split.{hex_upper, hex_fuel}
use den_remux.Codec.Names.Read.{profile_level}
use den_remux.Codec.Names.Read.Hevc.{profile_level-hevc_codecs}

run-parse_example :
    and_then (run uvlc (80 ∷ []) 1) (left_of (80 ∷ [])) ≡ parse uvlc (drop 1 (bits (80 ∷ [])))
run-parse_example = run-parse uvlc (80 ∷ []) 1 (omega arith)

abbrev low : List ℕ
low = 1 ∷ 0 ∷ []

abbrev fields : List ℕ
fields = 1 ∷ 2 ∷ 0 ∷ 0 ∷ 0 ∷ 0 ∷ 0 ∷ 0 ∷ 0 ∷ 0 ∷ 0 ∷ 0 ∷ 0 ∷ 0 ∷ 0 ∷ 0 ∷ 0 ∷ 0 ∷ 0 ∷ 0 ∷ 0 ∷ 3 ∷ []

abbrev sets : List ParameterSets
sets =
    record { head = 32; nals = (64 ∷ 1 ∷ []) ∷ [] }
    ∷ record { head = 33; nals = (66 ∷ 1 ∷ 7 ∷ []) ∷ [] }
    ∷ []

abbrev main10 : Text
main10 = codes "hvc1.2.4.L150.B0"

profile_level-hevc_codecs_example :
    profile_level main10 ≡ some (record { profile = 2; level = 150; high_tier = false })
unfolding hevc_codecs hevc_name space print hex_upper hex_fuel reverse_bits constraints popped
    drop_zeros
profile_level-hevc_codecs_example =
    profile_level-hevc_codecs 1 2 32 0 0 0 176 0 0 0 0 0 150 [] main10 (omega arith) (omega arith)
      refl

abbrev hdr10 : Colour
hdr10 = record { primaries = 9; transfer = 16; matrix = 9; full_range = some false }

abbrev hdr10_name : Text
hdr10_name = codes "av01.0.13M.10.0.110.09.16.09.0"
