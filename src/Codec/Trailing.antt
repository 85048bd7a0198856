-- ===== src/Codec/Trailing.antt =====
-- What the walks over the headers of src/probe/mod.rs read, against bytes that stand behind the header.
use den_remux.Prelude.{ℕ, ◌≡◌, List, ◌++◌, some}
use den_remux.Codec.Bits.Spec.{read_from_start-append}
use den_remux.Codec.Colour.{Colour}
use den_remux.Codec.Av1.{sequence_header, sequence_colour}
use den_remux.Codec.Hevc.{sps, sps_colour}

pub sps_colour-append :
    (b more : List ℕ) (c : Colour) → sps_colour b ≡ some c → sps_colour (b ++ more) ≡ some c
unfolding sps_colour
sps_colour-append b more c h = read_from_start-append sps b more c h

pub sequence_colour-append :
    (b more : List ℕ) (c : Colour)
    → sequence_colour b ≡ some c
    → sequence_colour (b ++ more) ≡ some c
unfolding sequence_colour
sequence_colour-append b more c h = read_from_start-append sequence_header b more c h
