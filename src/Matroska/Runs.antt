-- ===== src/Matroska/Runs.antt =====
-- Runs of the Matroska reader, over elements that are written as a muxer would.
use den_remux.Prelude.{ℕ, ◌<◌, ◌^◌, ◌≡◌, refl, arith, List, [], ◌∷◌, ◌++◌, some, length, map}
use den_remux.Prelude.{find_map, filter_map}
use den_remux.Bytes.{be, be_bytes, leading_zeros}
use den_remux.Matroska.Ids
use den_remux.Matroska.Element.{header, header_id, header_size, size_value, value_bits, children}
use den_remux.Matroska.Encode.{header_bytes, header-header_bytes, size_bytes}
use den_remux.Matroska.Read.{Element, encode, children-encode, element_bytes}
use den_remux.Matroska.Index.{parse_cues, rpu_nal, first_in_blocks, is_rpu}
use den_remux.Matroska.Index.Cues.{CuePoint, point_element, parse_cues-encode}
use den_remux.Matroska.Index.SeekHead.{seek_element}
use den_remux.Matroska.Index.Blocks.{nal_bytes, rpu_nal-bytes}
use den_remux.Prelude.{All}
use den_remux.Matroska.Index.Cluster.{
  Part, simple, group, between, block, IsPart, part_element, all_blocks, blocks_in,
  first_in_blocks-encode,
}

-- A Void element of three bytes, and the CueTime 5.
abbrev void_element : Element
void_element = record { id_width = 0; id = 0xEC; size_width = 0; payload = 0 ∷ 0 ∷ 0 ∷ [] }

abbrev time_element : Element
time_element = record { id_width = 0; id = Ids.cue_time; size_width = 1; payload = 5 ∷ [] }

abbrev two_elements : List Element
two_elements = void_element ∷ time_element ∷ []

-- A size that the bytes behind it do not hold.
abbrev cut_off : List ℕ
cut_off = 0xEC ∷ 0x85 ∷ 1 ∷ []

header-header_bytes_example :
    header (header_bytes 1 0x4DBB 2 300 ++ (1 ∷ [])) ≡ some (0x4DBB, some 300, 5)
header-header_bytes_example =
    header-header_bytes 1 0x4DBB 2 300 (1 ∷ []) (omega arith) (omega arith) (omega arith)

cut_header : header cut_off ≡ some (0xEC, some 5, 2)
unfolding header leading_zeros header_id header_size be size_value value_bits
cut_header = refl

written :
    encode two_elements ++ cut_off
    ≡ 0xEC ∷ 0x83 ∷ 0 ∷ 0 ∷ 0 ∷ 0xB3 ∷ 0x40 ∷ 1 ∷ 5 ∷ 0xEC ∷ 0x85 ∷ 1 ∷ []
unfolding encode element_bytes size_bytes be_bytes
written = refl

children-encode_example :
    children (encode two_elements ++ cut_off) ≡ (0xEC, 0 ∷ 0 ∷ 0 ∷ []) ∷ (Ids.cue_time, 5 ∷ []) ∷ []
children-encode_example =
    children-encode two_elements cut_off (omega arith) (rw cut_header (omega arith))
      (rw written (omega arith))

abbrev cued : List CuePoint
cued =
    record { time = 0; positions = (1, 100) ∷ [] }
    ∷ record { time = 5; positions = (2, 150) ∷ (1, 200) ∷ [] }
    ∷ record { time = 9; positions = (2, 300) ∷ [] }
    ∷ []

written_points : length (encode (map point_element cued)) < 2 ^ 64
unfolding encode element_bytes size_bytes be_bytes
written_points = omega arith

parse_cues-encode_example :
    parse_cues (encode (map point_element cued)) 1
    ≡ record { time = 0; cluster = 100 } ∷ record { time = 5; cluster = 200 } ∷ []
unfolding filter_map find_map
parse_cues-encode_example = parse_cues-encode cued 1 (omega arith) written_points

abbrev seeks : List (ℕ × ℕ)
seeks = (Ids.cues, 4096) ∷ []

written_seeks : length (encode (map seek_element seeks)) < 2 ^ 64
unfolding encode element_bytes size_bytes be_bytes
written_seeks = omega arith

-- A slice of type 1, and a unit of type 62 behind it.
abbrev units : List (List ℕ)
units = (2 ∷ 1 ∷ []) ∷ (0x7C ∷ 1 ∷ 9 ∷ []) ∷ []

abbrev hvcc : List ℕ
hvcc = 0 ∷ 0 ∷ 0 ∷ 0 ∷ 0 ∷ 0 ∷ 0 ∷ 0 ∷ 0 ∷ 0 ∷ 0 ∷ 0 ∷ 0 ∷ 0 ∷ 0 ∷ 0 ∷ 0 ∷ 0 ∷ 0 ∷ 0 ∷ 0 ∷ 3 ∷ []

written_units : length (nal_bytes 4 units) < 2 ^ 64
unfolding nal_bytes be_bytes
written_units = omega arith

rpu_nal-bytes_example : rpu_nal (nal_bytes 4 units) hvcc ≡ some (0x7C ∷ 1 ∷ 9 ∷ [])
unfolding find_map is_rpu
rpu_nal-bytes_example = rpu_nal-bytes units hvcc 3 refl (omega arith) written_units

-- A Block of another track, a Timecode, and a group that holds a Block of the track.
abbrev parts : List Part
parts =
    simple (record {
      size_width = 0;
      track_width = 0;
      track = 2;
      high_time = 0;
      low_time = 0;
      flags = 0;
      frame = 5 ∷ [];
    })
    ∷ between (record { id_width = 0; id = 0xE7; size_width = 0; payload = 0 ∷ [] })
    ∷ group 0 (
        block (record {
          size_width = 0;
          track_width = 0;
          track = 1;
          high_time = 0;
          low_time = 0;
          flags = 0;
          frame = 6 ∷ [];
        })
        ∷ [])
    ∷ []

parts-IsPart : All IsPart parts
unfolding encode element_bytes size_bytes be_bytes
parts-IsPart = omega arith

written_parts : length (encode (map part_element parts)) < 2 ^ 64
unfolding encode element_bytes size_bytes be_bytes
written_parts = omega arith

first_in_blocks-encode_example :
    first_in_blocks some 1 (encode (map part_element parts)) ≡ some (6 ∷ [])
unfolding find_map all_blocks blocks_in
first_in_blocks-encode_example = first_in_blocks-encode some 1 parts parts-IsPart written_parts
