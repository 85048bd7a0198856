-- ===== src/Codec/Records.antt =====
-- The records of a stream that src/probe/mod.rs reads whole: VP9's, Dolby Vision's, and the first picture of a
-- keyframe.
pub mod Vp9Name
use den_remux.Prelude.{
  ℕ, zero, suc, ◌+◌, ◌*◌, ◌/◌, ◌%◌, ◌^◌, ◌-◌, Bool, true, false, not, ◌&&◌, ◌||◌,
}
use den_remux.Prelude.{
  List, [], ◌∷◌, ◌++◌, Option, none, some, ◌>>=◌, ltb, leb, ◌==◌, length, take, drop, get_elem?,
  if◌then◌else◌, find, or_else,
}
use den_remux.Prelude.Floats.{Floats}
use den_remux.Codec.Video.{DolbyVision, VideoCodec, h264, hevc, av1, vp9, other}
use den_remux.Bytes.{be, checked_add}
use den_remux.Text.{Text, codes}
use den_remux.Text.Split.{print_two}
use den_remux.Codec.Colour.{Colour, silent, colour_or, says}
use den_remux.Codec.Names.{code_of, full_code}

pub record Vp9Config : Type 0 where
  pub profile : Option ℕ
  pub level : Option ℕ
  pub depth : Option ℕ
  pub chroma : Option ℕ
  pub colour : Colour

abbrev pub nothing : Vp9Config
nothing = record { profile = none; level = none; depth = none; chroma = none; colour = silent }

abbrev pub positive : Option ℕ → Option ℕ
positive none = none
positive (some l) = if ltb 0 l then some l else none

-- Version 1 has the chroma and the colours, where the record is long enough.
abbrev pub with_colours : ℕ → ℕ → List ℕ → Vp9Config → Vp9Config
with_colours version b6 (p ∷ t ∷ m ∷ rest) config =
    if version == 1
    then record config {
      chroma = some (b6 / 2 % 8);
      colour = record { primaries = p; transfer = t; matrix = m; full_range = some (b6 % 2 == 1) };
    }
    else config
with_colours version b6 _ config = config

unfoldable pub vpcc_config : List ℕ → Option Vp9Config
vpcc_config (version ∷ f0 ∷ f1 ∷ f2 ∷ p ∷ l ∷ b6 ∷ rest) = some (
    with_colours version b6 rest
      (record nothing { profile = some p; level = positive (some l); depth = some (b6 / 16) }))
vpcc_config _ = none

-- The value of a feature of one byte.
abbrev pub one_byte : ℕ → List ℕ → Option ℕ
one_byte len [] = none
one_byte len (v ∷ vs) = if len == 1 then some v else none

abbrev pub with_feature : ℕ → Option ℕ → Vp9Config → Vp9Config
with_feature id v config =
    if id == 1
    then record config { profile = v }
    else if id == 2
    then record config { level = positive v }
    else if id == 3
    then record config { depth = v }
    else if id == 4
    then record config { chroma = v }
    else config

-- The loop of `vp9_features`: every round passes over two bytes at least.
unfoldable pub features_loop : ℕ → List ℕ → Vp9Config → Vp9Config
features_loop zero rest config = config
features_loop (suc f) (id ∷ len ∷ tail) config =
    let next =
      features_loop f (drop len tail) (with_feature id (one_byte len (take len tail)) config) in
    if ltb (length tail) len then config else next
features_loop (suc f) _ config = config

unfoldable pub vp9_features : List ℕ → Vp9Config
vp9_features private = features_loop (length private) private nothing

unfoldable pub dovi_config : List ℕ → Option DolbyVision
dovi_config (b0 ∷ b1 ∷ b2 ∷ b3 ∷ b4 ∷ rest) =
    some (record { profile = b2 / 2; compat = b4 / 16; level = b2 % 2 * 32 + b3 / 8 })
dovi_config _ = none

-- The verdict of a NAL unit, by its first byte: nothing for one that is no picture.
unfoldable pub idr_of : Bool → ℕ → Option Bool
idr_of true first =
    if ltb (first / 2 % 64) 32
    then some ((first / 2 % 64 == 19) || (first / 2 % 64 == 20))
    else none
idr_of false first =
    if leb 1 (first % 32) && leb (first % 32) 5 then some (first % 32 == 5) else none

-- The walk over the NAL units, on fuel for the bytes of the frame.
unfoldable pub idr_loop : ℕ → List ℕ → ℕ → Bool → ℕ → Option Bool
idr_loop zero frame size is_hevc at = none
idr_loop (suc f) frame size is_hevc at =
    let len = be 0 (take size (drop at frame)) in
    let rest = checked_add (at + size) len >>= idr_loop f frame size is_hevc in
    if ltb (length frame) (at + size)
    then none
    else get_elem? frame (at + size) >>= λ first. or_else (idr_of is_hevc first) rest

abbrev pub idr_walk : Bool → List ℕ → Option ℕ → Option Bool
idr_walk is_hevc frame none = none
idr_walk is_hevc frame (some c) = idr_loop (suc (length frame)) frame (c % 4 + 1) is_hevc 0

unfoldable pub idr_keyframe : VideoCodec → List ℕ → List ℕ → Option Bool
idr_keyframe h264 config frame = idr_walk false frame (get_elem? config 4)
idr_keyframe hevc config frame = idr_walk true frame (get_elem? config 21)
idr_keyframe av1 config frame = none
idr_keyframe vp9 config frame = none
idr_keyframe (other name) config frame = none

-- A level, its largest picture, and its luma samples a second.
abbrev pub Vp9Level : Type 0
Vp9Level = ℕ × (ℕ × ℕ)

unfoldable pub levels : List Vp9Level
levels =
    (10, (36736, 829440))
    ∷ (11, (73856, 2764800))
    ∷ (20, (122880, 4608000))
    ∷ (21, (245760, 9216000))
    ∷ (30, (552960, 20736000))
    ∷ (31, (983040, 36864000))
    ∷ (40, (2228224, 83558400))
    ∷ (41, (2228224, 160432128))
    ∷ (50, (8912896, 311951360))
    ∷ (51, (8912896, 588251136))
    ∷ (52, (8912896, 1176502272))
    ∷ (60, (35651584, 1176502272))
    ∷ (61, (35651584, 2353004544))
    ∷ (62, (35651584, 4706009088))
    ∷ []

abbrev pub picture_of : ℕ → ℕ → ℕ
picture_of width height = if width * height == 0 then 1920 * 1080 else width * height

abbrev pub level_number : Option Vp9Level → ℕ
level_number none = 62
level_number (some l) = l.0

abbrev pub or_else_number : Option ℕ → ℕ → ℕ
or_else_number none n = n
or_else_number (some m) n = m

-- `matches!(t, 16 | 18)`
abbrev pub is_hdr_transfer : ℕ → Bool
is_hdr_transfer t = (t == 16) || (t == 18)

abbrev pub vp9_colours : ℕ → Colour → Text
vp9_colours chroma c =
    if says c || not (chroma == 1)
    then 46
      ∷ (print_two chroma
          ++ (46
              ∷ (print_two (code_of c.primaries)
                  ++ (46
                      ∷ (print_two (code_of c.transfer)
                          ++ (46
                              ∷ (print_two (code_of c.matrix)
                                  ++ (46 ∷ print_two (full_code c.full_range)))))))))
    else []

unfoldable pub vp9_name : ℕ → ℕ → ℕ → ℕ → Colour → Text
vp9_name profile level depth chroma c =
    codes "vp09."
    ++ (print_two profile
        ++ (46 ∷ (print_two level ++ (46 ∷ (print_two depth ++ vp9_colours chroma c)))))

module _ (fl : Floats) where
  abbrev pub rate_of : Option fl.F → fl.F
  rate_of none = fl.literal 60 1
  rate_of (some r) = if fl.less (fl.literal 0 1) r then r else fl.literal 60 1

  unfoldable pub vp9_level : ℕ → ℕ → Option fl.F → ℕ
  vp9_level width height frame_rate =
      let picture = picture_of width height in
      let samples = fl.times (fl.of_nat picture) (rate_of frame_rate) in
      level_number (find (λ l. leb picture l.1.0 && fl.at_most samples (fl.of_nat l.1.1)) levels)

  abbrev pub depth_of : Vp9Config → Colour → ℕ
  depth_of recorded c = or_else_number recorded.depth (if is_hdr_transfer c.transfer then 10 else 8)

  abbrev pub profile_of : Vp9Config → Colour → ℕ
  profile_of recorded c =
      or_else_number recorded.profile (if ltb 8 (depth_of recorded c) then 2 else 0)

  unfoldable pub vp9_track : Vp9Config → Colour → ℕ → ℕ → Option fl.F → Text × (Bool × Bool)
  vp9_track recorded container width height frame_rate =
      let c = colour_or container recorded.colour in
      let profile = profile_of recorded c in
      (
        vp9_name profile (or_else_number recorded.level (vp9_level width height frame_rate))
            (depth_of recorded c) (or_else_number recorded.chroma 1) c,
        ((profile == 2) && is_hdr_transfer c.transfer, (profile == 2) && (c.transfer == 18)),
      )
