-- ===== src/Play/Playable.antt =====
-- What a player takes as it is: `Playable::takes`, `plays`, and what is kept of Dolby Vision, src/session.rs.
pub mod Order
pub mod Picture
use den_remux.Prelude.{ℕ, ◌+◌, ◌^◌, max, Bool, true, false, not, ◌&&◌, ◌||◌}
use den_remux.Prelude.{
  List, [], ◌∷◌, ◌++◌, Option, none, some, ◌>>=◌, ltb, leb, ◌==◌, get_elem?, if◌then◌else◌,
}
use Prim.Native.String.{String}
use den_remux.Text.{Text, codes, same}
use den_remux.Text.Split.{split, print_two}
use den_remux.Codec.Video.{DolbyVision, VideoCodec, h264, hevc, av1, vp9, other}
use den_remux.Codec.Names.Read.{
  Named, Range, pq, hlg, sdr, profile_level, av1_bit_depth, av1_video_range,
}

-- The fields of `MediaInfo` that the decisions read.
pub record MediaInfo : Type 0 where
  pub video : VideoCodec
  pub codecs : Option Text
  pub hdr : Bool
  pub hlg : Bool
  pub dolby_vision : Option DolbyVision
  pub dolby_vision_record_mismatch : Bool

pub record DolbyVisionPlay : Type 0 where
  pub p5 : Bool
  pub p8 : Bool

pub record Playable : Type 0 where
  pub h264 : ℕ
  pub h264_high10 : ℕ
  pub hevc_main : ℕ
  pub hevc_main10 : ℕ
  pub hevc_high_tier : ℕ
  pub hdr : Bool
  pub eac3 : Bool
  pub aac_multichannel : Bool
  pub dolby_vision : DolbyVisionPlay
  pub av1 : ℕ
  pub av1_main10 : ℕ
  pub av1_hdr : Bool
  pub flac : Bool
  pub aac71 : Bool
  pub vp9 : Bool
  pub vp9_profile2 : Bool

abbrev pub level_at_most : Option Named → ℕ → Bool
level_at_most none limit = true
level_at_most (some n) limit = leb n.level limit

-- `fits`
unfoldable pub fits : Option Named → ℕ → Bool
fits named limit = ltb 0 limit && level_at_most named limit

unfoldable pub h264_limit : Playable → Option Named → ℕ
h264_limit p none = p.h264
h264_limit p (some n) = if n.profile == 110 then p.h264_high10 else p.h264

unfoldable pub hevc_limit : Playable → Option Named → ℕ
hevc_limit p none = max p.hevc_main p.hevc_main10
hevc_limit p (some n) =
    if n.high_tier
    then p.hevc_high_tier
    else if n.profile == 1
    then max p.hevc_main p.hevc_main10
    else if n.profile == 2
    then p.hevc_main10
    else 0

-- A profile other than Main, or the High tier.
abbrev pub beyond_main : Option Named → Bool
beyond_main none = false
beyond_main (some n) = not (n.profile == 0) || n.high_tier

abbrev pub depth_limit : Playable → Option ℕ → ℕ
depth_limit p none = max p.av1 p.av1_main10
depth_limit p (some d) =
    if d == 10 then p.av1_main10 else if d == 8 then max p.av1 p.av1_main10 else 0

unfoldable pub av1_limit : Playable → Option Named → Option ℕ → ℕ
av1_limit p named depth = if beyond_main named then 0 else depth_limit p depth

abbrev pub is_text : Option Text → Text → Bool
is_text none t = false
is_text (some s) t = same s t

unfoldable pub vp9_taken : Playable → Option Named → Option Text → Bool
vp9_taken p none depth = false
vp9_taken p (some n) depth =
    if n.profile == 0
    then p.vp9
    else if (n.profile == 2) && is_text depth (codes "10")
    then p.vp9_profile2
    else false

unfoldable pub takes : Playable → MediaInfo → Bool
takes p info =
    let named = info.codecs >>= profile_level in
    elim info.video [
      | h264 ↦ fits named (h264_limit p named)
      | hevc ↦ fits named (hevc_limit p named) && (not info.hdr || p.hdr)
      | av1 ↦
          fits named (av1_limit p named (info.codecs >>= av1_bit_depth))
          && (not info.hdr || p.av1_hdr)
      | vp9 ↦ vp9_taken p named (info.codecs >>= λ c. get_elem? (split b'.' c) 3)
      | other name ↦ false
    ]

abbrev pub takes_vp9 : Playable → Bool
takes_vp9 p = p.vp9 || p.vp9_profile2

-- How kept Dolby Vision is named: CODECS, SUPPLEMENTAL-CODECS and VIDEO-RANGE.
pub record Signal : Type 0 where
  pub codecs : Option Text
  pub supplemental : Option Text
  pub range : Range

abbrev pub supplemental_signal : DolbyVision → String → Range → Option Signal
supplemental_signal dv brand range = some (record {
  codecs = none;
  supplemental = some (codes "dvh1.08." ++ (print_two dv.level ++ (b'/' ∷ codes brand)));
  range = range;
})

unfoldable pub dolby_vision_signal : DolbyVision → Option Signal
dolby_vision_signal dv =
    if dv.profile == 5
    then some (record {
      codecs = some (codes "dvh1.05." ++ print_two dv.level);
      supplemental = none;
      range = pq;
    })
    else if (dv.profile == 8) && (dv.compat == 1)
    then supplemental_signal dv "db1p" pq
    else if (dv.profile == 8) && (dv.compat == 2)
    then supplemental_signal dv "db2g" sdr
    else if (dv.profile == 8) && (dv.compat == 4)
    then supplemental_signal dv "db4h" hlg
    else none

abbrev pub is_some : {A : Type 0} → Option A → Bool
is_some none = false
is_some (some a) = true

abbrev pub shows : DolbyVisionPlay → ℕ → Bool
shows d profile = if profile == 5 then d.p5 else if profile == 8 then d.p8 else false

unfoldable pub keeps_dolby_vision : DolbyVision → Option Playable → Bool
keeps_dolby_vision dv none = false
keeps_dolby_vision dv (some p) = is_some (dolby_vision_signal dv) && shows p.dolby_vision dv.profile

unfoldable pub kept_dolby_vision : MediaInfo → Bool → Option Playable → Option DolbyVision
kept_dolby_vision info transcoded playable = info.dolby_vision >>= λ dv.
    if not transcoded && (not info.dolby_vision_record_mismatch && keeps_dolby_vision dv playable)
    then some dv
    else none

-- `VideoCodec::Hevc | VideoCodec::Vp9 if info.hdr`
abbrev pub hdr_range : MediaInfo → Option Range
hdr_range info = if info.hdr then some (if info.hlg then hlg else pq) else none

unfoldable pub copied_range : MediaInfo → Text → Option Range
copied_range info c = elim info.video [
  | av1 ↦ av1_video_range c
  | hevc ↦ hdr_range info
  | vp9 ↦ hdr_range info
  | h264 ↦ none
  | other name ↦ none
]

unfoldable pub plays : Option Playable → Bool → MediaInfo → Bool
plays (some p) takes_hevc info = takes p info
plays none takes_hevc info = elim info.video [
  | hevc ↦ takes_hevc
  | av1 ↦ false
  | vp9 ↦ false
  | h264 ↦ true
  | other name ↦ true
]

-- `DolbyVision::has_fallback`
unfoldable pub has_fallback : DolbyVision → Bool
has_fallback dv = not (dv.compat == 0)

abbrev pub lacks_picture : Option Playable → Bool → MediaInfo → Option DolbyVision → Bool
lacks_picture playable takes_hevc info none = false
lacks_picture playable takes_hevc info (some dv) =
    if has_fallback dv
    then false
    else not (keeps_dolby_vision dv playable && plays playable takes_hevc info)

unfoldable pub no_picture : Option Playable → Bool → MediaInfo → Bool
no_picture playable takes_hevc info =
    if info.dolby_vision_record_mismatch
    then false
    else lacks_picture playable takes_hevc info info.dolby_vision

abbrev pub compat_maps : Option DolbyVision → Bool
compat_maps none = false
compat_maps (some dv) = not (dv.compat == 2)

unfoldable pub tonemaps : MediaInfo → Bool
tonemaps info = info.hdr || compat_maps info.dolby_vision
