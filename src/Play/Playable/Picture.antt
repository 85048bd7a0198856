-- ===== src/Play/Playable/Picture.antt =====
-- A release that is let through shows a picture.
use den_remux.Prelude.{◌≤◌, ◌<◌, ◌>>=◌, max}
use den_remux.Codec.Names.Read.{Named, profile_level}
use den_remux.Prelude.{
  ◌≡◌, arith, Bool, true, false, not, Option, none, some, ◌⊎◌, and_left, and_right,
}
use den_remux.Codec.Video.{DolbyVision}
use den_remux.Play.Playable.{
  MediaInfo, Playable, dolby_vision_signal, is_some, shows, keeps_dolby_vision, kept_dolby_vision,
  takes,
}

not-false : (a : Bool) → not a ≡ false → a ≡ true
not-false a h = ground arith

-- The player decodes the HEVC that a release's codec names, at its level, and its colours.
pub record IsDecoded (p : Playable) (info : MediaInfo) : Type 0 where
  pub colours : info.hdr ≡ true → p.hdr ≡ true
  pub high :
      (n : Named)
      → (info.codecs >>= profile_level) ≡ some n
      → n.high_tier ≡ true
      → n.level ≤ p.hevc_high_tier
  pub main :
      (n : Named)
      → (info.codecs >>= profile_level) ≡ some n
      → n.high_tier ≡ false
      → ((n.profile ≡ 1) × (n.level ≤ max p.hevc_main p.hevc_main10))
        ⊎ ((n.profile ≡ 2) × (n.level ≤ p.hevc_main10))

-- A player that shows the Dolby Vision of profile 5, which is sent as it is.
pub record IsPictured (playable : Option Playable) (info : MediaInfo) (dv : DolbyVision)
    : Type 0 where
  pub player : Playable
  pub known : playable ≡ some player
  pub profile : dv.profile ≡ 5
  pub shown : player.dolby_vision.p5 ≡ true
  pub decoded : IsDecoded player info
  pub kept : kept_dolby_vision info false playable ≡ some dv

-- A release with no base layer, for no player that shows its profile 5 and takes it.
pub record IsUnseen (playable : Option Playable) (info : MediaInfo) (dv : DolbyVision)
    : Type 0 where
  pub bare : dv.compat ≡ 0
  pub untaken :
      (p : Playable)
      → playable ≡ some p
      → dv.profile ≡ 5
      → p.dolby_vision.p5 ≡ true
      → takes p info ≡ false

abbrev pub IsJudged : Option Playable → MediaInfo → DolbyVision → Bool → Type 0
IsJudged playable info dv true = IsUnseen playable info dv
IsJudged playable info dv false = (0 < dv.compat) ⊎ IsPictured playable info dv

-- Dolby Vision is kept only for a profile that HLS names, and never for profile 7.
pub keeps_dolby_vision-signal :
    (dv : DolbyVision) (playable : Option Playable)
    → keeps_dolby_vision dv playable ≡ true
    → (is_some (dolby_vision_signal dv) ≡ true) × ((dv.profile ≡ 5) ⊎ (dv.profile ≡ 8))
unfolding keeps_dolby_vision
keeps_dolby_vision-signal dv none h = cc
keeps_dolby_vision-signal dv (some p) h = (
  and_left (is_some (dolby_vision_signal dv)) (shows p.dolby_vision dv.profile) h,
  ground (arith, and_right (is_some (dolby_vision_signal dv)) (shows p.dolby_vision dv.profile) h),
)
