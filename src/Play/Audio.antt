-- ===== src/Play/Audio.antt =====
-- How an audio track is sent: `audio_plan` of src/session.rs and `AudioOut` of src/job.rs.
use den_remux.Prelude.{ℕ, ◌≤◌, ◌≡◌, refl, arith, max, Bool, false, not, ◌&&◌, ◌||◌}
use den_remux.Prelude.{Option, none, some, leb, if◌then◌else◌, or_else}
use den_remux.Text.{Text, codes, same, strip_prefix}
use den_remux.Play.Playable.{Playable, is_some}

-- The HLS codec of a copied track.
pub data Copied : Type 0 where
  ec3 : Copied
  ac3 : Copied
  flac : Copied

pub data AudioOut : Type 0 where
  copy : AudioOut
  stereo : AudioOut
  surround : AudioOut
  surround71 : AudioOut

-- `AudioOut::aac_bitrate`
unfoldable pub aac_bitrate : AudioOut → Option ℕ
aac_bitrate copy = none
aac_bitrate stereo = some 192000
aac_bitrate surround = some 384000
aac_bitrate surround71 = some 512000

-- `AudioOut::channels`
unfoldable pub channels : AudioOut → ℕ → ℕ
channels copy source = source
channels stereo source = 2
channels surround source = 6
channels surround71 source = 8

unfoldable pub dolby_codec : Text → Option Copied
dolby_codec c =
    if same c (codes "A_EAC3") || same c (codes "ec-3")
    then some ec3
    else if is_some (strip_prefix (codes "A_AC3") c) || same c (codes "ac-3")
    then some ac3
    else none

unfoldable pub flac_codec : Text → Option Copied
flac_codec c = if same c (codes "A_FLAC") || same c (codes "fLaC") then some flac else none

-- What the player says of the audio it plays; nothing, where it says nothing.
pub record Plays : Type 0 where
  pub eac3 : Bool
  pub flac : Bool
  pub aac71 : Bool
  pub aac_multichannel : Bool

-- `playable.copied().unwrap_or_default()`
unfoldable pub audio_of : Option Playable → Plays
audio_of none = record { eac3 = false; flac = false; aac71 = false; aac_multichannel = false }
audio_of (some p) = record {
  eac3 = p.eac3;
  flac = p.flac;
  aac71 = p.aac71;
  aac_multichannel = p.aac_multichannel;
}

-- `Option::filter`
abbrev pub only : Bool → Option Copied → Option Copied
only keep o = if keep then o else none

unfoldable pub copy_of : Text → Plays → Option Copied
copy_of c p = or_else (only p.eac3 (dolby_codec c)) (only p.flac (flac_codec c))

unfoldable pub out_of : Option Copied → ℕ → Plays → AudioOut
out_of (some c) n p = copy
out_of none n p =
    if leb 8 n && p.aac71
    then surround71
    else if leb 6 n && p.aac_multichannel
    then surround
    else stereo

unfoldable pub audio_plan : Text → ℕ → Option Playable → Option Copied × AudioOut
audio_plan c n playable =
    (copy_of c (audio_of playable), out_of (copy_of c (audio_of playable)) n (audio_of playable))

-- A track is copied exactly if it has no AAC rate.
out_of-rate :
    (o : Option Copied) (n : ℕ) (p : Plays) → is_some o ≡ not (is_some (aac_bitrate (out_of o n p)))
unfolding out_of aac_bitrate
out_of-rate (some c) n p = refl
out_of-rate none n p = ground arith

out_of-channels : (o : Option Copied) (n : ℕ) (p : Plays) → channels (out_of o n p) n ≤ max n 2
unfolding out_of channels
out_of-channels (some c) n p = omega arith
out_of-channels none n p = ground arith

-- Whatever the track and the player: an audio track is never sent with more channels than it has, or
-- two; and it is named as a copy exactly if it is not encoded to AAC.
pub audio_plan_lem :
    (c : Text) (n : ℕ) (playable : Option Playable)
    → (channels (audio_plan c n playable).1 n ≤ max n 2)
      × (is_some (audio_plan c n playable).0
          ≡ not (is_some (aac_bitrate (audio_plan c n playable).1)))
unfolding audio_plan
audio_plan_lem c n playable = (
  out_of-channels (copy_of c (audio_of playable)) n (audio_of playable),
  out_of-rate (copy_of c (audio_of playable)) n (audio_of playable),
)
