-- ===== src/Play/Runs.antt =====
-- A browser, and the releases that it is sent.
use den_remux.Play.Link.{Session}
use den_remux.Prelude.{◌≡◌, refl, arith, true, false, none, some}
use den_remux.Text.{codes}
use den_remux.Codec.Video.{hevc}
use den_remux.Codec.Video.{DolbyVision}
use den_remux.Play.Playable.{
  MediaInfo, Playable, takes, plays, fits, hevc_limit, has_fallback, no_picture, keeps_dolby_vision,
  dolby_vision_signal,
}
use den_remux.Play.Playable.Order.{IsWithin, takes_mono}
use den_remux.Play.Fit.{Attributes}

abbrev browser : Playable
browser = record {
  h264 = 51;
  h264_high10 = 0;
  hevc_main = 153;
  hevc_main10 = 153;
  hevc_high_tier = 0;
  hdr = true;
  eac3 = true;
  aac_multichannel = true;
  dolby_vision = record { p5 = true; p8 = true };
  av1 = 0;
  av1_main10 = 0;
  av1_hdr = false;
  flac = false;
  aac71 = false;
  vp9 = false;
  vp9_profile2 = false;
}

abbrev with_av1 : Playable
with_av1 = record browser { av1 = 8 }

abbrev vision : DolbyVision
vision = record { profile = 5; compat = 0; level = 6 }

abbrev film : MediaInfo
film = record {
  video = hevc;
  codecs = none;
  hdr = true;
  hlg = false;
  dolby_vision = some vision;
  dolby_vision_record_mismatch = false;
}

within : IsWithin browser with_av1
within = record {
  h264 = omega arith;
  h264_high10 = omega arith;
  hevc_main = omega arith;
  hevc_main10 = omega arith;
  hevc_high_tier = omega arith;
  hdr = λ e. e;
  av1 = omega arith;
  av1_main10 = omega arith;
  av1_hdr = λ e. e;
  vp9 = λ e. e;
  vp9_profile2 = λ e. e;
}

takes_mono_example : takes with_av1 film ≡ true
takes_mono_example = takes_mono browser with_av1 film within (unfold takes fits hevc_limit in refl)

-- It is let through.
film_pictured : no_picture (some browser) true film ≡ false
unfolding no_picture has_fallback keeps_dolby_vision dolby_vision_signal plays takes fits hevc_limit
film_pictured = refl

abbrev listed : Attributes
listed = record {
  codec = some (codes "HEVC");
  resolution = some (codes "2160p");
  hdr = true;
  bit_depth = 10;
  dv_profile = 0;
  probed = true;
}

abbrev elsewhere : Session
elsewhere = record {
  sid = codes "b";
  max_bitrate = some 9;
  need = some (record { bitrate = 6; indexed = true });
}
