-- ===== src/Codec/Video.antt =====
-- `VideoCodec` and `DolbyVision` of src/probe/mod.rs.
use den_remux.Prelude.{ℕ}
use den_remux.Text.{Text}

pub data VideoCodec : Type 0 where
  h264 : VideoCodec
  hevc : VideoCodec
  av1 : VideoCodec
  vp9 : VideoCodec
  other : Text → VideoCodec

pub record DolbyVision : Type 0 where
  pub profile : ℕ
  pub compat : ℕ
  pub level : ℕ
