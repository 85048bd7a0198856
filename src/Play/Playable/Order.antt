-- ===== src/Play/Playable/Order.antt =====
-- A player that can do more takes more.
use den_remux.Prelude.{ℕ, ◌≤◌, ◌≡◌, arith, max, Bool, true, not, ◌&&◌, ◌||◌}
use den_remux.Prelude.{Option, none, some, ◌>>=◌, get_elem?, Bool-cases, inl, inr}
use den_remux.Text.{Text}
use den_remux.Text.Split.{split}
use den_remux.Codec.Names.Read.{Named, profile_level, av1_bit_depth}
use den_remux.Codec.Video.{VideoCodec, h264, hevc, av1, vp9, other}
use den_remux.Play.Playable.{
  MediaInfo, Playable, fits, h264_limit, hevc_limit, beyond_main, depth_limit, av1_limit, vp9_taken,
  takes,
}

abbrev Implies : Bool → Bool → Type 0
Implies a b = a ≡ true → b ≡ true

-- Each limit of a video codec is at most the other's, and each video format taken is taken by it.
pub record IsWithin (p q : Playable) : Type 0 where
  pub h264 : p.h264 ≤ q.h264
  pub h264_high10 : p.h264_high10 ≤ q.h264_high10
  pub hevc_main : p.hevc_main ≤ q.hevc_main
  pub hevc_main10 : p.hevc_main10 ≤ q.hevc_main10
  pub hevc_high_tier : p.hevc_high_tier ≤ q.hevc_high_tier
  pub hdr : Implies p.hdr q.hdr
  pub av1 : p.av1 ≤ q.av1
  pub av1_main10 : p.av1_main10 ≤ q.av1_main10
  pub av1_hdr : Implies p.av1_hdr q.av1_hdr
  pub vp9 : Implies p.vp9 q.vp9
  pub vp9_profile2 : Implies p.vp9_profile2 q.vp9_profile2

fits_mono : (n : Option Named) (a b : ℕ) → a ≤ b → Implies (fits n a) (fits n b)
unfolding fits
fits_mono none a b h e = ground arith
fits_mono (some n) a b h e = ground arith

and_mono : (a b c d : Bool) → Implies a b → Implies c d → Implies (a && c) (b && d)
and_mono a b c d f g h = ground arith

or_mono : (a b c : Bool) → Implies b c → Implies (a || b) (a || c)
or_mono a b c f h = ground arith

module _ (p q : Playable) (w : IsWithin p q) where
  h264_mono : (n : Option Named) → h264_limit p n ≤ h264_limit q n
  unfolding h264_limit
  h264_mono none = w.h264
  h264_mono (some n) = ground (arith, w.h264, w.h264_high10)

  main_mono : max p.hevc_main p.hevc_main10 ≤ max q.hevc_main q.hevc_main10
  main_mono = omega (arith, w.hevc_main, w.hevc_main10)

  hevc_mono : (n : Option Named) → hevc_limit p n ≤ hevc_limit q n
  unfolding hevc_limit
  hevc_mono none = main_mono
  hevc_mono (some n) = ground (arith, main_mono, w.hevc_main10, w.hevc_high_tier)

  depth_mono : (d : Option ℕ) → depth_limit p d ≤ depth_limit q d
  depth_mono none = omega (arith, w.av1, w.av1_main10)
  depth_mono (some d) = ground (arith, w.av1, w.av1_main10)

  av1_mono : (n : Option Named) (d : Option ℕ) → av1_limit p n d ≤ av1_limit q n d
  unfolding av1_limit
  av1_mono n d = elim (Bool-cases (beyond_main n)) [
    | inl e ↦ rw e (omega arith)
    | inr e ↦ rw e (depth_mono d)
  ]

  vp9_mono : (n : Option Named) (d : Option Text) → Implies (vp9_taken p n d) (vp9_taken q n d)
  unfolding vp9_taken
  vp9_mono none d e = e
  vp9_mono (some n) d e = ground (arith, w.vp9, w.vp9_profile2)

-- A player that can do more takes more: where each level of one player is at most that of another,
-- and each format that it decodes is decoded by the other, whatever video the first takes as it is,
-- the other takes too.
pub takes_mono :
    (p q : Playable) (info : MediaInfo) → IsWithin p q → takes p info ≡ true → takes q info ≡ true
unfolding takes
takes_mono p q info w = go info.video
  where
    named : Option Named
    named = info.codecs >>= profile_level

    go :
        (v : VideoCodec)
        → Implies (takes p (record info { video = v })) (takes q (record info { video = v }))
    go h264 = fits_mono named (h264_limit p named) (h264_limit q named) (h264_mono p q w named)
    go hevc =
        and_mono _ _ _ _
          (fits_mono named (hevc_limit p named) (hevc_limit q named) (hevc_mono p q w named))
          (or_mono (not info.hdr) p.hdr q.hdr w.hdr)
    go av1 =
        let depth : Option ℕ = info.codecs >>= av1_bit_depth in
        and_mono _ _ _ _
          (fits_mono named (av1_limit p named depth) (av1_limit q named depth)
            (av1_mono p q w named depth))
          (or_mono (not info.hdr) p.av1_hdr q.av1_hdr w.av1_hdr)
    go vp9 = vp9_mono p q w named (info.codecs >>= λ c. get_elem? (split b'.' c) 3)
    go (other name) = λ e. e
