-- ===== src/Play/Fit.antt =====
-- `fit` of src/session.rs: how a release will play, by what scout says of it before anything is opened.
use den_remux.Prelude.{ℕ, ◌≡◌, ◌≢◌, refl, arith, max, Bool, false, not, ◌&&◌, ◌||◌}
use den_remux.Prelude.{Option, none, some, ltb, leb, ◌==◌, if◌then◌else◌, Bool-cases, inl, inr, ◌⊎◌}
use den_remux.Text.{Text, codes, same, to_lower}
use den_remux.Play.Playable.{Playable, takes_vp9}

-- The fields of scout's `Attributes` that `fit` reads.
pub record Attributes : Type 0 where
  pub codec : Option Text
  pub resolution : Option Text
  pub hdr : Bool
  pub bit_depth : ℕ
  pub dv_profile : ℕ
  pub probed : Bool

pub data Fit : Type 0 where
  copy : Fit
  convert : Fit
  never : Fit

abbrev pub is_uhd : Option Text → Bool
is_uhd none = false
is_uhd (some r) = same (to_lower r) (codes "2160p") || same (to_lower r) (codes "4k")

-- What the codec's name is.
pub data Kind : Type 0 where
  h264 : Kind
  hevc : Kind
  av1 : Kind
  vp9 : Kind
  unnamed : Kind

unfoldable pub kind_of : Option Text → Kind
kind_of none = unnamed
kind_of (some c) =
    if same (to_lower c) (codes "h264")
    then h264
    else if same (to_lower c) (codes "hevc")
    then hevc
    else if same (to_lower c) (codes "av1")
    then av1
    else if same (to_lower c) (codes "vp9")
    then vp9
    else unnamed

unfoldable pub h264_fit : Attributes → Playable → Bool → Bool → Fit
h264_fit a p uhd ten_bit =
    let limit = if ten_bit && (a.probed || not a.hdr) then p.h264_high10 else p.h264 in
    if (limit == 0) || (uhd && ltb limit 51) then never else copy

unfoldable pub hevc_fit : Attributes → Playable → Bool → Bool → Fit
hevc_fit a p uhd ten_bit =
    let limit = if ten_bit then p.hevc_main10 else max p.hevc_main p.hevc_main10 in
    if (limit == 0) || ((uhd && ltb limit 150) || (a.hdr && not p.hdr)) then convert else copy

abbrev pub av1_best : Option Playable → Bool → ℕ
av1_best none ten_bit = 0
av1_best (some p) ten_bit = if ten_bit then p.av1_main10 else max p.av1 p.av1_main10

abbrev pub shows_av1_hdr : Option Playable → Bool
shows_av1_hdr none = false
shows_av1_hdr (some p) = p.av1_hdr

unfoldable pub av1_fit : Attributes → Option Playable → Bool → Bool → Fit
av1_fit a playable uhd ten_bit =
    let limit = av1_best playable ten_bit in
    if (limit == 0) || ((uhd && ltb limit 12) || (a.hdr && not (shows_av1_hdr playable)))
    then never
    else copy

abbrev pub vp9_fits : Option Playable → ℕ → Bool
vp9_fits none depth = false
vp9_fits (some p) depth =
    if depth == 0 then takes_vp9 p else if leb 10 depth then p.vp9_profile2 else p.vp9

unfoldable pub kind_fit : Kind → Option Playable → Attributes → Bool → Bool → Bool → Fit
kind_fit h264 (some p) a takes_hevc uhd ten_bit = h264_fit a p uhd ten_bit
kind_fit hevc (some p) a takes_hevc uhd ten_bit = hevc_fit a p uhd ten_bit
kind_fit av1 playable a takes_hevc uhd ten_bit = av1_fit a playable uhd ten_bit
kind_fit vp9 playable a takes_hevc uhd ten_bit =
    if vp9_fits playable a.bit_depth then copy else never
kind_fit hevc none a takes_hevc uhd ten_bit = if takes_hevc then copy else convert
kind_fit h264 none a takes_hevc uhd ten_bit = copy
kind_fit unnamed playable a takes_hevc uhd ten_bit = copy

abbrev pub shows_p5 : Option Playable → Bool
shows_p5 none = false
shows_p5 (some p) = p.dolby_vision.p5

unfoldable pub fit : Attributes → Option Playable → Bool → Fit
fit a playable takes_hevc =
    if (a.dv_profile == 5) && not (shows_p5 playable)
    then convert
    else kind_fit (kind_of a.codec) playable a takes_hevc (is_uhd a.resolution) (leb 10 a.bit_depth)

kind_fit-converts :
    (k : Kind) (playable : Option Playable) (a : Attributes) (takes_hevc uhd ten_bit : Bool)
    → kind_fit k playable a takes_hevc uhd ten_bit ≡ convert
    → k ≡ hevc
unfolding kind_fit h264_fit av1_fit
kind_fit-converts h264 (some p) a t u b h = ground arith
kind_fit-converts h264 none a t u b h = ground arith
kind_fit-converts hevc (some p) a t u b h = refl
kind_fit-converts hevc none a t u b h = refl
kind_fit-converts av1 playable a t u b h = ground arith
kind_fit-converts vp9 playable a t u b h = ground arith
kind_fit-converts unnamed playable a t u b h = ground arith

kind_fit-refuses :
    (k : Kind) (playable : Option Playable) (a : Attributes) (takes_hevc uhd ten_bit : Bool)
    → kind_fit k playable a takes_hevc uhd ten_bit ≡ never
    → k ≢ hevc
unfolding kind_fit hevc_fit
kind_fit-refuses h264 playable a t u b h = cc
kind_fit-refuses hevc (some p) a t u b h = ground arith
kind_fit-refuses hevc none a t u b h = ground arith
kind_fit-refuses av1 playable a t u b h = cc
kind_fit-refuses vp9 playable a t u b h = cc
kind_fit-refuses unnamed playable a t u b h = cc

-- Only an HEVC release, or one of Dolby Vision profile 5 whose player does not show it, is ever to
-- be converted; and an HEVC release is never ruled out before it is opened.
pub fit_lem :
    (a : Attributes) (playable : Option Playable) (takes_hevc : Bool)
    → (fit a playable takes_hevc ≡ convert
        → (kind_of a.codec ≡ hevc) ⊎ ((a.dv_profile ≡ 5) × (shows_p5 playable ≡ false)))
      × (fit a playable takes_hevc ≡ never → kind_of a.codec ≢ hevc)
unfolding fit
fit_lem a playable takes_hevc = elim (Bool-cases ((a.dv_profile == 5) && not (shows_p5 playable))) [
  | inl e ↦ ((λ h. inr (ground arith, ground arith)), λ h. ground arith)
  | inr e ↦ rw e (
    (λ h. inl (
        kind_fit-converts (kind_of a.codec) playable a takes_hevc (is_uhd a.resolution)
          (leb 10 a.bit_depth) h)),
    kind_fit-refuses (kind_of a.codec) playable a takes_hevc (is_uhd a.resolution)
        (leb 10 a.bit_depth),
  )
]
