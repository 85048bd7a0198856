-- ===== src/State/Known.antt =====
-- `KnownReleases` of src/state.rs: what opening a release showed of it, without its bulk.
use den_remux.Prelude.{ℕ, ◌≤◌, ◌<◌, ◌≡◌, refl, arith, All, Bool, false, not}
use den_remux.Prelude.{List, [], ◌∷◌, ◌++◌, Option, some, length, leb, if◌then◌else◌, drop}
use den_remux.Prelude.{
  retain, find, length-append, length-retain, find-append_none, All-false-retain, All-drop,
}
use den_remux.Prelude.{Bool-cases, inl, inr, length-drop}
use den_remux.Text.{Text, same}
use den_remux.Text.Same.{same_refl}
use mathlib.Core.Option

abbrev pub known_max : ℕ
known_max = 512

-- The lists of a probe's `MediaInfo`, and its other fields together.
module _ (Time AudioTrack SubtitleTrack Facts : Type 0) where
  pub record MediaInfo : Type 0 where
    pub keyframes : List Time
    pub byte_index : List (Time × ℕ)
    pub audio : List AudioTrack
    pub subtitles : List SubtitleTrack
    pub facts : Facts

  abbrev pub Known : Type 0
  Known = List (Text × MediaInfo)

  unfoldable pub without_bulk : MediaInfo → MediaInfo
  without_bulk i = record i { keyframes = []; byte_index = []; audio = []; subtitles = [] }

  unfoldable pub is_under : Text → Text × MediaInfo → Bool
  is_under key e = same e.0 key

  -- `if self.entries.len() >= KNOWN_MAX { self.entries.pop_front() }`
  unfoldable pub pop_full : Known → Known
  pop_full c = if leb known_max (length c) then drop 1 c else c

  unfoldable pub put : Known → Text → MediaInfo → Known
  put c key info =
      pop_full (retain (λ e. not (is_under key e)) c) ++ ((key, without_bulk info) ∷ [])

  unfoldable pub get : Known → Text → Option MediaInfo
  get c key = Option.map (λ e. e.1) (find (is_under key) c)

  All-pop_full : (P : Text × MediaInfo → Type 0) (c : Known) → All P c → All P (pop_full c)
  unfolding pop_full
  All-pop_full P c h = elim (Bool-cases (leb known_max (length c))) [
    | inl k ↦ rw k (All-drop P 1 c h)
    | inr k ↦ rw k h
  ]

  length-pop_full : (c : Known) → length c ≤ known_max → length (pop_full c) < known_max
  unfolding pop_full
  length-pop_full c h = ground (arith, length-drop 1 c)

  -- If at most 512 releases are known, then after `put` there are still at most 512, and the one put
  -- is found under its key, without its keyframes, byte index, audio and subtitles.
  pub put_lem :
      (c : Known) (key : Text) (info : MediaInfo)
      → length c ≤ known_max
      → (length (put c key info) ≤ known_max)
        × (get (put c key info) key ≡ some (without_bulk info))
  unfolding put get
  put_lem c key info h =
      let kept : Known = retain (λ e. not (is_under key e)) c in
      (
        omega (
          arith,
          length-append (pop_full kept) ((key, without_bulk info) ∷ []),
          length-pop_full kept (omega (arith, length-retain (λ e. not (is_under key e)) c)),
        ),
        rw
            (find-append_none (is_under key) (pop_full kept) ((key, without_bulk info) ∷ []) (
              All-pop_full (λ e. is_under key e ≡ false) kept
                (All-false-retain (is_under key) (λ e. not (is_under key e)) c
                  (λ e k. ground arith))))
            (unfold find is_under in rw (same_refl key) refl),
      )
