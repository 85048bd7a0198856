-- ===== src/Subs/Plan/Kept.antt =====
-- What `plan` gives: which renditions, how many, and which languages are never left out.
use den_remux.Prelude.{ℕ, ◌≤◌, ◌≡◌, Bool, true, List, [], Option, length, All, filter_map}
use den_remux.Text.{Text, codes}
use den_remux.Subs.Plan.{
  SubtitleTrack, Entry, Rendition, is_some, own_loop, contains, prefer, prefer_all, first_of,
  preferred_of, rendition_of, offers,
}
use den_remux.Subs.Plan.Distinct.{IsDistinct}
use den_remux.Subs.Plan.Offered.{IsServable}

-- The languages that come first: the first that was asked for, and English.
abbrev pub leading : List Text → List Text
leading requested = prefer (prefer_all [] (first_of requested)) (codes "en")

module _ (requested : List Text) (den : Bool) (tracks : List SubtitleTrack)
    (audio_lang : Option Text) (den_list : List Entry) where
  abbrev pub own_tracks : List (Text × ℕ)
  own_tracks = own_loop tracks audio_lang tracks []

  abbrev pub rendition : Text → Option Rendition
  rendition lang = rendition_of own_tracks den den_list lang

  pub record IsPlanned (out : List Rendition) : Type 0 where
    pub few : length out ≤ 8
    pub servable : All (IsServable tracks audio_lang den den_list) out
    pub distinct : IsDistinct out
    pub kept :
        (lang : Text)
        → contains lang (leading requested) ≡ true
        → is_some (rendition lang) ≡ true
        → offers lang out ≡ true

  abbrev wanted : List Rendition
  wanted = filter_map rendition (preferred_of requested audio_lang)
