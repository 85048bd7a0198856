-- ===== src/Subs/Plan.antt =====
-- `plan` of src/subs.rs: the subtitle renditions of a session, and where the cues of each come from. A language is as
-- `canonical` gives it, and a tier is a number: 0 for a full track, 1 for the hard of hearing, 2 for forced.
pub mod Distinct
pub mod Own
pub mod Offered
pub mod Kept
use den_remux.Prelude.{
  ℕ, zero, suc, ◌+◌, ◌-◌, Bool, true, false, not, ◌&&◌, ◌||◌, List, [], ◌∷◌, ◌++◌, Option, none,
  some, ltb, leb, length, take, if◌then◌else◌, retain, find, filter_map,
}
use den_remux.Text.{Text, codes, same}
use den_remux.Lang.{canonical}
use mathlib.Core.Option

-- The fields of `SubtitleTrack` that the choice reads.
pub record SubtitleTrack : Type 0 where
  pub language : Option Text
  pub text : Bool
  pub forced : Bool
  pub hearing_impaired : Bool

-- A candidate of den-subtitles.
pub record Entry : Type 0 where
  pub url : Text
  pub lang : Text
  pub foreign_parts_only : Bool
  pub looks_dubbed : Bool

pub record Rendition : Type 0 where
  pub lang : Text
  pub den : Bool
  pub own : Option ℕ

abbrev pub full_tier : ℕ
full_tier = 0

abbrev pub sdh_tier : ℕ
sdh_tier = 1

abbrev pub forced_tier : ℕ
forced_tier = 2

unfoldable pub own_tier : SubtitleTrack → ℕ
own_tier t = if t.forced then forced_tier else if t.hearing_impaired then sdh_tier else full_tier

unfoldable pub in_context : ℕ → Bool → ℕ
in_context tier dub = if dub then forced_tier - tier else tier

-- `Entry::tier`
unfoldable pub entry_tier : Entry → ℕ
entry_tier e = if e.foreign_parts_only || e.looks_dubbed then forced_tier else full_tier

unfoldable pub own_wins : SubtitleTrack → Option Entry → Bool → Bool
own_wins own none dub = true
own_wins own (some e) dub = leb (in_context (own_tier own) dub) (in_context (entry_tier e) dub)

unfoldable pub enumerate : ℕ → List SubtitleTrack → List (ℕ × SubtitleTrack)
enumerate i [] = []
enumerate i (t ∷ ts) = (i, t) ∷ enumerate (suc i) ts

-- `min_by_key`: the first of the least.
unfoldable pub least :
    (SubtitleTrack → ℕ) → ℕ × SubtitleTrack → List (ℕ × SubtitleTrack) → ℕ × SubtitleTrack
least rank best [] = best
least rank best (c ∷ cs) = least rank (if ltb (rank c.1) (rank best.1) then c else best) cs

unfoldable pub min_by_key : (SubtitleTrack → ℕ) → List (ℕ × SubtitleTrack) → Option ℕ
min_by_key rank [] = none
min_by_key rank (c ∷ cs) = some (least rank c cs).0

abbrev pub is_lang : Text → Option Text → Bool
is_lang lang none = false
is_lang lang (some l) = same l lang

abbrev pub is_dub : Text → Option Text → Bool
is_dub lang audio_lang = is_lang lang audio_lang

abbrev pub is_candidate : Text → Bool → SubtitleTrack → Bool
is_candidate lang dub t =
    t.text && (is_lang lang (Option.map canonical t.language) && (dub || not t.forced))

unfoldable pub best_own : List SubtitleTrack → Text → Option Text → Option ℕ
best_own tracks lang audio_lang =
    min_by_key (λ t. in_context (own_tier t) (is_dub lang audio_lang))
      (retain (λ c. is_candidate lang (is_dub lang audio_lang) c.1) (enumerate 0 tracks))

abbrev pub is_blank : Option Text → Bool
is_blank none = true
is_blank (some []) = true
is_blank (some (c ∷ s)) = false

abbrev pub is_undetermined : SubtitleTrack → Bool
is_undetermined t = t.text && (is_blank (Option.map canonical t.language) && not t.forced)

unfoldable pub best_undetermined : List SubtitleTrack → Option ℕ
best_undetermined tracks =
    min_by_key own_tier (retain (λ c. is_undetermined c.1) (enumerate 0 tracks))

abbrev pub undetermined : Text
undetermined = codes "und"

-- The key of a track, and the best of its candidates.
abbrev pub key_of : Option Text → Text
key_of none = undetermined
key_of (some []) = undetermined
key_of (some (c ∷ s)) = c ∷ s

abbrev pub best_of : List SubtitleTrack → Option Text → Option Text → Option ℕ
best_of tracks audio_lang none = best_undetermined tracks
best_of tracks audio_lang (some []) = best_undetermined tracks
best_of tracks audio_lang (some (c ∷ s)) = best_own tracks (c ∷ s) audio_lang

-- `own.iter().find(|(l, _)| l == lang).map(|(_, n)| *n)`
unfoldable pub found : Text → List (Text × ℕ) → Option ℕ
found lang [] = none
found lang (o ∷ os) = if same o.0 lang then some o.1 else found lang os

abbrev pub is_some {ℓ} : {A : Type ℓ} → Option A → Bool
is_some none = false
is_some (some a) = true

abbrev pub pushed : Text → Option ℕ → List (Text × ℕ) → List (Text × ℕ)
pushed key none own = own
pushed key (some n) own = own ++ ((key, n) ∷ [])

abbrev pub noted :
    List SubtitleTrack → Option Text → SubtitleTrack → List (Text × ℕ) → List (Text × ℕ)
noted tracks audio_lang t own =
    let lang = Option.map canonical t.language in
    if t.text && not (is_some (found (key_of lang) own))
    then pushed (key_of lang) (best_of tracks audio_lang lang) own
    else own

unfoldable pub own_loop :
    List SubtitleTrack → Option Text → List SubtitleTrack → List (Text × ℕ) → List (Text × ℕ)
own_loop tracks audio_lang [] own = own
own_loop tracks audio_lang (t ∷ ts) own =
    own_loop tracks audio_lang ts (noted tracks audio_lang t own)

unfoldable pub contains : Text → List Text → Bool
contains t [] = false
contains t (s ∷ ss) = same s t || contains t ss

unfoldable pub prefer : List Text → Text → List Text
prefer preferred lang = if contains lang preferred then preferred else preferred ++ (lang ∷ [])

unfoldable pub prefer_all : List Text → List Text → List Text
prefer_all preferred [] = preferred
prefer_all preferred (l ∷ ls) = prefer_all (prefer preferred l) ls

abbrev pub listed {ℓ} : {A : Type ℓ} → Option A → List A
listed none = []
listed (some a) = a ∷ []

abbrev pub first_of : List Text → List Text
first_of [] = []
first_of (l ∷ ls) = l ∷ []

unfoldable pub preferred_of : List Text → Option Text → List Text
preferred_of requested audio_lang =
    prefer_all (prefer_all (prefer (prefer_all [] (first_of requested)) (codes "en")) requested)
      (listed audio_lang)

unfoldable pub is_listed : Text → List Entry → Bool
is_listed lang [] = false
is_listed lang (e ∷ es) = same (canonical e.lang) lang || is_listed lang es

abbrev pub rendition_if : Text → Bool → Option ℕ → Option Rendition
rendition_if lang den own =
    if den || is_some own then some (record { lang = lang; den = den; own = own }) else none

unfoldable pub rendition_of : List (Text × ℕ) → Bool → List Entry → Text → Option Rendition
rendition_of own den den_list lang =
    rendition_if lang (den && (is_some (found lang own) || is_listed lang den_list))
      (found lang own)

abbrev pub max_languages : ℕ
max_languages = 8

unfoldable pub offers : Text → List Rendition → Bool
offers lang [] = false
offers lang (r ∷ rs) = same r.lang lang || offers lang rs

unfoldable pub fill : List (Text × ℕ) → List Rendition → List Rendition
fill [] out = out
fill (o ∷ os) out = fill os (
    if ltb (length out) max_languages && not (offers o.0 out)
    then out ++ (record { lang = o.0; den = false; own = some o.1 } ∷ [])
    else out)

unfoldable pub plan :
    List Text → Bool → List SubtitleTrack → Option Text → List Entry → List Rendition
plan requested den tracks audio_lang den_list =
    let own = own_loop tracks audio_lang tracks [] in
    take max_languages
      (fill own (filter_map (rendition_of own den den_list) (preferred_of requested audio_lang)))
