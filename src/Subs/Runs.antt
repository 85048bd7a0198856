-- ===== src/Subs/Runs.antt =====
-- A session's renditions for a release of a few tracks.
use den_remux.Prelude.{true, false, List, [], ◌∷◌, none, some, ◌≡◌, refl, retain, filter_map, find}
use den_remux.Text.{codes, same, to_lower}
use den_remux.Lang.{canonical, entry, langs, is_spelled, primary}
use den_remux.Subs.Plan.{
  SubtitleTrack, Entry, plan, own_loop, best_own, best_undetermined, min_by_key, least, enumerate,
  found, own_tier, in_context, prefer_all, prefer, preferred_of, contains, fill, rendition_of,
  is_listed, offers,
}

-- A forced English track, a Finnish one, and one that names no language.
abbrev release : List SubtitleTrack
release =
    record { language = some (codes "eng"); text = true; forced = true; hearing_impaired = false }
    ∷ record { language = some (codes "fi"); text = true; forced = false; hearing_impaired = true }
    ∷ record { language = none; text = true; forced = false; hearing_impaired = false }
    ∷ []

abbrev downloads : List Entry
downloads =
    record { url = codes "/1"; lang = codes "en"; foreign_parts_only = false; looks_dubbed = false }
    ∷ []

-- The forced English track is not offered, so that English is asked of den-subtitles.
planned :
    plan (codes "fi" ∷ codes "sv" ∷ []) true release (some (codes "fi")) downloads
    ≡ record { lang = codes "fi"; den = true; own = some 1 }
      ∷ record { lang = codes "en"; den = true; own = none }
      ∷ record { lang = codes "und"; den = false; own = some 2 }
      ∷ []
unfolding plan own_loop best_own best_undetermined min_by_key least enumerate found own_tier
    in_context prefer_all prefer preferred_of contains fill rendition_of is_listed offers canonical
    retain filter_map entry find langs is_spelled same to_lower primary
planned = refl
