-- ===== src/Lang/Runs.antt =====
-- Choices among a few audio tracks.
use den_remux.Prelude.{true, false, [], ◌∷◌, some}
use den_remux.Text.{codes}
use den_remux.Lang.{AudioTrack, pick_audio}
use den_remux.Lang.Picked.{IsPicked, pick_audio-IsPicked}

abbrev english : AudioTrack
english = record { language = some (codes "eng"); default = true; commentary = true }

abbrev finnish : AudioTrack
finnish = record { language = some (codes "fi"); default = false; commentary = false }

pick_audio-IsPicked_example :
    IsPicked
      (english ∷ finnish ∷ [])
      (pick_audio (english ∷ finnish ∷ []) (codes "en" ∷ codes "fin" ∷ []))
pick_audio-IsPicked_example =
    pick_audio-IsPicked (english ∷ finnish ∷ []) (codes "en" ∷ codes "fin" ∷ [])
