-- ===== src/Playlist/Runs.antt =====
-- A film of 20 seconds, in whole seconds, opened at its ninth.
use den_remux.Prelude.{ℕ, ◌≤◌, ◌≡◌, refl, arith, List, [], ◌∷◌, map}
use den_remux.Prelude.Floats.Whole.{whole}
use den_remux.Playlist.{segments, spans, cuts_loop, segments_for_start}
use den_remux.Playlist.Cuts.{IsPlan, segments_for_start-IsPlan}

abbrev keyframes : List ℕ
keyframes = 0 ∷ 2 ∷ 7 ∷ 9 ∷ 10 ∷ 13 ∷ 19 ∷ []

cut_behind_targets : map (λ s. s.start) (segments whole keyframes 20 6) ≡ 0 ∷ 7 ∷ 13 ∷ 19 ∷ []
unfolding segments spans cuts_loop
cut_behind_targets = refl

segments_for_start-IsPlan_example :
    IsPlan whole (λ t. t ≤ 19) 20 (segments_for_start whole keyframes 20 6 9)
segments_for_start-IsPlan_example =
    segments_for_start-IsPlan whole (λ t. t ≤ 19) keyframes 20 6 9 (ground arith) (ground arith)
