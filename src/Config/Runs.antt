-- ===== src/Config/Runs.antt =====
-- Addresses that move to their LAN origin, or stay.
use den_remux.Prelude.{◌≡◌, refl, List, [], ◌∷◌}
use den_remux.Text.{Text, codes, strip_prefix}
use den_remux.Config.{local}

abbrev aliases : List (Text × Text)
aliases = (codes "https://a.b", codes "http://c") ∷ []

origin_moves : local (codes "https://a.b/x?y") aliases ≡ codes "http://c/x?y"
unfolding local strip_prefix
origin_moves = refl

longer_host_stays : local (codes "https://a.bc/x") aliases ≡ codes "https://a.bc/x"
unfolding local strip_prefix
longer_host_stays = refl
