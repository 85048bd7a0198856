-- ===== src/State/Runs.antt =====
-- Runs of the caches over a few entries. What a probe found is a number here.
use den_remux.Prelude.{ℕ, ◌≤◌, ◌≡◌, ◌≢◌, arith, ap, List, [], ◌∷◌, some, length}
use den_remux.Text.{Text, codes}
use den_remux.State.Opened
use den_remux.State.Opened.{Resolved}
use den_remux.State.Opened.Bounds.{operations-IsValid}
use den_remux.State.Opened.Lookup.{get-put_self}
use den_remux.State.Known.{MediaInfo}
use den_remux.State.Unplayable
use den_remux.State.Unplayable.{length-put, get-put_reason}

abbrev link : Resolved
link = record { url = codes "https://cdn/a"; head = 1 ∷ 2 ∷ []; size = some 9 }

abbrev one : List (Opened.Opened ℕ)
one = record { key = codes "a"; at = 5; resolved = link; info = 7 } ∷ []

one-IsValid : Opened.IsValid ℕ one
one-IsValid = record { bounded = omega arith; distinct = (tt, tt) }

operations-IsValid_example :
    Opened.IsValid ℕ (Opened.put ℕ one (codes "b") link 8 6)
    × Opened.IsValid ℕ (Opened.get ℕ one (codes "b") 6).1
    × Opened.IsValid ℕ (Opened.forget ℕ one (codes "b"))
operations-IsValid_example = operations-IsValid ℕ one (codes "b") link 8 6 one-IsValid

get-put_self_example :
    (Opened.get ℕ (Opened.put ℕ one (codes "a") link 8 6) (codes "a") 100).0 ≡ some (link, 8)
get-put_self_example = get-put_self ℕ one (codes "a") link 8 6 100

first_code : Text → ℕ
first_code [] = 0
first_code (c ∷ cs) = c

names_differ : codes "b" ≢ codes "a"
names_differ e = ground (arith, ap first_code e)

abbrev film : MediaInfo ℕ ℕ ℕ ℕ
film = record { keyframes = 0 ∷ 2 ∷ []; byte_index = []; audio = 1 ∷ []; subtitles = []; facts = 3 }

abbrev none_yet : Unplayable.Unplayable
none_yet = record { entries = []; generation = 0 }

length-put_example :
    length (Unplayable.put none_yet (codes "a") (codes "av1") 50).entries
    ≤ Unplayable.unplayable_max
length-put_example = length-put none_yet (codes "a") (codes "av1") 50 (omega arith)
