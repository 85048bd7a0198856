-- ===== src/Sessions/Runs.antt =====
-- Small servers and sessions: a slot that is taken, published and dropped, a segment of two GOPs, and a restart.
use den_remux.Prelude.{
  ℕ, ◌≤◌, ◌≡◌, refl, arith, true, false, List, [], ◌∷◌, Option, none, some, ok, ◌==◌, retain,
}
use den_remux.Prelude.Floats.Whole.{whole}
use den_remux.Text.{Text, codes, same}
use den_remux.Playlist.{Segment}
use den_remux.Sessions.Admission.{
  Live, Server, Slot, reserve, chosen, decided, granted, fits, excess_at, mine, sort, sorted_in,
  text_less, remove, remove_all, count_of, total, bump,
}
use den_remux.Sessions.Admission.Lists.{IsDistinct, holds}
use den_remux.Sessions.Admission.Counts.{World}
use den_remux.Sessions.Admission.Steps.{starts, goes_on, reserves, empty}
use den_remux.Sessions.Admission.Bounds.{IsSound, Reach-IsSound}
use den_remux.Sessions.Admission.Share.{IsFair, reserve-IsFair}
use den_remux.Sessions.Admission.Due.{IsDue, reserve-IsDue}
use den_remux.Sessions.Starts.{starts_per_minute}
use den_remux.Sessions.Starts.Limit.{passes, passes_bounded}
use den_remux.Sessions.Gops.{Gop, ready_chain}
use den_remux.Sessions.Gops.Chain.{Serves, ready_chain-Serves}
use den_remux.Sessions.Producer.{Producer, pick_reap_victim, restart_point}
use den_remux.Sessions.Producer.Scratch.{Disk, refresh}
use den_remux.Sessions.Producer.Bytes.{IsCounted, Reach-IsCounted}
use den_remux.Sessions.Producer.Bytes
use den_remux.Sessions.Producer.Restart.{
  Picks, pick_reap_victim-Picks, IsRestart, restart_point-IsRestart,
}

abbrev anna : Text
anna = codes "anna"

abbrev film : Live
film = record { sid = codes "s1"; owner = anna; started = 5; exp = 900 }

abbrev other_film : Live
other_film = record { sid = codes "s2"; owner = anna; started = 7; exp = 900 }

abbrev slot : Slot
slot = record { owner = anna; replaces = none }

abbrev starting : World
starting = record {
  server = record { sessions = []; creating = (anna, 1) ∷ []; replacements = []; tombstones = [] };
  held = record { slot = slot; published = false } ∷ [];
}

first_slot : reserve 2 empty.server anna 1 none ≡ ok (starting.server, (slot, []))
unfolding reserve decided chosen granted fits excess_at mine sort retain count_of total bump
    remove_all
first_slot = refl

Reach-IsSound_example : IsSound 2 starting
Reach-IsSound_example =
    Reach-IsSound 2 starting
      (goes_on starts (reserves empty anna 1 none starting.server slot [] first_slot))

abbrev watching : Server
watching = record {
  sessions = film ∷ other_film ∷ [];
  creating = [];
  replacements = [];
  tombstones = [];
}

abbrev given : Server
given = record {
  sessions = other_film ∷ [];
  creating = (anna, 1) ∷ [];
  replacements = [];
  tombstones = [];
}

-- The older of two sessions gives way.
oldest_goes : reserve 3 watching anna 2 none ≡ ok (given, (slot, film ∷ []))
unfolding reserve decided chosen granted fits excess_at mine sort sorted_in text_less retain remove
    remove_all count_of total bump same
oldest_goes = refl

reserve-IsFair_example : IsFair watching anna 2 given slot (film ∷ [])
reserve-IsFair_example =
    reserve-IsFair 3 watching anna 2 none given slot (film ∷ [])
      (unfold IsDistinct holds same in (refl, (refl, tt))) oldest_goes

-- Another's session is not replaced.
reserve-IsDue_example :
    IsDue 3 watching
      (codes "ben")
      2
      (some (codes "s1"))
      (reserve 3 watching (codes "ben") 2 (some (codes "s1")))
reserve-IsDue_example = reserve-IsDue 3 watching (codes "ben") 2 (some (codes "s1"))

passes_bounded_example : passes ◌==◌ 1 ((1, 600) ∷ (2, 630) ∷ (1, 659) ∷ []) [] ≤ starts_per_minute
passes_bounded_example =
    passes_bounded ◌==◌ (λ a. ground arith) (λ a b e. ground (arith, e)) 10 1
      ((1, 600) ∷ (2, 630) ∷ (1, 659) ∷ []) [] (refl, (refl, (refl, tt)))
      (record { few = omega arith; each = tt })

abbrev first_gop : Gop whole
first_gop = record { job = 1; idx = 0; start = 0; dur = 2; path = codes "g0"; size = 30 }

abbrev second_gop : Gop whole
second_gop = record { job = 1; idx = 1; start = 2; dur = 4; path = codes "g1"; size = 50 }

abbrev segments : List (Segment whole)
segments = record { start = 0; end = 6 } ∷ record { start = 6; end = 12 } ∷ []

ready_chain-Serves_example :
    Serves whole
      (first_gop ∷ second_gop ∷ [])
      []
      (record { start = 0; end = 6 })
      true
      (ready_chain whole (first_gop ∷ second_gop ∷ []) [] (record { start = 0; end = 6 }) true)
ready_chain-Serves_example =
    ready_chain-Serves whole (first_gop ∷ second_gop ∷ []) [] (record { start = 0; end = 6 }) true

abbrev producing : Producer whole
producing = record {
  id = 1;
  start = 0;
  next_start = 0;
  read = 0;
  stopped = false;
  exit = none;
  bytes = 0;
}

abbrev begun : Disk whole
begun = record {
  inner = record {
    job = some producing;
    next_job = 2;
    gops = [];
    finished = [];
    init = false;
    last_seen = 0;
    last_heartbeat = none;
    want = 0;
    ended = false;
    bytes = 0;
    failures = 0;
    reresolved = false;
    segments_served = 0;
  };
  scratch = 100;
}

abbrev written : Disk whole
written =
    refresh whole (0 ∷ 6 ∷ []) none ((codes "g0", (2, 30)) ∷ (codes "g1", (4, 50)) ∷ []) true begun

Reach-IsCounted_example : IsCounted whole segments (0 ∷ 6 ∷ []) 12 100 written
Reach-IsCounted_example = Reach-IsCounted whole segments (0 ∷ 6 ∷ []) 12 100 written (
    Bytes.goes_on (Bytes.begins begun refl refl refl)
      (Bytes.refreshes begun none ((codes "g0", (2, 30)) ∷ (codes "g1", (4, 50)) ∷ []) true))

restart_point-IsRestart_example :
    (at : ℕ × Option ℕ) × ((restart_point whole (0 ∷ 6 ∷ []) 12 segments 1 ≡ some at)
      × IsRestart whole (0 ∷ 6 ∷ []) 12 segments 1 at)
restart_point-IsRestart_example =
    restart_point-IsRestart whole (0 ∷ 6 ∷ []) 12 segments 1 (omega arith)

pick_reap_victim-Picks_example :
    Picks
      ((codes "s1", 40) ∷ (codes "s2", 90) ∷ [])
      30
      (pick_reap_victim ((codes "s1", 40) ∷ (codes "s2", 90) ∷ []) 30)
pick_reap_victim-Picks_example =
    pick_reap_victim-Picks ((codes "s1", 40) ∷ (codes "s2", 90) ∷ []) 30
