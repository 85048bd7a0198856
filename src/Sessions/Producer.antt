-- ===== src/Sessions/Producer.antt =====
-- When a session's producer runs, src/session.rs: where one starts, which segments it heads for and when it is paused.
-- The process is `Producer`, and an index out of range, where the source would panic, is `none`. Times of the clock are
-- in nanoseconds.
pub mod Scratch
pub mod Bytes
pub mod Restart
use den_remux.Prelude.{
  ℕ, zero, suc, ◌+◌, ◌-◌, ◌*◌, ◌≡◌, Bool, true, false, not, ◌&&◌, ◌||◌, List, [], ◌∷◌, ◌++◌, map,
  Option, none, some, ◌>>=◌, Result, ok, err, ltb, leb, ◌==◌, min, length, get_elem?, if◌then◌else◌,
  retain, find, drop,
}
use den_remux.Text.{Text, same}
use den_remux.Prelude.Floats.{Floats}
use den_remux.Playlist.{Segment, nought}
use den_remux.Sessions.Gops.{Gop, snap, snap_secs, seg_at}

abbrev pub seconds : ℕ → ℕ
seconds n = n * 1_000_000_000

-- `UNATTENDED_IDLE`
abbrev pub unattended_idle : ℕ
unattended_idle = seconds 60

-- `AHEAD_SEGMENTS`, `RESTART_GAP_SEGMENTS` and `MAX_FAILURES`
abbrev pub ahead_segments : ℕ
ahead_segments = 4

abbrev pub restart_gap : ℕ
restart_gap = 3

abbrev pub max_failures : ℕ
max_failures = 3

unfoldable pub any {ℓ} : {A : Type ℓ} → (A → Bool) → List A → Bool
any p [] = false
any p (x ∷ xs) = p x || any p xs

-- A session's own limits on what it logs and measures: `take_report_slot` and `take_speed_slot`.
abbrev pub take_slot : ℕ → ℕ → ℕ × Bool
take_slot limit count = if ltb count limit then (count + 1, true) else (count, false)

unfoldable pub take_report_slot : ℕ → ℕ × Bool
take_report_slot count = take_slot 3 count

unfoldable pub take_speed_slot : ℕ → ℕ × Bool
take_speed_slot count = take_slot 2 count

-- `pick_reap_victim`: the last of those idle the longest.
unfoldable pub longest : Text × ℕ → List (Text × ℕ) → Text × ℕ
longest best [] = best
longest best (c ∷ cs) = longest (if leb best.1 c.1 then c else best) cs

abbrev pub longest_of : List (Text × ℕ) → Option Text
longest_of [] = none
longest_of (c ∷ cs) = some (longest c cs).0

unfoldable pub pick_reap_victim : List (Text × ℕ) → ℕ → Option Text
pick_reap_victim candidates min_idle = longest_of (retain (λ c. leb min_idle c.1) candidates)

module _ (fl : Floats) where
  open fl use {F, literal, plus, minus, greatest, at_most, less, in_order}

  -- `Job`
  pub record Producer : Type 0 where
    pub id : ℕ
    pub start : F
    pub next_start : F
    pub read : ℕ
    pub stopped : Bool
    pub exit : Option Bool
    pub bytes : ℕ

  pub record Inner : Type 0 where
    pub job : Option Producer
    pub next_job : ℕ
    pub gops : List (Gop fl)
    pub finished : List ℕ
    pub init : Bool
    pub last_seen : ℕ
    pub last_heartbeat : Option ℕ
    pub want : ℕ
    pub ended : Bool
    pub bytes : ℕ
    pub failures : ℕ
    pub reresolved : Bool
    pub segments_served : ℕ

  abbrev pub unserved_deadline : Inner → ℕ → ℕ
  unserved_deadline i session_idle =
      if i.segments_served == 0 then i.last_seen + unattended_idle else i.last_seen + session_idle

  abbrev pub deadline_after : Inner → ℕ → Option ℕ → ℕ
  deadline_after i session_idle none = unserved_deadline i session_idle
  deadline_after i session_idle (some hb) =
      if ltb i.last_seen hb then hb + unattended_idle else unserved_deadline i session_idle

  unfoldable pub idle_deadline : Inner → ℕ → ℕ
  idle_deadline i session_idle = deadline_after i session_idle i.last_heartbeat

  -- `job::MIN_SEEK_GAP`, `job::SEEK_PAST`, and a millionth of a second.
  abbrev pub min_seek_gap : F
  min_seek_gap = literal 15 100

  abbrev pub seek_past : F
  seek_past = literal 135 1000

  abbrev pub slack : F
  slack = literal 1 1000000

  unfoldable pub seek_for : F → Option F
  seek_for k = if less (nought fl) k then some (plus k seek_past) else none

  abbrev pub or_else : F → Option F → F
  or_else d none = d
  or_else d (some k) = k

  abbrev pub first_of : List F → F
  first_of [] = nought fl
  first_of (k ∷ ks) = k

  abbrev pub next_keyframe : List F → F → F → F
  next_keyframe keyframes duration k =
      or_else duration (find (λ x. less (plus k slack) x) keyframes)

  abbrev pub restart_at : List F → F → Option (F × Option F) → Segment fl → Option (F × Option F)
  restart_at keyframes duration earlier s =
      if at_most min_seek_gap (minus (next_keyframe keyframes duration s.start) s.start)
      then some (s.start, seek_for s.start)
      else earlier

  unfoldable pub restart_point : List F → F → List (Segment fl) → ℕ → Option (F × Option F)
  restart_point keyframes duration segments zero = some (first_of keyframes, none)
  restart_point keyframes duration segments (suc m) =
      get_elem? segments (suc m)
      >>= restart_at keyframes duration (restart_point keyframes duration segments m)

  abbrev pub is_kept : ℕ → Segment fl → Gop fl → Bool
  is_kept job seg g =
      (g.job == job)
      && (less g.start (minus seg.end (snap_secs fl))
          && less (plus seg.start (snap_secs fl)) (plus g.start g.dur))

  abbrev pub heads_for_seg :
      List (Segment fl) → ℕ → F → Producer → List (Gop fl) → Segment fl → Bool
  heads_for_seg segments n first_keyframe j gops seg =
      at_most j.start (plus (greatest seg.start first_keyframe) (snap_secs fl))
      && (leb n (seg_at fl segments j.next_start + restart_gap)
          && (not (at_most (minus seg.end (snap_secs fl)) j.next_start)
              || any (is_kept j.id seg) gops))

  unfoldable pub heads_for : List (Segment fl) → ℕ → F → Producer → List (Gop fl) → Option Bool
  heads_for segments n first_keyframe j gops =
      get_elem? segments n >>= λ seg. some (heads_for_seg segments n first_keyframe j gops seg)

  abbrev pub is_none {ℓ} : {A : Type ℓ} → Option A → Bool
  is_none none = true
  is_none (some a) = false

  abbrev pub running_heads_for :
      List (Segment fl) → List F → List (Gop fl) → ℕ → Option Producer → Option Bool
  running_heads_for segments keyframes gops n none = some false
  running_heads_for segments keyframes gops n (some j) =
      if is_none j.exit then heads_for segments n (first_of keyframes) j gops else some false

  unfoldable pub job_heads_for : List (Segment fl) → List F → Inner → ℕ → Option Bool
  job_heads_for segments keyframes i n = running_heads_for segments keyframes i.gops n i.job

  -- `Err(())`, `Ok(false)` and `Ok(true)`.
  pub data Needed : Type 0 where
    refused : Needed
    not_needed : Needed
    needed : Needed

  abbrev pub is_stopped : Option Producer → Bool
  is_stopped none = false
  is_stopped (some j) = j.stopped

  abbrev pub needed_if : Bool → Needed
  needed_if b = if b then needed else not_needed

  abbrev pub needed_anew : Inner → Needed
  needed_anew i =
      if ltb 0 i.failures && not i.reresolved
      then not_needed
      else if leb max_failures i.failures
      then refused
      else needed

  unfoldable pub producer_needed : List (Segment fl) → List F → Inner → ℕ → Option Needed
  producer_needed segments keyframes i n =
      if i.ended
      then some refused
      else job_heads_for segments keyframes i n >>= λ heads.
          some (if heads then needed_if (is_stopped i.job) else needed_anew i)

  abbrev pub is_resumable : Producer → Bool
  is_resumable j = is_none j.exit && j.stopped

  unfoldable pub resume : Producer → Producer
  resume j = if is_resumable j then record j { stopped = false } else j

  unfoldable pub pause : Producer → Producer
  pause j = if is_none j.exit && not j.stopped then record j { stopped = true } else j

  abbrev pub started : ℕ → F → Producer
  started id start = record {
    id = id;
    start = start;
    next_start = start;
    read = 0;
    stopped = false;
    exit = none;
    bytes = 0;
  }

  -- `Job::spawn`, which succeeds or not.
  abbrev pub spawned : Inner → Bool → F → Inner × Bool
  spawned i starts start =
      if starts
      then (record i { job = some (started i.next_job start); next_job = i.next_job + 1 }, true)
      else (record i { next_job = i.next_job + 1; failures = i.failures + 1 }, false)

  abbrev pub resumed : Inner → Option Producer → Inner
  resumed i none = i
  resumed i (some j) = record i { job = some (resume j) }

  abbrev pub ensured :
      List (Segment fl) → List F → F → Inner → ℕ → Bool → Needed → Option (Inner × Bool)
  ensured segments keyframes duration i n starts refused = some (i, false)
  ensured segments keyframes duration i n starts not_needed = some (i, true)
  ensured segments keyframes duration i n starts needed =
      job_heads_for segments keyframes i n >>= λ heads.
      if heads
      then some (resumed i i.job, true)
      else (restart_point keyframes duration segments n >>= λ at. some (spawned i starts at.0))

  -- `ensure_job`, and whether it is `Ok`.
  unfoldable pub ensure_job :
      List (Segment fl) → List F → F → Inner → ℕ → Bool → Option (Inner × Bool)
  ensure_job segments keyframes duration i n starts =
      producer_needed segments keyframes i n >>= ensured segments keyframes duration i n starts

  abbrev pub gated : F → F → Bool → Bool → Producer → Producer
  gated limit wanted_done over_cap free j =
      if at_most (minus limit (snap_secs fl)) j.next_start
        || (over_cap && at_most (minus wanted_done (snap_secs fl)) j.next_start)
      then pause j
      else if is_resumable j && free
      then resume j
      else j

  abbrev pub gated_job : F → F → Bool → Bool → Option Producer → Option Producer
  gated_job limit wanted_done over_cap free none = none
  gated_job limit wanted_done over_cap free (some j) =
      some (if is_none j.exit then gated limit wanted_done over_cap free j else j)

  abbrev pub ahead_of : Bool → ℕ
  ahead_of has_text = ahead_segments + (if has_text then 1 else 0)

  -- `gate`. Whether a permit is free is an argument.
  unfoldable pub gate : List (Segment fl) → Bool → Bool → Bool → Inner → Option Inner
  gate segments has_text over_cap free i =
      let last = length segments - 1 in
      get_elem? segments (min (i.want + ahead_of has_text) last) >>= λ a.
      get_elem? segments (min i.want last) >>= λ w.
      some (record i { job = gated_job a.end w.end over_cap free i.job })
