-- ===== src/Sessions/Producer/Scratch.antt =====
-- What a session has on disk, src/session.rs: the GOPs that its producer wrote, and the ones that `prune` deletes. What
-- ffmpeg wrote since the last look is an argument.
use den_remux.Prelude.{
  ℕ, ◌+◌, ◌-◌, Bool, true, false, not, ◌&&◌, ◌||◌, List, [], ◌∷◌, ◌++◌, Option, none, some, ◌>>=◌,
  ◌==◌, min, length, get_elem?, if◌then◌else◌, retain, drop,
}
use den_remux.Text.{Text}
use den_remux.Prelude.Floats.{Floats}
use den_remux.Playlist.{Segment}
use den_remux.Sessions.Gops.{Gop, snap, snap_secs}
use den_remux.Sessions.Producer.{Producer, Inner, ahead_segments}

module _ (fl : Floats) where
  open fl use {F, literal, plus, minus, greatest, at_most, less, in_order}

  -- A session, and the bytes in scratch of all of them.
  pub record Disk : Type 0 where
    pub inner : Inner fl
    pub scratch : ℕ

  unfoldable pub sizes : List (Gop fl) → ℕ
  sizes [] = 0
  sizes (g ∷ gs) = g.size + sizes gs

  abbrev pub is_job : ℕ → Option (Producer fl) → Bool
  is_job id none = false
  is_job id (some j) = j.id == id

  abbrev pub keeps : F → F → Option (Producer fl) → Gop fl → Bool
  keeps lo hi job g = less lo (plus g.start g.dur) && (less g.start hi || is_job g.job job)

  abbrev pub pruned : F → F → Disk → Disk
  pruned lo hi d =
      let keep = keeps lo hi d.inner.job in
      let freed = sizes (retain (λ g. not (keep g)) d.inner.gops) in
      record {
        inner = record d.inner { gops = retain keep d.inner.gops; bytes = d.inner.bytes - freed };
        scratch = d.scratch - freed;
      }

  unfoldable pub prune : List (Segment fl) → ℕ → Disk → Option Disk
  prune segments n d = get_elem? segments (n - 1) >>= λ a.
      get_elem? segments (min (n + ahead_segments + 1) (length segments - 1)) >>= λ b.
      some (pruned (minus a.start (snap_secs fl)) (plus b.end (snap_secs fl)) d)

  unfoldable pub sorted_in : Gop fl → List (Gop fl) → List (Gop fl)
  sorted_in x [] = x ∷ []
  sorted_in x (y ∷ ys) =
      let rest = sorted_in x ys in if in_order x.start y.start then x ∷ (y ∷ ys) else y ∷ rest

  unfoldable pub sort : List (Gop fl) → List (Gop fl)
  sort [] = []
  sort (x ∷ xs) = sorted_in x (sort xs)

  -- `end`: what stands under the lock, and whether the session had not ended yet.
  abbrev pub emptied : Disk → Disk
  emptied d = record {
    inner = record d.inner { ended = true; bytes = 0; gops = []; job = none };
    scratch = d.scratch - d.inner.bytes;
  }

  unfoldable pub end : Disk → Disk × Bool
  end d = if d.inner.ended then (d, false) else (emptied d, true)

  pub record Taken : Type 0 where
    pub job : Producer fl
    pub disk : Disk

  -- A line of `gops.m3u8`: a file's path, its duration and its size.
  abbrev pub Entry : Type 0
  Entry = Text × (F × ℕ)

  -- A round of `refresh`; `writes` is whether the init segment could be written.
  unfoldable pub take_gop : List F → Bool → Taken → Entry → Taken
  take_gop keyframes writes t (path, (dur, size)) =
      let start = snap fl keyframes t.job.next_start in
      let i = t.disk.inner in
      record {
        job = record t.job {
          next_start = plus start dur;
          read = t.job.read + 1;
          bytes = t.job.bytes + size;
        };
        disk = record {
          inner = record i {
            gops =
                i.gops
                ++ (record {
                  job = t.job.id;
                  idx = t.job.read;
                  start = start;
                  dur = dur;
                  path = path;
                  size = size;
                }
                    ∷ []);
            bytes = i.bytes + size;
            failures = 0;
            init = i.init || writes;
          };
          scratch = t.disk.scratch + size;
        };
      }

  unfoldable pub take_gops : List F → Bool → Taken → List Entry → Taken
  take_gops keyframes writes t [] = t
  take_gops keyframes writes t (e ∷ es) =
      take_gops keyframes writes (take_gop keyframes writes t e) es

  abbrev pub ended_run : Bool → Producer fl → Inner fl → Inner fl
  ended_run true j i = record i { finished = i.finished ++ (j.id ∷ []) }
  ended_run false j i = record i { failures = i.failures + (if j.read == 0 then 1 else 0) }

  abbrev pub after_exit : Option Bool → Option Bool → Producer fl → Inner fl → Inner fl
  after_exit none (some success) j i = ended_run success j i
  after_exit none none j i = i
  after_exit (some before) polled j i = i

  abbrev pub exit_of : Option Bool → Option Bool → Option Bool
  exit_of none polled = polled
  exit_of (some before) polled = some before

  abbrev pub settled : Option Bool → Option Bool → Taken → Disk
  settled before polled t = record t.disk {
    inner =
        after_exit before polled t.job
          (record t.disk.inner { job = some t.job; gops = sort t.disk.inner.gops });
  }

  abbrev pub refreshed :
      List F → Option Bool → List Entry → Bool → Disk → Option (Producer fl) → Disk
  refreshed keyframes polled entries writes d none = d
  refreshed keyframes polled entries writes d (some j) = settled j.exit polled (
      take_gops keyframes writes
        (record { job = record j { exit = exit_of j.exit polled }; disk = d })
        (drop j.read entries))

  -- `refresh`, but for the subtitles that the run wrote.
  unfoldable pub refresh : List F → Option Bool → List Entry → Bool → Disk → Disk
  refresh keyframes polled entries writes d =
      refreshed keyframes polled entries writes d d.inner.job
