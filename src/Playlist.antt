-- ===== src/Playlist.antt =====
-- `segments` and `segments_for_start` of src/playlist.rs: where the segments of a playlist are cut.
pub mod Cuts
pub mod Rates
pub mod Runs
use den_remux.Prelude.{
  ℕ, Bool, not, ◌&&◌, ◌||◌, List, [], ◌∷◌, ◌++◌, map, Option, none, some, retain, find,
  if◌then◌else◌,
}
use den_remux.Prelude.Floats.{Floats}

module _ (fl : Floats) where
  open fl use {
    F, literal, plus, minus, times, over, least, greatest, at_most, less, round_down, magnitude,
    in_order,
  }

  pub record Segment : Type 0 where
    pub start : F
    pub end : F

  -- Seconds: 0, 1 and a nanosecond.
  abbrev pub nought : F
  nought = literal 0 1

  abbrev pub one : F
  one = literal 1 1

  abbrev pub tolerance : F
  tolerance = literal 1 1000000000

  abbrev pub next_target : F → F → F
  next_target k target = times (plus (round_down (over k target)) one) target

  abbrev pub outside : F → F → Bool
  outside duration k = at_most k nought || at_most duration k

  unfoldable pub cuts_loop : List F → F → F → F → List F
  cuts_loop [] duration target next = []
  cuts_loop (k ∷ ks) duration target next =
      let kept = cuts_loop ks duration target next in
      let cut = k ∷ cuts_loop ks duration target (next_target k target) in
      if outside duration k then kept else if at_most next (plus k tolerance) then cut else kept

  abbrev pub end_of : F → List F → F
  end_of duration [] = duration
  end_of duration (c ∷ cs) = c

  unfoldable pub spans : F → List F → List Segment
  spans duration [] = []
  spans duration (c ∷ cs) = record { start = c; end = end_of duration cs } ∷ spans duration cs

  unfoldable pub segments : List F → F → F → List Segment
  segments keyframes duration target =
      spans duration (nought ∷ cuts_loop keyframes duration target target)

  -- The last of `take_while`.
  unfoldable pub last_before : F → List F → Option F → Option F
  last_before point [] last = last
  last_before point (k ∷ ks) last =
      let rest = last_before point ks (some k) in
      if at_most k (plus point tolerance) then rest else last

  abbrev pub first_or : F → List F → F
  first_or other [] = other
  first_or other (k ∷ ks) = k

  abbrev pub before_or : F → Option F → F
  before_or other none = other
  before_or other (some k) = k

  unfoldable pub before : List F → Segment → F → F
  before keyframes window point =
      before_or (first_or window.start keyframes) (last_before point keyframes none)

  abbrev pub is_near : F → F → Bool
  is_near a b = less (magnitude (minus a b)) tolerance

  abbrev pub first_frame_of_zero : Segment → F → F → Bool
  first_frame_of_zero window earlier k =
      (at_most window.start nought && at_most nought window.start) && is_near k earlier

  unfoldable pub opening_loop : List F → Segment → F → F → List F
  opening_loop [] window earlier start = []
  opening_loop (k ∷ ks) window earlier start =
      let rest = opening_loop ks window earlier start in
      let behind =
        if less (plus start tolerance) k && not (first_frame_of_zero window earlier k)
        then []
        else rest in
      if at_most earlier (plus k tolerance) && not (first_frame_of_zero window earlier k)
      then k ∷ behind
      else behind

  abbrev pub within : Segment → F → Bool
  within window k = less window.start k && less k window.end

  unfoldable pub opening : List F → Segment → F → F → List F
  opening keyframes window point start =
      opening_loop (retain (within window) keyframes) window (before keyframes window point) start

  unfoldable pub sorted_in : F → List F → List F
  sorted_in x [] = x ∷ []
  sorted_in x (y ∷ ys) =
      let rest = sorted_in x ys in if in_order x y then x ∷ (y ∷ ys) else y ∷ rest

  unfoldable pub sort : List F → List F
  sort [] = []
  sort (x ∷ xs) = sorted_in x (sort xs)

  -- Each is compared with the last one kept.
  unfoldable pub dedup_after : F → List F → List F
  dedup_after last [] = []
  dedup_after last (x ∷ xs) =
      let gone = dedup_after last xs in
      let kept = x ∷ dedup_after x xs in if is_near x last then gone else kept

  unfoldable pub dedup : List F → List F
  dedup [] = []
  dedup (x ∷ xs) = x ∷ dedup_after x xs

  abbrev pub is_open_at : F → Segment → Bool
  is_open_at point s = at_most s.start point && less point s.end

  unfoldable pub split_window : List F → List Segment → F → F → F → Option Segment → List Segment
  split_window keyframes ordinary duration point start none = ordinary
  split_window keyframes ordinary duration point start (some window) =
      spans duration
        (dedup (sort (map (λ s. s.start) ordinary ++ opening keyframes window point start)))

  abbrev pub backed_up : F → F → F
  backed_up start duration = least (greatest (minus start one) nought) duration

  unfoldable pub segments_for_start : List F → F → F → F → List Segment
  segments_for_start keyframes duration target start =
      let ordinary = segments keyframes duration target in
      let point = backed_up start duration in
      split_window keyframes ordinary duration point start (find (is_open_at point) ordinary)
