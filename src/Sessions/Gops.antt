-- ===== src/Sessions/Gops.antt =====
-- The GOPs that a session's producers wrote, src/session.rs: which of them make up a segment. An index out of range
-- cannot come up here; `u32` counts do not wrap.
pub mod Chain
use den_remux.Prelude.{
  ℕ, zero, suc, ◌+◌, ◌-◌, Bool, true, false, not, ◌&&◌, ◌||◌, List, [], ◌∷◌, ◌++◌, Option, none,
  some, ltb, ◌==◌, length, if◌then◌else◌, retain,
}
use den_remux.Text.{Text}
use den_remux.Prelude.Floats.{Floats}
use den_remux.Playlist.{Segment, nought, one}

-- `contains`, of job ids.
unfoldable pub contains : ℕ → List ℕ → Bool
contains n [] = false
contains n (m ∷ ms) = (m == n) || contains n ms

module _ (fl : Floats) where
  open fl use {F, literal, plus, minus, greatest, at_most, less, magnitude, in_order}

  pub record Gop : Type 0 where
    pub job : ℕ
    pub idx : ℕ
    pub start : F
    pub dur : F
    pub path : Text
    pub size : ℕ

  -- `SNAP`
  abbrev pub snap_secs : F
  snap_secs = literal 5 100

  abbrev pub distance : F → F → F
  distance a b = magnitude (minus a b)

  abbrev pub listed : Option F → List F
  listed none = []
  listed (some k) = k ∷ []

  -- The keyframes on both sides of `partition_point`.
  unfoldable pub around : F → Option F → List F → List F
  around t before [] = listed before
  around t before (k ∷ ks) =
      let later = around t (some k) ks in if less k t then later else listed before ++ (k ∷ [])

  -- `min_by`: the first of the nearest.
  unfoldable pub nearest : F → F → List F → F
  nearest t best [] = best
  nearest t best (k ∷ ks) =
      nearest t (if in_order (distance best t) (distance k t) then best else k) ks

  abbrev pub nearest_or : F → List F → F
  nearest_or t [] = t
  nearest_or t (k ∷ ks) = nearest t k ks

  unfoldable pub snap : List F → F → F
  snap keyframes t =
      nearest_or t (retain (λ k. less (distance k t) snap_secs) (around t none keyframes))

  -- `partition_point` of the segments that start by then.
  unfoldable pub started_by : F → List (Segment fl) → ℕ
  started_by t [] = 0
  started_by t (s ∷ ss) =
      let rest = started_by t ss in if at_most s.start (plus t snap_secs) then suc rest else 0

  unfoldable pub seg_at : List (Segment fl) → F → ℕ
  seg_at segments t = started_by t segments - 1

  -- `START_SLACK` is a second.
  unfoldable pub start_segment : List (Segment fl) → F → ℕ
  start_segment segments start_at = seg_at segments (greatest (minus start_at (one fl)) (nought fl))

  -- `iter().position()`, and what stands there.
  unfoldable pub position : (Gop → Bool) → ℕ → List Gop → Option (ℕ × Gop)
  position p i [] = none
  position p i (g ∷ gs) = let rest = position p (i + 1) gs in if p g then some (i, g) else rest

  abbrev pub is_next : Gop → Gop → Bool
  is_next cur n = (n.job == cur.job) && (n.idx == cur.idx + 1)

  abbrev pub is_later : Gop → Gop → Bool
  is_later g o = (o.job == g.job) && ltb g.idx o.idx

  unfoldable pub is_last : List Gop → Gop → Bool
  is_last [] g = true
  is_last (o ∷ os) g = not (is_later g o) && is_last os g

  -- What following a chain comes to; `stuck` is for a walk without fuel.
  pub data Walk : Type 0 where
    complete : List ℕ → Walk
    broken : Walk
    stuck : Walk

  abbrev pub covers : Segment fl → Gop → Bool
  covers seg cur = at_most (minus seg.end snap_secs) (plus cur.start cur.dur)

  abbrev pub ends_film : List Gop → List ℕ → Segment fl → Gop → Bool
  ends_film gops finished seg cur =
      contains cur.job finished
      && (less (minus seg.end cur.start) (literal 1000000000 1) && is_last gops cur)

  abbrev pub followed : (List ℕ → Gop → Walk) → List ℕ → Bool → Option (ℕ × Gop) → Walk
  followed next chain ends none = if ends then complete chain else broken
  followed next chain ends (some (j, g)) = next (chain ++ (j ∷ [])) g

  unfoldable pub walk : ℕ → List Gop → List ℕ → Segment fl → List ℕ → Gop → Walk
  walk zero gops finished seg chain cur = stuck
  walk (suc f) gops finished seg chain cur =
      let further =
        followed (λ js g. walk f gops finished seg js g) chain (ends_film gops finished seg cur)
          (position (is_next cur) 0 gops) in
      if covers seg cur then complete chain else further

  abbrev pub starts_elsewhere : Segment fl → Bool → Gop → Bool
  starts_elsewhere seg first g =
      at_most snap_secs (distance g.start seg.start) && not (first && less g.start seg.end)

  abbrev pub or_next : Walk → Walk → Walk
  or_next (complete chain) rest = complete chain
  or_next broken rest = rest
  or_next stuck rest = stuck

  unfoldable pub candidates : List Gop → List ℕ → Segment fl → Bool → ℕ → List Gop → Walk
  candidates gops finished seg first i [] = broken
  candidates gops finished seg first i (g ∷ gs) =
      let rest = candidates gops finished seg first (i + 1) gs in
      if starts_elsewhere seg first g
      then rest
      else or_next (walk (suc (length gops)) gops finished seg (i ∷ []) g) rest

  unfoldable pub ready_chain : List Gop → List ℕ → Segment fl → Bool → Walk
  ready_chain gops finished seg first = candidates gops finished seg first 0 gops
