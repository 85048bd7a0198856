-- ===== src/Matroska/Index/Cues.antt =====
-- A written Cues element is read back, for one track, by `parse_cues` of src/probe/mkv.rs.
use den_remux.Prelude.{ℕ, ◌-◌, ◌*◌, ◌^◌, ◌≤◌, ◌<◌, ◌≡◌, refl, arith, All, map, ap, ◌∙◌}
use den_remux.Prelude.{List, [], ◌∷◌, Option, none, some, length, ◌==◌, append-nil, take-all}
use den_remux.Prelude.{filter_map-map, find_map-map, All-map, filter_map, find_map, if◌then◌else◌}
use den_remux.Bytes.{be_bytes, length-be_bytes, be-be_bytes}
use den_remux.Matroska.Element.{header, children, child, bodies, find_id, uint}
use den_remux.Matroska.Encode.{IsId}
use den_remux.Matroska.Read.{
  Element, IsElement, encode, content, children-encode, length-encode, length-encode_nil,
}
use den_remux.Matroska.Ids
use den_remux.Matroska.Index.{Cue, cue_position, cue_at, parse_cues}

pub header_nil : header [] ≡ none
unfolding header
header_nil = refl

-- All of a payload is elements.
pub children-encode-All :
    (es : List Element)
    → All IsElement es
    → length (encode es) < 2 ^ 64
    → children (encode es) ≡ map content es
children-encode-All es h s =
    rw (← append-nil (encode es))
      (children-encode es [] h (rw header_nil tt) (rw (append-nil (encode es)) s))

-- An unsigned integer in eight bytes.
abbrev pub uint_element : ℕ → ℕ → ℕ → Element
uint_element w id v = record { id_width = w; id = id; size_width = 0; payload = be_bytes 8 v }

pub uint-be_bytes : (v : ℕ) → v < 2 ^ 64 → uint (be_bytes 8 v) ≡ v
unfolding uint
uint-be_bytes v h =
    rw (take-all 8 (be_bytes 8 v) (omega (arith, length-be_bytes 8 v)))
      (be-be_bytes 8 0 v (omega arith) ∙ omega arith)

pub uint_element-IsElement : (w id v : ℕ) → IsId w id → IsElement (uint_element w id v)
uint_element-IsElement w id v h =
    (h, (omega arith, omega (arith, length-be_bytes 8 v)), omega (arith, length-be_bytes 8 v))

pub length-two :
    (w id v w' id' v' : ℕ)
    → w ≤ 3
    → w' ≤ 3
    → length (encode (uint_element w id v ∷ uint_element w' id' v' ∷ [])) ≤ 26
length-two w id v w' id' v' h k = omega (
  arith,
  length-encode (uint_element w id v) (uint_element w' id' v' ∷ []),
  length-encode (uint_element w' id' v') [],
  length-encode_nil,
  length-be_bytes 8 v,
  length-be_bytes 8 v',
)

-- Two integers side by side, as a Seek or a CueTrackPositions holds.
pub children-two :
    (w id v w' id' v' : ℕ)
    → IsId w id
    → IsId w' id'
    → children (encode (uint_element w id v ∷ uint_element w' id' v' ∷ []))
      ≡ (id, be_bytes 8 v) ∷ (id', be_bytes 8 v') ∷ []
children-two w id v w' id' v' h k =
    children-encode-All (uint_element w id v ∷ uint_element w' id' v' ∷ [])
      (uint_element-IsElement w id v h, (uint_element-IsElement w' id' v' k, tt))
      (omega (arith, length-two w id v w' id' v' h.0 k.0))

-- A CueTrackPositions, and a CuePoint of a time and its positions. The payload of a CuePoint has its
-- size in eight bytes.
abbrev pub position_element : ℕ × ℕ → Element
position_element (track, cluster) = record {
  id_width = 0;
  id = Ids.cue_track_positions;
  size_width = 0;
  payload =
      encode
        (uint_element 0 Ids.cue_track track ∷ uint_element 0 Ids.cue_cluster_position cluster ∷ []);
}

pub record CuePoint : Type 0 where
  pub time : ℕ
  pub positions : List (ℕ × ℕ)

abbrev pub point_elements : CuePoint → List Element
point_elements p = uint_element 0 Ids.cue_time p.time ∷ map position_element p.positions

abbrev pub point_element : CuePoint → Element
point_element p = record {
  id_width = 0;
  id = Ids.cue_point;
  size_width = 7;
  payload = encode (point_elements p);
}

-- Numbers of eight bytes, and no more positions than the eight bytes of the size allow.
abbrev pub IsPoint : CuePoint → Type 0
IsPoint p =
    (p.time < 2 ^ 64)
    × All (λ q. (q.0 < 2 ^ 64) × (q.1 < 2 ^ 64)) p.positions
    × (length p.positions < 2 ^ 50)

-- What a reader is to find: of each point the first position of the track.
abbrev pub position_of : ℕ → ℕ → ℕ × ℕ → Option Cue
position_of track time (number, cluster) =
    if number == track then some (record { time = time; cluster = cluster }) else none

abbrev pub cue_of : ℕ → CuePoint → Option Cue
cue_of track p = find_map (position_of track p.time) p.positions

cue_position-element :
    (track time : ℕ) (q : ℕ × ℕ)
    → (q.0 < 2 ^ 64) × (q.1 < 2 ^ 64)
    → cue_position track time (position_element q).payload ≡ position_of track time q
unfolding cue_position child find_id
cue_position-element track time (number, cluster) h =
    rw
      (
        children-two 0 Ids.cue_track number 0 Ids.cue_cluster_position cluster (omega arith)
            (omega arith),
        uint-be_bytes number h.0,
      )
      (rw (uint-be_bytes cluster h.1) refl)

bodies_positions :
    (qs : List (ℕ × ℕ))
    → bodies Ids.cue_track_positions (map content (map position_element qs))
      ≡ map (λ q. (position_element q).payload) qs
unfolding bodies
bodies_positions [] = refl
bodies_positions (q ∷ qs) = ap (λ bs. (position_element q).payload ∷ bs) (bodies_positions qs)

bodies_after_time :
    (time : ℕ) (qs : List (ℕ × ℕ))
    → bodies Ids.cue_track_positions
        ((Ids.cue_time, be_bytes 8 time) ∷ map content (map position_element qs))
      ≡ map (λ q. (position_element q).payload) qs
unfolding bodies
bodies_after_time time qs = bodies_positions qs

find_position :
    (track time : ℕ) (qs : List (ℕ × ℕ))
    → All (λ q. (q.0 < 2 ^ 64) × (q.1 < 2 ^ 64)) qs
    → find_map (cue_position track time) (map (λ q. (position_element q).payload) qs)
      ≡ find_map (position_of track time) qs
find_position track time qs h =
    find_map-map (cue_position track time) (λ q. (position_element q).payload)
      (position_of track time) qs (All-map (λ q. cue_position-element track time q) qs h)

IsElement-positions : (qs : List (ℕ × ℕ)) → All IsElement (map position_element qs)
IsElement-positions [] = tt
IsElement-positions ((t, c) ∷ qs) =
    let small =
      length-two 0 Ids.cue_track t 0 Ids.cue_cluster_position c (omega arith) (omega arith) in
    (((omega arith), (omega arith), (omega arith)), IsElement-positions qs)

length_positions : (qs : List (ℕ × ℕ)) → length (encode (map position_element qs)) ≤ 28 * length qs
length_positions [] = omega (arith, length-encode_nil)
length_positions ((t, c) ∷ qs) = omega (
  arith,
  length-encode (position_element (t, c)) (map position_element qs),
  length_positions qs,
  length-two 0 Ids.cue_track t 0 Ids.cue_cluster_position c,
)

length_point : (p : CuePoint) → IsPoint p → length (encode (point_elements p)) < 2 ^ 56 - 1
length_point p h = omega (
  arith,
  length-encode (uint_element 0 Ids.cue_time p.time) (map position_element p.positions),
  length_positions p.positions,
  length-be_bytes 8 p.time,
)

children_point :
    (p : CuePoint)
    → IsPoint p
    → children (point_element p).payload
      ≡ (Ids.cue_time, be_bytes 8 p.time) ∷ map content (map position_element p.positions)
children_point p h =
    children-encode-All (point_elements p)
      (uint_element-IsElement 0 Ids.cue_time p.time (omega arith), IsElement-positions p.positions)
      (omega (arith, length_point p h))

cue_at-element :
    (track : ℕ) (p : CuePoint) → IsPoint p → cue_at track (point_element p).payload ≡ cue_of track p
unfolding cue_at child find_id
cue_at-element track p h = rw (children_point p h) (
    rw (uint-be_bytes p.time h.0) (
      ap (find_map (cue_position track p.time)) (bodies_after_time p.time p.positions)
      ∙ find_position track p.time p.positions h.1))

bodies_points :
    (ps : List CuePoint)
    → bodies Ids.cue_point (map content (map point_element ps))
      ≡ map (λ p. (point_element p).payload) ps
unfolding bodies
bodies_points [] = refl
bodies_points (p ∷ ps) = ap (λ bs. (point_element p).payload ∷ bs) (bodies_points ps)

IsElement-points : (ps : List CuePoint) → All IsPoint ps → All IsElement (map point_element ps)
IsElement-points [] h = tt
IsElement-points (p ∷ ps) h = (
  (omega arith, omega (arith, length_point p h.0), omega (arith, length_point p h.0)),
  IsElement-points ps h.1,
)

filter_points :
    (track : ℕ) (ps : List CuePoint)
    → All IsPoint ps
    → filter_map (cue_at track) (map (λ p. (point_element p).payload) ps)
      ≡ filter_map (cue_of track) ps
filter_points track ps h =
    filter_map-map (cue_at track) (λ p. (point_element p).payload) (cue_of track) ps
      (All-map (λ p. cue_at-element track p) ps h)

-- From a written Cues payload shorter than 2^64 bytes, whose points have times and positions of 64
-- bits, the parser takes, in order, each point that has a position for the track, with the point's
-- time and the cluster of the first such position; it leaves out every other point.
pub parse_cues-encode :
    (ps : List CuePoint) (track : ℕ)
    → All IsPoint ps
    → length (encode (map point_element ps)) < 2 ^ 64
    → parse_cues (encode (map point_element ps)) track ≡ filter_map (cue_of track) ps
unfolding parse_cues
parse_cues-encode ps track h small =
    rw (children-encode-All (map point_element ps) (IsElement-points ps h) small, bodies_points ps)
      (filter_points track ps h)
