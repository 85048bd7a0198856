-- ===== src/Matroska/Index.antt =====
-- The indexes of src/probe/mkv.rs: `parse_seek_head` and `parse_cues`, and the frames that the cued
-- clusters open with: `block_frame`, `rpu_nal`, `first_in_blocks`.
pub mod Cues
pub mod SeekHead
pub mod Blocks
pub mod Walk
pub mod Cluster
use den_remux.Prelude.{ℕ, zero, suc, ◌+◌, ◌-◌, ◌*◌, ◌/◌, ◌%◌, ◌^◌, ◌≤◌, ◌<◌, ◌≡◌, min, arith}
use den_remux.Prelude.{List, [], ◌∷◌, ◌++◌, Option, none, some, ltb, leb, ◌==◌, length, take, drop}
use den_remux.Prelude.{if◌then◌else◌, get_elem?, ◌>>=◌, Bool, true, false, ◌&&◌, ◌||◌, not}
use den_remux.Prelude.{filter_map, find_map, or_else}
use Prim.Native.Nat.{bit_and}
use den_remux.Matroska.Ids
use den_remux.Bytes.{be, leading_zeros, checked_add}
use den_remux.Matroska.Element.{Header, header, children, child, bodies, uint}

-- `parse_seek_head`: where the SeekHead says that each element is.
unfoldable pub seek_entry : List ℕ → Option (ℕ × ℕ)
seek_entry seek = do
  id ← child seek Ids.seek_id
  position ← child seek Ids.seek_position
  some (uint id % 2 ^ 32, uint position)

unfoldable pub parse_seek_head : List ℕ → List (ℕ × ℕ)
parse_seek_head b = filter_map seek_entry (bodies Ids.seek (children b))

pub record Cue : Type 0 where
  pub time : ℕ
  pub cluster : ℕ

-- One CueTrackPositions, if it is the wanted track's and names a cluster.
unfoldable pub cue_position : ℕ → ℕ → List ℕ → Option Cue
cue_position track time pos = child pos Ids.cue_track >>= λ number.
    if uint number == track
    then (child pos Ids.cue_cluster_position >>= λ cluster.
        some (record { time = time; cluster = uint cluster }))
    else none

unfoldable pub cue_at : ℕ → List ℕ → Option Cue
cue_at track point = do
  time ← child point Ids.cue_time
  find_map (cue_position track (uint time)) (bodies Ids.cue_track_positions (children point))

unfoldable pub parse_cues : List ℕ → ℕ → List Cue
parse_cues b track = filter_map (cue_at track) (bodies Ids.cue_point (children b))

-- `block_frame`: the first frame of an unlaced Block of `track`.
unfoldable pub block_number : List ℕ → ℕ → ℕ → ℕ
block_number block first n = be (first % 2 ^ (8 - n)) (take (n - 1) (drop 1 block))

unfoldable pub block_of : List ℕ → ℕ → ℕ → ℕ → Option (List ℕ)
block_of block track first n =
    if ltb 8 n || ltb (length block) (n + 3)
    then none
    else get_elem? block (n + 2) >>= λ flags.
        if (block_number block first n == track) && (bit_and flags 0x06 == 0)
        then some (drop (n + 3) block)
        else none

unfoldable pub block_frame : List ℕ → ℕ → Option (List ℕ)
block_frame block track =
    get_elem? block 0 >>= λ first. block_of block track first (leading_zeros first + 1)

-- The NAL unit of type 62 (UNSPEC62).
unfoldable pub is_rpu : List ℕ → Bool
is_rpu [] = false
is_rpu (b ∷ rest) = b / 2 % 64 == 62

-- The loop of `rpu_nal`, from byte `at` of the frame on; a round passes over a byte at least.
unfoldable pub rpu_loop : ℕ → List ℕ → ℕ → ℕ → Option (List ℕ)
rpu_loop zero frame length_size at = none
rpu_loop (suc fuel) frame length_size at =
    let len = be 0 (take length_size (drop at frame)) in
    let start = at + length_size in
    let next = rpu_loop fuel frame length_size (start + len) in
    if ltb (length frame) start
    then none
    else checked_add start len >>= λ end.
        (if ltb (length frame) end
          then none
          else if is_rpu (take len (drop start frame))
          then some (take len (drop start frame))
          else next)

unfoldable pub rpu_nal : List ℕ → List ℕ → Option (List ℕ)
rpu_nal frame hvcc = get_elem? hvcc 21 >>= λ c. rpu_loop (length frame) frame (c % 4 + 1) 0

-- What `first_in_blocks` takes of one element: a frame by `pick`, or what is found in a group.
module _ {ℓ} {T : Type ℓ} (pick : List ℕ → Option T) (track : ℕ) where
  unfoldable pub picked : Option (List ℕ) → Option T
  picked none = none
  picked (some frame) = pick frame

  unfoldable pub frame_of : Bool → ℕ → List ℕ → Option (List ℕ)
  frame_of nested id body =
      if (id == Ids.simple_block) && not nested
      then block_frame body track
      else if (id == Ids.block) && nested
      then block_frame body track
      else none

  unfoldable pub in_element : (List ℕ → Option T) → Bool → ℕ → List ℕ → Option T
  in_element group nested id body =
      or_else (picked (frame_of nested id body))
        (if (id == Ids.block_group) && not nested then group body else none)

  -- The `while let` loop: `group` is the recursive call, which only the outer level makes.
  unfoldable pub blocks_loop : (List ℕ → Option T) → Bool → ℕ → List ℕ → ℕ → Option T
  blocks_loop group nested zero b at = none
  blocks_loop group nested (suc fuel) b at =
      let rest = λ (declared_end : ℕ). blocks_loop group nested fuel b declared_end in
      if ltb (length b) at
      then none
      else header (drop at b) >>= λ hdr. hdr.1 >>= λ size.
          checked_add (at + hdr.2) size >>= λ declared_end.
          or_else
            (in_element group nested hdr.0
              (take (min declared_end (length b) - (at + hdr.2)) (drop (at + hdr.2) b)))
            (if ltb (length b) declared_end then none else rest declared_end)

  unfoldable pub first_nested : List ℕ → Option T
  first_nested b = blocks_loop (λ _. none) true (length b) b 0

  unfoldable pub first_in_blocks : List ℕ → Option T
  first_in_blocks b = blocks_loop first_nested false (length b) b 0
