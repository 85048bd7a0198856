-- ===== src/Matroska/Index/Cluster.antt =====
-- What `first_in_blocks` of src/probe/mkv.rs finds in a cluster that is written as Blocks and block groups.
use den_remux.Prelude.{◌*◌, sym, ◌==◌, ◌&&◌, ◌≢◌, map, if◌then◌else◌, some}
use Prim.Native.Nat.{bit_and}
use native.Mathlib.Nat.{pow-le-pow_right}
use den_remux.Matroska.Encode.{FitsSize}
use den_remux.Matroska.Index.Blocks.{block_bytes, block_frame-bytes}
use den_remux.Matroska.Index.{picked, frame_of, block_frame}
use den_remux.Prelude.{ℕ, ◌+◌, ◌^◌, ◌≤◌, ◌<◌, ◌≡◌, refl, arith, All, ap, ◌∙◌}
use den_remux.Prelude.{List, [], ◌∷◌, ◌++◌, Option, none, length}
use den_remux.Prelude.{find_map, or_else, Bool, true, false}
use den_remux.Matroska.Read.{Element, IsElement, encode}
use den_remux.Matroska.Index.{in_element, first_nested, first_in_blocks}
use den_remux.Matroska.Index.Walk.{element_of, first_nested-encode, first_in_blocks-elements}

-- A Block as it is written: the track's number in any width, the time, the flags, and a frame.
pub record Block : Type 0 where
  pub size_width : ℕ
  pub track_width : ℕ
  pub track : ℕ
  pub high_time : ℕ
  pub low_time : ℕ
  pub flags : ℕ
  pub frame : List ℕ

-- What stands in a BlockGroup, and in a cluster: Blocks, and elements that are none.
pub data Piece : Type 0 where
  block : Block → Piece
  aside : Element → Piece

pub data Part : Type 0 where
  simple : Block → Part
  group : ℕ → List Piece → Part
  between : Element → Part

abbrev pub block_element : ℕ → Block → Element
block_element id b = record {
  id_width = 0;
  id = id;
  size_width = b.size_width;
  payload = block_bytes b.track_width b.track b.high_time b.low_time b.flags b.frame;
}

abbrev pub piece_element : Piece → Element
piece_element (block b) = block_element 0xA1 b
piece_element (aside e) = e

abbrev pub part_element : Part → Element
part_element (simple b) = block_element 0xA3 b
part_element (group w ps) = record {
  id_width = 0;
  id = 0xA0;
  size_width = w;
  payload = encode (map piece_element ps);
}
part_element (between e) = e

abbrev pub IsBlock : ℕ → Block → Type 0
IsBlock id b = IsElement (block_element id b) × FitsSize b.track_width b.track

abbrev pub IsPiece : Piece → Type 0
IsPiece (block b) = IsBlock 0xA1 b
IsPiece (aside e) = IsElement e × (e.id ≢ 0xA1)

abbrev pub IsPart : Part → Type 0
IsPart (simple b) = IsBlock 0xA3 b
IsPart (group w ps) = IsElement (part_element (group w ps)) × All IsPiece ps
IsPart (between e) = IsElement e × ((e.id ≢ 0xA3) × (e.id ≢ 0xA0))

-- The Blocks of a group and of a cluster, in their order.
unfoldable pub blocks_in : List Piece → List Block
blocks_in [] = []
blocks_in (block b ∷ ps) = b ∷ blocks_in ps
blocks_in (aside e ∷ ps) = blocks_in ps

unfoldable pub all_blocks : List Part → List Block
all_blocks [] = []
all_blocks (simple b ∷ ps) = b ∷ all_blocks ps
all_blocks (group w qs ∷ ps) = blocks_in qs ++ all_blocks ps
all_blocks (between e ∷ ps) = all_blocks ps

piece_elements-IsElement : (ps : List Piece) → All IsPiece ps → All IsElement (map piece_element ps)
piece_elements-IsElement [] h = tt
piece_elements-IsElement (block b ∷ ps) h = (h.0.0, piece_elements-IsElement ps h.1)
piece_elements-IsElement (aside e ∷ ps) h = (h.0.0, piece_elements-IsElement ps h.1)

part_elements-IsElement : (ps : List Part) → All IsPart ps → All IsElement (map part_element ps)
part_elements-IsElement [] h = tt
part_elements-IsElement (simple b ∷ ps) h = (h.0.0, part_elements-IsElement ps h.1)
part_elements-IsElement (group w qs ∷ ps) h = (h.0.0, part_elements-IsElement ps h.1)
part_elements-IsElement (between e ∷ ps) h = (h.0.0, part_elements-IsElement ps h.1)

find_map-append {ℓ κ} :
    {A : Type ℓ} {B : Type κ} (f : A → Option B) (xs ys : List A)
    → find_map f (xs ++ ys) ≡ or_else (find_map f xs) (find_map f ys)
unfolding find_map
find_map-append f [] ys = refl
find_map-append {B = B} f (x ∷ xs) ys =
    ap (or_else (f x)) (find_map-append f xs ys) ∙ shift (f x) (find_map f xs) (find_map f ys)
  where
    shift : (a b c : Option B) → or_else a (or_else b c) ≡ or_else (or_else a b) c
    shift none b c = refl
    shift (some a) b c = refl

within_size : (w n : ℕ) → FitsSize w n → n < 2 ^ 64
within_size w n h =
    let le : 2 ^ (7 * (w + 1)) ≤ 2 ^ 64 =
      pow-le-pow_right (omega arith) {j = 64} (omega (arith, h.0)) in
    omega (arith, h.1, le)

or_else-none {ℓ} : {A : Type ℓ} (o : Option A) → or_else o none ≡ o
or_else-none none = refl
or_else-none (some a) = refl

module _ {ℓ} {T : Type ℓ} (pick : List ℕ → Option T) (track : ℕ) where
  -- The frame of a Block of the track that is not laced.
  abbrev pub taken : Block → Option T
  taken b = if (b.track == track) && (bit_and b.flags 0x06 == 0) then pick b.frame else none

  picked-block :
      (id : ℕ) (b : Block)
      → IsBlock id b
      → picked pick track (block_frame (block_element id b).payload track) ≡ taken b
  unfolding picked
  picked-block id b h =
      ap (picked pick track)
        (block_frame-bytes b.track_width b.track b.high_time b.low_time b.flags b.frame h.1 track)
      ∙ one ((b.track == track) && (bit_and b.flags 0x06 == 0))
    where
      one :
          (w : Bool)
          → picked pick track (if w then some b.frame else none)
            ≡ (if w then pick b.frame else none)
      one true = refl
      one false = refl

  pieces_found :
      (ps : List Piece)
      → All IsPiece ps
      → find_map (element_of pick track (λ _. none) true) (map piece_element ps)
        ≡ find_map taken (blocks_in ps)
  unfolding find_map blocks_in in_element frame_of picked
  pieces_found [] h = refl
  pieces_found (block b ∷ ps) h =
      ap (λ o. or_else o (find_map (element_of pick track (λ _. none) true) (map piece_element ps)))
        (or_else-none _ ∙ picked-block 0xA1 b h.0)
      ∙ ap (or_else (taken b)) (pieces_found ps h.1)
  pieces_found (aside e ∷ ps) h =
      let apart : (e.id == 0xA1) ≡ false = ground (arith, h.0.1) in
      rw apart (ground arith) ∙ pieces_found ps h.1

  nested_found :
      (ps : List Piece)
      → All IsPiece ps
      → length (encode (map piece_element ps)) < 2 ^ 64
      → first_nested pick track (encode (map piece_element ps)) ≡ find_map taken (blocks_in ps)
  nested_found ps h s =
      first_nested-encode pick track (map piece_element ps) (piece_elements-IsElement ps h) s
      ∙ pieces_found ps h

  parts_found :
      (ps : List Part)
      → All IsPart ps
      → find_map (element_of pick track (first_nested pick track) false) (map part_element ps)
        ≡ find_map taken (all_blocks ps)
  unfolding find_map all_blocks in_element frame_of picked
  parts_found [] h = refl
  parts_found (simple b ∷ ps) h =
      ap
        (λ o.
          or_else o (
            find_map (element_of pick track (first_nested pick track) false) (map part_element ps)))
        (or_else-none _ ∙ picked-block 0xA3 b h.0)
      ∙ ap (or_else (taken b)) (parts_found ps h.1)
  parts_found (group w qs ∷ ps) h =
      ap
        (λ o.
          or_else o (
            find_map (element_of pick track (first_nested pick track) false) (map part_element ps)))
        (nested_found qs h.0.1 (within_size w (length (encode (map piece_element qs))) h.0.0.1))
      ∙ ap (or_else (find_map taken (blocks_in qs))) (parts_found ps h.1)
      ∙ sym (find_map-append taken (blocks_in qs) (all_blocks ps))
  parts_found (between e ∷ ps) h =
      let apart : (e.id == 0xA3) ≡ false = ground (arith, h.0.1.0) in
      let outside : (e.id == 0xA0) ≡ false = ground (arith, h.0.1.1) in
      rw (apart, outside) (ground arith) ∙ parts_found ps h.1

  -- In a cluster shorter than 2^64 bytes, written as SimpleBlocks, BlockGroups of Blocks and
  -- elements that are neither, the walk gives the first thing, in the order of the Blocks, that
  -- `pick` takes from the frame of one that is of the track and not laced; and none where there is
  -- none.
  pub first_in_blocks-encode :
      (ps : List Part)
      → All IsPart ps
      → length (encode (map part_element ps)) < 2 ^ 64
      → first_in_blocks pick track (encode (map part_element ps)) ≡ find_map taken (all_blocks ps)
  first_in_blocks-encode ps h s =
      first_in_blocks-elements pick track (map part_element ps) (part_elements-IsElement ps h) s
      ∙ parts_found ps h
