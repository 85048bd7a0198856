-- ===== src/Matroska/Index/SeekHead.antt =====
-- A written SeekHead is read back by `parse_seek_head` of src/probe/mkv.rs.
use den_remux.Prelude.{ℕ, ◌%◌, ◌^◌, ◌<◌, ◌≡◌, refl, arith, All, map, ap, ◌∙◌}
use den_remux.Prelude.{List, [], ◌∷◌, some, length, take-all}
use den_remux.Prelude.{filter_map-map, filter_map-some, All-map, filter_map}
use den_remux.Bytes.{be_bytes, length-be_bytes, be-be_bytes}
use den_remux.Matroska.Element.{children, child, bodies, find_id, uint}
use den_remux.Matroska.Read.{Element, IsElement, encode, content, length-encode, length-encode_nil}
use den_remux.Matroska.Ids
use den_remux.Matroska.Index.{seek_entry, parse_seek_head}
use den_remux.Matroska.Index.Cues.{
  uint_element, uint_element-IsElement, uint-be_bytes, children-encode-All,
}

-- A SeekHead: the id in four bytes and the position in eight.
abbrev pub seek_elements : ℕ × ℕ → List Element
seek_elements (id, position) =
    record { id_width = 1; id = Ids.seek_id; size_width = 0; payload = be_bytes 4 id }
    ∷ uint_element 1 Ids.seek_position position
    ∷ []

abbrev pub seek_element : ℕ × ℕ → Element
seek_element q = record {
  id_width = 1;
  id = Ids.seek;
  size_width = 0;
  payload = encode (seek_elements q);
}

abbrev pub IsSeek : ℕ × ℕ → Type 0
IsSeek q = (q.0 < 2 ^ 32) × (q.1 < 2 ^ 64)

length_seek : (q : ℕ × ℕ) → length (encode (seek_elements q)) ≡ 18
length_seek (id, position) = omega (
  arith,
  length-encode (record { id_width = 1; id = Ids.seek_id; size_width = 0; payload = be_bytes 4 id })
      (uint_element 1 Ids.seek_position position ∷ []),
  length-encode (uint_element 1 Ids.seek_position position) [],
  length-encode_nil,
  length-be_bytes 4 id,
  length-be_bytes 8 position,
)

children_seek :
    (q : ℕ × ℕ)
    → children (encode (seek_elements q))
      ≡ (Ids.seek_id, be_bytes 4 q.0) ∷ (Ids.seek_position, be_bytes 8 q.1) ∷ []
children_seek (id, position) =
    children-encode-All (seek_elements (id, position))
      (
        (omega arith, omega (arith, length-be_bytes 4 id), omega (arith, length-be_bytes 4 id)),
        (uint_element-IsElement 1 Ids.seek_position position (omega arith), tt),
      )
      (omega (arith, length_seek (id, position)))

uint-be_bytes_four : (v : ℕ) → v < 2 ^ 32 → uint (be_bytes 4 v) % 2 ^ 32 ≡ v
unfolding uint
uint-be_bytes_four v h =
    rw
      (
        take-all 8 (be_bytes 4 v) (omega (arith, length-be_bytes 4 v)),
        be-be_bytes 4 0 v (omega arith),
      )
      (omega arith)

seek_entry-element : (q : ℕ × ℕ) → IsSeek q → seek_entry (seek_element q).payload ≡ some q
unfolding seek_entry child find_id
seek_entry-element (id, position) h =
    rw (children_seek (id, position))
      (rw (uint-be_bytes_four id h.0, uint-be_bytes position h.1) refl)

bodies_seeks :
    (qs : List (ℕ × ℕ))
    → bodies Ids.seek (map content (map seek_element qs)) ≡ map (λ q. (seek_element q).payload) qs
unfolding bodies
bodies_seeks [] = refl
bodies_seeks (q ∷ qs) = ap (λ bs. (seek_element q).payload ∷ bs) (bodies_seeks qs)

IsElement-seeks : (qs : List (ℕ × ℕ)) → All IsElement (map seek_element qs)
IsElement-seeks [] = tt
IsElement-seeks (q ∷ qs) =
    ((omega arith, omega (arith, length_seek q), omega (arith, length_seek q)), IsElement-seeks qs)

filter_seeks :
    (qs : List (ℕ × ℕ))
    → All IsSeek qs
    → filter_map seek_entry (map (λ q. (seek_element q).payload) qs) ≡ qs
filter_seeks qs h =
    filter_map-map seek_entry (λ q. (seek_element q).payload) (λ q. some q) qs
      (All-map seek_entry-element qs h)
    ∙ filter_map-some qs

-- The entries of a written SeekHead payload shorter than 2^64 bytes, with ids of 32 bits and
-- positions of 64, are read back, all of them and in order.
pub parse_seek_head-encode :
    (qs : List (ℕ × ℕ))
    → All IsSeek qs
    → length (encode (map seek_element qs)) < 2 ^ 64
    → parse_seek_head (encode (map seek_element qs)) ≡ qs
unfolding parse_seek_head
parse_seek_head-encode qs h small =
    rw (children-encode-All (map seek_element qs) (IsElement-seeks qs) small, bodies_seeks qs)
      (filter_seeks qs h)
