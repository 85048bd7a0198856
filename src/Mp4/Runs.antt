-- ===== src/Mp4/Runs.antt =====
-- A run of the byte index: three samples of 10, 20 and 30 bytes, the first and the third sync samples.
use den_remux.Prelude.{◌^◌, ◌<◌, length, ℕ, ◌≡◌, refl, arith, List, [], ◌∷◌, ◌++◌, some, map, min}
use den_remux.Text.{codes, same}
use den_remux.Bytes.{be, be_bytes, checked_add}
use den_remux.Init.{boxed}
use den_remux.Mp4.{
  u32_at, child, find_kind, boxes, boxes_from, next_box, box_header, box_body, sync_sample_bytes,
}
use den_remux.Mp4.{
  check_sizes, sync_loop, advance, sample_size, sync_sample, sync_count, max_keyframes,
}
use den_remux.Init.Boxes.{Box, write}
use den_remux.Mp4.Sync.{index_of, sync_sample_bytes-index}

abbrev sizes : List ℕ
sizes =
    0 ∷ 0 ∷ 0 ∷ 0 ∷ 0 ∷ 0 ∷ 0 ∷ 0 ∷ 0 ∷ 0 ∷ 0 ∷ 3 ∷ 0 ∷ 0 ∷ 0 ∷ 10 ∷ 0 ∷ 0 ∷ 0 ∷ 20 ∷ 0 ∷ 0 ∷ 0 ∷ 30
    ∷ []

abbrev syncs : List ℕ
syncs = 0 ∷ 0 ∷ 0 ∷ 0 ∷ 0 ∷ 0 ∷ 0 ∷ 2 ∷ 0 ∷ 0 ∷ 0 ∷ 1 ∷ 0 ∷ 0 ∷ 0 ∷ 3 ∷ []

abbrev table : List ℕ
table = boxed (codes "stsz") sizes ++ boxed (codes "stss") syncs

indexed : sync_sample_bytes table ≡ some (0 ∷ 30 ∷ [])
unfolding sync_sample_bytes check_sizes sync_loop advance sample_size sync_sample sync_count child
    find_kind boxes boxes_from next_box box_header box_body u32_at boxed be be_bytes checked_add
    same
indexed = refl

sync_sample_bytes-index_example :
    (stsz : List ℕ) × (fixed : ℕ) × (count : ℕ) × (n : ℕ) × (child table (codes "stsz") ≡ some stsz)
    × (u32_at stsz 4 ≡ some fixed)
    × (u32_at stsz 8 ≡ some count)
    × (sync_count (child table (codes "stss")) count ≡ some n)
    × (map some (0 ∷ 30 ∷ [])
        ≡ index_of
            (sample_size fixed stsz)
            (sync_sample (child table (codes "stss")))
            (min n max_keyframes)
            0)
sync_sample_bytes-index_example = sync_sample_bytes-index table (0 ∷ 30 ∷ []) indexed

abbrev two_boxes : List Box
two_boxes =
    record { kind = codes "free"; body = 1 ∷ [] } ∷ record { kind = codes "mdat"; body = [] } ∷ []

written_boxes : length (write two_boxes) < 2 ^ 64
unfolding write boxed be_bytes
written_boxes = omega arith
