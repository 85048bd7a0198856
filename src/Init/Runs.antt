-- ===== src/Init/Runs.antt =====
-- Runs of the init segment's boxes: a sample description with an HEVC entry, beside a `free` box.
use den_remux.Prelude.{◌≡◌, ◌≢◌, refl, arith, [], ◌∷◌, ◌++◌, ok, err, some, replicate, false, true}
use den_remux.Text.{codes, same}
use den_remux.Bytes.{be_bytes}
use den_remux.Init.{stuck, boxed, has_offsets, patch_stsd, walk_boxes, add_dovi_record, dovi_record}
use den_remux.Init.{is_hevc}
use den_remux.Init.Boxes.{Box, write}
use den_remux.Init.Walk.{finish, pass, enter, walk_boxes-write}
use den_remux.Init.Tables.{any_offsets}
use den_remux.Init.Entries.{Entry, hevc, entry_box, with_record, any_hevc, patch_stsd-write}
use den_remux.Init.Fuel.{add_dovi_record-Ends}

abbrev free : Box
free = record { kind = codes "free"; body = 1 ∷ 2 ∷ 3 ∷ [] }

abbrev empty_stco : Box
empty_stco = record { kind = codes "stco"; body = replicate 8 0 }

abbrev config : Box
config = record { kind = codes "hvcC"; body = 1 ∷ [] }

abbrev entry : Entry
entry = hevc (codes "hvc1") (replicate 78 0) (config ∷ [])

abbrev stsd : Box
stsd = record { kind = codes "stsd"; body = replicate 8 0 }

walk_boxes-write_example :
    walk_boxes (write (free ∷ stsd ∷ [])) (codes "stsd" ∷ []) (dovi_record 5 6)
    ≡ finish [] false
        (pass (enter (codes "stsd") [] (dovi_record 5 6)) (codes "stsd") (free ∷ stsd ∷ []))
walk_boxes-write_example =
    walk_boxes-write (free ∷ stsd ∷ []) (codes "stsd") [] (dovi_record 5 6) (omega arith)

is_entry : is_hevc (codes "hvc1") ≡ true
unfolding is_hevc same
is_entry = refl

patch_stsd-write_example :
    patch_stsd (replicate 8 0 ++ write (entry_box entry ∷ [])) (dovi_record 5 6)
    ≡ ok (some (replicate 8 0 ++ write (with_record (dovi_record 5 6) entry ∷ [])))
unfolding any_hevc
patch_stsd-write_example =
    patch_stsd-write (entry ∷ []) (replicate 8 0) (dovi_record 5 6) refl
      (((refl, unfold write boxed be_bytes in omega arith), is_entry, refl, omega arith), tt)

no_offsets : any_offsets (free ∷ empty_stco ∷ []) ≡ false
unfolding any_offsets has_offsets same
no_offsets = refl

add_dovi_record-Ends_example : add_dovi_record (write (free ∷ [])) 5 6 ≢ err stuck
add_dovi_record-Ends_example = add_dovi_record-Ends (write (free ∷ [])) 5 6
