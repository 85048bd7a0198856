-- ===== src/Init.antt =====
-- The init segment of a Dolby Vision copy, src/job.rs: `add_dovi_record` and what it calls, which add
-- a configuration record inside `stsd` and grow each box above it.
pub mod Boxes
pub mod Steps
pub mod Walk
pub mod Tables
pub mod Entries
pub mod Fuel
pub mod Runs
use den_remux.Prelude.{
  ℕ, zero, suc, ◌+◌, ◌-◌, ◌*◌, ◌/◌, ◌%◌, ◌^◌, ◌≤◌, ◌<◌, ◌≡◌, arith, Bool, true, false, ◌&&◌, ◌||◌,
  not,
}
use den_remux.Prelude.{
  List, [], ◌∷◌, ◌++◌, Option, none, some, Result, ok, err, ◌>>?◌, ltb, leb, ◌==◌, length, take,
  drop, replicate,
}
use den_remux.Prelude.{if◌then◌else◌}
use Prim.Native.Nat.{bit_or}
use den_remux.Text.{Text, codes, same}
use den_remux.Bytes.{be, be_bytes}

-- The messages that a refusal may have; `stuck` is none of them: a loop ran out of fuel.
pub data Refusal : Type 0 where
  truncated_box bad_box chunk_offsets truncated_stsd no_entry stuck : Refusal

-- A box at the front of some bytes: its code, its body, and the whole box's length.
abbrev pub BoxAt : Type 0
BoxAt = List ℕ × List ℕ × ℕ

unfoldable pub sized_box : List ℕ → ℕ → Result Refusal BoxAt
sized_box b size =
    if ltb size 8 || ltb (length b) size
    then err bad_box
    else ok (take 4 (drop 4 b), take (size - 8) (drop 8 b), size)

unfoldable pub box_at : List ℕ → Result Refusal BoxAt
box_at b = if ltb (length b) 8 then err truncated_box else sized_box b (be 0 (take 4 b))

-- `(body.len() + 8) as u32`, the code and the body.
unfoldable pub boxed : List ℕ → List ℕ → List ℕ
boxed kind body = be_bytes 4 ((length body + 8) % 2 ^ 32) ++ (kind ++ body)

-- The loop of `walk_boxes`, with what the call for the path's rest makes of a body.
unfoldable pub walk_loop :
    (List ℕ → Result Refusal (Option (List ℕ)))
    → List ℕ
    → ℕ
    → List ℕ
    → ℕ
    → List ℕ
    → Bool
    → Result Refusal (Option (List ℕ))
walk_loop inner kind zero bytes at out changed =
    if leb (length bytes) at then ok (if changed then some out else none) else err stuck
walk_loop inner kind (suc fuel) bytes at out changed =
    let next = λ (at' : ℕ) (out' : List ℕ) (changed' : Bool).
      walk_loop inner kind fuel bytes at' out' changed' in
    if leb (length bytes) at
    then ok (if changed then some out else none)
    else box_at (drop at bytes) >>? λ b.
        let whole = out ++ take b.2 (drop at bytes) in
        if same b.0 kind
        then (inner b.1 >>? λ o. elim o [
          | none ↦ next (at + b.2) whole changed
          | some body ↦ next (at + b.2) (out ++ boxed b.0 body) true
        ])
        else next (at + b.2) whole changed

-- `no_chunk_offsets`: the tables of chunk offsets in a sample table are empty.
unfoldable pub has_offsets : List ℕ → List ℕ → Bool
has_offsets kind body =
    (same kind (codes "stco") || same kind (codes "co64"))
    && not (same (take 4 (drop 4 body)) (0 ∷ 0 ∷ 0 ∷ 0 ∷ []))

unfoldable pub offsets_loop : ℕ → List ℕ → ℕ → Result Refusal (Unit {0})
offsets_loop zero stbl at = if leb (length stbl) at then ok tt else err stuck
offsets_loop (suc fuel) stbl at =
    let next = λ (at' : ℕ). offsets_loop fuel stbl at' in
    if leb (length stbl) at
    then ok tt
    else box_at (drop at stbl) >>? λ b.
        if has_offsets b.0 b.1 then err chunk_offsets else next (at + b.2)

unfoldable pub no_chunk_offsets : List ℕ → Result Refusal (Unit {0})
no_chunk_offsets stbl = offsets_loop (length stbl) stbl 0

-- Whether a sample entry has a Dolby Vision record among its child boxes, from byte `child` on.
unfoldable pub record_loop : ℕ → List ℕ → ℕ → Bool → Result Refusal Bool
record_loop zero body child found = if leb (length body) child then ok found else err stuck
record_loop (suc fuel) body child found =
    let next = λ (child' : ℕ) (found' : Bool). record_loop fuel body child' found' in
    if leb (length body) child
    then ok found
    else box_at (drop child body) >>? λ b.
        next (child + b.2) (found || (same b.0 (codes "dvcC") || same b.0 (codes "dvvC")))

abbrev pub entry_header : ℕ
entry_header = 78

unfoldable pub is_hevc : List ℕ → Bool
is_hevc kind =
    same kind (codes "hvc1")
    || same kind (codes "hev1")
    || same kind (codes "dvh1")
    || same kind (codes "dvhe")

unfoldable pub patch_entry : List ℕ → List ℕ → Result Refusal (List ℕ)
patch_entry body record_bytes = record_loop (length body) body entry_header false >>? λ has_record.
    ok (boxed (codes "dvh1") (if has_record then body else body ++ record_bytes))

unfoldable pub stsd_loop :
    List ℕ → ℕ → List ℕ → ℕ → List ℕ → Bool → Result Refusal (Option (List ℕ))
stsd_loop record_bytes zero stsd at out changed =
    if leb (length stsd) at then ok (if changed then some out else none) else err stuck
stsd_loop record_bytes (suc fuel) stsd at out changed =
    let next = λ (at' : ℕ) (out' : List ℕ) (changed' : Bool).
      stsd_loop record_bytes fuel stsd at' out' changed' in
    if leb (length stsd) at
    then ok (if changed then some out else none)
    else box_at (drop at stsd) >>? λ b.
        if is_hevc b.0
        then (patch_entry b.1 record_bytes >>? λ entry. next (at + b.2) (out ++ entry) true)
        else next (at + b.2) (out ++ take b.2 (drop at stsd)) changed

unfoldable pub patch_stsd : List ℕ → List ℕ → Result Refusal (Option (List ℕ))
patch_stsd stsd record_bytes =
    if ltb (length stsd) 8
    then err truncated_stsd
    else stsd_loop record_bytes (length stsd) stsd 8 (take 8 stsd) false

-- `walk_boxes`, by recursion on the path. The last box of the path is patched; a sample table is
-- checked before it is entered. A path is never empty where the program calls it.
unfoldable pub walk_boxes : List ℕ → List (List ℕ) → List ℕ → Result Refusal (Option (List ℕ))
walk_boxes bytes [] record_bytes = ok none
walk_boxes bytes (kind ∷ []) record_bytes =
    walk_loop (λ body. patch_stsd body record_bytes) kind (length bytes) bytes 0 [] false
walk_boxes bytes (kind ∷ next ∷ path) record_bytes =
    walk_loop
      (λ body. (if same kind (codes "stbl") then no_chunk_offsets body else ok tt) >>? λ _.
        walk_boxes body (next ∷ path) record_bytes)
      kind (length bytes) bytes 0 [] false

-- The `dvcC` record of a profile and a level, both bytes.
unfoldable pub dovi_record : ℕ → ℕ → List ℕ
dovi_record profile level =
    be_bytes 4 24
    ++ codes "dvcC"
    ++ (1 ∷ 0 ∷ bit_or ((profile * 2) % 256) (level / 32) ∷ (level % 32 * 8 + 5) ∷ 0 ∷ [])
    ++ replicate 11 0

abbrev pub dovi_path : List (List ℕ)
dovi_path =
    codes "moov" ∷ codes "trak" ∷ codes "mdia" ∷ codes "minf" ∷ codes "stbl" ∷ codes "stsd" ∷ []

unfoldable pub add_dovi_record : List ℕ → ℕ → ℕ → Result Refusal (List ℕ)
add_dovi_record init profile level = walk_boxes init dovi_path (dovi_record profile level) >>? λ o.
    elim o [ none ↦ err no_entry | some out ↦ ok out ]
