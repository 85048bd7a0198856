-- ===== src/Mp4.antt =====
-- The MP4 parser of src/probe/mp4.rs: boxes, and the bytes before each sync sample.
pub mod Boxes
pub mod Sync
pub mod Runs
use den_remux.Prelude.{ℕ, zero, suc, ◌+◌, ◌-◌, ◌*◌, ◌≡◌, min, arith, Bool, true, false, ◌&&◌, ◌||◌}
use den_remux.Prelude.{
  List, [], ◌∷◌, Option, none, some, ◌>>=◌, ltb, leb, ◌==◌, length, take, drop, if◌then◌else◌,
}
use den_remux.Text.{same, codes}
use den_remux.Bytes.{be, checked_add}

unfoldable pub u32_at : List ℕ → ℕ → Option ℕ
u32_at b i = if ltb (length b) (i + 4) then none else some (be 0 (take 4 (drop i b)))

unfoldable pub u64_at : List ℕ → ℕ → Option ℕ
u64_at b i = if ltb (length b) (i + 8) then none else some (be 0 (take 8 (drop i b)))

-- Box size, code and header length.
abbrev pub Header : Type 0
Header = ℕ × List ℕ × ℕ

unfoldable pub box_header : List ℕ → Option Header
box_header b = u32_at b 0 >>= λ size.
    if ltb (length b) 8
    then none
    else if size == 1
    then (u64_at b 8 >>= λ large. some (large, take 4 (drop 4 b), 16))
    else some (size, take 4 (drop 4 b), 8)

-- One round of the iterator of `boxes`: a box from `pos` to `pos + size`, and where the next begins.
unfoldable pub box_body : List ℕ → ℕ → ℕ → List ℕ → ℕ → Option ((List ℕ × List ℕ) × ℕ)
box_body b pos size kind hl = checked_add pos size >>= λ end.
    if ltb (length b) end || ltb size hl
    then none
    else some ((kind, take (end - (pos + hl)) (drop (pos + hl) b)), end)

unfoldable pub next_box : List ℕ → ℕ → Option ((List ℕ × List ℕ) × ℕ)
next_box b pos =
    if ltb (length b) pos
    then none
    else box_header (drop pos b) >>= λ h.
        box_body b pos (if h.0 == 0 then length b - pos else h.0) h.1 h.2

unfoldable pub boxes_from : ℕ → List ℕ → ℕ → List (List ℕ × List ℕ)
boxes_from zero b pos = []
boxes_from (suc fuel) b pos = elim (next_box b pos) [
  | none ↦ []
  | some (x, end) ↦ x ∷ boxes_from fuel b end
]

-- A box takes eight bytes at least.
unfoldable pub boxes : List ℕ → List (List ℕ × List ℕ)
boxes b = boxes_from (length b) b 0

unfoldable pub find_kind : List ℕ → List (List ℕ × List ℕ) → Option (List ℕ)
find_kind want [] = none
find_kind want ((kind, body) ∷ xs) = if same kind want then some body else find_kind want xs

unfoldable pub child : List ℕ → List ℕ → Option (List ℕ)
child b want = find_kind want (boxes b)

abbrev pub max_samples : ℕ
max_samples = 3_000_000

abbrev pub max_keyframes : ℕ
max_keyframes = 1_000_000

-- The closure `size`, of a sample counted from one.
unfoldable pub sample_size : ℕ → List ℕ → ℕ → Option ℕ
sample_size fixed stsz sample =
    if ltb 0 fixed then some fixed else u32_at stsz (12 + (sample - 1) * 4)

-- The number of sync sample `i`: without an `stss` every sample is one.
unfoldable pub sync_sample : Option (List ℕ) → ℕ → Option ℕ
sync_sample none i = some (i + 1)
sync_sample (some b) i = u32_at b (8 + i * 4)

-- The loops of `sync_sample_bytes`, over the sizes and the numbers of the samples. The inner one, from
-- `next` up to a sample, takes one round for each sample between them. The sums stay far below 2^64.
module _ (size : ℕ → Option ℕ) (sample_at : ℕ → Option ℕ) (count : ℕ) where
  unfoldable pub advance : ℕ → ℕ → ℕ → Option ℕ
  advance zero before next = some before
  advance (suc n) before next = size next >>= λ s. advance n (before + s) (next + 1)

  unfoldable pub sync_loop : ℕ → ℕ → ℕ → ℕ → Option (List ℕ)
  sync_loop zero i before next = some []
  sync_loop (suc rounds) i before next =
      let rest = λ (before' next' : ℕ). sync_loop rounds (i + 1) before' next' in
      sample_at i >>= λ sample.
      if ltb sample next || ltb count sample
      then none
      else advance (sample - next) before next >>= λ before'.
          rest before' sample >>= λ out. some (before' ∷ out)

unfoldable pub sync_count : Option (List ℕ) → ℕ → Option ℕ
sync_count none count = some count
sync_count (some b) count = u32_at b 4

-- The guard on the table of sizes, and what follows it.
unfoldable pub check_sizes {ℓ} : {A : Type ℓ} → ℕ → ℕ → List ℕ → Option A → Option A
check_sizes fixed count stsz next =
    if ltb max_samples count || ((fixed == 0) && ltb (length stsz) (12 + count * 4))
    then none
    else next

unfoldable pub sync_sample_bytes : List ℕ → Option (List ℕ)
sync_sample_bytes stbl = do
  stsz ← child stbl (codes "stsz")
  fixed ← u32_at stsz 4
  count ← u32_at stsz 8
  check_sizes fixed count stsz (
      sync_count (child stbl (codes "stss")) count >>= λ n.
      sync_loop (sample_size fixed stsz) (sync_sample (child stbl (codes "stss"))) count
        (min n max_keyframes) 0 0 1)
