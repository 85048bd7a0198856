-- ===== src/Matroska/Element.antt =====
-- `header`, `children` and `child` of src/probe/mkv.rs: EBML elements, walked one after the other.
use den_remux.Prelude.{ℕ, zero, suc, ◌+◌, ◌-◌, ◌%◌, ◌^◌}
use den_remux.Prelude.{List, [], ◌∷◌, Option, none, some, ltb, ◌==◌, length, take, drop}
use den_remux.Prelude.{if◌then◌else◌, get_elem?, ◌>>=◌, Bool, true, ◌&&◌, ◌||◌}
use den_remux.Bytes.{be, leading_zeros, checked_add}

-- An element header: its id, its size (`none` for the unknown size), and its own length.
abbrev pub Header : Type 0
Header = ℕ × Option ℕ × ℕ

unfoldable pub all_ff : List ℕ → Bool
all_ff [] = true
all_ff (c ∷ cs) = (c == 0xFF) && all_ff cs

-- `s & (0xFF >> m)`, for a size of `m` bytes whose first is `s`.
unfoldable pub value_bits : ℕ → ℕ → ℕ
value_bits s m = s % 2 ^ (8 - m)

unfoldable pub size_value : ℕ → ℕ → List ℕ → Option ℕ
size_value s m cs =
    if (value_bits s m == (2 ^ (8 - m) - 1)) && all_ff cs
    then none
    else some (be (value_bits s m) cs)

unfoldable pub header_size : List ℕ → ℕ → ℕ → ℕ → Option Header
header_size b n s m =
    if ltb 8 m || ltb (length b) (n + m)
    then none
    else some (be 0 (take n b), size_value s m (take (m - 1) (drop (n + 1) b)), n + m)

unfoldable pub header_id : List ℕ → ℕ → Option Header
header_id b n =
    if ltb 4 n || ltb (length b) n
    then none
    else get_elem? b n >>= λ s. header_size b n s (leading_zeros s + 1)

unfoldable pub header : List ℕ → Option Header
header b = get_elem? b 0 >>= λ first. header_id b (leading_zeros first + 1)

-- One round of the iterator of `children`: the child at `pos`, and where the next begins.
unfoldable pub child_body : List ℕ → ℕ → ℕ → ℕ → Option ((ℕ × List ℕ) × ℕ)
child_body b id start end =
    if ltb (length b) end then none else some ((id, take (end - start) (drop start b)), end)

unfoldable pub child_at : List ℕ → ℕ → Header → Option ((ℕ × List ℕ) × ℕ)
child_at b pos (id, none, hl) = none
child_at b pos (id, some size, hl) =
    checked_add (pos + hl) size >>= λ end. child_body b id (pos + hl) end

unfoldable pub next_child : List ℕ → ℕ → Option ((ℕ × List ℕ) × ℕ)
next_child b pos = if ltb (length b) pos then none else header (drop pos b) >>= child_at b pos

unfoldable pub children_from : ℕ → List ℕ → ℕ → List (ℕ × List ℕ)
children_from zero b pos = []
children_from (suc fuel) b pos = elim (next_child b pos) [
  | none ↦ []
  | some (c, end) ↦ c ∷ children_from fuel b end
]

-- A child takes two bytes at least, so the length of the payload is fuel enough (`Walk`).
unfoldable pub children : List ℕ → List (ℕ × List ℕ)
children b = children_from (length b) b 0

-- `find(|(id, _)| *id == want)`
unfoldable pub find_id : ℕ → List (ℕ × List ℕ) → Option (List ℕ)
find_id want [] = none
find_id want ((id, body) ∷ cs) = if id == want then some body else find_id want cs

unfoldable pub child : List ℕ → ℕ → Option (List ℕ)
child b want = find_id want (children b)

-- `filter(|(id, _)| *id == want)`, and the bodies of what is kept.
unfoldable pub bodies : ℕ → List (ℕ × List ℕ) → List (List ℕ)
bodies want [] = []
bodies want ((id, body) ∷ cs) =
    let rest = bodies want cs in if id == want then body ∷ rest else rest

unfoldable pub uint : List ℕ → ℕ
uint b = be 0 (take 8 b)
