-- ===== src/Matroska/Index/Blocks.antt =====
-- The frames of a written Block, and the RPU among the NAL units of a frame.
use den_remux.Prelude.{
  ℕ, zero, suc, ◌+◌, ◌-◌, ◌/◌, ◌%◌, ◌^◌, ◌≤◌, ◌<◌, ◌≡◌, refl, arith, All, ap, ◌∙◌, sym,
}
use den_remux.Prelude.{
  List, [], ◌∷◌, ◌++◌, Option, none, some, length, ◌==◌, length-append, append_assoc,
}
use den_remux.Prelude.{find_map, or_else, if◌then◌else◌, take, drop, ◌&&◌, get_elem?}
use den_remux.Prelude.{take-append, drop-append}
use Prim.Native.Nat.{bit_and}
use native.Mathlib.Nat.{mod-lt, div-add-mod}
use den_remux.Bytes.{be, be_bytes, length-be_bytes, be-be_bytes, checked_add}
use den_remux.Matroska.Element.{value_bits}
use den_remux.Matroska.Encode.{size_bytes, FitsSize, first_of_size}
use den_remux.Matroska.Parts.{pow_pos}
use den_remux.Matroska.Read.{drop_within}
use den_remux.Matroska.Index.{block_number, block_of, block_frame, is_rpu, rpu_loop, rpu_nal}

-- A Block: the track's number, two bytes of time, the flags, and the frame.
abbrev pub block_bytes : ℕ → ℕ → ℕ → ℕ → ℕ → List ℕ → List ℕ
block_bytes k track t1 t2 flags frame = size_bytes k track ++ (t1 ∷ t2 ∷ flags ∷ frame)

get_behind {ℓ} :
    {A : Type ℓ} (xs : List A) (a b c : A) (ys : List A)
    → get_elem? (xs ++ (a ∷ b ∷ c ∷ ys)) (length xs + 2) ≡ some c
get_behind [] a b c ys = refl
get_behind (x ∷ xs) a b c ys =
    ap (get_elem? (x ∷ (xs ++ (a ∷ b ∷ c ∷ ys)))) {x = suc (length xs) + 2}
      {y = suc (length xs + 2)} (omega arith)
    ∙ get_behind xs a b c ys

drop_behind {ℓ} :
    {A : Type ℓ} (xs : List A) (a b c : A) (ys : List A)
    → drop (length xs + 3) (xs ++ (a ∷ b ∷ c ∷ ys)) ≡ ys
drop_behind [] a b c ys = refl
drop_behind (x ∷ xs) a b c ys =
    ap (λ k. drop k (x ∷ (xs ++ (a ∷ b ∷ c ∷ ys)))) {x = suc (length xs) + 3}
      {y = suc (length xs + 3)} (omega arith)
    ∙ drop_behind xs a b c ys

module _ (k track t1 t2 flags : ℕ) (frame : List ℕ) (fits : FitsSize k track) where
  low : List ℕ
  low = be_bytes k (track % 256 ^ k)

  block_number-bytes :
      block_number (block_bytes k track t1 t2 flags frame) (2 ^ (7 - k) + track / 256 ^ k) (k + 1)
      ≡ track
  unfolding block_number size_bytes value_bits
  block_number-bytes = rw ((first_of_size k track fits).1) (
      ap
        (λ m.
          be (track / 256 ^ k) (take m (be_bytes k (track % 256 ^ k) ++ (t1 ∷ t2 ∷ flags ∷ frame))))
        {x = k + 1 - 1} {y = length (be_bytes k (track % 256 ^ k))}
        (omega (arith, length-be_bytes k (track % 256 ^ k)))
      ∙ ap (be (track / 256 ^ k))
          (take-append (be_bytes k (track % 256 ^ k)) (t1 ∷ t2 ∷ flags ∷ frame))
      ∙ be-be_bytes k (track / 256 ^ k) (track % 256 ^ k) (mod-lt track (pow_pos k))
      ∙ omega (arith, div-add-mod track (256 ^ k)))

  length-size_bytes : length (size_bytes k track) ≡ k + 1
  unfolding size_bytes
  length-size_bytes = omega (arith, length-be_bytes k (track % 256 ^ k))

  block_flags : get_elem? (block_bytes k track t1 t2 flags frame) (k + 1 + 2) ≡ some flags
  block_flags = rw (← length-size_bytes) (get_behind (size_bytes k track) t1 t2 flags frame)

  block_rest : drop (k + 1 + 3) (block_bytes k track t1 t2 flags frame) ≡ frame
  block_rest = rw (← length-size_bytes) (drop_behind (size_bytes k track) t1 t2 flags frame)

  length-block_bytes : length (block_bytes k track t1 t2 flags frame) ≡ k + 4 + length frame
  length-block_bytes =
      omega (arith, length-append (size_bytes k track) (t1 ∷ t2 ∷ flags ∷ frame), length-size_bytes)

  block_of-bytes :
      (wanted : ℕ)
      → block_of
          (block_bytes k track t1 t2 flags frame)
          wanted
          (2 ^ (7 - k) + track / 256 ^ k)
          (k + 1)
        ≡ (if (track == wanted) && (bit_and flags 0x06 == 0) then some frame else none)
  unfolding block_of
  block_of-bytes wanted =
      rw (block_flags, block_number-bytes, block_rest) (ground (arith, length-block_bytes))

  -- A written Block, its track number in any width that holds it, gives its frame exactly if the
  -- track is the wanted one and its flags name no lacing.
  pub block_frame-bytes :
      (wanted : ℕ)
      → block_frame (block_bytes k track t1 t2 flags frame) wanted
        ≡ (if (track == wanted) && (bit_and flags 0x06 == 0) then some frame else none)
  unfolding block_frame size_bytes
  block_frame-bytes wanted = rw ((first_of_size k track fits).0) (block_of-bytes wanted)

-- NAL units behind their lengths in `ls` bytes, as an HEVC track of Matroska stores a frame.
unfoldable pub nal_bytes : ℕ → List (List ℕ) → List ℕ
nal_bytes ls [] = []
nal_bytes ls (n ∷ ns) = be_bytes ls (length n) ++ (n ++ nal_bytes ls ns)

-- The unit itself, if it is one that carries an RPU.
abbrev pub rpu_of : List ℕ → Option (List ℕ)
rpu_of n = if is_rpu n then some n else none

module _ (pre n more : List ℕ) (ls : ℕ) (fits : length n < 256 ^ ls) where
  abbrev frame_with : List ℕ
  frame_with = pre ++ (be_bytes ls (length n) ++ (n ++ more))

  length-frame_with : length frame_with ≡ length pre + ls + length n + length more
  length-frame_with = omega (
    arith,
    length-append pre (be_bytes ls (length n) ++ (n ++ more)),
    length-append (be_bytes ls (length n)) (n ++ more),
    length-append n more,
    length-be_bytes ls (length n),
  )

  nal_length : be 0 (take ls (drop (length pre) frame_with)) ≡ length n
  nal_length = rw (drop-append pre (be_bytes ls (length n) ++ (n ++ more))) (
      ap (λ m. be 0 (take m (be_bytes ls (length n) ++ (n ++ more))))
        (sym (length-be_bytes ls (length n)))
      ∙ ap (be 0) (take-append (be_bytes ls (length n)) (n ++ more))
      ∙ be-be_bytes ls 0 (length n) fits
      ∙ omega arith)

  nal_unit : take (length n) (drop (length pre + ls) frame_with) ≡ n
  nal_unit =
      rw (drop_within pre (be_bytes ls (length n)) (n ++ more) ls (length-be_bytes ls (length n)))
        (take-append n more)

  checked :
      length frame_with < 2 ^ 64
      → checked_add (length pre + ls) (length n) ≡ some (length pre + ls + length n)
  unfolding checked_add
  checked small = ground (arith, length-frame_with)

  rpu_loop-step :
      (f : ℕ)
      → length frame_with < 2 ^ 64
      → rpu_loop (suc f) frame_with ls (length pre)
        ≡ or_else (rpu_of n) (rpu_loop f frame_with ls (length pre + ls + length n))
  unfolding rpu_loop
  rpu_loop-step f small =
      rw (nal_length, checked small, nal_unit) (ground (arith, length-frame_with))

-- Past the last unit no length is left to read.
rpu_loop-end :
    (f : ℕ) (frame : List ℕ) (ls at : ℕ) → length frame < at + ls → rpu_loop f frame ls at ≡ none
unfolding rpu_loop
rpu_loop-end zero frame ls at h = refl
rpu_loop-end (suc f) frame ls at h = ground arith

rpu_loop-bytes :
    (ns : List (List ℕ)) (pre : List ℕ) (ls f : ℕ)
    → 0 < ls
    → All (λ n. length n < 256 ^ ls) ns
    → length (pre ++ nal_bytes ls ns) < 2 ^ 64
    → length (nal_bytes ls ns) ≤ f
    → rpu_loop f (pre ++ nal_bytes ls ns) ls (length pre) ≡ find_map rpu_of ns
unfolding nal_bytes find_map
rpu_loop-bytes [] pre ls f l h s k =
    rpu_loop-end f (pre ++ []) ls (length pre) (omega (arith, length-append pre []))
rpu_loop-bytes (n ∷ ns) pre ls zero l h s k = absurd (
    omega (
      arith,
      length-append (be_bytes ls (length n)) (n ++ nal_bytes ls ns),
      length-be_bytes ls (length n),
    ))
rpu_loop-bytes (n ∷ ns) pre ls (suc f) l h s k =
    let more : List ℕ = nal_bytes ls ns in
    let over : (pre ++ (be_bytes ls (length n) ++ n)) ++ more
        ≡ pre ++ (be_bytes ls (length n) ++ (n ++ more)) =
      append_assoc pre (be_bytes ls (length n) ++ n) more
      ∙ ap (λ t. pre ++ t) (append_assoc (be_bytes ls (length n)) n more) in
    let at : length (pre ++ (be_bytes ls (length n) ++ n)) ≡ length pre + ls + length n = omega (
      arith,
      length-append pre (be_bytes ls (length n) ++ n),
      length-append (be_bytes ls (length n)) n,
      length-be_bytes ls (length n),
    ) in
    let rest = rpu_loop-bytes ns (pre ++ (be_bytes ls (length n) ++ n)) ls f l h.1 (rw over s) (
      omega (
        arith,
        length-append (be_bytes ls (length n)) (n ++ more),
        length-append n more,
        length-be_bytes ls (length n),
      )) in
    rpu_loop-step pre n more ls h.0 f s ∙ ap (or_else (rpu_of n)) (rw (← at, ← over) rest)

-- In a frame of whole NAL units shorter than 2^64 bytes, each behind its length in as many bytes as
-- byte 21 of `hvcC` names, the first unit of type 62 is found, and none where there is none.
pub rpu_nal-bytes :
    (ns : List (List ℕ)) (hvcc : List ℕ) (c : ℕ)
    → get_elem? hvcc 21 ≡ some c
    → All (λ n. length n < 256 ^ (c % 4 + 1)) ns
    → length (nal_bytes (c % 4 + 1) ns) < 2 ^ 64
    → rpu_nal (nal_bytes (c % 4 + 1) ns) hvcc ≡ find_map rpu_of ns
unfolding rpu_nal
rpu_nal-bytes ns hvcc c e h s = rw e (
    rpu_loop-bytes ns [] (c % 4 + 1) (length (nal_bytes (c % 4 + 1) ns)) (omega arith) h s
      (omega arith))
