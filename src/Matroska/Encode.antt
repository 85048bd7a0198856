-- ===== src/Matroska/Encode.antt =====
-- How EBML writes an element (RFC 8794), and that `header` reads it back, in every width of the size.
use den_remux.Prelude.{ℕ, zero, suc, ◌+◌, ◌-◌, ◌*◌, ◌/◌, ◌%◌, ◌^◌, ◌≤◌, ◌<◌, ◌≡◌, refl, arith}
use den_remux.Prelude.{List, [], ◌∷◌, ◌++◌, some, ◌==◌, length, ap, ◌∙◌}
use den_remux.Prelude.{Bool, true, false, ◌&&◌, sym}
use den_remux.Prelude.{append_assoc, ==_iff, Bool-cases, inl, inr}
use native.Mathlib.Nat.{pow-suc, mod-lt, div-add-mod}
use den_remux.Bytes.{be, be_bytes, leading_zeros, length-be_bytes, be-be_bytes, leading_zeros-eq}
use den_remux.Matroska.Element.{header, size_value, value_bits, all_ff}
use den_remux.Matroska.Parts.{and_parts, pow_pos, header_parts}

-- A size in `k + 1` bytes: the marker bit and the highest value bits, then `k` bytes.
unfoldable pub size_bytes : ℕ → ℕ → List ℕ
size_bytes k v = (2 ^ (7 - k) + v / 256 ^ k) ∷ be_bytes k (v % 256 ^ k)

-- An id of `k + 1` bytes, its marker bit counted in, as the specification writes ids.
abbrev pub IsId : ℕ → ℕ → Type 0
IsId k id = (k ≤ 3) × (2 ^ (7 * (k + 1)) ≤ id) × (id < 2 * 2 ^ (7 * (k + 1)))

abbrev pub FitsSize : ℕ → ℕ → Type 0
FitsSize k v = (k ≤ 7) × (v < 2 ^ (7 * (k + 1)))

-- The first byte of a size has the marker where its width says, and the value's top below it.
pub first_of_size :
    (k v : ℕ)
    → FitsSize k v
    → (leading_zeros (2 ^ (7 - k) + v / 256 ^ k) ≡ k)
      × (value_bits (2 ^ (7 - k) + v / 256 ^ k) (k + 1) ≡ v / 256 ^ k)
unfolding value_bits
first_of_size zero v h =
    (leading_zeros-eq _ 0 (omega arith) (omega arith) (omega arith), omega arith)
first_of_size (suc zero) v h =
    (leading_zeros-eq _ 1 (omega arith) (omega arith) (omega arith), omega arith)
first_of_size (suc (suc zero)) v h =
    (leading_zeros-eq _ 2 (omega arith) (omega arith) (omega arith), omega arith)
first_of_size (suc (suc (suc zero))) v h =
    (leading_zeros-eq _ 3 (omega arith) (omega arith) (omega arith), omega arith)
first_of_size (suc (suc (suc (suc zero)))) v h =
    (leading_zeros-eq _ 4 (omega arith) (omega arith) (omega arith), omega arith)
first_of_size (suc (suc (suc (suc (suc zero))))) v h =
    (leading_zeros-eq _ 5 (omega arith) (omega arith) (omega arith), omega arith)
first_of_size (suc (suc (suc (suc (suc (suc zero)))))) v h =
    (leading_zeros-eq _ 6 (omega arith) (omega arith) (omega arith), omega arith)
first_of_size (suc (suc (suc (suc (suc (suc (suc zero))))))) v h =
    (leading_zeros-eq _ 7 (omega arith) (omega arith) (omega arith), omega arith)
first_of_size (suc (suc (suc (suc (suc (suc (suc (suc k)))))))) v h = absurd (omega arith)

all_ff-be : (xs : List ℕ) (acc : ℕ) → all_ff xs ≡ true → be acc xs + 1 ≡ (acc + 1) * 256 ^ length xs
unfolding all_ff be
all_ff-be [] acc h = omega arith
all_ff-be (x ∷ xs) acc h =
    let (is_ff, rest) = and_parts (x == 0xFF) (all_ff xs) h in
    let last : x ≡ 255 = (==_iff x 0xFF).0 is_ff in
    omega (
      arith,
      all_ff-be xs (acc * 256 + x) rest,
      ap (λ (t : ℕ). (acc + 1) * t) (pow-suc 256 (length xs)),
      ap (λ (t : ℕ). t * 256 ^ length xs) last,
    )

-- The value bits all ones, over all the bytes, is one value: the one that marks an unknown size.
abbrev marked_unknown : ℕ → ℕ → Bool
marked_unknown k v = ((v / 256 ^ k) == (2 ^ (8 - (k + 1)) - 1)) && all_ff (be_bytes k (v % 256 ^ k))

pub low_bytes : (k v : ℕ) → be 0 (be_bytes k (v % 256 ^ k)) ≡ v % 256 ^ k
low_bytes k v = be-be_bytes k 0 (v % 256 ^ k) (mod-lt v (pow_pos k)) ∙ omega arith

pow_split : (k : ℕ) → k ≤ 7 → 2 ^ (7 - k) * 256 ^ k ≡ 2 ^ (7 * (k + 1))
pow_split zero h = refl
pow_split (suc zero) h = refl
pow_split (suc (suc zero)) h = refl
pow_split (suc (suc (suc zero))) h = refl
pow_split (suc (suc (suc (suc zero)))) h = refl
pow_split (suc (suc (suc (suc (suc zero))))) h = refl
pow_split (suc (suc (suc (suc (suc (suc zero)))))) h = refl
pow_split (suc (suc (suc (suc (suc (suc (suc zero))))))) h = refl
pow_split (suc (suc (suc (suc (suc (suc (suc (suc k)))))))) h = absurd (omega arith)

pow_two_pos : (n : ℕ) → 0 < 2 ^ n
pow_two_pos zero = omega arith
pow_two_pos (suc n) = omega (arith, pow_two_pos n, pow-suc 2 n)

unknown_value : (k v : ℕ) → k ≤ 7 → marked_unknown k v ≡ true → v + 1 ≡ 2 ^ (7 * (k + 1))
unknown_value k v h e =
    let (top, low) =
      and_parts ((v / 256 ^ k) == (2 ^ (8 - (k + 1)) - 1)) (all_ff (be_bytes k (v % 256 ^ k))) e in
    let q : v / 256 ^ k ≡ 2 ^ (8 - (k + 1)) - 1 =
      (==_iff (v / 256 ^ k) (2 ^ (8 - (k + 1)) - 1)).0 top in
    let w : 2 ^ (8 - (k + 1)) ≡ 2 ^ (7 - k) =
      ap (λ (n : ℕ). 2 ^ n) {x = 8 - (k + 1)} (omega arith) in
    let q1 : v / 256 ^ k + 1 ≡ 2 ^ (7 - k) = omega (arith, pow_two_pos (7 - k)) in
    let ones : be 0 (be_bytes k (v % 256 ^ k)) + 1 ≡ (0 + 1) * 256 ^ k =
      all_ff-be (be_bytes k (v % 256 ^ k)) 0 low
      ∙ ap (λ n. (0 + 1) * 256 ^ n) (length-be_bytes k (v % 256 ^ k)) in
    omega (
      arith,
      ones,
      low_bytes k v,
      pow_split k h,
      div-add-mod v (256 ^ k),
      ap (λ (t : ℕ). t * 256 ^ k) q1,
    )

not_unknown : (k v : ℕ) → FitsSize k v → v + 1 < 2 ^ (7 * (k + 1)) → marked_unknown k v ≡ false
not_unknown k v h l = elim (Bool-cases (marked_unknown k v)) [
  | inr e ↦ e
  | inl e ↦ absurd (omega (arith, unknown_value k v h.0 e))
]

size_value-encode :
    (k v : ℕ)
    → FitsSize k v
    → v + 1 < 2 ^ (7 * (k + 1))
    → size_value (2 ^ (7 - k) + v / 256 ^ k) (k + 1) (be_bytes k (v % 256 ^ k)) ≡ some v
unfolding size_value
size_value-encode k v h l = rw (first_of_size k v h).1 (
    rw (not_unknown k v h l) (
      ap some (
        be-be_bytes k (v / 256 ^ k) (v % 256 ^ k) (mod-lt v (pow_pos k))
        ∙ omega (arith, div-add-mod v (256 ^ k)))))

id_parts :
    (k id : ℕ)
    → IsId k id
    → (i : ℕ) × (ids : List ℕ) × (be_bytes (suc k) id ≡ i ∷ ids)
      × (leading_zeros i ≡ k)
      × (length ids ≡ k)
      × (be 0 (i ∷ ids) ≡ id)
unfolding be_bytes be
id_parts zero id h = (
  id % 256,
  [],
  refl,
  leading_zeros-eq _ 0 (omega arith) (omega arith) (omega arith),
  refl,
  omega arith,
)
id_parts (suc zero) id h = (
  id / 256 % 256,
  (id % 256) ∷ [],
  refl,
  leading_zeros-eq _ 1 (omega arith) (omega arith) (omega arith),
  refl,
  omega arith,
)
id_parts (suc (suc zero)) id h = (
  id / 256 / 256 % 256,
  (id / 256 % 256) ∷ (id % 256) ∷ [],
  refl,
  leading_zeros-eq _ 2 (omega arith) (omega arith) (omega arith),
  refl,
  omega arith,
)
id_parts (suc (suc (suc zero))) id h = (
  id / 256 / 256 / 256 % 256,
  (id / 256 / 256 % 256) ∷ (id / 256 % 256) ∷ (id % 256) ∷ [],
  refl,
  leading_zeros-eq _ 3 (omega arith) (omega arith) (omega arith),
  refl,
  omega arith,
)
id_parts (suc (suc (suc (suc k)))) id h = absurd (omega arith)

-- A header, as a muxer writes it: the id, and the size in any width that it fits.
abbrev pub header_bytes : ℕ → ℕ → ℕ → ℕ → List ℕ
header_bytes i id k v = be_bytes (suc i) id ++ size_bytes k v

header_split :
    (k v : ℕ) (ids rest : List ℕ)
    → (ids ++ size_bytes k v) ++ rest
      ≡ ids ++ ((2 ^ (7 - k) + v / 256 ^ k) ∷ (be_bytes k (v % 256 ^ k) ++ rest))
unfolding size_bytes
header_split k v ids rest = append_assoc ids _ rest

header-bytes_any :
    (i id k v : ℕ) (rest : List ℕ)
    → IsId i id
    → FitsSize k v
    → header (header_bytes i id k v ++ rest)
      ≡ some
          (id, size_value (2 ^ (7 - k) + v / 256 ^ k) (k + 1) (be_bytes k (v % 256 ^ k)), i + k + 2)
header-bytes_any i id k v rest hid hk =
    let (x, ids, e, z, n, back) = id_parts i id hid in
    let len : length (be_bytes k (v % 256 ^ k)) ≡ k = length-be_bytes k (v % 256 ^ k) in
    rw (header_split k v (be_bytes (suc i) id) rest, e)
      (header_parts x (2 ^ (7 - k) + v / 256 ^ k) ids (be_bytes k (v % 256 ^ k)) rest (z ∙ sym n)
          (omega arith) ((first_of_size k v hk).0 ∙ sym len) (omega arith)
        ∙ rw (back, len, n)
            (ap
              (λ m.
                some (
                  id,
                  size_value (2 ^ (7 - k) + v / 256 ^ k) (k + 1) (be_bytes k (v % 256 ^ k)),
                  m,
                ))
              {x = suc i + (k + 1)} {y = i + k + 2} (omega arith)))

-- An element header is read back, its id, its size and its own length, whatever bytes stand behind
-- it: for an id of one to four bytes with its marker bit in place, and a size of one to eight bytes
-- that holds the value and is not the one with all value bits set.
pub header-header_bytes :
    (i id k v : ℕ) (rest : List ℕ)
    → IsId i id
    → FitsSize k v
    → v + 1 < 2 ^ (7 * (k + 1))
    → header (header_bytes i id k v ++ rest) ≡ some (id, some v, i + k + 2)
header-header_bytes i id k v rest hid hk hv =
    header-bytes_any i id k v rest hid hk
    ∙ ap (λ s. some (id, s, i + k + 2)) (size_value-encode k v hk hv)
