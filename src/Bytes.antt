-- ===== src/Bytes.antt =====
-- Bytes, as the parsers read them: big-endian numbers, leading zeros, checked arithmetic.
use den_remux.Prelude.{ℕ, zero, suc, ◌+◌, ◌*◌, ◌/◌, ◌%◌, ◌^◌, ◌≤◌, ◌<◌, ◌≡◌, refl, arith, All}
use den_remux.Prelude.{List, [], ◌∷◌, ◌++◌, Option, none, some, ltb, leb, length, length-append}
use den_remux.Prelude.{if◌then◌else◌, All-append, ◌∙◌, ap, ◌-◌}
use native.Mathlib.Nat.{pow-suc}

abbrev pub IsByte : ℕ → Type 0
IsByte b = b < 256

-- `iter().fold(acc, |acc, &c| acc << 8 | c)`: the low eight bits of a shifted number are free, so `|`
-- is `+`. It is only used where the bytes fit the number's type, so that no bit is shifted out.
unfoldable pub be : ℕ → List ℕ → ℕ
be acc [] = acc
be acc (c ∷ cs) = be (acc * 256 + c) cs

-- `to_be_bytes` in `k` bytes.
unfoldable pub be_bytes : ℕ → ℕ → List ℕ
be_bytes zero v = []
be_bytes (suc k) v = be_bytes k (v / 256) ++ ((v % 256) ∷ [])

-- `u8::leading_zeros`
unfoldable pub leading_zeros : ℕ → ℕ
leading_zeros b =
    if leb 128 b
    then 0
    else if leb 64 b
    then 1
    else if leb 32 b
    then 2
    else if leb 16 b
    then 3
    else if leb 8 b
    then 4
    else if leb 4 b
    then 5
    else if leb 2 b
    then 6
    else if leb 1 b
    then 7
    else 8

-- `checked_add` and `checked_mul` of a 64-bit unsigned integer (`u64`, and `usize` of a 64-bit target).
unfoldable pub checked_add : ℕ → ℕ → Option ℕ
checked_add a b = if ltb (a + b) (2 ^ 64) then some (a + b) else none

unfoldable pub checked_mul : ℕ → ℕ → Option ℕ
checked_mul a b = if ltb (a * b) (2 ^ 64) then some (a * b) else none

pub length-be_bytes : (k v : ℕ) → length (be_bytes k v) ≡ k
unfolding be_bytes
length-be_bytes zero v = refl
length-be_bytes (suc k) v =
    omega
      (arith, length-append (be_bytes k (v / 256)) ((v % 256) ∷ []), length-be_bytes k (v / 256))

pub be_bytes-IsByte : (k v : ℕ) → All IsByte (be_bytes k v)
unfolding be_bytes
be_bytes-IsByte zero v = tt
be_bytes-IsByte (suc k) v =
    All-append IsByte (be_bytes k (v / 256)) ((v % 256) ∷ []) (be_bytes-IsByte k (v / 256))
      (omega arith)

be-append : (acc : ℕ) (xs : List ℕ) (c : ℕ) → be acc (xs ++ (c ∷ [])) ≡ be acc xs * 256 + c
unfolding be
be-append acc [] c = refl
be-append acc (x ∷ xs) c = be-append (acc * 256 + x) xs c

-- A number that fits `k` bytes is read back.
pub be-be_bytes : (k acc v : ℕ) → v < 256 ^ k → be acc (be_bytes k v) ≡ acc * 256 ^ k + v
unfolding be_bytes be
be-be_bytes zero acc v h = omega arith
be-be_bytes (suc k) acc v h =
    be-append acc (be_bytes k (v / 256)) (v % 256)
    ∙ omega
        (arith, be-be_bytes k acc (v / 256) (omega arith), ap (λ (t : ℕ). acc * t) (pow-suc 256 k))

-- A byte with its top bit at place `7 - z` has `z` leading zeros.
pub leading_zeros-eq :
    (b z : ℕ) → z < 8 → 2 ^ (7 - z) ≤ b → b < 2 * 2 ^ (7 - z) → leading_zeros b ≡ z
unfolding leading_zeros
leading_zeros-eq b zero h l u = ground arith
leading_zeros-eq b (suc zero) h l u = ground arith
leading_zeros-eq b (suc (suc zero)) h l u = ground arith
leading_zeros-eq b (suc (suc (suc zero))) h l u = ground arith
leading_zeros-eq b (suc (suc (suc (suc zero)))) h l u = ground arith
leading_zeros-eq b (suc (suc (suc (suc (suc zero))))) h l u = ground arith
leading_zeros-eq b (suc (suc (suc (suc (suc (suc zero)))))) h l u = ground arith
leading_zeros-eq b (suc (suc (suc (suc (suc (suc (suc zero))))))) h l u = ground arith
leading_zeros-eq b (suc (suc (suc (suc (suc (suc (suc (suc z)))))))) h l u = absurd (omega arith)

-- The other way round: where the top bit stands, for a byte that is not zero.
pub leading_zeros_bounds :
    (b : ℕ)
    → b < 256
    → 0 < b
    → (leading_zeros b < 8) × (2 ^ (7 - leading_zeros b) ≤ b) × (b < 2 * 2 ^ (7 - leading_zeros b))
unfolding leading_zeros
leading_zeros_bounds b h k = ground arith
