-- ===== src/Matroska/Parts.antt =====
-- The bytes of an element header, each where its leading zeros say.
use den_remux.Prelude.{get_elem?-append, ℕ, zero, suc, ◌+◌, ◌-◌, ◌^◌, ◌≤◌, ◌<◌, ◌≡◌, refl, arith}
use den_remux.Prelude.{List, [], ◌∷◌, ◌++◌, some, length, drop, ap, ◌∙◌}
use den_remux.Prelude.{Bool, true, ◌&&◌, length-append}
use den_remux.Prelude.{take-append}
use native.Mathlib.Nat.{pow-suc}
use den_remux.Bytes.{be, leading_zeros}
use den_remux.Matroska.Element.{header, header_id, header_size, size_value}

pub and_parts : (a b : Bool) → (a && b) ≡ true → (a ≡ true) × (b ≡ true)
and_parts a b h = ground arith

pub pow_pos : (k : ℕ) → 0 < 256 ^ k
pow_pos zero = omega arith
pow_pos (suc k) = omega (arith, pow_pos k, pow-suc 256 k)

pub drop_past {ℓ} :
    {A : Type ℓ} (xs ys : List A) (y : A) → drop (length xs + 1) (xs ++ (y ∷ ys)) ≡ ys
drop_past [] ys y = refl
drop_past (x ∷ xs) ys y =
    ap (λ k. drop k (x ∷ (xs ++ (y ∷ ys)))) {x = suc (length xs) + 1} {y = suc (length xs + 1)}
      (omega arith)
    ∙ drop_past xs ys y

add-one-sub-one : (n : ℕ) → n + 1 - 1 ≡ n
add-one-sub-one n = omega arith

pub add_one : (n : ℕ) → n + 1 ≡ suc n
add_one n = omega arith

-- The parts of a header, each where its leading zeros say.
module _ (ids tail rest : List ℕ) (s : ℕ) where
  abbrev bytes : List ℕ
  bytes = ids ++ (s ∷ (tail ++ rest))

  length-bytes : length bytes ≡ length ids + 1 + length tail + length rest
  length-bytes = omega (arith, length-append ids (s ∷ (tail ++ rest)), length-append tail rest)

  header_size-parts :
      length tail ≤ 7
      → header_size bytes (length ids) s (length tail + 1)
        ≡ some (be 0 ids, size_value s (length tail + 1) tail, length ids + (length tail + 1))
  unfolding header_size
  header_size-parts h =
      rw
        (
          take-append ids (s ∷ (tail ++ rest)),
          drop_past ids (tail ++ rest) s,
          add-one-sub-one (length tail),
          take-append tail rest,
        )
        (ground (arith, length-bytes))

  header_id-parts :
      length ids ≤ 4
      → leading_zeros s ≡ length tail
      → length tail ≤ 7
      → header_id bytes (length ids)
        ≡ some (be 0 ids, size_value s (length tail + 1) tail, length ids + (length tail + 1))
  unfolding header_id
  header_id-parts h hs ht =
      rw (get_elem?-append ids (tail ++ rest) s, hs, header_size-parts ht)
        (ground (arith, length-bytes))

pub header_parts :
    (i s : ℕ) (ids tail rest : List ℕ)
    → leading_zeros i ≡ length ids
    → length ids ≤ 3
    → leading_zeros s ≡ length tail
    → length tail ≤ 7
    → header ((i ∷ ids) ++ (s ∷ (tail ++ rest)))
      ≡ some (
        be 0 (i ∷ ids),
        size_value s (length tail + 1) tail,
        length (i ∷ ids) + (length tail + 1),
      )
unfolding header
header_parts i s ids tail rest hi ni hs ns =
    rw (hi, add_one (length ids)) (header_id-parts (i ∷ ids) tail rest s (omega arith) hs ns)
