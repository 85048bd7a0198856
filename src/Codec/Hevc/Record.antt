-- ===== src/Codec/Hevc/Record.antt =====
-- What is found in a written `hvcC` record, and that `unescape` undoes an encoder's escapes.
use den_remux.Prelude.{ℕ, ◌+◌, ◌/◌, ◌%◌, ◌^◌, ◌<◌, ◌≡◌, refl, ap, arith, true, false, not, ◌&&◌}
use den_remux.Prelude.{List, [], ◌∷◌, ◌++◌, Option, none, some, ltb, leb, ◌==◌, length, All}
use den_remux.Prelude.{if◌then◌else◌, Bool-cases, inl, inr}
use den_remux.Codec.Hevc.{unescape_from, unescape, Walk, returned, ended_at, sps_of_nal}
use den_remux.Codec.Colour.{Colour}

-- `emulation_prevention_three_byte` (H.265 7.3.1.1): a 3 before a byte up to 3 that follows two zeros.
unfoldable pub escape_from : ℕ → List ℕ → List ℕ
escape_from n [] = []
escape_from n (b ∷ bs) = elim (not (ltb n 2) && leb b 3) [
  | true ↦ 3 ∷ b ∷ escape_from (if b == 0 then 1 else 0) bs
  | false ↦ b ∷ escape_from (if b == 0 then n + 1 else 0) bs
]

unfoldable pub escape : List ℕ → List ℕ
escape = escape_from 0

module _ (n b : ℕ) (bs : List ℕ) where
  escapes :
      (not (ltb n 2) && leb b 3) ≡ true
      → escape_from n (b ∷ bs) ≡ 3 ∷ b ∷ escape_from (if b == 0 then 1 else 0) bs
  unfolding escape_from
  escapes e = rw (e, escape_from) refl

  plain :
      (not (ltb n 2) && leb b 3) ≡ false
      → escape_from n (b ∷ bs) ≡ b ∷ escape_from (if b == 0 then n + 1 else 0) bs
  unfolding escape_from
  plain e = rw (e, escape_from) refl

  drops : (not (ltb n 2) && (b == 3)) ≡ true → unescape_from n (b ∷ bs) ≡ unescape_from 0 bs
  unfolding unescape_from
  drops e = rw (e, unescape_from) refl

  keeps :
      (not (ltb n 2) && (b == 3)) ≡ false
      → unescape_from n (b ∷ bs) ≡ b ∷ unescape_from (if b == 0 then n + 1 else 0) bs
  unfolding unescape_from
  keeps e = rw (e, unescape_from) refl

unescape_from-escape : (n : ℕ) (bs : List ℕ) → unescape_from n (escape_from n bs) ≡ bs
unescape_from-escape n [] = unfold unescape_from escape_from in refl
unescape_from-escape n (b ∷ bs) =
    let rest : (m : ℕ) → unescape_from m (escape_from m bs) ≡ bs = λ m. unescape_from-escape m bs in
    elim (Bool-cases (not (ltb n 2) && leb b 3)) [
      | inl e ↦
          rw
            (
              escapes n b bs e,
              drops n 3 (b ∷ escape_from (if b == 0 then 1 else 0) bs) (ground arith),
              keeps 0 b (escape_from (if b == 0 then 1 else 0) bs) (ground arith),
            )
            (ap (λ t. b ∷ t) (rest (if b == 0 then 1 else 0)))
      | inr e ↦
          rw
            (
              plain n b bs e,
              keeps n b (escape_from (if b == 0 then n + 1 else 0) bs) (ground arith),
            )
            (ap (λ t. b ∷ t) (rest (if b == 0 then n + 1 else 0)))
    ]

-- A NAL unit that an encoder escaped, a 3 put before each byte up to 3 behind two zeros, is
-- unescaped to its bytes.
pub unescape-escape : (bs : List ℕ) → unescape (escape bs) ≡ bs
unfolding unescape escape
unescape-escape bs = unescape_from-escape 0 bs

-- An array of parameter sets: its first byte, whose low six bits are the kind, and its NAL units.
pub record ParameterSets : Type 0 where
  pub head : ℕ
  pub nals : List (List ℕ)

abbrev pub IsParameterSets : ParameterSets → Type 0
IsParameterSets a = (length a.nals < 2 ^ 16) × All (λ n. length n < 2 ^ 16) a.nals

abbrev two_bytes : ℕ → List ℕ
two_bytes v = v / 256 % 256 ∷ v % 256 ∷ []

unfoldable pub nals_bytes : List (List ℕ) → List ℕ
nals_bytes [] = []
nals_bytes (n ∷ ns) = two_bytes (length n) ++ (n ++ nals_bytes ns)

unfoldable pub arrays_bytes : List ParameterSets → List ℕ
arrays_bytes [] = []
arrays_bytes (a ∷ xs) =
    a.head ∷ (two_bytes (length a.nals) ++ (nals_bytes a.nals ++ arrays_bytes xs))

-- The first SPS, in the order of the arrays.
unfoldable pub first_sps : List ParameterSets → Option (List ℕ)
first_sps [] = none
first_sps (a ∷ xs) =
    let rest = first_sps xs in
    if a.head % 64 == 33 then (elim a.nals [ [] ↦ rest | n ∷ ns ↦ some n ]) else rest

abbrev walked : ℕ → ℕ → List (List ℕ) → Walk
walked kind at [] = ended_at at
walked kind at (n ∷ ns) =
    if kind == 33 then returned (sps_of_nal n) else ended_at (at + length (nals_bytes (n ∷ ns)))

-- One array, behind its count: an SPS returns, and else the walk goes on at its end.
abbrev array_outcome : ParameterSets → Option Colour → Option Colour
array_outcome a rest =
    if a.head % 64 == 33 then (elim a.nals [ [] ↦ rest | n ∷ ns ↦ sps_of_nal n ]) else rest
