-- ===== src/Codec/Hevc/RefSets.antt =====
-- `short_term_ref_pic_set` of src/probe/mod.rs: the POC deltas of a set of reference pictures.
use den_remux.Prelude.{
  ℕ, zero, suc, ◌+◌, Bool, true, false, List, [], ◌∷◌, ◌++◌, none, some, ltb, length, drop,
  get_elem?,
}
use den_remux.Prelude.{if◌then◌else◌}
use mathlib.Core.List.{reverse}
use den_remux.Prelude.Int.{ℤ, pos, negsuc, ◌+ℤ◌, ltb_ℤ}
use den_remux.Codec.Bits.{Bits, done, fail, ◌>>=◌, ◌>>◌, read, flag, uvlc}

-- The deltas before the picture, and those after it.
abbrev pub RefPics : Type 0
RefPics = List ℤ × List ℤ

-- `used.push(r.flag()? || r.flag()?)`
unfoldable pub used_flags : ℕ → Bits (List Bool)
used_flags zero = done []
used_flags (suc n) = do
  now ← flag
  used ← if now then done true else flag
  rest ← used_flags n
  done (used ∷ rest)

-- `-magnitude` or `magnitude`, of `v + 1`.
abbrev pub signed : Bool → ℕ → ℤ
signed true v = negsuc v
signed false v = pos (v + 1)

abbrev pub is_negative : ℤ → Bool
is_negative d = ltb_ℤ d (pos 0)

abbrev pub is_positive : ℤ → Bool
is_positive d = ltb_ℤ (pos 0) d

-- The deltas with their flags.
unfoldable pub flagged : List ℤ → List Bool → List (ℤ × Bool)
flagged [] used = []
flagged (d ∷ ds) [] = []
flagged (d ∷ ds) (u ∷ us) = (d, u) ∷ flagged ds us

-- `filter(|&(i, d)| test(d + delta) && at(i)).map(|(_, d)| d + delta)`
unfoldable pub moved : (ℤ → Bool) → ℤ → List (ℤ × Bool) → List ℤ
moved test delta [] = []
moved test delta ((d, used) ∷ ds) =
    let rest = moved test delta ds in
    if test (d +ℤ delta) then (if used then (d +ℤ delta) ∷ rest else rest) else rest

abbrev pub itself : (ℤ → Bool) → ℤ → Bool → List ℤ
itself test delta own = if test delta then (if own then delta ∷ [] else []) else []

unfoldable pub predicted : RefPics → ℤ → List Bool → Bool → RefPics
predicted (s0, s1) delta used own =
    let at0 = flagged s0 used in
    let at1 = flagged s1 (drop (length s0) used) in
    (
      moved is_negative delta (reverse at1)
          ++ itself is_negative delta own
          ++ moved is_negative delta at0,
      moved is_positive delta (reverse at0)
          ++ itself is_positive delta own
          ++ moved is_positive delta at1,
    )

-- The flag of the reference picture itself, the last.
abbrev pub own_flag : List Bool → ℕ → Bool
own_flag used n = elim (get_elem? used n) [ none ↦ false | some u ↦ u ]

unfoldable pub predicted_set : RefPics → Bits RefPics
predicted_set (s0, s1) = do
  negative ← flag
  v ← uvlc
  used ← used_flags (length s0 + length s1 + 1)
  done (predicted (s0, s1) (signed negative v) used (own_flag used (length s0 + length s1)))

-- `deltas(n, sign)`, from `poc` on.
unfoldable pub deltas : ℕ → Bool → ℤ → Bits (List ℤ)
deltas zero negative poc = done []
deltas (suc n) negative poc = do
  v ← uvlc
  read 1
  rest ← deltas n negative (poc +ℤ signed negative v)
  done ((poc +ℤ signed negative v) ∷ rest)

unfoldable pub explicit_set : Bits RefPics
explicit_set = uvlc >>= λ negatives. uvlc >>= λ positives.
    if ltb 16 negatives
    then fail
    else if ltb 16 positives
    then fail
    else do s0 ← deltas negatives true (pos 0); s1 ← deltas positives false (pos 0); done (s0, s1)

-- The set behind `sets`, whose number is the index: the first is explicit.
unfoldable pub short_term_ref_pic_set : List RefPics → Bits RefPics
short_term_ref_pic_set [] = explicit_set
short_term_ref_pic_set (set ∷ sets) = flag >>= λ inter. elim inter [
  | false ↦ explicit_set
  | true ↦ elim (get_elem? (set ∷ sets) (length sets)) [
    | none ↦ fail
    | some last ↦ predicted_set last
  ]
]
