-- ===== src/Codec/Names/Read/Hevc.antt =====
-- That an HEVC name is read back.
use den_remux.Prelude.{ℕ, ◌+◌, ◌*◌, ◌/◌, ◌%◌, ◌^◌, ◌<◌, ◌≡◌, ◌≢◌, refl, arith}
use den_remux.Prelude.{
  List, [], ◌∷◌, ◌++◌, some, some-inj, subst, ◌==◌, if◌then◌else◌, All, All-append, Bool-cases, inl,
  inr, append-nil,
}
use den_remux.Text.{Text, codes, same}
use den_remux.Text.Decimal.{print, print-IsDigit, parse_below-print, IsDigit, IsDigit-ne}
use den_remux.Text.Split.{split, hex_upper, trim_abc}
use den_remux.Text.Split.Print.{
  IsPiece, split-append, split-piece, hex_upper-IsPiece, trim_abc-digits,
}
use den_remux.Codec.Names.{hevc_codecs, hevc_name, space, constraints, popped, reverse_bits}
use den_remux.Codec.Names.Read.{hevc_level, level_of, profile_level}

pub IsDigit-IsPiece : (s : Text) → All IsDigit s → IsPiece 46 s
IsDigit-IsPiece s d = IsDigit-ne 46 s (omega arith) d

space-IsPiece : (n : ℕ) → n < 4 → IsPiece 46 (space n)
unfolding space
space-IsPiece n h = elim (Bool-cases (n == 0)) [ inl e ↦ rw e tt | inr e ↦ rw e (omega arith, tt) ]

trim_abc-space : (n : ℕ) (s : Text) → n < 4 → All IsDigit s → trim_abc (space n ++ s) ≡ s
unfolding space trim_abc
trim_abc-space n s h d = elim (Bool-cases (n == 0)) [
  | inl e ↦ rw e (trim_abc-digits s d)
  | inr e ↦ rw e (ground (arith, trim_abc-digits s d))
]

-- The pieces of the constraint bytes.
constraint_pieces : List ℕ → List Text
constraint_pieces [] = []
constraint_pieces (c ∷ cs) = split 46 (hex_upper c ++ constraints cs)

split-constraints :
    (p : Text) (cs : List ℕ)
    → IsPiece 46 p
    → split 46 (p ++ constraints cs) ≡ p ∷ constraint_pieces cs
unfolding constraints constraint_pieces
split-constraints p [] h = rw (append-nil p) (split-piece 46 p h)
split-constraints p (c ∷ cs) h = split-append 46 p (hex_upper c ++ constraints cs) h

abbrev tier_of : ℕ → ℕ
tier_of g = if g / 32 % 2 == 1 then 72 else 76

tier_of-high : (g : ℕ) → (tier_of g == 72) ≡ (g / 32 % 2 == 1)
tier_of-high g = ground arith

level-IsPiece : (g level : ℕ) → IsPiece 46 (tier_of g ∷ print level)
level-IsPiece g level = (ground arith, IsDigit-IsPiece (print level) (print-IsDigit level))

hevc_level-printed :
    (g level : ℕ) (c : Text) (ps : List Text)
    → g < 256
    → level < 256
    → hevc_level ((space (g / 64) ++ print (g % 32)) ∷ c ∷ (tier_of g ∷ print level) ∷ ps)
      ≡ some (record { profile = g % 32; level = level; high_tier = g / 32 % 2 == 1 })
unfolding hevc_level
hevc_level-printed g level c ps hg hl =
    rw
      (
        trim_abc-space (g / 64) (print (g % 32)) (omega arith) (print-IsDigit (g % 32)),
        parse_below-print 256 (g % 32) (omega arith),
        parse_below-print (2 ^ 16) level (omega arith),
        tier_of-high g,
      )
      refl

profile_level-hevc_name :
    (g compat level : ℕ) (more : List ℕ)
    → g < 256
    → level < 256
    → profile_level (hevc_name g compat level more)
      ≡ some (record { profile = g % 32; level = level; high_tier = g / 32 % 2 == 1 })
unfolding profile_level hevc_name
profile_level-hevc_name g compat level more hg hl =
    let flags : Text = hex_upper (reverse_bits 32 0 compat) in
    let last : Text = tier_of g ∷ (print level ++ constraints (popped more)) in
    let head : Text = space (g / 64) ++ print (g % 32) in
    rw
      (
        split-append 46 (codes "hvc1") (head ++ (46 ∷ (flags ++ (46 ∷ last)))) (ground arith),
        split-append 46 head (flags ++ (46 ∷ last)) (
            All-append (λ d. d ≢ 46) (space (g / 64)) (print (g % 32))
              (space-IsPiece (g / 64) (omega arith))
              (IsDigit-IsPiece (print (g % 32)) (print-IsDigit (g % 32)))),
        split-append 46 flags last (hex_upper-IsPiece (reverse_bits 32 0 compat)),
        split-constraints (tier_of g ∷ print level) (popped more) (level-IsPiece g level),
      )
      (unfold level_of same in
        hevc_level-printed g level flags (constraint_pieces (popped more)) hg hl)

-- A name that `hevc_codecs` prints of an `hvcC` record is read back by `profile_level`: the profile
-- without its space, the level and the tier, whatever the compatibility and constraint bytes are.
pub profile_level-hevc_codecs :
    (v g a b c d m0 m1 m2 m3 m4 m5 level : ℕ) (rest : List ℕ) (s : Text)
    → g < 256
    → level < 256
    → hevc_codecs (v ∷ g ∷ a ∷ b ∷ c ∷ d ∷ m0 ∷ m1 ∷ m2 ∷ m3 ∷ m4 ∷ m5 ∷ level ∷ rest) ≡ some s
    → profile_level s
      ≡ some (record { profile = g % 32; level = level; high_tier = g / 32 % 2 == 1 })
unfolding hevc_codecs
profile_level-hevc_codecs v g a b c d m0 m1 m2 m3 m4 m5 level rest s hg hl e =
    subst
      (λ t.
        profile_level t
        ≡ some (record { profile = g % 32; level = level; high_tier = g / 32 % 2 == 1 }))
      (some-inj e)
      (profile_level-hevc_name g (((a * 256 + b) * 256 + c) * 256 + d) level
        (m0 ∷ m1 ∷ m2 ∷ m3 ∷ m4 ∷ m5 ∷ []) hg hl)
