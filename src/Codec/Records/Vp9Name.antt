-- ===== src/Codec/Records/Vp9Name.antt =====
-- That a VP9 name is read back.
use den_remux.Prelude.{
  ℕ, ◌^◌, ◌<◌, ◌≡◌, refl, arith, false, not, ◌||◌, ◌==◌, List, [], ◌∷◌, ◌++◌, some, append-nil,
  Bool-cases, inl, inr, get_elem?,
}
use den_remux.Text.{Text, codes, same}
use den_remux.Text.Split.{split, print_two}
use den_remux.Text.Split.Print.{
  IsPiece, split-append, split-piece, print_two-IsDigit, parse_below-print_two,
}
use den_remux.Codec.Colour.{Colour, says}
use den_remux.Codec.Records.{vp9_name, vp9_colours}
use den_remux.Codec.Names.Read.{vp9_level_of, level_of, profile_level}
use den_remux.Codec.Names.Read.Hevc.{IsDigit-IsPiece}

two-IsPiece : (n : ℕ) → IsPiece 46 (print_two n)
two-IsPiece n = IsDigit-IsPiece (print_two n) (print_two-IsDigit n)

-- The depth is the first of the pieces behind the level.
split-depth :
    (depth chroma : ℕ) (c : Colour)
    → (ps : List Text) × (split 46 (print_two depth ++ vp9_colours chroma c) ≡ print_two depth ∷ ps)
split-depth depth chroma c = elim (Bool-cases (says c || not (chroma == 1))) [
  | inr e ↦
      rw (e, append-nil (print_two depth))
        ([], split-piece 46 (print_two depth) (two-IsPiece depth))
  | inl e ↦ rw e (_, split-append 46 (print_two depth) _ (two-IsPiece depth))
]

pub vp9_name-read :
    (profile level depth chroma : ℕ) (c : Colour)
    → profile < 256
    → level < 2 ^ 16
    → (profile_level (vp9_name profile level depth chroma c)
        ≡ some (record { profile = profile; level = level; high_tier = false }))
      × (get_elem? (split 46 (vp9_name profile level depth chroma c)) 3 ≡ some (print_two depth))
unfolding profile_level vp9_name
vp9_name-read profile level depth chroma c hp hl =
    let (ps, e) = split-depth depth chroma c in
    rw
      (
        split-append 46 (codes "vp09")
            (print_two profile
              ++ (46 ∷ (print_two level ++ (46 ∷ (print_two depth ++ vp9_colours chroma c)))))
            (ground arith),
        split-append 46 (print_two profile)
            (print_two level ++ (46 ∷ (print_two depth ++ vp9_colours chroma c)))
            (two-IsPiece profile),
        split-append 46 (print_two level) (print_two depth ++ vp9_colours chroma c)
            (two-IsPiece level),
        e,
      )
      (unfold level_of same vp9_level_of in
        (
          rw (parse_below-print_two 256 profile hp, parse_below-print_two (2 ^ 16) level hl) refl,
          refl,
        ))
