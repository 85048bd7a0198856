-- ===== src/Codec/Names/Read/RoundTrip.antt =====
-- That a printed codec string names the profile, the level and the tier of the record it was printed from.
use den_remux.Prelude.{ℕ, ◌<◌, ◌≡◌, ◌≢◌, refl, arith, Bool, true, false}
use den_remux.Prelude.{
  List, [], ◌∷◌, ◌++◌, none, some, some-inj, subst, ◌==◌, if◌then◌else◌, All-append,
}
use den_remux.Text.{Text, codes, same}
use den_remux.Text.Split.{split, hex_two}
use den_remux.Text.Split.Print.{split-append, split-piece, parse_hex-hex_two, hex_two-IsPiece}
use den_remux.Codec.Names.{avc_codecs}
use den_remux.Codec.Names.Read.{slice_of, hex_byte, avc_level, level_of, profile_level}

abbrev hex_three : ℕ → ℕ → ℕ → Text
hex_three p c l = hex_two p ++ (hex_two c ++ hex_two l)

avc_pieces : (p c l : ℕ) → split 46 (hex_three p c l) ≡ hex_three p c l ∷ []
avc_pieces p c l = split-piece 46 (hex_three p c l) (
    All-append (λ d. d ≢ 46) (hex_two p) (hex_two c ++ hex_two l) (hex_two-IsPiece p)
      (All-append (λ d. d ≢ 46) (hex_two c) (hex_two l) (hex_two-IsPiece c) (hex_two-IsPiece l)))

avc_level-hex_three :
    (p c l : ℕ)
    → p < 256
    → l < 256
    → avc_level (hex_three p c l ∷ []) ≡ some (record { profile = p; level = l; high_tier = false })
unfolding avc_level hex_byte slice_of
avc_level-hex_three p c l hp hl = rw (parse_hex-hex_two p hp, parse_hex-hex_two l hl) refl

level_of-avc :
    (p c l : ℕ)
    → p < 256
    → l < 256
    → profile_level (codes "avc1." ++ hex_three p c l)
      ≡ some (record { profile = p; level = l; high_tier = false })
unfolding profile_level
level_of-avc p c l hp hl =
    rw (split-append 46 (codes "avc1") (hex_three p c l) (ground arith), avc_pieces p c l)
      (unfold level_of same in avc_level-hex_three p c l hp hl)

-- What is printed under a test.
pub if-eq-some {ℓ} :
    {A : Type ℓ} (t : Bool) (a b : A) → (if t then some a else none) ≡ some b → a ≡ b
if-eq-some true a b h = some-inj h
if-eq-some false a b h = cc

pub profile_level-avc_codecs :
    (v p c l : ℕ) (rest : List ℕ) (s : Text)
    → p < 256
    → l < 256
    → avc_codecs (v ∷ p ∷ c ∷ l ∷ rest) ≡ some s
    → profile_level s ≡ some (record { profile = p; level = l; high_tier = false })
unfolding avc_codecs
profile_level-avc_codecs v p c l rest s hp hl e =
    subst (λ t. profile_level t ≡ some (record { profile = p; level = l; high_tier = false }))
      (if-eq-some (v == 1) (codes "avc1." ++ hex_three p c l) s e) (level_of-avc p c l hp hl)
