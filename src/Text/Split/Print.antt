-- ===== src/Text/Split/Print.antt =====
-- What `split` makes of a text that is put together with separators, and how its numbers read back.
use den_remux.Prelude.{ℕ, zero, suc, ◌+◌, ◌/◌, ◌%◌, ◌<◌, ◌≡◌, ◌≢◌, refl, arith}
use den_remux.Prelude.{[], ◌∷◌, ◌++◌, some, ltb, All, All-append, Bool-cases, inl, inr}
use den_remux.Text.{Text, parse_below, parse_digits}
use den_remux.Text.Decimal.{print, print_fuel, print-IsDigit, IsDigit, parse_below-print}
use den_remux.Text.Split.{
  split, print_two, hex_digit, hex_digit_upper, hex_two, hex_fuel, hex_upper, hex_value, parse_hex,
  parse_hex_digits, trim_abc,
}

abbrev pub IsPiece : ℕ → Text → Type 0
IsPiece c s = All (λ d. d ≢ c) s

pub split-append : (c : ℕ) (p t : Text) → IsPiece c p → split c (p ++ (c ∷ t)) ≡ p ∷ split c t
unfolding split
split-append c [] t h = ground arith
split-append c (d ∷ p) t h = ground (arith, split-append c p t h.1)

pub split-piece : (c : ℕ) (p : Text) → IsPiece c p → split c p ≡ p ∷ []
unfolding split
split-piece c [] h = refl
split-piece c (d ∷ p) h = ground (arith, split-piece c p h.1)

pub print_two-IsDigit : (n : ℕ) → All IsDigit (print_two n)
unfolding print_two
print_two-IsDigit n = elim (Bool-cases (ltb n 10)) [
  | inl e ↦ rw e (ground arith)
  | inr e ↦ rw e (print-IsDigit n)
]

pub parse_below-print_two : (bound n : ℕ) → n < bound → parse_below bound (print_two n) ≡ some n
unfolding print_two parse_below parse_digits
parse_below-print_two bound n h = elim (Bool-cases (ltb n 10)) [
  | inl e ↦ rw e (ground arith)
  | inr e ↦ rw e (parse_below-print bound n h)
]

print_fuel-digit : (f d : ℕ) → d < 10 → print_fuel f d ≡ (d + 48) ∷ []
unfolding print_fuel
print_fuel-digit zero d h = refl
print_fuel-digit (suc f) d h = ground arith

two : {a b c d : ℕ} → a ≡ c → b ≡ d → ◌≡◌ {A = Text} (a ∷ b ∷ []) (c ∷ d ∷ [])
two h k = cc

-- Below a hundred, two digits exactly.
pub print_two-digits : (n : ℕ) → n < 100 → print_two n ≡ (n / 10 + 48) ∷ (n % 10 + 48) ∷ []
unfolding print_two print print_fuel
print_two-digits zero h = refl
print_two-digits (suc n) h = elim (Bool-cases (ltb (suc n) 10)) [
  | inl e ↦ rw e (two (ground arith) (ground arith))
  | inr e ↦ rw (e, print_fuel-digit n (suc n / 10) (omega arith)) refl
]

hex_digit_upper-ne : (d : ℕ) → d < 16 → hex_digit_upper d ≢ 46
hex_digit_upper-ne d h = ground arith

hex_fuel-IsPiece : (f n : ℕ) → IsPiece 46 (hex_fuel f n)
unfolding hex_fuel
hex_fuel-IsPiece zero n = (hex_digit_upper-ne (n % 16) (omega arith), tt)
hex_fuel-IsPiece (suc f) n =
    let more : IsPiece 46 (hex_fuel f (n / 16)) = hex_fuel-IsPiece f (n / 16) in
    elim (Bool-cases (ltb n 16)) [
      | inl e ↦ rw e (hex_digit_upper-ne n (ground arith), tt)
      | inr e ↦ rw e (
          All-append (λ d. d ≢ 46) (hex_fuel f (n / 16)) (hex_digit_upper (n % 16) ∷ []) more
            (hex_digit_upper-ne (n % 16) (omega arith), tt))
    ]

pub hex_upper-IsPiece : (n : ℕ) → IsPiece 46 (hex_upper n)
unfolding hex_upper
hex_upper-IsPiece n = hex_fuel-IsPiece n n

pub hex_two-IsPiece : (b : ℕ) → IsPiece 46 (hex_two b)
hex_two-IsPiece b =
    (hex_digit-ne (b / 16 % 16) (omega arith), (hex_digit-ne (b % 16) (omega arith), tt))
  where
    hex_digit-ne : (d : ℕ) → d < 16 → hex_digit d ≢ 46
    hex_digit-ne d h = ground arith

-- The letters of a profile space are trimmed off a number.
pub trim_abc-digits : (s : Text) → All IsDigit s → trim_abc s ≡ s
unfolding trim_abc
trim_abc-digits [] h = refl
trim_abc-digits (c ∷ s) h = ground arith

pub parse_hex-hex_two : (b : ℕ) → b < 256 → parse_hex 256 (hex_two b) ≡ some b
unfolding parse_hex parse_hex_digits hex_value
parse_hex-hex_two b h = ground arith
