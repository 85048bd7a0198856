-- ===== src/Auth/Hex.antt =====
-- That a printed hash is read back.
use den_remux.Prelude.{
  ℕ, ◌*◌, ◌/◌, ◌%◌, ◌<◌, ◌≡◌, refl, ap, arith, List, [], ◌∷◌, some, length, All,
}
use den_remux.Text.Split.{hex_digit, hex_value}
use den_remux.Auth.{hex, hex_pairs, parse_hex32}

hex_value-hex_digit : (d : ℕ) → d < 16 → hex_value (hex_digit d) ≡ some d
unfolding hex_value
hex_value-hex_digit d h = ground arith

hex_pairs-hex : (bs : List ℕ) → All (λ b. b < 256) bs → hex_pairs (hex bs) ≡ some bs
unfolding hex_pairs hex
hex_pairs-hex [] h = refl
hex_pairs-hex (b ∷ bs) h =
    rw
      (
        hex_value-hex_digit (b / 16 % 16) (omega arith),
        hex_value-hex_digit (b % 16) (omega arith),
        hex_pairs-hex bs h.1,
      )
      (ap (λ c. some (c ∷ bs)) (omega (arith, h.0)))

length-hex : (bs : List ℕ) → length (hex bs) ≡ length bs * 2
unfolding hex
length-hex [] = refl
length-hex (b ∷ bs) = omega (arith, length-hex bs)

pub parse_hex32-hex :
    (bs : List ℕ) → length bs ≡ 32 → All (λ b. b < 256) bs → parse_hex32 (hex bs) ≡ some bs
unfolding parse_hex32
parse_hex32-hex bs e h =
    let long : length (hex bs) ≡ 64 = omega (arith, length-hex bs, e) in
    rw long (hex_pairs-hex bs h)
