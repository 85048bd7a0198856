-- ===== src/Text/Decimal.antt =====
-- How a number is printed (`{}` of an unsigned integer), and that `parse` reads it back.
use den_remux.Prelude.{
  ℕ, zero, suc, ◌+◌, ◌-◌, ◌*◌, ◌/◌, ◌%◌, ◌^◌, ◌≤◌, ◌<◌, ◌≡◌, refl, ap, ◌∙◌, arith,
}
use den_remux.Prelude.{[], ◌∷◌, ◌++◌, some, ltb, All}
use den_remux.Prelude.{All-append, if◌then◌else◌, Bool-cases, inl, inr, length, length-append, ◌≢◌}
use mathlib.Core.List.{reverse, reverse-append, reverse-reverse}
use den_remux.Text.{
  Text, trim, trim_start, parse_digits, parse_below, parse_u64, split_once, strip_prefix,
}

abbrev pub IsDigit : ℕ → Type 0
IsDigit c = (48 ≤ c) × (c ≤ 57)

-- The fuel is the number itself: a quotient by ten of a number from ten on is smaller.
unfoldable pub print_fuel : ℕ → ℕ → Text
print_fuel zero n = (n + 48) ∷ []
print_fuel (suc f) n =
    let more = print_fuel f (n / 10) ++ ((n % 10 + 48) ∷ []) in
    if ltb n 10 then (n + 48) ∷ [] else more

unfoldable pub print : ℕ → Text
unfolding print_fuel
print n = print_fuel n n

print_fuel-IsDigit : (f n : ℕ) → n ≤ f → All IsDigit (print_fuel f n)
unfolding print_fuel
print_fuel-IsDigit zero n h = omega arith
print_fuel-IsDigit (suc f) n h = ground (
  arith,
  All-append IsDigit (print_fuel f (n / 10)) ((n % 10 + 48) ∷ []),
  print_fuel-IsDigit f (n / 10),
)

pub print-IsDigit : (n : ℕ) → All IsDigit (print n)
unfolding print
print-IsDigit n = print_fuel-IsDigit n n (omega arith)

parse_digits-snoc :
    (bound acc m d : ℕ) (s : Text)
    → IsDigit d
    → m * 10 + (d - 48) < bound
    → parse_digits bound acc s ≡ some m
    → parse_digits bound acc (s ++ (d ∷ [])) ≡ some (m * 10 + (d - 48))
unfolding parse_digits
parse_digits-snoc bound acc m d [] hd hm e = ground arith
parse_digits-snoc bound acc m d (c ∷ s) hd hm e =
    ground (arith, parse_digits-snoc bound (acc * 10 + (c - 48)) m d s)

parse_digits-one :
    (bound n : ℕ) → n < 10 → n < bound → parse_digits bound 0 ((n + 48) ∷ []) ≡ some n
unfolding parse_digits
parse_digits-one bound n h k = ground arith

parse-print_fuel :
    (bound f n : ℕ) → n ≤ f → n < bound → parse_digits bound 0 (print_fuel f n) ≡ some n
unfolding print_fuel
parse-print_fuel bound zero n h k = parse_digits-one bound n (omega arith) k
parse-print_fuel bound (suc f) n h k = elim (Bool-cases (ltb n 10)) [
  | inl small ↦ rw small (parse_digits-one bound n (ground arith) k)
  | inr big ↦ rw big (
      parse_digits-snoc bound 0 (n / 10) (n % 10 + 48) (print_fuel f (n / 10)) (omega arith)
        (omega arith) (parse-print_fuel bound f (n / 10) (ground arith) (omega arith))
      ∙ ap some {x = n / 10 * 10 + (n % 10 + 48 - 48)} (omega arith))
]

print_fuel-ne-nil : (f n : ℕ) → print_fuel f n ≢ []
unfolding print_fuel
print_fuel-ne-nil zero n e = cc
print_fuel-ne-nil (suc f) n e =
    ground (arith, ap length e, length-append (print_fuel f (n / 10)) ((n % 10 + 48) ∷ []))

pub print-ne-nil : (n : ℕ) → print n ≢ []
unfolding print
print-ne-nil n = print_fuel-ne-nil n n

parse_below-digits :
    (bound : ℕ) (s : Text) → All IsDigit s → s ≢ [] → parse_below bound s ≡ parse_digits bound 0 s
unfolding parse_below
parse_below-digits bound [] d h = absurd (h refl)
parse_below-digits bound (c ∷ []) d h = ground arith
parse_below-digits bound (c ∷ e ∷ s) d h = ground arith

-- `parse` reads back what was printed.
pub parse_below-print : (bound n : ℕ) → n < bound → parse_below bound (print n) ≡ some n
unfolding print
parse_below-print bound n h =
    parse_below-digits bound (print_fuel n n) (print-IsDigit n) (print_fuel-ne-nil n n)
    ∙ parse-print_fuel bound n n (omega arith) h

pub parse_u64-print : (n : ℕ) → n < 2 ^ 64 → parse_u64 (print n) ≡ some n
unfolding parse_u64
parse_u64-print n h = parse_below-print (2 ^ 64) n h

-- The first separator splits the text, if none stands before it.
pub split_once-append :
    (c : ℕ) (s t : Text) → All (λ d. d ≢ c) s → split_once c (s ++ (c ∷ t)) ≡ some (s, t)
unfolding split_once
split_once-append c [] t h = ground arith
split_once-append c (d ∷ s) t h = ground (arith, split_once-append c s t h.1)

pub IsDigit-ne : (c : ℕ) (s : Text) → c < 48 → All IsDigit s → All (λ d. d ≢ c) s
IsDigit-ne c [] h d = tt
IsDigit-ne c (x ∷ s) h d = (omega arith, IsDigit-ne c s h d.1)

abbrev pub IsVisible : Text → Type 0
IsVisible s = All (λ c. 32 < c) s

pub IsDigit-IsVisible : (s : Text) → All IsDigit s → IsVisible s
IsDigit-IsVisible [] h = tt
IsDigit-IsVisible (c ∷ s) h = (omega arith, IsDigit-IsVisible s h.1)

IsVisible-reverse : (s : Text) → IsVisible s → IsVisible (reverse s)
IsVisible-reverse [] h = tt
IsVisible-reverse (c ∷ s) h =
    rw (reverse-append (c ∷ []) s)
      (All-append (λ d. 32 < d) (reverse s) (c ∷ []) (IsVisible-reverse s h.1) (h.0, tt))

trim_start-IsVisible : (s : Text) → IsVisible s → trim_start s ≡ s
unfolding trim_start
trim_start-IsVisible [] h = refl
trim_start-IsVisible (c ∷ s) h = ground arith

-- A text with no blank and no control character has nothing to trim.
pub trim-IsVisible : (s : Text) → IsVisible s → trim s ≡ s
unfolding trim
trim-IsVisible s h =
    rw (trim_start-IsVisible s h, trim_start-IsVisible (reverse s) (IsVisible-reverse s h))
      (reverse-reverse s)

pub strip_prefix-append : (p s : Text) → strip_prefix p (p ++ s) ≡ some s
unfolding strip_prefix
strip_prefix-append [] s = ground arith
strip_prefix-append (c ∷ p) s = ground (arith, strip_prefix-append p s)
