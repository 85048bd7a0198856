-- ===== src/Http/Files/Names.antt =====
-- That the name of a segment or of a window of subtitles is read back.
use den_remux.Prelude.{
  ℕ, zero, suc, ◌+◌, ◌*◌, ◌/◌, ◌%◌, ◌^◌, ◌≤◌, ◌<◌, ◌≡◌, ◌≢◌, refl, ap, ◌∙◌, arith, true, [], ◌∷◌,
  ◌++◌, none, some, ltb, leb, length, length-append, All, Bool-cases, inl, inr,
}
use den_remux.Text.{Text, codes, strip_prefix, strip_suffix, parse_u64, is_digit}
use den_remux.Text.Decimal.{
  print, print_fuel, print-IsDigit, print-ne-nil, IsDigit, parse_u64-print, strip_prefix-append,
  split_once-append,
}
use den_remux.Http.Files.{all_digits, digits, seg_index, window, rendition, max_languages, sub_file}
use mathlib.Core.List.{reverse, reverse-append, reverse-reverse}

-- 10, 100, 1000, ...
abbrev pub ten_to : ℕ → ℕ
ten_to zero = 10
ten_to (suc k) = 10 * ten_to k

length-print_fuel : (f n k : ℕ) → n < ten_to k → length (print_fuel f n) ≤ suc k
unfolding print_fuel
length-print_fuel zero n k h = omega arith
length-print_fuel (suc f) n zero h = elim (Bool-cases (ltb n 10)) [
  | inl e ↦ rw e (omega arith)
  | inr e ↦ ground arith
]
length-print_fuel (suc f) n (suc k) h =
    let rest : length (print_fuel f (n / 10)) ≤ suc k =
      length-print_fuel f (n / 10) k (omega arith) in
    elim (Bool-cases (ltb n 10)) [
      | inl e ↦ rw e (omega arith)
      | inr e ↦
          rw e (omega (arith, rest, length-append (print_fuel f (n / 10)) ((n % 10 + 48) ∷ [])))
    ]

all_digits-IsDigit : (s : Text) → All IsDigit s → all_digits s ≡ true
unfolding is_digit
all_digits-IsDigit [] h = refl
all_digits-IsDigit (c ∷ s) h = ground (arith, all_digits-IsDigit s h.1)

digits-IsDigit :
    (s : Text) (limit : ℕ)
    → s ≢ []
    → All IsDigit s
    → length s ≤ limit
    → digits s limit ≡ parse_u64 s
unfolding digits
digits-IsDigit [] limit n d h = absurd (n refl)
digits-IsDigit (c ∷ s) limit n d h =
    let short : leb (length (c ∷ s)) limit ≡ true = ground arith in
    rw (short, all_digits-IsDigit (c ∷ s) d) refl

digits-print : (n k : ℕ) → n < 2 ^ 64 → n < ten_to k → digits (print n) (suc k) ≡ some n
digits-print n k b h =
    digits-IsDigit (print n) (suc k) (print-ne-nil n) (print-IsDigit n)
      (unfold print in length-print_fuel n n k h)
    ∙ parse_u64-print n b

strip_suffix-append : (p s : Text) → strip_suffix p (s ++ p) ≡ some s
unfolding strip_suffix
strip_suffix-append p s =
    rw (reverse-append s p, strip_prefix-append (reverse p) (reverse s))
      (ap some (reverse-reverse s))

pub seg_index-print :
    (n : ℕ) → n < 10000000 → seg_index (codes "seg" ++ (print n ++ codes ".m4s")) ≡ some n
unfolding seg_index
seg_index-print n h =
    rw
      (
        strip_prefix-append (codes "seg") (print n ++ codes ".m4s"),
        strip_suffix-append (codes ".m4s") (print n),
      )
      (digits-print n 6 (omega arith) h)

not_playlist : (s : Text) → strip_suffix (codes ".m3u8") (s ++ codes ".vtt") ≡ none
unfolding strip_suffix strip_prefix
not_playlist s = rw (reverse-append s (codes ".vtt")) refl

rendition-print : (n : ℕ) → n < 8 → rendition (print n) ≡ some n
unfolding rendition
rendition-print n h =
    let small : ltb n max_languages ≡ true = ground arith in
    rw (digits-print n 0 (omega arith) (omega arith), small) refl

abbrev pub window_name : ℕ → ℕ → Text
window_name n w = codes "sub" ++ ((print n ++ (b'_' ∷ print w)) ++ codes ".vtt")

IsDigit-ne-high : (c : ℕ) (s : Text) → 57 < c → All IsDigit s → All (λ d. d ≢ c) s
IsDigit-ne-high c [] h d = tt
IsDigit-ne-high c (x ∷ s) h d = (omega arith, IsDigit-ne-high c s h d.1)

sub_file-window : (n w : ℕ) → n < 8 → w < 10000000 → sub_file (window_name n w) ≡ some (window n w)
unfolding sub_file
sub_file-window n w h k =
    let body : Text = print n ++ (b'_' ∷ print w) in
    rw
      (
        strip_prefix-append (codes "sub") (body ++ codes ".vtt"),
        not_playlist body,
        strip_suffix-append (codes ".vtt") body,
        split_once-append b'_' (print n) (print w)
            (IsDigit-ne-high b'_' (print n) (omega arith) (print-IsDigit n)),
        rendition-print n h,
        digits-print w 6 (omega arith) k,
      )
      refl

-- The names that a session gives its files are read back: a segment number below ten million, and a
-- window of subtitles of one of the eight renditions and such a segment.
pub names-print :
    (n w : ℕ)
    → n < 8
    → w < 10000000
    → (seg_index (codes "seg" ++ (print w ++ codes ".m4s")) ≡ some w)
      × (sub_file (window_name n w) ≡ some (window n w))
names-print n w h k = (seg_index-print w k, sub_file-window n w h k)
