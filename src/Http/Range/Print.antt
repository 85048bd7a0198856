-- ===== src/Http/Range/Print.antt =====
-- What `wanted_range` makes of the ranges that players write: `bytes=N-`, `bytes=A-B`, `bytes=-N`.
use den_remux.Prelude.{ℕ, ◌-◌, ◌≤◌, ◌<◌, ◌^◌, ◌≡◌, ◌∙◌, false, arith, min, All, All-append}
use den_remux.Prelude.{[], ◌∷◌, ◌++◌, some, none, ok, refl, ◌≢◌}
use den_remux.Text.{Text, codes, contains, trim, parse_u64}
use den_remux.Text.Same.{same_refl, same_sound}
use den_remux.Text.Decimal.{
  print, print-IsDigit, parse_u64-print, split_once-append, IsDigit, IsDigit-ne,
}
use den_remux.Text.Decimal.{IsVisible, IsDigit-IsVisible, trim-IsVisible, strip_prefix-append}
use den_remux.Http.Range.{RangeHeaders, Header, wanted_range, within, bounds, stale}

-- `bytes=<a>-<b>`, where either side may be empty.
abbrev pub range_text : Text → Text → Text
range_text a b = codes "bytes=" ++ (a ++ (b'-' ∷ b))

abbrev pub asks : Text → Text → Header → RangeHeaders
asks a b if_range = record { range = some (some (range_text a b)); if_range = if_range }

contains-ne : (c : ℕ) (s : Text) → All (λ d. d ≢ c) s → contains c s ≡ false
unfolding contains
contains-ne c [] h = refl
contains-ne c (d ∷ s) h = ground (arith, contains-ne c s h.1)

module _ (a b : Text) (da : All IsDigit a) (db : All IsDigit b) where
  spec-IsVisible : IsVisible (a ++ (b'-' ∷ b))
  spec-IsVisible =
      All-append (λ c. 32 < c) a (b'-' ∷ b) (IsDigit-IsVisible a da)
        (omega arith, IsDigit-IsVisible b db)

  no_comma : All (λ d. d ≢ b',') (a ++ (b'-' ∷ b))
  no_comma =
      All-append (λ d. d ≢ b',') a (b'-' ∷ b) (IsDigit-ne b',' a (omega arith) da)
        (omega arith, IsDigit-ne b',' b (omega arith) db)

  text-IsVisible : IsVisible (range_text a b)
  text-IsVisible =
      All-append (λ c. 32 < c) (codes "bytes=") (a ++ (b'-' ∷ b)) (omega arith) spec-IsVisible

  -- Between digits and one dash the text layers drop away, and the two bounds are left.
  wanted_range-asks :
      (if_range : Header) (etag : Text) (len : ℕ)
      → stale if_range etag ≡ false
      → wanted_range (asks a b if_range) etag len
        ≡ within (bounds a b (parse_u64 a) (parse_u64 b) len) len
  unfolding wanted_range
  wanted_range-asks if_range etag len fresh = rw (
    fresh,
    trim-IsVisible (range_text a b) text-IsVisible,
    strip_prefix-append (codes "bytes=") (a ++ (b'-' ∷ b)),
    contains-ne b',' (a ++ (b'-' ∷ b)) no_comma,
    trim-IsVisible (a ++ (b'-' ∷ b)) spec-IsVisible,
    split_once-append b'-' a b (IsDigit-ne b'-' a (omega arith) da),
    trim-IsVisible a (IsDigit-IsVisible a da),
    trim-IsVisible b (IsDigit-IsVisible b db),
  )

bounds-open : (a : Text) (n len : ℕ) → bounds a [] (some n) none len ≡ some (n, len - 1)
unfolding bounds
bounds-open a n len = refl

bounds-suffix :
    (b : Text) (n len : ℕ) → 0 < n → bounds [] b none (some n) len ≡ some (len - n, len - 1)
unfolding bounds
bounds-suffix b n len h = ground arith

within-some :
    (start end len : ℕ) → start < len → within (some (start, end)) len ≡ ok (some (start, end))
unfolding within
within-some start end len h = ground arith

parse-nil : parse_u64 [] ≡ none
unfolding parse_u64
parse-nil = refl

-- `bytes=n-`, with `n` within a body shorter than 2^64, is read as the span from `n` to the last
-- byte, if no `If-Range` is stale.
pub wanted_range-from :
    (n len : ℕ) (if_range : Header) (etag : Text)
    → stale if_range etag ≡ false
    → n < len
    → len < 2 ^ 64
    → wanted_range (asks (print n) [] if_range) etag len ≡ ok (some (n, len - 1))
wanted_range-from n len if_range etag fresh h k =
    wanted_range-asks (print n) [] (print-IsDigit n) tt if_range etag len fresh
    ∙ rw (parse_u64-print n (omega arith), parse-nil, bounds-open (print n) n len)
        (within-some n (len - 1) len h)

-- `bytes=a-b`, with `a` at most `b`, `a` within the body and `b` below 2^64, is read as the span
-- from `a` to `b` or to the last byte, whichever comes first, if no `If-Range` is stale.
pub wanted_range-closed :
    (a b len : ℕ) (if_range : Header) (etag : Text)
    → stale if_range etag ≡ false
    → a ≤ b
    → a < len
    → b < 2 ^ 64
    → wanted_range (asks (print a) (print b) if_range) etag len ≡ ok (some (a, min b (len - 1)))
wanted_range-closed a b len if_range etag fresh h k l =
    wanted_range-asks (print a) (print b) (print-IsDigit a) (print-IsDigit b) if_range etag len
      fresh
    ∙ rw (parse_u64-print a (omega arith), parse_u64-print b l)
        (unfold bounds within in ground arith)

-- `bytes=-n`, with `n` positive and below 2^64, is read as the last `n` bytes of a body that is not
-- empty, or as all of a shorter one, if no `If-Range` is stale.
pub wanted_range-suffix :
    (n len : ℕ) (if_range : Header) (etag : Text)
    → stale if_range etag ≡ false
    → 0 < n
    → 0 < len
    → n < 2 ^ 64
    → wanted_range (asks [] (print n) if_range) etag len ≡ ok (some (len - n, len - 1))
wanted_range-suffix n len if_range etag fresh h k l =
    wanted_range-asks [] (print n) tt (print-IsDigit n) if_range etag len fresh
    ∙ rw (parse-nil, parse_u64-print n l, bounds-suffix (print n) n len h)
        (within-some (len - n) (len - 1) len (omega arith))

-- An `If-Range` that names this body's tag, with no blank in it, is not stale.
pub stale_own : (etag : Text) → IsVisible etag → stale (some (some etag)) etag ≡ false
unfolding stale
stale_own etag h = rw (trim-IsVisible etag h, same_refl etag)

-- A validator that is anything but this body's tag has the whole body sent, whatever range is asked.
pub wanted_range-stale :
    (range : Header) (v etag : Text) (len : ℕ)
    → trim v ≢ etag
    → wanted_range (record { range = range; if_range = some (some v) }) etag len ≡ ok none
unfolding wanted_range stale
wanted_range-stale none v etag len h = refl
wanted_range-stale (some none) v etag len h = refl
wanted_range-stale (some (some spec)) v etag len h = ground (arith, same_sound (trim v) etag)
