-- ===== src/Http/ContentRange.antt =====
-- `content_range` of src/httputil.rs reads a `Content-Range` header, as an upstream answers it, and
-- `media_response` of src/session.rs prints one: the two are inverse.
use den_remux.Prelude.{ℕ, ◌≤◌, ◌<◌, ◌≡◌, arith, ◌^◌, ◌&&◌}
use den_remux.Prelude.{◌∷◌, ◌++◌, Option, none, some, ltb, leb, ◌>>=◌, if◌then◌else◌, All}
use den_remux.Text.{Text, codes, strip_prefix, split_once, parse_u64}
use den_remux.Text.Decimal.{
  print, print-IsDigit, parse_u64-print, split_once-append, strip_prefix-append, IsDigit-ne,
}
use den_remux.Prelude.{All-append, ◌≢◌, >>=-eq-some}

unfoldable pub checked_range : ℕ → ℕ → ℕ → Option (ℕ × ℕ × ℕ)
checked_range start end total =
    if leb start end && ltb end total then some (start, end, total) else none

unfoldable pub content_range : Text → Option (ℕ × ℕ × ℕ)
unfolding checked_range
content_range value = do
  text ← strip_prefix (codes "bytes ") value
  (span, total) ← split_once b'/' text
  (start, end) ← split_once b'-' span
  s ← parse_u64 start
  e ← parse_u64 end
  t ← parse_u64 total
  checked_range s e t

-- `format!("bytes {start}-{end}/{len}")`
unfoldable pub print_range : ℕ → ℕ → ℕ → Text
print_range start end len =
    codes "bytes " ++ ((print start ++ (b'-' ∷ print end)) ++ (b'/' ∷ print len))

span_no_slash : (start end : ℕ) → All (λ d. d ≢ b'/') (print start ++ (b'-' ∷ print end))
span_no_slash start end =
    All-append (λ d. d ≢ b'/') (print start) (b'-' ∷ print end)
      (IsDigit-ne b'/' (print start) (omega arith) (print-IsDigit start))
      (omega arith, IsDigit-ne b'/' (print end) (omega arith) (print-IsDigit end))

-- The `Content-Range` that a segment is answered with is read back by the upstream client's parser
-- as the same span and length: for an ordered span below a length below 2^64.
pub content_range-print :
    (start end len : ℕ)
    → start ≤ end
    → end < len
    → len < 2 ^ 64
    → content_range (print_range start end len) ≡ some (start, end, len)
unfolding content_range print_range
content_range-print start end len h k l =
    rw
      (
        strip_prefix-append (codes "bytes ") _,
        split_once-append b'/' (print start ++ (b'-' ∷ print end)) (print len)
            (span_no_slash start end),
        split_once-append b'-' (print start) (print end)
            (IsDigit-ne b'-' (print start) (omega arith) (print-IsDigit start)),
        parse_u64-print start (omega arith),
        parse_u64-print end (omega arith),
        parse_u64-print len l,
      )
      (ground arith)

-- A `Content-Range` that is accepted names an ordered span below its total.
pub content_range_bounds :
    (value : Text) (start end total : ℕ)
    → content_range value ≡ some (start, end, total)
    → (start ≤ end) × (end < total)
unfolding content_range
content_range_bounds value start end total h =
    let (text, e1, h1) = >>=-eq-some (strip_prefix (codes "bytes ") value) _ h in
    let (st, e2, h2) = >>=-eq-some (split_once b'/' text) _ h1 in
    let (ab, e3, h3) = >>=-eq-some (split_once b'-' st.0) _ h2 in
    let (s, e4, h4) = >>=-eq-some (parse_u64 ab.0) _ h3 in
    let (e, e5, h5) = >>=-eq-some (parse_u64 ab.1) _ h4 in
    let (t, e6, h6) = >>=-eq-some (parse_u64 st.1) _ h5 in ground arith
