-- ===== src/Http/Range.antt =====
-- `wanted_range` of src/session.rs and `range` of src/source.rs: the one span that a `Range` header
-- asks for, within a body of known length.
pub mod Print
use den_remux.Prelude.{ℕ, ◌-◌, ◌≤◌, ◌<◌, ◌≡◌, min, Bool, true, false, arith}
use den_remux.Prelude.{
  Option, none, some, Result, ok, err, ok_or, ltb, leb, if◌then◌else◌, [], ◌∷◌, ◌>>?◌, >>?-eq-ok,
}
use den_remux.Text.{Text, codes, same, strip_prefix, split_once, contains, trim, parse_u64}

-- `Ok(None)` is the whole body, `Err(())` a range that cannot be satisfied.
abbrev pub Wanted : Type 0
Wanted = Result (Unit {0}) (Option (ℕ × ℕ))

-- A header as `headers.get(…)` gives it, its text where `to_str` reads one: `none` is absent, and
-- `some none` is a value that is no visible ASCII.
abbrev pub Header : Type 0
Header = Option (Option Text)

pub record RangeHeaders : Type 0 where
  pub range : Header
  pub if_range : Header

-- `.and_then(|v| v.to_str().ok())`
unfoldable pub header_text : Header → Option Text
header_text none = none
header_text (some v) = v

-- The `If-Range` guard: a validator that is not this body's ETag.
unfoldable pub stale : Header → Text → Bool
stale none etag = false
stale (some none) etag = true
stale (some (some v)) etag = if same (trim v) etag then false else true

-- The `match` on both bounds, each parsed or not.
unfoldable pub bounds : Text → Text → Option ℕ → Option ℕ → ℕ → Option (ℕ × ℕ)
bounds a b (some start) (some end) len =
    if leb start end then some (start, min end (len - 1)) else none
bounds a [] (some start) none len = some (start, len - 1)
bounds a b (some start) none len = none
bounds [] b none (some suffix) len = if ltb 0 suffix then some (len - suffix, len - 1) else none
bounds a b none (some suffix) len = none
bounds a b none none len = none

-- `if range.0 >= len { Err } else { Ok(Some(range)) }`, and `Ok(None)` for what the match let fall.
unfoldable pub within : Option (ℕ × ℕ) → ℕ → Wanted
within none len = ok none
within (some (start, end)) len = if leb len start then err tt else ok (some (start, end))

unfoldable pub span_of : Option (Text × Text) → ℕ → Wanted
unfolding bounds within
span_of none len = ok none
span_of (some (a, b)) len =
    within (bounds (trim a) (trim b) (parse_u64 (trim a)) (parse_u64 (trim b)) len) len

unfoldable pub spec_of : Option Text → ℕ → Wanted
unfolding span_of
spec_of none len = ok none
spec_of (some spec) len =
    if contains b',' spec then ok none else span_of (split_once b'-' (trim spec)) len

unfoldable pub wanted_text : Option Text → Header → Text → ℕ → Wanted
unfolding spec_of stale
wanted_text none if_range etag len = ok none
wanted_text (some spec) if_range etag len =
    if stale if_range etag then ok none else spec_of (strip_prefix (codes "bytes=") (trim spec)) len

unfoldable pub wanted_range : RangeHeaders → Text → ℕ → Wanted
unfolding wanted_text header_text
wanted_range h etag len = wanted_text (header_text h.range) h.if_range etag len

-- The loopback door's `range`: no `If-Range`, one span, and any text that it cannot read is refused.
unfoldable pub door_end : Text → ℕ → Option ℕ
door_end [] size = some (size - 1)
door_end (c ∷ b) size = elim (parse_u64 (c ∷ b)) [
  | none ↦ none
  | some end ↦ some (min end (size - 1))
]

unfoldable pub door_check : ℕ → ℕ → ℕ → Wanted
door_check start end size =
    if leb size start then err tt else if ltb end start then err tt else ok (some (start, end))

unfoldable pub door_text : Text → ℕ → Wanted
unfolding door_end door_check
door_text v size = ok_or (strip_prefix (codes "bytes=") v) tt >>? λ spec.
    ok_or (split_once b'-' spec) tt >>? λ ab. ok_or (parse_u64 (trim ab.0)) tt >>? λ start.
    ok_or (door_end (trim ab.1) size) tt >>? λ end. door_check start end size

unfoldable pub door_range : Header → ℕ → Wanted
unfolding door_text
door_range none size = ok none
door_range (some none) size = err tt
door_range (some (some v)) size = door_text v size

within-bounds :
    (a b : Text) (x y : Option ℕ) (len start end : ℕ)
    → within (bounds a b x y len) len ≡ ok (some (start, end))
    → (start ≤ end) × (end < len)
unfolding within bounds
within-bounds a b (some s) (some e) len start end h = ground arith
within-bounds a [] (some s) none len start end h = ground arith
within-bounds a (c ∷ b) (some s) none len start end h = ground arith
within-bounds [] b none (some n) len start end h = ground arith
within-bounds (c ∷ a) b none (some n) len start end h = ground arith
within-bounds a b none none len start end h = ground arith

span_bounds :
    (o : Option (Text × Text)) (len start end : ℕ)
    → span_of o len ≡ ok (some (start, end))
    → (start ≤ end) × (end < len)
span_bounds none len start end h = unfold span_of in cc
span_bounds (some (a, b)) len start end h =
    within-bounds (trim a) (trim b) (parse_u64 (trim a)) (parse_u64 (trim b)) len start end
      (unfold span_of in h)

spec_bounds :
    (o : Option Text) (len start end : ℕ)
    → spec_of o len ≡ ok (some (start, end))
    → (start ≤ end) × (end < len)
unfolding spec_of
spec_bounds none len start end h = cc
spec_bounds (some spec) len start end h =
    ground (arith, span_bounds (split_once b'-' (trim spec)) len start end)

wanted_text_bounds :
    (o : Option Text) (if_range : Header) (etag : Text) (len start end : ℕ)
    → wanted_text o if_range etag len ≡ ok (some (start, end))
    → (start ≤ end) × (end < len)
unfolding wanted_text
wanted_text_bounds none if_range etag len start end h = cc
wanted_text_bounds (some spec) if_range etag len start end h =
    ground (arith, spec_bounds (strip_prefix (codes "bytes=") (trim spec)) len start end)

-- Whatever the headers say, a span that `wanted_range` grants is not empty and lies within the body.
pub wanted_range_bounds :
    (h : RangeHeaders) (etag : Text) (len start end : ℕ)
    → wanted_range h etag len ≡ ok (some (start, end))
    → (start ≤ end) × (end < len)
unfolding wanted_range
wanted_range_bounds h etag len start end e =
    wanted_text_bounds (header_text h.range) h.if_range etag len start end e

door_check_bounds :
    (s e size start end : ℕ)
    → e ≤ size - 1
    → door_check s e size ≡ ok (some (start, end))
    → (start ≤ end) × (end < size)
unfolding door_check
door_check_bounds s e size start end he h = ground arith

door_end-le : (b : Text) (size end : ℕ) → door_end b size ≡ some end → end ≤ size - 1
unfolding door_end
door_end-le [] size end h = ground arith
door_end-le (c ∷ b) size end h = ground arith

ok_or-eq-ok {ℓ} :
    {E : Type 0} {A : Type ℓ} (o : Option A) (e : E) {a : A} → ok_or o e ≡ ok a → o ≡ some a
ok_or-eq-ok none e h = cc
ok_or-eq-ok (some a) e h = cc

door_text_bounds :
    (v : Text) (size start end : ℕ)
    → door_text v size ≡ ok (some (start, end))
    → (start ≤ end) × (end < size)
unfolding door_text
door_text_bounds v size start end h =
    let (spec, e1, h1) = >>?-eq-ok (ok_or (strip_prefix (codes "bytes=") v) tt) _ h in
    let (ab, e2, h2) = >>?-eq-ok (ok_or (split_once b'-' spec) tt) _ h1 in
    let (s, e3, h3) = >>?-eq-ok (ok_or (parse_u64 (trim ab.0)) tt) _ h2 in
    let (e, e4, h4) = >>?-eq-ok (ok_or (door_end (trim ab.1) size) tt) _ h3 in
    door_check_bounds s e size start end (door_end-le _ size e (ok_or-eq-ok _ tt e4)) h4

-- Whatever the header says, a span that the loopback door grants is not empty and lies within the
-- file.
pub door_range_bounds :
    (h : Header) (size start end : ℕ)
    → door_range h size ≡ ok (some (start, end))
    → (start ≤ end) × (end < size)
unfolding door_range
door_range_bounds none size start end h = cc
door_range_bounds (some none) size start end h = cc
door_range_bounds (some (some v)) size start end h = door_text_bounds v size start end h
