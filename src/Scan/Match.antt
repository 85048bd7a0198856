-- ===== src/Scan/Match.antt =====
-- What two fingerprints share, src/segments.rs: `longest_shared`, `contiguous` and `refine_intro_tail`. A
-- fingerprint is a list of points of 32 bits. What is computed in floating point is a parameter. What
-- panics is `none`: a slice out of range, or a subtraction below zero.
pub mod Bounds
pub mod Episodes
use den_remux.Prelude.{
  ℕ, zero, suc, ◌+◌, ◌-◌, ◌*◌, ◌/◌, ◌%◌, ◌^◌, ◌<◌, min, Bool, true, false, not, ◌&&◌, ◌||◌, List,
  [], ◌∷◌, ◌++◌, map,
}
use den_remux.Prelude.{
  Option, none, some, ◌>>=◌, ltb, leb, ◌==◌, length, take, drop, if◌then◌else◌, retain, find_map,
  filter_map,
}
use den_remux.Prelude.Floats.{Floats}
use den_remux.Prelude.Int.{ℤ, pos, negsuc, pos_part, neg_part, sub_ℕ, ltb_ℤ}

-- Inclusive point indices into each fingerprint.
pub record Shared : Type 0 where
  pub a : ℕ × ℕ
  pub b : ℕ × ℕ

-- `HashMap::insert`
unfoldable pub insert_point : ℕ → ℕ → List (ℕ × ℕ) → List (ℕ × ℕ)
insert_point p i index = (p, i) ∷ retain (λ e. not (e.0 == p)) index

unfoldable pub inverted_from : ℕ → List ℕ → List (ℕ × ℕ) → List (ℕ × ℕ)
inverted_from i [] index = index
inverted_from i (p ∷ ps) index = inverted_from (suc i) ps (insert_point p i index)

unfoldable pub inverted : List ℕ → List (ℕ × ℕ)
inverted fp = inverted_from 0 fp []

unfoldable pub position : List (ℕ × ℕ) → ℕ → Option ℕ
position index p = find_map (λ e. if e.0 == p then some e.1 else none) index

-- `point.wrapping_add_signed(d)` for `d` from -2 to 2.
unfoldable pub near : ℕ → List ℕ
near point = map (λ d. (point + 2 ^ 32 + d - 2) % 2 ^ 32) (0 ∷ 1 ∷ 2 ∷ 3 ∷ 4 ∷ [])

-- The shifts that a point suggests, `pb as isize - pa as isize`.
unfoldable pub shifts_of : List (ℕ × ℕ) → ℕ × ℕ → List ℤ
shifts_of ib (point, pa) = filter_map (λ p. position ib p >>= λ pb. some (sub_ℕ pb pa)) (near point)

-- `sort_unstable` and `dedup`: each shift once, in order.
unfoldable pub insert_shift : ℤ → List ℤ → List ℤ
insert_shift s [] = s ∷ []
insert_shift s (t ∷ ts) =
    let rest = insert_shift s ts in
    if ltb_ℤ s t then s ∷ t ∷ ts else if ltb_ℤ t s then t ∷ rest else t ∷ ts

unfoldable pub insert_shifts : List ℤ → List ℤ → List ℤ
insert_shifts [] sorted = sorted
insert_shifts (s ∷ ss) sorted = insert_shifts ss (insert_shift s sorted)

unfoldable pub all_shifts : List (ℕ × ℕ) → List (ℕ × ℕ) → List ℤ
all_shifts [] ib = []
all_shifts (e ∷ es) ib = insert_shifts (shifts_of ib e) (all_shifts es ib)

-- `(x ^ y).count_ones()`, of words of `n` bits.
unfoldable pub differing : ℕ → ℕ → ℕ → ℕ
differing zero x y = 0
differing (suc n) x y = (if x % 2 == y % 2 then 0 else 1) + differing n (x / 2) (y / 2)

abbrev pub Run : Type 0
Run = Option (ℕ × ℕ)

unfoldable pub longer : Run → Run → Run
longer (some x) (some y) = if ltb (x.1 - x.0) (y.1 - y.0) then some y else some x
longer none y = y
longer (some x) none = some x

-- `iter().zip()`
unfoldable pub zip : List ℕ → List ℕ → List (ℕ × ℕ)
zip (x ∷ xs) (y ∷ ys) = (x, y) ∷ zip xs ys
zip _ _ = []

-- The points to look at: from `lo` up to `hi` in `a`, and from `lo + shift` in `b`.
abbrev pub low : ℤ → ℕ
low shift = neg_part shift

abbrev pub high : List ℕ → List ℕ → ℤ → ℕ
high a b (pos n) = min (length a) (length b - n)
high a b (negsuc n) = min (length a) (length b + suc n)

-- `xs[lo..hi]` and `xs[lo..]`, which panic out of range: `none`.
unfoldable pub cut : ℕ → ℕ → List ℕ → Option (List ℕ)
cut lo hi xs = if leb lo hi && leb hi (length xs) then some (take (hi - lo) (drop lo xs)) else none

unfoldable pub cut_from : ℕ → List ℕ → Option (List ℕ)
cut_from lo xs = if leb lo (length xs) then some (drop lo xs) else none

-- `xs.len() - e - 1`, which is refused below zero.
unfoldable pub behind : List ℕ → ℕ → Option ℕ
behind xs e = if ltb e (length xs) then some (length xs - e - 1) else none

-- `(i as isize + shift) as usize`
abbrev pub shifted : ℤ → ℕ → ℕ
shifted (pos n) i = i + n
shifted (negsuc n) i = i - suc n

module _ (fl : Floats) where
  abbrev pub point_secs : fl.F
  point_secs = fl.over (fl.over (fl.literal 4096 1) (fl.literal 11025 1)) (fl.literal 3 1)

  -- A number of points, in seconds.
  unfoldable pub seconds : ℕ → fl.F
  seconds n = fl.times (fl.of_nat n) point_secs

  unfoldable pub secs : Shared → fl.F
  secs s = seconds (s.a.1 - s.a.0)

  -- The run that goes on at `i`, or starts there.
  abbrev pub run_on : ℕ → Run → Run
  run_on i none = some (i, i)
  run_on i (some (s, e)) =
      if fl.at_most (seconds (i - e)) (fl.literal 7 2) then some (s, i) else some (i, i)

  -- The best run, when a run ends at `i`.
  abbrev pub best_on : ℕ → Run → Run → Run
  best_on i best none = longer best none
  best_on i best (some (s, e)) =
      if fl.at_most (seconds (i - e)) (fl.literal 7 2) then best else longer best (some (s, e))

  unfoldable pub runs_loop : ℕ → Run → Run → List (ℕ × ℕ) → Run
  runs_loop i best run [] = longer best run
  runs_loop i best run ((x, y) ∷ ps) =
      let passed = runs_loop (suc i) best run ps in
      let matched = runs_loop (suc i) (best_on i best run) (run_on i run) ps in
      if ltb 6 (differing 32 x y) then passed else matched

  abbrev pub only_long : fl.F → Run → Run
  only_long min_secs none = none
  only_long min_secs (some (s, e)) =
      if fl.at_most min_secs (seconds (e - s)) then some (s, e) else none

  unfoldable pub contiguous : List ℕ → List ℕ → ℤ → fl.F → Option Run
  contiguous a b shift min_secs =
      let lo = low shift in
      let hi = high a b shift in
      if leb hi lo
      then some none
      else (cut_from (shifted shift lo) b >>= λ ys.
          cut lo hi a >>= λ xs. some (only_long min_secs (runs_loop lo none none (zip xs ys))))

  abbrev pub is_longer : ℕ × ℕ → Option Shared → Bool
  is_longer run none = true
  is_longer run (some best) = ltb (best.a.1 - best.a.0) (run.1 - run.0)

  abbrev pub better : ℤ → Run → Option Shared → Option Shared
  better shift none best = best
  better shift (some run) best =
      if is_longer run best
      then some (record { a = run; b = (shifted shift run.0, shifted shift run.1) })
      else best

  unfoldable pub best_of : List ℕ → List ℕ → fl.F → List ℤ → Option Shared → Option (Option Shared)
  best_of a b min_secs [] best = some best
  best_of a b min_secs (s ∷ ss) best =
      contiguous a b s min_secs >>= λ run. best_of a b min_secs ss (better s run best)

  unfoldable pub longest_shared : List ℕ → List ℕ → fl.F → Option (Option Shared)
  longest_shared a b min_secs = best_of a b min_secs (all_shifts (inverted a) (inverted b)) none

  -- `difference`, of a block of points.
  unfoldable pub difference : List (ℕ × ℕ) → ℕ
  difference [] = 0
  difference ((x, y) ∷ ps) = differing 32 x y + difference ps

  abbrev pub block : ℕ
  block = fl.ceil (fl.over (fl.literal 1 1) point_secs)

  abbrev pub max_points : ℕ
  max_points = fl.floor (fl.over (fl.literal 12 1) point_secs)

  -- The loop, on fuel: `none` is for a slice out of range, and for a loop that is out of fuel.
  unfoldable pub extend : ℕ → ℕ → List ℕ → List ℕ → Shared → ℕ → Option ℕ
  extend zero available a b s extended = none
  extend (suc f) available a b s extended =
      let rest = extend f available a b s (extended + block) in
      let a_start = s.a.1 + 1 + extended in
      let b_start = s.b.1 + 1 + extended in
      if ltb available (extended + block)
      then some extended
      else (cut a_start (a_start + block) a >>= λ xs. cut b_start (b_start + block) b >>= λ ys.
          if ltb (12 * block) (difference (zip xs ys)) then some extended else rest)

  abbrev pub extended_by : Shared → ℕ → Shared
  extended_by s n = record { a = (s.a.0, s.a.1 + n); b = (s.b.0, s.b.1 + n) }

  unfoldable pub refine_intro_tail : List ℕ → List ℕ → Shared → Option Shared
  refine_intro_tail a b s = behind a s.a.1 >>= λ m. behind b s.b.1 >>= λ n.
      let available = min (min m n) max_points in
      extend (suc available) available a b s 0 >>= λ k. some (extended_by s k)
