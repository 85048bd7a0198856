-- ===== src/Playlist/Rates.antt =====
-- `segment_bytes`, `needed_rate`, `stretch_rate` and `startup_delay` of src/playlist.rs: the bytes of the segments,
-- and what a link must carry of them.
pub mod Sizes
use den_remux.Prelude.{
  ℕ, ◌-◌, leb, Bool, ◌||◌, List, [], ◌∷◌, map, drop, Option, none, some, if◌then◌else◌,
}
use den_remux.Prelude.Floats.{Floats}
use den_remux.Playlist.{Segment, nought}

module _ (fl : Floats) where
  open fl use {F, of_nat, literal, plus, minus, times, over, greatest, at_most, less, infinity}

  abbrev pub last_of : F × ℕ → List (F × ℕ) → F × ℕ
  last_of p [] = p
  last_of p (q ∷ qs) = last_of q qs

  -- A millionth of a second.
  abbrev pub slack : F
  slack = literal 1 1000000

  abbrev pub rate_of : F × ℕ → F × ℕ → F
  rate_of first last = over (of_nat (last.1 - first.1)) (minus last.0 first.0)

  -- What `partition_point` leaves before it: the last such entry, and whether others follow it. The entries ascend.
  unfoldable pub bytes_at : F × ℕ → F → F × ℕ → List (F × ℕ) → F → F
  bytes_at last rate before [] t = plus (of_nat last.1) (times (minus t last.0) rate)
  bytes_at last rate before (e ∷ es) t =
      let later = bytes_at last rate e es t in
      if at_most e.0 (plus t slack) then later else of_nat before.1

  unfoldable pub byte_of : F × ℕ → List (F × ℕ) → F → F
  byte_of first index t =
      if at_most first.0 (plus t slack)
      then bytes_at (last_of first index) (rate_of first (last_of first index)) first index t
      else of_nat first.1

  unfoldable pub sum : F → List F → F
  sum total [] = total
  sum total (b ∷ bs) = sum (plus total b) bs

  abbrev pub scaled : F → Option ℕ → List F → List F
  scaled total none bytes = bytes
  scaled total (some size) bytes =
      if less (nought fl) total then map (λ b. over (times b (of_nat size)) total) bytes else bytes

  abbrev pub span_bytes : (F → F) → Segment fl → F
  span_bytes at s = greatest (minus (at s.end) (at s.start)) (nought fl)

  abbrev pub is_flat : F × ℕ → F × ℕ → Bool
  is_flat first last = at_most last.0 first.0 || leb last.1 first.1

  unfoldable pub segment_bytes : List (Segment fl) → List (F × ℕ) → Option ℕ → Option (List F)
  segment_bytes segs [] size = none
  segment_bytes segs (first ∷ index) size =
      if is_flat first (last_of first index)
      then none
      else let bytes = map (span_bytes (byte_of first index)) segs in
        some (scaled (sum (nought fl) bytes) size bytes)

  pub record Buffer : Type 0 where
    pub secs : F
    pub bytes : Option ℕ

  abbrev pub bits_of : F → F
  bits_of b = times b (literal 8 1)

  -- The segments that have bytes, each by its start.
  unfoldable pub rows_of : List (Segment fl) → List F → List (F × F)
  rows_of [] bytes = []
  rows_of (s ∷ ss) [] = []
  rows_of (s ∷ ss) (b ∷ bs) = (s.start, b) ∷ rows_of ss bs

  unfoldable pub fetched_loop : F → F → List (F × F) → F → F → F
  fetched_loop prebuffer from [] fetched need = need
  fetched_loop prebuffer from (r ∷ rows) fetched need =
      let total = plus fetched (bits_of r.1) in
      fetched_loop prebuffer from rows total
        (greatest need (over total (minus (plus prebuffer r.0) from)))

  abbrev pub capped : Option ℕ → F → F → F → F
  capped none span bits need = need
  capped (some cap) span bits need =
      if less (nought fl) span
      then greatest need (over (minus bits (bits_of (of_nat cap))) span)
      else need

  unfoldable pub stretch_loop : Buffer → F → List (F × F) → F → F → F
  stretch_loop buffer from [] bits need = need
  stretch_loop buffer from (r ∷ rows) bits need =
      let total = plus bits (bits_of r.1) in
      let span = minus r.0 from in
      stretch_loop buffer from rows total
        (capped buffer.bytes span total (greatest need (over total (plus buffer.secs span))))

  unfoldable pub stretches : Buffer → List (F × F) → F → F
  stretches buffer [] need = need
  stretches buffer (r ∷ rows) need =
      stretches buffer rows (stretch_loop buffer r.0 (r ∷ rows) (nought fl) need)

  unfoldable pub stretch_rate : List (F × F) → Buffer → F
  stretch_rate rows buffer = stretches buffer rows (nought fl)

  abbrev pub start_of : List (F × F) → F
  start_of [] = nought fl
  start_of (r ∷ rows) = r.0

  unfoldable pub needed_rate : List (Segment fl) → List F → ℕ → F → Buffer → F
  needed_rate segs bytes from prebuffer buffer =
      let rows = drop from (rows_of segs bytes) in
      greatest (fetched_loop prebuffer (start_of rows) rows (nought fl) (nought fl))
        (stretch_rate rows buffer)

  unfoldable pub wait_loop : F → F → List (F × F) → F → F → F
  wait_loop rate from [] fetched wait = wait
  wait_loop rate from (r ∷ rows) fetched wait =
      let total = plus fetched (bits_of r.1) in
      wait_loop rate from rows total (greatest wait (minus (over total rate) (minus r.0 from)))

  unfoldable pub startup_delay : List (Segment fl) → List F → ℕ → F → Buffer → F
  startup_delay segs bytes from rate buffer =
      let rows = drop from (rows_of segs bytes) in
      if less rate (stretch_rate rows buffer)
      then infinity
      else wait_loop rate (start_of rows) rows (nought fl) (nought fl)
