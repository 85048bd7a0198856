-- ===== src/Scan/Match/Bounds.antt =====
-- That a shared stretch lies within both fingerprints.
use den_remux.Prelude.{
  ◌*◌, refl, Bool, true, false, min, if◌then◌else◌, ℕ, zero, suc, ◌+◌, ◌-◌, ◌≤◌, ◌<◌, ◌≡◌, subst,
  arith, List, [], ◌∷◌,
}
use den_remux.Prelude.{
  Option, none, some, ltb, leb, length, take, drop, length-take, Bool-cases, inl, inr,
}
use den_remux.Prelude.Int.{ℤ, pos, negsuc}
use den_remux.Prelude.Floats.{Floats}
use den_remux.Scan.Match.{
  Shared, Run, longer, zip, low, high, cut, cut_from, behind, extended_by, max_points, difference,
  shifted, seconds, run_on, best_on, runs_loop, only_long, contiguous, is_longer, better, best_of,
  longest_shared, inverted, all_shifts, differing, block, extend, refine_intro_tail,
}

-- A run, where there is one, lies from `lo` up to `hi`.
abbrev pub IsRun : ℕ → ℕ → Run → Type 0
IsRun lo hi none = Unit {0}
IsRun lo hi (some (s, e)) = (lo ≤ s) × ((s ≤ e) × (e < hi))

-- A stretch of both fingerprints, as long in the one as in the other.
pub record IsShared (a b : List ℕ) (s : Shared) : Type 0 where
  pub a_order : s.a.0 ≤ s.a.1
  pub b_order : s.b.0 ≤ s.b.1
  pub a_end : s.a.1 < length a
  pub b_end : s.b.1 < length b
  pub same_length : s.a.1 + s.b.0 ≡ s.b.1 + s.a.0

abbrev pub AllShared : List ℕ → List ℕ → Option Shared → Type 0
AllShared a b none = Unit {0}
AllShared a b (some s) = IsShared a b s

-- A result that has a property, and no panic.
abbrev pub Gives {ℓ κ} : {A : Type ℓ} → (A → Type κ) → Option A → Type (ℓ ⊔ κ)
Gives {A = A} P o = (r : A) × ((o ≡ some r) × P r)

longer-IsRun : (lo hi : ℕ) (x y : Run) → IsRun lo hi x → IsRun lo hi y → IsRun lo hi (longer x y)
unfolding longer
longer-IsRun lo hi none y h k = k
longer-IsRun lo hi (some x) none h k = h
longer-IsRun lo hi (some x) (some y) h k = ground arith

IsRun-wider : (lo hi hi' : ℕ) (r : Run) → hi ≤ hi' → IsRun lo hi r → IsRun lo hi' r
IsRun-wider lo hi hi' none w h = tt
IsRun-wider lo hi hi' (some (s, e)) w h = (h.0, (h.1.0, omega arith))

length-zip : (xs ys : List ℕ) → length (zip xs ys) ≤ length xs
unfolding zip
length-zip [] ys = omega arith
length-zip (x ∷ xs) [] = omega arith
length-zip (x ∷ xs) (y ∷ ys) = omega (arith, length-zip xs ys)

module _ (fl : Floats) where
  run_on-IsRun : (lo i : ℕ) (r : Run) → lo ≤ i → IsRun lo i r → IsRun lo (suc i) (run_on fl i r)
  run_on-IsRun lo i none w h = (w, (omega arith, omega arith))
  run_on-IsRun lo i (some (s, e)) w h = ground arith

  best_on-IsRun :
      (lo i : ℕ) (b r : Run) → IsRun lo i b → IsRun lo i r → IsRun lo i (best_on fl i b r)
  best_on-IsRun lo i b none h k = longer-IsRun lo i b none h k
  best_on-IsRun lo i b (some (s, e)) h k = ground (arith, longer-IsRun lo i b (some (s, e)) h k)

  runs_loop-IsRun :
      (lo i : ℕ) (b r : Run) (ps : List (ℕ × ℕ))
      → lo ≤ i
      → IsRun lo i b
      → IsRun lo i r
      → IsRun lo (i + length ps) (runs_loop fl i b r ps)
  unfolding runs_loop
  runs_loop-IsRun lo i b r [] w h k =
      IsRun-wider lo i (i + 0) (longer b r) (omega arith) (longer-IsRun lo i b r h k)
  runs_loop-IsRun lo i b r ((x, y) ∷ ps) w h k =
      let n : suc i + length ps ≡ i + suc (length ps) = omega arith in
      elim (Bool-cases (ltb 6 (differing 32 x y))) [
        | inl e ↦ rw e (
            subst (λ m. IsRun lo m (runs_loop fl (suc i) b r ps)) n
              (runs_loop-IsRun lo (suc i) b r ps (omega arith)
                (IsRun-wider lo i (suc i) b (omega arith) h)
                (IsRun-wider lo i (suc i) r (omega arith) k)))
        | inr e ↦ rw e (
            subst (λ m. IsRun lo m (runs_loop fl (suc i) (best_on fl i b r) (run_on fl i r) ps)) n
              (runs_loop-IsRun lo (suc i) (best_on fl i b r) (run_on fl i r) ps (omega arith)
                (IsRun-wider lo i (suc i) (best_on fl i b r) (omega arith)
                  (best_on-IsRun lo i b r h k))
                (run_on-IsRun lo i r w k)))
      ]

  only_long-IsRun :
      (lo hi : ℕ) (m : fl.F) (r : Run) → IsRun lo hi r → IsRun lo hi (only_long fl m r)
  only_long-IsRun lo hi m none h = tt
  only_long-IsRun lo hi m (some (s, e)) h = elim (Bool-cases (fl.at_most m (seconds fl (e - s)))) [
    | inl t ↦ rw t h
    | inr t ↦ rw t tt
  ]

  -- Neither slice is out of range.
  cuts_there :
      (a b : List ℕ) (shift : ℤ)
      → low shift < high a b shift
      → (cut_from (shifted shift (low shift)) b ≡ some (drop (shifted shift (low shift)) b))
        × (cut (low shift) (high a b shift) a
            ≡ some (take (high a b shift - low shift) (drop (low shift) a)))
  unfolding cut cut_from
  cuts_there a b (pos n) h = (ground (arith, h), ground (arith, h))
  cuts_there a b (negsuc n) h = (ground (arith, h), ground (arith, h))

  contiguous-IsRun :
      (a b : List ℕ) (shift : ℤ) (m : fl.F)
      → Gives (IsRun (low shift) (high a b shift)) (contiguous fl a b shift m)
  unfolding contiguous
  contiguous-IsRun a b shift m = elim (Bool-cases (leb (high a b shift) (low shift))) [
    | inl e ↦ rw e (none, (refl, tt))
    | inr e ↦
        let (f, g) = cuts_there a b shift (ground (arith, e)) in
        let xs : List ℕ = take (high a b shift - low shift) (drop (low shift) a) in
        let ps : List (ℕ × ℕ) = zip xs (drop (shifted shift (low shift)) b) in
        rw (e, f, g)
          (
            only_long fl m (runs_loop fl (low shift) none none ps),
            (
              refl,
              only_long-IsRun (low shift) (high a b shift) m (runs_loop fl (low shift) none none ps)
                  (IsRun-wider (low shift) (low shift + length ps) (high a b shift)
                    (runs_loop fl (low shift) none none ps)
                    (ground (
                      arith,
                      e,
                      length-zip xs (drop (shifted shift (low shift)) b),
                      length-take (high a b shift - low shift) (drop (low shift) a),
                    ))
                    (runs_loop-IsRun (low shift) (low shift) none none ps (omega arith) tt tt)),
            ),
          )
  ]

  shifted-IsShared :
      (a b : List ℕ) (shift : ℤ) (s e : ℕ)
      → IsRun (low shift) (high a b shift) (some (s, e))
      → IsShared a b (record { a = (s, e); b = (shifted shift s, shifted shift e) })
  shifted-IsShared a b (pos n) s e h = record {
    a_order = omega arith;
    b_order = omega arith;
    a_end = omega arith;
    b_end = omega arith;
    same_length = omega arith;
  }
  shifted-IsShared a b (negsuc n) s e h = record {
    a_order = omega arith;
    b_order = omega arith;
    a_end = omega arith;
    b_end = omega arith;
    same_length = omega arith;
  }

  better-AllShared :
      (a b : List ℕ) (shift : ℤ) (r : Run) (best : Option Shared)
      → IsRun (low shift) (high a b shift) r
      → AllShared a b best
      → AllShared a b (better fl shift r best)
  better-AllShared a b shift none best h k = k
  better-AllShared a b shift (some (s, e)) best h k = elim (Bool-cases (is_longer fl (s, e) best)) [
    | inl t ↦ rw t (shifted-IsShared a b shift s e h)
    | inr t ↦ rw t k
  ]

  best_of-AllShared :
      (a b : List ℕ) (m : fl.F) (ss : List ℤ) (best : Option Shared)
      → AllShared a b best
      → Gives (AllShared a b) (best_of fl a b m ss best)
  unfolding best_of
  best_of-AllShared a b m [] best k = (best, (refl, k))
  best_of-AllShared a b m (s ∷ ss) best k =
      let (r, (e, run)) = contiguous-IsRun a b s m in
      rw e (best_of-AllShared a b m ss (better fl s r best) (better-AllShared a b s r best run k))

  pub longest_shared-AllShared :
      (a b : List ℕ) (m : fl.F) → Gives (AllShared a b) (longest_shared fl a b m)
  unfolding longest_shared
  longest_shared-AllShared a b m =
      best_of-AllShared a b m (all_shifts (inverted a) (inverted b)) none tt

  module _ (moves : 0 < block fl) where
    cut_within :
        (lo : ℕ) (xs : List ℕ)
        → lo + block fl ≤ length xs
        → cut lo (lo + block fl) xs ≡ some (take (lo + block fl - lo) (drop lo xs))
    unfolding cut
    cut_within lo xs h = ground (arith, h)

    -- What is looked at lies within both, and each round but the last passes over points.
    extend-available :
        (f available : ℕ) (a b : List ℕ) (s : Shared) (extended : ℕ)
        → s.a.1 + 1 + available ≤ length a
        → s.b.1 + 1 + available ≤ length b
        → extended ≤ available
        → available - extended < f
        → Gives (λ n. n ≤ available) (extend fl f available a b s extended)
    unfolding extend
    extend-available zero available a b s extended x y h k = absurd (omega (arith, k))
    extend-available (suc f) available a b s extended x y h k =
        elim (Bool-cases (ltb available (extended + block fl))) [
          | inl e ↦ rw e (extended, (refl, h))
          | inr e ↦
              let room : extended + block fl ≤ available = ground (arith, e) in
              let more =
                extend-available f available a b s (extended + block fl) x y room
                  (omega (arith, k, moves, room)) in
              let a_start : ℕ = s.a.1 + 1 + extended in
              let b_start : ℕ = s.b.1 + 1 + extended in
              rw
                (
                  e,
                  cut_within a_start a (omega (arith, x, room)),
                  cut_within b_start b (omega (arith, y, room)),
                )
                (one
                  (ltb (12 * block fl) (
                    difference fl (
                      zip (take (a_start + block fl - a_start) (drop a_start a))
                        (take (b_start + block fl - b_start) (drop b_start b)))))
                  more)
        ]
      where
        one :
            (t : Bool)
            → Gives (λ n. n ≤ available) (extend fl f available a b s (extended + block fl))
            → Gives
                (λ n. n ≤ available)
                (if t then some extended else extend fl f available a b s (extended + block fl))
        one true more = (extended, (refl, h))
        one false more = more

    pub refine_intro_tail-IsShared :
        (a b : List ℕ) (s : Shared)
        → IsShared a b s
        → Gives (IsShared a b) (refine_intro_tail fl a b s)
    unfolding refine_intro_tail behind
    refine_intro_tail-IsShared a b s h =
        let a_room : ltb s.a.1 (length a) ≡ true = ground (arith, h.a_end) in
        let b_room : ltb s.b.1 (length b) ≡ true = ground (arith, h.b_end) in
        let available : ℕ =
          min (min (length a - s.a.1 - 1) (length b - s.b.1 - 1)) (max_points fl) in
        let (n, (e, le)) =
          extend-available (suc available) available a b s 0 (omega (arith, h.a_end))
            (omega (arith, h.b_end)) (omega arith) (omega arith) in
        rw (a_room, b_room, e)
          (
            extended_by fl s n,
            (
              refl,
              record {
                a_order = omega (arith, h.a_order);
                b_order = omega (arith, h.b_order);
                a_end = omega (arith, h.a_end, le);
                b_end = omega (arith, h.b_end, le);
                same_length = omega (arith, h.same_length);
              },
            ),
          )
