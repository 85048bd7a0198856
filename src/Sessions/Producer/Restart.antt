-- ===== src/Sessions/Producer/Restart.antt =====
-- Where a producer restarts, and whose gives way.
use den_remux.Prelude.{
  ℕ, zero, suc, ◌≤◌, ◌<◌, ◌≡◌, refl, sym, ap, ◌∙◌, subst, arith, Bool, true, false, List, [], ◌∷◌,
  Option, none, some, inl, inr, leb, length, get_elem?, if◌then◌else◌, All, All-retain, retain,
  retain-All, Bool-cases, dec_le, some-inj, ◌⊎◌, find,
}
use den_remux.Text.{Text}
use den_remux.Prelude.Floats.{Floats}
use den_remux.Playlist.{Segment}
use den_remux.Sessions.Producer.{
  longest, longest_of, pick_reap_victim, min_seek_gap, next_keyframe, or_else, first_of, seek_for,
  restart_point,
}

-- A session that is idle for long enough, and none is idle longer.
pub record IsVictim (candidates : List (Text × ℕ)) (min_idle : ℕ) (sid : Text) : Type 0 where
  pub idle : ℕ
  pub place : ℕ
  pub one_of : get_elem? candidates place ≡ some (sid, idle)
  pub enough : min_idle ≤ idle
  pub most : All (λ c. c.1 ≤ idle) candidates

-- Where something of a part of a list stands in the list.
abbrev IsOneOf : List (Text × ℕ) → Text × ℕ → Type 0
IsOneOf cs c = (n : ℕ) × (get_elem? cs n ≡ some c)

one_more :
    (x : Text × ℕ) (xs ys : List (Text × ℕ)) → All (IsOneOf xs) ys → All (IsOneOf (x ∷ xs)) ys
one_more x xs [] h = tt
one_more x xs (y ∷ ys) h = ((suc h.0.0, h.0.1), one_more x xs ys h.1)

each_IsOneOf : (xs : List (Text × ℕ)) → All (IsOneOf xs) xs
each_IsOneOf [] = tt
each_IsOneOf (x ∷ xs) = ((0, refl), one_more x xs xs (each_IsOneOf xs))

longest-All {κ} :
    (P : Text × ℕ → Type κ) (c : Text × ℕ) (cs : List (Text × ℕ))
    → P c
    → All P cs
    → P (longest c cs)
unfolding longest
longest-All P c [] p h = p
longest-All P c (d ∷ cs) p h = elim (Bool-cases (leb c.1 d.1)) [
  | inl e ↦ rw e (longest-All P d cs h.0 h.1)
  | inr e ↦ rw e (longest-All P c cs p h.1)
]

longest_most :
    (c : Text × ℕ) (cs : List (Text × ℕ))
    → (c.1 ≤ (longest c cs).1) × All (λ d. d.1 ≤ (longest c cs).1) cs
unfolding longest
longest_most c [] = (omega arith, tt)
longest_most c (d ∷ cs) = elim (Bool-cases (leb c.1 d.1)) [
  | inl e ↦
      let (m, h) = longest_most d cs in
      let less : c.1 ≤ d.1 = ground (arith, e) in
      subst most (ap (λ t. longest (if t then d else c) cs) (sym e))
        (omega (arith, m, less), (m, h))
  | inr e ↦
      let (m, h) = longest_most c cs in
      let less : d.1 ≤ c.1 = ground (arith, e) in
      subst most (ap (λ t. longest (if t then d else c) cs) (sym e))
        (m, (omega (arith, m, less), h))
]
  where
    most : Text × ℕ → Type 0
    most best = (c.1 ≤ best.1) × ((d.1 ≤ best.1) × All (λ x. x.1 ≤ best.1) cs)

-- Who is not idle for long enough is idle for no longer than who is.
none_idles_longer :
    (min_idle most : ℕ) (cs : List (Text × ℕ))
    → min_idle ≤ most
    → All (λ c. c.1 ≤ most) (retain (λ c. leb min_idle c.1) cs)
    → All (λ c. c.1 ≤ most) cs
unfolding retain
none_idles_longer min_idle most [] l h = tt
none_idles_longer min_idle most (c ∷ cs) l h = elim (Bool-cases (leb min_idle c.1)) [
  | inl e ↦
      let kept =
        subst
          (λ b.
            All (λ d. d.1 ≤ most)
              (if b
                then c ∷ retain (λ d. leb min_idle d.1) cs
                else retain (λ d. leb min_idle d.1) cs))
          e h in
      (kept.0, none_idles_longer min_idle most cs l kept.1)
  | inr e ↦
      let kept =
        subst
          (λ b.
            All (λ d. d.1 ≤ most)
              (if b
                then c ∷ retain (λ d. leb min_idle d.1) cs
                else retain (λ d. leb min_idle d.1) cs))
          e h in
      (ground (arith, e, l), none_idles_longer min_idle most cs l kept)
]

abbrev pub Picks : List (Text × ℕ) → ℕ → Option Text → Type 0
Picks candidates min_idle none = All (λ c. c.1 < min_idle) candidates
Picks candidates min_idle (some sid) = IsVictim candidates min_idle sid

none_long :
    (min_idle : ℕ) (cs : List (Text × ℕ))
    → retain (λ c. leb min_idle c.1) cs ≡ []
    → All (λ c. c.1 < min_idle) cs
unfolding retain
none_long min_idle [] h = tt
none_long min_idle (c ∷ cs) h = elim (Bool-cases (leb min_idle c.1)) [
  | inl e ↦ cc (
      ap
        (λ b.
          if b then c ∷ retain (λ d. leb min_idle d.1) cs else retain (λ d. leb min_idle d.1) cs)
        (sym e)
      ∙ h)
  | inr e ↦ (
    ground (arith, e),
    none_long min_idle cs (
        ap
          (λ b.
            if b then c ∷ retain (λ d. leb min_idle d.1) cs else retain (λ d. leb min_idle d.1) cs)
          (sym e)
        ∙ h),
  )
]

longest_of-Picks :
    (candidates : List (Text × ℕ)) (min_idle : ℕ) (kept : List (Text × ℕ))
    → retain (λ c. leb min_idle c.1) candidates ≡ kept
    → All (IsOneOf candidates) kept
    → All (λ c. leb min_idle c.1 ≡ true) kept
    → Picks candidates min_idle (longest_of kept)
longest_of-Picks candidates min_idle [] e o h = none_long min_idle candidates e
longest_of-Picks candidates min_idle (c ∷ cs) e o h =
    let best : Text × ℕ = longest c cs in
    let (place, there) = longest-All (IsOneOf candidates) c cs o.0 o.1 in
    let long : leb min_idle best.1 ≡ true =
      longest-All (λ d. leb min_idle d.1 ≡ true) c cs h.0 h.1 in
    let enough : min_idle ≤ best.1 = ground (arith, long) in
    record {
      idle = best.1;
      place = place;
      one_of = there;
      enough = enough;
      most =
          none_idles_longer min_idle best.1 candidates enough
            (subst (λ k. All (λ d. d.1 ≤ best.1) k) (sym e) (longest_most c cs));
    }

-- The producer that gives way is that of a session among the candidates that is idle for long
-- enough, and none of them is idle longer; none gives way only if each is idle for less.
pub pick_reap_victim-Picks :
    (candidates : List (Text × ℕ)) (min_idle : ℕ)
    → Picks candidates min_idle (pick_reap_victim candidates min_idle)
unfolding pick_reap_victim
pick_reap_victim-Picks candidates min_idle =
    longest_of-Picks candidates min_idle (retain (λ c. leb min_idle c.1) candidates) refl
      (All-retain (IsOneOf candidates) (λ c. leb min_idle c.1) candidates (each_IsOneOf candidates))
      (retain-All (λ c. leb min_idle c.1) candidates)

-- What is found in a list is the first that passes, or none passes.
find-first {ℓ} :
    {A : Type ℓ} (p : A → Bool) (xs : List A)
    → ((x : A) × ((i : ℕ) × ((get_elem? xs i ≡ some x)
            × ((p x ≡ true)
                × ((find p xs ≡ some x)
                    × ((j : ℕ) (y : A) → j < i → get_elem? xs j ≡ some y → p y ≡ false))))))
      ⊎ ((find p xs ≡ none) × ((j : ℕ) (y : A) → get_elem? xs j ≡ some y → p y ≡ false))
unfolding find
find-first p [] = inr (refl, λ j y h. cc h)
find-first {A} p (x ∷ xs) = elim (Bool-cases (p x)) [
  | inl e ↦ inl (x, (0, (refl, (e, (rw e refl, λ j y l h. absurd (omega (arith, l)))))))
  | inr e ↦ elim (find-first p xs) [
    | inl (y, (i, (there, (passes, (found, before))))) ↦
        inl (y, (suc i, (there, (passes, (rw e found, one e i before)))))
    | inr (found, before) ↦ inr (rw e found, all e before)
  ]
]
  where
    one :
        p x ≡ false
        → (i : ℕ) → ((j : ℕ) (y : A) → j < i → get_elem? xs j ≡ some y → p y ≡ false)
        → (j : ℕ) (y : A) → j < suc i
        → get_elem? (x ∷ xs) j ≡ some y
        → p y ≡ false
    one e i before zero y l h = ap p (some-inj (sym h)) ∙ e
    one e i before (suc j) y l h = before j y (omega (arith, l)) h

    all :
        p x ≡ false
        → ((j : ℕ) (y : A) → get_elem? xs j ≡ some y → p y ≡ false)
        → (j : ℕ) (y : A) → get_elem? (x ∷ xs) j ≡ some y
        → p y ≡ false
    all e before zero y h = ap p (some-inj (sym h)) ∙ e
    all e before (suc j) y h = before j y h

module _ (fl : Floats) (keyframes : List fl.F) (duration : fl.F)
    (segments : List (Segment fl)) where
  -- The keyframe after a time, by more than a millionth of a second; after the last one it is the end of the film.
  pub data IsNext (start : fl.F) (k : fl.F) : Type 0 where
    keyframe :
        (i : ℕ)
        → get_elem? keyframes i ≡ some k
        → fl.less (fl.plus start (fl.literal 1 1000000)) k ≡ true
        → ((j : ℕ) (x : fl.F)
            → j < i
            → get_elem? keyframes j ≡ some x
            → fl.less (fl.plus start (fl.literal 1 1000000)) x ≡ false)
        → IsNext start k
    film_end :
        k ≡ duration
        → ((j : ℕ) (x : fl.F)
            → get_elem? keyframes j ≡ some x
            → fl.less (fl.plus start (fl.literal 1 1000000)) x ≡ false)
        → IsNext start k

  -- Whether the next keyframe is 0.15 seconds away.
  abbrev pub IsFar : Bool → Segment fl → Type 0
  IsFar far s =
      (k : fl.F) × (IsNext s.start k × (fl.at_most (fl.literal 15 100) (fl.minus k s.start) ≡ far))

  -- A seek goes 0.135 seconds past the keyframe; there is none to the start of the film.
  abbrev pub IsSeek : fl.F → Option fl.F → Type 0
  IsSeek start none = fl.less (fl.literal 0 1) start ≡ false
  IsSeek start (some at) =
      (fl.less (fl.literal 0 1) start ≡ true) × (at ≡ fl.plus start (fl.literal 135 1000))

  -- The first keyframe of the film, which is at nought where it has none.
  abbrev pub IsFirst : fl.F → Type 0
  IsFirst start =
      (get_elem? keyframes 0 ≡ some start) ⊎ ((keyframes ≡ []) × (start ≡ fl.literal 0 1))

  -- The last segment up to `n`, but for the first, whose keyframe a seek lands on; or the start of the film.
  pub data IsRestart (n : ℕ) (at : fl.F × Option fl.F) : Type 0 where
    seeks :
        (m : ℕ) (s : Segment fl)
        → 0 < m
        → m ≤ n
        → get_elem? segments m ≡ some s
        → IsFar true s
        → (at.0 ≡ s.start) × IsSeek s.start at.1
        → ((k : ℕ) (r : Segment fl) → m < k → k ≤ n → get_elem? segments k ≡ some r → IsFar false r)
        → IsRestart n at
    begins :
        IsFirst at.0 × (at.1 ≡ none)
        → ((k : ℕ) (r : Segment fl) → 0 < k → k ≤ n → get_elem? segments k ≡ some r → IsFar false r)
        → IsRestart n at

  keeps_gap : Segment fl → Bool
  keeps_gap s =
      fl.at_most (min_seek_gap fl) (fl.minus (next_keyframe fl keyframes duration s.start) s.start)

  seek_for-IsSeek : (start : fl.F) → IsSeek start (seek_for fl start)
  unfolding seek_for
  seek_for-IsSeek start = one (fl.less (fl.literal 0 1) start) refl
    where
      one :
          (b : Bool)
          → fl.less (fl.literal 0 1) start ≡ b
          → IsSeek start (if b then some (fl.plus start (fl.literal 135 1000)) else none)
      one true e = (e, refl)
      one false e = e

  first_of-IsFirst : (ks : List fl.F) → ks ≡ keyframes → IsFirst (first_of fl ks)
  first_of-IsFirst [] e = inr (sym e, refl)
  first_of-IsFirst (k ∷ ks) e = inl (ap (λ xs. get_elem? xs 0) (sym e))

  next_keyframe-IsNext : (start : fl.F) → IsNext start (next_keyframe fl keyframes duration start)
  next_keyframe-IsNext start =
      let p = λ (x : fl.F). fl.less (fl.plus start (fl.literal 1 1000000)) x in
      elim (find-first p keyframes) [
        | inl (y, (i, (there, (passes, (found, before))))) ↦
            subst (IsNext start) (sym (ap (or_else fl duration) found))
              (keyframe i there passes before)
        | inr (found, before) ↦
            subst (IsNext start) (sym (ap (or_else fl duration) found)) (film_end refl before)
      ]

  keeps_gap-IsFar : (far : Bool) (s : Segment fl) → keeps_gap s ≡ far → IsFar far s
  unfolding keeps_gap
  keeps_gap-IsFar far s e =
      (next_keyframe fl keyframes duration s.start, (next_keyframe-IsNext s.start, e))

  there_is :
      (ss : List (Segment fl)) (n : ℕ)
      → n < length ss
      → (s : Segment fl) × (get_elem? ss n ≡ some s)
  there_is [] n h = absurd (omega (arith, h))
  there_is (s ∷ ss) zero h = (s, refl)
  there_is (s ∷ ss) (suc n) h = there_is ss n (omega (arith, h))

  later_IsRestart :
      (n : ℕ) (at : fl.F × Option fl.F) (s : Segment fl)
      → get_elem? segments (suc n) ≡ some s
      → IsFar false s
      → IsRestart n at
      → IsRestart (suc n) at
  later_IsRestart n at s e f (seeks m r p l g x a h) =
      seeks m r p (omega (arith, l)) g x a (further n at s e f m h)
    where
      further :
          (n : ℕ) (at : fl.F × Option fl.F) (s : Segment fl)
          → get_elem? segments (suc n) ≡ some s
          → IsFar false s
          → (m : ℕ)
          → ((k : ℕ) (r : Segment fl)
              → m < k
              → k ≤ n
              → get_elem? segments k ≡ some r
              → IsFar false r)
          → (k : ℕ) (r : Segment fl) → m < k
          → k ≤ suc n
          → get_elem? segments k ≡ some r
          → IsFar false r
      further n at s e f m h k r a b c = elim (dec_le k n) [
        | yes d ↦ h k r a d c
        | no d ↦
            let same_k : k ≡ suc n = omega (arith, b, d) in
            let same_r : r ≡ s = some-inj (sym c ∙ ap (get_elem? segments) same_k ∙ e) in
            subst (IsFar false) (sym same_r) f
      ]
  later_IsRestart n at s e f (begins a h) = begins a (λ k r p b c. elim (dec_le k n) [
    | yes d ↦ h k r p d c
    | no d ↦
        let same_k : k ≡ suc n = omega (arith, b, d) in
        let same_r : r ≡ s = some-inj (sym c ∙ ap (get_elem? segments) same_k ∙ e) in
        subst (IsFar false) (sym same_r) f
  ])

  -- A producer for a segment of the playlist restarts at the last segment up to it, but for the
  -- first one, whose keyframe is at least 0.15 seconds before the next keyframe or the end of the
  -- film, with a seek 0.135 seconds past it if it is after zero; or at the first keyframe of the
  -- film, without a seek.
  pub restart_point-IsRestart :
      (n : ℕ)
      → n < length segments
      → (at : fl.F × Option fl.F) × ((restart_point fl keyframes duration segments n ≡ some at)
          × IsRestart n at)
  unfolding restart_point keeps_gap
  restart_point-IsRestart zero h = (
    _,
    (
      refl,
      begins (first_of-IsFirst keyframes refl, refl) (λ k r a b c. absurd (omega (arith, a, b))),
    ),
  )
  restart_point-IsRestart (suc n) h =
      let (at, (e, r)) = restart_point-IsRestart n (omega (arith, h)) in
      let (s, f) = there_is segments (suc n) h in
      elim (Bool-cases (keeps_gap s)) [
        | inl g ↦ (
          (s.start, seek_for fl s.start),
          (
            rw (f, g) refl,
            seeks (suc n) s (omega arith) (omega arith) f (keeps_gap-IsFar true s g)
                (refl, seek_for-IsSeek s.start) (λ k q a b c. absurd (omega (arith, a, b))),
          ),
        )
        | inr g ↦ (at, (rw (f, g) e, later_IsRestart n at s f (keeps_gap-IsFar false s g) r))
      ]
