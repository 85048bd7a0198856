-- ===== src/Sessions/Gops/Chain.antt =====
-- What a segment is served from.
use den_remux.Prelude.{
  ℕ, zero, suc, ◌+◌, ◌≤◌, ◌<◌, ◌≡◌, refl, sym, ap, ◌∙◌, arith, Bool, true, false, List, [], ◌∷◌,
  ◌++◌, append_assoc, append-nil, Option, none, some, length, get_elem?, if◌then◌else◌, Bool-cases,
  inl, inr, ◌⊎◌, All, and_left, and_right, ◌==◌,
}
use den_remux.Prelude.Floats.{Floats}
use den_remux.Playlist.{Segment}
use den_remux.Sessions.Gops.{
  contains, is_last, Gop, position, is_next, is_later, Walk, complete, broken, stuck, covers,
  ends_film, followed, walk, starts_elsewhere, or_next, candidates, ready_chain,
}

-- A number stands in a list.
abbrev pub IsListed : ℕ → List ℕ → Type 0
IsListed n ns = (i : ℕ) × (get_elem? ns i ≡ some n)

same_number : (m n : ℕ) → m ≡ n → ◌≡◌ {A = Option ℕ} (some m) (some n)
same_number m n e = ap some e

contains-IsListed : (n : ℕ) (ns : List ℕ) → contains n ns ≡ true → IsListed n ns
unfolding contains
contains-IsListed n [] h = cc h
contains-IsListed n (m ∷ ms) h = elim (Bool-cases (m == n)) [
  | inl e ↦ (0, same_number m n (ground (arith, e)))
  | inr e ↦ let (i, k) = contains-IsListed n ms (ground (arith, h, e)) in (suc i, k)
]

module _ (fl : Floats) (gops : List (Gop fl)) (finished : List ℕ) (seg : Segment fl) where
  -- From a GOP, by positions, through its job's next ones: to the end of the segment, or to the last GOP of a job that
  -- ran to the end of the film.
  abbrev pub EndsFilm : Gop fl → Type 0
  EndsFilm cur =
      IsListed cur.job finished
      × ((fl.less (fl.minus seg.end cur.start) (fl.literal 1000000000 1) ≡ true)
          × All (λ o. o.job ≡ cur.job → o.idx ≤ cur.idx) gops)

  -- `SNAP` is a twentieth of a second.
  abbrev pub IsRun : Gop fl → List ℕ → Type 0
  IsRun cur [] =
      (fl.at_most (fl.minus seg.end (fl.literal 5 100)) (fl.plus cur.start cur.dur) ≡ true)
      ⊎ EndsFilm cur
  IsRun cur (j ∷ js) =
      (g : Gop fl) × ((get_elem? gops j ≡ some g)
        × ((g.job ≡ cur.job) × ((g.idx ≡ suc cur.idx) × IsRun g js)))

  pub record IsServed (first : Bool) (chain : List ℕ) : Type 0 where
    pub at : ℕ
    pub head : Gop fl
    pub tail : List ℕ
    pub listed : chain ≡ at ∷ tail
    pub found : get_elem? gops at ≡ some head
    pub begins :
        (fl.at_most (fl.literal 5 100) (fl.magnitude (fl.minus head.start seg.start)) ≡ false)
        ⊎ ((first ≡ true) × (fl.less head.start seg.end ≡ true))
    pub run : IsRun head tail

  -- A position that was found.
  record IsAt (p : Gop fl → Bool) (i : ℕ) (gs : List (Gop fl)) (j : ℕ) (g : Gop fl) : Type 0 where
    steps : ℕ
    place : j ≡ steps + i
    there : get_elem? gs steps ≡ some g
    passes : p g ≡ true

  position-IsAt :
      (p : Gop fl → Bool) (i : ℕ) (gs : List (Gop fl)) (j : ℕ) (g : Gop fl)
      → position fl p i gs ≡ some (j, g)
      → IsAt p i gs j g
  unfolding position
  position-IsAt p i [] j g h = cc h
  position-IsAt p i (x ∷ xs) j g h = elim (Bool-cases (p x)) [
    | inl e ↦ here e (ap (λ b. if b then some (i, x) else position fl p (i + 1) xs) (sym e) ∙ h)
    | inr e ↦
        let r =
          position-IsAt p (i + 1) xs j g
            (ap (λ b. if b then some (i, x) else position fl p (i + 1) xs) (sym e) ∙ h) in
        record {
          steps = suc r.steps;
          place = omega (arith, r.place);
          there = r.there;
          passes = r.passes;
        }
  ]
    where
      here :
          p x ≡ true
          → ◌≡◌ {A = Option (ℕ × Gop fl)} (some (i, x)) (some (j, g))
          → IsAt p i (x ∷ xs) j g
      here e k =
          let found : i ≡ j = cc k in
          record { steps = 0; place = omega (arith, found); there = cc k; passes = cc (e, k) }

  -- How many GOPs of its job come after one.
  unfoldable later : Gop fl → List (Gop fl) → ℕ
  later cur [] = 0
  later cur (o ∷ os) = (if is_later fl cur o then 1 else 0) + later cur os

  later-le-length : (cur : Gop fl) (gs : List (Gop fl)) → later cur gs ≤ length gs
  unfolding later
  later-le-length cur [] = omega arith
  later-le-length cur (o ∷ os) = ground (arith, later-le-length cur os)

  later_le :
      (cur g : Gop fl) (gs : List (Gop fl))
      → g.job ≡ cur.job
      → g.idx ≡ suc cur.idx
      → later g gs ≤ later cur gs
  unfolding later
  later_le cur g [] e f = omega arith
  later_le cur g (o ∷ os) e f = ground (arith, later_le cur g os e f)

  later_less :
      (cur g : Gop fl) (gs : List (Gop fl)) (n : ℕ)
      → g.job ≡ cur.job
      → g.idx ≡ suc cur.idx
      → get_elem? gs n ≡ some g
      → later g gs < later cur gs
  unfolding later
  later_less cur g [] n e f h = cc h
  later_less cur g (o ∷ os) zero e f h =
      let job : o.job ≡ g.job = cc h in
      let idx : o.idx ≡ g.idx = cc h in ground (arith, later_le cur g os e f, job, idx)
  later_less cur g (o ∷ os) (suc n) e f h = ground (arith, later_less cur g os n e f h)

  abbrev Follows : List ℕ → Gop fl → Walk fl → Type 0
  Follows chain cur (complete out) = (js : List ℕ) × ((out ≡ chain ++ js) × IsRun cur js)
  Follows chain cur broken = Unit
  Follows chain cur stuck = ⊥

  is_last-All :
      (cur : Gop fl) (gs : List (Gop fl))
      → is_last fl gs cur ≡ true
      → All (λ o. o.job ≡ cur.job → o.idx ≤ cur.idx) gs
  unfolding is_last
  is_last-All cur [] h = tt
  is_last-All cur (o ∷ os) h = (λ e. ground (arith, h, e), is_last-All cur os (ground (arith, h)))

  ends_film-EndsFilm : (cur : Gop fl) → ends_film fl gops finished seg cur ≡ true → EndsFilm cur
  ends_film-EndsFilm cur h =
      let rest = and_right (contains cur.job finished) _ h in
      (
        contains-IsListed cur.job finished (and_left (contains cur.job finished) _ h),
        (
          and_left (fl.less (fl.minus seg.end cur.start) (fl.literal 1000000000 1)) _ rest,
          is_last-All cur gops
              (and_right (fl.less (fl.minus seg.end cur.start) (fl.literal 1000000000 1)) _ rest),
        ),
      )

  begins_there :
      (first : Bool) (g : Gop fl)
      → starts_elsewhere fl seg first g ≡ false
      → (fl.at_most (fl.literal 5 100) (fl.magnitude (fl.minus g.start seg.start)) ≡ false)
        ⊎ ((first ≡ true) × (fl.less g.start seg.end ≡ true))
  begins_there first g h =
      elim (Bool-cases
        (fl.at_most (fl.literal 5 100) (fl.magnitude (fl.minus g.start seg.start)))) [
          | inr e ↦ inl e
          | inl e ↦ inr (ground (arith, h, e), ground (arith, h, e))
        ]

  followed-Follows :
      (next : List ℕ → Gop fl → Walk fl) (chain : List ℕ) (cur : Gop fl) (ends : Bool)
      (o : Option (ℕ × Gop fl))
      → ends ≡ ends_film fl gops finished seg cur
      → ((j : ℕ) (g : Gop fl)
          → o ≡ some (j, g)
          → (g.job ≡ cur.job)
            × ((g.idx ≡ suc cur.idx)
                × ((get_elem? gops j ≡ some g)
                    × Follows (chain ++ (j ∷ [])) g (next (chain ++ (j ∷ [])) g))))
      → Follows chain cur (followed fl next chain ends o)
  followed-Follows next chain cur true none e h =
      ([], (sym (append-nil chain), inr (ends_film-EndsFilm cur (sym e))))
  followed-Follows next chain cur false none e h = tt
  followed-Follows next chain cur ends (some (j, g)) e h =
      let (job, (idx, (there, rest))) = h j g refl in
      further (next (chain ++ (j ∷ [])) g) rest job idx there
    where
      further :
          (w : Walk fl)
          → Follows (chain ++ (j ∷ [])) g w
          → g.job ≡ cur.job
          → g.idx ≡ suc cur.idx
          → get_elem? gops j ≡ some g
          → Follows chain cur w
      further (complete out) (js, (f, run)) job idx there =
          (j ∷ js, (f ∙ append_assoc chain (j ∷ []) js, (g, (there, (job, (idx, run))))))
      further broken f job idx there = tt
      further stuck f job idx there = f

  walk-Follows :
      (f : ℕ) (chain : List ℕ) (cur : Gop fl)
      → later cur gops < f
      → Follows chain cur (walk fl f gops finished seg chain cur)
  unfolding walk
  walk-Follows zero chain cur h = omega (arith, h)
  walk-Follows (suc f) chain cur h = elim (Bool-cases (covers fl seg cur)) [
    | inl e ↦ rw e ([], (sym (append-nil chain), inl e))
    | inr e ↦ rw e (
        followed-Follows (λ js g. walk fl f gops finished seg js g) chain cur
          (ends_film fl gops finished seg cur) (position fl (is_next fl cur) 0 gops) refl
          (λ j g k.
            let r = position-IsAt (is_next fl cur) 0 gops j g k in
            let job : g.job ≡ cur.job = ground (arith, r.passes) in
            let idx : g.idx ≡ suc cur.idx = ground (arith, r.passes) in
            let place : j ≡ r.steps = omega (arith, r.place) in
            let there : get_elem? gops j ≡ some g = ap (get_elem? gops) place ∙ r.there in
            (
              job,
              (
                idx,
                (
                  there,
                  walk-Follows f (chain ++ (j ∷ [])) g
                      (omega (arith, h, later_less cur g gops j job idx there)),
                ),
              ),
            )))
  ]

  abbrev pub Serves : Bool → Walk fl → Type 0
  Serves first (complete chain) = IsServed first chain
  Serves first broken = Unit
  Serves first stuck = ⊥

  candidates-Serves :
      (first : Bool) (i : ℕ) (gs : List (Gop fl))
      → ((n : ℕ) → get_elem? gs n ≡ get_elem? gops (n + i))
      → Serves first (candidates fl gops finished seg first i gs)
  unfolding candidates
  candidates-Serves first i [] h = tt
  candidates-Serves first i (g ∷ gs) h =
      let rest =
        candidates-Serves first (i + 1) gs (λ n. h (suc n) ∙ ap (get_elem? gops) (omega arith)) in
      elim (Bool-cases (starts_elsewhere fl seg first g)) [
        | inl e ↦ rw e rest
        | inr e ↦ rw e (
            one (walk fl (suc (length gops)) gops finished seg (i ∷ []) g)
              (candidates fl gops finished seg first (i + 1) gs)
              (walk-Follows (suc (length gops)) (i ∷ []) g (omega (arith, later-le-length g gops)))
              rest e)
      ]
    where
      one :
          (w r : Walk fl)
          → Follows (i ∷ []) g w
          → Serves first r
          → starts_elsewhere fl seg first g ≡ false
          → Serves first (or_next fl w r)
      one (complete out) r (js, (f, run)) k e = record {
        at = i;
        head = g;
        tail = js;
        listed = f;
        found = ap (get_elem? gops) (omega arith) ∙ sym (h 0);
        begins = begins_there first g e;
        run = run;
      }
      one broken r f k e = k
      one stuck r f k e = f

  -- The walk for a segment ends, and what it serves is GOPs of one producer, each the next of the
  -- one before. The first begins within a twentieth of a second of the segment, or for the first
  -- segment anywhere before its end; the last reaches the end of the segment less a twentieth of a
  -- second, or is of a producer that finished, with no later GOP of it, for a segment that ends
  -- within 10^9 seconds.
  pub ready_chain-Serves : (first : Bool) → Serves first (ready_chain fl gops finished seg first)
  unfolding ready_chain
  ready_chain-Serves first = candidates-Serves first 0 gops (λ n. ap (get_elem? gops) (omega arith))
