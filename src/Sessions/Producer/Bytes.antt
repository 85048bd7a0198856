-- ===== src/Sessions/Producer/Bytes.antt =====
-- That the bytes of a session, and those of all sessions in scratch, are counted as its GOPs come and go.
use den_remux.Prelude.{
  ℕ, ◌+◌, ◌-◌, ◌≡◌, refl, sym, ap, ◌∙◌, subst, arith, Bool, true, false, not, List, [], ◌∷◌, ◌++◌,
  Option, none, some, ◌>>=◌, >>=-eq-some, some-inj, min, length, get_elem?, if◌then◌else◌, retain,
  drop, Bool-cases, inl, inr,
}
use den_remux.Prelude.Floats.{Floats}
use den_remux.Playlist.{Segment}
use den_remux.Sessions.Gops.{Gop, snap, snap_secs}
use den_remux.Sessions.Producer.{
  Producer, Inner, gate, ensure_job, ahead_of, ahead_segments, resumed, spawned, ensured,
  producer_needed, job_heads_for, restart_point, refused, not_needed, needed, Needed,
}
use den_remux.Sessions.Producer.Scratch.{
  Disk, Taken, Entry, sizes, keeps, pruned, prune, sorted_in, sort, take_gop, take_gops, after_exit,
  exit_of, settled, refreshed, refresh, emptied, end,
}

module _ (fl : Floats) (segments : List (Segment fl)) (keyframes : List fl.F)
    (duration : fl.F) where
  -- `others` is what the other sessions have in scratch.
  pub record IsCounted (others : ℕ) (d : Disk fl) : Type 0 where
    pub own : d.inner.bytes ≡ sizes fl d.inner.gops
    pub all : d.scratch ≡ others + d.inner.bytes

  -- What a session does under its lock.
  pub data Step : Disk fl → Disk fl → Type 0 where
    refreshes :
        (d : Disk fl) (polled : Option Bool) (entries : List (Entry fl)) (writes : Bool)
        → Step d (refresh fl keyframes polled entries writes d)
    prunes : (d e : Disk fl) (n : ℕ) → prune fl segments n d ≡ some e → Step d e
    gates :
        (d : Disk fl) (i : Inner fl) (has_text over_cap free : Bool)
        → gate fl segments has_text over_cap free d.inner ≡ some i
        → Step d (record d { inner = i })
    ensures :
        (d : Disk fl) (i : Inner fl) (n : ℕ) (starts answer : Bool)
        → ensure_job fl segments keyframes duration d.inner n starts ≡ some (i, answer)
        → Step d (record d { inner = i })
    ends : (d : Disk fl) → Step d (end fl d).0

  -- A session that begins has no GOPs.
  pub data Reach (others : ℕ) : Disk fl → Type 0 where
    begins :
        (d : Disk fl) → d.inner.gops ≡ [] → d.inner.bytes ≡ 0 → d.scratch ≡ others → Reach others d
    goes_on : {d e : Disk fl} → Reach others d → Step d e → Reach others e

  sizes-append : (xs ys : List (Gop fl)) → sizes fl (xs ++ ys) ≡ sizes fl xs + sizes fl ys
  unfolding sizes
  sizes-append [] ys = omega arith
  sizes-append (x ∷ xs) ys = omega (arith, sizes-append xs ys)

  sizes-sorted_in :
      (x : Gop fl) (ys : List (Gop fl)) → sizes fl (sorted_in fl x ys) ≡ x.size + sizes fl ys
  unfolding sizes sorted_in
  sizes-sorted_in x [] = refl
  sizes-sorted_in x (y ∷ ys) = elim (Bool-cases (fl.in_order x.start y.start)) [
    | inl e ↦ rw e refl
    | inr e ↦ rw e (omega (arith, sizes-sorted_in x ys))
  ]

  sizes-sort : (xs : List (Gop fl)) → sizes fl (sort fl xs) ≡ sizes fl xs
  unfolding sizes sort
  sizes-sort [] = refl
  sizes-sort (x ∷ xs) = omega (arith, sizes-sorted_in x (sort fl xs), sizes-sort xs)

  sizes-retain :
      (p : Gop fl → Bool) (xs : List (Gop fl))
      → sizes fl (retain p xs) + sizes fl (retain (λ g. not (p g)) xs) ≡ sizes fl xs
  unfolding sizes retain
  sizes-retain p [] = omega arith
  sizes-retain p (x ∷ xs) = elim (Bool-cases (p x)) [
    | inl e ↦ rw e (omega (arith, sizes-retain p xs))
    | inr e ↦ rw e (omega (arith, sizes-retain p xs))
  ]

  module _ (others : ℕ) where
    pruned-IsCounted :
        (lo hi : fl.F) (d : Disk fl) → IsCounted others d → IsCounted others (pruned fl lo hi d)
    pruned-IsCounted lo hi d c =
        let split = sizes-retain (keeps fl lo hi d.inner.job) d.inner.gops in
        record { own = omega (arith, split, c.own); all = omega (arith, split, c.own, c.all) }

    prune-IsCounted :
        (d e : Disk fl) (n : ℕ)
        → prune fl segments n d ≡ some e
        → IsCounted others d
        → IsCounted others e
    unfolding prune
    prune-IsCounted d e n h c =
        let (a, f, g) = >>=-eq-some (get_elem? segments (n - 1)) _ h in
        let (b, k, l) =
          >>=-eq-some (get_elem? segments (min (n + ahead_segments + 1) (length segments - 1))) _
            g in
        subst (IsCounted others) (some-inj l)
          (pruned-IsCounted (fl.minus a.start (snap_secs fl)) (fl.plus b.end (snap_secs fl)) d c)

    take_gops-IsCounted :
        (writes : Bool) (t : Taken fl) (es : List (Entry fl))
        → IsCounted others t.disk
        → IsCounted others (take_gops fl keyframes writes t es).disk
    unfolding take_gops take_gop sizes
    take_gops-IsCounted writes t [] c = c
    take_gops-IsCounted writes t ((path, (dur, size)) ∷ es) c =
        let g : Gop fl = record {
          job = t.job.id;
          idx = t.job.read;
          start = snap fl keyframes t.job.next_start;
          dur = dur;
          path = path;
          size = size;
        } in
        take_gops-IsCounted writes (take_gop fl keyframes writes t (path, (dur, size))) es (record {
          own = omega (arith, c.own, sizes-append t.disk.inner.gops (g ∷ []));
          all = omega (arith, c.all);
        })

    -- What an exit changes is not counted.
    after_exit-bytes :
        (before polled : Option Bool) (j : Producer fl) (i : Inner fl)
        → ((after_exit fl before polled j i).bytes ≡ i.bytes)
          × ((after_exit fl before polled j i).gops ≡ i.gops)
    after_exit-bytes none none j i = (refl, refl)
    after_exit-bytes none (some true) j i = (refl, refl)
    after_exit-bytes none (some false) j i = (refl, refl)
    after_exit-bytes (some b) polled j i = (refl, refl)

    settled-IsCounted :
        (before polled : Option Bool) (t : Taken fl)
        → IsCounted others t.disk
        → IsCounted others (settled fl before polled t)
    settled-IsCounted before polled t c =
        let kept : Inner fl = record t.disk.inner {
          job = some t.job;
          gops = sort fl t.disk.inner.gops;
        } in
        let (b, g) = after_exit-bytes before polled t.job kept in
        record {
          own = b ∙ c.own ∙ sym (sizes-sort t.disk.inner.gops) ∙ ap (sizes fl) (sym g);
          all = c.all ∙ ap (λ n. others + n) (sym b);
        }

    refreshed-IsCounted :
        (polled : Option Bool) (entries : List (Entry fl)) (writes : Bool) (d : Disk fl)
        (o : Option (Producer fl))
        → IsCounted others d
        → IsCounted others (refreshed fl keyframes polled entries writes d o)
    refreshed-IsCounted polled entries writes d none c = c
    refreshed-IsCounted polled entries writes d (some j) c = settled-IsCounted j.exit polled _ (
        take_gops-IsCounted writes
          (record { job = record j { exit = exit_of fl j.exit polled }; disk = d })
          (drop j.read entries) c)

    abbrev SameBytes : Inner fl → Inner fl → Type 0
    SameBytes i k = (i.bytes ≡ k.bytes) × (i.gops ≡ k.gops)

    gate-SameBytes :
        (i k : Inner fl) (has_text over_cap free : Bool)
        → gate fl segments has_text over_cap free i ≡ some k
        → SameBytes i k
    unfolding gate
    gate-SameBytes i k has_text over_cap free h =
        let (a, f, g) =
          >>=-eq-some
            (get_elem? segments (min (i.want + ahead_of fl has_text) (length segments - 1))) _ h in
        let (w, m, l) = >>=-eq-some (get_elem? segments (min i.want (length segments - 1))) _ g in
        (ap (λ x. x.bytes) (some-inj l), ap (λ x. x.gops) (some-inj l))

    resumed-SameBytes : (i : Inner fl) (o : Option (Producer fl)) → SameBytes i (resumed fl i o)
    resumed-SameBytes i none = (refl, refl)
    resumed-SameBytes i (some j) = (refl, refl)

    spawned-SameBytes :
        (i : Inner fl) (starts : Bool) (at : fl.F) → SameBytes i (spawned fl i starts at).0
    spawned-SameBytes i true at = (refl, refl)
    spawned-SameBytes i false at = (refl, refl)

    abbrev KeepsBytes : Inner fl → Option (Inner fl × Bool) → Type 0
    KeepsBytes i none = Unit
    KeepsBytes i (some r) = SameBytes i r.0

    restarted-KeepsBytes :
        (i : Inner fl) (starts : Bool) (o : Option (fl.F × Option fl.F))
        → KeepsBytes i (o >>= λ at. some (spawned fl i starts at.0))
    restarted-KeepsBytes i starts none = tt
    restarted-KeepsBytes i starts (some at) = spawned-SameBytes i starts at.0

    headed-KeepsBytes :
        (i : Inner fl) (n : ℕ) (starts : Bool) (o : Option Bool)
        → KeepsBytes i (
            o >>= λ heads.
            if heads
            then some (resumed fl i i.job, true)
            else (restart_point fl keyframes duration segments n >>= λ at.
                some (spawned fl i starts at.0)))
    headed-KeepsBytes i n starts none = tt
    headed-KeepsBytes i n starts (some true) = resumed-SameBytes i i.job
    headed-KeepsBytes i n starts (some false) =
        restarted-KeepsBytes i starts (restart_point fl keyframes duration segments n)

    ensured-KeepsBytes :
        (i : Inner fl) (n : ℕ) (starts : Bool) (o : Option (Needed fl))
        → KeepsBytes i (o >>= ensured fl segments keyframes duration i n starts)
    ensured-KeepsBytes i n starts none = tt
    ensured-KeepsBytes i n starts (some refused) = (refl, refl)
    ensured-KeepsBytes i n starts (some not_needed) = (refl, refl)
    ensured-KeepsBytes i n starts (some needed) =
        headed-KeepsBytes i n starts (job_heads_for fl segments keyframes i n)

    carried :
        (d : Disk fl) (i : Inner fl)
        → SameBytes d.inner i
        → IsCounted others d
        → IsCounted others (record d { inner = i })
    carried d i (b, g) c = record {
      own = sym b ∙ c.own ∙ ap (sizes fl) g;
      all = c.all ∙ ap (λ n. others + n) b;
    }

    end-IsCounted : (d : Disk fl) → IsCounted others d → IsCounted others (end fl d).0
    unfolding end sizes
    end-IsCounted d c = one d.inner.ended
      where
        one :
            (b : Bool)
            → IsCounted others
                (if◌then◌else◌ {A = Disk fl × Bool} b (d, false) (emptied fl d, true)).0
        one true = c
        one false = record { own = refl; all = omega (arith, c.all) }

    Step-IsCounted : (d e : Disk fl) → IsCounted others d → Step d e → IsCounted others e
    unfolding refresh ensure_job
    Step-IsCounted d e c (refreshes _ polled entries writes) =
        refreshed-IsCounted polled entries writes d d.inner.job c
    Step-IsCounted d e c (ends _) = end-IsCounted d c
    Step-IsCounted d e c (prunes _ _ n h) = prune-IsCounted d e n h c
    Step-IsCounted d e c (gates _ i has_text over_cap free h) =
        carried d i (gate-SameBytes d.inner i has_text over_cap free h) c
    Step-IsCounted d e c (ensures _ i n starts answer h) =
        carried d i
          (subst (KeepsBytes d.inner) h
            (ensured-KeepsBytes d.inner n starts (producer_needed fl segments keyframes d.inner n)))
          c

    -- However a session reads what its producer wrote, prunes, pauses, starts and ends: its bytes
    -- are the sizes of its GOPs, and those of scratch are those of the other sessions and its own.
    -- So no subtraction goes below zero.
    pub Reach-IsCounted : (d : Disk fl) → Reach others d → IsCounted others d
    unfolding sizes
    Reach-IsCounted d (begins _ g b s) = record {
      own = b ∙ ap (sizes fl) (sym g);
      all = omega (arith, s, b);
    }
    Reach-IsCounted e (goes_on {d} r s) = Step-IsCounted d e (Reach-IsCounted d r) s
