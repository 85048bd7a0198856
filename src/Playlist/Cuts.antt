-- ===== src/Playlist/Cuts.antt =====
-- What the segments of a playlist are, wherever it is started.
use den_remux.Prelude.{
  ◌≡◌, ◌≢◌, refl, Bool, true, false, not, ◌&&◌, List, [], ◌∷◌, ◌++◌, map, Option, none, some, All,
  All-append, All-retain, Bool-cases, retain, inl, inr, if◌then◌else◌,
}
use den_remux.Prelude.Floats.{Floats}
use den_remux.Playlist.{
  Segment, nought, tolerance, next_target, outside, cuts_loop, end_of, spans, segments, before,
  is_near, first_frame_of_zero, opening_loop, within, opening, sorted_in, sort, dedup_after, dedup,
  split_window, backed_up, segments_for_start,
}

module _ (fl : Floats) where
  open fl use {F}

  -- Each segment ends where the next one starts, and the last one at the end.
  abbrev pub Chained : F → List (Segment fl) → Type 0
  Chained duration [] = Unit
  Chained duration (s ∷ ss) =
      (s.end ≡ end_of fl duration (map (λ r. r.start) ss)) × Chained duration ss

  -- What a plan of segments is, where `P` says of a time that it may be cut there.
  pub record IsPlan (P : F → Type 0) (duration : F) (ss : List (Segment fl)) : Type 0 where
    pub not_empty : ss ≢ []
    pub chained : Chained duration ss
    pub cut : All (λ s. P s.start) ss

  starts-spans : (duration : F) (cs : List F) → map (λ s. s.start) (spans fl duration cs) ≡ cs
  unfolding spans
  starts-spans duration [] = refl
  starts-spans duration (c ∷ cs) = rw (starts-spans duration cs) refl

  spans-Chained : (duration : F) (cs : List F) → Chained duration (spans fl duration cs)
  unfolding spans
  spans-Chained duration [] = tt
  spans-Chained duration (c ∷ cs) = (rw (starts-spans duration cs) refl, spans-Chained duration cs)

  module _ (P : F → Type 0) where
    spans-All :
        (duration : F) (cs : List F) → All P cs → All (λ s. P s.start) (spans fl duration cs)
    unfolding spans
    spans-All duration [] h = tt
    spans-All duration (c ∷ cs) h = (h.0, spans-All duration cs h.1)

    starts-All : (ss : List (Segment fl)) → All (λ s. P s.start) ss → All P (map (λ s. s.start) ss)
    starts-All [] h = tt
    starts-All (s ∷ ss) h = (h.0, starts-All ss h.1)

    spans-IsPlan :
        (duration c : F) (cs : List F)
        → P c
        → All P cs
        → IsPlan P duration (spans fl duration (c ∷ cs))
    unfolding spans
    spans-IsPlan duration c cs p h = record {
      not_empty = λ e. cc e;
      chained = spans-Chained duration (c ∷ cs);
      cut = (p, spans-All duration cs h);
    }

    kept_if : (b : Bool) (xs ys : List F) → All P xs → All P ys → All P (if b then xs else ys)
    kept_if true xs ys h k = h
    kept_if false xs ys h k = k

    cuts_loop-All :
        (ks : List F) (duration target next : F)
        → All P ks
        → All P (cuts_loop fl ks duration target next)
    unfolding cuts_loop
    cuts_loop-All [] duration target next h = tt
    cuts_loop-All (k ∷ ks) duration target next h =
        kept_if (outside fl duration k) _ _ (cuts_loop-All ks duration target next h.1) (
          kept_if (fl.at_most next (fl.plus k (tolerance fl))) _ _
            (h.0, cuts_loop-All ks duration target (next_target fl k target) h.1)
            (cuts_loop-All ks duration target next h.1))

    opening_loop-All :
        (ks : List F) (window : Segment fl) (earlier start : F)
        → All P ks
        → All P (opening_loop fl ks window earlier start)
    unfolding opening_loop
    opening_loop-All [] window earlier start h = tt
    opening_loop-All (k ∷ ks) window earlier start h =
        let behind =
          kept_if
            (fl.less (fl.plus start (tolerance fl)) k
              && not (first_frame_of_zero fl window earlier k))
            [] (opening_loop fl ks window earlier start) tt
            (opening_loop-All ks window earlier start h.1) in
        kept_if
          (fl.at_most earlier (fl.plus k (tolerance fl))
            && not (first_frame_of_zero fl window earlier k))
          _ _ (h.0, behind) behind

    sorted_in-All : (x : F) (ys : List F) → P x → All P ys → All P (sorted_in fl x ys)
    unfolding sorted_in
    sorted_in-All x [] p h = (p, tt)
    sorted_in-All x (y ∷ ys) p h =
        kept_if (fl.in_order x y) _ _ (p, h) (h.0, sorted_in-All x ys p h.1)

    sort-All : (xs : List F) → All P xs → All P (sort fl xs)
    unfolding sort
    sort-All [] h = tt
    sort-All (x ∷ xs) h = sorted_in-All x (sort fl xs) h.0 (sort-All xs h.1)

    dedup_after-All : (last : F) (xs : List F) → All P xs → All P (dedup_after fl last xs)
    unfolding dedup_after
    dedup_after-All last [] h = tt
    dedup_after-All last (x ∷ xs) h =
        kept_if (is_near fl x last) _ _ (dedup_after-All last xs h.1)
          (h.0, dedup_after-All x xs h.1)

    -- The cuts of a split window, of which there is at least one.
    cleaned-IsPlan :
        (duration : F) (xs : List F)
        → xs ≢ []
        → All P xs
        → IsPlan P duration (spans fl duration (dedup fl xs))
    unfolding dedup
    cleaned-IsPlan duration [] n h = absurd (n refl)
    cleaned-IsPlan duration (x ∷ xs) n h =
        spans-IsPlan duration x (dedup_after fl x xs) h.0 (dedup_after-All x xs h.1)

    sorted_in-ne-nil : (x : F) (ys : List F) → sorted_in fl x ys ≢ []
    unfolding sorted_in
    sorted_in-ne-nil x [] = λ e. cc e
    sorted_in-ne-nil x (y ∷ ys) = elim (Bool-cases (fl.in_order x y)) [
      | inl e ↦ rw e (λ k. cc k)
      | inr e ↦ rw e (λ k. cc k)
    ]

    sort-ne-nil : (x : F) (xs ys : List F) → sort fl ((x ∷ xs) ++ ys) ≢ []
    unfolding sort
    sort-ne-nil x xs ys = sorted_in-ne-nil x (sort fl (xs ++ ys))

    split_window-IsPlan :
        (ks : List F) (c : F) (cs : List F) (duration point start : F) (o : Option (Segment fl))
        → All P ks
        → P c
        → All P cs
        → IsPlan P duration (split_window fl ks (spans fl duration (c ∷ cs)) duration point start o)
    unfolding split_window opening spans
    split_window-IsPlan ks c cs duration point start none h p q = spans-IsPlan duration c cs p q
    split_window-IsPlan ks c cs duration point start (some w) h p q =
        let extra : List F = opening fl ks w point start in
        let starts : List F = map (λ s. s.start) (spans fl duration cs) in
        cleaned-IsPlan duration (sort fl ((c ∷ starts) ++ extra)) (sort-ne-nil c starts extra) (
          sort-All ((c ∷ starts) ++ extra) (
            p,
            All-append P starts extra (starts-All (spans fl duration cs) (spans-All duration cs q))
                (opening_loop-All (retain (within fl w) ks) w (before fl ks w point) start
                  (All-retain P (within fl w) ks h)),
          ))

    -- A playlist of segments is never empty, each of its segments ends where the next one starts and
    -- the last one at the duration, and each starts at 0 or at a keyframe: whatever holds of these
    -- holds of every start. It is so wherever the player opens it and whatever arithmetic the
    -- floating-point numbers have.
    pub segments_for_start-IsPlan :
        (keyframes : List F) (duration target start : F)
        → P (nought fl)
        → All P keyframes
        → IsPlan P duration (segments_for_start fl keyframes duration target start)
    unfolding segments_for_start segments
    segments_for_start-IsPlan keyframes duration target start p h =
        split_window-IsPlan keyframes (nought fl) (cuts_loop fl keyframes duration target target)
          duration (backed_up fl start duration) start _ h p
          (cuts_loop-All keyframes duration target target h)
