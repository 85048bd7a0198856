-- ===== src/Subs/Plan/Own.antt =====
-- The tracks of the release that `plan` notes: each is a text track in its language, or for `und` in none.
use den_remux.Prelude.{
  ℕ, suc, ◌+◌, ◌≡◌, refl, sym, ap, ◌∙◌, subst, arith, Bool, true, not, ◌&&◌, List, [], ◌∷◌, Option,
  none, some, ◌⊎◌, inl, inr, ltb, get_elem?, All, All-append, All-retain, retain, retain-All,
  Bool-cases,
}
use den_remux.Text.{Text, same}
use den_remux.Text.Same.{same_sound}
use den_remux.Lang.{canonical}
use mathlib.Core.Option
use den_remux.Subs.Plan.{
  SubtitleTrack, own_tier, in_context, enumerate, least, min_by_key, is_lang, is_dub, is_candidate,
  best_own, is_blank, is_undetermined, best_undetermined, undetermined, key_of, best_of, found,
  is_some, pushed, noted, own_loop,
}

least-All {κ} :
    (P : ℕ × SubtitleTrack → Type κ) (rank : SubtitleTrack → ℕ) (c : ℕ × SubtitleTrack)
    (cs : List (ℕ × SubtitleTrack))
    → P c
    → All P cs
    → P (least rank c cs)
unfolding least
least-All P rank c [] p h = p
least-All P rank c (d ∷ cs) p h = elim (Bool-cases (ltb (rank d.1) (rank c.1))) [
  | inl e ↦ rw e (least-All P rank d cs h.0 h.1)
  | inr e ↦ rw e (least-All P rank c cs p h.1)
]

module _ (tracks : List SubtitleTrack) (audio_lang : Option Text) where
  -- A text track of the release in a language, or in none for `und`; a forced one only where the audio is a dub in it.
  pub record IsOwn (lang : Text) (n : ℕ) : Type 0 where
    pub track : SubtitleTrack
    pub there : get_elem? tracks n ≡ some track
    pub is_text : track.text ≡ true
    pub spoken :
        (is_lang lang (Option.map canonical track.language) ≡ true)
        ⊎ ((lang ≡ undetermined) × (is_blank (Option.map canonical track.language) ≡ true))
    pub whole : track.forced ≡ true → is_dub lang audio_lang ≡ true

  abbrev IsThere : ℕ × SubtitleTrack → Type 0
  IsThere c = get_elem? tracks c.0 ≡ some c.1

  enumerate-IsThere :
      (i : ℕ) (ts : List SubtitleTrack)
      → ((n : ℕ) → get_elem? ts n ≡ get_elem? tracks (n + i))
      → All IsThere (enumerate i ts)
  unfolding enumerate
  enumerate-IsThere i [] h = tt
  enumerate-IsThere i (t ∷ ts) h = (
    ap (get_elem? tracks) (omega arith) ∙ sym (h 0),
    enumerate-IsThere (suc i) ts (λ n. h (suc n) ∙ ap (get_elem? tracks) (omega arith)),
  )

  each-IsThere : All IsThere (enumerate 0 tracks)
  each-IsThere = enumerate-IsThere 0 tracks (λ n. ap (get_elem? tracks) (omega arith))

  IsFound : (SubtitleTrack → Bool) → Option ℕ → Type 0
  IsFound p none = Unit
  IsFound p (some n) = (t : SubtitleTrack) × ((get_elem? tracks n ≡ some t) × (p t ≡ true))

  min_by_key-IsFound :
      (p : SubtitleTrack → Bool) (rank : SubtitleTrack → ℕ) (cs : List (ℕ × SubtitleTrack))
      → All IsThere cs
      → All (λ c. p c.1 ≡ true) cs
      → IsFound p (min_by_key rank cs)
  unfolding IsFound min_by_key
  min_by_key-IsFound p rank [] h k = tt
  min_by_key-IsFound p rank (c ∷ cs) h k = (
    (least rank c cs).1,
    (least-All IsThere rank c cs h.0 h.1, least-All (λ d. p d.1 ≡ true) rank c cs k.0 k.1),
  )

  best-IsFound :
      (p : SubtitleTrack → Bool) (rank : SubtitleTrack → ℕ)
      → IsFound p (min_by_key rank (retain (λ c. p c.1) (enumerate 0 tracks)))
  best-IsFound p rank =
      min_by_key-IsFound p rank (retain (λ c. p c.1) (enumerate 0 tracks))
        (All-retain IsThere (λ c. p c.1) (enumerate 0 tracks) each-IsThere)
        (retain-All (λ c. p c.1) (enumerate 0 tracks))

  unfoldable pub OwnIf : Text → Option ℕ → Type 0
  OwnIf lang none = Unit
  OwnIf lang (some n) = IsOwn lang n

  spoken_own :
      (lang : Text) (o : Option ℕ)
      → IsFound (is_candidate lang (is_dub lang audio_lang)) o
      → OwnIf lang o
  unfolding IsFound OwnIf
  spoken_own lang none b = tt
  spoken_own lang (some n) (t, (e, p)) = record {
    track = t;
    there = e;
    is_text = ground (arith, p);
    spoken = inl (ground (arith, p));
    whole = λ f. ground (arith, p, f);
  }

  unspoken_own : (o : Option ℕ) → IsFound is_undetermined o → OwnIf undetermined o
  unfolding IsFound OwnIf
  unspoken_own none b = tt
  unspoken_own (some n) (t, (e, p)) = record {
    track = t;
    there = e;
    is_text = ground (arith, p);
    spoken = inr (refl, ground (arith, p));
    whole = λ f. ground (arith, p, f);
  }

  best_of-OwnIf : (lang : Option Text) → OwnIf (key_of lang) (best_of tracks audio_lang lang)
  unfolding best_own best_undetermined
  best_of-OwnIf none = unspoken_own _ (best-IsFound is_undetermined own_tier)
  best_of-OwnIf (some []) = unspoken_own _ (best-IsFound is_undetermined own_tier)
  best_of-OwnIf (some (c ∷ s)) = spoken_own (c ∷ s) _ (
      best-IsFound (is_candidate (c ∷ s) (is_dub (c ∷ s) audio_lang))
        (λ t. in_context (own_tier t) (is_dub (c ∷ s) audio_lang)))

  abbrev pub EachOwn : List (Text × ℕ) → Type 0
  EachOwn own = All (λ o. IsOwn o.0 o.1) own

  pushed-EachOwn :
      (key : Text) (o : Option ℕ) (own : List (Text × ℕ))
      → OwnIf key o
      → EachOwn own
      → EachOwn (pushed key o own)
  unfolding OwnIf
  pushed-EachOwn key none own h k = k
  pushed-EachOwn key (some n) own h k =
      All-append (λ o. IsOwn o.0 o.1) own ((key, n) ∷ []) k (h, tt)

  pub own_loop-EachOwn :
      (ts : List SubtitleTrack) (own : List (Text × ℕ))
      → EachOwn own
      → EachOwn (own_loop tracks audio_lang ts own)
  unfolding own_loop
  own_loop-EachOwn [] own h = h
  own_loop-EachOwn (t ∷ ts) own h =
      let lang : Option Text = Option.map canonical t.language in
      own_loop-EachOwn ts (noted tracks audio_lang t own)
        (elim (Bool-cases (t.text && not (is_some (found (key_of lang) own)))) [
          | inl e ↦ rw e (
              pushed-EachOwn (key_of lang) (best_of tracks audio_lang lang) own (best_of-OwnIf lang)
                h)
          | inr e ↦ rw e h
        ])

  pub found-OwnIf :
      (lang : Text) (own : List (Text × ℕ)) → EachOwn own → OwnIf lang (found lang own)
  unfolding OwnIf found
  found-OwnIf lang [] h = tt
  found-OwnIf lang (o ∷ os) h = elim (Bool-cases (same o.0 lang)) [
    | inl e ↦ rw e (subst (λ l. IsOwn l o.1) (same_sound o.0 lang e) h.0)
    | inr e ↦ rw e (found-OwnIf lang os h.1)
  ]
