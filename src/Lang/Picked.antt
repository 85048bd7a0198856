-- ===== src/Lang/Picked.antt =====
-- What `pick_audio` picks.
use den_remux.Prelude.{ℕ, suc, ◌≡◌, ◌⊎◌, refl, sym, ap, ◌∙◌, subst, arith, Bool, true, false, not}
use den_remux.Prelude.{
  List, [], ◌∷◌, ◌++◌, Option, none, some, some-inj, length, length-append, append_assoc, get_elem?,
  get_elem?-append, if◌then◌else◌, retain, All, All-retain, retain-All, All-map, Bool-cases,
  Option-cases, inl, inr,
}
use den_remux.Text.{Text}
use den_remux.Text.Same.{same_sound}
use den_remux.Lang.{
  AudioTrack, AudioReason, explicit, preferred, by_default, first, canonical, enumerate, usable,
  key_less, least, min_by_key, is_in, best_in, fallback, pick_audio,
}

-- A track of the release that is no commentary.
abbrev pub IsUsable : List AudioTrack → ℕ × AudioTrack → Type 0
IsUsable tracks c = (get_elem? tracks c.0 ≡ some c.1) × (c.1.commentary ≡ false)

abbrev pub IsPicked : List AudioTrack → ℕ × AudioReason → Type 0
IsPicked tracks (i, explicit) = ⊥
IsPicked tracks (i, preferred want) =
    (t : AudioTrack) × (l : Text) × (IsUsable tracks (i, t)
      × ((t.language ≡ some l) × (canonical l ≡ want)))
IsPicked tracks (i, by_default) = (t : AudioTrack) × (IsUsable tracks (i, t) × (t.default ≡ true))
IsPicked tracks (i, first) =
    ((t : AudioTrack) × (IsUsable tracks (i, t) × All (λ c. c.1.default ≡ false) (usable tracks)))
    ⊎ ((i ≡ 0) × (usable tracks ≡ []))

enumerate-get :
    (pre ts : List AudioTrack)
    → All (λ c. get_elem? (pre ++ ts) c.0 ≡ some c.1) (enumerate (length pre) ts)
unfolding enumerate
enumerate-get pre [] = tt
enumerate-get pre (t ∷ ts) = (
  get_elem?-append pre ts t,
  subst (λ l. All (λ c. get_elem? l c.0 ≡ some c.1) (enumerate (suc (length pre)) ts))
      (append_assoc pre (t ∷ []) ts)
      (subst (λ n. All (λ c. get_elem? ((pre ++ (t ∷ [])) ++ ts) c.0 ≡ some c.1) (enumerate n ts))
        {x = length (pre ++ (t ∷ []))} {y = suc (length pre)}
        (omega (arith, length-append pre (t ∷ []))) (enumerate-get (pre ++ (t ∷ [])) ts)),
)

All-both {ℓ κ μ} :
    {A : Type ℓ} (P : A → Type κ) (Q : A → Type μ) (xs : List A)
    → All P xs
    → All Q xs
    → All (λ x. P x × Q x) xs
All-both P Q [] h k = tt
All-both P Q (x ∷ xs) h k = ((h.0, k.0), All-both P Q xs h.1 k.1)

usable-IsUsable : (tracks : List AudioTrack) → All (IsUsable tracks) (usable tracks)
unfolding usable
usable-IsUsable tracks =
    All-both (λ c. get_elem? tracks c.0 ≡ some c.1) (λ c. c.1.commentary ≡ false)
      (retain (λ c. not c.1.commentary) (enumerate 0 tracks))
      (All-retain (λ c. get_elem? tracks c.0 ≡ some c.1) (λ c. not c.1.commentary)
        (enumerate 0 tracks) (enumerate-get [] tracks))
      (All-map {P = λ c. not c.1.commentary ≡ true} {Q = λ c. c.1.commentary ≡ false}
        (λ c h. not_true c.1.commentary h) _
        (retain-All (λ c. not c.1.commentary) (enumerate 0 tracks)))
  where
    not_true : (b : Bool) → not b ≡ true → b ≡ false
    not_true b h = ground arith

-- The least has what all have.
least-All :
    (P : ℕ × AudioTrack → Type 0) (best : ℕ × AudioTrack) (cs : List (ℕ × AudioTrack))
    → P best
    → All P cs
    → P (least best cs)
unfolding least
least-All P best [] h k = h
least-All P best (c ∷ cs) h k =
    least-All P (if key_less c best then c else best) cs (either (key_less c best)) k.1
  where
    either : (b : Bool) → P (if b then c else best)
    either true = k.0
    either false = h

min_by_key-All :
    (P : ℕ × AudioTrack → Type 0) (cs : List (ℕ × AudioTrack)) (c : ℕ × AudioTrack)
    → All P cs
    → min_by_key cs ≡ some c
    → P c
unfolding min_by_key
min_by_key-All P [] c h e = cc
min_by_key-All P (x ∷ cs) c h e = subst P (some-inj e) (least-All P x cs h.0 h.1)

least-pick :
    (best c : ℕ × AudioTrack) (cs : List (ℕ × AudioTrack))
    → key_less c best ≡ true
    → least best (c ∷ cs) ≡ least c cs
unfolding least
least-pick best c cs e = rw (e, least) refl

least-stay :
    (best c : ℕ × AudioTrack) (cs : List (ℕ × AudioTrack))
    → key_less c best ≡ false
    → least best (c ∷ cs) ≡ least best cs
unfolding least
least-stay best c cs e = rw (e, least) refl

-- A default track before another stays ahead of it.
least-keeps :
    (best : ℕ × AudioTrack) (cs : List (ℕ × AudioTrack))
    → best.1.default ≡ true
    → (least best cs).1.default ≡ true
least-keeps best [] h = unfold least in h
least-keeps best (c ∷ cs) h = elim (Bool-cases (key_less c best)) [
  | inl e ↦ rw (least-pick best c cs e) (least-keeps c cs (ahead c best e h))
  | inr e ↦ rw (least-stay best c cs e) (least-keeps best cs h)
]
  where
    ahead : (c b : ℕ × AudioTrack) → key_less c b ≡ true → b.1.default ≡ true → c.1.default ≡ true
    ahead c b e h = ground arith

false_of : (b : Bool) → (b ≡ true → ⊥) → b ≡ false
false_of true h = absurd (h refl)
false_of false h = refl

no_default :
    (c b : ℕ × AudioTrack) → key_less c b ≡ false → b.1.default ≡ false → c.1.default ≡ false
no_default c b e h = ground arith

least-none :
    (best : ℕ × AudioTrack) (cs : List (ℕ × AudioTrack))
    → (least best cs).1.default ≡ false
    → All (λ c. c.1.default ≡ false) (best ∷ cs)
least-none best [] h = (unfold least in h, tt)
least-none best (c ∷ cs) h =
    let own : best.1.default ≡ false =
      false_of best.1.default (λ e. cc (least-keeps best (c ∷ cs) e, h)) in
    elim (Bool-cases (key_less c best)) [
      | inl e ↦ (own, least-none c cs (ap (λ b. b.1.default) (sym (least-pick best c cs e)) ∙ h))
      | inr e ↦ (
        own,
        (
          no_default c best e own,
          (least-none best cs (ap (λ b. b.1.default) (sym (least-stay best c cs e)) ∙ h)).1,
        ),
      )
    ]

fallback-IsPicked :
    (tracks : List AudioTrack) (cs : List (ℕ × AudioTrack))
    → usable tracks ≡ cs
    → IsPicked tracks (fallback (min_by_key cs))
fallback-IsPicked tracks [] e = unfold min_by_key in inr (refl, e)
fallback-IsPicked tracks (c ∷ cs) e =
    let u : IsUsable tracks (least c cs) =
      least-All (IsUsable tracks) c cs (subst (All (IsUsable tracks)) e (usable-IsUsable tracks)).0
        (subst (All (IsUsable tracks)) e (usable-IsUsable tracks)).1 in
    unfold min_by_key in
    (elim (Bool-cases (least c cs).1.default) [
      | inl d ↦ rw d ((least c cs).1, (u, d))
      | inr d ↦ rw d (
          inl (
            (least c cs).1,
            (u, subst (All (λ c. c.1.default ≡ false)) (sym e) (least-none c cs d)),
          ))
    ])

is_in_sound :
    (want : Text) (o : Option Text)
    → is_in want o ≡ true
    → (l : Text) × ((o ≡ some l) × (canonical l ≡ want))
is_in_sound want none h = cc
is_in_sound want (some l) h = (l, (refl, same_sound (canonical l) want h))

abbrev IsIn : Text → ℕ × AudioTrack → Type 0
IsIn want c = is_in want c.1.language ≡ true

best_in_sound :
    (tracks : List AudioTrack) (want : Text) (c : ℕ × AudioTrack)
    → best_in tracks want ≡ some c
    → IsUsable tracks c × IsIn want c
unfolding best_in
best_in_sound tracks want c e =
    min_by_key-All (λ c. IsUsable tracks c × IsIn want c)
      (retain (λ c. is_in want c.1.language) (usable tracks)) c
      (All-both (IsUsable tracks) (IsIn want) _
        (All-retain (IsUsable tracks) (λ c. is_in want c.1.language) (usable tracks)
          (usable-IsUsable tracks))
        (retain-All (λ c. is_in want c.1.language) (usable tracks)))
      e

pick-next :
    (tracks : List AudioTrack) (p : Text) (prefs : List Text)
    → best_in tracks (canonical p) ≡ none
    → pick_audio tracks (p ∷ prefs) ≡ pick_audio tracks prefs
unfolding pick_audio
pick-next tracks p prefs e = rw (e, pick_audio) refl

pick-here :
    (tracks : List AudioTrack) (p : Text) (prefs : List Text) (c : ℕ × AudioTrack)
    → best_in tracks (canonical p) ≡ some c
    → pick_audio tracks (p ∷ prefs) ≡ (c.0, preferred (canonical p))
unfolding pick_audio
pick-here tracks p prefs c e = rw (e, pick_audio) refl

-- The audio track that is picked is one of the release and no commentary, for each reason: for a
-- preferred language it is in that language; by default it is flagged so; as the first, no usable
-- track is flagged, or there is no usable track and the index is 0.
pub pick_audio-IsPicked :
    (tracks : List AudioTrack) (prefs : List Text) → IsPicked tracks (pick_audio tracks prefs)
pick_audio-IsPicked tracks [] = unfold pick_audio in fallback-IsPicked tracks (usable tracks) refl
pick_audio-IsPicked tracks (p ∷ prefs) =
    let rest : IsPicked tracks (pick_audio tracks prefs) = pick_audio-IsPicked tracks prefs in
    elim (Option-cases (best_in tracks (canonical p))) [
      | inl e ↦ subst (IsPicked tracks) (sym (pick-next tracks p prefs e)) rest
      | inr (c, e) ↦
          let (u, l) = best_in_sound tracks (canonical p) c e in
          let (lang, s) = is_in_sound (canonical p) c.1.language l in
          subst (IsPicked tracks) (sym (pick-here tracks p prefs c e)) (c.1, lang, (u, s))
    ]
