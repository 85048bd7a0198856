-- ===== src/Subs/Plan/Offered.antt =====
-- What a session's renditions are.
use den_remux.Prelude.{
  ℕ, ◌≡◌, refl, ap, ◌∙◌, arith, Bool, true, false, not, ◌&&◌, ◌||◌, List, [], ◌∷◌, Option, none,
  some, ◌⊎◌, inl, inr, ltb, length, All, All-append, filter_map, Bool-cases, cons_some,
}
use den_remux.Text.{Text, same}
use den_remux.Subs.Plan.{
  SubtitleTrack, Entry, Rendition, found, is_some, contains, is_listed, rendition_if, rendition_of,
  max_languages, offers, fill,
}
use den_remux.Subs.Plan.Distinct.{IsUnique, IsDistinct, IsDistinct-snoc}
use den_remux.Subs.Plan.Own.{IsOwn, EachOwn, OwnIf, found-OwnIf}

module _ (tracks : List SubtitleTrack) (audio_lang : Option Text) (den : Bool)
    (den_list : List Entry) where
  -- A rendition has a track of the release, or was asked for and is in the list.
  abbrev pub Sourced : Text → Bool → Option ℕ → Type 0
  Sourced lang asked none = (asked ≡ true) × ((den ≡ true) × (is_listed lang den_list ≡ true))
  Sourced lang asked (some n) = IsOwn tracks audio_lang lang n × (asked ≡ true → den ≡ true)

  abbrev pub IsServable : Rendition → Type 0
  IsServable r = Sourced r.lang r.den r.own

  -- What the rendition of a language is, if there is one.
  IsOf : Text → Option Rendition → Type 0
  IsOf lang none = Unit
  IsOf lang (some r) = (r.lang ≡ lang) × IsServable r

  rendition_if-IsOf :
      (lang : Text) (asked : Bool) (o : Option ℕ)
      → Sourced lang asked o ⊎ (asked ≡ false)
      → OwnIf tracks audio_lang lang o
      → IsOf lang (rendition_if lang asked o)
  unfolding IsOf OwnIf
  rendition_if-IsOf lang true none (inl h) k = (refl, h)
  rendition_if-IsOf lang true none (inr h) k = cc h
  rendition_if-IsOf lang false none h k = tt
  rendition_if-IsOf lang true (some n) (inl h) k = (refl, h)
  rendition_if-IsOf lang true (some n) (inr h) k = cc h
  rendition_if-IsOf lang false (some n) h k = (refl, (k, λ e. cc e))

  asked-Sourced :
      (lang : Text) (o : Option ℕ)
      → OwnIf tracks audio_lang lang o
      → Sourced lang (den && (is_some o || is_listed lang den_list)) o
        ⊎ ((den && (is_some o || is_listed lang den_list)) ≡ false)
  unfolding OwnIf
  asked-Sourced lang o k = elim (Bool-cases (den && (is_some o || is_listed lang den_list))) [
    | inr e ↦ inr e
    | inl e ↦ inl (sourced lang o k e)
  ]
    where
      sourced :
          (lang : Text) (o : Option ℕ)
          → OwnIf tracks audio_lang lang o
          → (den && (is_some o || is_listed lang den_list)) ≡ true
          → Sourced lang (den && (is_some o || is_listed lang den_list)) o
      sourced lang none k e = (e, (ground (arith, e), ground (arith, e)))
      sourced lang (some n) k e = (k, λ f. ground (arith, f))

  rendition_of-IsOf :
      (own : List (Text × ℕ)) (lang : Text)
      → EachOwn tracks audio_lang own
      → IsOf lang (rendition_of own den den_list lang)
  unfolding rendition_of
  rendition_of-IsOf own lang h =
      let k = found-OwnIf tracks audio_lang lang own h in
      rendition_if-IsOf lang (den && (is_some (found lang own) || is_listed lang den_list))
        (found lang own) (asked-Sourced lang (found lang own) k) k

  module _ (own : List (Text × ℕ)) (each : EachOwn tracks audio_lang own) where
    abbrev pub renditions_of : List Text → List Rendition
    renditions_of ls = filter_map (rendition_of own den den_list) ls

    pub renditions_of-All : (ls : List Text) → All IsServable (renditions_of ls)
    unfolding filter_map IsOf
    renditions_of-All [] = tt
    renditions_of-All (l ∷ ls) =
        one (rendition_of own den den_list l) (rendition_of-IsOf own l each) (renditions_of-All ls)
      where
        one :
            (o : Option Rendition)
            → IsOf l o
            → All IsServable (renditions_of ls)
            → All IsServable (cons_some o (renditions_of ls))
        one none h rest = rest
        one (some r) h rest = (h.1, rest)

    offers-renditions_of :
        (x : Text) (ls : List Text) → contains x ls ≡ false → offers x (renditions_of ls) ≡ false
    unfolding filter_map IsOf contains offers
    offers-renditions_of x [] h = refl
    offers-renditions_of x (l ∷ ls) h =
        one (rendition_of own den den_list l) (rendition_of-IsOf own l each)
          (offers-renditions_of x ls (ground (arith, h))) h
      where
        one :
            (o : Option Rendition)
            → IsOf l o
            → offers x (renditions_of ls) ≡ false
            → (same l x || contains x ls) ≡ false
            → offers x (cons_some o (renditions_of ls)) ≡ false
        one none k rest h = rest
        one (some r) k rest h =
            let apart : same l x ≡ false = ground (arith, h) in
            let here : same r.lang x ≡ false = ap (λ t. same t x) k.0 ∙ apart in rw here rest

    pub renditions_of-IsDistinct : (ls : List Text) → IsUnique ls → IsDistinct (renditions_of ls)
    unfolding filter_map IsOf IsUnique IsDistinct
    renditions_of-IsDistinct [] u = tt
    renditions_of-IsDistinct (l ∷ ls) u =
        one (rendition_of own den den_list l) (rendition_of-IsOf own l each)
          (renditions_of-IsDistinct ls u.1) (offers-renditions_of l ls u.0)
      where
        one :
            (o : Option Rendition)
            → IsOf l o
            → IsDistinct (renditions_of ls)
            → offers l (renditions_of ls) ≡ false
            → IsDistinct (cons_some o (renditions_of ls))
        one none k rest h = rest
        one (some r) k rest h = (ap (λ t. offers t (renditions_of ls)) k.0 ∙ h, rest)

    pub fill-All :
        (os : List (Text × ℕ)) (out : List Rendition)
        → EachOwn tracks audio_lang os
        → All IsServable out
        → All IsServable (fill os out)
    unfolding fill
    fill-All [] out h k = k
    fill-All (o ∷ os) out h k =
        fill-All os _ h.1
          (elim (Bool-cases (ltb (length out) max_languages && not (offers o.0 out))) [
            | inl e ↦ rw e (
                All-append IsServable out (record { lang = o.0; den = false; own = some o.1 } ∷ [])
                  k ((h.0, λ f. cc f), tt))
            | inr e ↦ rw e k
          ])

    pub fill-IsDistinct :
        (os : List (Text × ℕ)) (out : List Rendition) → IsDistinct out → IsDistinct (fill os out)
    unfolding fill
    fill-IsDistinct [] out u = u
    fill-IsDistinct (o ∷ os) out u =
        fill-IsDistinct os _
          (elim (Bool-cases (ltb (length out) max_languages && not (offers o.0 out))) [
            | inl e ↦ rw e (
                IsDistinct-snoc (record { lang = o.0; den = false; own = some o.1 }) out
                  (ground (arith, e)) u)
            | inr e ↦ rw e u
          ])
