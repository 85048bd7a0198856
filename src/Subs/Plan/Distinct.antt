-- ===== src/Subs/Plan/Distinct.antt =====
-- Languages and renditions without a repetition.
use den_remux.Prelude.{
  ℕ, zero, suc, ◌≡◌, refl, sym, ap, ◌∙◌, arith, false, ◌||◌, List, [], ◌∷◌, ◌++◌, append-nil,
  append_assoc, Option, inl, inr, take, Bool-cases,
}
use den_remux.Text.{Text, codes}
use den_remux.Text.Same.{same_comm}
use den_remux.Subs.Plan.{
  Rendition, contains, prefer, prefer_all, listed, first_of, preferred_of, offers,
}

-- Lists without a repetition.
unfoldable pub IsUnique : List Text → Type 0
IsUnique [] = Unit
IsUnique (t ∷ ts) = (contains t ts ≡ false) × IsUnique ts

unfoldable pub IsDistinct : List Rendition → Type 0
IsDistinct [] = Unit
IsDistinct (r ∷ rs) = (offers r.lang rs ≡ false) × IsDistinct rs

pub contains-append :
    (t : Text) (xs ys : List Text) → contains t (xs ++ ys) ≡ (contains t xs || contains t ys)
unfolding contains
contains-append t [] ys = refl
contains-append t (x ∷ xs) ys = ground (arith, contains-append t xs ys)

pub IsUnique-snoc :
    (t : Text) (xs : List Text) → contains t xs ≡ false → IsUnique xs → IsUnique (xs ++ (t ∷ []))
unfolding IsUnique contains
IsUnique-snoc t [] h u = (refl, tt)
IsUnique-snoc t (x ∷ xs) h u = (
  contains-append x xs (t ∷ []) ∙ ground (arith, h, u.0, same_comm t x),
  IsUnique-snoc t xs (ground (arith, h)) u.1,
)

pub prefer-IsUnique : (ps : List Text) (l : Text) → IsUnique ps → IsUnique (prefer ps l)
unfolding prefer
prefer-IsUnique ps l u = elim (Bool-cases (contains l ps)) [
  | inl e ↦ rw e u
  | inr e ↦ rw e (IsUnique-snoc l ps e u)
]

pub prefer_all-IsUnique : (ps ls : List Text) → IsUnique ps → IsUnique (prefer_all ps ls)
unfolding prefer_all
prefer_all-IsUnique ps [] u = u
prefer_all-IsUnique ps (l ∷ ls) u = prefer_all-IsUnique (prefer ps l) ls (prefer-IsUnique ps l u)

pub preferred_of-IsUnique :
    (requested : List Text) (audio_lang : Option Text)
    → IsUnique (preferred_of requested audio_lang)
unfolding preferred_of IsUnique
preferred_of-IsUnique requested audio_lang = prefer_all-IsUnique _ (listed audio_lang) (
    prefer_all-IsUnique _ requested (
      prefer-IsUnique (prefer_all [] (first_of requested)) (codes "en")
        (prefer_all-IsUnique [] (first_of requested) tt)))

-- What is preferred stays where it is.
pub prefer-grows : (ps : List Text) (l : Text) → (more : List Text) × (prefer ps l ≡ ps ++ more)
unfolding prefer
prefer-grows ps l = elim (Bool-cases (contains l ps)) [
  | inl e ↦ rw e ([], sym (append-nil ps))
  | inr e ↦ rw e (l ∷ [], refl)
]

pub prefer_all-grows : (ps ls : List Text) → (more : List Text) × (prefer_all ps ls ≡ ps ++ more)
unfolding prefer_all
prefer_all-grows ps [] = ([], sym (append-nil ps))
prefer_all-grows ps (l ∷ ls) =
    let (a, e) = prefer-grows ps l in
    let (b, f) = prefer_all-grows (prefer ps l) ls in
    (a ++ b, f ∙ ap (λ t. t ++ b) e ∙ append_assoc ps a b)

pub offers-append :
    (l : Text) (xs ys : List Rendition) → offers l (xs ++ ys) ≡ (offers l xs || offers l ys)
unfolding offers
offers-append l [] ys = refl
offers-append l (x ∷ xs) ys = ground (arith, offers-append l xs ys)

pub IsDistinct-snoc :
    (r : Rendition) (xs : List Rendition)
    → offers r.lang xs ≡ false
    → IsDistinct xs
    → IsDistinct (xs ++ (r ∷ []))
unfolding IsDistinct offers
IsDistinct-snoc r [] h u = (refl, tt)
IsDistinct-snoc r (x ∷ xs) h u = (
  offers-append x.lang xs (r ∷ []) ∙ ground (arith, h, u.0, same_comm r.lang x.lang),
  IsDistinct-snoc r xs (ground (arith, h)) u.1,
)

pub offers-take :
    (n : ℕ) (l : Text) (xs : List Rendition) → offers l xs ≡ false → offers l (take n xs) ≡ false
unfolding offers
offers-take zero l xs h = refl
offers-take (suc n) l [] h = refl
offers-take (suc n) l (x ∷ xs) h = ground (arith, offers-take n l xs)

pub IsDistinct-take : (n : ℕ) (xs : List Rendition) → IsDistinct xs → IsDistinct (take n xs)
unfolding IsDistinct
IsDistinct-take zero xs u = tt
IsDistinct-take (suc n) [] u = tt
IsDistinct-take (suc n) (x ∷ xs) u = (offers-take n x.lang xs u.0, IsDistinct-take n xs u.1)
