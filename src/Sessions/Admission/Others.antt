-- ===== src/Sessions/Admission/Others.antt =====
-- What the end of one owner's sessions leaves of those of the others.
use den_remux.Prelude.{
  ◌≡◌, refl, ap, ◌∙◌, arith, Bool, true, false, not, List, [], ◌∷◌, All, All-map, All-retain,
  Bool-cases, inl, inr, retain,
}
use den_remux.Text.{Text}
use den_remux.Text.Same.{same_sound}
use den_remux.Sessions.Admission.{Live, is_owned, has_sid, remove, remove_all}
use den_remux.Sessions.Admission.Lists.{IsDistinct, Within, holds, self-Within}

retain_comm {ℓ} :
    {A : Type ℓ} (p q : A → Bool) (xs : List A) → retain p (retain q xs) ≡ retain q (retain p xs)
unfolding retain
retain_comm p q [] = refl
retain_comm p q (x ∷ xs) = elim (Bool-cases (p x)) [
  | inl e ↦ elim (Bool-cases (q x)) [
    | inl f ↦ rw (e, f, e) (ap (λ ys. x ∷ ys) (retain_comm p q xs))
    | inr f ↦ rw (e, f) (retain_comm p q xs)
  ]
  | inr e ↦ elim (Bool-cases (q x)) [
    | inl f ↦ rw (e, f, e) (retain_comm p q xs)
    | inr f ↦ rw (e, f) (retain_comm p q xs)
  ]
]

pub retain-remove_all :
    (p : Live → Bool) (es ls : List Live)
    → retain p (remove_all es ls) ≡ remove_all es (retain p ls)
unfolding remove_all remove
retain-remove_all p [] ls = refl
retain-remove_all p (e ∷ es) ls =
    retain-remove_all p es (remove e.sid ls)
    ∙ ap (remove_all es) (retain_comm p (λ l. not (has_sid e.sid l)) ls)

-- The session of an id is the only one of the map with that id.
abbrev pub IsOnly : List Live → Live → Type 0
IsOnly ls e = All (λ l. has_sid e.sid l ≡ true → l ≡ e) ls

none_holds : (e : Live) (ls : List Live) → holds e.sid ls ≡ false → IsOnly ls e
unfolding holds
none_holds e [] h = tt
none_holds e (l ∷ ls) h = (λ k. ground (arith, h, k), none_holds e ls (ground (arith, h)))

grown_IsOnly :
    (x : Live) (xs es : List Live)
    → holds x.sid xs ≡ false
    → Within xs es
    → All (IsOnly xs) es
    → All (IsOnly (x ∷ xs)) es
grown_IsOnly x xs [] h w o = tt
grown_IsOnly x xs (e ∷ es) h w o = (
  (λ k. clash (ap (λ t. holds t xs) (same_sound x.sid e.sid k) ∙ w.0), o.0),
  grown_IsOnly x xs es h w.1 o.1,
)
  where
    clash : holds x.sid xs ≡ true → x ≡ e
    clash k = cc (h, k)

pub self-IsOnly : (ls : List Live) → IsDistinct ls → All (IsOnly ls) ls
unfolding IsDistinct
self-IsOnly [] d = tt
self-IsOnly (x ∷ xs) d = (
  (λ k. refl, none_holds x xs d.0),
  grown_IsOnly x xs xs d.0 (self-Within xs) (self-IsOnly xs d.1),
)

-- Sessions that another owner has are not touched by the end of sessions that this one has.
others_kept_one :
    (owner : Text) (e : Live) (ls : List Live)
    → is_owned owner e ≡ true
    → IsOnly ls e
    → retain (λ l. not (is_owned owner l)) (remove e.sid ls)
      ≡ retain (λ l. not (is_owned owner l)) ls
unfolding remove retain
others_kept_one owner e [] h o = refl
others_kept_one owner e (l ∷ ls) h o = elim (Bool-cases (has_sid e.sid l)) [
  | inl k ↦
      let theirs : is_owned owner l ≡ true = ap (is_owned owner) (o.0 k) ∙ h in
      rw (k, theirs) (others_kept_one owner e ls h o.1)
  | inr k ↦ rw k (again (others_kept_one owner e ls h o.1))
]
  where
    again :
        retain (λ l. not (is_owned owner l)) (remove e.sid ls)
          ≡ retain (λ l. not (is_owned owner l)) ls
        → retain (λ l. not (is_owned owner l)) (l ∷ remove e.sid ls)
          ≡ retain (λ l. not (is_owned owner l)) (l ∷ ls)
    again ih = elim (Bool-cases (is_owned owner l)) [
      | inl f ↦ rw f ih
      | inr f ↦ rw f (ap (λ xs. l ∷ xs) ih)
    ]

pub others_kept :
    (owner : Text) (es ls : List Live)
    → All (λ e. is_owned owner e ≡ true) es
    → All (IsOnly ls) es
    → retain (λ l. not (is_owned owner l)) (remove_all es ls)
      ≡ retain (λ l. not (is_owned owner l)) ls
unfolding remove_all remove
others_kept owner [] ls h o = refl
others_kept owner (e ∷ es) ls h o =
    others_kept owner es (remove e.sid ls) h.1 (
      All-map
        (λ x k. All-retain (λ l. has_sid x.sid l ≡ true → l ≡ x) (λ l. not (has_sid e.sid l)) ls k)
        es o.1)
    ∙ others_kept_one owner e ls h.0 o.0
