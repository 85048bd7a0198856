-- ===== src/Prelude/Search.antt =====
-- Passes over a list that select: `filter_map`, `find_map`, `retain` and `find`.
use Prim.Native.Nat.{◌≤◌}
use mathlib.Core.Path.{◌≡◌, refl, ap, sym, ◌∙◌, subst}
use den_remux.Prelude.Results.{some-inj}
use mathlib.Core.List.{List, [], ◌∷◌, ◌++◌, map}
use mathlib.Core.Option.{Option, none, some}
use mathlib.Core.Bool.{Bool, true, false}
use mathlib.Core.Logic.{inl, inr}
use den_remux.Prelude.Tests.{if◌then◌else◌, Bool-cases}
use native.Mathlib.Omega.{arith}
use den_remux.Prelude.Lists.{length, All}

abbrev pub cons_some {ℓ} : {A : Type ℓ} → Option A → List A → List A
cons_some none xs = xs
cons_some (some x) xs = x ∷ xs

unfoldable pub filter_map {ℓ κ} : {A : Type ℓ} {B : Type κ} → (A → Option B) → List A → List B
filter_map f [] = []
filter_map f (x ∷ xs) = cons_some (f x) (filter_map f xs)

-- `or` of two options.
abbrev pub or_else {ℓ} : {A : Type ℓ} → Option A → Option A → Option A
or_else none other = other
or_else (some a) other = some a

-- The first `some`.
unfoldable pub find_map {ℓ κ} : {A : Type ℓ} {B : Type κ} → (A → Option B) → List A → Option B
find_map f [] = none
find_map f (x ∷ xs) = or_else (f x) (find_map f xs)

-- A pass over mapped values, where each gives what another test gives of the value itself.
module _ {ℓ κ μ} {A : Type ℓ} {B : Type κ} {C : Type μ} where
  pub filter_map-map :
      (f : B → Option C) (g : A → B) (h : A → Option C) (xs : List A)
      → All (λ x. f (g x) ≡ h x) xs
      → filter_map f (map g xs) ≡ filter_map h xs
  unfolding filter_map
  filter_map-map f g h [] e = refl
  filter_map-map f g h (x ∷ xs) e = rw (e.0, filter_map-map f g h xs e.1) refl

  pub find_map-map :
      (f : B → Option C) (g : A → B) (h : A → Option C) (xs : List A)
      → All (λ x. f (g x) ≡ h x) xs
      → find_map f (map g xs) ≡ find_map h xs
  unfolding find_map
  find_map-map f g h [] e = refl
  find_map-map f g h (x ∷ xs) e = rw (e.0, find_map-map f g h xs e.1) refl

pub filter_map-some {ℓ} : {A : Type ℓ} (xs : List A) → filter_map (λ (x : A). some x) xs ≡ xs
unfolding filter_map
filter_map-some [] = refl
filter_map-some (x ∷ xs) = ap (λ t. x ∷ t) (filter_map-some xs)

pub All-map {ℓ κ μ} :
    {A : Type ℓ} {P : A → Type κ} {Q : A → Type μ} (f : (x : A) → P x → Q x) (xs : List A)
    → All P xs
    → All Q xs
All-map f [] h = tt
All-map f (x ∷ xs) h = (f x h.0, All-map f xs h.1)

module _ {ℓ} {A : Type ℓ} where
  -- `retain(p)`
  unfoldable pub retain : (A → Bool) → List A → List A
  retain p [] = []
  retain p (x ∷ xs) = let rest = retain p xs in if p x then x ∷ rest else rest

  -- `iter().find(p)`
  unfoldable pub find : (A → Bool) → List A → Option A
  find p [] = none
  find p (x ∷ xs) = if p x then some x else find p xs

  pub length-retain : (p : A → Bool) (xs : List A) → length (retain p xs) ≤ length xs
  unfolding retain
  length-retain p [] = omega arith
  length-retain p (x ∷ xs) = ground (arith, length-retain p xs)

  pub All-retain {κ} :
      (P : A → Type κ) (p : A → Bool) (xs : List A) → All P xs → All P (retain p xs)
  unfolding retain
  All-retain P p [] h = tt
  All-retain P p (x ∷ xs) h = elim (Bool-cases (p x)) [
    | inl e ↦ rw e (h.0, All-retain P p xs h.1)
    | inr e ↦ rw e (All-retain P p xs h.1)
  ]

  pub retain-All : (p : A → Bool) (xs : List A) → All (λ x. p x ≡ true) (retain p xs)
  unfolding retain
  retain-All p [] = tt
  retain-All p (x ∷ xs) = elim (Bool-cases (p x)) [
    | inl e ↦ rw e (e, retain-All p xs)
    | inr e ↦ rw e (retain-All p xs)
  ]

  -- A search passes over what does not fit.
  pub find-append_none :
      (p : A → Bool) (xs ys : List A) → All (λ x. p x ≡ false) xs → find p (xs ++ ys) ≡ find p ys
  unfolding find
  find-append_none p [] ys h = refl
  find-append_none p (x ∷ xs) ys h = rw (h.0, find-append_none p xs ys h.1) refl

  pub find-retain-none :
      (p q : A → Bool) (xs : List A)
      → ((x : A) → p x ≡ true → q x ≡ false)
      → find p (retain q xs) ≡ none
  unfolding find retain
  find-retain-none p q [] h = refl
  find-retain-none p q (x ∷ xs) h = elim (Bool-cases (q x)) [
    | inr e ↦ rw e (find-retain-none p q xs h)
    | inl e ↦ elim (Bool-cases (p x)) [
      | inl f ↦ cc (h x f, e)
      | inr f ↦ rw (e, f) (find-retain-none p q xs h)
    ]
  ]

  -- A test that is kept whenever it is searched for is not lost.
  pub find-retain :
      (p q : A → Bool) (xs : List A)
      → ((x : A) → p x ≡ true → q x ≡ true)
      → find p (retain q xs) ≡ find p xs
  unfolding find retain
  find-retain p q [] h = refl
  find-retain p q (x ∷ xs) h = elim (Bool-cases (p x)) [
    | inl f ↦ rw (h x f, f) refl
    | inr f ↦ elim (Bool-cases (q x)) [
      | inl e ↦ rw (e, f) (find-retain p q xs h)
      | inr e ↦ rw (e, f) (find-retain p q xs h)
    ]
  ]

module _ {ℓ} {A : Type ℓ} where
  pub retain-append :
      (p : A → Bool) (xs ys : List A) → retain p (xs ++ ys) ≡ retain p xs ++ retain p ys
  unfolding retain
  retain-append p [] ys = refl
  retain-append p (x ∷ xs) ys = elim (Bool-cases (p x)) [
    | inl e ↦ rw e (ap (λ t. x ∷ t) (retain-append p xs ys))
    | inr e ↦ rw e (retain-append p xs ys)
  ]

  pub find-append_last :
      (p : A → Bool) (xs : List A) (y : A) → p y ≡ false → find p (xs ++ (y ∷ [])) ≡ find p xs
  unfolding find
  find-append_last p [] y h = rw h refl
  find-append_last p (x ∷ xs) y h = elim (Bool-cases (p x)) [
    | inl e ↦ rw e refl
    | inr e ↦ rw e (find-append_last p xs y h)
  ]

  pub All-false-retain :
      (p q : A → Bool) (xs : List A)
      → ((x : A) → q x ≡ true → p x ≡ false)
      → All (λ x. p x ≡ false) (retain q xs)
  All-false-retain p q xs h = All-map (λ x. h x) (retain q xs) (retain-All q xs)

  pub find-none : (p : A → Bool) (xs : List A) → All (λ x. p x ≡ false) xs → find p xs ≡ none
  unfolding find
  find-none p [] h = refl
  find-none p (x ∷ xs) h = rw h.0 (find-none p xs h.1)

  -- Two passes lose no more of what is searched for than the second alone.
  pub find-retain-retain :
      (p f k : A → Bool) (xs : List A)
      → ((x : A) → p x ≡ true → f x ≡ true → k x ≡ true)
      → find p (retain f (retain k xs)) ≡ find p (retain f xs)
  unfolding find retain
  find-retain-retain p f k [] h = refl
  find-retain-retain p f k (x ∷ xs) h = elim (Bool-cases (k x)) [
    | inl e ↦ elim (Bool-cases (f x)) [
      | inl g ↦ rw (e, g) (first_same (find-retain-retain p f k xs h))
      | inr g ↦ rw (e, g) (find-retain-retain p f k xs h)
    ]
    | inr e ↦ elim (Bool-cases (f x)) [
      | inr g ↦ rw (e, g) (find-retain-retain p f k xs h)
      | inl g ↦ elim (Bool-cases (p x)) [
        | inl q ↦ cc (h x q g, e)
        | inr q ↦ rw (e, g, q) (find-retain-retain p f k xs h)
      ]
    ]
  ]
    where
      first_same :
          {a b : Option A} → a ≡ b → (if p x then some x else a) ≡ (if p x then some x else b)
      first_same e = ap (λ t. if p x then some x else t) e

module _ {ℓ κ} {A : Type ℓ} (P : A → Type κ) (p : A → Bool) where
  -- What is found has what all have.
  pub find-All : (xs : List A) (a : A) → find p xs ≡ some a → All P xs → P a
  unfolding find
  find-All [] a e h = cc
  find-All (x ∷ xs) a e h = elim (Bool-cases (p x)) [
    | inl f ↦ subst P (some-inj (sym (here x xs f) ∙ e)) h.0
    | inr f ↦ find-All xs a (sym (there x xs f) ∙ e) h.1
  ]
    where
      here : (x : A) (xs : List A) → p x ≡ true → find p (x ∷ xs) ≡ some x
      here x xs f = rw f refl

      there : (x : A) (xs : List A) → p x ≡ false → find p (x ∷ xs) ≡ find p xs
      there x xs f = rw f refl
