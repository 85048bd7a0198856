-- ===== src/Config/Origins.antt =====
-- What the configured origins are, and which addresses they move.
use den_remux.Prelude.{
  ◌≡◌, ◌⊎◌, inl, inr, refl, sym, ap, ◌∙◌, subst, arith, Bool, true, false, List, [], ◌∷◌, ◌++◌, All,
  Option, none, some, some-inj, if◌then◌else◌, filter_map, Option-cases,
}
use den_remux.Text.{Text, strip_prefix}
use den_remux.Config.{
  split_scheme, is_origin, normal, origin_of, entries, parse_origins, ends_origin, moved, local,
}

if_some {ℓ} :
    {A : Type ℓ} (c : Bool) (a b : A) → (if c then some a else none) ≡ some b → (c ≡ true) × (a ≡ b)
if_some true a b h = (refl, some-inj h)
if_some false a b h = cc

All-filter_map {ℓ κ μ} :
    {A : Type ℓ} {B : Type κ} (P : B → Type μ) (f : A → Option B) (xs : List A)
    → ((a : A) (b : B) → f a ≡ some b → P b)
    → All P (filter_map f xs)
unfolding filter_map
All-filter_map P f [] h = tt
All-filter_map P f (x ∷ xs) h = elim (Option-cases (f x)) [
  | inl e ↦ rw e (All-filter_map P f xs h)
  | inr (b, e) ↦ rw e (h x b e, All-filter_map P f xs h)
]

pub parse_origins_origins :
    (raw : Text) → All (λ o. is_origin (split_scheme o) ≡ true) (parse_origins raw)
unfolding parse_origins
parse_origins_origins raw =
    All-filter_map (λ o. is_origin (split_scheme o) ≡ true) origin_of (entries raw)
      (λ s o e. origin s o e)
  where
    origin : (s o : Text) → origin_of s ≡ some o → is_origin (split_scheme o) ≡ true
    origin s o e =
        let (t, p) = if_some (is_origin (split_scheme (normal s))) (normal s) o e in
        subst (λ n. is_origin (split_scheme n) ≡ true) p t

-- Where an address may go: it stays, or its origin is moved and the rest is kept.
unfoldable pub IsMoved : Text → List (Text × Text) → Text → Type 0
IsMoved url [] there = there ≡ url
IsMoved url ((public_side, lan) ∷ aliases) there =
    ((rest : Text) × ((url ≡ public_side ++ rest)
        × ((ends_origin rest ≡ true) × (there ≡ lan ++ rest))))
    ⊎ IsMoved url aliases there

strip_prefix_sound : (p s r : Text) → strip_prefix p s ≡ some r → s ≡ p ++ r
unfolding strip_prefix
strip_prefix_sound [] s r h = some-inj h
strip_prefix_sound (c ∷ p) [] r h = cc
strip_prefix_sound (c ∷ p) (d ∷ s) r h = ground (arith, strip_prefix_sound p s r)

moved_sound :
    (public_side lan url there : Text)
    → moved lan (strip_prefix public_side url) ≡ some there
    → (rest : Text) × ((url ≡ public_side ++ rest)
        × ((ends_origin rest ≡ true) × (there ≡ lan ++ rest)))
moved_sound public_side lan url there h = elim (Option-cases (strip_prefix public_side url)) [
  | inl e ↦ cc (h, e)
  | inr (rest, e) ↦
      let (t, p) = if_some (ends_origin rest) (lan ++ rest) there (ap (moved lan) (sym e) ∙ h) in
      (rest, (strip_prefix_sound public_side url rest e, (t, sym p)))
]

local_here :
    (url public_side lan there : Text) (aliases : List (Text × Text))
    → moved lan (strip_prefix public_side url) ≡ some there
    → local url ((public_side, lan) ∷ aliases) ≡ there
unfolding local
local_here url public_side lan there aliases e = rw (e, local) refl

local_next :
    (url public_side lan : Text) (aliases : List (Text × Text))
    → moved lan (strip_prefix public_side url) ≡ none
    → local url ((public_side, lan) ∷ aliases) ≡ local url aliases
unfolding local
local_next url public_side lan aliases e = rw (e, local) refl

pub local-IsMoved :
    (url : Text) (aliases : List (Text × Text)) → IsMoved url aliases (local url aliases)
unfolding IsMoved
local-IsMoved url [] = unfold local in refl
local-IsMoved url ((public_side, lan) ∷ aliases) =
    let rest : IsMoved url aliases (local url aliases) = local-IsMoved url aliases in
    elim (Option-cases (moved lan (strip_prefix public_side url))) [
      | inl e ↦
          subst (IsMoved url ((public_side, lan) ∷ aliases))
            (sym (local_next url public_side lan aliases e)) (inr rest)
      | inr (there, e) ↦
          subst (IsMoved url ((public_side, lan) ∷ aliases))
            (sym (local_here url public_side lan there aliases e))
            (inl (moved_sound public_side lan url there e))
    ]
