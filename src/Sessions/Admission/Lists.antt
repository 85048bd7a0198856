-- ===== src/Sessions/Admission/Lists.antt =====
-- Sessions by their ids: what removing some leaves, and what sorting and taking keep.
use den_remux.Prelude.{
  ℕ, zero, suc, ◌+◌, ◌≤◌, ◌≡◌, refl, ap, ◌∙◌, arith, Bool, true, false, not, ◌||◌, List, [], ◌∷◌,
  length, take, All, retain, length-retain, Bool-cases, inl, inr,
}
use den_remux.Text.{Text, same}
use den_remux.Text.Same.{same_refl, same_sound, same_comm}
use den_remux.Sessions.Admission.{Live, has_sid, remove, remove_all, is_before, sorted_in, sort}

unfoldable pub holds : Text → List Live → Bool
holds sid [] = false
holds sid (l ∷ ls) = has_sid sid l || holds sid ls

-- No id twice, as in a map.
unfoldable pub IsDistinct : List Live → Type 0
IsDistinct [] = Unit
IsDistinct (l ∷ ls) = (holds l.sid ls ≡ false) × IsDistinct ls

-- Every session of a list is in the map.
abbrev pub Within : List Live → List Live → Type 0
Within ls es = All (λ e. holds e.sid ls ≡ true) es

remove-shorter :
    (sid : Text) (ls : List Live) → holds sid ls ≡ true → suc (length (remove sid ls)) ≤ length ls
unfolding holds remove retain
remove-shorter sid [] h = cc h
remove-shorter sid (l ∷ ls) h = elim (Bool-cases (has_sid sid l)) [
  | inl e ↦ rw e (omega (arith, length-retain (λ x. not (has_sid sid x)) ls))
  | inr e ↦ rw e (omega (arith, remove-shorter sid ls (ground (arith, h, e))))
]

holds-remove_other :
    (a b : Text) (ls : List Live) → same b a ≡ false → holds a (remove b ls) ≡ holds a ls
unfolding holds remove retain
holds-remove_other a b [] n = refl
holds-remove_other a b (l ∷ ls) n = elim (Bool-cases (has_sid b l)) [
  | inl e ↦
      let other : same l.sid a ≡ false = ap (λ t. same t a) (same_sound l.sid b e) ∙ n in
      rw (e, other) (holds-remove_other a b ls n)
  | inr e ↦ rw e (ap (λ t. has_sid a l || t) (holds-remove_other a b ls n))
]

pub holds-remove_self : (sid : Text) (ls : List Live) → holds sid (remove sid ls) ≡ false
unfolding holds remove retain
holds-remove_self sid [] = refl
holds-remove_self sid (l ∷ ls) = elim (Bool-cases (has_sid sid l)) [
  | inl e ↦ rw e (holds-remove_self sid ls)
  | inr e ↦ rw (e, e) (holds-remove_self sid ls)
]

holds-retain :
    (p : Live → Bool) (sid : Text) (ls : List Live)
    → holds sid ls ≡ false
    → holds sid (retain p ls) ≡ false
unfolding holds retain
holds-retain p sid [] h = refl
holds-retain p sid (l ∷ ls) h = ground (arith, holds-retain p sid ls)

pub IsDistinct-retain :
    (p : Live → Bool) (ls : List Live) → IsDistinct ls → IsDistinct (retain p ls)
unfolding IsDistinct retain
IsDistinct-retain p [] d = tt
IsDistinct-retain p (l ∷ ls) d = elim (Bool-cases (p l)) [
  | inl e ↦ rw e (holds-retain p l.sid ls d.0, IsDistinct-retain p ls d.1)
  | inr e ↦ rw e (IsDistinct-retain p ls d.1)
]

pub IsDistinct-remove : (sid : Text) (ls : List Live) → IsDistinct ls → IsDistinct (remove sid ls)
unfolding remove
IsDistinct-remove sid ls d = IsDistinct-retain (λ l. not (has_sid sid l)) ls d

pub IsDistinct-remove_all : (es ls : List Live) → IsDistinct ls → IsDistinct (remove_all es ls)
unfolding remove_all
IsDistinct-remove_all [] ls d = d
IsDistinct-remove_all (e ∷ es) ls d =
    IsDistinct-remove_all es (remove e.sid ls) (IsDistinct-remove e.sid ls d)

others-Within :
    (sid : Text) (ls es : List Live)
    → holds sid es ≡ false
    → Within ls es
    → Within (remove sid ls) es
unfolding holds
others-Within sid ls [] h w = tt
others-Within sid ls (e ∷ es) h w =
    let other : same sid e.sid ≡ false = same_comm sid e.sid ∙ ground (arith, h) in
    (holds-remove_other e.sid sid ls other ∙ w.0, others-Within sid ls es (ground (arith, h)) w.1)

pub remove_all-shorter :
    (es ls : List Live)
    → IsDistinct es
    → Within ls es
    → length (remove_all es ls) + length es ≤ length ls
unfolding IsDistinct remove_all
remove_all-shorter [] ls d w = omega arith
remove_all-shorter (e ∷ es) ls d w = omega (
  arith,
  remove-shorter e.sid ls w.0,
  remove_all-shorter es (remove e.sid ls) d.1 (others-Within e.sid ls es d.0 w.1),
)

-- What sorting keeps.
length-sorted_in : (a : Live) (bs : List Live) → length (sorted_in a bs) ≡ suc (length bs)
unfolding sorted_in
length-sorted_in a [] = refl
length-sorted_in a (b ∷ bs) = elim (Bool-cases (is_before b a)) [
  | inl e ↦ rw e (ap suc (length-sorted_in a bs))
  | inr e ↦ rw e refl
]

pub length-sort : (ls : List Live) → length (sort ls) ≡ length ls
unfolding sort
length-sort [] = refl
length-sort (a ∷ ls) = length-sorted_in a (sort ls) ∙ ap suc (length-sort ls)

All-sorted_in {κ} :
    (P : Live → Type κ) (a : Live) (bs : List Live) → P a → All P bs → All P (sorted_in a bs)
unfolding sorted_in
All-sorted_in P a [] p h = (p, tt)
All-sorted_in P a (b ∷ bs) p h = elim (Bool-cases (is_before b a)) [
  | inl e ↦ rw e (h.0, All-sorted_in P a bs p h.1)
  | inr e ↦ rw e (p, h)
]

pub All-sort {κ} : (P : Live → Type κ) (ls : List Live) → All P ls → All P (sort ls)
unfolding sort
All-sort P [] h = tt
All-sort P (a ∷ ls) h = All-sorted_in P a (sort ls) h.0 (All-sort P ls h.1)

holds-sorted_in :
    (sid : Text) (a : Live) (bs : List Live)
    → holds sid (sorted_in a bs) ≡ (has_sid sid a || holds sid bs)
unfolding holds sorted_in
holds-sorted_in sid a [] = refl
holds-sorted_in sid a (b ∷ bs) = elim (Bool-cases (is_before b a)) [
  | inl e ↦ rw (e, holds-sorted_in sid a bs) (ground arith)
  | inr e ↦ rw e refl
]

holds-sort : (sid : Text) (ls : List Live) → holds sid (sort ls) ≡ holds sid ls
unfolding holds sort
holds-sort sid [] = refl
holds-sort sid (a ∷ ls) =
    holds-sorted_in sid a (sort ls) ∙ ap (λ t. has_sid sid a || t) (holds-sort sid ls)

IsDistinct-sorted_in :
    (a : Live) (bs : List Live)
    → holds a.sid bs ≡ false
    → IsDistinct bs
    → IsDistinct (sorted_in a bs)
unfolding IsDistinct holds sorted_in
IsDistinct-sorted_in a [] h d = (refl, tt)
IsDistinct-sorted_in a (b ∷ bs) h d = elim (Bool-cases (is_before b a)) [
  | inl e ↦ rw e (
    holds-sorted_in b.sid a bs ∙ ground (arith, h, d.0, same_comm a.sid b.sid),
    IsDistinct-sorted_in a bs (ground (arith, h)) d.1,
  )
  | inr e ↦ rw e (h, d)
]

pub IsDistinct-sort : (ls : List Live) → IsDistinct ls → IsDistinct (sort ls)
unfolding IsDistinct sort
IsDistinct-sort [] d = tt
IsDistinct-sort (a ∷ ls) d =
    IsDistinct-sorted_in a (sort ls) (holds-sort a.sid ls ∙ d.0) (IsDistinct-sort ls d.1)

holds-take :
    (n : ℕ) (sid : Text) (ls : List Live) → holds sid ls ≡ false → holds sid (take n ls) ≡ false
unfolding holds
holds-take zero sid ls h = refl
holds-take (suc n) sid [] h = refl
holds-take (suc n) sid (l ∷ ls) h = ground (arith, holds-take n sid ls)

pub IsDistinct-take : (n : ℕ) (ls : List Live) → IsDistinct ls → IsDistinct (take n ls)
unfolding IsDistinct
IsDistinct-take zero ls d = tt
IsDistinct-take (suc n) [] d = tt
IsDistinct-take (suc n) (l ∷ ls) d = (holds-take n l.sid ls d.0, IsDistinct-take n ls d.1)

weaken_Within : (l : Live) (ls es : List Live) → Within ls es → Within (l ∷ ls) es
unfolding holds
weaken_Within l ls [] w = tt
weaken_Within l ls (e ∷ es) w = (ground (arith, w.0), weaken_Within l ls es w.1)

pub self-Within : (ls : List Live) → Within ls ls
unfolding holds
self-Within [] = tt
self-Within (l ∷ ls) = (rw (same_refl l.sid) refl, weaken_Within l ls ls (self-Within ls))
