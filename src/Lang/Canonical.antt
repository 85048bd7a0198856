-- ===== src/Lang/Canonical.antt =====
-- The tag that is compared is its own: `canonical` twice is `canonical`.
use den_remux.Prelude.{ℕ, ◌≡◌, refl, sym, ap, ◌∙◌, arith, Bool, true, false, ◌&&◌, ◌||◌}
use den_remux.Prelude.{
  List, [], ◌∷◌, some, ◌==◌, find, find-All, and_left, and_right, All, Bool-cases, Option-cases,
  inl, inr,
}
use den_remux.Text.{Text, same, lower, to_lower}
use den_remux.Text.Same.{same_sound}
use den_remux.Lang.{Lang, langs, primary, is_spelled, entry, code_of, canonical}

primary-stop : (c : ℕ) (s : Text) → ((c == 45) || (c == 95)) ≡ true → primary (c ∷ s) ≡ []
unfolding primary
primary-stop c s e = rw (e, primary) refl

primary-more :
    (c : ℕ) (s : Text) → ((c == 45) || (c == 95)) ≡ false → primary (c ∷ s) ≡ c ∷ primary s
unfolding primary
primary-more c s e = rw (e, primary) refl

lower-separator :
    (c : ℕ) → ((c == 45) || (c == 95)) ≡ false → ((lower c == 45) || (lower c == 95)) ≡ false
lower-separator c e = ground arith

primary-lower : (s : Text) → primary (to_lower (primary s)) ≡ to_lower (primary s)
unfolding primary to_lower
primary-lower [] = unfold primary to_lower in refl
primary-lower (c ∷ s) =
    let rest : primary (to_lower (primary s)) ≡ to_lower (primary s) = primary-lower s in
    elim (Bool-cases ((c == 45) || (c == 95))) [
      | inl e ↦ rw (primary-stop c s e) (unfold primary to_lower in refl)
      | inr e ↦ rw (primary-more c s e) (
          primary-more (lower c) (to_lower (primary s)) (lower-separator c e)
          ∙ ap (λ t. lower c ∷ t) rest)
    ]

lower-lower : (s : Text) → to_lower (to_lower s) ≡ to_lower s
unfolding to_lower
lower-lower [] = refl
lower-lower (c ∷ s) = ground (arith, lower-lower s)

-- The tag that is looked up is not changed by being looked up.
lower-primary : (s : Text) → to_lower (primary (to_lower (primary s))) ≡ to_lower (primary s)
lower-primary s = rw (primary-lower s) (lower-lower (primary s))

abbrev is_stable : Lang → Bool
is_stable l = same (canonical (code_of l)) (code_of l)

unfoldable all_stable : List Lang → Bool
all_stable [] = true
all_stable (l ∷ ls) = is_stable l && all_stable ls

langs-stable : all_stable langs ≡ true
unfolding all_stable langs canonical entry primary to_lower is_spelled same find
langs-stable = refl

All-stable : (ls : List Lang) → all_stable ls ≡ true → All (λ l. is_stable l ≡ true) ls
unfolding all_stable
All-stable [] h = tt
All-stable (l ∷ ls) h = (
  and_left (is_stable l) (all_stable ls) h,
  All-stable ls (and_right (is_stable l) (all_stable ls) h),
)

entry-stable : (tag : Text) (l : Lang) → entry tag ≡ some l → canonical (code_of l) ≡ code_of l
unfolding entry
entry-stable tag l e = same_sound (canonical (code_of l)) (code_of l) (
    find-All (λ l. is_stable l ≡ true) (is_spelled (to_lower (primary tag))) langs l e
      (All-stable langs langs-stable))

entry-lower : (tag : Text) → entry (to_lower (primary tag)) ≡ entry tag
unfolding entry
entry-lower tag = ap (λ t. find (is_spelled t) langs) (lower-primary tag)

-- The tag that a language is compared by is its own: `canonical` of any `canonical` tag is the same
-- tag.
pub canonical-canonical : (tag : Text) → canonical (canonical tag) ≡ canonical tag
canonical-canonical tag = elim (Option-cases (entry tag)) [
  | inl e ↦
      let own : canonical tag ≡ to_lower (primary tag) = unfold canonical in rw e refl in
      let again : canonical (to_lower (primary tag)) ≡ to_lower (primary tag) =
        unfold canonical in rw (entry-lower tag, e) (lower-primary tag) in
      ap canonical own ∙ again ∙ sym own
  | inr (l, e) ↦
      let own : canonical tag ≡ code_of l = unfold canonical in rw e refl in
      ap canonical own ∙ entry-stable tag l e ∙ sym own
]
