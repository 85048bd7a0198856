-- ===== src/Sessions/Admission/Counts.antt =====
-- The slots that are held, and that `creating` counts them.
use den_remux.Prelude.{
  ℕ, suc, ◌+◌, ◌-◌, ◌≤◌, ◌<◌, ◌≡◌, refl, sym, ap, ◌∙◌, subst, arith, Bool, true, false, not, ◌||◌,
  List, [], ◌∷◌, ◌++◌, length, ◌==◌, Bool-cases, inl, inr, if◌then◌else◌,
}
use den_remux.Text.{Text, same}
use den_remux.Text.Same.{same_sound, same_comm}
use den_remux.Sessions.Admission.{Server, Slot, count_of, total, bump, lower}

-- A slot, and whether its session is published already.
pub record Held : Type 0 where
  pub slot : Slot
  pub published : Bool

pub record World : Type 0 where
  pub server : Server
  pub held : List Held

abbrev pub one_if : Bool → ℕ
one_if b = if b then 1 else 0

unfoldable pub held_by : Text → List Held → ℕ
held_by owner [] = 0
held_by owner (h ∷ hs) = one_if (same h.slot.owner owner) + held_by owner hs

unfoldable pub unpublished : List Held → ℕ
unpublished [] = 0
unpublished (h ∷ hs) = one_if (not h.published) + unpublished hs

unfoldable pub has_entry : Text → List (Text × ℕ) → Bool
has_entry owner [] = false
has_entry owner (e ∷ es) = same e.0 owner || has_entry owner es

unfoldable pub IsKeyed : List (Text × ℕ) → Type 0
IsKeyed [] = Unit
IsKeyed (e ∷ es) = (has_entry e.0 es ≡ false) × IsKeyed es

pub held_by-append :
    (o : Text) (xs ys : List Held) → held_by o (xs ++ ys) ≡ held_by o xs + held_by o ys
unfolding held_by
held_by-append o [] ys = omega arith
held_by-append o (x ∷ xs) ys = omega (arith, held_by-append o xs ys)

pub unpublished-append :
    (xs ys : List Held) → unpublished (xs ++ ys) ≡ unpublished xs + unpublished ys
unfolding unpublished
unpublished-append [] ys = omega arith
unpublished-append (x ∷ xs) ys = omega (arith, unpublished-append xs ys)

pub unpublished-le-length : (hs : List Held) → unpublished hs ≤ length hs
unfolding unpublished
unpublished-le-length [] = omega arith
unpublished-le-length (h ∷ hs) = ground (arith, unpublished-le-length hs)

count_of_absent : (o : Text) (es : List (Text × ℕ)) → has_entry o es ≡ false → count_of o es ≡ 0
unfolding count_of has_entry
count_of_absent o [] h = refl
count_of_absent o (e ∷ es) h = ground (arith, count_of_absent o es)

-- What another key finds does not depend on which of two equal keys is compared.
same_moves : (a b o : Text) → same a b ≡ true → same b o ≡ same a o
same_moves a b o e = ap (λ t. same t o) (sym (same_sound a b e))

pub total-bump : (o : Text) (es : List (Text × ℕ)) → total (bump o es) ≡ suc (total es)
unfolding total bump
total-bump o [] = refl
total-bump o (e ∷ es) = ground (arith, total-bump o es)

pub total-lower :
    (o : Text) (es : List (Text × ℕ)) → 0 < count_of o es → suc (total (lower o es)) ≡ total es
unfolding total lower count_of
total-lower o [] h = omega arith
total-lower o (e ∷ es) h = ground (arith, total-lower o es)

pub count_of-bump :
    (p o : Text) (es : List (Text × ℕ)) → count_of o (bump p es) ≡ one_if (same p o) + count_of o es
unfolding count_of bump
count_of-bump p o [] = ground arith
count_of-bump p o (e ∷ es) = elim (Bool-cases (same e.0 p)) [
  | inl h ↦ rw (h, same_moves e.0 p o h) (ground arith)
  | inr h ↦ elim (Bool-cases (same e.0 o)) [
    | inl k ↦
        let apart : same p o ≡ false =
          ap (same p) (sym (same_sound e.0 o k)) ∙ same_comm p e.0 ∙ h in
        rw (h, k, apart) (omega arith)
    | inr k ↦ rw (h, k) (count_of-bump p o es)
  ]
]

pub count_of-lower :
    (p o : Text) (es : List (Text × ℕ))
    → IsKeyed es
    → count_of o (lower p es) ≡ count_of o es - one_if (same p o)
unfolding count_of lower IsKeyed
count_of-lower p o [] d = ground arith
count_of-lower p o (e ∷ es) d = elim (Bool-cases (same e.0 p)) [
  | inl h ↦ elim (Bool-cases (same e.0 o)) [
    | inl k ↦
        let gone : count_of o es ≡ 0 =
          count_of_absent o es (subst (λ t. has_entry t es ≡ false) (same_sound e.0 o k) d.0) in
        rw (h, k, same_moves e.0 p o h, k) (ground (arith, k, gone))
    | inr k ↦ rw (h, k, same_moves e.0 p o h, k) (ground (arith, k))
  ]
  | inr h ↦ elim (Bool-cases (same e.0 o)) [
    | inl k ↦
        let apart : same p o ≡ false =
          ap (same p) (sym (same_sound e.0 o k)) ∙ same_comm p e.0 ∙ h in
        rw (h, k, apart) (ground (arith, k))
    | inr k ↦ rw (h, k) (ground (arith, k, count_of-lower p o es d.1))
  ]
]

has_entry-bump :
    (p o : Text) (es : List (Text × ℕ))
    → same p o ≡ false
    → has_entry o (bump p es) ≡ has_entry o es
unfolding has_entry bump
has_entry-bump p o [] n = rw n refl
has_entry-bump p o (e ∷ es) n = ground (arith, has_entry-bump p o es n)

has_entry-lower :
    (p o : Text) (es : List (Text × ℕ)) → has_entry o es ≡ false → has_entry o (lower p es) ≡ false
unfolding has_entry lower
has_entry-lower p o [] n = refl
has_entry-lower p o (e ∷ es) n = ground (arith, has_entry-lower p o es)

pub bump-IsKeyed : (p : Text) (es : List (Text × ℕ)) → IsKeyed es → IsKeyed (bump p es)
unfolding IsKeyed bump has_entry
bump-IsKeyed p [] d = (refl, tt)
bump-IsKeyed p (e ∷ es) d = elim (Bool-cases (same e.0 p)) [
  | inl h ↦ rw h d
  | inr h ↦ rw h (has_entry-bump p e.0 es (same_comm p e.0 ∙ h) ∙ d.0, bump-IsKeyed p es d.1)
]

pub lower-IsKeyed : (p : Text) (es : List (Text × ℕ)) → IsKeyed es → IsKeyed (lower p es)
unfolding IsKeyed lower
lower-IsKeyed p [] d = tt
lower-IsKeyed p (e ∷ es) d = elim (Bool-cases (same e.0 p)) [
  | inl h ↦ elim (Bool-cases (e.1 - 1 == 0)) [ inl k ↦ rw (h, k) d.1 | inr k ↦ rw (h, k) d ]
  | inr h ↦ rw h (has_entry-lower p e.0 es d.0, lower-IsKeyed p es d.1)
]
