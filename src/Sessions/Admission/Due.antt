-- ===== src/Sessions/Admission/Due.antt =====
-- Why a slot is refused.
use den_remux.Prelude.{
  find, ℕ, ◌+◌, ◌-◌, ◌≤◌, ◌<◌, ◌≡◌, refl, sym, ap, ◌∙◌, arith, true, false, List, Option, none,
  some, Result, ok, err, ◌>>?◌, length, Bool-cases, inl, inr, leb, ltb, some-inj, retain,
}
use den_remux.Text.{Text, same}
use den_remux.Sessions.Admission.{
  Replacement, Live, Server, Slot, Refused, starting_already, full, not_yours, pending_already,
  is_owned, count_of, total, mine, excess_at, fits, chosen, decided, reserve, named, replaced_of,
  replacement_of, is_some,
}
use den_remux.Sessions.Admission.Lists.{length-sort}

module _ (limit : ℕ) (s : Server) (owner : Text) (share : ℕ) (replaces : Option Text) where
  -- How many of the owner's sessions are more than the share allows, with the new one.
  abbrev pub surplus : ℕ
  surplus =
      (length (retain (λ l. same l.owner owner) s.sessions) + count_of owner s.creating + 1) - share

  -- The session that is named, in the map.
  abbrev pub IsNamed : Live → Type 0
  IsNamed l =
      (sid : Text) × ((replaces ≡ some sid) × (find (λ x. same x.sid sid) s.sessions ≡ some l))

  -- The reasons to refuse a slot.
  abbrev pub IsReason : Refused → Type 0
  IsReason starting_already = share ≤ count_of owner s.creating
  IsReason full = limit ≤ (length s.sessions - surplus) + total s.creating
  IsReason not_yours = (l : Live) × (IsNamed l × (same l.owner owner ≡ false))
  IsReason pending_already =
      (l : Live) × (IsNamed l
        × ((r : Replacement) × (find (λ x. same x.owner owner) s.replacements ≡ some r)))

  -- A slot is refused for a reason that there is, and is granted only where there is none.
  abbrev pub IsDue : Result Refused (Server × (Slot × List Live)) → Type 0
  IsDue (ok r) = (e : Refused) → ¬ IsReason e
  IsDue (err e) = IsReason e

  excess_at-surplus : excess_at s owner share ≡ surplus
  unfolding excess_at mine
  excess_at-surplus = omega (arith, length-sort (retain (is_owned owner) s.sessions))

  fits_too :
      fits limit s (excess_at s owner (share + 1)) ≡ true
      → fits limit s (excess_at s owner share) ≡ true
  unfolding fits excess_at
  fits_too h = ground (arith, h)

  -- What was chosen fits exactly where the surplus does.
  chosen-fits :
      (old : Option Text)
      → fits limit s (chosen limit s owner share old).0 ≡ fits limit s (excess_at s owner share)
  unfolding chosen
  chosen-fits none = refl
  chosen-fits (some old) = elim (Bool-cases (fits limit s (excess_at s owner (share + 1)))) [
    | inl e ↦ rw e (e ∙ sym (fits_too e))
    | inr e ↦ rw e refl
  ]

  -- That a slot is granted leaves the reasons that were ruled out before, and a full server.
  abbrev NoOther : Type 0
  NoOther =
      (count_of owner s.creating < share) × (¬ IsReason not_yours × ¬ IsReason pending_already)

  none_left : (r : Refused) → NoOther → ¬ IsReason full → ¬ IsReason r
  none_left starting_already n f = λ k. omega (arith, k, n.0)
  none_left full n f = f
  none_left not_yours n f = n.1.0
  none_left pending_already n f = n.1.1

  fits-room : fits limit s (excess_at s owner share) ≡ true → ¬ IsReason full
  unfolding fits
  fits-room h k = omega (arith, k, excess_at-surplus, at_all h)
    where
      at_all :
          ltb (length s.sessions - excess_at s owner share + total s.creating) limit ≡ true
          → length s.sessions - excess_at s owner share + total s.creating < limit
      at_all h = ground (arith, h)

  unfit-full : fits limit s (excess_at s owner share) ≡ false → IsReason full
  unfolding fits
  unfit-full h = omega (arith, excess_at-surplus, at_all h)
    where
      at_all :
          ltb (length s.sessions - excess_at s owner share + total s.creating) limit ≡ false
          → limit ≤ length s.sessions - excess_at s owner share + total s.creating
      at_all h = ground (arith, h)

  decided-IsDue :
      (old : Option Text) → NoOther → IsDue (decided limit s owner (chosen limit s owner share old))
  unfolding decided
  decided-IsDue old n = elim (Bool-cases (fits limit s (chosen limit s owner share old).0)) [
    | inl e ↦ rw e (λ r. none_left r n (fits-room (sym (chosen-fits old) ∙ e)))
    | inr e ↦ rw e (unfit-full (sym (chosen-fits old) ∙ e))
  ]

  named-only : (o : Option Live) → named s replaces ≡ o → (l : Live) → IsNamed l → o ≡ some l
  named-only o e l (sid, (f, g)) = sym e ∙ ap (named s) f ∙ g

  named-IsNamed : (r : Option Text) (l : Live) → replaces ≡ r → named s r ≡ some l → IsNamed l
  named-IsNamed none l f e = cc e
  named-IsNamed (some sid) l f e = (sid, (f, e))

  pending_of :
      (o : Option Replacement)
      → replacement_of owner s ≡ o
      → is_some o ≡ true
      → (r : Replacement) × (find (λ x. same x.owner owner) s.replacements ≡ some r)
  pending_of none e h = cc h
  pending_of (some r) e h = (r, e)

  replaced-IsDue :
      (o : Option Live)
      → named s replaces ≡ o
      → count_of owner s.creating < share
      → IsDue
          (replaced_of s owner o >>? λ old. decided limit s owner (chosen limit s owner share old))
  replaced-IsDue none e h = decided-IsDue none (
    h,
    ((λ (l, (n, k)). cc (named-only none e l n)), (λ (l, (n, k)). cc (named-only none e l n))),
  )
  replaced-IsDue (some l) e h = elim (Bool-cases (is_owned owner l)) [
    | inr f ↦ rw f (l, (named-IsNamed replaces l refl e, f))
    | inl f ↦ elim (Bool-cases (is_some (replacement_of owner s))) [
      | inl g ↦
          rw (f, g)
            (l, (named-IsNamed replaces l refl e, pending_of (replacement_of owner s) refl g))
      | inr g ↦
          rw (f, g)
            (decided-IsDue (some l.sid)
              (h, ((λ (k, (n, m)). another k n m f), (λ (k, (n, (r, m))). idle r m g))))
    ]
  ]
    where
      another : (k : Live) → IsNamed k → same k.owner owner ≡ false → is_owned owner l ≡ true → ⊥
      another k n m f =
          let it : l ≡ k = some-inj (named-only (some l) e k n) in cc (ap (is_owned owner) it, m, f)

      idle :
          (r : Replacement)
          → find (λ x. same x.owner owner) s.replacements ≡ some r
          → is_some (replacement_of owner s) ≡ false
          → ⊥
      idle r m g = cc (ap (λ o. is_some o) m, g)

  -- A slot is refused for a reason that there is, and granted only where there is none: as many
  -- slots are held as the share; the session to replace is another owner's; one is to be replaced
  -- while the owner has a replacement under way; or the server is full even without the sessions
  -- that are more than the share.
  pub reserve-IsDue : IsDue (reserve limit s owner share replaces)
  unfolding reserve
  reserve-IsDue = elim (Bool-cases (leb share (count_of owner s.creating))) [
    | inl e ↦ rw e (ground (arith, e))
    | inr e ↦ rw e (replaced-IsDue (named s replaces) refl (ground (arith, e)))
  ]
