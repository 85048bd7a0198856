-- ===== src/Sessions/Admission/Share.antt =====
-- What a slot costs its owner.
use den_remux.Prelude.{
  [], ◌∷◌, All, ℕ, ◌+◌, ◌-◌, ◌≤◌, ◌≡◌, refl, sym, ap, subst, arith, true, not, List, Option, none,
  some, ok, length, take, length-take, All-take, All-retain, Bool-cases, inl, inr, retain,
  retain-All,
}
use den_remux.Text.{Text, same}
use den_remux.Sessions.Admission.Oldest.{IsOneOf, each_IsOneOf, stay-newer}
use den_remux.Text.Same.{same_refl}
use den_remux.Sessions.Admission.{
  Live, Server, Slot, is_owned, count_of, mine, sort, remove_all, excess_at, fits, chosen, granted,
  reserve, is_some,
}
use den_remux.Sessions.Admission.Lists.{
  IsDistinct, holds, IsDistinct-retain, IsDistinct-sort, IsDistinct-take, self-Within, All-sort,
  length-sort, remove_all-shorter,
}
use den_remux.Sessions.Admission.Counts.{one_if, count_of-bump}
use den_remux.Sessions.Admission.Granted.{reserve-IsGranted, chosen-le}
use den_remux.Sessions.Admission.Others.{retain-remove_all, IsOnly, self-IsOnly, others_kept}

-- What the owner has after a slot was granted: the share, and the session that is being replaced.
pub record IsFair (s : Server) (owner : Text) (share : ℕ) (t : Server) (slot : Slot)
    (gone : List Live) : Type 0 where
  pub within :
      length (retain (λ l. same l.owner owner) t.sessions) + count_of owner t.creating
      ≤ share + one_if (is_some slot.replaces)
  pub others :
      retain (λ l. not (is_owned owner l)) t.sessions
      ≡ retain (λ l. not (is_owned owner l)) s.sessions
  -- They are sessions of the owner, no more than have to go, and none that stays started before one of them.
  pub whose : All (λ g. IsOneOf s.sessions g × (same g.owner owner ≡ true)) gone
  pub few :
      length gone
      ≡ length (retain (λ l. same l.owner owner) s.sessions)
        + count_of owner s.creating
        + 1
        - (share + one_if (is_some slot.replaces))
  pub oldest :
      All (λ l. All (λ g. g.started ≤ l.started) gone) (retain (λ l. same l.owner owner) t.sessions)
  pub holder : slot.owner ≡ owner

mine_left :
    (s : Server) (owner : Text) (n : ℕ)
    → IsDistinct s.sessions
    → n ≤ length (mine s owner)
    → length (sort (retain (is_owned owner) (remove_all (take n (mine s owner)) s.sessions))) + n
      ≤ length (mine s owner)
unfolding mine
mine_left s owner n d h =
    let theirs : List Live = retain (is_owned owner) s.sessions in
    let gone : List Live = take n (sort theirs) in
    omega (
      arith,
      h,
      length-take n (sort theirs),
      length-sort theirs,
      length-sort (retain (is_owned owner) (remove_all gone s.sessions)),
      ap length (retain-remove_all (is_owned owner) gone s.sessions),
      remove_all-shorter gone theirs
          (IsDistinct-take n (sort theirs)
            (IsDistinct-sort theirs (IsDistinct-retain (is_owned owner) s.sessions d)))
          (All-take (λ e. holds e.sid theirs ≡ true) n (sort theirs)
            (All-sort (λ e. holds e.sid theirs ≡ true) theirs (self-Within theirs))),
    )

chosen_share :
    (limit : ℕ) (s : Server) (owner : Text) (share : ℕ) (old : Option Text)
    → (length (mine s owner) + count_of owner s.creating) + 1
      ≤ ((chosen limit s owner share old).0 + share)
        + one_if (is_some (chosen limit s owner share old).1)
unfolding chosen excess_at
chosen_share limit s owner share none = omega arith
chosen_share limit s owner share (some old) =
    elim (Bool-cases (fits limit s (excess_at s owner (share + 1)))) [
      | inl e ↦ rw e (omega arith)
      | inr e ↦ rw e (omega arith)
    ]

chosen_exactly :
    (limit : ℕ) (s : Server) (owner : Text) (share : ℕ) (old : Option Text)
    → (chosen limit s owner share old).0
      ≡ length (retain (is_owned owner) s.sessions)
        + count_of owner s.creating
        + 1
        - (share + one_if (is_some (chosen limit s owner share old).1))
unfolding chosen excess_at mine
chosen_exactly limit s owner share none =
    omega (arith, length-sort (retain (is_owned owner) s.sessions))
chosen_exactly limit s owner share (some old) =
    elim (Bool-cases (fits limit s (excess_at s owner (share + 1)))) [
      | inl e ↦ rw e (omega (arith, length-sort (retain (is_owned owner) s.sessions)))
      | inr e ↦ rw e (omega (arith, length-sort (retain (is_owned owner) s.sessions)))
    ]

All-both {ℓ κ μ} :
    {A : Type ℓ} (P : A → Type κ) (Q : A → Type μ) (xs : List A)
    → All P xs
    → All Q xs
    → All (λ x. P x × Q x) xs
All-both P Q [] h k = tt
All-both P Q (x ∷ xs) h k = ((h.0, k.0), All-both P Q xs h.1 k.1)

granted-IsFair :
    (limit : ℕ) (s : Server) (owner : Text) (share : ℕ) (old : Option Text)
    → IsDistinct s.sessions
    → (chosen limit s owner share old).0 ≤ length (mine s owner)
    → IsFair s owner share
        (granted s owner (chosen limit s owner share old)).0
        (granted s owner (chosen limit s owner share old)).1.0
        (granted s owner (chosen limit s owner share old)).1.1
unfolding granted mine
granted-IsFair limit s owner share old d h =
    let n : ℕ = (chosen limit s owner share old).0 in
    let theirs : List Live = retain (is_owned owner) s.sessions in
    record {
      within = omega (
        arith,
        length-sort (retain (is_owned owner) (remove_all (take n (sort theirs)) s.sessions)),
        mine_left s owner n d h,
        chosen_share limit s owner share old,
        count_of-bump owner owner s.creating,
        ap one_if (same_refl owner),
      );
      others =
          others_kept owner (take n (sort theirs)) s.sessions
            (All-take (λ e. is_owned owner e ≡ true) n (sort theirs)
              (All-sort (λ e. is_owned owner e ≡ true) theirs
                (retain-All (is_owned owner) s.sessions)))
            (All-take (IsOnly s.sessions) n (sort theirs) (
              All-sort (IsOnly s.sessions) theirs (
                All-retain (IsOnly s.sessions) (is_owned owner) s.sessions
                  (self-IsOnly s.sessions d))));
      whose =
          All-take (λ g. IsOneOf s.sessions g × (is_owned owner g ≡ true)) n (sort theirs)
            (All-sort (λ g. IsOneOf s.sessions g × (is_owned owner g ≡ true)) theirs
              (All-both (IsOneOf s.sessions) (λ g. is_owned owner g ≡ true) theirs
                (All-retain (IsOneOf s.sessions) (is_owned owner) s.sessions
                  (each_IsOneOf s.sessions))
                (retain-All (is_owned owner) s.sessions)));
      few = omega (
        arith,
        h,
        length-take n (sort theirs),
        length-sort theirs,
        chosen_exactly limit s owner share old,
      );
      oldest =
          subst (All (λ l. All (λ g. g.started ≤ l.started) (take n (sort theirs))))
            (sym (retain-remove_all (is_owned owner) (take n (sort theirs)) s.sessions))
            (stay-newer n theirs);
      holder = refl;
    }

module _ (limit : ℕ) (s : Server) (owner : Text) (share : ℕ) (replaces : Option Text) (t : Server)
    (slot : Slot) (gone : List Live) where
  -- A slot that is granted leaves its owner with at most its share of sessions and slots, or one
  -- more while it replaces a session. What gives way are sessions of the owner, as many as are too
  -- many and no more, and none that stays started before one of them; those of every other owner are
  -- as they were.
  pub reserve-IsFair :
      IsDistinct s.sessions
      → reserve limit s owner share replaces ≡ ok (t, (slot, gone))
      → IsFair s owner share t slot gone
  reserve-IsFair d h =
      let g = reserve-IsGranted limit s owner share replaces t slot gone h in
      subst (λ (r : Server × (Slot × List Live)). IsFair s owner share r.0 r.1.0 r.1.1) g.result
        (granted-IsFair limit s owner share g.old d (chosen-le limit s owner share g.old g.pending))
