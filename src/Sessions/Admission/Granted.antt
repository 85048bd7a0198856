-- ===== src/Sessions/Admission/Granted.antt =====
-- A slot that `reserve` grants: what was decided, and that the sessions that give way are there.
use den_remux.Prelude.{
  ℕ, ◌+◌, ◌≤◌, ◌<◌, ◌≡◌, sym, ap, ◌∙◌, arith, true, false, List, Option, none, some, ok, err, ◌>>?◌,
  >>?-eq-ok, length, take, length-take, All-take, All-retain, Bool-cases, inl, inr, if◌then◌else◌,
  leb, retain,
}
use den_remux.Text.{Text}
use den_remux.Sessions.Admission.{
  Live, Server, Slot, is_owned, count_of, mine, remove_all, excess_at, fits, chosen, granted,
  decided, reserve, named, replaced_of, starting_already,
}
use den_remux.Sessions.Admission.Lists.{
  IsDistinct, Within, holds, IsDistinct-retain, IsDistinct-sort, IsDistinct-take, self-Within,
  All-sort, remove_all-shorter,
}

-- The sessions that give way are sessions of the map, each of them once.
mine-Within : (s : Server) (owner : Text) → Within s.sessions (mine s owner)
unfolding mine
mine-Within s owner =
    All-sort (λ e. holds e.sid s.sessions ≡ true) (retain (is_owned owner) s.sessions)
      (All-retain (λ e. holds e.sid s.sessions ≡ true) (is_owned owner) s.sessions
        (self-Within s.sessions))

mine-IsDistinct : (s : Server) (owner : Text) → IsDistinct s.sessions → IsDistinct (mine s owner)
unfolding mine
mine-IsDistinct s owner d =
    IsDistinct-sort (retain (is_owned owner) s.sessions)
      (IsDistinct-retain (is_owned owner) s.sessions d)

pub granted_room :
    (s : Server) (owner : Text) (n : ℕ)
    → IsDistinct s.sessions
    → n ≤ length (mine s owner)
    → length (remove_all (take n (mine s owner)) s.sessions) + n ≤ length s.sessions
granted_room s owner n d h =
    let gone : List Live = take n (mine s owner) in
    omega (
      arith,
      h,
      length-take n (mine s owner),
      remove_all-shorter gone s.sessions
          (IsDistinct-take n (mine s owner) (mine-IsDistinct s owner d))
          (All-take (λ e. holds e.sid s.sessions ≡ true) n (mine s owner) (mine-Within s owner)),
    )

pub excess_at-le :
    (s : Server) (owner : Text) (share : ℕ)
    → count_of owner s.creating < share
    → excess_at s owner share ≤ length (mine s owner)
unfolding excess_at
excess_at-le s owner share h = omega (arith, h)

pub chosen-le :
    (limit : ℕ) (s : Server) (owner : Text) (share : ℕ) (old : Option Text)
    → count_of owner s.creating < share
    → (chosen limit s owner share old).0 ≤ length (mine s owner)
unfolding chosen
chosen-le limit s owner share none h = excess_at-le s owner share h
chosen-le limit s owner share (some old) h =
    elim (Bool-cases (fits limit s (excess_at s owner (share + 1)))) [
      | inl e ↦ rw e (excess_at-le s owner (share + 1) (omega (arith, h)))
      | inr e ↦ rw e (excess_at-le s owner share h)
    ]

-- What a slot that was granted comes from.
pub record IsGranted (limit : ℕ) (s : Server) (owner : Text) (share : ℕ) (t : Server) (slot : Slot)
    (gone : List Live) : Type 0 where
  pub old : Option Text
  pub pending : count_of owner s.creating < share
  pub room : fits limit s (chosen limit s owner share old).0 ≡ true
  pub result : granted s owner (chosen limit s owner share old) ≡ (t, (slot, gone))

decided-ok :
    (limit : ℕ) (s : Server) (owner : Text) (choice : ℕ × Option Text)
    (r : Server × (Slot × List Live))
    → decided limit s owner choice ≡ ok r
    → (fits limit s choice.0 ≡ true) × (granted s owner choice ≡ r)
unfolding decided
decided-ok limit s owner choice r h = elim (Bool-cases (fits limit s choice.0)) [
  | inl e ↦ (e, ground (arith, h, e))
  | inr e ↦ ground (arith, h, e)
]

pub reserve-IsGranted :
    (limit : ℕ) (s : Server) (owner : Text) (share : ℕ) (replaces : Option Text) (t : Server)
    (slot : Slot) (gone : List Live)
    → reserve limit s owner share replaces ≡ ok (t, (slot, gone))
    → IsGranted limit s owner share t slot gone
unfolding reserve
reserve-IsGranted limit s owner share replaces t slot gone h =
    elim (Bool-cases (leb share (count_of owner s.creating))) [
      | inl e ↦ ground (arith, h, e)
      | inr e ↦
          let (old, f, g) =
            >>?-eq-ok (replaced_of s owner (named s replaces))
              (λ old. decided limit s owner (chosen limit s owner share old)) (taken e h) in
          let (room, result) =
            decided-ok limit s owner (chosen limit s owner share old) (t, (slot, gone)) g in
          record { old = old; pending = ground (arith, e); room = room; result = result }
    ]
  where
    taken :
        leb share (count_of owner s.creating) ≡ false
        → reserve limit s owner share replaces ≡ ok (t, (slot, gone))
        → (replaced_of s owner (named s replaces) >>? λ old.
            decided limit s owner (chosen limit s owner share old))
          ≡ ok (t, (slot, gone))
    taken e h =
        ap
          (λ b.
            if b
            then err starting_already
            else (replaced_of s owner (named s replaces) >>? λ old.
                decided limit s owner (chosen limit s owner share old)))
          (sym e)
        ∙ h
