-- ===== src/State/Opened/Bounds.antt =====
-- The cache stays within its bound and lists no release twice.
use den_remux.Prelude.{ℕ, ◌≤◌, ◌<◌, ◌≡◌, arith, All, Bool, false, not, leb}
use den_remux.Prelude.{
  [], ◌∷◌, ◌++◌, length, retain, length-append, length-retain, All-retain, ◌∙◌, All-append,
  All-drop,
}
use den_remux.Prelude.{All-false-retain, length-drop, Bool-cases, inl, inr}
use den_remux.Text.{Text}
use den_remux.Text.Same.{same_comm}
use den_remux.State.Opened.{
  Resolved, Opened, Cache, fresh, has_key, get, make_room, keep, trimmed, put, forget,
}
use den_remux.State.Opened.{Unlisted, Distinct, IsValid, opened_max}

module _ (Info : Type 0) where
  Distinct-retain :
      (p : Opened Info → Bool) (c : Cache Info) → Distinct Info c → Distinct Info (retain p c)
  unfolding retain
  Distinct-retain p [] h = tt
  Distinct-retain p (e ∷ c) h = elim (Bool-cases (p e)) [
    | inl k ↦ rw k (All-retain (λ x. has_key Info e.key x ≡ false) p c h.0, Distinct-retain p c h.1)
    | inr k ↦ rw k (Distinct-retain p c h.1)
  ]

  retain-IsValid :
      (p : Opened Info → Bool) (c : Cache Info) → IsValid Info c → IsValid Info (retain p c)
  retain-IsValid p c v = record {
    bounded = omega (arith, v.bounded, length-retain p c);
    distinct = Distinct-retain p c v.distinct;
  }

  Distinct-snoc :
      (c : Cache Info) (e : Opened Info)
      → Unlisted Info e.key c
      → Distinct Info c
      → Distinct Info (c ++ (e ∷ []))
  unfolding has_key
  Distinct-snoc [] e u d = (tt, tt)
  Distinct-snoc (x ∷ c) e u d = (
    All-append (λ y. has_key Info x.key y ≡ false) c (e ∷ []) d.0 (same_comm e.key x.key ∙ u.0, tt),
    Distinct-snoc c e u.1 d.1,
  )

  make_room-small :
      (c : Cache Info) → length c ≤ opened_max → length (make_room Info c) < opened_max
  unfolding make_room
  make_room-small c h = ground (arith, length-drop 1 c)

  Distinct-make_room : (c : Cache Info) → Distinct Info c → Distinct Info (make_room Info c)
  unfolding make_room
  Distinct-make_room [] d = tt
  Distinct-make_room (e ∷ c) d = elim (Bool-cases (leb opened_max (length (e ∷ c)))) [
    | inl k ↦ rw k d.1
    | inr k ↦ rw k d
  ]

  pub All-make_room {κ} :
      (P : Opened Info → Type κ) (c : Cache Info) → All P c → All P (make_room Info c)
  unfolding make_room
  All-make_room P c h = elim (Bool-cases (leb opened_max (length c))) [
    | inl k ↦ rw k (All-drop P 1 c h)
    | inr k ↦ rw k h
  ]

  pub Unlisted-keep :
      (key : Text) (now : ℕ) (c : Cache Info) → Unlisted Info key (retain (keep Info key now) c)
  unfolding keep
  Unlisted-keep key now c =
      All-false-retain (has_key Info key) (keep Info key now) c (λ e h. ground arith)

  -- From a cache of at most eight releases, no two of them under one key, `put`, `get` and `forget`
  -- each leave such a cache.
  pub operations-IsValid :
      (c : Cache Info) (key : Text) (resolved : Resolved) (info : Info) (now : ℕ)
      → IsValid Info c
      → IsValid Info (put Info c key resolved info now)
        × IsValid Info (get Info c key now).1
        × IsValid Info (forget Info c key)
  unfolding put get forget
  operations-IsValid c key resolved info now v = (
    record {
      bounded = omega (
        arith,
        length-append (make_room Info (retain (keep Info key now) c))
            (record { key = key; at = now; resolved = trimmed Info resolved; info = info } ∷ []),
        make_room-small (retain (keep Info key now) c)
            (retain-IsValid (keep Info key now) c v).bounded,
      );
      distinct =
          Distinct-snoc (make_room Info (retain (keep Info key now) c))
            (record { key = key; at = now; resolved = trimmed Info resolved; info = info })
            (All-make_room (λ e. has_key Info key e ≡ false) (retain (keep Info key now) c)
              (Unlisted-keep key now c))
            (Distinct-make_room (retain (keep Info key now) c)
              (Distinct-retain (keep Info key now) c v.distinct));
    },
    retain-IsValid (fresh Info now) c v,
    retain-IsValid (λ e. not (has_key Info key e)) c v,
  )
