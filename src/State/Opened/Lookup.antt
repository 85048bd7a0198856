-- ===== src/State/Opened/Lookup.antt =====
-- What `get` finds after `put` and `forget`.
use den_remux.Prelude.{ℕ, ◌-◌, ◌≤◌, ◌<◌, ◌≡◌, ◌≢◌, refl, ap, ◌∙◌, sym, arith, true, false, not, ltb}
use den_remux.Prelude.{
  [], ◌∷◌, ◌++◌, none, some, length, retain, find, if◌then◌else◌, Bool-cases, inl, inr,
}
use den_remux.Prelude.{
  retain-append, find-append_last, find-append_none, find-retain-retain, All-retain, length-retain,
  find-none, All-false-retain, append-nil,
}
use den_remux.Prelude.{List, take, take-all, min, dec_le, ◌*◌}
use den_remux.Text.{Text, same}
use den_remux.Text.Same.{same_refl, same_sound}
use den_remux.State.Opened.{
  Resolved, Opened, Cache, fresh, has_key, get, make_room, keep, trimmed, put, forget, opened_max,
  opened_ttl,
}
use den_remux.State.Opened.Bounds.{Unlisted-keep, All-make_room}
use mathlib.Core.Option

take-min {ℓ} : {A : Type ℓ} (n : ℕ) (xs : List A) → take (min (length xs) n) xs ≡ take n xs
take-min n xs = elim (dec_le (length xs) n) [
  | yes h ↦
      ap (λ k. take k xs) {x = min (length xs) n} {y = length xs} (omega (arith, h))
      ∙ take-all (length xs) xs (omega arith)
      ∙ sym (take-all n xs h)
  | no h ↦ ap (λ k. take k xs) {x = min (length xs) n} {y = n} (omega (arith, h))
]

module _ (Info : Type 0) where
  abbrev pub found : Opened Info → Resolved × Info
  found e = (e.resolved, e.info)

  get-put_cut :
      (c : Cache Info) (key : Text) (resolved : Resolved) (info : Info) (now later : ℕ)
      → (get Info (put Info c key resolved info now) key later).0
        ≡ (if ltb (later - now) opened_ttl then some (trimmed Info resolved, info) else none)
  unfolding get put
  get-put_cut c key resolved info now later =
      let e : Opened Info = record {
        key = key;
        at = now;
        resolved = trimmed Info resolved;
        info = info;
      } in
      let old : Cache Info = make_room Info (retain (keep Info key now) c) in
      let unlisted =
        All-retain (λ x. has_key Info key x ≡ false) (fresh Info later) old
          (All-make_room Info (λ x. has_key Info key x ≡ false) (retain (keep Info key now) c)
            (Unlisted-keep Info key now c)) in
      rw
        (
          retain-append (fresh Info later) old (e ∷ []),
          find-append_none (has_key Info key) (retain (fresh Info later) old)
              (retain (fresh Info later) (e ∷ [])) unlisted,
        )
        (unfold retain find fresh has_key in ground (arith, same_refl key))

  -- What `put` remembered is found under its key, its head cut to the 65536 bytes that the subtitle
  -- hash reads, as long as less than ten minutes have passed; after that nothing is found there.
  pub get-put_self :
      (c : Cache Info) (key : Text) (resolved : Resolved) (info : Info) (now later : ℕ)
      → (get Info (put Info c key resolved info now) key later).0 ≡ (
          if ltb (later - now) (600 * 1_000_000_000)
          then some (record resolved { head = take 65536 resolved.head }, info)
          else none)
  unfolding trimmed
  get-put_self c key resolved info now later =
      get-put_cut c key resolved info now later
      ∙ ap
          (λ (h : List ℕ).
            if ltb (later - now) opened_ttl
            then some (record resolved { head = h }, info)
            else none)
          (take-min 65536 resolved.head)

  -- A release that was forgotten is not found under its key.
  pub get-forget :
      (c : Cache Info) (key : Text) (now : ℕ) → (get Info (forget Info c key) key now).0 ≡ none
  unfolding get forget
  get-forget c key now = ap (Option.map found) (
      find-none (has_key Info key) (retain (fresh Info now) (forget Info c key)) (
        All-retain (λ x. has_key Info key x ≡ false) (fresh Info now) (forget Info c key)
          (All-false-retain (has_key Info key) (λ e. not (has_key Info key e)) c
            (λ e h. ground arith))))

  make_room_id : (c : Cache Info) → length c < opened_max → make_room Info c ≡ c
  unfolding make_room
  make_room_id c h = ground arith

  same-ne : (s t : Text) → s ≢ t → same s t ≡ false
  same-ne s t h = ground (arith, same_sound s t)

  last_is_other :
      (other : Text) (later : ℕ) (kept : Cache Info) (e : Opened Info)
      → same e.key other ≡ false
      → find
          (has_key Info other)
          (retain (fresh Info later) kept ++ retain (fresh Info later) (e ∷ []))
        ≡ find (has_key Info other) (retain (fresh Info later) kept)
  unfolding retain has_key
  last_is_other other later kept e h = elim (Bool-cases (fresh Info later e)) [
    | inl f ↦ rw f (find-append_last (has_key Info other) (retain (fresh Info later) kept) e h)
    | inr f ↦ rw (f, append-nil (retain (fresh Info later) kept)) refl
  ]

  kept_by :
      (key other : Text) (now later : ℕ) (x : Opened Info)
      → key ≢ other
      → now ≤ later
      → has_key Info other x ≡ true
      → fresh Info later x ≡ true
      → keep Info key now x ≡ true
  unfolding keep has_key fresh
  kept_by key other now later x ne le h f = elim (Bool-cases (same x.key key)) [
    | inl s ↦ absurd (ne (sym (same_sound x.key key s) ∙ same_sound x.key other h))
    | inr s ↦ rw s (ground arith)
  ]

  -- While fewer than eight releases are kept, `put` under one key does not change what `get` finds
  -- under another, at that time or later.
  pub get-put_other :
      (c : Cache Info) (key other : Text) (resolved : Resolved) (info : Info) (now later : ℕ)
      → key ≢ other
      → now ≤ later
      → length c < opened_max
      → (get Info (put Info c key resolved info now) other later).0 ≡ (get Info c other later).0
  unfolding get put
  get-put_other c key other resolved info now later ne le room =
      let e : Opened Info = record {
        key = key;
        at = now;
        resolved = trimmed Info resolved;
        info = info;
      } in
      let kept : Cache Info = retain (keep Info key now) c in
      ap (Option.map found) (
        rw
          (
            make_room_id kept (omega (arith, length-retain (keep Info key now) c)),
            retain-append (fresh Info later) kept (e ∷ []),
          )
          (last_is_other other later kept e (same-ne key other ne)
            ∙ find-retain-retain (has_key Info other) (fresh Info later) (keep Info key now) c
                (λ x h f. kept_by key other now later x ne le h f)))
