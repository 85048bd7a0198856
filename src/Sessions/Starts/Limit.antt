-- ===== src/Sessions/Starts/Limit.antt =====
-- That no visitor starts more than the limit in a minute.
use den_remux.Prelude.{
  ℕ, suc, ◌+◌, ◌-◌, ◌/◌, ◌^◌, ◌≤◌, ◌<◌, ◌≡◌, refl, sym, ap, ◌∙◌, arith, Bool, true, false, ◌&&◌,
  List, [], ◌∷◌, some, ◌==◌, if◌then◌else◌, All, All-retain, length, retain, retain-All, Bool-cases,
  inl, inr,
}
use den_remux.Sessions.Starts.{Start, counted, admit, starts_per_minute}

module _ {ℓ} {Address : Type ℓ} (same_address : Address → Address → Bool) where
  -- The requests of one address that are let through, of all that come in turn.
  unfoldable pub passes : Address → List (Address × ℕ) → List (Start same_address) → ℕ
  passes ip [] starts = 0
  passes ip ((a, now) ∷ asked) starts =
      (if same_address a ip && (admit same_address (some a) now starts).1 then 1 else 0)
      + passes ip asked (admit same_address (some a) now starts).0

  unfoldable tally : Address → List (Start same_address) → ℕ
  tally ip [] = 0
  tally ip (s ∷ ss) = if same_address s.address ip then s.count else tally ip ss

  abbrev IsOf : ℕ → Start same_address → Type 0
  IsOf m s = s.minute ≡ m

  -- No count comes to wrap within so many requests more.
  pub record IsBelow (k : ℕ) (ss : List (Start same_address)) : Type ℓ where
    pub few : k < 2 ^ 32
    pub each : All (λ s. s.count + k < 2 ^ 32) ss

  retain_same :
      (m : ℕ) (ss : List (Start same_address))
      → All (IsOf m) ss
      → retain (λ s. s.minute == m) ss ≡ ss
  unfolding retain
  retain_same m [] h = refl
  retain_same m (s ∷ ss) h =
      let now : (s.minute == m) ≡ true = ground (arith, h.0) in
      rw now (ap (λ xs. s ∷ xs) (retain_same m ss h.1))

  each-IsOf :
      (m : ℕ) (ss : List (Start same_address))
      → All (λ s. (s.minute == m) ≡ true) ss
      → All (IsOf m) ss
  each-IsOf m [] h = tt
  each-IsOf m (s ∷ ss) h = (ground (arith, h.0), each-IsOf m ss h.1)

  counted-IsOf :
      (ip : Address) (m : ℕ) (ss : List (Start same_address))
      → All (IsOf m) ss
      → All (IsOf m) (counted same_address ip m ss).0
  unfolding counted
  counted-IsOf ip m [] h = (refl, tt)
  counted-IsOf ip m (s ∷ ss) h = elim (Bool-cases (same_address s.address ip)) [
    | inl e ↦ rw e (h.0, h.1)
    | inr e ↦ rw e (h.0, counted-IsOf ip m ss h.1)
  ]

  counted_one_more :
      (ip : Address) (m : ℕ) (ss : List (Start same_address)) (k : ℕ)
      → IsBelow (suc k) ss
      → (counted same_address ip m ss).1 ≡ suc (tally ip ss)
  unfolding counted tally
  counted_one_more ip m [] k b = refl
  counted_one_more ip m (s ∷ ss) k b = elim (Bool-cases (same_address s.address ip)) [
    | inl e ↦ rw e (omega (arith, b.each.0))
    | inr e ↦ rw e (counted_one_more ip m ss k (record { few = b.few; each = b.each.1 }))
  ]

  each-counted :
      (a : Address) (m k : ℕ) (ss : List (Start same_address))
      → suc k < 2 ^ 32
      → All (λ s. s.count + suc k < 2 ^ 32) ss
      → All (λ s. s.count + k < 2 ^ 32) (counted same_address a m ss).0
  unfolding counted
  each-counted a m k [] f h = (omega (arith, f), tt)
  each-counted a m k (s ∷ ss) f h = elim (Bool-cases (same_address s.address a)) [
    | inl e ↦ rw e (omega (arith, h.0), fewer k ss h.1)
    | inr e ↦ rw e (omega (arith, h.0), each-counted a m k ss f h.1)
  ]
    where
      fewer :
          (k : ℕ) (ss : List (Start same_address))
          → All (λ s. s.count + suc k < 2 ^ 32) ss
          → All (λ s. s.count + k < 2 ^ 32) ss
      fewer k [] h = tt
      fewer k (s ∷ ss) h = (omega (arith, h.0), fewer k ss h.1)

  counted-IsBelow :
      (a : Address) (m k : ℕ) (ss : List (Start same_address))
      → IsBelow (suc k) ss
      → IsBelow k (counted same_address a m ss).0
  counted-IsBelow a m k ss b = record {
    few = omega (arith, b.few);
    each = each-counted a m k ss b.few b.each;
  }

  module _ (refl_address : (a : Address) → same_address a a ≡ true)
      (sound : (a b : Address) → same_address a b ≡ true → a ≡ b) where
    tally-counted :
        (a ip : Address) (m : ℕ) (ss : List (Start same_address)) (k : ℕ)
        → IsBelow (suc k) ss
        → tally ip (counted same_address a m ss).0
          ≡ tally ip ss + (if same_address a ip then 1 else 0)
    unfolding counted tally
    tally-counted a ip m [] k b = ground arith
    tally-counted a ip m (s ∷ ss) k b = elim (Bool-cases (same_address s.address a)) [
      | inl e ↦
          let swap : same_address s.address ip ≡ same_address a ip =
            ap (λ x. same_address x ip) (sound s.address a e) in
          rw (e, swap) (ground (arith, b.each.0))
      | inr e ↦ elim (Bool-cases (same_address s.address ip)) [
        | inl f ↦
            let apart : same_address a ip ≡ false = other s a ip e f in
            rw (e, f, apart) (omega arith)
        | inr f ↦ rw (e, f) (tally-counted a ip m ss k (record { few = b.few; each = b.each.1 }))
      ]
    ]
      where
        other :
            (s : Start same_address) (a ip : Address)
            → same_address s.address a ≡ false
            → same_address s.address ip ≡ true
            → same_address a ip ≡ false
        other s a ip e f = elim (Bool-cases (same_address a ip)) [
          | inl g ↦
              let back : same_address s.address a ≡ true =
                ap (λ x. same_address x a) (sound s.address ip f ∙ sym (sound a ip g))
                ∙ refl_address a in
              cc (e, back)
          | inr g ↦ g
        ]

    passes_left :
        (m : ℕ) (ip : Address) (asked : List (Address × ℕ)) (ss : List (Start same_address))
        → All (λ e. e.1 / 60 ≡ m) asked
        → All (IsOf m) ss
        → IsBelow (length asked) ss
        → passes ip asked ss ≤ starts_per_minute - tally ip ss
    unfolding passes admit
    passes_left m ip [] ss h k b = omega arith
    passes_left m ip ((a, now) ∷ asked) ss h k b =
        let next : List (Start same_address) = (counted same_address a m ss).0 in
        let rest =
          passes_left m ip asked next h.1 (counted-IsOf a m ss k)
            (counted-IsBelow a m (length asked) ss b) in
        rw (h.0, retain_same m ss k, counted_one_more a m ss (length asked) b)
          (elim (Bool-cases (same_address a ip)) [
            | inl e ↦
                let own : tally a ss ≡ tally ip ss = ap (λ x. tally x ss) (sound a ip e) in
                rw (e, own) (ground (arith, rest, tally-counted a ip m ss (length asked) b, e))
            | inr e ↦ rw e (ground (arith, rest, tally-counted a ip m ss (length asked) b, e))
          ])

    -- Whoever asks meanwhile: of the requests of one address within a minute, at most ten are let
    -- through, as long as no count reaches 2^32 with all that come.
    pub passes_bounded :
        (m : ℕ) (ip : Address) (asked : List (Address × ℕ)) (starts : List (Start same_address))
        → All (λ e. e.1 / 60 ≡ m) asked
        → IsBelow (length asked) starts
        → passes ip asked starts ≤ starts_per_minute
    unfolding passes admit
    passes_bounded m ip [] starts h b = omega arith
    passes_bounded m ip ((a, now) ∷ asked) starts h b =
        let kept : List (Start same_address) = retain (λ s. s.minute == m) starts in
        let of_m = each-IsOf m kept (retain-All (λ s. s.minute == m) starts) in
        let all = passes_left m ip ((a, now) ∷ asked) kept h of_m (record {
          few = b.few;
          each =
              All-retain (λ s. s.count + length ((a, now) ∷ asked) < 2 ^ 32) (λ s. s.minute == m)
                starts b.each;
        }) in
        same_start all
      where
        same_start :
            passes ip ((a, now) ∷ asked) (retain (λ s. s.minute == m) starts)
              ≤ starts_per_minute - tally ip (retain (λ s. s.minute == m) starts)
            → passes ip ((a, now) ∷ asked) starts ≤ starts_per_minute
        same_start all =
            let kept : List (Start same_address) = retain (λ s. s.minute == m) starts in
            let again : retain (λ s. s.minute == m) kept ≡ kept =
              retain_same m kept (each-IsOf m kept (retain-All (λ s. s.minute == m) starts)) in
            let step : passes ip ((a, now) ∷ asked) kept ≡ passes ip ((a, now) ∷ asked) starts =
              rw (h.0, again) refl in
            omega (arith, all, step)
