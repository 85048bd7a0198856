-- ===== src/Scan/Match/Episodes/Slices.antt =====
-- That `match_episodes` slices within the fingerprints.
use den_remux.Prelude.{
  ◌<◌, subst, sym, some-inj, ℕ, ◌+◌, ◌≡◌, refl, arith, true, ◌&&◌, List, Option, none, some, ◌>>=◌,
  ltb, leb, length, take, drop, Bool-cases, inl, inr,
}
use den_remux.Prelude.Floats.{Floats}
use den_remux.Scan.Match.{Shared, secs, longest_shared, refine_intro_tail, block}
use den_remux.Scan.Match.Bounds.{
  Gives, IsShared, AllShared, longest_shared-AllShared, refine_intro_tail-IsShared,
}
use den_remux.Scan.Match.Episodes.{
  Season, slice, Prints, whole, no_longer, refined, shared_intro, pair_intro, credits_max,
  intro_alone, credits_alone, and_then, pair_credits, new_intro, match_intro, new_credits,
  match_credits, match_episodes,
}

-- A result, and no panic.
abbrev pub IsReturned {ℓ} : {A : Type ℓ} → Option A → Type ℓ
IsReturned {A = A} o = (r : A) × (o ≡ some r)

bind-IsReturned {ℓ κ} :
    {A : Type ℓ} {B : Type κ} (o : Option A) (f : A → Option B)
    → IsReturned o
    → ((a : A) → o ≡ some a → IsReturned (f a))
    → IsReturned (o >>= f)
bind-IsReturned none f h k = cc (h.1)
bind-IsReturned (some a) f h k = k a refl

slice-IsShared : (a b : List ℕ) (s : Shared) → IsShared a b s → IsReturned (slice a s.a)
unfolding slice
slice-IsShared a b s h =
    let within : (ltb s.a.1 (length a) && leb s.a.0 (s.a.1 + 1)) ≡ true =
      ground (arith, h.a_end, h.a_order) in
    (drop s.a.0 (take (s.a.1 + 1) a), rw within refl)

bind-Gives {ℓ κ μ ν} :
    {A : Type ℓ} {B : Type κ} (P : A → Type μ) (Q : B → Type ν) (o : Option A) (f : A → Option B)
    → Gives P o
    → ((a : A) → P a → Gives Q (f a))
    → Gives Q (o >>= f)
bind-Gives P Q none f h k = cc (h.1.0)
bind-Gives P Q (some a) f (r, (e, p)) k = k a (subst P (sym (some-inj e)) p)

module _ (fl : Floats) (moves : 0 < block fl) where
  no_longer-AllShared :
      (a b : List ℕ) (limit : fl.F) (o : Option Shared)
      → AllShared a b o
      → AllShared a b (no_longer fl limit o)
  no_longer-AllShared a b limit none h = tt
  no_longer-AllShared a b limit (some s) h = elim (Bool-cases (fl.at_most (secs fl s) limit)) [
    | inl e ↦ rw e h
    | inr e ↦ rw e tt
  ]

  refined-AllShared :
      (a b : List ℕ) (o : Option Shared)
      → AllShared a b o
      → Gives (AllShared a b) (refined fl a b o)
  refined-AllShared a b none h = (none, (refl, tt))
  refined-AllShared a b (some s) h =
      bind-Gives (IsShared a b) (AllShared a b) (refine_intro_tail fl a b s) (λ r. some (some r))
        (refine_intro_tail-IsShared fl moves a b s h) (λ r k. (some r, (refl, k)))

  shared_intro-AllShared : (a b : List ℕ) → Gives (AllShared a b) (shared_intro fl a b)
  unfolding shared_intro
  shared_intro-AllShared a b =
      bind-Gives (AllShared a b) (AllShared a b) (longest_shared fl a b (whole fl 15)) _
        (longest_shared-AllShared fl a b (whole fl 15))
        (λ found h.
          bind-Gives (AllShared a b) (AllShared a b) (refined fl a b found) _
            (refined-AllShared a b found h)
            (λ r k.
              (no_longer fl (whole fl 120) r, (refl, no_longer-AllShared a b (whole fl 120) r k))))

  pair_credits-AllShared :
      (a b : Prints fl) → Gives (AllShared a.credits b.credits) (pair_credits fl a b)
  unfolding pair_credits
  pair_credits-AllShared a b =
      bind-Gives (AllShared a.credits b.credits) (AllShared a.credits b.credits)
        (longest_shared fl a.credits b.credits (whole fl 15)) _
        (longest_shared-AllShared fl a.credits b.credits (whole fl 15))
        (λ found h.
          let limit : fl.F = fl.least (credits_max fl a) (credits_max fl b) in
          (no_longer fl limit found, (refl, no_longer-AllShared a.credits b.credits limit found h)))

  intro_alone-IsReturned : (p : Prints fl) (kept : List ℕ) → IsReturned (intro_alone fl p kept)
  unfolding intro_alone
  intro_alone-IsReturned p kept =
      let (found, (e, h)) = shared_intro-AllShared p.intro kept in rw e (_, refl)

  credits_alone-IsReturned : (p : Prints fl) (kept : List ℕ) → IsReturned (credits_alone fl p kept)
  unfolding credits_alone
  credits_alone-IsReturned p kept =
      let (found, (e, h)) = longest_shared-AllShared fl p.credits kept (whole fl 15) in
      rw e (_, refl)

  and_then-IsReturned {ℓ} :
      {A : Type ℓ} (f : Prints fl → Option (Option A)) (b : Option (Prints fl))
      → ((p : Prints fl) → IsReturned (f p))
      → IsReturned (and_then fl f b)
  and_then-IsReturned f none h = (none, refl)
  and_then-IsReturned f (some p) h = h p

  new_intro-IsReturned :
      (season : Season) (a b : Prints fl) (o : Option Shared)
      → AllShared a.intro b.intro o
      → IsReturned (new_intro fl season a o)
  new_intro-IsReturned season a b none h = (_, refl)
  new_intro-IsReturned season a b (some s) h =
      bind-IsReturned (slice a.intro s.a) _ (slice-IsShared a.intro b.intro s h)
        (λ kept e. (_, refl))

  match_intro-IsReturned :
      (season : Season) (a : Prints fl) (b : Option (Prints fl)) (kept : Option (List ℕ))
      → IsReturned (match_intro fl season a b kept)
  unfolding match_intro pair_intro
  match_intro-IsReturned season a b (some kept) =
      bind-IsReturned (intro_alone fl a kept) _ (intro_alone-IsReturned a kept) (λ x e.
        bind-IsReturned (and_then fl (λ p. intro_alone fl p kept) b) _
          (and_then-IsReturned (λ p. intro_alone fl p kept) b (λ p. intro_alone-IsReturned p kept))
          (λ y f. (_, refl)))
  match_intro-IsReturned season a none none = (_, refl)
  match_intro-IsReturned season a (some b) none =
      let (found, (e, h)) = shared_intro-AllShared a.intro b.intro in
      rw e (new_intro-IsReturned season a b found h)

  new_credits-IsReturned :
      (season : Season) (a b : Prints fl) (o : Option Shared)
      → AllShared a.credits b.credits o
      → IsReturned (new_credits fl season a b o)
  new_credits-IsReturned season a b none h = (_, refl)
  new_credits-IsReturned season a b (some s) h =
      bind-IsReturned (slice a.credits s.a) _ (slice-IsShared a.credits b.credits s h)
        (λ kept e. (_, refl))

  match_credits-IsReturned :
      (season : Season) (a : Prints fl) (b : Option (Prints fl)) (kept : Option (List ℕ))
      → IsReturned (match_credits fl season a b kept)
  unfolding match_credits
  match_credits-IsReturned season a b (some kept) =
      bind-IsReturned (credits_alone fl a kept) _ (credits_alone-IsReturned a kept) (λ x e.
        bind-IsReturned (and_then fl (λ p. credits_alone fl p kept) b) _
          (and_then-IsReturned (λ p. credits_alone fl p kept) b
            (λ p. credits_alone-IsReturned p kept))
          (λ y f. (_, refl)))
  match_credits-IsReturned season a none none = (_, refl)
  match_credits-IsReturned season a (some b) none =
      let (found, (e, h)) = pair_credits-AllShared a b in
      rw e (new_credits-IsReturned season a b found h)

  -- Of every episode, with another or without, whatever arithmetic the floating-point numbers have,
  -- as long as a second has at least one point of a fingerprint: `match_episodes` returns. No slice
  -- of a fingerprint is out of range, of those that are compared, those by which an intro is
  -- extended and those that are kept, no length less an index is below zero, and the loop that
  -- extends ends.
  pub match_episodes-IsReturned :
      (season : Season) (a : Prints fl) (b : Option (Prints fl))
      → IsReturned (match_episodes fl season a b)
  unfolding match_episodes
  match_episodes-IsReturned season a b =
      bind-IsReturned (match_intro fl season a b season.intro) _
        (match_intro-IsReturned season a b season.intro)
        (λ i e.
          bind-IsReturned (match_credits fl i.0 a b i.0.credits) _
            (match_credits-IsReturned i.0 a b i.0.credits) (λ c f. (_, refl)))
