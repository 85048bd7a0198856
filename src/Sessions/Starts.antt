-- ===== src/Sessions/Starts.antt =====
-- `AppState::admit` of src/state.rs: how many logins and sessions a visitor starts in a minute. An address is any type
-- with an equality test; the clock is an argument, in seconds. A count is a `u32`, which wraps.
pub mod Limit
use den_remux.Prelude.{
  ℕ, suc, ◌+◌, ◌-◌, ◌/◌, ◌%◌, ◌^◌, ◌≤◌, ◌≡◌, refl, sym, ap, ◌∙◌, subst, arith, Bool, true, false,
  not, List, [], ◌∷◌, Option, none, some, leb, ◌==◌, if◌then◌else◌, retain, Bool-cases, inl, inr,
}

abbrev pub starts_per_minute : ℕ
starts_per_minute = 10

module _ {ℓ} {Address : Type ℓ} (same_address : Address → Address → Bool) where
  pub record Start : Type ℓ where
    pub address : Address
    pub minute : ℕ
    pub count : ℕ

  -- `*starts.entry(ip).or_insert((minute, 0)).1 += 1`, and the count it comes to.
  unfoldable pub counted : Address → ℕ → List Start → List Start × ℕ
  counted ip minute [] = (record { address = ip; minute = minute; count = 1 } ∷ [], 1)
  counted ip minute (s ∷ ss) =
      let rest = counted ip minute ss in
      if same_address s.address ip
      then (record s { count = (s.count + 1) % 2 ^ 32 } ∷ ss, (s.count + 1) % 2 ^ 32)
      else (s ∷ rest.0, rest.1)

  unfoldable pub admit : Option Address → ℕ → List Start → List Start × Bool
  admit none now starts = (starts, true)
  admit (some ip) now starts =
      let counts = counted ip (now / 60) (retain (λ s. s.minute == now / 60) starts) in
      (counts.0, leb counts.1 starts_per_minute)
