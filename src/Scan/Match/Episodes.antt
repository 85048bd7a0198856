-- ===== src/Scan/Match/Episodes.antt =====
-- `match_episodes` of src/segments.rs, and the spans that it finds. A slice out of range is `none`, where the
-- source would panic.
pub mod Slices
use den_remux.Prelude.{
  ℕ, ◌+◌, ◌-◌, Bool, true, false, not, ◌&&◌, List, [], ◌∷◌, Option, none, some, ◌>>=◌, ltb, leb,
  length, take, drop, if◌then◌else◌,
}
use den_remux.Text.{Text, codes}
use den_remux.Prelude.Floats.{Floats}
use den_remux.Scan.Match.{Shared, seconds, secs, longest_shared, refine_intro_tail}

-- `FINGERPRINT_METHOD`
abbrev pub fingerprint_method : Text
fingerprint_method = codes "fingerprint-v3"

-- A season's kept fingerprints.
pub record Season : Type 0 where
  pub intro : Option (List ℕ)
  pub credits : Option (List ℕ)
  pub intro_method : Text

-- `xs[s..=e]`
unfoldable pub slice : List ℕ → ℕ × ℕ → Option (List ℕ)
slice xs (s, e) =
    if ltb e (length xs) && leb s (e + 1) then some (drop s (take (e + 1) xs)) else none

module _ (fl : Floats) where
  pub record Span : Type 0 where
    pub start : fl.F
    pub end : fl.F

  pub record Prints : Type 0 where
    pub duration : fl.F
    pub intro : List ℕ
    pub credits : List ℕ
    pub credits_start : fl.F

  pub record Found : Type 0 where
    pub intro : Option Span
    pub credits : Option Span

  abbrev pub whole : ℕ → fl.F
  whole n = fl.literal n 1

  unfoldable pub intro_window : fl.F → fl.F
  intro_window duration = fl.least (fl.times duration (fl.literal 1 4)) (whole 360)

  unfoldable pub credits_start : fl.F → fl.F
  credits_start duration = fl.greatest (fl.minus duration (whole 480)) (intro_window duration)

  unfoldable pub round3 : fl.F → fl.F
  round3 x = fl.over (fl.round (fl.times x (whole 1000))) (whole 1000)

  -- `FINGERPRINT_END_LAG_SECS`
  abbrev pub end_lag : fl.F
  end_lag = fl.literal 13 5

  unfoldable pub intro_span : ℕ × ℕ → Span
  intro_span (s, e) = record {
    start = if fl.at_most (seconds fl s) (whole 5) then whole 0 else round3 (seconds fl s);
    end = round3 (fl.plus (seconds fl e) end_lag);
  }

  abbrev pub credits_end : Prints → ℕ → fl.F
  credits_end p e = fl.plus (fl.plus p.credits_start (seconds fl e)) end_lag

  unfoldable pub credits_span : Prints → ℕ × ℕ → Span
  credits_span p (s, e) = record {
    start = round3 (fl.plus p.credits_start (seconds fl s));
    end =
        if fl.at_most (fl.minus p.duration (whole 5)) (credits_end p e)
        then round3 p.duration
        else round3 (credits_end p e);
  }

  -- `filter(|s| s.secs() <= max)`
  abbrev pub no_longer : fl.F → Option Shared → Option Shared
  no_longer limit none = none
  no_longer limit (some s) = if fl.at_most (secs fl s) limit then some s else none

  abbrev pub refined : List ℕ → List ℕ → Option Shared → Option (Option Shared)
  refined a b none = some none
  refined a b (some s) = refine_intro_tail fl a b s >>= λ r. some (some r)

  unfoldable pub shared_intro : List ℕ → List ℕ → Option (Option Shared)
  shared_intro a b = longest_shared fl a b (whole 15) >>= λ found.
      refined a b found >>= λ r. some (no_longer (whole 120) r)

  unfoldable pub pair_intro : Prints → Prints → Option (Option Shared)
  pair_intro a b = shared_intro a.intro b.intro

  unfoldable pub credits_max : Prints → fl.F
  credits_max p = fl.least (whole 480) (fl.minus (fl.minus p.duration p.credits_start) (whole 1))

  unfoldable pub pair_credits : Prints → Prints → Option (Option Shared)
  pair_credits a b = longest_shared fl a.credits b.credits (whole 15) >>= λ found.
      some (no_longer (fl.least (credits_max a) (credits_max b)) found)

  unfoldable pub intro_alone : Prints → List ℕ → Option (Option Span)
  intro_alone p kept =
      shared_intro p.intro kept >>= λ found. some (found >>= λ s. some (intro_span s.a))

  unfoldable pub credits_alone : Prints → List ℕ → Option (Option Span)
  credits_alone p kept = longest_shared fl p.credits kept (whole 15) >>= λ found.
      some (no_longer (credits_max p) found >>= λ s. some (credits_span p s.a))

  -- `b.and_then(f)`
  abbrev pub and_then {ℓ} :
      {A : Type ℓ} → (Prints → Option (Option A)) → Option Prints → Option (Option A)
  and_then f none = some none
  and_then f (some p) = f p

  -- What a half of the match gives: the season, and the span of each episode.
  abbrev pub Half : Type 0
  Half = Season × (Option Span × Option Span)

  abbrev pub new_intro : Season → Prints → Option Shared → Option Half
  new_intro season a none = some (season, (none, none))
  new_intro season a (some s) = slice a.intro s.a >>= λ kept. some (
    record season { intro = some kept; intro_method = fingerprint_method },
    (some (intro_span s.a), some (intro_span s.b)),
  )

  unfoldable pub match_intro : Season → Prints → Option Prints → Option (List ℕ) → Option Half
  match_intro season a b (some kept) = intro_alone a kept >>= λ x.
      and_then (λ p. intro_alone p kept) b >>= λ y. some (season, (x, y))
  match_intro season a b none = and_then (pair_intro a) b >>= new_intro season a

  abbrev pub new_credits : Season → Prints → Prints → Option Shared → Option Half
  new_credits season a b none = some (season, (none, none))
  new_credits season a b (some s) = slice a.credits s.a >>= λ kept. some (
    record season { credits = some kept },
    (some (credits_span a s.a), some (credits_span b s.b)),
  )

  unfoldable pub match_credits : Season → Prints → Option Prints → Option (List ℕ) → Option Half
  match_credits season a b (some kept) = credits_alone a kept >>= λ x.
      and_then (λ p. credits_alone p kept) b >>= λ y. some (season, (x, y))
  match_credits season a none none = some (season, (none, none))
  match_credits season a (some b) none = pair_credits a b >>= new_credits season a b

  unfoldable pub match_episodes :
      Season → Prints → Option Prints → Option (Season × (Found × Found))
  match_episodes season a b = match_intro season a b season.intro >>= λ i.
      match_credits i.0 a b i.0.credits >>= λ c.
      some (
        c.0,
        (record { intro = i.1.0; credits = c.1.0 }, record { intro = i.1.1; credits = c.1.1 }),
      )
