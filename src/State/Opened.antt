-- ===== src/State/Opened.antt =====
-- `OpenedCache` of src/state.rs: releases opened lately, with the link and the probe of each. Instants
-- are nanoseconds on one clock; what a probe found is carried and never looked into.
pub mod Bounds
pub mod Lookup
use den_remux.Prelude.{
  ℕ, ◌+◌, ◌-◌, ◌*◌, ◌≤◌, ◌<◌, ◌≡◌, ◌≢◌, refl, ap, ◌∙◌, arith, All, Bool, true, false, not, ◌&&◌,
}
use den_remux.Prelude.{
  List, [], ◌∷◌, ◌++◌, Option, none, some, length, take, min, ltb, leb, if◌then◌else◌, drop,
}
use den_remux.Prelude.{
  retain, find, length-append, length-retain, find-append_none, retain-All, All-retain,
}
use den_remux.Prelude.{
  find-retain-none, find-retain, Bool-cases, inl, inr, All-map, All-drop, length-drop, zero, suc,
}
use den_remux.Text.{Text, same}
use den_remux.Text.Same.{same_refl, same_sound}
use mathlib.Core.Option

abbrev pub opened_max : ℕ
opened_max = 8

-- Ten minutes.
abbrev pub opened_ttl : ℕ
opened_ttl = 10 * 60 * 1_000_000_000

-- `subs::HASH_CHUNK`
abbrev pub hash_chunk : ℕ
hash_chunk = 64 * 1024

pub record Resolved : Type 0 where
  pub url : Text
  pub head : List ℕ
  pub size : Option ℕ

module _ (Info : Type 0) where
  pub record Opened : Type 0 where
    pub key : Text
    pub at : ℕ
    pub resolved : Resolved
    pub info : Info

  abbrev pub Cache : Type 0
  Cache = List Opened

  -- `now.duration_since(at)` is zero for an instant that is yet to come, as `-` is here.
  unfoldable pub fresh : ℕ → Opened → Bool
  fresh now e = ltb (now - e.at) opened_ttl

  unfoldable pub has_key : Text → Opened → Bool
  has_key key e = same e.key key

  unfoldable pub get : Cache → Text → ℕ → Option (Resolved × Info) × Cache
  get c key now =
      let kept = retain (fresh now) c in
      (Option.map (λ e. (e.resolved, e.info)) (find (has_key key) kept), kept)

  -- `if self.entries.len() >= OPENED_MAX { self.entries.remove(0) }`
  unfoldable pub make_room : Cache → Cache
  make_room c = if leb opened_max (length c) then drop 1 c else c

  unfoldable pub keep : Text → ℕ → Opened → Bool
  keep key now e = not (has_key key e) && fresh now e

  unfoldable pub trimmed : Resolved → Resolved
  trimmed r = record r { head = take (min (length r.head) hash_chunk) r.head }

  unfoldable pub put : Cache → Text → Resolved → Info → ℕ → Cache
  put c key resolved info now =
      make_room (retain (keep key now) c)
      ++ (record { key = key; at = now; resolved = trimmed resolved; info = info } ∷ [])

  unfoldable pub forget : Cache → Text → Cache
  forget c key = retain (λ e. not (has_key key e)) c

  -- The cache never holds more than `opened_max` releases, and no key twice.
  abbrev pub Unlisted : Text → Cache → Type 0
  Unlisted key c = All (λ e. has_key key e ≡ false) c

  abbrev pub Distinct : Cache → Type 0
  Distinct [] = Unit {0}
  Distinct (e ∷ c) = Unlisted e.key c × Distinct c

  pub record IsValid (c : Cache) : Type 0 where
    pub bounded : length c ≤ opened_max
    pub distinct : Distinct c
