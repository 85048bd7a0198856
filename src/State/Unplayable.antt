-- ===== src/State/Unplayable.antt =====
-- `Unplayable` of src/state.rs: releases that play in no browser, each with when and why. The hash map
-- is a list of entries with distinct keys, in the order that its iterator happens to take.
use den_remux.Prelude.{
  ℕ, ◌+◌, ◌-◌, ◌*◌, ◌≤◌, ◌<◌, ◌≡◌, ◌≢◌, refl, ap, arith, Bool, true, false, not, ◌&&◌,
}
use den_remux.Prelude.{List, [], ◌∷◌, Option, none, some, length, ltb, leb, if◌then◌else◌}
use den_remux.Prelude.{retain, find, length-retain}
use den_remux.Prelude.{Bool-cases, inl, inr, ◌⊎◌, suc}
use den_remux.Text.{Text, same}
use den_remux.Text.Same.{same_refl}

abbrev pub unplayable_max : ℕ
unplayable_max = 10_000

-- A week.
abbrev pub unplayable_ttl_secs : ℕ
unplayable_ttl_secs = 7 * 24 * 60 * 60

pub record Verdict : Type 0 where
  pub key : Text
  pub at : ℕ
  pub why : Text

pub record Unplayable : Type 0 where
  pub entries : List Verdict
  pub generation : ℕ

unfoldable pub holds : ℕ → Verdict → Bool
holds now v = ltb (now - v.at) unplayable_ttl_secs

unfoldable pub is_key : Text → Verdict → Bool
is_key key v = same v.key key

unfoldable pub get : Unplayable → Text → ℕ → Option Text
get u key now = elim (find (is_key key) u.entries) [
  | none ↦ none
  | some v ↦ if holds now v then some v.why else none
]

-- `contains_key`
unfoldable pub contains_key : List Verdict → Text → Bool
contains_key vs key = elim (find (is_key key) vs) [ none ↦ false | some v ↦ true ]

-- `min_by_key`: the first of the least.
unfoldable pub older : Verdict → Verdict → Verdict
older v w = if ltb w.at v.at then w else v

unfoldable pub oldest_from : Verdict → List Verdict → Verdict
oldest_from v [] = v
oldest_from v (w ∷ ws) = oldest_from (older v w) ws

unfoldable pub drop_oldest : List Verdict → List Verdict
drop_oldest [] = []
drop_oldest (v ∷ vs) = let k = (oldest_from v vs).key in retain (λ w. not (is_key k w)) (v ∷ vs)

unfoldable pub full_without : List Verdict → Text → Bool
full_without vs key = not (contains_key vs key) && leb unplayable_max (length vs)

unfoldable pub prune : List Verdict → Text → ℕ → List Verdict
prune vs key now = if full_without vs key then retain (holds now) vs else vs

unfoldable pub evict : List Verdict → Text → List Verdict
evict vs key = if full_without vs key then drop_oldest vs else vs

-- `insert`: the value under a key that is there is replaced.
unfoldable pub insert : Verdict → List Verdict → List Verdict
insert v [] = v ∷ []
insert v (w ∷ ws) = if is_key v.key w then v ∷ ws else w ∷ insert v ws

unfoldable pub put : Unplayable → Text → Text → ℕ → Unplayable
put u key why now = record {
  entries =
      insert (record { key = key; at = now; why = why }) (evict (prune u.entries key now) key);
  generation = u.generation + 1;
}

length-retain_lt :
    (k : Text) (vs : List Verdict)
    → find (is_key k) vs ≢ none
    → length (retain (λ w. not (is_key k w)) vs) < length vs
unfolding retain find
length-retain_lt k [] h = absurd (h refl)
length-retain_lt k (v ∷ vs) h = elim (Bool-cases (is_key k v)) [
  | inl e ↦ rw e (omega (arith, length-retain (λ w. not (is_key k w)) vs))
  | inr e ↦ rw e (omega (arith, length-retain_lt k vs (rw (e, find) at h)))
]

find-older :
    (k : Text) (v w : Verdict) (ws : List Verdict)
    → find (is_key k) (older v w ∷ ws) ≢ none
    → find (is_key k) (v ∷ w ∷ ws) ≢ none
unfolding find older
find-older k v w ws h e = elim (Bool-cases (is_key k v)) [
  | inl a ↦ cc (rw a at e)
  | inr a ↦ elim (Bool-cases (is_key k w)) [
    | inl b ↦ cc (rw (a, b) at e)
    | inr b ↦ elim (Bool-cases (ltb w.at v.at)) [
      | inl o ↦ h (rw (o, b) (rw (a, b) at e))
      | inr o ↦ h (rw (o, a) (rw (a, b) at e))
    ]
  ]
]

oldest-found :
    (v : Verdict) (vs : List Verdict) → find (is_key (oldest_from v vs).key) (v ∷ vs) ≢ none
unfolding oldest_from
oldest-found v [] = unfold find is_key in rw (same_refl v.key) (λ e. cc)
oldest-found v (w ∷ ws) =
    find-older (oldest_from (older v w) ws).key v w ws (oldest-found (older v w) ws)

length-drop_oldest : (vs : List Verdict) → length (drop_oldest vs) ≤ length vs - 1
unfolding drop_oldest
length-drop_oldest [] = omega arith
length-drop_oldest (v ∷ vs) =
    omega (arith, length-retain_lt (oldest_from v vs).key (v ∷ vs) (oldest-found v vs))

length-insert : (v : Verdict) (vs : List Verdict) → length (insert v vs) ≤ length vs + 1
unfolding insert
length-insert v [] = omega arith
length-insert v (w ∷ ws) = ground (arith, length-insert v ws)

length-insert_old :
    (v : Verdict) (vs : List Verdict)
    → contains_key vs v.key ≡ true
    → length (insert v vs) ≡ length vs
unfolding insert contains_key find
length-insert_old v [] h = cc
length-insert_old v (w ∷ ws) h = elim (Bool-cases (is_key v.key w)) [
  | inl e ↦ rw e refl
  | inr e ↦ rw e (ap suc (length-insert_old v ws (rw (e, find, contains_key) at h)))
]

length-prune : (vs : List Verdict) (key : Text) (now : ℕ) → length (prune vs key now) ≤ length vs
unfolding prune
length-prune vs key now = ground (arith, length-retain (holds now) vs)

-- After `evict` the key is listed, or there is room for it.
evict_room :
    (vs : List Verdict) (key : Text)
    → length vs ≤ unplayable_max
    → ((contains_key (evict vs key) key ≡ true) ⊎ (length (evict vs key) < unplayable_max))
      × (length (evict vs key) ≤ unplayable_max)
unfolding evict full_without
evict_room vs key h = ground (arith, length-drop_oldest vs)

find-insert_self : (v : Verdict) (vs : List Verdict) → find (is_key v.key) (insert v vs) ≡ some v
unfolding insert find is_key
find-insert_self v [] = rw (same_refl v.key) refl
find-insert_self v (w ∷ ws) = elim (Bool-cases (same w.key v.key)) [
  | inl e ↦ rw (e, same_refl v.key) refl
  | inr e ↦ rw (e, e) (find-insert_self v ws)
]

-- If at most 10,000 verdicts are kept, then after `put` of any other there are still at most 10,000.
pub length-put :
    (u : Unplayable) (key why : Text) (now : ℕ)
    → length u.entries ≤ unplayable_max
    → length (put u key why now).entries ≤ unplayable_max
unfolding put
length-put u key why now h =
    let kept : List Verdict = evict (prune u.entries key now) key in
    let (room, le) =
      evict_room (prune u.entries key now) key (omega (arith, length-prune u.entries key now)) in
    elim room [
      | inl old ↦
          omega (arith, length-insert_old (record { key = key; at = now; why = why }) kept old)
      | inr new ↦ omega (arith, length-insert (record { key = key; at = now; why = why }) kept)
    ]

-- A verdict that was put is found with its reason for less than a week, and not after that.
pub get-put_reason :
    (u : Unplayable) (key why : Text) (now later : ℕ)
    → get (put u key why now) key later
      ≡ (if ltb (later - now) unplayable_ttl_secs then some why else none)
unfolding get put holds
get-put_reason u key why now later =
    rw
      (
        find-insert_self (record { key = key; at = now; why = why })
            (evict (prune u.entries key now) key),
        get,
      )
      refl
