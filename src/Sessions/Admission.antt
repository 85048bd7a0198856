-- ===== src/Sessions/Admission.antt =====
-- `AppState::reserve` of src/state.rs and what ends a session again: the sessions that are published, the slots that
-- are held while one is set up, and the replacements under way. What stands under the four locks is `Server`, and an
-- operation takes it and returns the next one. A hash map is a list of its entries, and `Instant` and the clock are
-- numbers.
pub mod Lists
pub mod Counts
pub mod Granted
pub mod Steps
pub mod Bounds
pub mod Others
pub mod Oldest
pub mod Share
pub mod Due
use den_remux.Prelude.{
  ℕ, ◌+◌, ◌-◌, Bool, true, false, not, ◌&&◌, ◌||◌, List, [], ◌∷◌, ◌++◌, map, Option, none, some,
  ltb, leb, ◌==◌, length, take, if◌then◌else◌, retain, find, Result, ok, err, ◌>>?◌,
}
use den_remux.Text.{Text, same}
use mathlib.Core.Option

-- What admission reads of a `Session`.
pub record Live : Type 0 where
  pub sid : Text
  pub owner : Text
  pub started : ℕ
  pub exp : ℕ

pub record Replacement : Type 0 where
  pub owner : Text
  pub old : Text
  pub new : Option Text

pub record Server : Type 0 where
  pub sessions : List Live
  pub creating : List (Text × ℕ)
  pub replacements : List Replacement
  pub tombstones : List (Text × ℕ)

pub record Slot : Type 0 where
  pub owner : Text
  pub replaces : Option Text

pub data Refused : Type 0 where
  starting_already full not_yours pending_already : Refused

abbrev pub has_sid : Text → Live → Bool
has_sid sid s = same s.sid sid

abbrev pub is_owned : Text → Live → Bool
is_owned owner s = same s.owner owner

-- `creating.get(owner).copied().unwrap_or(0)`
unfoldable pub count_of : Text → List (Text × ℕ) → ℕ
count_of owner [] = 0
count_of owner (e ∷ es) = if same e.0 owner then e.1 else count_of owner es

-- `creating.values().sum()`
unfoldable pub total : List (Text × ℕ) → ℕ
total [] = 0
total (e ∷ es) = e.1 + total es

-- `*creating.entry(owner).or_default() += 1`
unfoldable pub bump : Text → List (Text × ℕ) → List (Text × ℕ)
bump owner [] = (owner, 1) ∷ []
bump owner (e ∷ es) = if same e.0 owner then (e.0, e.1 + 1) ∷ es else e ∷ bump owner es

-- One less, and the entry goes with the last.
unfoldable pub lower : Text → List (Text × ℕ) → List (Text × ℕ)
lower owner [] = []
lower owner (e ∷ es) =
    if same e.0 owner
    then (if e.1 - 1 == 0 then es else (e.0, e.1 - 1) ∷ es)
    else e ∷ lower owner es

-- The order of `String`, by bytes.
unfoldable pub text_less : Text → Text → Bool
text_less s [] = false
text_less [] (d ∷ t) = true
text_less (c ∷ s) (d ∷ t) = ltb c d || ((c == d) && text_less s t)

-- The order of `(started, sid)`.
abbrev pub is_before : Live → Live → Bool
is_before a b = ltb a.started b.started || ((a.started == b.started) && text_less a.sid b.sid)

unfoldable pub sorted_in : Live → List Live → List Live
sorted_in a [] = a ∷ []
sorted_in a (b ∷ bs) = let rest = sorted_in a bs in if is_before b a then b ∷ rest else a ∷ (b ∷ bs)

unfoldable pub sort : List Live → List Live
sort [] = []
sort (a ∷ as_) = sorted_in a (sort as_)

-- The sessions of an owner, the oldest first.
unfoldable pub mine : Server → Text → List Live
mine s owner = sort (retain (is_owned owner) s.sessions)

unfoldable pub remove : Text → List Live → List Live
remove sid ls = retain (λ l. not (has_sid sid l)) ls

unfoldable pub remove_all : List Live → List Live → List Live
remove_all [] ls = ls
remove_all (e ∷ es) ls = remove_all es (remove e.sid ls)

abbrev pub is_replacing : Text → Replacement → Bool
is_replacing owner r = same r.owner owner

abbrev pub replacement_of : Text → Server → Option Replacement
replacement_of owner s = find (is_replacing owner) s.replacements

abbrev pub is_some {ℓ} : {A : Type ℓ} → Option A → Bool
is_some none = false
is_some (some a) = true

-- What a session that is to be replaced comes to.
abbrev pub replaced_of : Server → Text → Option Live → Result Refused (Option Text)
replaced_of s owner none = ok none
replaced_of s owner (some l) =
    if not (is_owned owner l)
    then err not_yours
    else if is_some (replacement_of owner s)
    then err pending_already
    else ok (some l.sid)

abbrev pub named : Server → Option Text → Option Live
named s none = none
named s (some sid) = find (has_sid sid) s.sessions

unfoldable pub excess_at : Server → Text → ℕ → ℕ
excess_at s owner share = length (mine s owner) + count_of owner s.creating + 1 - share

unfoldable pub fits : ℕ → Server → ℕ → Bool
fits limit s excess = ltb (length s.sessions - excess + total s.creating) limit

-- How many sessions of the owner give way, and the one that is kept until its replacement plays.
unfoldable pub chosen : ℕ → Server → Text → ℕ → Option Text → ℕ × Option Text
chosen limit s owner share none = (excess_at s owner share, none)
chosen limit s owner share (some old) =
    if fits limit s (excess_at s owner (share + 1))
    then (excess_at s owner (share + 1), some old)
    else (excess_at s owner share, none)

abbrev pub begin_replacement : Text → Option Text → List Replacement → List Replacement
begin_replacement owner none rs = rs
begin_replacement owner (some old) rs =
    record { owner = owner; old = old; new = none } ∷ retain (λ r. not (is_replacing owner r)) rs

unfoldable pub granted : Server → Text → ℕ × Option Text → Server × (Slot × List Live)
granted s owner choice =
    let gone = take choice.0 (mine s owner) in
    (
      record s {
        sessions = remove_all gone s.sessions;
        creating = bump owner s.creating;
        replacements = begin_replacement owner choice.1 s.replacements;
      },
      (record { owner = owner; replaces = choice.1 }, gone),
    )

unfoldable pub decided :
    ℕ → Server → Text → ℕ × Option Text → Result Refused (Server × (Slot × List Live))
decided limit s owner choice =
    if fits limit s choice.0 then ok (granted s owner choice) else err full

-- `reserve`: the slot, and the sessions that were detached for it and are yet to end.
unfoldable pub reserve :
    ℕ → Server → Text → ℕ → Option Text → Result Refused (Server × (Slot × List Live))
reserve limit s owner share replaces =
    if leb share (count_of owner s.creating)
    then err starting_already
    else replaced_of s owner (named s replaces) >>? λ old.
        decided limit s owner (chosen limit s owner share old)

abbrev pub is_unset : Text → Text → Replacement → Bool
is_unset owner old r = is_replacing owner r && (same r.old old && not (is_some r.new))

abbrev pub drop_replacement : Text → Option Text → List Replacement → List Replacement
drop_replacement owner none rs = rs
drop_replacement owner (some old) rs = retain (λ r. not (is_unset owner old r)) rs

-- `Drop for Slot`
unfoldable pub drop_slot : Server → Slot → Server
drop_slot s slot = record s {
  creating = lower slot.owner s.creating;
  replacements = drop_replacement slot.owner slot.replaces s.replacements;
}

unfoldable pub insert_session : Server → Live → Server
insert_session s l = record s { sessions = l ∷ remove l.sid s.sessions }

abbrev pub set_new : Text → Text → Text → Replacement → Replacement
set_new owner old new r =
    if is_replacing owner r && same r.old old then record r { new = some new } else r

abbrev pub with_new : Text → Text → Option Text → List Replacement → List Replacement
with_new owner new none rs = rs
with_new owner new (some old) rs = map (set_new owner old new) rs

-- `replacement_started`, but for the timer that it sets where it set `new`.
unfoldable pub replacement_started : Server → Slot → Text → Server
replacement_started s slot new = record s {
  replacements = with_new slot.owner new slot.replaces s.replacements;
}

-- `r.new.as_deref() == Some(sid)`
abbrev pub is_new : Text → Option Text → Bool
is_new sid none = false
is_new sid (some n) = same n sid

abbrev pub is_taking_over : Text → Text → Replacement → Bool
is_taking_over owner sid r = is_replacing owner r && is_new sid r.new

abbrev pub end_replacement : Text → Text → Server → Server
end_replacement owner sid s = record s {
  replacements = retain (λ r. not (is_taking_over owner sid r)) s.replacements;
}

abbrev pub concerns : Text → Replacement → Bool
concerns sid r = same r.old sid || is_new sid r.new

abbrev pub tombstones_max : ℕ
tombstones_max = 1024

abbrev pub bury : Live → List (Text × ℕ) → List (Text × ℕ)
bury l kept =
    if ltb (length kept) tombstones_max
    then (l.sid, l.exp) ∷ retain (λ t. not (same t.0 l.sid)) kept
    else kept

-- `end_removed`, up to the end of the session itself.
unfoldable pub end_removed : Server → Live → ℕ → Server
end_removed s l now = record s {
  replacements = retain (λ r. not (concerns l.sid r)) s.replacements;
  tombstones = bury l (retain (λ t. ltb now t.1) s.tombstones);
}

abbrev pub end_found : Server → ℕ → Option Live → Server
end_found s now none = s
end_found s now (some l) = end_removed (record s { sessions = remove l.sid s.sessions }) l now

unfoldable pub end_session : Server → Text → ℕ → Server
end_session s sid now = end_found s now (find (has_sid sid) s.sessions)

abbrev pub old_of : Option Replacement → Option Text
old_of none = none
old_of (some r) = some r.old

abbrev pub end_old : Server → ℕ → Option Text → Server
end_old s now none = s
end_old s now (some old) = end_session s old now

-- `replacement_played`
unfoldable pub replacement_played : Server → Live → ℕ → Server
replacement_played s l now =
    end_old (end_replacement l.owner l.sid s) now
      (old_of (find (is_taking_over l.owner l.sid) s.replacements))

-- What the timer of `replacement_started` does.
unfoldable pub abandon : Server → Text → Text → ℕ → Server
abandon s owner new now =
    if is_some (find (is_taking_over owner new) s.replacements)
    then end_session (end_replacement owner new s) new now
    else s

unfoldable pub end_each : Server → List Live → ℕ → Server
end_each s [] now = s
end_each s (l ∷ ls) now = end_each (end_session s l.sid now) ls now

-- `end_owner`, and how many it ended.
unfoldable pub end_owner : Server → Text → ℕ → Server × ℕ
end_owner s owner now =
    let theirs = retain (is_owned owner) s.sessions in (end_each s theirs now, length theirs)

unfoldable pub end_all : Server → ℕ → Server
end_all s now = end_each s s.sessions now

unfoldable pub tombstone : Server → Text → Option ℕ
tombstone s sid = Option.map (λ t. t.1) (find (λ t. same t.0 sid) s.tombstones)
