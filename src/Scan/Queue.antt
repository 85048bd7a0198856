-- ===== src/Scan/Queue.antt =====
-- The scan queue of src/segments.rs, `Segments`: requests add to it, and one worker takes from it. What
-- stands under its lock is `Inner`, and an operation takes it and returns the next one. The hash map and
-- the hash set are lists, and the clock is an argument, in seconds.
pub mod Bounds
pub mod Order
pub mod Turns
use den_remux.Prelude.{
  ℕ, ◌+◌, ◌/◌, Bool, true, false, not, ◌&&◌, ◌||◌, List, [], ◌∷◌, ◌++◌, Option, none, some,
}
use den_remux.Prelude.{ltb, leb, ◌==◌, length, if◌then◌else◌, retain, find_map}
use den_remux.Text.{Text, same}

pub record Episode : Type 0 where
  pub imdb : Text
  pub season : ℕ
  pub episode : ℕ

unfoldable pub same_episode : Episode → Episode → Bool
same_episode a b = same a.imdb b.imdb && ((a.season == b.season) && (a.episode == b.episode))

-- `Episode::next`
unfoldable pub sibling : Episode → ℕ → Episode
sibling e n = record e { episode = n }

pub record Inner : Type 0 where
  pub queue : List Episode
  pub installs : List (Episode × Text)
  pub running : List Episode
  pub day : ℕ
  pub used : ℕ

-- `Inner::default()`
abbrev pub idle : Inner
idle = record { queue = []; installs = []; running = []; day = 0; used = 0 }

pub data Pending : Type 0 where
  queued : Pending
  running : Pending

abbrev pub queue_max : ℕ
queue_max = 32

-- `contains`, of the queue and of the set.
unfoldable pub contains : Episode → List Episode → Bool
contains ep [] = false
contains ep (e ∷ es) = same_episode e ep || contains ep es

-- `HashSet::insert`
unfoldable pub insert : Episode → List Episode → List Episode
insert ep es = if contains ep es then es else es ++ (ep ∷ [])

-- `HashSet::remove`
unfoldable pub remove : Episode → List Episode → List Episode
remove ep es = retain (λ e. not (same_episode e ep)) es

unfoldable pub remove_install : Episode → List (Episode × Text) → List (Episode × Text)
remove_install ep is = retain (λ i. not (same_episode i.0 ep)) is

unfoldable pub insert_install :
    Episode → Option Text → List (Episode × Text) → List (Episode × Text)
insert_install ep none is = is
insert_install ep (some install) is = (ep, install) ∷ remove_install ep is

unfoldable pub install_of : Episode → List (Episode × Text) → Option Text
install_of ep is = find_map (λ i. if same_episode i.0 ep then some i.1 else none) is

unfoldable pub pending : Inner → Episode → Option Pending
pending inner ep =
    if contains ep inner.running
    then some running
    else if contains ep inner.queue
    then some queued
    else none

abbrev pub spent : Inner → ℕ → ℕ → Bool
spent inner limit now = (inner.day == now / 86400) && leb limit inner.used

unfoldable pub enqueue : Inner → Episode → ℕ → Option Text → ℕ → Inner × Option Pending
enqueue inner ep limit install now =
    if contains ep inner.running
    then (inner, some running)
    else if contains ep inner.queue
    then (inner, some queued)
    else if leb queue_max (length inner.queue) || spent inner limit now
    then (inner, none)
    else (
      record inner {
        queue = inner.queue ++ (ep ∷ []);
        installs = insert_install ep install inner.installs;
      },
      some queued,
    )

-- The day of the budget, moved on.
abbrev pub on_day : Inner → ℕ → Inner
on_day inner today = if inner.day == today then inner else record inner { day = today; used = 0 }

unfoldable pub spend : Inner → ℕ → ℕ → Inner × Bool
spend inner limit now =
    let today = on_day inner (now / 86400) in
    if leb limit today.used
    then (record today { queue = []; installs = [] }, false)
    else (record today { used = today.used + 1 }, true)

-- What `next` leaves when it takes an episode.
abbrev pub taken : Inner → Episode → List Episode → Inner
taken inner ep rest = record inner {
  queue = rest;
  running = insert ep inner.running;
  installs = remove_install ep inner.installs;
}

abbrev pub take_front : Inner → List Episode → Option (Inner × (Episode × Option Text))
take_front inner [] = none
take_front inner (ep ∷ rest) = some (taken inner ep rest, (ep, install_of ep inner.installs))

-- `next`: a round of its loop. With an empty queue it waits.
unfoldable pub next : Inner → Option (Inner × (Episode × Option Text))
next inner = take_front inner inner.queue

unfoldable pub hold : Inner → Episode → Inner
hold inner ep = record inner { running = insert ep inner.running }

unfoldable pub release : Inner → Episode → Inner
release inner ep = record inner { running = remove ep inner.running }
