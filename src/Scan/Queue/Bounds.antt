-- ===== src/Scan/Queue/Bounds.antt =====
-- What stays true of the scan queue, whatever requests and the worker do.
use den_remux.Prelude.{ℕ, ◌≤◌, ◌≡◌, refl, arith, true, false, ◌||◌, List, [], ◌∷◌, ◌++◌}
use den_remux.Prelude.{Option, some, ◌==◌, length, All}
use den_remux.Prelude.{Bool-cases, inl, inr}
use den_remux.Text.{Text}
use den_remux.Text.Same.{same_comm, same_refl}
use den_remux.Scan.Queue.{
  Episode, Inner, idle, same_episode, contains, enqueue, spend, on_day, next, hold, release,
}

unfoldable pub IsDistinct : List Episode → Type 0
IsDistinct [] = Unit
IsDistinct (e ∷ es) = (contains e es ≡ false) × IsDistinct es

pub record IsValid (limit : ℕ) (inner : Inner) : Type 0 where
  pub bounded : length inner.queue ≤ 32
  pub waiting : IsDistinct inner.queue
  pub working : IsDistinct inner.running
  pub installing : All (λ i. contains i.0 inner.queue ≡ true) inner.installs
  pub budget : inner.used ≤ limit

-- One critical section of a request or of the worker.
pub data Step (limit : ℕ) : Inner → Inner → Type 0 where
  asks :
      (s : Inner) (ep : Episode) (install : Option Text) (now : ℕ)
      → Step limit s (enqueue s ep limit install now).0
  spends : (s : Inner) (now : ℕ) → Step limit s (spend s limit now).0
  takes : (s t : Inner) (work : Episode × Option Text) → next s ≡ some (t, work) → Step limit s t
  holds : (s : Inner) (ep : Episode) → Step limit s (hold s ep)
  releases : (s : Inner) (ep : Episode) → Step limit s (release s ep)

pub data Reach (limit : ℕ) : Inner → Type 0 where
  starts : Reach limit idle
  goes_on : {s t : Inner} → Reach limit s → Step limit s t → Reach limit t

pub same_episode_refl : (e : Episode) → same_episode e e ≡ true
unfolding same_episode
same_episode_refl e = rw (same_refl e.imdb) (ground arith)

pub same_episode_comm : (a b : Episode) → same_episode a b ≡ same_episode b a
unfolding same_episode
same_episode_comm a b = rw (same_comm a.imdb b.imdb) (ground arith)

pub contains-append :
    (e : Episode) (xs ys : List Episode) → contains e (xs ++ ys) ≡ (contains e xs || contains e ys)
unfolding contains
contains-append e [] ys = refl
contains-append e (x ∷ xs) ys = ground (arith, contains-append e xs ys)

pub contains-more :
    (e : Episode) (xs ys : List Episode) → contains e xs ≡ true → contains e (xs ++ ys) ≡ true
contains-more e xs ys h = ground (arith, contains-append e xs ys)

on_day-used : (limit : ℕ) (s : Inner) (today : ℕ) → s.used ≤ limit → (on_day s today).used ≤ limit
on_day-used limit s today h = elim (Bool-cases (s.day == today)) [
  | inl e ↦ rw e h
  | inr e ↦ rw e (omega arith)
]
