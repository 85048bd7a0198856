-- ===== src/Scan/Queue/Turns.antt =====
-- Every episode that is queued leaves the scan queue, once the worker has had enough turns.
use den_remux.Prelude.{
  ℕ, ◌+◌, ◌/◌, ◌≤◌, ◌<◌, ◌≡◌, refl, sym, ap, ◌∙◌, subst, arith, Bool, true, false, ◌||◌, List, [],
  ◌∷◌, ◌++◌,
}
use den_remux.Prelude.{Option, some, leb, length, length-append, append_assoc}
use den_remux.Prelude.{if◌then◌else◌, Bool-cases, inl, inr}
use den_remux.Text.{Text, same}
use den_remux.Text.Same.{same_sound}
use den_remux.Scan.Queue.{
  Episode, Inner, queued, same_episode, contains, pending, enqueue, spend, spent, on_day, taken,
  hold, release,
}
use den_remux.Scan.Queue.Bounds.{same_episode_refl, contains-append, contains-more}
use den_remux.Scan.Queue.Order.{
  Event, ask, turn, budget, held, released, step, added, after_turn, front, all_left, turns,
  ask-order, on_day-queue,
}

contains-mid : (ep : Episode) (xs ys : List Episode) → contains ep (xs ++ (ep ∷ ys)) ≡ true
unfolding contains
contains-mid ep [] ys = rw (same_episode_refl ep) refl
contains-mid ep (x ∷ xs) ys = ground (arith, contains-mid ep xs ys)

contains-later :
    (ep : Episode) (xs ys : List Episode) → contains ep ys ≡ true → contains ep (xs ++ ys) ≡ true
contains-later ep xs ys h = ground (arith, contains-append ep xs ys)

kept_of :
    (c : Bool) (s t : Inner)
    → (if◌then◌else◌ {A = Inner × Bool} c (s, false) (t, true)).1 ≡ true
    → (if◌then◌else◌ {A = Inner × Bool} c (s, false) (t, true)).0 ≡ t
kept_of true s t h = cc
kept_of false s t h = refl

spend-kept :
    (limit now : ℕ) (s : Inner)
    → (spend s limit now).1 ≡ true
    → (spend s limit now).0.queue ≡ s.queue
unfolding spend
spend-kept limit now s h =
    let today : Inner = on_day s (now / 86400) in
    ap (λ t. t.queue)
      (kept_of (leb limit today.used) (record today { queue = []; installs = [] })
        (record today { used = today.used + 1 }) h)
    ∙ on_day-queue s (now / 86400)

-- A turn takes the episode, or one before it.
turn-leaves :
    (s : Inner) (xs ys : List Episode) (ep : Episode) (rest : Inner → List Episode)
    → ((x : Episode) (xs' : List Episode)
        → xs ≡ x ∷ xs'
        → contains ep (rest (taken s x (xs' ++ (ep ∷ ys)))) ≡ true)
    → contains ep (front (xs ++ (ep ∷ ys)) ++ rest (after_turn s (xs ++ (ep ∷ ys)))) ≡ true
turn-leaves s [] ys ep rest h = unfold contains in rw (same_episode_refl ep) refl
turn-leaves s (x ∷ xs) ys ep rest h =
    contains-later ep (x ∷ []) (rest (taken s x (xs ++ (ep ∷ ys)))) (h x xs refl)

leaves :
    (limit : ℕ) (es : List Event) (s : Inner) (xs ys : List Episode) (ep : Episode)
    → s.queue ≡ xs ++ (ep ∷ ys)
    → length xs < turns es
    → contains ep (all_left limit es s) ≡ true
unfolding all_left turns
leaves limit [] s xs ys ep q h = absurd (omega arith)
leaves limit (ask e install now ∷ es) s xs ys ep q h =
    leaves limit es (step limit (ask e install now) s) xs (ys ++ added limit (ask e install now) s)
      ep
      (ask-order limit e install now s
        ∙ ap (λ t. t ++ added limit (ask e install now) s) q
        ∙ append_assoc xs (ep ∷ ys) (added limit (ask e install now) s))
      h
leaves limit (turn ∷ es) s xs ys ep q h =
    subst (λ l. contains ep (front l ++ all_left limit es (after_turn s l)) ≡ true) (sym q)
      (turn-leaves s xs ys ep (all_left limit es) (λ x xs' e.
        leaves limit es (taken s x (xs' ++ (ep ∷ ys))) xs' ys ep refl
          (omega (arith, h, ap length e))))
leaves limit (budget now ∷ es) s xs ys ep q h = elim (Bool-cases (spend s limit now).1) [
  | inl e ↦ rw e (leaves limit es (spend s limit now).0 xs ys ep (spend-kept limit now s e ∙ q) h)
  | inr e ↦ rw e (
      contains-more ep s.queue (all_left limit es (spend s limit now).0)
        (rw q (contains-mid ep xs ys)))
]
leaves limit (held e ∷ es) s xs ys ep q h = leaves limit es (hold s e) xs ys ep (unfold hold in q) h
leaves limit (released e ∷ es) s xs ys ep q h =
    leaves limit es (release s e) xs ys ep (unfold release in q) h

same_fields :
    (a b : Episode) → a.imdb ≡ b.imdb → a.season ≡ b.season → a.episode ≡ b.episode → a ≡ b
same_fields a b i s e = cc (i, s, e)

same_episode_sound : (a b : Episode) → same_episode a b ≡ true → a ≡ b
unfolding same_episode
same_episode_sound a b h = elim (Bool-cases (same a.imdb b.imdb)) [
  | inr e ↦ ground arith
  | inl e ↦ same_fields a b (same_sound a.imdb b.imdb e) (ground arith) (ground arith)
]

contains-split :
    (ep : Episode) (q : List Episode)
    → contains ep q ≡ true
    → (xs : List Episode) × (ys : List Episode) × (q ≡ xs ++ (ep ∷ ys))
unfolding contains
contains-split ep [] h = cc
contains-split ep (x ∷ q) h = elim (Bool-cases (same_episode x ep)) [
  | inl e ↦ ([], q, ap (λ t. t ∷ q) (same_episode_sound x ep e))
  | inr e ↦ let (xs, ys, p) = contains-split ep q (ground arith) in (x ∷ xs, ys, ap (λ t. x ∷ t) p)
]

-- `pending` answers as the `enqueue` before it did: running, queued, or nothing where the request
-- was turned away.
pub pending-enqueue :
    (s : Inner) (ep : Episode) (limit : ℕ) (install : Option Text) (now : ℕ)
    → pending (enqueue s ep limit install now).0 ep ≡ (enqueue s ep limit install now).1
unfolding enqueue pending
pending-enqueue s ep limit install now = elim (Bool-cases (contains ep s.running)) [
  | inl r ↦ rw (r, r) refl
  | inr r ↦ elim (Bool-cases (contains ep s.queue)) [
    | inl q ↦ rw (r, q, r, q) refl
    | inr q ↦ elim (Bool-cases (leb 32 (length s.queue) || spent s limit now)) [
      | inl f ↦ rw (r, q, f, r, q) refl
      | inr f ↦ rw (r, q, f, r, contains-mid ep s.queue []) refl
    ]
  ]
]

pending-queued :
    (s : Inner) (ep : Episode) → pending s ep ≡ some queued → contains ep s.queue ≡ true
unfolding pending
pending-queued s ep h = elim (Bool-cases (contains ep s.running)) [
  | inl r ↦ ground arith
  | inr r ↦ ground arith
]

-- An episode whose request is answered `queued` leaves the queue, taken or dropped with a spent
-- budget, in every run with as many turns of the worker as episodes wait then.
pub enqueue-leaves :
    (s : Inner) (ep : Episode) (limit : ℕ) (install : Option Text) (now : ℕ) (es : List Event)
    → (enqueue s ep limit install now).1 ≡ some queued
    → length (enqueue s ep limit install now).0.queue ≤ turns es
    → contains ep (all_left limit es (enqueue s ep limit install now).0) ≡ true
enqueue-leaves s ep limit install now es a h =
    let t : Inner = (enqueue s ep limit install now).0 in
    let (xs, ys, p) =
      contains-split ep t.queue
        (pending-queued t ep (pending-enqueue s ep limit install now ∙ a)) in
    leaves limit es t xs ys ep p (omega (arith, ap length p, length-append xs (ep ∷ ys)))
