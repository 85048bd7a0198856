-- ===== src/Scan/Queue/Order.antt =====
-- The order in which episodes leave the scan queue, and that each of them does.
use den_remux.Prelude.{ℕ, suc, ◌/◌, ◌≡◌, refl, sym, ap, ◌∙◌, ◌||◌, List, [], ◌∷◌, ◌++◌}
use den_remux.Prelude.{Option, some, leb, ◌==◌, length, append-nil, append_assoc}
use den_remux.Prelude.{if◌then◌else◌, Bool-cases, inl, inr}
use den_remux.Text.{Text}
use den_remux.Scan.Queue.{
  Episode, Inner, Pending, queued, contains, enqueue, spend, spent, on_day, taken, hold, release,
}

-- What happens to the queue: a request, the worker's turns, and the budget of a scan.
pub data Event : Type 0 where
  ask : Episode → Option Text → ℕ → Event
  turn : Event
  budget : ℕ → Event
  held : Episode → Event
  released : Episode → Event

-- `next` in its loop: with an empty queue the worker goes on waiting.
abbrev pub after_turn : Inner → List Episode → Inner
after_turn s [] = s
after_turn s (ep ∷ rest) = taken s ep rest

abbrev pub step : ℕ → Event → Inner → Inner
step limit (ask ep install now) s = (enqueue s ep limit install now).0
step limit turn s = after_turn s s.queue
step limit (budget now) s = (spend s limit now).0
step limit (held ep) s = hold s ep
step limit (released ep) s = release s ep

abbrev pub answered : Option Pending → List Episode → List Episode
answered (some queued) eps = eps
answered _ eps = []

-- The episode that an event adds.
abbrev pub added : ℕ → Event → Inner → List Episode
added limit (ask ep install now) s =
    if contains ep s.queue then [] else answered (enqueue s ep limit install now).1 (ep ∷ [])
added limit _ s = []

abbrev pub front : List Episode → List Episode
front [] = []
front (ep ∷ rest) = ep ∷ []

-- The episodes that leave at an event: the one taken, or all when the budget is found spent.
abbrev pub left : ℕ → Event → Inner → List Episode
left limit turn s = front s.queue
left limit (budget now) s = if (spend s limit now).1 then [] else s.queue
left limit _ s = []

unfoldable pub all_added : ℕ → List Event → Inner → List Episode
all_added limit [] s = []
all_added limit (e ∷ es) s = added limit e s ++ all_added limit es (step limit e s)

unfoldable pub all_left : ℕ → List Event → Inner → List Episode
all_left limit [] s = []
all_left limit (e ∷ es) s = left limit e s ++ all_left limit es (step limit e s)

unfoldable pub run : ℕ → List Event → Inner → Inner
run limit [] s = s
run limit (e ∷ es) s = run limit es (step limit e s)

unfoldable pub turns : List Event → ℕ
turns [] = 0
turns (turn ∷ es) = suc (turns es)
turns (_ ∷ es) = turns es

pub ask-order :
    (limit : ℕ) (ep : Episode) (install : Option Text) (now : ℕ) (s : Inner)
    → (enqueue s ep limit install now).0.queue ≡ s.queue ++ added limit (ask ep install now) s
unfolding enqueue
ask-order limit ep install now s = elim (Bool-cases (contains ep s.running)) [
  | inl r ↦ elim (Bool-cases (contains ep s.queue)) [
    | inl q ↦ rw (r, q) (sym (append-nil s.queue))
    | inr q ↦ rw (r, q) (sym (append-nil s.queue))
  ]
  | inr r ↦ elim (Bool-cases (contains ep s.queue)) [
    | inl q ↦ rw (r, q) (sym (append-nil s.queue))
    | inr q ↦ elim (Bool-cases (leb 32 (length s.queue) || spent s limit now)) [
      | inl f ↦ rw (r, q, f) (sym (append-nil s.queue))
      | inr f ↦ rw (r, q, f) refl
    ]
  ]
]

turn-order : (s : Inner) (q : List Episode) → s.queue ≡ q → front q ++ (after_turn s q).queue ≡ q
turn-order s [] h = h
turn-order s (ep ∷ rest) h = refl

pub on_day-queue : (s : Inner) (today : ℕ) → (on_day s today).queue ≡ s.queue
on_day-queue s today = elim (Bool-cases (s.day == today)) [ inl e ↦ rw e refl | inr e ↦ rw e refl ]

pub budget-order :
    (limit now : ℕ) (s : Inner) → left limit (budget now) s ++ (spend s limit now).0.queue ≡ s.queue
unfolding spend
budget-order limit now s = elim (Bool-cases (leb limit (on_day s (now / 86400)).used)) [
  | inl e ↦ rw e (append-nil s.queue)
  | inr e ↦ rw e (on_day-queue s (now / 86400))
]

-- One event: what leaves stood first, and what is added stands last.
step-order :
    (limit : ℕ) (e : Event) (s : Inner)
    → left limit e s ++ (step limit e s).queue ≡ s.queue ++ added limit e s
step-order limit (ask ep install now) s = ask-order limit ep install now s
step-order limit turn s = turn-order s s.queue refl ∙ sym (append-nil s.queue)
step-order limit (budget now) s = budget-order limit now s ∙ sym (append-nil s.queue)
step-order limit (held ep) s = unfold hold in sym (append-nil s.queue)
step-order limit (released ep) s = unfold release in sym (append-nil s.queue)

-- The scan queue is first in, first out: over any run of requests, turns and budget checks, the
-- episodes that left, in order, and then those that wait, are those that waited at the start and
-- then those that were added, in order.
pub run-order :
    (limit : ℕ) (es : List Event) (s : Inner)
    → all_left limit es s ++ (run limit es s).queue ≡ s.queue ++ all_added limit es s
unfolding run all_left all_added
run-order limit [] s = sym (append-nil s.queue)
run-order limit (e ∷ es) s =
    let t : Inner = step limit e s in
    append_assoc (left limit e s) (all_left limit es t) (run limit es t).queue
    ∙ ap (λ q. left limit e s ++ q) (run-order limit es t)
    ∙ sym (append_assoc (left limit e s) t.queue (all_added limit es t))
    ∙ ap (λ q. q ++ all_added limit es t) (step-order limit e s)
    ∙ append_assoc s.queue (added limit e s) (all_added limit es t)
