-- ===== src/Sessions/Admission/Oldest.antt =====
-- That the sessions that give way are the oldest of their owner's, by when they started.
use den_remux.Prelude.{
  ℕ, zero, suc, ◌≤◌, ◌≡◌, refl, ◌∙◌, subst, arith, true, false, not, ◌||◌, List, [], ◌∷◌, some,
  take, All, if◌then◌else◌, All-map, All-retain, retain-All, Bool-cases, inl, inr, ◌⊎◌, get_elem?,
}
use den_remux.Text.{same}
use den_remux.Text.Same.{same_refl, same_comm}
use den_remux.Sessions.Admission.{Live, has_sid, remove, remove_all, is_before, sorted_in, sort}
use den_remux.Sessions.Admission.Lists.{holds}

abbrev IsNewer : Live → Live → Type 0
IsNewer a b = a.started ≤ b.started

IsOrdered : List Live → Type 0
IsOrdered [] = Unit
IsOrdered (a ∷ as_) = All (IsNewer a) as_ × IsOrdered as_

All-sorted_in :
    (P : Live → Type 0) (a : Live) (bs : List Live) → P a → All P bs → All P (sorted_in a bs)
unfolding sorted_in
All-sorted_in P a [] p h = (p, tt)
All-sorted_in P a (b ∷ bs) p h = elim (Bool-cases (is_before b a)) [
  | inl e ↦ rw e (h.0, All-sorted_in P a bs p h.1)
  | inr e ↦ rw e (p, h)
]

sorted_in-IsOrdered : (a : Live) (bs : List Live) → IsOrdered bs → IsOrdered (sorted_in a bs)
unfolding IsOrdered sorted_in
sorted_in-IsOrdered a [] h = (tt, tt)
sorted_in-IsOrdered a (b ∷ bs) h = elim (Bool-cases (is_before b a)) [
  | inl e ↦
      let le : b.started ≤ a.started = ground (arith, e) in
      rw e (All-sorted_in (IsNewer b) a bs le h.0, sorted_in-IsOrdered a bs h.1)
  | inr e ↦
      let le : a.started ≤ b.started = ground (arith, e) in
      rw e ((le, All-map (λ x k. omega (arith, le, k)) bs h.0), h)
]

sort-IsOrdered : (ls : List Live) → IsOrdered (sort ls)
unfolding IsOrdered sort
sort-IsOrdered [] = tt
sort-IsOrdered (a ∷ ls) = sorted_in-IsOrdered a (sort ls) (sort-IsOrdered ls)

-- What holds of what is sorted holds of what was to be sorted.
All-of_sorted_in :
    (P : Live → Type 0) (a : Live) (bs : List Live) → All P (sorted_in a bs) → P a × All P bs
unfolding sorted_in
All-of_sorted_in P a [] h = (h.0, tt)
All-of_sorted_in P a (b ∷ bs) h = elim (Bool-cases (is_before b a)) [
  | inl e ↦
      let k : All P (b ∷ sorted_in a bs) =
        subst (λ x. All P (if x then b ∷ sorted_in a bs else a ∷ b ∷ bs)) e h in
      let (p, rest) = All-of_sorted_in P a bs k.1 in (p, (k.0, rest))
  | inr e ↦
      let k : All P (a ∷ b ∷ bs) =
        subst (λ x. All P (if x then b ∷ sorted_in a bs else a ∷ b ∷ bs)) e h in
      (k.0, k.1)
]

All-of_sort : (P : Live → Type 0) (ls : List Live) → All P (sort ls) → All P ls
unfolding sort
All-of_sort P [] h = tt
All-of_sort P (a ∷ ls) h =
    let (p, rest) = All-of_sorted_in P a (sort ls) h in (p, All-of_sort P ls rest)

-- After the first ones, or one of them.
abbrev IsAfter : List Live → Live → Type 0
IsAfter gone l = All (λ g. g.started ≤ l.started) gone ⊎ (holds l.sid gone ≡ true)

All-IsAfter_none : (xs : List Live) → All (IsAfter []) xs
All-IsAfter_none [] = tt
All-IsAfter_none (x ∷ xs) = (inl tt, All-IsAfter_none xs)

take-IsAfter : (n : ℕ) (xs : List Live) → IsOrdered xs → All (IsAfter (take n xs)) xs
unfolding IsOrdered holds
take-IsAfter zero xs h = All-IsAfter_none xs
take-IsAfter (suc n) [] h = tt
take-IsAfter (suc n) (x ∷ xs) h =
    (inr (rw (same_refl x.sid) refl), behind xs h.0 (take-IsAfter n xs h.1))
  where
    behind :
        (ys : List Live)
        → All (IsNewer x) ys
        → All (IsAfter (take n xs)) ys
        → All (IsAfter (x ∷ take n xs)) ys
    behind [] k m = tt
    behind (y ∷ ys) k (inl a, m) = (inl (k.0, a), behind ys k.1 m)
    behind (y ∷ ys) k (inr e, m) = (inr (ground (arith, e)), behind ys k.1 m)

All-remove_all : (P : Live → Type 0) (es ls : List Live) → All P ls → All P (remove_all es ls)
unfolding remove_all remove
All-remove_all P [] ls h = h
All-remove_all P (e ∷ es) ls h =
    All-remove_all P es (remove e.sid ls) (All-retain P (λ l. not (has_sid e.sid l)) ls h)

gone_are_gone : (es ls : List Live) → All (λ l. holds l.sid es ≡ false) (remove_all es ls)
unfolding remove_all remove holds
gone_are_gone [] ls = nothing ls
  where
    nothing : (ls : List Live) → All (λ l. false ≡ false) ls
    nothing [] = tt
    nothing (l ∷ ls) = (refl, nothing ls)
gone_are_gone (e ∷ es) ls =
    both (remove_all es (remove e.sid ls))
      (All-remove_all (λ l. not (has_sid e.sid l) ≡ true) es (remove e.sid ls)
        (retain-All (λ l. not (has_sid e.sid l)) ls))
      (gone_are_gone es (remove e.sid ls))
  where
    both :
        (xs : List Live)
        → All (λ l. not (has_sid e.sid l) ≡ true) xs
        → All (λ l. holds l.sid es ≡ false) xs
        → All (λ l. (same e.sid l.sid || holds l.sid es) ≡ false) xs
    both [] h k = tt
    both (x ∷ xs) h k =
        let apart : same e.sid x.sid ≡ false = same_comm e.sid x.sid ∙ ground (arith, h.0) in
        (rw (apart, k.0) refl, both xs h.1 k.1)

-- None of those that stay started before one that gives way.
pub stay-newer :
    (n : ℕ) (ls : List Live)
    → All
        (λ l. All (λ g. g.started ≤ l.started) (take n (sort ls)))
        (remove_all (take n (sort ls)) ls)
stay-newer n ls =
    let gone : List Live = take n (sort ls) in
    settle (remove_all gone ls)
      (All-remove_all (IsAfter gone) gone ls
        (All-of_sort (IsAfter gone) ls (take-IsAfter n (sort ls) (sort-IsOrdered ls))))
      (gone_are_gone gone ls)
  where
    settle :
        (xs : List Live)
        → All (IsAfter (take n (sort ls))) xs
        → All (λ l. holds l.sid (take n (sort ls)) ≡ false) xs
        → All (λ l. All (λ g. g.started ≤ l.started) (take n (sort ls))) xs
    settle [] h k = tt
    settle (x ∷ xs) (inl a, h) k = (a, settle xs h k.1)
    settle (x ∷ xs) (inr e, h) k = cc (e, k.0)

-- Where a session stands in a list.
abbrev pub IsOneOf : List Live → Live → Type 0
IsOneOf ls l = (i : ℕ) × (get_elem? ls i ≡ some l)

one_more : (x : Live) (xs ys : List Live) → All (IsOneOf xs) ys → All (IsOneOf (x ∷ xs)) ys
one_more x xs [] h = tt
one_more x xs (y ∷ ys) h = ((suc h.0.0, h.0.1), one_more x xs ys h.1)

pub each_IsOneOf : (xs : List Live) → All (IsOneOf xs) xs
each_IsOneOf [] = tt
each_IsOneOf (x ∷ xs) = ((0, refl), one_more x xs xs (each_IsOneOf xs))
