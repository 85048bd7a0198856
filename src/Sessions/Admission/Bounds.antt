-- ===== src/Sessions/Admission/Bounds.antt =====
-- What stays true of the sessions and the slots, whatever requests, players and timers do.
use den_remux.Prelude.{
  ℕ, suc, ◌+◌, ◌≤◌, ◌<◌, ◌≡◌, refl, sym, ap, ◌∙◌, subst, arith, true, false, not, List, ◌∷◌, ◌++◌,
  Option, none, some, length, length-append, take, length-retain, Bool-cases, inl, inr, find,
}
use den_remux.Text.{Text, same}
use den_remux.Text.Same.{same_refl}
use den_remux.Sessions.Admission.{
  Live, Server, Slot, has_sid, count_of, total, mine, remove, fits, chosen, granted, drop_slot,
  insert_session, replacement_started, replacement_played, abandon, end_session, end_removed,
  end_found, end_old, is_taking_over, end_replacement, is_some,
}
use den_remux.Sessions.Admission.Lists.{
  IsDistinct, holds-remove_self, IsDistinct-remove, IsDistinct-remove_all,
}
use den_remux.Sessions.Admission.Counts.{
  Held, World, one_if, held_by, unpublished, IsKeyed, held_by-append, unpublished-append,
  unpublished-le-length, total-bump, total-lower, count_of-bump, count_of-lower, bump-IsKeyed,
  lower-IsKeyed,
}
use den_remux.Sessions.Admission.Granted.{granted_room, chosen-le, reserve-IsGranted}
use den_remux.Sessions.Admission.Steps.{
  Step, reserves, publishes, drops, ends, clears, plays, abandons, Reach, starts, goes_on,
}

pub record IsSound (limit : ℕ) (w : World) : Type 0 where
  pub distinct : IsDistinct w.server.sessions
  pub keyed : IsKeyed w.server.creating
  pub counted : (owner : Text) → count_of owner w.server.creating ≡ held_by owner w.held
  pub summed : total w.server.creating ≡ length w.held
  pub bounded : length w.server.sessions + unpublished w.held ≤ limit

module _ (limit : ℕ) where
  abbrev world_of : Server → List Held → World
  world_of s held = record { server = s; held = held }

  granted-IsSound :
      (s : Server) (held : List Held) (owner : Text) (choice : ℕ × Option Text)
      → IsSound limit (world_of s held)
      → choice.0 ≤ length (mine s owner)
      → fits limit s choice.0 ≡ true
      → IsSound limit (
          world_of
            (granted s owner choice).0
            (record { slot = (granted s owner choice).1.0; published = false } ∷ held))
  unfolding granted fits held_by unpublished
  granted-IsSound s held owner choice v n f = record {
    distinct = IsDistinct-remove_all (take choice.0 (mine s owner)) s.sessions v.distinct;
    keyed = bump-IsKeyed owner s.creating v.keyed;
    counted =
        λ o. count_of-bump owner o s.creating ∙ ap (λ c. one_if (same owner o) + c) (v.counted o);
    summed = total-bump owner s.creating ∙ ap suc v.summed;
    bounded = ground (
      arith,
      f,
      v.summed,
      unpublished-le-length held,
      granted_room s owner choice.0 v.distinct n,
    );
  }

  held_by_middle :
      (o : Text) (earlier later : List Held) (h : Held)
      → held_by o (earlier ++ (h ∷ later))
        ≡ one_if (same h.slot.owner o) + held_by o (earlier ++ later)
  unfolding held_by
  held_by_middle o earlier later h =
      omega (arith, held_by-append o earlier (h ∷ later), held_by-append o earlier later)

  unpublished_middle :
      (earlier later : List Held) (h : Held)
      → unpublished (earlier ++ (h ∷ later))
        ≡ one_if (not h.published) + unpublished (earlier ++ later)
  unfolding unpublished
  unpublished_middle earlier later h =
      omega (arith, unpublished-append earlier (h ∷ later), unpublished-append earlier later)

  length_middle :
      (earlier later : List Held) (h : Held)
      → length (earlier ++ (h ∷ later)) ≡ suc (length (earlier ++ later))
  length_middle earlier later h =
      omega (arith, length-append earlier (h ∷ later), length-append earlier later)

  publish-IsSound :
      (s : Server) (earlier later : List Held) (slot : Slot) (l : Live)
      → IsSound limit (world_of s (earlier ++ (record { slot = slot; published = false } ∷ later)))
      → IsSound limit (
          world_of
            (replacement_started (insert_session s l) slot l.sid)
            (earlier ++ (record { slot = slot; published = true } ∷ later)))
  unfolding insert_session replacement_started IsDistinct remove
  publish-IsSound s earlier later slot l v =
      let old : Held = record { slot = slot; published = false } in
      let new : Held = record { slot = slot; published = true } in
      record {
        distinct =
            (holds-remove_self l.sid s.sessions, IsDistinct-remove l.sid s.sessions v.distinct);
        keyed = v.keyed;
        counted = λ o.
            v.counted o
            ∙ held_by_middle o earlier later old
            ∙ sym (held_by_middle o earlier later new);
        summed = v.summed ∙ length_middle earlier later old ∙ sym (length_middle earlier later new);
        bounded = omega (
          arith,
          v.bounded,
          unpublished_middle earlier later old,
          unpublished_middle earlier later new,
          length-retain (λ x. not (has_sid l.sid x)) s.sessions,
        );
      }

  drop-IsSound :
      (s : Server) (earlier later : List Held) (h : Held)
      → IsSound limit (world_of s (earlier ++ (h ∷ later)))
      → IsSound limit (world_of (drop_slot s h.slot) (earlier ++ later))
  unfolding drop_slot
  drop-IsSound s earlier later h v =
      let owner : Text = h.slot.owner in
      let mine_too : same owner owner ≡ true = same_refl owner in
      let held : 0 < count_of owner s.creating =
        omega (arith, v.counted owner, held_by_middle owner earlier later h, ap one_if mine_too) in
      record {
        distinct = v.distinct;
        keyed = lower-IsKeyed owner s.creating v.keyed;
        counted = λ o. omega (
          arith,
          count_of-lower owner o s.creating v.keyed,
          v.counted o,
          held_by_middle o earlier later h,
        );
        summed =
            omega
              (arith, total-lower owner s.creating held, v.summed, length_middle earlier later h);
        bounded = omega (arith, v.bounded, unpublished_middle earlier later h);
      }

  end_found-IsSound :
      (s : Server) (held : List Held) (now : ℕ) (o : Option Live)
      → IsSound limit (world_of s held)
      → IsSound limit (world_of (end_found s now o) held)
  unfolding end_removed remove
  end_found-IsSound s held now none v = v
  end_found-IsSound s held now (some l) v = record {
    distinct = IsDistinct-remove l.sid s.sessions v.distinct;
    keyed = v.keyed;
    counted = v.counted;
    summed = v.summed;
    bounded = omega (arith, v.bounded, length-retain (λ x. not (has_sid l.sid x)) s.sessions);
  }

  end_session-IsSound :
      (s : Server) (held : List Held) (sid : Text) (now : ℕ)
      → IsSound limit (world_of s held)
      → IsSound limit (world_of (end_session s sid now) held)
  unfolding end_session
  end_session-IsSound s held sid now v =
      end_found-IsSound s held now (find (has_sid sid) s.sessions) v

  -- What an operation on the replacements alone keeps.
  same_sessions :
      (s t : Server) (held : List Held)
      → s.sessions ≡ t.sessions
      → s.creating ≡ t.creating
      → IsSound limit (world_of s held)
      → IsSound limit (world_of t held)
  same_sessions s t held e f v = record {
    distinct = subst IsDistinct e v.distinct;
    keyed = subst IsKeyed f v.keyed;
    counted = λ o. ap (count_of o) (sym f) ∙ v.counted o;
    summed = ap total (sym f) ∙ v.summed;
    bounded = subst (λ ls. length ls + unpublished held ≤ limit) e v.bounded;
  }

  end_old-IsSound :
      (s : Server) (held : List Held) (now : ℕ) (old : Option Text)
      → IsSound limit (world_of s held)
      → IsSound limit (world_of (end_old s now old) held)
  end_old-IsSound s held now none v = v
  end_old-IsSound s held now (some old) v = end_session-IsSound s held old now v

  abandon-IsSound :
      (s : Server) (held : List Held) (owner new : Text) (now : ℕ)
      → IsSound limit (world_of s held)
      → IsSound limit (world_of (abandon s owner new now) held)
  unfolding abandon
  abandon-IsSound s held owner new now v =
      elim (Bool-cases (is_some (find (is_taking_over owner new) s.replacements))) [
        | inl e ↦ rw e (
            end_session-IsSound (end_replacement owner new s) held new now
              (same_sessions s (end_replacement owner new s) held refl refl v))
        | inr e ↦ rw e v
      ]

  Step-IsSound : (v w : World) → IsSound limit v → Step limit v w → IsSound limit w
  unfolding replacement_played end_removed
  Step-IsSound v w h (reserves _ owner share replaces t slot gone e) =
      let g = reserve-IsGranted limit v.server owner share replaces t slot gone e in
      subst
        (λ (r : Server × (Slot × List Live)).
          IsSound limit (world_of r.0 (record { slot = r.1.0; published = false } ∷ v.held)))
        g.result
        (granted-IsSound v.server v.held owner (chosen limit v.server owner share g.old) h
          (chosen-le limit v.server owner share g.old g.pending) g.room)
  Step-IsSound v w h (publishes _ earlier later slot l e) =
      publish-IsSound v.server earlier later slot l
        (subst (λ hs. IsSound limit (world_of v.server hs)) e h)
  Step-IsSound v w h (drops _ earlier later held e) =
      drop-IsSound v.server earlier later held
        (subst (λ hs. IsSound limit (world_of v.server hs)) e h)
  Step-IsSound v w h (ends _ sid now) = end_session-IsSound v.server v.held sid now h
  Step-IsSound v w h (clears _ l now) =
      same_sessions v.server (end_removed v.server l now) v.held refl refl h
  Step-IsSound v w h (plays _ l now) =
      end_old-IsSound (end_replacement l.owner l.sid v.server) v.held now _
        (same_sessions v.server (end_replacement l.owner l.sid v.server) v.held refl refl h)
  Step-IsSound v w h (abandons _ owner new now) = abandon-IsSound v.server v.held owner new now h

  -- However requests, players and timers interleave: the sessions and the slots whose session is not
  -- yet published are together at most the limit of the server, no session id is twice, and
  -- `creating` counts exactly the slots that are held, in all and for each owner.
  pub Reach-IsSound : (w : World) → Reach limit w → IsSound limit w
  unfolding IsDistinct IsKeyed unpublished total count_of held_by
  Reach-IsSound w starts = record {
    distinct = tt;
    keyed = tt;
    counted = λ o. refl;
    summed = refl;
    bounded = omega arith;
  }
  Reach-IsSound w (goes_on {v} r s) = Step-IsSound v w (Reach-IsSound v r) s
