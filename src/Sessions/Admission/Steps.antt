-- ===== src/Sessions/Admission/Steps.antt =====
-- What requests, players and timers do under the locks as steps, and what they reach from an empty server.
use den_remux.Prelude.{ℕ, ◌≡◌, true, false, List, [], ◌∷◌, ◌++◌, Option, ok}
use den_remux.Text.{Text}
use den_remux.Sessions.Admission.{
  Live, Server, Slot, reserve, drop_slot, insert_session, replacement_started, replacement_played,
  abandon, end_session, end_removed,
}
use den_remux.Sessions.Admission.Counts.{Held, World}

-- One call under the locks, which the source makes in one or two critical sections. A slot is published at most once,
-- and what a session that ended leaves behind is cleared later.
pub data Step (limit : ℕ) : World → World → Type 0 where
  reserves :
      (w : World) (owner : Text) (share : ℕ) (replaces : Option Text) (t : Server) (slot : Slot)
      (gone : List Live)
      → reserve limit w.server owner share replaces ≡ ok (t, (slot, gone))
      → Step limit w
          (record { server = t; held = record { slot = slot; published = false } ∷ w.held })
  publishes :
      (w : World) (earlier later : List Held) (slot : Slot) (l : Live)
      → w.held ≡ earlier ++ (record { slot = slot; published = false } ∷ later)
      → Step limit w (record {
        server = replacement_started (insert_session w.server l) slot l.sid;
        held = earlier ++ (record { slot = slot; published = true } ∷ later);
      })
  drops :
      (w : World) (earlier later : List Held) (h : Held)
      → w.held ≡ earlier ++ (h ∷ later)
      → Step limit w (record { server = drop_slot w.server h.slot; held = earlier ++ later })
  ends :
      (w : World) (sid : Text) (now : ℕ)
      → Step limit w (record w { server = end_session w.server sid now })
  clears :
      (w : World) (l : Live) (now : ℕ)
      → Step limit w (record w { server = end_removed w.server l now })
  plays :
      (w : World) (l : Live) (now : ℕ)
      → Step limit w (record w { server = replacement_played w.server l now })
  abandons :
      (w : World) (owner new : Text) (now : ℕ)
      → Step limit w (record w { server = abandon w.server owner new now })

abbrev pub empty : World
empty = record {
  server = record { sessions = []; creating = []; replacements = []; tombstones = [] };
  held = [];
}

pub data Reach (limit : ℕ) : World → Type 0 where
  starts : Reach limit empty
  goes_on : {v w : World} → Reach limit v → Step limit v w → Reach limit w
