-- ===== src/Matroska/Walk.antt =====
-- The walk over the children of an element: its bounds, its end, and what it finds.
use den_remux.Prelude.{ℕ, zero, suc, ◌+◌, ◌-◌, ◌≤◌, ◌≡◌, refl, arith}
use den_remux.Prelude.{List, [], ◌∷◌, Option, none, some, length, drop, ap, ◌∙◌, sym}
use den_remux.Prelude.{>>=-eq-some, guard-eq-some, length-drop, length-take}
use den_remux.Prelude.{Option-cases, inl, inr, get_elem?, ltb, ◌||◌}
use den_remux.Bytes.{checked_add, leading_zeros}
use den_remux.Matroska.Element.{header, header_id, header_size, child_body, child_at, next_child}
use den_remux.Matroska.Element.{children_from, children}

header_size_bounds :
    (b : List ℕ) (n s m id : ℕ) (size : Option ℕ) (hl : ℕ)
    → header_size b n s m ≡ some (id, size, hl)
    → (hl ≡ n + m) × (hl ≤ length b) × (m ≤ 8)
unfolding header_size
header_size_bounds b n s m id size hl h = ground arith

header_id_bounds :
    (b : List ℕ) (n id : ℕ) (size : Option ℕ) (hl : ℕ)
    → header_id b n ≡ some (id, size, hl)
    → (n + 1 ≤ hl) × (hl ≤ length b) × (hl ≤ n + 8) × (n ≤ 4)
unfolding header_id
header_id_bounds b n id size hl h =
    let (test, h1) = guard-eq-some (ltb 4 n || ltb (length b) n) _ h in
    let (s, e, h2) = >>=-eq-some (get_elem? b n) _ h1 in
    ground (arith, header_size_bounds b n s (leading_zeros s + 1) id size hl)

-- On any bytes, a header that is read is two to twelve bytes long, all of them there.
pub header_bounds :
    (b : List ℕ) (id : ℕ) (size : Option ℕ) (hl : ℕ)
    → header b ≡ some (id, size, hl)
    → (2 ≤ hl) × (hl ≤ 12) × (hl ≤ length b)
unfolding header
header_bounds b id size hl h =
    let (first, e, h1) = >>=-eq-some (get_elem? b 0) _ h in
    omega (arith, header_id_bounds b (leading_zeros first + 1) id size hl h1)

pub child_at_bounds :
    (b : List ℕ) (pos id : ℕ) (size : Option ℕ) (hl : ℕ) (c : ℕ × List ℕ) (end : ℕ)
    → child_at b pos (id, size, hl) ≡ some (c, end)
    → (pos + hl ≤ end) × (end ≤ length b) × (length c.1 + pos + hl ≡ end)
unfolding child_at child_body checked_add
child_at_bounds b pos id none hl c end h = cc
child_at_bounds b pos id (some size) hl c end h = ground (
  arith,
  length-take (pos + hl + size - (pos + hl)) (drop (pos + hl) b),
  length-drop (pos + hl) b,
)

pub next_child_bounds :
    (b : List ℕ) (pos : ℕ) (c : ℕ × List ℕ) (end : ℕ)
    → next_child b pos ≡ some (c, end)
    → (pos + 2 + length c.1 ≤ end) × (end ≤ length b)
unfolding next_child
next_child_bounds b pos c end h =
    let (test, h1) = guard-eq-some (ltb (length b) pos) _ h in
    let (hdr, e, h2) = >>=-eq-some (header (drop pos b)) _ h1 in
    omega (
      arith,
      header_bounds (drop pos b) hdr.0 hdr.1 hdr.2 e,
      child_at_bounds b pos hdr.0 hdr.1 hdr.2 c end h2,
    )

-- At the end of the payload nothing is left to read.
pub next_child_end : (b : List ℕ) (pos : ℕ) → length b ≤ pos → next_child b pos ≡ none
next_child_end b pos h = elim (Option-cases (next_child b pos)) [
  | inl e ↦ e
  | inr ((c, end), e) ↦ absurd (omega (arith, next_child_bounds b pos c end e))
]

-- The two outcomes of a round.
pub children_from_zero : (b : List ℕ) (pos : ℕ) → children_from 0 b pos ≡ []
unfolding children_from
children_from_zero b pos = refl

pub children_from_stop :
    (f : ℕ) (b : List ℕ) (pos : ℕ) → next_child b pos ≡ none → children_from (suc f) b pos ≡ []
unfolding children_from
children_from_stop f b pos e = rw (e, children_from)

pub children_from_step :
    (f : ℕ) (b : List ℕ) (pos : ℕ) (c : ℕ × List ℕ) (end : ℕ)
    → next_child b pos ≡ some (c, end)
    → children_from (suc f) b pos ≡ c ∷ children_from f b end
unfolding children_from
children_from_step f b pos c end e = rw (e, children_from)

-- Fuel for the bytes that are left is enough: any two such walks find the same children.
children_from_fuel :
    (f g : ℕ) (b : List ℕ) (pos : ℕ)
    → length b ≤ pos + f
    → length b ≤ pos + g
    → children_from f b pos ≡ children_from g b pos
children_from_fuel zero zero b pos h k = refl
children_from_fuel zero (suc g) b pos h k =
    children_from_zero b pos ∙ sym (children_from_stop g b pos (next_child_end b pos (omega arith)))
children_from_fuel (suc f) zero b pos h k =
    children_from_stop f b pos (next_child_end b pos (omega arith)) ∙ sym (children_from_zero b pos)
children_from_fuel (suc f) (suc g) b pos h k = elim (Option-cases (next_child b pos)) [
  | inl e ↦ children_from_stop f b pos e ∙ sym (children_from_stop g b pos e)
  | inr ((c, end), e) ↦
      rw (children_from_step f b pos c end e, children_from_step g b pos c end e)
        (ap (λ cs. c ∷ cs)
          (let bounds = next_child_bounds b pos c end e in
            children_from_fuel f g b end (omega arith) (omega arith)))
]

-- The walk over the children ends by itself: with fuel for the length of the payload or more, the
-- children found are the same.
pub children_fuel : (f : ℕ) (b : List ℕ) → length b ≤ f → children_from f b 0 ≡ children b
unfolding children
children_fuel f b h = children_from_fuel f (length b) b 0 (omega arith) (omega arith)

-- The room that children take, two bytes of header at least for each.
unfoldable pub room : List (ℕ × List ℕ) → ℕ
room [] = 0
room (c ∷ cs) = length c.1 + 2 + room cs

room-children_from :
    (f : ℕ) (b : List ℕ) (pos : ℕ) → pos ≤ length b → pos + room (children_from f b pos) ≤ length b
unfolding room
room-children_from zero b pos h = rw (children_from_zero b pos) (omega arith)
room-children_from (suc f) b pos h = elim (Option-cases (next_child b pos)) [
  | inl e ↦ rw (children_from_stop f b pos e) (omega arith)
  | inr ((c, end), e) ↦ rw (children_from_step f b pos c end e) (
      let bounds = next_child_bounds b pos c end e in
      omega (arith, room-children_from f b end (omega arith)))
]

-- On any bytes, the children that are found fit side by side into their parent, with at least two
-- bytes of header for each.
pub room-children : (b : List ℕ) → room (children b) ≤ length b
unfolding children
room-children b = omega (arith, room-children_from (length b) b 0)
