-- ===== src/Init/Tables.antt =====
-- The other loops over boxes of src/job.rs, on written boxes: the search for chunk offsets, the search
-- for a Dolby Vision record in a sample entry, and the pass over the entries of `stsd`.
use den_remux.Prelude.{
  ℕ, zero, suc, ◌+◌, ◌≤◌, ◌≡◌, refl, ap, ◌∙◌, sym, arith, All, Bool, false, ◌||◌,
}
use den_remux.Prelude.{List, [], ◌∷◌, ◌++◌, ok, err, length, if◌then◌else◌}
use den_remux.Prelude.{drop-append, append_assoc, append-nil, length-append}
use den_remux.Text.{same, codes}
use den_remux.Init.{chunk_offsets, boxed, has_offsets, offsets_loop, no_chunk_offsets, record_loop}
use den_remux.Init.Boxes.{Box, IsBox, write, length-boxed, box_at-boxed}
use den_remux.Init.Steps.{inside}

unfoldable pub any_offsets : List Box → Bool
any_offsets [] = false
any_offsets (b ∷ bs) = has_offsets b.kind b.body || any_offsets bs

unfoldable pub is_record : Box → Bool
is_record b = same b.kind (codes "dvcC") || same b.kind (codes "dvvC")

unfoldable pub any_record : List Box → Bool
any_record [] = false
any_record (b ∷ bs) = is_record b || any_record bs

module _ (pre more : List ℕ) (b : Box) (is_box : IsBox b) where
  offsets_step :
      (f : ℕ)
      → offsets_loop (suc f) (pre ++ (boxed b.kind b.body ++ more)) (length pre) ≡ (
          if has_offsets b.kind b.body
          then err chunk_offsets
          else offsets_loop f
              (pre ++ (boxed b.kind b.body ++ more))
              (length pre + (length b.body + 8)))
  unfolding offsets_loop
  offsets_step f =
      rw
        (
          inside pre more b is_box,
          drop-append pre (boxed b.kind b.body ++ more),
          box_at-boxed b is_box more,
        )
        refl

  record_step :
      (f : ℕ) (found : Bool)
      → record_loop (suc f) (pre ++ (boxed b.kind b.body ++ more)) (length pre) found
        ≡ record_loop f
            (pre ++ (boxed b.kind b.body ++ more))
            (length pre + (length b.body + 8))
            (found || is_record b)
  unfolding record_loop is_record
  record_step f found =
      rw
        (
          inside pre more b is_box,
          drop-append pre (boxed b.kind b.body ++ more),
          box_at-boxed b is_box more,
        )
        refl

-- The list behind the first box begins where the loop goes on.
pub go_on {ℓ} :
    {R : Type ℓ} (loop : List ℕ → ℕ → R) (pre : List ℕ) (b : Box) (is_box : IsBox b) (bs : List Box)
    → loop ((pre ++ boxed b.kind b.body) ++ write bs) (length (pre ++ boxed b.kind b.body))
      ≡ loop (pre ++ (boxed b.kind b.body ++ write bs)) (length pre + (length b.body + 8))
go_on loop pre b is_box bs =
    rw
      (
        length-append pre (boxed b.kind b.body),
        length-boxed b is_box [],
        append_assoc pre (boxed b.kind b.body) (write bs),
      )
      refl

pub fuel_left :
    (b : Box) (bs : List Box) (f : ℕ)
    → IsBox b
    → length (boxed b.kind b.body ++ write bs) ≤ suc f
    → length (write bs) ≤ f
fuel_left b bs f is_box h =
    omega (arith, length-append (boxed b.kind b.body) (write bs), length-boxed b is_box [])

pub no_fuel : (b : Box) (bs : List Box) → IsBox b → length (boxed b.kind b.body ++ write bs) ≤ 0 → ⊥
no_fuel b bs is_box h =
    omega (arith, length-append (boxed b.kind b.body) (write bs), length-boxed b is_box [])

pub offsets_loop-write :
    (bs : List Box) (pre : List ℕ) (f : ℕ)
    → All IsBox bs
    → length (write bs) ≤ f
    → offsets_loop f (pre ++ write bs) (length pre)
      ≡ (if any_offsets bs then err chunk_offsets else ok tt)
unfolding write any_offsets
offsets_loop-write [] pre zero h k = unfold offsets_loop in rw (append-nil pre) (ground arith)
offsets_loop-write [] pre (suc f) h k = unfold offsets_loop in rw (append-nil pre) (ground arith)
offsets_loop-write (b ∷ bs) pre zero h k = absurd (no_fuel b bs h.0 k)
offsets_loop-write (b ∷ bs) pre (suc f) h k =
    offsets_step pre (write bs) b h.0 f
    ∙ (let rest =
          sym (go_on (offsets_loop f) pre b h.0 bs)
          ∙ offsets_loop-write bs (pre ++ boxed b.kind b.body) f h.1 (fuel_left b bs f h.0 k) in
        rw rest (ground arith))

pub record_loop-write :
    (bs : List Box) (pre : List ℕ) (found : Bool) (f : ℕ)
    → All IsBox bs
    → length (write bs) ≤ f
    → record_loop f (pre ++ write bs) (length pre) found ≡ ok (found || any_record bs)
unfolding write any_record
record_loop-write [] pre found zero h k = unfold record_loop in rw (append-nil pre) (ground arith)
record_loop-write [] pre found (suc f) h k =
    unfold record_loop in rw (append-nil pre) (ground arith)
record_loop-write (b ∷ bs) pre found zero h k = absurd (no_fuel b bs h.0 k)
record_loop-write (b ∷ bs) pre found (suc f) h k =
    record_step pre (write bs) b h.0 f found
    ∙ sym (go_on (λ w at. record_loop f w at (found || is_record b)) pre b h.0 bs)
    ∙ record_loop-write bs (pre ++ boxed b.kind b.body) (found || is_record b) f h.1
        (fuel_left b bs f h.0 k)
    ∙ ap ok (ground arith)

-- A written sample table, of boxes with codes of four bytes and lengths below 2^32, is refused
-- exactly if one of them is a table of chunk offsets whose count is missing or not zero.
pub no_chunk_offsets-write :
    (bs : List Box)
    → All IsBox bs
    → no_chunk_offsets (write bs) ≡ (if any_offsets bs then err chunk_offsets else ok tt)
unfolding no_chunk_offsets
no_chunk_offsets-write bs h = offsets_loop-write bs [] (length (write bs)) h (omega arith)
