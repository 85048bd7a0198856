-- ===== src/Mp4/Boxes.antt =====
-- Boxes as src/job.rs writes them are read back by the MP4 parser.
use den_remux.Prelude.{
  ℕ, zero, suc, ◌+◌, ◌-◌, ◌^◌, ◌%◌, ◌≤◌, ◌<◌, ◌≡◌, refl, ap, ◌∙◌, sym, arith, All, map, false,
}
use den_remux.Prelude.{List, [], ◌∷◌, ◌++◌, none, some, ◌==◌, length, take, drop}
use den_remux.Prelude.{
  take-append, drop-append, append_assoc, append-nil, ltb-eq-false, drop-drop, drop-all,
}
use den_remux.Bytes.{length-be_bytes, checked_add}
use den_remux.Init.{boxed}
use den_remux.Init.Boxes.{Box, IsBox, write, size, sized, parts, read_size, read_kind, long_enough}
use den_remux.Init.Steps.{length-whole, whole}
use den_remux.Init.Tables.{go_on, fuel_left, no_fuel}
use den_remux.Mp4.{u32_at, box_header, box_body, next_box, boxes_from, boxes}

module _ (b : Box) (is_box : IsBox b) (more : List ℕ) where
  box_header-boxed : box_header (boxed b.kind b.body ++ more) ≡ some (length b.body + 8, b.kind, 8)
  unfolding box_header u32_at
  box_header-boxed =
      rw (parts b is_box more, read_size b is_box more, read_kind b is_box more)
        (ground (arith, long_enough b is_box more))

  body-boxed : take (length b.body) (drop 8 (boxed b.kind b.body ++ more)) ≡ b.body
  unfolding boxed
  body-boxed =
      ap (λ w. take (length b.body) (drop 8 w))
        (append_assoc (sized b is_box more) (b.kind ++ b.body) more)
      ∙ ap (take (length b.body)) (
          ap (λ n. drop n (sized b is_box more ++ ((b.kind ++ b.body) ++ more))) {x = 8}
            {y = length (sized b is_box more) + length b.kind}
            (omega (arith, length-be_bytes 4 (size b is_box more % 2 ^ 32)))
          ∙ sym (drop-drop (length (sized b is_box more)) (length b.kind) _)
          ∙ ap (drop (length b.kind)) (
              drop-append (sized b is_box more) ((b.kind ++ b.body) ++ more)
              ∙ append_assoc b.kind b.body more)
          ∙ drop-append b.kind (b.body ++ more))
      ∙ take-append b.body more

abbrev content : Box → List ℕ × List ℕ
content b = (b.kind, b.body)

module _ (pre more : List ℕ) (b : Box) (is_box : IsBox b) where
  body-whole :
      (end : ℕ)
      → end ≡ length pre + (length b.body + 8)
      → take (end - (length pre + 8)) (drop (length pre + 8) (whole pre more b is_box)) ≡ b.body
  body-whole end h =
      ap (take (end - (length pre + 8))) (
        sym (drop-drop (length pre) 8 (whole pre more b is_box))
        ∙ ap (drop 8) (drop-append pre (boxed b.kind b.body ++ more)))
      ∙ ap (λ n. take n (drop 8 (boxed b.kind b.body ++ more))) {x = end - (length pre + 8)}
          {y = length b.body} (omega arith)
      ∙ body-boxed b is_box more

  checked_add-whole :
      length (whole pre more b is_box) < 2 ^ 64
      → checked_add (length pre) (length b.body + 8) ≡ some (length pre + (length b.body + 8))
  unfolding checked_add
  checked_add-whole small = ground (arith, length-whole pre more b is_box)

  box_body-whole :
      length (whole pre more b is_box) < 2 ^ 64
      → box_body (whole pre more b is_box) (length pre) (length b.body + 8) b.kind 8
        ≡ some (content b, length pre + (length b.body + 8))
  unfolding box_body
  box_body-whole small =
      rw (checked_add-whole small, body-whole (length pre + (length b.body + 8)) refl)
        (ground (arith, length-whole pre more b is_box))

  next_box-whole :
      length (whole pre more b is_box) < 2 ^ 64
      → next_box (whole pre more b is_box) (length pre)
        ≡ some (content b, length pre + (length b.body + 8))
  unfolding next_box
  next_box-whole small =
      rw (drop-append pre (boxed b.kind b.body ++ more), box_header-boxed b is_box more)
        (rw
          (
            ltb-eq-false (length (whole pre more b is_box)) (length pre)
                (omega (arith, length-whole pre more b is_box)),
            size_known (length b.body),
          )
          (box_body-whole small))
    where
      size_known : (n : ℕ) → ((n + 8) == 0) ≡ false
      size_known n = ground arith

next_box-end : (b : List ℕ) → next_box b (length b) ≡ none
unfolding next_box box_header u32_at
next_box-end b = rw (drop-all (length b) b (omega arith)) (ground arith)

boxes_from-write :
    (bs : List Box) (pre : List ℕ) (f : ℕ)
    → All IsBox bs
    → length (pre ++ write bs) < 2 ^ 64
    → length (write bs) ≤ f
    → boxes_from f (pre ++ write bs) (length pre) ≡ map content bs
unfolding write boxes_from
boxes_from-write [] pre zero h s k = refl
boxes_from-write [] pre (suc f) h s k = rw (append-nil pre, boxes_from, next_box-end pre) refl
boxes_from-write (b ∷ bs) pre zero h s k = absurd (no_fuel b bs h.0 k)
boxes_from-write (b ∷ bs) pre (suc f) h s k =
    rw (boxes_from, next_box-whole pre (write bs) b h.0 s)
      (ap (λ xs. content b ∷ xs)
        (sym (go_on (λ w at. boxes_from f w at) pre b h.0 bs)
          ∙ boxes_from-write bs (pre ++ boxed b.kind b.body) f h.1
              (rw (append_assoc pre (boxed b.kind b.body) (write bs)) s) (fuel_left b bs f h.0 k)))

-- Boxes with codes of four bytes and lengths below 2^32, written one after the other in fewer than
-- 2^64 bytes, are read back by the MP4 parser: all of them, in order, each with its code and its
-- body.
pub boxes-write :
    (bs : List Box) → All IsBox bs → length (write bs) < 2 ^ 64 → boxes (write bs) ≡ map content bs
unfolding boxes
boxes-write bs h s = boxes_from-write bs [] (length (write bs)) h s (omega arith)
