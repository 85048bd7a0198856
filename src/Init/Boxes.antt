-- ===== src/Init/Boxes.antt =====
-- A box, and that `box_at` reads back what `boxed` of src/job.rs writes.
use den_remux.Prelude.{ℕ, ◌+◌, ◌-◌, ◌%◌, ◌^◌, ◌≤◌, ◌<◌, ◌≡◌, ap, ◌∙◌, sym, arith}
use den_remux.Prelude.{List, [], ◌∷◌, ◌++◌, ok, length, take, drop}
use den_remux.Prelude.{take-append, drop-append, append_assoc, length-append, drop-drop}
use den_remux.Bytes.{be, be_bytes, length-be_bytes, be-be_bytes}
use den_remux.Init.{sized_box, box_at, boxed}

pub record Box : Type 0 where
  pub kind : List ℕ
  pub body : List ℕ

-- A code of four bytes, and a size that 32 bits hold.
abbrev pub IsBox : Box → Type 0
IsBox b = (length b.kind ≡ 4) × (length b.body + 8 < 2 ^ 32)

unfoldable pub write : List Box → List ℕ
write [] = []
write (b ∷ bs) = boxed b.kind b.body ++ write bs

module _ (b : Box) (is_box : IsBox b) (more : List ℕ) where
  abbrev pub size : ℕ
  size = length b.body + 8

  abbrev pub sized : List ℕ
  sized = be_bytes 4 (size % 2 ^ 32)

  pub size_fits : size % 2 ^ 32 ≡ size
  size_fits = omega arith

  pub parts : boxed b.kind b.body ++ more ≡ sized ++ (b.kind ++ (b.body ++ more))
  unfolding boxed
  parts =
      append_assoc sized (b.kind ++ b.body) more
      ∙ ap (λ t. sized ++ t) (append_assoc b.kind b.body more)

  pub length-boxed : length (boxed b.kind b.body) ≡ size
  unfolding boxed
  length-boxed = omega (
    arith,
    length-append sized (b.kind ++ b.body),
    length-append b.kind b.body,
    length-be_bytes 4 (size % 2 ^ 32),
  )

  pub read_size : be 0 (take 4 (sized ++ (b.kind ++ (b.body ++ more)))) ≡ size
  read_size =
      ap (be 0) (
        ap (λ n. take n (sized ++ (b.kind ++ (b.body ++ more))))
          (sym (length-be_bytes 4 (size % 2 ^ 32)))
        ∙ take-append sized (b.kind ++ (b.body ++ more)))
      ∙ be-be_bytes 4 0 (size % 2 ^ 32) (omega arith)
      ∙ omega arith

  behind_size : drop 4 (sized ++ (b.kind ++ (b.body ++ more))) ≡ b.kind ++ (b.body ++ more)
  behind_size =
      ap (λ n. drop n (sized ++ (b.kind ++ (b.body ++ more))))
        (sym (length-be_bytes 4 (size % 2 ^ 32)))
      ∙ drop-append sized (b.kind ++ (b.body ++ more))

  pub read_kind : take 4 (drop 4 (sized ++ (b.kind ++ (b.body ++ more)))) ≡ b.kind
  read_kind =
      ap (take 4) behind_size
      ∙ ap (λ n. take n (b.kind ++ (b.body ++ more))) (sym is_box.0)
      ∙ take-append b.kind (b.body ++ more)

  pub read_body : take (size - 8) (drop 8 (sized ++ (b.kind ++ (b.body ++ more)))) ≡ b.body
  read_body =
      ap (take (size - 8)) (
        sym (drop-drop 4 4 (sized ++ (b.kind ++ (b.body ++ more))))
        ∙ ap (drop 4) behind_size
        ∙ ap (λ n. drop n (b.kind ++ (b.body ++ more))) (sym is_box.0)
        ∙ drop-append b.kind (b.body ++ more))
      ∙ ap (λ n. take n (b.body ++ more)) {x = size - 8} {y = length b.body} (omega arith)
      ∙ take-append b.body more

  pub long_enough : size ≤ length (sized ++ (b.kind ++ (b.body ++ more)))
  long_enough = omega (
    arith,
    length-append sized (b.kind ++ (b.body ++ more)),
    length-append b.kind (b.body ++ more),
    length-append b.body more,
    length-be_bytes 4 (size % 2 ^ 32),
  )

  -- A box with a code of four bytes and a length below 2^32 is read back as its code, its body and
  -- its length, whatever bytes stand behind it.
  pub box_at-boxed : box_at (boxed b.kind b.body ++ more) ≡ ok (b.kind, b.body, size)
  unfolding box_at sized_box
  box_at-boxed = rw (parts, read_size, read_kind, read_body) (ground (arith, long_enough))
