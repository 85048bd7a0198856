-- ===== src/Init/Steps.antt =====
-- One round of the loop of `walk_boxes`, src/job.rs, at a written box.
use den_remux.Prelude.{ℕ, suc, ◌+◌, ◌<◌, ◌≡◌, refl, ap, ◌∙◌, sym, arith, Bool, true, false}
use den_remux.Prelude.{List, ◌++◌, Option, none, some, Result, ok, err, leb, length, take}
use den_remux.Prelude.{take-append, drop-append, length-append}
use den_remux.Text.{same}
use den_remux.Init.{Refusal, boxed, walk_loop}
use den_remux.Init.Boxes.{Box, IsBox, length-boxed, box_at-boxed}

-- What a pass makes of one box: `some body` of `inner` is a new body, for a box of the wanted kind.
abbrev pub Inner : Type 0
Inner = List ℕ → Result Refusal (Option (List ℕ))

leb-eq-false : (m n : ℕ) → n < m → leb m n ≡ false
leb-eq-false m n h = ground arith

module _ (pre more : List ℕ) (b : Box) (is_box : IsBox b) where
  abbrev pub whole : List ℕ
  whole = pre ++ (boxed b.kind b.body ++ more)

  pub taken : take (length b.body + 8) (boxed b.kind b.body ++ more) ≡ boxed b.kind b.body
  taken =
      ap (λ n. take n (boxed b.kind b.body ++ more)) (sym (length-boxed b is_box more))
      ∙ take-append (boxed b.kind b.body) more

  pub length-whole : length whole ≡ length pre + (length b.body + 8 + length more)
  length-whole = omega (
    arith,
    length-append pre (boxed b.kind b.body ++ more),
    length-append (boxed b.kind b.body) more,
    length-boxed b is_box more,
  )

  pub inside : leb (length whole) (length pre) ≡ false
  inside = leb-eq-false (length whole) (length pre) (omega (arith, length-whole))

module _ (inner : Inner) (kind : List ℕ) (pre more : List ℕ) (b : Box) (is_box : IsBox b) where
  pub step_other :
      (f : ℕ) (out : List ℕ) (changed : Bool)
      → same b.kind kind ≡ false
      → walk_loop inner kind (suc f) (whole pre more b is_box) (length pre) out changed
        ≡ walk_loop inner kind f
            (whole pre more b is_box)
            (length pre + (length b.body + 8))
            (out ++ boxed b.kind b.body)
            changed
  unfolding walk_loop
  step_other f out changed h =
      rw
        (
          inside pre more b is_box,
          drop-append pre (boxed b.kind b.body ++ more),
          box_at-boxed b is_box more,
          h,
          taken pre more b is_box,
        )
        refl

  pub step_none :
      (f : ℕ) (out : List ℕ) (changed : Bool)
      → same b.kind kind ≡ true
      → inner b.body ≡ ok none
      → walk_loop inner kind (suc f) (whole pre more b is_box) (length pre) out changed
        ≡ walk_loop inner kind f
            (whole pre more b is_box)
            (length pre + (length b.body + 8))
            (out ++ boxed b.kind b.body)
            changed
  unfolding walk_loop
  step_none f out changed h e =
      rw
        (
          inside pre more b is_box,
          drop-append pre (boxed b.kind b.body ++ more),
          box_at-boxed b is_box more,
          h,
          e,
          drop-append pre (boxed b.kind b.body ++ more),
          taken pre more b is_box,
        )
        refl

  pub step_some :
      (f : ℕ) (out body : List ℕ) (changed : Bool)
      → same b.kind kind ≡ true
      → inner b.body ≡ ok (some body)
      → walk_loop inner kind (suc f) (whole pre more b is_box) (length pre) out changed
        ≡ walk_loop inner kind f
            (whole pre more b is_box)
            (length pre + (length b.body + 8))
            (out ++ boxed b.kind body)
            true
  unfolding walk_loop
  step_some f out body changed h e =
      rw
        (
          inside pre more b is_box,
          drop-append pre (boxed b.kind b.body ++ more),
          box_at-boxed b is_box more,
          h,
          e,
        )
        refl

  pub step_err :
      (f : ℕ) (out : List ℕ) (changed : Bool) (why : Refusal)
      → same b.kind kind ≡ true
      → inner b.body ≡ err why
      → walk_loop inner kind (suc f) (whole pre more b is_box) (length pre) out changed ≡ err why
  unfolding walk_loop
  step_err f out changed why h e =
      rw
        (
          inside pre more b is_box,
          drop-append pre (boxed b.kind b.body ++ more),
          box_at-boxed b is_box more,
          h,
          e,
        )
        refl
