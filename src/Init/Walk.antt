-- ===== src/Init/Walk.antt =====
-- The loop over byte offsets of `walk_boxes` is a pass over a list of boxes.
use den_remux.Prelude.{
  ℕ, zero, suc, ◌+◌, ◌≤◌, ◌≡◌, refl, ap, ◌∙◌, arith, All, Bool, true, false, ◌||◌,
}
use den_remux.Prelude.{
  List, [], ◌∷◌, ◌++◌, Option, none, some, Result, ok, err, ◌>>?◌, length, if◌then◌else◌,
}
use den_remux.Prelude.{append_assoc, append-nil, length-append, Bool-cases, inl, inr}
use den_remux.Text.{same, codes}
use den_remux.Init.{Refusal, boxed, walk_loop, patch_stsd, no_chunk_offsets, walk_boxes}
use den_remux.Init.Boxes.{Box, IsBox, write, length-boxed}
use den_remux.Init.Steps.{Inner, step_other, step_none, step_some, step_err}

-- The pass: each box of the wanted kind has its body rewritten, or is kept; `true` where one was.
unfoldable pub pass_one : Inner → List ℕ → Box → Result Refusal (Bool × Box)
pass_one inner kind b =
    if same b.kind kind
    then (inner b.body >>? λ o. elim o [
      | none ↦ ok (false, b)
      | some body ↦ ok (true, record { kind = b.kind; body = body })
    ])
    else ok (false, b)

unfoldable pub pass : Inner → List ℕ → List Box → Result Refusal (Bool × List Box)
pass inner kind [] = ok (false, [])
pass inner kind (b ∷ bs) =
    pass_one inner kind b >>? λ r. pass inner kind bs >>? λ rs. ok (r.0 || rs.0, r.1 ∷ rs.1)

-- The bytes behind `out`, if anything was rewritten.
unfoldable pub finish :
    List ℕ → Bool → Result Refusal (Bool × List Box) → Result Refusal (Option (List ℕ))
finish out changed (err why) = err why
finish out changed (ok (more, bs)) = ok (if changed || more then some (out ++ write bs) else none)

pub finish-cons :
    (out : List ℕ) (changed c : Bool) (b : Box) (r : Result Refusal (Bool × List Box))
    → finish (out ++ boxed b.kind b.body) (changed || c) r
      ≡ finish out changed (r >>? λ rs. ok (c || rs.0, b ∷ rs.1))
unfolding finish write
finish-cons out changed c b (err why) = refl
finish-cons out changed c b (ok (more, bs)) =
    rw (append_assoc out (boxed b.kind b.body) (write bs)) (ground arith)

module _ (inner : Inner) (kind : List ℕ) where
  walk_loop-end :
      (f : ℕ) (pre out : List ℕ) (changed : Bool)
      → walk_loop inner kind f (pre ++ []) (length pre) out changed
        ≡ finish out changed (ok (false, []))
  unfolding walk_loop finish write
  walk_loop-end zero pre out changed = rw (append-nil pre) (ground (arith, append-nil out))
  walk_loop-end (suc f) pre out changed = rw (append-nil pre) (ground (arith, append-nil out))

  step :
      (pre more : List ℕ) (b : Box) (is_box : IsBox b) (f : ℕ)
      (r : Result Refusal (Bool × List Box))
      → ((out : List ℕ) (changed : Bool)
          → walk_loop inner kind f
              (pre ++ (boxed b.kind b.body ++ more))
              (length pre + (length b.body + 8))
              out
              changed
            ≡ finish out changed r)
      → (out : List ℕ) (changed : Bool)
      → walk_loop inner kind (suc f) (pre ++ (boxed b.kind b.body ++ more)) (length pre) out changed
        ≡ finish out changed
            (pass_one inner kind b >>? λ x. r >>? λ rs. ok (x.0 || rs.0, x.1 ∷ rs.1))
  unfolding pass_one
  step pre more b is_box f r rest out changed = elim (Bool-cases (same b.kind kind)) [
    | inl h ↦ wanted h (inner b.body) refl
    | inr h ↦ step_other inner kind pre more b is_box f out changed h ∙ kept ∙ rw h refl
  ]
    where
      kept :
          walk_loop inner kind f
            (pre ++ (boxed b.kind b.body ++ more))
            (length pre + (length b.body + 8))
            (out ++ boxed b.kind b.body)
            changed
          ≡ finish out changed (r >>? λ rs. ok (false || rs.0, b ∷ rs.1))
      kept =
          rest (out ++ boxed b.kind b.body) changed
          ∙ ap (λ c. finish (out ++ boxed b.kind b.body) c r) {x = changed} {y = changed || false}
              (ground arith)
          ∙ finish-cons out changed false b r

      wanted :
          same b.kind kind ≡ true
          → (o : Result Refusal (Option (List ℕ))) → inner b.body ≡ o
          → walk_loop inner kind
              (suc f)
              (pre ++ (boxed b.kind b.body ++ more))
              (length pre)
              out
              changed
            ≡ finish out changed
                (pass_one inner kind b >>? λ x. r >>? λ rs. ok (x.0 || rs.0, x.1 ∷ rs.1))
      wanted h (err why) e =
          step_err inner kind pre more b is_box f out changed why h e
          ∙ (unfold finish in rw (h, e) refl)
      wanted h (ok none) e =
          step_none inner kind pre more b is_box f out changed h e ∙ kept ∙ rw (h, e) refl
      wanted h (ok (some body)) e =
          step_some inner kind pre more b is_box f out body changed h e
          ∙ rest (out ++ boxed b.kind body) true
          ∙ ap (λ c. finish (out ++ boxed b.kind body) c r) {x = true} {y = changed || true}
              (ground arith)
          ∙ finish-cons out changed true (record { kind = b.kind; body = body }) r
          ∙ rw (h, e) refl

  -- With fuel for the bytes, the loop over offsets makes of written boxes what the pass makes of them.
  pub walk_loop-write :
      (bs : List Box) (pre out : List ℕ) (changed : Bool) (f : ℕ)
      → All IsBox bs
      → length (write bs) ≤ f
      → walk_loop inner kind f (pre ++ write bs) (length pre) out changed
        ≡ finish out changed (pass inner kind bs)
  unfolding write pass
  walk_loop-write [] pre out changed f h k = walk_loop-end f pre out changed
  walk_loop-write (b ∷ bs) pre out changed zero h k =
      absurd (omega (arith, length-append (boxed b.kind b.body) (write bs), length-boxed b h.0 []))
  walk_loop-write (b ∷ bs) pre out changed (suc f) h k =
      let bx : List ℕ = boxed b.kind b.body in
      step pre (write bs) b h.0 f (pass inner kind bs)
        (λ out' changed'.
          rw (← length-boxed b h.0 [], ← length-append pre bx, ← append_assoc pre bx (write bs))
            (walk_loop-write bs (pre ++ bx) out' changed' f h.1
              (omega (arith, length-append bx (write bs), length-boxed b h.0 []))))
        out changed

-- What the walk makes of the body of a box on the path: the path's rest within it.
abbrev pub enter : List ℕ → List (List ℕ) → List ℕ → Inner
enter kind [] record_bytes body = patch_stsd body record_bytes
enter kind (next ∷ path) record_bytes body =
    (if same kind (codes "stbl") then no_chunk_offsets body else ok tt) >>? λ _.
    walk_boxes body (next ∷ path) record_bytes

-- On written boxes, each with a code of four bytes and a length below 2^32, the walk by byte offsets
-- is a pass over the boxes, in order: a box whose code heads the path has its body replaced by what
-- the rest of the path makes of it and is written with its new length, where it makes something;
-- every other box is kept as it is; nothing is written if no box was replaced, and the first refusal
-- ends it.
pub walk_boxes-write :
    (bs : List Box) (kind : List ℕ) (path : List (List ℕ)) (record_bytes : List ℕ)
    → All IsBox bs
    → walk_boxes (write bs) (kind ∷ path) record_bytes
      ≡ finish [] false (pass (enter kind path record_bytes) kind bs)
unfolding walk_boxes
walk_boxes-write bs kind [] record_bytes h =
    walk_loop-write (enter kind [] record_bytes) kind bs [] [] false (length (write bs)) h
      (omega arith)
walk_boxes-write bs kind (next ∷ path) record_bytes h =
    walk_loop-write (enter kind (next ∷ path) record_bytes) kind bs [] [] false (length (write bs))
      h (omega arith)
