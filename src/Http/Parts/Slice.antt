-- ===== src/Http/Parts/Slice.antt =====
-- What `slice_parts` sends is the asked span of the joined body, whatever the cuts between files.
use den_remux.Prelude.{ℕ, some-inj, ◌+◌, ◌-◌, ◌≤◌, ◌<◌, ◌≡◌, ap, ◌∙◌, sym, refl, min, arith}
use den_remux.Prelude.{List, [], ◌∷◌, ◌++◌, some, leb, ◌==◌, length, take, drop}
use den_remux.Prelude.{length-take, length-drop, take-take, drop-take, take-append_any}
use den_remux.Prelude.{
  drop-append_le, drop-append_ge, Bool-cases, inl, inr, >>=-eq-some, drop-nil, take-nil,
}
use mathlib.Core.Path.{◌≡⟨◌⟩◌, ◌∎}
use den_remux.Http.Parts.{FileOps, Parts, IsSized, body, total, slice_loop, slice_parts}

-- The first file kept: its part of the span, and then the rest of the span from the next file on.
cut_first {ℓ} :
    {A : Type ℓ} (c more : List A) (len skip left : ℕ)
    → len ≤ length c
    → skip ≤ len
    → take left (drop skip (take len c ++ more))
      ≡ take (min (len - skip) left) (drop skip c) ++ take (left - min (len - skip) left) more
cut_first c more len skip left fits inside =
    take left (drop skip (take len c ++ more))
    ≡⟨ ap (take left) (drop-append_le skip (take len c) more (omega (arith, length-take len c))) ⟩
      take left (drop skip (take len c) ++ more)
    ≡⟨ ap (λ t. take left (t ++ more)) (drop-take skip len c) ⟩
      take left (take (len - skip) (drop skip c) ++ more)
    ≡⟨ take-append_any left (take (len - skip) (drop skip c)) more ⟩
      take left (take (len - skip) (drop skip c))
      ++ take (left - length (take (len - skip) (drop skip c))) more
    ≡⟨ rw (take-take left (len - skip) (drop skip c)) (
        ap (λ k. take (min (len - skip) left) (drop skip c) ++ take k more)
          {x = left - length (take (len - skip) (drop skip c))} {y = left - min (len - skip) left}
          (omega (arith, length-take (len - skip) (drop skip c), length-drop skip c))) ⟩
      take (min (len - skip) left) (drop skip c) ++ take (left - min (len - skip) left) more ∎

-- A file before the span is passed over.
skip_first {ℓ} :
    {A : Type ℓ} (c more : List A) (len skip : ℕ)
    → len ≤ length c
    → len ≤ skip
    → drop skip (take len c ++ more) ≡ drop (skip - len) more
skip_first c more len skip fits past =
    drop-append_ge skip (take len c) more (omega (arith, length-take len c))
    ∙ ap (λ k. drop k more) {x = skip - length (take len c)} {y = skip - len}
        (omega (arith, length-take len c))

module _ (os : FileOps) where
  open os use {File, rest, seek, rest-seek}

  body-slice_loop :
      (ps : Parts os) (skip left : ℕ) (out : Parts os)
      → IsSized os ps
      → slice_loop os ps skip left ≡ some out
      → body os out ≡ take left (drop skip (body os ps))
  unfolding slice_loop body
  body-slice_loop [] skip left out h e =
      ap (body os) (sym (some-inj e)) ∙ sym (ap (take left) (drop-nil skip) ∙ take-nil left)
  body-slice_loop ((f, len) ∷ ps) skip left out h e = elim (Bool-cases (left == 0)) [
    | inl done ↦
        let empty : some [] ≡ some out = rw (done, slice_loop) at e in
        let zero_left : left ≡ 0 = ground arith in
        ap (body os) (sym (some-inj empty))
        ∙ ap (λ k. take k (drop skip (take len (rest f) ++ body os ps))) (sym zero_left)
    | inr more ↦ elim (Bool-cases (leb len skip)) [
      | inl past ↦
          body-slice_loop ps (skip - len) left out h.1 (rw (more, past, slice_loop) at e)
          ∙ ap (take left) (sym (skip_first (rest f) (body os ps) len skip h.0 (ground arith)))
      | inr here ↦
          let (g, sought, e1) = >>=-eq-some (seek f skip) _ (rw (more, here, slice_loop) at e) in
          let (tail, sliced, e2) =
            >>=-eq-some (slice_loop os ps 0 (left - min (len - skip) left)) _ e1 in
          ap (body os) (sym (some-inj e2))
          ∙ ap (λ r. take (min (len - skip) left) r ++ body os tail) (rest-seek f g skip sought)
          ∙ ap (λ b. take (min (len - skip) left) (drop skip (rest f)) ++ b)
              (body-slice_loop ps 0 (left - min (len - skip) left) tail h.1 sliced)
          ∙ (sym (cut_first (rest f) (body os ps) len skip left h.0 (ground arith)))
    ]
  ]

  -- The loop never sends more than was asked, and exactly that where the files go on long enough.
  total-slice_loop :
      (ps : Parts os) (skip left : ℕ) (out : Parts os)
      → slice_loop os ps skip left ≡ some out
      → total os out ≡ min left (total os ps - skip)
  unfolding slice_loop total
  total-slice_loop [] skip left out e = ap (total os) (sym (some-inj e)) ∙ omega arith
  total-slice_loop ((f, len) ∷ ps) skip left out e = elim (Bool-cases (left == 0)) [
    | inl done ↦
        let empty : some [] ≡ some out = rw (done, slice_loop) at e in
        ap (total os) (sym (some-inj empty)) ∙ ground arith
    | inr more ↦ elim (Bool-cases (leb len skip)) [
      | inl past ↦
          let tail = total-slice_loop ps (skip - len) left out (rw (more, past, slice_loop) at e) in
          ground arith
      | inr here ↦
          let (g, sought, e1) = >>=-eq-some (seek f skip) _ (rw (more, here, slice_loop) at e) in
          let (tail, sliced, e2) =
            >>=-eq-some (slice_loop os ps 0 (left - min (len - skip) left)) _ e1 in
          let after = total-slice_loop ps 0 (left - min (len - skip) left) tail sliced in
          ap (total os) (sym (some-inj e2)) ∙ ground arith
    ]
  ]

  -- Where the files hold the lengths read from them and no seek fails, the cut parts stream the
  -- bytes `start` to `end` of the joined body, wherever the cuts between files fall.
  pub slice_parts-body :
      (ps out : Parts os) (start end : ℕ)
      → IsSized os ps
      → slice_parts os ps start end ≡ some out
      → body os out ≡ take (end - start + 1) (drop start (body os ps))
  unfolding slice_parts
  slice_parts-body ps out start end h e = body-slice_loop ps start (end - start + 1) out h e

  -- For an ordered span within the summed lengths, where no seek fails, the lengths of the cut parts
  -- add up to the length of the span.
  pub slice_parts-total :
      (ps out : Parts os) (start end : ℕ)
      → start ≤ end
      → end < total os ps
      → slice_parts os ps start end ≡ some out
      → total os out ≡ end - start + 1
  unfolding slice_parts
  slice_parts-total ps out start end h k e =
      total-slice_loop ps start (end - start + 1) out e ∙ omega arith

  -- Files that can be sought within their bytes.
  abbrev pub CanSeek : Type 0
  CanSeek = (f : File) (n : ℕ) → n ≤ length (rest f) → (g : File) × (seek f n ≡ some g)

  slice_loop-some :
      (ps : Parts os) (skip left : ℕ)
      → CanSeek
      → IsSized os ps
      → (out : Parts os) × (slice_loop os ps skip left ≡ some out)
  unfolding slice_loop
  slice_loop-some [] skip left can h = ([], refl)
  slice_loop-some ((f, len) ∷ ps) skip left can h = elim (Bool-cases (left == 0)) [
    | inl done ↦ ([], rw (done, slice_loop))
    | inr more ↦ elim (Bool-cases (leb len skip)) [
      | inl past ↦
          let (out, e) = slice_loop-some ps (skip - len) left can h.1 in
          (out, rw (more, past, slice_loop) e)
      | inr here ↦
          let (g, sought) = can f skip (ground arith) in
          let (out, e) = slice_loop-some ps 0 (left - min (len - skip) left) can h.1 in
          ((g, min (len - skip) left) ∷ out, rw (more, here, sought, e, slice_loop) refl)
    ]
  ]

  pub slice_parts-some :
      (ps : Parts os) (start end : ℕ)
      → CanSeek
      → IsSized os ps
      → (out : Parts os) × (slice_parts os ps start end ≡ some out)
  unfolding slice_parts
  slice_parts-some ps start end can h = slice_loop-some ps start (end - start + 1) can h
