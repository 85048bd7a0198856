-- ===== src/Matroska/Index/Walk.antt =====
-- The walk over the elements of a cluster, and of its block groups, src/probe/mkv.rs.
use den_remux.Prelude.{ℕ, zero, suc, ◌+◌, ◌^◌, ◌≤◌, ◌<◌, ◌≡◌, refl, arith, All, ap, ◌∙◌}
use den_remux.Prelude.{List, [], ◌∷◌, ◌++◌, Option, none, length, length-append, append_assoc}
use den_remux.Prelude.{
  find_map, or_else, Bool, true, false, min, append-nil, drop-all, ltb-eq-false,
}
use den_remux.Matroska.Index.Cues.{header_nil}
use den_remux.Matroska.Read.{
  Element, IsElement, encode, element_bytes, length-element_bytes, header-whole, payload-whole,
  checked_add-whole, length-whole,
}
use den_remux.Matroska.Index.{in_element, blocks_loop, first_nested, first_in_blocks}

module _ {ℓ} {T : Type ℓ} (pick : List ℕ → Option T) (track : ℕ) (group : List ℕ → Option T)
    (nested : Bool) where
  abbrev pub element_of : Element → Option T
  element_of e = in_element pick track group nested e.id e.payload

  blocks_loop-step :
      (pre more : List ℕ) (e : Element) (ok_e : IsElement e) (f : ℕ)
      → length (pre ++ (element_bytes e ++ more)) < 2 ^ 64
      → blocks_loop pick track group nested (suc f) (pre ++ (element_bytes e ++ more)) (length pre)
        ≡ or_else (element_of e) (
            blocks_loop pick track group nested f
              (pre ++ (element_bytes e ++ more))
              (length pre + length (element_bytes e)))
  unfolding blocks_loop
  blocks_loop-step pre more e ok_e f small =
      let n = length pre + (e.id_width + e.size_width + 2) + length e.payload in
      let fits : min n (length (pre ++ (element_bytes e ++ more))) ≡ n =
        omega (arith, length-whole pre more e ok_e) in
      rw
        (
          header-whole pre more e ok_e,
          checked_add-whole pre more e ok_e small,
          payload-whole pre more e ok_e _ fits,
          ltb-eq-false (length (pre ++ (element_bytes e ++ more))) (length pre)
              (omega (arith, length-whole pre more e ok_e)),
          ltb-eq-false (length (pre ++ (element_bytes e ++ more))) n
              (omega (arith, length-whole pre more e ok_e)),
        )
        (ap
          (λ at.
            or_else (element_of e)
              (blocks_loop pick track group nested f (pre ++ (element_bytes e ++ more)) at))
          {x = n} {y = length pre + length (element_bytes e)}
          (omega (arith, length-element_bytes e)))

  -- At the end no header is left.
  blocks_loop-end : (f : ℕ) (b : List ℕ) → blocks_loop pick track group nested f b (length b) ≡ none
  unfolding blocks_loop
  blocks_loop-end zero b = refl
  blocks_loop-end (suc f) b = rw (drop-all (length b) b (omega arith), header_nil) (ground arith)

  blocks_loop-encode :
      (es : List Element) (pre : List ℕ) (f : ℕ)
      → All IsElement es
      → length (pre ++ encode es) < 2 ^ 64
      → length (encode es) ≤ f
      → blocks_loop pick track group nested f (pre ++ encode es) (length pre)
        ≡ find_map element_of es
  unfolding encode find_map
  blocks_loop-encode [] pre f h s k = rw (append-nil pre) (blocks_loop-end f pre)
  blocks_loop-encode (e ∷ es) pre zero h s k =
      absurd (omega (arith, length-append (element_bytes e) (encode es), length-element_bytes e))
  blocks_loop-encode (e ∷ es) pre (suc f) h s k =
      let over : (pre ++ element_bytes e) ++ encode es ≡ pre ++ (element_bytes e ++ encode es) =
        append_assoc pre (element_bytes e) (encode es) in
      let rest =
        blocks_loop-encode es (pre ++ element_bytes e) f h.1 (rw over s)
          (omega (arith, length-append (element_bytes e) (encode es), length-element_bytes e)) in
      blocks_loop-step pre (encode es) e h.0 f s
      ∙ ap (or_else (element_of e)) (rw (← length-append pre (element_bytes e), ← over) rest)

module _ {ℓ} {T : Type ℓ} (pick : List ℕ → Option T) (track : ℕ) where
  -- In a written BlockGroup payload shorter than 2^64 bytes, the walk gives the first thing, in
  -- order, that `pick` takes from the frame of a Block of the track, and none where there is none.
  pub first_nested-encode :
      (es : List Element)
      → All IsElement es
      → length (encode es) < 2 ^ 64
      → first_nested pick track (encode es) ≡ find_map (element_of pick track (λ _. none) true) es
  unfolding first_nested
  first_nested-encode es h s =
      blocks_loop-encode pick track (λ _. none) true es [] (length (encode es)) h s (omega arith)

  pub first_in_blocks-elements :
      (es : List Element)
      → All IsElement es
      → length (encode es) < 2 ^ 64
      → first_in_blocks pick track (encode es)
        ≡ find_map (element_of pick track (first_nested pick track) false) es
  unfolding first_in_blocks
  first_in_blocks-elements es h s =
      blocks_loop-encode pick track (first_nested pick track) false es [] (length (encode es)) h s
        (omega arith)
