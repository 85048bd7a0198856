-- ===== src/Init/Entries.antt =====
-- `patch_stsd` of src/job.rs on a written sample description.
use den_remux.Prelude.{
  ℕ, zero, suc, ◌+◌, ◌≤◌, ◌≡◌, refl, ◌∙◌, sym, arith, All, Bool, true, false, ◌||◌, map,
}
use den_remux.Prelude.{List, [], ◌∷◌, ◌++◌, Option, none, some, Result, ok, length, if◌then◌else◌}
use den_remux.Prelude.{
  take-append, drop-append, append_assoc, append-nil, length-append, ltb-eq-false,
}
use den_remux.Text.{codes}
use den_remux.Init.{Refusal, boxed, is_hevc, patch_entry, stsd_loop, patch_stsd, entry_header}
use den_remux.Init.Boxes.{Box, IsBox, write, box_at-boxed}
use den_remux.Init.Steps.{inside, taken}
use den_remux.Init.Tables.{any_record, record_loop-write, go_on, fuel_left, no_fuel}

-- A sample entry: an HEVC one, its 78 bytes and its child boxes, or any other.
pub data Entry : Type 0 where
  hevc : List ℕ → List ℕ → List Box → Entry
  other : Box → Entry

abbrev pub entry_box : Entry → Box
entry_box (hevc kind fields children) = record { kind = kind; body = fields ++ write children }
entry_box (other b) = b

abbrev pub IsEntry : Entry → Type 0
IsEntry (hevc kind fields children) =
    IsBox (record { kind = kind; body = fields ++ write children })
    × (is_hevc kind ≡ true)
    × (length fields ≡ entry_header)
    × All IsBox children
IsEntry (other b) = IsBox b × (is_hevc b.kind ≡ false)

-- What the entry is to become, and whether there is an HEVC one.
unfoldable pub with_record : List ℕ → Entry → Box
with_record record_bytes (hevc kind fields children) = record {
  kind = codes "dvh1";
  body =
      if any_record children
      then fields ++ write children
      else (fields ++ write children) ++ record_bytes;
}
with_record record_bytes (other b) = b

unfoldable pub any_hevc : List Entry → Bool
any_hevc [] = false
any_hevc (hevc kind fields children ∷ es) = true
any_hevc (other b ∷ es) = any_hevc es

patch_entry-write :
    (fields record_bytes : List ℕ) (children : List Box)
    → length fields ≡ entry_header
    → All IsBox children
    → patch_entry (fields ++ write children) record_bytes
      ≡ ok (
          boxed (codes "dvh1") (
            if any_record children
            then fields ++ write children
            else (fields ++ write children) ++ record_bytes))
unfolding patch_entry
patch_entry-write fields record_bytes children n h =
    rw
      (
        ← n,
        record_loop-write children fields false (length (fields ++ write children)) h
            (omega (arith, length-append fields (write children))),
      )
      refl

module _ (record_bytes pre more : List ℕ) (b : Box) (is_box : IsBox b) where
  step_hevc :
      (f : ℕ) (out entry : List ℕ) (changed : Bool)
      → is_hevc b.kind ≡ true
      → patch_entry b.body record_bytes ≡ ok entry
      → stsd_loop record_bytes
          (suc f)
          (pre ++ (boxed b.kind b.body ++ more))
          (length pre)
          out
          changed
        ≡ stsd_loop record_bytes f
            (pre ++ (boxed b.kind b.body ++ more))
            (length pre + (length b.body + 8))
            (out ++ entry)
            true
  unfolding stsd_loop
  step_hevc f out entry changed h e =
      rw
        (
          inside pre more b is_box,
          drop-append pre (boxed b.kind b.body ++ more),
          box_at-boxed b is_box more,
          h,
          e,
        )
        refl

  step_kept :
      (f : ℕ) (out : List ℕ) (changed : Bool)
      → is_hevc b.kind ≡ false
      → stsd_loop record_bytes
          (suc f)
          (pre ++ (boxed b.kind b.body ++ more))
          (length pre)
          out
          changed
        ≡ stsd_loop record_bytes f
            (pre ++ (boxed b.kind b.body ++ more))
            (length pre + (length b.body + 8))
            (out ++ boxed b.kind b.body)
            changed
  unfolding stsd_loop
  step_kept f out changed h =
      rw
        (
          inside pre more b is_box,
          drop-append pre (boxed b.kind b.body ++ more),
          box_at-boxed b is_box more,
          h,
          taken pre more b is_box,
        )
        refl

abbrev patched : List ℕ → List ℕ → Bool → List Entry → Result Refusal (Option (List ℕ))
patched record_bytes out changed es = ok (
    if changed || any_hevc es
    then some (out ++ write (map (with_record record_bytes) es))
    else none)

stsd_loop-write :
    (es : List Entry) (record_bytes pre out : List ℕ) (changed : Bool) (f : ℕ)
    → All IsEntry es
    → length (write (map entry_box es)) ≤ f
    → stsd_loop record_bytes f (pre ++ write (map entry_box es)) (length pre) out changed
      ≡ patched record_bytes out changed es
unfolding write any_hevc with_record
stsd_loop-write [] record_bytes pre out changed zero h k =
    unfold stsd_loop in rw (append-nil pre) (ground (arith, append-nil out))
stsd_loop-write [] record_bytes pre out changed (suc f) h k =
    unfold stsd_loop in rw (append-nil pre) (ground (arith, append-nil out))
stsd_loop-write (hevc kind fields children ∷ es) record_bytes pre out changed zero h k =
    absurd (no_fuel (entry_box (hevc kind fields children)) (map entry_box es) h.0.0 k)
stsd_loop-write (other b ∷ es) record_bytes pre out changed zero h k =
    absurd (no_fuel b (map entry_box es) h.0.0 k)
stsd_loop-write (hevc kind fields children ∷ es) record_bytes pre out changed (suc f) h k =
    let b : Box = entry_box (hevc kind fields children) in
    let (is_box, is, n, boxes) = h.0 in
    let body : List ℕ = (with_record record_bytes (hevc kind fields children)).body in
    step_hevc record_bytes pre (write (map entry_box es)) b is_box f out (boxed (codes "dvh1") body)
      changed is (patch_entry-write fields record_bytes children n boxes)
    ∙ sym (
        go_on (λ w at. stsd_loop record_bytes f w at (out ++ boxed (codes "dvh1") body) true) pre b
          is_box (map entry_box es))
    ∙ stsd_loop-write es record_bytes (pre ++ boxed b.kind b.body)
        (out ++ boxed (codes "dvh1") body) true f h.1 (fuel_left b (map entry_box es) f is_box k)
    ∙ rw (append_assoc out (boxed (codes "dvh1") body) (write (map (with_record record_bytes) es)))
        (ground arith)
stsd_loop-write (other b ∷ es) record_bytes pre out changed (suc f) h k =
    step_kept record_bytes pre (write (map entry_box es)) b h.0.0 f out changed h.0.1
    ∙ sym (
        go_on (λ w at. stsd_loop record_bytes f w at (out ++ boxed b.kind b.body) changed) pre b
          h.0.0 (map entry_box es))
    ∙ stsd_loop-write es record_bytes (pre ++ boxed b.kind b.body) (out ++ boxed b.kind b.body)
        changed f h.1 (fuel_left b (map entry_box es) f h.0.0 k)
    ∙ rw (append_assoc out (boxed b.kind b.body) (write (map (with_record record_bytes) es))) refl

-- In a written sample description, eight bytes and then entries, each HEVC entry is written as
-- `dvh1` with its bytes, and with the record behind them unless a child box is a Dolby Vision record
-- already; every other entry is kept. With no HEVC entry nothing is written. HEVC entries have 78
-- bytes before their child boxes, and all boxes codes of four bytes and lengths below 2^32.
pub patch_stsd-write :
    (es : List Entry) (fields record_bytes : List ℕ)
    → length fields ≡ 8
    → All IsEntry es
    → patch_stsd (fields ++ write (map entry_box es)) record_bytes
      ≡ ok
          (if any_hevc es then some (fields ++ write (map (with_record record_bytes) es)) else none)
unfolding patch_stsd
patch_stsd-write es fields record_bytes n h =
    rw
      (
        ← n,
        take-append fields (write (map entry_box es)),
        ltb-eq-false (length (fields ++ write (map entry_box es))) (length fields)
            (omega (arith, length-append fields (write (map entry_box es)))),
      )
      (stsd_loop-write es record_bytes fields fields false
        (length (fields ++ write (map entry_box es))) h
        (omega (arith, length-append fields (write (map entry_box es)))))
