-- ===== src/Playlist/Rates/Sizes.antt =====
-- That each segment of a playlist is given its bytes.
use den_remux.Prelude.{
  ℕ, ◌≡◌, refl, ap, sym, ◌∙◌, List, [], ◌∷◌, map, length, Option, none, some, some-inj, Bool-cases,
  inl, inr, if◌then◌else◌,
}
use den_remux.Prelude.Floats.{Floats}
use den_remux.Playlist.{Segment, nought}
use den_remux.Playlist.Rates.{segment_bytes, scaled, span_bytes, byte_of, is_flat, last_of, sum}

length-map {ℓ κ} :
    {A : Type ℓ} {B : Type κ} (f : A → B) (xs : List A) → length (map f xs) ≡ length xs
length-map f [] = refl
length-map f (x ∷ xs) = rw (length-map f xs) refl

module _ (fl : Floats) where
  open fl use {F}

  length-scaled :
      (total : F) (size : Option ℕ) (bytes : List F)
      → length (scaled fl total size bytes) ≡ length bytes
  length-scaled total none bytes = refl
  length-scaled total (some size) bytes = elim (Bool-cases (fl.less (nought fl) total)) [
    | inl e ↦ rw (e, length-map (λ b. fl.over (fl.times b (fl.of_nat size)) total) bytes) refl
    | inr e ↦ rw e refl
  ]

  -- An index of two keyframes or more gives every segment its bytes, scaled or not.
  pub length-segment_bytes :
      (segs : List (Segment fl)) (index : List (F × ℕ)) (size : Option ℕ) (bytes : List F)
      → segment_bytes fl segs index size ≡ some bytes
      → length bytes ≡ length segs
  unfolding segment_bytes
  length-segment_bytes segs [] size bytes h = cc h
  length-segment_bytes segs (first ∷ index) size bytes h =
      elim (Bool-cases (is_flat fl first (last_of fl first index))) [
        | inl e ↦ cc (h, e)
        | inr e ↦
            let all : List F = map (span_bytes fl (byte_of fl first index)) segs in
            let g : some (scaled fl (sum fl (nought fl) all) size all) ≡ some bytes =
              ap (λ b. if b then none else some (scaled fl (sum fl (nought fl) all) size all))
                (sym e)
              ∙ h in
            ap length (sym (some-inj g))
            ∙ length-scaled (sum fl (nought fl) all) size all
            ∙ length-map (span_bytes fl (byte_of fl first index)) segs
      ]
