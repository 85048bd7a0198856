-- ===== src/Http/Parts.antt =====
-- `slice_parts` of src/session.rs and `files_body` of src/httputil.rs: the files of a segment cut to
-- the bytes of a range, and the body that they stream.
pub mod Slice
use den_remux.Prelude.{ℕ, ◌+◌, ◌-◌, ◌≤◌, ◌<◌, ◌≡◌, ap, ◌∙◌, sym, refl, min, true, false, arith}
use den_remux.Prelude.{List, [], ◌∷◌, ◌++◌, Option, none, some, ltb, leb, ◌==◌, length, take, drop}
use den_remux.Prelude.{All, ◌>>=◌, length-take, length-drop, take-take, drop-take, take-append_any}
use den_remux.Prelude.{
  drop-append_le, drop-append_ge, Bool-cases, inl, inr, >>=-eq-some, zero, length-append,
  if◌then◌else◌,
}

-- Open files, which the operating system keeps: what a file still gives from its position on, and
-- a seek forward, which may fail.
pub record FileOps : Type 1 where
  pub File : Type 0
  pub rest : File → List ℕ
  pub seek : File → ℕ → Option File
  pub rest-seek : (f g : File) (n : ℕ) → seek f n ≡ some g → rest g ≡ drop n (rest f)

module _ (os : FileOps) where
  open os use {File, rest, seek, rest-seek}

  abbrev pub Parts : Type 0
  Parts = List (File × ℕ)

  -- `files_body`: `len` bytes of each file from its position, back to back.
  unfoldable pub body : Parts → List ℕ
  body [] = []
  body ((f, len) ∷ ps) = take len (rest f) ++ body ps

  -- The sum of the lengths, which `content-length` names.
  unfoldable pub total : Parts → ℕ
  total [] = 0
  total ((f, len) ∷ ps) = len + total ps

  -- Each length was read from its file, so the file has as many bytes.
  abbrev pub IsSized : Parts → Type 0
  IsSized ps = All (λ p. p.1 ≤ length (rest p.0)) ps

  -- The loop of `slice_parts`: `skip` bytes are to be passed over, and `left` are still wanted.
  unfoldable pub slice_loop : Parts → ℕ → ℕ → Option Parts
  slice_loop [] skip left = some []
  slice_loop ((f, len) ∷ ps) skip left = elim (left == 0) [
    | true ↦ some []
    | false ↦ elim (leb len skip) [
      | true ↦ slice_loop ps (skip - len) left
      | false ↦ seek f skip >>= λ g. slice_loop ps 0 (left - min (len - skip) left) >>= λ out.
          some ((g, min (len - skip) left) ∷ out)
    ]
  ]

  unfoldable pub slice_parts : Parts → ℕ → ℕ → Option Parts
  unfolding slice_loop
  slice_parts parts start end = slice_loop parts start (end - start + 1)

  pub length-body : (ps : Parts) → IsSized ps → length (body ps) ≡ total ps
  unfolding body total
  length-body [] h = refl
  length-body ((f, len) ∷ ps) h = omega (
    arith,
    length-body ps h.1,
    length-take len (rest f),
    length-append (take len (rest f)) (body ps),
  )
