-- ===== src/Mp4/Sync.antt =====
-- The byte index of an MP4 against a sum over the samples: what stands before each sync sample.
use den_remux.Prelude.{
  ℕ, zero, suc, ◌+◌, ◌-◌, ◌*◌, ◌≤◌, ◌<◌, ◌≡◌, refl, ap, ◌∙◌, sym, arith, min, ◌&&◌, ◌||◌,
}
use den_remux.Prelude.{
  List, [], ◌∷◌, Option, some, ◌>>=◌, ltb, ◌==◌, length, map, >>=-eq-some, guard-eq-some, some-inj,
  ltb-eq-false,
}
use den_remux.Text.{codes}
use den_remux.Mp4.{
  u32_at, child, max_samples, max_keyframes, sample_size, sync_sample, advance, sync_loop,
  sync_count, check_sizes, sync_sample_bytes,
}

-- The bytes of the first `m` samples, if all their sizes are known.
unfoldable pub bytes_of : (ℕ → Option ℕ) → ℕ → Option ℕ
bytes_of size zero = some 0
bytes_of size (suc m) = bytes_of size m >>= λ t. size (suc m) >>= λ s. some (t + s)

-- For each of `rounds` sync samples from number `i` on, the bytes of the samples before it.
unfoldable pub index_of : (ℕ → Option ℕ) → (ℕ → Option ℕ) → ℕ → ℕ → List (Option ℕ)
index_of size sample_at zero i = []
index_of size sample_at (suc rounds) i =
    (sample_at i >>= λ sample. bytes_of size (sample - 1)) ∷ index_of size sample_at rounds (i + 1)

cons_both {ℓ} : {A : Type ℓ} {x y : A} {xs ys : List A} → x ≡ y → xs ≡ ys → (x ∷ xs) ≡ (y ∷ ys)
cons_both h k = cc

module _ (size : ℕ → Option ℕ) (sample_at : ℕ → Option ℕ) (count : ℕ) where
  advance-bytes_of :
      (n before next before' : ℕ)
      → bytes_of size next ≡ some before
      → advance size sample_at count n before (next + 1) ≡ some before'
      → bytes_of size (next + n) ≡ some before'
  unfolding advance bytes_of
  advance-bytes_of zero before next before' h e =
      ap (bytes_of size) {x = next + 0} {y = next} (omega arith) ∙ h ∙ e
  advance-bytes_of (suc n) before next before' h e =
      let (s, e1, e2) = >>=-eq-some (size (next + 1)) _ e in
      ap (bytes_of size) {x = next + suc n} {y = suc next + n} (omega arith)
      ∙ advance-bytes_of n (before + s) (suc next) before'
          (rw h (rw (ap size {x = suc next} {y = next + 1} (omega arith) ∙ e1) refl))
          (ap (advance size sample_at count n (before + s)) {x = suc next + 1} {y = next + 1 + 1}
              (omega arith)
            ∙ e2)

  sync_loop-index_of :
      (rounds i before next : ℕ) (out : List ℕ)
      → bytes_of size next ≡ some before
      → sync_loop size sample_at count rounds i before (next + 1) ≡ some out
      → map some out ≡ index_of size sample_at rounds i
  unfolding sync_loop index_of
  sync_loop-index_of zero i before next out h e = ap (map some) (sym (some-inj e))
  sync_loop-index_of (suc rounds) i before next out h e =
      let (sample, e1, e2) = >>=-eq-some (sample_at i) _ e in
      let (test, e3) = guard-eq-some (ltb sample (next + 1) || ltb count sample) _ e2 in
      let (b, e4, e5) =
        >>=-eq-some (advance size sample_at count (sample - (next + 1)) before (next + 1)) _ e3 in
      let (rest, e6, e7) =
        >>=-eq-some (sync_loop size sample_at count rounds (i + 1) b sample) _ e5 in
      let after : next + 1 ≤ sample = ground arith in
      let summed : bytes_of size (sample - 1) ≡ some b =
        ap (bytes_of size) {x = sample - 1} {y = next + (sample - (next + 1))} (omega arith)
        ∙ advance-bytes_of (sample - (next + 1)) before next b h e4 in
      ap (map some) (sym (some-inj e7))
      ∙ cons_both (sym (ap (λ o. o >>= λ s. bytes_of size (s - 1)) e1 ∙ summed)) (
          sync_loop-index_of rounds (i + 1) b (sample - 1) rest summed (
            ap (sync_loop size sample_at count rounds (i + 1) b) {x = sample - 1 + 1} {y = sample}
              (omega arith)
            ∙ e6))

  -- The sizes of all samples are there, and the sync samples ascend among them.
  abbrev pub HasSizes : Type 0
  HasSizes = (m : ℕ) → m < count → (s : ℕ) × (size (m + 1) ≡ some s)

  abbrev pub Ascends : (ℕ → ℕ) → ℕ → Type 0
  Ascends f n =
      (j : ℕ) → j < n → (sample_at j ≡ some (f j)) × (1 ≤ f j) × (f j ≤ count) × (f j ≤ f (j + 1))

  advance-some :
      (n before next : ℕ)
      → HasSizes
      → next + n ≤ count
      → (b : ℕ) × (advance size sample_at count n before (next + 1) ≡ some b)
  unfolding advance
  advance-some zero before next h k = (before, refl)
  advance-some (suc n) before next h k =
      let (s, e) = h next (omega arith) in
      let (b, e') = advance-some n (before + s) (next + 1) h (omega arith) in (b, rw e e')

  sync_loop-some :
      (f : ℕ → ℕ) (n rounds i before next : ℕ)
      → HasSizes
      → Ascends f n
      → i + rounds ≤ n
      → (0 < rounds → next + 1 ≤ f i)
      → (out : List ℕ) × (sync_loop size sample_at count rounds i before (next + 1) ≡ some out)
  unfolding sync_loop
  sync_loop-some f n zero i before next h a k l = ([], refl)
  sync_loop-some f n (suc rounds) i before next h a k l =
      let (e, one, le, up) = a i (omega arith) in
      let here : next + 1 ≤ f i = l (omega arith) in
      let (b, e1) = advance-some (f i - (next + 1)) before next h (omega arith) in
      let (out, e2) =
        sync_loop-some f n rounds (i + 1) b (f i - 1) h a (omega arith) (λ _. omega (arith, up)) in
      let e3 : sync_loop size sample_at count rounds (i + 1) b (f i) ≡ some out =
        ap (sync_loop size sample_at count rounds (i + 1) b) {x = f i} {y = f i - 1 + 1}
          (omega arith)
        ∙ e2 in
      (
        b ∷ out,
        rw e (
            rw (ltb-eq-false (f i) (next + 1) here, ltb-eq-false count (f i) le)
              (rw (e1, e3) refl)),
      )

  -- Where the sizes of all the samples are known and the `n` sync samples ascend among them, the
  -- loop gives an index, which lists for each sync sample the sum of the sizes of all the samples
  -- before it.
  pub sync_loop-total :
      (f : ℕ → ℕ) (n : ℕ)
      → HasSizes
      → Ascends f n
      → (out : List ℕ) × (sync_loop size sample_at count n 0 0 1 ≡ some out)
        × (map some out ≡ index_of size sample_at n 0)
  unfolding bytes_of
  sync_loop-total f n h a =
      let (out, e) = sync_loop-some f n n 0 0 0 h a (omega arith) (λ k. (a 0 k).1) in
      (out, e, sync_loop-index_of n 0 0 0 out refl e)

-- If `sync_sample_bytes` gives an index, then the sample table has an `stsz` with a fixed size and a
-- count, and the index lists, for each of its first million sync samples, the sum of the sizes of
-- all the samples before it.
pub sync_sample_bytes-index :
    (stbl : List ℕ) (out : List ℕ)
    → sync_sample_bytes stbl ≡ some out
    → (stsz : List ℕ) × (fixed : ℕ) × (count : ℕ) × (n : ℕ) × (child stbl (codes "stsz")
        ≡ some stsz)
      × (u32_at stsz 4 ≡ some fixed)
      × (u32_at stsz 8 ≡ some count)
      × (sync_count (child stbl (codes "stss")) count ≡ some n)
      × (map some out
          ≡ index_of
              (sample_size fixed stsz)
              (sync_sample (child stbl (codes "stss")))
              (min n max_keyframes)
              0)
unfolding sync_sample_bytes check_sizes bytes_of
sync_sample_bytes-index stbl out h =
    let (stsz, e1, h1) = >>=-eq-some (child stbl (codes "stsz")) _ h in
    let (fixed, e2, h2) = >>=-eq-some (u32_at stsz 4) _ h1 in
    let (count, e3, h3) = >>=-eq-some (u32_at stsz 8) _ h2 in
    let (test, h4) =
      guard-eq-some (ltb max_samples count || ((fixed == 0) && ltb (length stsz) (12 + count * 4)))
        _ h3 in
    let (n, e4, h5) = >>=-eq-some (sync_count (child stbl (codes "stss")) count) _ h4 in
    (
      stsz,
      fixed,
      count,
      n,
      e1,
      e2,
      e3,
      e4,
      sync_loop-index_of (sample_size fixed stsz) (sync_sample (child stbl (codes "stss"))) count
          (min n max_keyframes) 0 0 0 out refl h5,
    )
