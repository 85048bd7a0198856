-- ===== src/Codec/Bits/Spec.antt =====
-- What a program of reads means on a list of bits, and that `run` on bytes is that.
use den_remux.Prelude.{
  ℕ, zero, suc, ◌+◌, ◌-◌, ◌*◌, ◌/◌, ◌%◌, ◌^◌, ◌≤◌, ◌<◌, ◌≡◌, refl, ap, ◌∙◌, sym, arith, false,
}
use den_remux.Prelude.{
  List, [], ◌∷◌, ◌++◌, Option, none, some, ◌>>=◌ as and_then, ltb, length, get_elem?, take, drop,
}
use den_remux.Prelude.{
  if◌then◌else◌, replicate, append_assoc, length-append, drop-drop, drop-append, take-append,
  length-drop, take-append_le, drop-append_le, ltb-eq-false, guard-eq-some, >>=-eq-some, Bool-cases,
  inl, inr,
}
use den_remux.Codec.Bits.{
  Bits, done, fail, reading, skipping, uvlc_from, uvlc, bit_at, read_loop, run, read_from_start,
}

-- The eight bits of a byte, the highest first, and those of some bytes.
unfoldable pub byte_bits : ℕ → List ℕ
byte_bits c =
    c / 128 % 2
    ∷ c / 64 % 2
    ∷ c / 32 % 2
    ∷ c / 16 % 2
    ∷ c / 8 % 2
    ∷ c / 4 % 2
    ∷ c / 2 % 2
    ∷ c % 2
    ∷ []

unfoldable pub bits : List ℕ → List ℕ
bits [] = []
bits (c ∷ cs) = byte_bits c ++ bits cs

-- The number that bits write, in 64 bits.
unfoldable pub number : ℕ → List ℕ → ℕ
number v [] = v
number v (d ∷ ds) = number (v * 2 % 2 ^ 64 + d) ds

-- Reads and skips on a list of bits: the answer, and the bits that are left.
unfoldable pub parse : {A : Type 0} → Bits A → List ℕ → Option (A × List ℕ)
parse (done a) ds = some (a, ds)
parse fail ds = none
parse (reading n k) ds =
    if ltb (length ds) n then none else parse (k (number 0 (take n ds))) (drop n ds)
parse (skipping n k) ds = if ltb (length ds) n then none else parse k (drop n ds)

pub length-bits : (b : List ℕ) → length (bits b) ≡ length b * 8
unfolding bits byte_bits
length-bits [] = refl
length-bits (c ∷ cs) = omega (arith, length-bits cs)

bit_of : (c i : ℕ) → i < 8 → get_elem? (byte_bits c) i ≡ some (c / 2 ^ (7 - i) % 2)
unfolding byte_bits
bit_of c zero h = refl
bit_of c (suc zero) h = refl
bit_of c (suc (suc zero)) h = refl
bit_of c (suc (suc (suc zero))) h = refl
bit_of c (suc (suc (suc (suc zero)))) h = refl
bit_of c (suc (suc (suc (suc (suc zero))))) h = refl
bit_of c (suc (suc (suc (suc (suc (suc zero)))))) h = refl
bit_of c (suc (suc (suc (suc (suc (suc (suc zero))))))) h = ap some (omega arith)
bit_of c (suc (suc (suc (suc (suc (suc (suc (suc i)))))))) h = absurd (omega arith)

bit_at-next : (c : ℕ) (cs : List ℕ) (p q : ℕ) → p ≡ q + 8 → bit_at (c ∷ cs) p ≡ bit_at cs q
unfolding bit_at
bit_at-next c cs p q h =
    ap (λ i. and_then (get_elem? (c ∷ cs) i) (λ byte. some (byte / 2 ^ (7 - p % 8) % 2)))
      {x = p / 8} {y = suc (q / 8)} (omega arith)
    ∙ ap (λ i. and_then (get_elem? cs (q / 8)) (λ byte. some (byte / 2 ^ (7 - i) % 2))) {x = p % 8}
        {y = q % 8} (omega arith)

bit_at-bits : (b : List ℕ) (pos : ℕ) → bit_at b pos ≡ get_elem? (bits b) pos
unfolding bit_at bits byte_bits
bit_at-bits [] pos = refl
bit_at-bits (c ∷ cs) zero = refl
bit_at-bits (c ∷ cs) (suc zero) = refl
bit_at-bits (c ∷ cs) (suc (suc zero)) = refl
bit_at-bits (c ∷ cs) (suc (suc (suc zero))) = refl
bit_at-bits (c ∷ cs) (suc (suc (suc (suc zero)))) = refl
bit_at-bits (c ∷ cs) (suc (suc (suc (suc (suc zero))))) = refl
bit_at-bits (c ∷ cs) (suc (suc (suc (suc (suc (suc zero)))))) = refl
bit_at-bits (c ∷ cs) (suc (suc (suc (suc (suc (suc (suc zero))))))) = ap some (omega arith)
bit_at-bits (c ∷ cs) (suc (suc (suc (suc (suc (suc (suc (suc pos)))))))) =
    bit_at-next c cs (suc (suc (suc (suc (suc (suc (suc (suc pos)))))))) pos (omega arith)
    ∙ bit_at-bits cs pos

head_of :
    (xs : List ℕ) (pos : ℕ) (d : ℕ) (ds : List ℕ)
    → drop pos xs ≡ d ∷ ds
    → (get_elem? xs pos ≡ some d) × (drop (pos + 1) xs ≡ ds)
head_of [] zero d ds h = cc
head_of [] (suc pos) d ds h = cc
head_of (x ∷ xs) zero d ds h = (cc, cc)
head_of (x ∷ xs) (suc pos) d ds h =
    let (e, e') = head_of xs pos d ds h in
    (e, ap (λ k. drop k (x ∷ xs)) {x = suc pos + 1} {y = suc (pos + 1)} (omega arith) ∙ e')

none_of : (xs : List ℕ) (pos : ℕ) → drop pos xs ≡ [] → get_elem? xs pos ≡ none
none_of [] pos h = refl
none_of (x ∷ xs) zero h = cc
none_of (x ∷ xs) (suc pos) h = none_of xs pos h

read_loop-bits :
    (n : ℕ) (b : List ℕ) (pos v : ℕ) (ds : List ℕ)
    → drop pos (bits b) ≡ ds
    → read_loop n b pos v
      ≡ (if ltb (length ds) n then none else some (number v (take n ds), pos + n))
unfolding read_loop number
read_loop-bits zero b pos v ds h = ground arith
read_loop-bits (suc n) b pos v [] h = rw (bit_at-bits b pos, none_of (bits b) pos h) (ground arith)
read_loop-bits (suc n) b pos v (d ∷ ds) h =
    let (e, e') = head_of (bits b) pos d ds h in
    rw (bit_at-bits b pos, e)
      (read_loop-bits n b (pos + 1) (v * 2 % 2 ^ 64 + d) ds e' ∙ ground arith)

-- The position, seen as the bits behind it.
abbrev pub left_of : {A : Type 0} → List ℕ → A × ℕ → Option (A × List ℕ)
left_of b (a, pos) = some (a, drop pos (bits b))

-- The reader of bits by position refines a reader of a list of bits: from any position within the
-- bytes, a program of reads and skips has the answer that it has on the bits behind that position,
-- and ends where the bits that it leaves begin; or both run out.
pub run-parse :
    {A : Type 0} (p : Bits A) (b : List ℕ) (pos : ℕ)
    → pos ≤ length b * 8
    → and_then (run p b pos) (left_of b) ≡ parse p (drop pos (bits b))
unfolding run parse
run-parse (done a) b pos h = refl
run-parse fail b pos h = refl
run-parse (reading n k) b pos h =
    let len : length (drop pos (bits b)) + pos ≡ length b * 8 =
      omega (arith, length-drop pos (bits b), length-bits b) in
    elim (Bool-cases (ltb (length (drop pos (bits b))) n)) [
      | inl e ↦ rw (read_loop-bits n b pos 0 (drop pos (bits b)) refl, e) refl
      | inr e ↦
          rw (read_loop-bits n b pos 0 (drop pos (bits b)) refl, e)
            (rw (drop-drop pos n (bits b))
              (run-parse (k (number 0 (take n (drop pos (bits b))))) b (pos + n) (ground arith)))
    ]
run-parse (skipping n k) b pos h =
    let len : length (drop pos (bits b)) + pos ≡ length b * 8 =
      omega (arith, length-drop pos (bits b), length-bits b) in
    elim (Bool-cases (ltb (length (drop pos (bits b))) n)) [
      | inl e ↦ rw e (ground arith)
      | inr e ↦
          rw (e, drop-drop pos n (bits b))
            (let within : ltb (length b * 8) (pos + n) ≡ false = ground arith in
              rw within (run-parse k b (pos + n) (ground arith)))
    ]

bits-append : (b c : List ℕ) → bits (b ++ c) ≡ bits b ++ bits c
unfolding bits
bits-append [] c = refl
bits-append (x ∷ b) c = rw (bits-append b c) (sym (append_assoc (byte_bits x) (bits b) (bits c)))

-- What is read of the first bits is not changed by what stands behind them.
parse-append :
    {A : Type 0} (p : Bits A) (ds more : List ℕ) (a : A) (rest : List ℕ)
    → parse p ds ≡ some (a, rest)
    → parse p (ds ++ more) ≡ some (a, rest ++ more)
unfolding parse
parse-append (done x) ds more a rest h = cc
parse-append fail ds more a rest h = cc
parse-append (reading n k) ds more a rest h =
    let (e, h') = guard-eq-some (ltb (length ds) n) _ h in
    let within : n ≤ length ds = ground arith in
    rw
      (
        ltb-eq-false (length (ds ++ more)) n (omega (arith, length-append ds more)),
        take-append_le n ds more within,
        drop-append_le n ds more within,
      )
      (parse-append (k (number 0 (take n ds))) (drop n ds) more a rest h')
parse-append (skipping n k) ds more a rest h =
    let (e, h') = guard-eq-some (ltb (length ds) n) _ h in
    let within : n ≤ length ds = ground arith in
    rw
      (
        ltb-eq-false (length (ds ++ more)) n (omega (arith, length-append ds more)),
        drop-append_le n ds more within,
      )
      (parse-append k (drop n ds) more a rest h')

start-parse :
    {A : Type 0} (p : Bits A) (b : List ℕ)
    → read_from_start p b ≡ and_then (parse p (bits b)) (λ r. some r.0)
unfolding read_from_start
start-parse {A = A} p b = rw (← run-parse p b 0 (omega arith)) (answer (run p b 0))
  where
    answer :
        (o : Option (A × ℕ))
        → and_then o (λ r. some r.0) ≡ and_then (and_then o (left_of b)) (λ r. some r.0)
    answer none = refl
    answer (some r) = refl

-- A header that ends before the bytes do is read the same whatever the bytes behind it are.
pub read_from_start-append :
    {A : Type 0} (p : Bits A) (b more : List ℕ) (a : A)
    → read_from_start p b ≡ some a
    → read_from_start p (b ++ more) ≡ some a
read_from_start-append p b more a h =
    let ((x, rest), e, e') = >>=-eq-some (parse p (bits b)) _ (sym (start-parse p b) ∙ h) in
    start-parse p (b ++ more)
    ∙ rw (bits-append b more, parse-append p (bits b) (bits more) x rest e) e'

-- An Exp-Golomb code: zeros, a one, and as many bits as there were zeros.
abbrev pub golomb : List ℕ → List ℕ → List ℕ
golomb low rest = replicate (length low) 0 ++ (1 ∷ (low ++ rest))

ltb-one {ℓ} : {A : Type ℓ} (n : ℕ) (m : Option A) → (if ltb (suc n) 1 then none else m) ≡ m
ltb-one n m = ground arith

uvlc_from-golomb :
    (low rest : List ℕ) (n left zero_bits : ℕ)
    → n + zero_bits ≡ length low
    → n < left
    → parse (uvlc_from left zero_bits) (replicate n 0 ++ (1 ∷ (low ++ rest)))
      ≡ some (number 0 low + 2 ^ length low - 1, rest)
unfolding uvlc_from parse number
uvlc_from-golomb low rest n zero zero_bits e h = absurd (omega arith)
uvlc_from-golomb low rest zero (suc left) zero_bits e h =
    let z : zero_bits ≡ length low = omega arith in
    rw (z, take-append low rest, drop-append low rest) (ground (arith, length-append low rest))
uvlc_from-golomb low rest (suc n) (suc left) zero_bits e h =
    ltb-one (length (replicate n 0 ++ (1 ∷ (low ++ rest)))) _
    ∙ uvlc_from-golomb low rest n left (zero_bits + 1) (omega arith) (omega arith)

-- An Exp-Golomb code, `n` zeros, a one and `n` bits for `n` below 32, is read as the number of the
-- bits plus `2^n - 1`, and what stands behind it is left.
pub uvlc-golomb :
    (low rest : List ℕ)
    → length low < 32
    → parse uvlc (golomb low rest) ≡ some (number 0 low + 2 ^ length low - 1, rest)
unfolding uvlc
uvlc-golomb low rest h = uvlc_from-golomb low rest (length low) 32 0 (omega arith) h
