-- ===== src/Codec/Bits.antt =====
-- `Bits` of src/probe/mod.rs, the reader of a header's bits. A walk over a header is a program of its
-- reads and skips; `run` is what the methods of `Bits` make of it, on bytes and from a position.
pub mod Spec
use den_remux.Prelude.{ℕ, zero, suc, ◌+◌, ◌-◌, ◌*◌, ◌/◌, ◌%◌, ◌^◌, Bool, true, false, arith}
use den_remux.Prelude.{
  List, [], ◌∷◌, Option, none, some, ◌>>=◌ as and_then, ltb, ◌==◌, length, get_elem?,
}
use den_remux.Prelude.{if◌then◌else◌}

-- `done` and `fail` are `Some` and `None`.
pub data Bits (A : Type 0) : Type 0 where
  done : A → Bits A
  fail : Bits A
  reading : ℕ → (ℕ → Bits A) → Bits A
  skipping : ℕ → Bits A → Bits A

infixl 5 ◌>>=◌ ◌>>◌
-- `?`, in a function that goes on with the same reader.
abbrev pub ◌>>=◌ : {A B : Type 0} → Bits A → (A → Bits B) → Bits B
done a >>= f = f a
fail >>= f = fail
reading n k >>= f = reading n (λ v. k v >>= f)
skipping n k >>= f = skipping n (k >>= f)

abbrev pub ◌>>◌ : {A B : Type 0} → Bits A → Bits B → Bits B
m >> k = m >>= λ _. k

abbrev pub read : ℕ → Bits ℕ
read n = reading n done

abbrev pub flag : Bits Bool
flag = reading 1 (λ v. done (v == 1))

abbrev pub skip : ℕ → Bits (Unit {0})
skip n = skipping n (done tt)

-- The loop of `uvlc`, which has `left` zero_bits to go before it gives up.
unfoldable pub uvlc_from : ℕ → ℕ → Bits ℕ
uvlc_from zero zero_bits = fail
uvlc_from (suc left) zero_bits = flag >>= λ one. elim one [
  | true ↦ read zero_bits >>= λ v. done (v + 2 ^ zero_bits - 1)
  | false ↦ uvlc_from left (zero_bits + 1)
]

unfoldable pub uvlc : Bits ℕ
uvlc = uvlc_from 32 0

-- `for _ in 0..n { step?; }`
unfoldable pub times : ℕ → Bits (Unit {0}) → Bits (Unit {0})
times zero step = done tt
times (suc n) step = step >> times n step

-- A step that a test guards: `if test { step?; }`
abbrev pub when : Bool → Bits (Unit {0}) → Bits (Unit {0})
when true step = step
when false step = done tt

-- What is read is passed over.
abbrev pub over : {A : Type 0} → Bits A → Bits (Unit {0})
over m = m >> done tt

-- `(byte >> (7 - self.pos % 8)) & 1`, of the byte `self.pos / 8`.
unfoldable pub bit_at : List ℕ → ℕ → Option ℕ
bit_at b pos = and_then (get_elem? b (pos / 8)) (λ byte. some (byte / 2 ^ (7 - pos % 8) % 2))

-- The loop of `Bits::read`: `v << 1 | bit`, in 64 bits.
unfoldable pub read_loop : ℕ → List ℕ → ℕ → ℕ → Option (ℕ × ℕ)
read_loop zero b pos v = some (v, pos)
read_loop (suc n) b pos v =
    and_then (bit_at b pos) (λ bit. read_loop n b (pos + 1) (v * 2 % 2 ^ 64 + bit))

-- The answer, and where the reader stands behind it.
unfoldable pub run : {A : Type 0} → Bits A → List ℕ → ℕ → Option (A × ℕ)
run (done a) b pos = some (a, pos)
run fail b pos = none
run (reading n k) b pos = and_then (read_loop n b pos 0) (λ r. run (k r.0) b r.1)
run (skipping n k) b pos = if ltb (length b * 8) (pos + n) then none else run k b (pos + n)

-- `Bits { b, pos: 0 }`
unfoldable pub read_from_start : {A : Type 0} → Bits A → List ℕ → Option A
read_from_start p b = and_then (run p b 0) (λ r. some r.0)
