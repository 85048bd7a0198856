-- ===== src/Prelude/Floats/Whole.antt =====
-- Whole numbers in place of `f64`, for tests: a quotient is at most 2, and a fraction is 0.
use Prim.Native.Nat.{ℕ, ◌+◌, ◌-◌, ◌*◌, min, max}
use den_remux.Prelude.Tests.{leb, ltb, ◌==◌, if◌then◌else◌}
use den_remux.Prelude.Floats.{Floats}

abbrev pub whole : Floats
whole = record {
  F = ℕ;
  of_nat = λ n. n;
  literal = λ n d. if d == 1 then n else 0;
  plus = λ x y. x + y;
  minus = λ x y. x - y;
  times = λ x y. x * y;
  over = λ x y. if ltb x y then 0 else if ltb x (2 * y) then 1 else 2;
  least = min;
  greatest = max;
  round = λ x. x;
  floor = λ x. x;
  ceil = λ x. x;
  at_most = leb;
  less = ltb;
  round_down = λ x. x;
  magnitude = λ x. x;
  in_order = leb;
  infinity = 1000000;
}
