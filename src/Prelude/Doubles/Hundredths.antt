-- ===== src/Prelude/Doubles/Hundredths.antt =====
-- Numbers for the tests, on which the operations of floating-point numbers compute.
use us_stock_helper.Prelude.Tests.{ltb, leb, ◌==◌}
use us_stock_helper.Prelude.Integers.{pos, negsuc}
use us_stock_helper.Prelude.Doubles.{Doubles, IsOrdered}
use Prim.Native.Nat.{ℕ, ◌+◌, ◌-◌}
use mathlib.Core.Path.{refl}
use mathlib.Core.Bool.{true}
use native.Mathlib.Omega.{arith}

-- Whole hundredths from -100 on, with exact operations where they stay among these.
abbrev pub toy_doubles : Doubles ℕ
toy_doubles = record {
  hundredths = λ z. elim z [ pos n ↦ n + 10000 | negsuc n ↦ 9999 - n ];
  of_count = λ n. n;
  add = λ x y. x + y - 10000;
  multiply = λ x y. x;
  divide = λ x y. x;
  negate = λ x. 20000 - x;
  lt = ltb;
  le = leb;
  equal = λ x y. x == y;
  is_finite = λ x. true;
}

pub toy-IsOrdered : IsOrdered toy_doubles
toy-IsOrdered = record {
  lt_asym = λ x y h. ground arith;
  bounds_apart = refl;
  caps_apart = refl;
  negative_below = λ x h. (ground arith, ground arith);
  units_apart = refl;
}
