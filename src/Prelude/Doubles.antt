-- ===== src/Prelude/Doubles.antt =====
-- Python's floating-point numbers, as a type with their operations: what of IEEE 754 the components rely
-- on, and the clamping that they share.
pub mod Hundredths
use Prim.Native.Nat.{ℕ}
use mathlib.Core.Path.{◌≡◌, refl}
use mathlib.Core.Logic.{inl, inr}
use mathlib.Core.Bool.{Bool, true, false}
use us_stock_helper.Prelude.Tests.{if◌then◌else◌, Bool-cases}
use us_stock_helper.Prelude.Integers.{ℤ, pos, negsuc}

-- `hundredths n` is the literal n / 100, and `of_count n` the integer n as a float.
pub record Doubles (F : Type 0) : Type 0 where
  pub hundredths : ℤ → F
  pub of_count : ℕ → F
  pub add : F → F → F
  pub multiply : F → F → F
  pub divide : F → F → F
  pub negate : F → F
  pub lt : F → F → Bool
  pub le : F → F → Bool
  pub equal : F → F → Bool
  pub is_finite : F → Bool

-- What IEEE 754 says of `<`, with NaN too, and of the literals that bound a clamp: 100.0 is not less
-- than 0.0, 3.0 not less than -3.0, and 1.0 not less than -1.0; and what is not below zero is
-- not below its negative, which is not above zero.
pub record IsOrdered {F : Type 0} (d : Doubles F) : Type 0 where
  pub lt_asym : (x y : F) → d.lt x y ≡ true → d.lt y x ≡ false
  pub bounds_apart : d.lt (d.hundredths (pos 10000)) (d.hundredths (pos 0)) ≡ false
  pub caps_apart : d.lt (d.hundredths (pos 300)) (d.hundredths (negsuc 299)) ≡ false
  pub negative_below :
      (x : F)
      → d.lt x (d.hundredths (pos 0)) ≡ false
      → (d.lt x (d.negate x) ≡ false) × (d.lt (d.hundredths (pos 0)) (d.negate x) ≡ false)
  pub units_apart : d.lt (d.hundredths (pos 100)) (d.hundredths (negsuc 99)) ≡ false

module _ {F : Type 0} where
  -- `max(a, b)` and `min(a, b)`: the first, unless the second is greater or less.
  abbrev pub max_of : Doubles F → F → F → F
  max_of d a b = if d.lt a b then b else a

  abbrev pub min_of : Doubles F → F → F → F
  min_of d a b = if d.lt b a then b else a

  -- `max(least, min(most, x))`
  unfoldable pub clamp : Doubles F → F → F → F → F
  clamp d least most x = max_of d least (min_of d most x)

  -- `abs(x)`
  abbrev pub magnitude : Doubles F → F → F
  magnitude d x = if d.lt x (d.hundredths (pos 0)) then d.negate x else x

  -- Not outside the two ends; a number that is not one is not outside either.
  abbrev pub IsWithin : Doubles F → F → F → F → Type 0
  IsWithin d least most x = (d.lt x least ≡ false) × (d.lt most x ≡ false)

  lt_irrefl : (d : Doubles F) → IsOrdered d → (x : F) → d.lt x x ≡ false
  lt_irrefl d law x = elim (Bool-cases (d.lt x x)) [
    | inl less ↦ law.lt_asym x x less
    | inr same ↦ same
  ]

  min_of-le : (d : Doubles F) → IsOrdered d → (most x : F) → d.lt most (min_of d most x) ≡ false
  min_of-le d law most x = elim (Bool-cases (d.lt x most)) [
    | inl below ↦ rw below (law.lt_asym x most below)
    | inr above ↦ rw above (lt_irrefl d law most)
  ]

  pub clamp-IsWithin :
      (d : Doubles F)
      → IsOrdered d
      → (least most x : F) → d.lt most least ≡ false
      → IsWithin d least most (clamp d least most x)
  unfolding clamp
  clamp-IsWithin d law least most x apart = elim (Bool-cases (d.lt least (min_of d most x))) [
    | inl more ↦ rw more (law.lt_asym least (min_of d most x) more, min_of-le d law most x)
    | inr less ↦ rw less (lt_irrefl d law least, apart)
  ]
