-- ===== src/Prelude/Integers.antt =====
-- `int(text)` on any text: surrounding space, a sign, and ASCII digits between which single
-- underscores may stand. Digits of other scripts are not modelled.
use Prim.Native.Nat.{ℕ, zero, suc}
use mathlib.Core.Bool.{Bool, true, false, ◌&&◌}
use mathlib.Core.List.{[], ◌∷◌}
use mathlib.Core.Option.{Option, none, some}
use us_stock_helper.Prelude.Tests.{◌==◌, if◌then◌else◌}
use us_stock_helper.Prelude.Texts.{Text, strip}
use us_stock_helper.Prelude.Decimal.{is_digit, value}

pub data ℤ : Type 0 where
  pos : ℕ → ℤ
  negsuc : ℕ → ℤ

abbrev pub neg : ℕ → ℤ
neg zero = pos zero
neg (suc n) = negsuc n

abbrev put_digit : ℕ → Option Text → Option Text
put_digit c none = none
put_digit c (some ds) = some (c ∷ ds)

-- The digits of a numeral, `after_digit` telling whether a digit stands before the rest.
unfoldable pub digits_of : Bool → Text → Option Text
digits_of after_digit [] = if after_digit then some [] else none
digits_of after_digit (c ∷ cs) =
    let plain = digits_of true cs in
    let underscored = digits_of false cs in
    if is_digit c then put_digit c plain else if c == b'_' && after_digit then underscored else none

abbrev with_sign : (ℕ → ℤ) → Option Text → Option ℤ
with_sign sign none = none
with_sign sign (some ds) = some (sign (value ds))

unfoldable pub signed_of : Text → Option ℤ
signed_of [] = none
signed_of (c ∷ cs) =
    if c == b'-'
    then with_sign neg (digits_of false cs)
    else if c == b'+'
    then with_sign pos (digits_of false cs)
    else with_sign pos (digits_of false (c ∷ cs))

-- `int(text)`; none is its `ValueError`.
unfoldable pub read_int : Text → Option ℤ
read_int t = signed_of (strip t)
