-- ===== src/Prelude/Decimal.antt =====
-- Decimal numerals: `str(n)`, `str.isdigit` and `int(text)`, on ASCII digits.
use Prim.Native.Nat.{ℕ, zero, suc, ◌+◌, ◌-◌, ◌*◌, ◌/◌, ◌%◌, ◌<◌}
use mathlib.Core.Path.{◌≡◌, refl, ◌∙◌}
use mathlib.Core.Bool.{Bool, true, false, ◌&&◌}
use mathlib.Core.List.{[], ◌∷◌, ◌++◌}
use native.Mathlib.Omega.{arith}
use us_stock_helper.Prelude.Tests.{ltb, leb, if◌then◌else◌, Bool-cases}
use mathlib.Core.Logic.{inl, inr}
use us_stock_helper.Prelude.Lists.{every, every-append}
use us_stock_helper.Prelude.Texts.{Text}

abbrev pub is_digit : ℕ → Bool
is_digit c = leb 48 c && leb c 57

-- The digits of `n`; more fuel than `n` is enough.
unfoldable pub digits : ℕ → ℕ → Text
digits zero n = []
digits (suc fuel) n =
    let front = digits fuel (n / 10) in
    if ltb n 10 then (48 + n) ∷ [] else front ++ (48 + n % 10) ∷ []

-- `str(n)`
unfoldable pub decimal : ℕ → Text
decimal n = digits (suc n) n

abbrev add_digit : ℕ → ℕ → ℕ
add_digit acc c = acc * 10 + (c - 48)

unfoldable pub value_from : ℕ → Text → ℕ
value_from acc [] = acc
value_from acc (c ∷ cs) = value_from (add_digit acc c) cs

-- `int(text)`, for a text of digits
unfoldable pub value : Text → ℕ
unfolding value_from
value t = value_from 0 t

-- `text.isdigit()`: some character, and all of them digits
unfoldable pub is_numeral : Text → Bool
is_numeral [] = false
is_numeral (c ∷ cs) = every is_digit (c ∷ cs)

value_from-append :
    (acc : ℕ) (t : Text) (c : ℕ) → value_from acc (t ++ c ∷ []) ≡ add_digit (value_from acc t) c
unfolding value_from
value_from-append acc [] c = refl
value_from-append acc (d ∷ ds) c = value_from-append (add_digit acc d) ds c

value-digits : (fuel n : ℕ) → n < fuel → value_from 0 (digits fuel n) ≡ n
unfolding digits
value-digits zero n h = absurd (omega arith)
value-digits (suc fuel) n h = elim (Bool-cases (ltb n 10)) [
  | inl small ↦ rw small (unfold value_from in ground (arith, small))
  | inr large ↦ rw large (
      value_from-append 0 (digits fuel (n / 10)) (48 + n % 10)
      ∙ rw (value-digits fuel (n / 10) (ground (arith, large))) (omega arith))
]

digits-every : (fuel n : ℕ) → every is_digit (digits fuel n) ≡ true
unfolding digits
digits-every zero n = refl
digits-every (suc fuel) n = ground (
  arith,
  digits-every fuel (n / 10),
  every-append is_digit (digits fuel (n / 10)) ((48 + n % 10) ∷ []),
)

-- A printed number is a numeral and reads back as itself.
pub value-decimal : (n : ℕ) → value (decimal n) ≡ n
unfolding value decimal
value-decimal n = value-digits (suc n) n (omega arith)

append_numeral :
    (t : Text) (c : ℕ)
    → every is_digit t ≡ true
    → is_digit c ≡ true
    → is_numeral (t ++ c ∷ []) ≡ true
unfolding is_numeral
append_numeral [] c h k = ground (arith, k)
append_numeral (d ∷ ds) c h k = ground (arith, h, k, every-append is_digit ds (c ∷ []))

pub is_numeral-decimal : (n : ℕ) → is_numeral (decimal n) ≡ true
unfolding decimal digits
is_numeral-decimal n = elim (Bool-cases (ltb n 10)) [
  | inl small ↦ rw small (append_numeral [] (48 + n) refl (ground (arith, small)))
  | inr large ↦
      rw large
        (append_numeral (digits n (n / 10)) (48 + n % 10) (digits-every n (n / 10)) (ground arith))
]

pub decimal-every : (n : ℕ) → every is_digit (decimal n) ≡ true
unfolding decimal
decimal-every n = digits-every (suc n) n
