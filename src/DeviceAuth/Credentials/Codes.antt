-- ===== src/DeviceAuth/Credentials/Codes.antt =====
-- credentials.py: the pairing codes.
pub mod Normal
use us_stock_helper.Prelude.{
  ℕ, zero, suc, ◌-◌, ◌%◌, Text, codes, is_ascii, occurs_in, to_upper, Bool, true, false, not, ◌&&◌,
  ◌||◌, Option, none, some, List, [], ◌∷◌, ◌++◌, map, length, take, drop, select, every, ltb, leb,
  ◌==◌, if◌then◌else◌,
}
use us_stock_helper.DeviceAuth.Errors.{Result, ok, raised, guard, ◌>>=◌, ◌>>◌, invalid_argument}

abbrev pub code_alphabet : Text
code_alphabet = codes "23456789ABCDEFGHJKMNPQRSTUVWXYZ"

abbrev pub min_code_length : ℕ
min_code_length = 6

abbrev pub max_code_length : ℕ
max_code_length = 8

-- `" -\t\r\n"`
abbrev pub code_separators : Text
code_separators = 32 ∷ 45 ∷ 9 ∷ 13 ∷ 10 ∷ []

-- Any Python value that a caller may hand in: a text, or something that is no text.
pub data PyValue : Type 0 where
  text : Text → PyValue
  other : PyValue

abbrev pub char_at : Text → ℕ → ℕ
char_at [] i = 0
char_at (c ∷ cs) zero = c
char_at (c ∷ cs) (suc i) = char_at cs i

-- `secrets.choice(CODE_ALPHABET)` for each position; `draw` gives the random numbers.
unfoldable pub draw_code : ℕ → (ℕ → ℕ) → Text
draw_code zero draw = []
draw_code (suc n) draw = char_at code_alphabet (draw n % 31) ∷ draw_code n draw

unfoldable pub generate_code : ℕ → (ℕ → ℕ) → Result Text
generate_code n draw = do
  guard (leb min_code_length n && leb n max_code_length) invalid_argument
  ok (draw_code n draw)

unfoldable pub format_code : Text → Text
format_code code = if ltb 4 (length code) then take 4 code ++ b'-' ∷ drop 4 code else code

-- The characters that are left once separators are gone and letters are upper case.
unfoldable pub condense : Text → Text
condense raw = select (λ c. not (occurs_in code_separators c)) (map to_upper raw)

unfoldable pub check_code : Text → Option Text
check_code condensed =
    if not (leb min_code_length (length condensed) && leb (length condensed) max_code_length)
    then none
    else if not (every (occurs_in code_alphabet) condensed)
    then none
    else some condensed

unfoldable pub normalize_code : PyValue → Option Text
normalize_code other = none
normalize_code (text raw) = if not (is_ascii raw) then none else check_code (condense raw)
