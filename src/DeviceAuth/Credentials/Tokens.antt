-- ===== src/DeviceAuth/Credentials/Tokens.antt =====
-- credentials.py: the device tokens.
pub mod Split
use us_stock_helper.Prelude.{
  ℕ, Text, text_eq, codes, is_ascii, strip, partition, Bool, true, false, not, ◌&&◌, ◌||◌, Option,
  none, some, List, [], ◌∷◌, ◌++◌, every, leb, ◌==◌, if◌then◌else◌,
}
use us_stock_helper.DeviceAuth.Errors.{Result, ok, raised, guard, ◌>>=◌, ◌>>◌, schema_unsupported}
use us_stock_helper.DeviceAuth.Credentials.Codes.{PyValue, text, other}

abbrev pub token_separator : ℕ
token_separator = b'.'

-- ASCII letters, digits, `-` and `_`
abbrev pub is_token_character : ℕ → Bool
is_token_character c =
    (leb b'a' c && leb c b'z')
    || (leb b'A' c && leb c b'Z')
    || (leb b'0' c && leb c b'9')
    || c == b'-'
    || c == b'_'

abbrev pub is_empty : Text → Bool
is_empty [] = true
is_empty (c ∷ cs) = false

unfoldable pub format_token : Text → Text → Text
format_token device_id secret = device_id ++ token_separator ∷ secret

-- The parts that `partition` gives, or a refusal.
unfoldable pub check_parts : Text × Bool × Text → Option (Text × Text)
check_parts (device_id, separator, secret) =
    if not separator || is_empty device_id || is_empty secret
    then none
    else if not (every is_token_character device_id)
    then none
    else if not (every is_token_character secret)
    then none
    else some (device_id, secret)

unfoldable pub split_token : PyValue → Option (Text × Text)
unfolding check_parts
split_token other = none
split_token (text token) =
    if not (is_ascii token) then none else check_parts (partition token_separator (strip token))
