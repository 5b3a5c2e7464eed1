-- ===== src/DeviceAuth/Examples/Credentials.antt =====
-- credentials.py: tests, and the theorems at concrete inputs.
use us_stock_helper.Prelude.{
  ℕ, Text, codes, strip, ◌≡◌, refl, none, some, arith, decimal, digits, partition,
}
use us_stock_helper.DeviceAuth.Errors.{ok}
use us_stock_helper.DeviceAuth.Credentials.Codes.{
  text, normalize_code, check_code, condense, format_code, generate_code, draw_code,
}
use us_stock_helper.DeviceAuth.Credentials.Codes.Normal.{IsCode, normalize-typed}
use us_stock_helper.DeviceAuth.Credentials.Tokens.{split_token}
use us_stock_helper.DeviceAuth.Credentials.Tokens.Split.{IsTokenPart}
use us_stock_helper.DeviceAuth.Credentials.Scrypt.{default_scrypt, serialize, parse}
use us_stock_helper.DeviceAuth.Credentials.Scrypt.RoundTrip.{parse-serialize}

abbrev some_code : Text
some_code = codes "ABCD2345"

some_code-IsCode : IsCode some_code
some_code-IsCode = record {
  long_enough = omega arith;
  short_enough = omega arith;
  characters = refl;
}

normalize-typed_example : normalize_code (text (codes "abcd-2345")) ≡ some some_code
unfolding format_code
normalize-typed_example = normalize-typed some_code some_code-IsCode

-- A space is folded away, and a letter that the alphabet leaves out is refused.
normalize_code_inputs :
    (normalize_code (text (codes " ab cd2345")) ≡ some some_code)
    × (normalize_code (text (codes "ABCD234O")) ≡ none)
    × (normalize_code (text (codes "ABC23")) ≡ none)
unfolding normalize_code check_code condense
normalize_code_inputs = (refl, refl, refl)

accepted_input : normalize_code (text (codes "abcd-2345")) ≡ some some_code
unfolding normalize_code check_code condense
accepted_input = refl

abbrev draws : ℕ → ℕ
draws n = n

drawn : generate_code 6 draws ≡ ok (codes "765432")
unfolding generate_code draw_code
drawn = refl

abbrev device : Text
device = codes "0a1b"

abbrev secret : Text
secret = codes "x-Y_9"

device-IsTokenPart : IsTokenPart device
device-IsTokenPart = record { some_character = refl; characters = refl }

secret-IsTokenPart : IsTokenPart secret
secret-IsTokenPart = record { some_character = refl; characters = refl }

spaced : split_token (text (codes " 0a1b.x-Y_9 ")) ≡ some (device, secret)
unfolding split_token strip partition
spaced = refl

serialized : serialize default_scrypt ≡ codes "scrypt$n=16384,r=8,p=1,len=32"
unfolding serialize decimal digits
serialized = refl

parse-serialize_example : parse (serialize default_scrypt) ≡ ok default_scrypt
parse-serialize_example = parse-serialize default_scrypt
