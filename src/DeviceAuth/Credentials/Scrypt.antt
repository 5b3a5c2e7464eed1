-- ===== src/DeviceAuth/Credentials/Scrypt.antt =====
-- credentials.py: the cost parameters of one pairing-code comparison, as they are stored.
pub mod RoundTrip
use us_stock_helper.Prelude.{
  ℕ, Text, text_eq, codes, partition, split_on, decimal, value, is_numeral, Bool, true, false, not,
  ◌&&◌, ◌||◌, Option, none, some, List, [], ◌∷◌, ◌++◌, exists, every, if◌then◌else◌,
}
use us_stock_helper.DeviceAuth.Errors.{Result, ok, raised, guard, ◌>>=◌, ◌>>◌, schema_unsupported}

pub record ScryptParameters : Type 0 where
  pub n : ℕ
  pub r : ℕ
  pub p : ℕ
  pub length : ℕ

abbrev pub default_scrypt : ScryptParameters
default_scrypt = record { n = 16384; r = 8; p = 1; length = 32 }

-- `f"scrypt$n={n},r={r},p={p},len={length}"`
unfoldable pub serialize : ScryptParameters → Text
serialize s =
    codes "scrypt"
    ++ (b'$' ∷ (b'n' ∷ b'=' ∷ decimal s.n)
        ++ (b',' ∷ (b'r' ∷ b'=' ∷ decimal s.r)
            ++ (b',' ∷ (b'p' ∷ b'=' ∷ decimal s.p) ++ (b',' ∷ codes "len=" ++ decimal s.length))))

-- A `dict` from names to numbers.
abbrev pub Fields : Type 0
Fields = List (Text × ℕ)

unfoldable pub get : Text → Fields → ℕ
get k [] = 0
get k ((j, v) ∷ rest) = if text_eq j k then v else get k rest

unfoldable pub put : Text → ℕ → Fields → Fields
put k v [] = (k, v) ∷ []
put k v ((j, w) ∷ rest) = if text_eq j k then (k, v) ∷ rest else (j, w) ∷ put k v rest

abbrev pub field_names : List Text
field_names = codes "n" ∷ codes "r" ∷ codes "p" ∷ codes "len" ∷ []

-- `set(fields) == {"n", "r", "p", "len"}`
unfoldable pub is_complete : Fields → Bool
is_complete fields =
    every (λ e. exists (text_eq e.0) field_names) fields
    && every (λ k. exists (λ e. text_eq e.0 k) fields) field_names

unfoldable pub parse_part : Text → Fields → Result Fields
parse_part part fields =
    let (key, field_separator, number) = partition b'=' part in
    if not field_separator || not (is_numeral number)
    then raised schema_unsupported
    else ok (put key (value number) fields)

unfoldable pub parse_parts : List Text → Fields → Result Fields
parse_parts [] fields = ok fields
parse_parts (part ∷ parts) fields = parse_part part fields >>= λ more. parse_parts parts more

unfoldable pub of_fields : Fields → Result ScryptParameters
of_fields fields =
    if not (is_complete fields)
    then raised schema_unsupported
    else ok (record {
      n = get (codes "n") fields;
      r = get (codes "r") fields;
      p = get (codes "p") fields;
      length = get (codes "len") fields;
    })

unfoldable pub parse : Text → Result ScryptParameters
parse serialized =
    let (name, separator, body) = partition b'$' serialized in
    if not separator || not (text_eq name (codes "scrypt"))
    then raised schema_unsupported
    else (parse_parts (split_on b',' body) [] >>= of_fields)
