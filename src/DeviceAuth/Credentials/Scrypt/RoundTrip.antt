-- ===== src/DeviceAuth/Credentials/Scrypt/RoundTrip.antt =====
-- credentials.py: stored cost parameters are read back as they were.
use us_stock_helper.Prelude.{
  ℕ, Text, text_eq, codes, partition-append, split_on, split_on-append, split_on-one, decimal,
  value-decimal, is_digit, is_numeral-decimal, decimal-every, ◌≡◌, refl, ap, ◌∙◌, true, not, [],
  ◌∷◌, ◌++◌, every, every_mono, arith, ◌==◌,
}
use us_stock_helper.DeviceAuth.Errors.{ok}
use us_stock_helper.DeviceAuth.Credentials.Scrypt.{
  ScryptParameters, serialize, Fields, get, put, is_complete, parse_part, parse_parts, of_fields,
  parse,
}

no_comma : (n : ℕ) → every (λ c. not (c == b',')) (decimal n) ≡ true
no_comma n =
    every_mono is_digit (λ c. not (c == b',')) (λ c h. ground arith) (decimal n) (decimal-every n)

abbrev part : Text → ℕ → Text
part key n = key ++ b'=' ∷ decimal n

-- One serialized field is read as that field.
parse_part-part :
    (key : Text) (n : ℕ) (fields : Fields)
    → every (λ c. not (c == b'=')) key ≡ true
    → parse_part (part key n) fields ≡ ok (put key n fields)
unfolding parse_part
parse_part-part key n fields h =
    rw (partition-append b'=' key (decimal n) h) (rw (is_numeral-decimal n, value-decimal n) refl)

abbrev body : ScryptParameters → Text
body s =
    part (codes "n") s.n
    ++ (b',' ∷ part (codes "r") s.r
        ++ (b',' ∷ part (codes "p") s.p ++ (b',' ∷ part (codes "len") s.length)))

split-body :
    (s : ScryptParameters)
    → split_on b',' (body s)
      ≡ part (codes "n") s.n
        ∷ part (codes "r") s.r
        ∷ part (codes "p") s.p
        ∷ part (codes "len") s.length
        ∷ []
split-body s =
    split_on-append b',' (part (codes "n") s.n) _ (no_comma s.n)
    ∙ ap (λ rest. part (codes "n") s.n ∷ rest)
        (split_on-append b',' (part (codes "r") s.r) _ (no_comma s.r)
          ∙ ap (λ rest. part (codes "r") s.r ∷ rest)
              (split_on-append b',' (part (codes "p") s.p) _ (no_comma s.p)
                ∙ ap (λ rest. part (codes "p") s.p ∷ rest)
                    (split_on-one b',' (part (codes "len") s.length) (no_comma s.length))))

abbrev all_fields : ScryptParameters → Fields
all_fields s = (codes "n", s.n) ∷ (codes "r", s.r) ∷ (codes "p", s.p) ∷ (codes "len", s.length) ∷ []

parse-body : (s : ScryptParameters) → parse_parts (split_on b',' (body s)) [] ≡ ok (all_fields s)
unfolding parse_parts put text_eq
parse-body s = rw (split-body s) (
    rw (parse_part-part (codes "n") s.n [] refl) (
      rw (parse_part-part (codes "r") s.r ((codes "n", s.n) ∷ []) refl) (
        rw (parse_part-part (codes "p") s.p ((codes "n", s.n) ∷ (codes "r", s.r) ∷ []) refl) (
          rw
            (parse_part-part (codes "len") s.length
              ((codes "n", s.n) ∷ (codes "r", s.r) ∷ (codes "p", s.p) ∷ []) refl)
            refl))))

-- Serialized cost parameters are parsed as the parameters that they came from.
pub parse-serialize : (s : ScryptParameters) → parse (serialize s) ≡ ok s
unfolding parse serialize of_fields is_complete get text_eq
parse-serialize s =
    rw (partition-append b'$' (codes "scrypt") (body s) refl) (rw (parse-body s) refl)
