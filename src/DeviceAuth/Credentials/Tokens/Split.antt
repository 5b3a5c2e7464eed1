-- ===== src/DeviceAuth/Credentials/Tokens/Split.antt =====
-- credentials.py: a token is split into the parts that it was made of, and into nothing else.
use us_stock_helper.Prelude.{
  ℕ, Text, is_ascii, is_space, strip, strip-no_space, partition, partition-append, append-partition,
  ◌≡◌, refl, ap, sym, ◌∙◌, Bool-cases, inl, inr, Bool, true, false, not, ◌&&◌, some, ◌∷◌, ◌++◌,
  every, every-append, every_mono, ltb, ◌==◌, arith,
}
use us_stock_helper.DeviceAuth.Credentials.Codes.{text}
use us_stock_helper.DeviceAuth.Credentials.Tokens.{
  is_token_character, is_empty, token_separator, format_token, check_parts, split_token,
}

-- A part of a token: not empty, and of token characters alone.
pub record IsTokenPart (t : Text) : Type 0 where
  pub some_character : is_empty t ≡ false
  pub characters : every is_token_character t ≡ true

abbrev is_plain : ℕ → Bool
is_plain c = ltb c 128 && not (is_space c)

plain_character : (c : ℕ) → is_token_character c ≡ true → is_plain c ≡ true
unfolding is_space
plain_character c h = ground arith

plain_dot : is_plain token_separator ≡ true
unfolding is_space
plain_dot = refl

format-plain :
    (device_id secret : Text)
    → IsTokenPart device_id
    → IsTokenPart secret
    → every is_plain (format_token device_id secret) ≡ true
unfolding format_token
format-plain device_id secret d s = ground (
  arith,
  plain_dot,
  every-append is_plain device_id (token_separator ∷ secret),
  every_mono is_token_character is_plain plain_character device_id d.characters,
  every_mono is_token_character is_plain plain_character secret s.characters,
)

no_separator : (c : ℕ) → is_token_character c ≡ true → not (c == token_separator) ≡ true
no_separator c h = ground arith

strip-format :
    (device_id secret : Text)
    → IsTokenPart device_id
    → IsTokenPart secret
    → strip (format_token device_id secret) ≡ format_token device_id secret
strip-format device_id secret d s = strip-no_space (format_token device_id secret) (
    every_mono is_plain (λ c. not (is_space c)) (λ c h. ground arith)
      (format_token device_id secret) (format-plain device_id secret d s))

-- A token that `format_token` makes of two parts of token characters is split into these parts.
pub split-format :
    (device_id secret : Text)
    → IsTokenPart device_id
    → IsTokenPart secret
    → split_token (text (format_token device_id secret)) ≡ some (device_id, secret)
unfolding split_token
split-format device_id secret d s =
    let ascii : is_ascii (format_token device_id secret) ≡ true =
      every_mono is_plain (λ c. ltb c 128) (λ c h. ground arith) (format_token device_id secret)
        (format-plain device_id secret d s) in
    let parts : partition token_separator (format_token device_id secret)
        ≡ (device_id, true, secret) =
      unfold format_token in
      partition-append token_separator device_id secret (
        every_mono is_token_character (λ c. not (c == token_separator)) no_separator device_id
          d.characters) in
    rw (ascii, strip-format device_id secret d s, parts)
      (rw (d.some_character, s.some_character, d.characters, s.characters) refl)

-- What passes the checks of the parts.
checked_parts :
    (before after device_id secret : Text) (found : Bool)
    → check_parts (before, found, after) ≡ some (device_id, secret)
    → (found ≡ true)
      × (before ≡ device_id)
      × (after ≡ secret)
      × (is_empty before ≡ false)
      × (every is_token_character before ≡ true)
      × (is_empty after ≡ false)
      × (every is_token_character after ≡ true)
unfolding check_parts
checked_parts before after device_id secret found h = ground arith

split_ascii :
    (token device_id secret : Text)
    → split_token (text token) ≡ some (device_id, secret)
    → check_parts (partition token_separator (strip token)) ≡ some (device_id, secret)
unfolding split_token
split_ascii token device_id secret h = elim (Bool-cases (is_ascii token)) [
  | inl ascii ↦ rw ascii at h
  | inr no_ascii ↦ cc (rw no_ascii at h)
]

-- What is split is a token in surrounding space: its two parts joined by the separator, each of
-- them not empty and of token characters alone.
pub format-split :
    (token device_id secret : Text)
    → split_token (text token) ≡ some (device_id, secret)
    → (format_token device_id secret ≡ strip token) × IsTokenPart device_id × IsTokenPart secret
unfolding format_token
format-split token device_id secret h =
    let (before, found, after) = partition token_separator (strip token) in
    let (f, b, a, eb, cb, ea, ca) =
      checked_parts before after device_id secret found (split_ascii token device_id secret h) in
    (
      ap (λ x. x ++ token_separator ∷ secret) (sym b)
          ∙ ap (λ x. before ++ token_separator ∷ x) (sym a)
          ∙ append-partition token_separator (strip token) f,
      record { some_character = rw (← b) eb; characters = rw (← b) cb },
      record { some_character = rw (← a) ea; characters = rw (← a) ca },
    )
