-- ===== src/Adviser/Tokens.antt =====
-- services/adviser_llm/src/adviser_llm/traceability.py: the patterns that find numbers and
-- abbreviations in a text, and the normal form in which quotes are compared.
use us_stock_helper.Prelude.{
  ℕ, Text, Bool, true, false, ◌&&◌, ◌||◌, List, [], ◌∷◌, ◌++◌, leb, ◌==◌, if◌then◌else◌, is_space,
  strip, starts_with, length, every, select,
}

-- What of Unicode and of the calendar is not written out: `\d` and `\w` of `re`, `str.casefold` of a
-- character, and `date().isoformat()` of an instant.
pub record Builtins : Type 0 where
  pub is_digit : ℕ → Bool
  pub is_word : ℕ → Bool
  pub casefold : ℕ → Text
  pub isodate : ℕ → Text

-- `re.sub(r"\s+", " ", …)`; the flag says that the character before is a space.
unfoldable pub squeeze : Bool → Text → Text
squeeze prev [] = []
squeeze prev (c ∷ cs) =
    let inside = squeeze true cs in
    let outside = squeeze false cs in
    if is_space c then (if prev then inside else b' ' ∷ inside) else c ∷ outside

unfoldable pub casefold_all : Builtins → Text → Text
casefold_all b [] = []
casefold_all b (c ∷ cs) = b.casefold c ++ casefold_all b cs

-- `_normalize`
unfoldable pub normalize : Builtins → Text → Text
normalize b t = casefold_all b (strip (squeeze false t))

-- `needle in text`
unfoldable pub contains : Text → Text → Bool
contains needle [] = starts_with [] needle
contains needle (c ∷ cs) = starts_with (c ∷ cs) needle || contains needle cs

-- Where the scan for `\d+(?:\.\d+)?` stands: outside of a match, in its digits, after a point that
-- follows them, or in the digits after the point.
pub data Scan : Type 0 where
  outside : Scan
  whole : Text → Scan
  point : Text → Scan
  fraction : Text → Scan

-- `_NUMBER.findall`
unfoldable pub scan : Builtins → Scan → Text → List Text
scan b outside [] = []
scan b (whole m) [] = m ∷ []
scan b (point m) [] = m ∷ []
scan b (fraction m) [] = m ∷ []
scan b outside (c ∷ cs) =
    let begun = scan b (whole (c ∷ [])) cs in
    let skipped = scan b outside cs in if b.is_digit c then begun else skipped
scan b (whole m) (c ∷ cs) =
    let more = scan b (whole (m ++ c ∷ [])) cs in
    let pointed = scan b (point m) cs in
    let ended = scan b outside cs in
    if b.is_digit c then more else if c == b'.' then pointed else m ∷ ended
scan b (point m) (c ∷ cs) =
    let more = scan b (fraction (m ++ b'.' ∷ c ∷ [])) cs in
    let ended = scan b outside cs in if b.is_digit c then more else m ∷ ended
scan b (fraction m) (c ∷ cs) =
    let more = scan b (fraction (m ++ c ∷ [])) cs in
    let ended = scan b outside cs in if b.is_digit c then more else m ∷ ended

unfoldable pub numbers : Builtins → Text → List Text
numbers b t = scan b outside t

-- The words of a text: its longest runs of `\w`; the first argument is the run so far.
unfoldable pub words_from : Builtins → Text → Text → List Text
words_from b m [] = m ∷ []
words_from b m (c ∷ cs) =
    let more = words_from b (m ++ c ∷ []) cs in
    let next = words_from b [] cs in if b.is_word c then more else m ∷ next

abbrev is_upper_ascii : ℕ → Bool
is_upper_ascii c = leb b'A' c && leb c b'Z'

abbrev pub is_uppercase_token : Text → Bool
is_uppercase_token w = (leb 2 (length w) && leb (length w) 5) && every is_upper_ascii w

-- `_UPPERCASE_TOKEN.findall`. There is no word boundary between two characters of a word, so that
-- `\b[A-Z]{2,5}\b` matches whole words and no others.
unfoldable pub uppercase_tokens : Builtins → Text → List Text
uppercase_tokens b t = select is_uppercase_token (words_from b [] t)
