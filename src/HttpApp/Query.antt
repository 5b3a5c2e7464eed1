-- ===== src/HttpApp/Query.antt =====
-- http_app.py, `_one` and `_flag`: the parameters of a request. Python's `lower` is modelled on ASCII
-- letters; no other character becomes one of those that are compared here.
use us_stock_helper.Prelude.{
  Text, codes, text_eq, strip, to_lower, Bool, Option, none, some, List, [], ◌∷◌, ◌++◌, map, exists,
  if◌then◌else◌, Dict, get_key,
}
use us_stock_helper.Prelude.Checked.{Checked, accepted, rejected}
use us_stock_helper.DeviceAuth.Credentials.Tokens.{is_empty}

-- `parse_qs`: the values of each key, in their order
abbrev pub Query : Type 0
Query = Dict (List Text)

-- `query.get(key, [])`
abbrev pub or_nothing : Option (List Text) → List Text
or_nothing none = []
or_nothing (some values) = values

unfoldable pub values_of : Text → Query → List Text
values_of key query = or_nothing (get_key key query)

abbrev pub not_once : Text → Text
not_once key = key ++ codes " must appear exactly once"

unfoldable pub only_value : Text → List Text → Checked Text Text
only_value key [] = rejected (not_once key)
only_value key (v ∷ w ∷ rest) = rejected (not_once key)
only_value key (v ∷ []) = if is_empty (strip v) then rejected (not_once key) else accepted (strip v)

-- `_one`
unfoldable pub one : Query → Text → Checked Text Text
one query key = only_value key (values_of key query)

-- `False`, `True` or `"news"`
pub data AdviserFlag : Type 0 where
  off on news : AdviserFlag

-- `t.lower()`
abbrev pub lower : Text → Text
lower t = map to_lower t

abbrev pub is_one_of : List Text → Text → Bool
is_one_of words t = exists (λ w. text_eq w t) words

abbrev pub true_words : List Text
true_words = codes "1" ∷ codes "true" ∷ codes "yes" ∷ []

abbrev pub false_words : List Text
false_words = codes "0" ∷ codes "false" ∷ codes "no" ∷ [] ∷ []

abbrev pub not_a_flag : Text → Text
not_a_flag key = key ++ codes " must be one of 1, 0, true, false, yes, no, news"

unfoldable pub flag_word : Text → Text → Checked Text AdviserFlag
flag_word key raw =
    if is_one_of true_words raw
    then accepted on
    else if is_one_of false_words raw
    then accepted off
    else if text_eq raw (codes "news")
    then accepted news
    else rejected (not_a_flag key)

unfoldable pub flag_value : Text → List Text → Checked Text AdviserFlag
flag_value key [] = accepted off
flag_value key (v ∷ []) = flag_word key (lower (strip v))
flag_value key (v ∷ w ∷ rest) = rejected (key ++ codes " must appear at most once")

-- `_flag`
unfoldable pub flag : Query → Text → Checked Text AdviserFlag
flag query key = flag_value key (values_of key query)
