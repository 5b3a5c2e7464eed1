-- ===== src/Adviser/Evidence.antt =====
-- services/adviser_llm/src/adviser_llm/evidence.py: the frozen packet of evidence.
use us_stock_helper.Prelude.{
  ℕ, Text, text_eq, text_lt, Bool, true, false, not, ◌&&◌, ◌||◌, Option, List, [], ◌∷◌, ◌++◌, ltb,
  leb, ◌==◌, if◌then◌else◌, exists, find, codes, strip, to_upper, map, select,
}

abbrev pub Instant : Type 0
Instant = ℕ

pub record EvidenceItem : Type 0 where
  pub id : Text
  pub headline : Text
  pub body : Text
  pub url : Text
  pub publisher : Text
  pub available_at : Instant
  pub received_at : Instant
  pub symbols : List Text
  pub is_counter_evidence : Bool

-- Everything that a citation may quote from.
abbrev pub text_of : EvidenceItem → Text
text_of item = item.headline ++ b'\n' ∷ item.body

pub record EvidencePacket : Type 0 where
  pub symbol : Text
  pub horizon : Text
  pub as_of : Instant
  pub items : List EvidenceItem

abbrev pub has_id : Text → EvidenceItem → Bool
has_id id item = text_eq item.id id

-- `EvidencePacket.item`
unfoldable pub item_of : EvidencePacket → Text → Option EvidenceItem
item_of packet id = find (has_id id) packet.items

pub data BuildResult : Type 0 where
  built : EvidencePacket → BuildResult
  value_error : BuildResult

abbrev pub is_in : Text → List Text → Bool
is_in t ts = exists (λ u. text_eq t u) ts

-- Neither after the time of the packet, nor about other symbols only.
abbrev pub is_visible : Text → Instant → EvidenceItem → Bool
is_visible symbol as_of item = leb item.available_at as_of && concerns symbol item.symbols
  where
    concerns : Text → List Text → Bool
    concerns s [] = true
    concerns s (t ∷ ts) = is_in s (t ∷ ts)

-- An id that is there already is an error of the whole packet.
unfoldable pub has_repeat : List EvidenceItem → Bool
has_repeat [] = false
has_repeat (x ∷ xs) = exists (has_id x.id) xs || has_repeat xs

-- `key=lambda item: (item.available_at, item.id)`
abbrev pub comes_after : EvidenceItem → EvidenceItem → Bool
comes_after a b =
    ltb b.available_at a.available_at || (b.available_at == a.available_at && text_lt b.id a.id)

unfoldable pub insert_item : EvidenceItem → List EvidenceItem → List EvidenceItem
insert_item a [] = a ∷ []
insert_item a (b ∷ bs) =
    let rest = insert_item a bs in if comes_after a b then b ∷ rest else a ∷ b ∷ bs

unfoldable pub sort_items : List EvidenceItem → List EvidenceItem
sort_items [] = []
sort_items (x ∷ xs) = insert_item x (sort_items xs)

abbrev pub horizons : List Text
horizons = codes "short" ∷ codes "swing" ∷ codes "long" ∷ []

abbrev is_empty {ℓ} : {A : Type ℓ} → List A → Bool
is_empty [] = true
is_empty (x ∷ xs) = false

unfoldable pub pack : Text → Text → Instant → List EvidenceItem → BuildResult
pack symbol horizon as_of visible =
    if has_repeat visible || is_empty visible
    then value_error
    else built
        (record { symbol = symbol; horizon = horizon; as_of = as_of; items = sort_items visible })

-- `build_packet`, for a symbol in ASCII
unfoldable pub build_packet : Text → Text → Instant → List EvidenceItem → BuildResult
build_packet symbol horizon as_of items =
    let clean_symbol = map to_upper (strip symbol) in
    if is_empty clean_symbol || not (is_in horizon horizons)
    then value_error
    else pack clean_symbol horizon as_of (select (is_visible clean_symbol as_of) items)
