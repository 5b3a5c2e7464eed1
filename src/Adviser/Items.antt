-- ===== src/Adviser/Items.antt =====
-- evidence.py: what the constructor of an item accepts, and how it orders the symbols.
use us_stock_helper.Prelude.{
  ℕ, ◌≤◌, Text, text_eq, text_lt, codes, ◌≡◌, refl, subst, Bool, true, false, not, ◌&&◌, ◌||◌,
  Bool-cases, inl, inr, Option, none, some, List, [], ◌∷◌, All, arith, ltb, if◌then◌else◌, exists,
  map, strip, to_upper,
}
use us_stock_helper.Adviser.Evidence.{EvidenceItem}

-- What `urlparse` finds in a link, where a part that is missing or empty is an empty text.
pub record ParsedUrl : Type 0 where
  pub scheme : Text
  pub hostname : Text
  pub username : Text
  pub password : Text

abbrev is_blank : Text → Bool
is_blank [] = true
is_blank (c ∷ cs) = false

unfoldable pub is_plain_link : ParsedUrl → Bool
is_plain_link u =
    (text_eq u.scheme (codes "http") || text_eq u.scheme (codes "https"))
    && (not (is_blank u.hostname) && (is_blank u.username && is_blank u.password))

abbrev is_written : Text → Bool
is_written t = not (is_blank (strip t))

-- `sorted({…})`
unfoldable pub insert_symbol : Text → List Text → List Text
insert_symbol a [] = a ∷ []
insert_symbol a (b ∷ bs) =
    let rest = insert_symbol a bs in
    if text_eq a b then b ∷ bs else if text_lt a b then a ∷ b ∷ bs else b ∷ rest

unfoldable pub sorted_set : List Text → List Text
sorted_set [] = []
sorted_set (x ∷ xs) = insert_symbol x (sorted_set xs)

-- `symbol.strip().upper()`, for a symbol in ASCII
abbrev pub clean : Text → Text
clean t = map to_upper (strip t)

abbrev pub clean_symbols : List Text → List Text
clean_symbols symbols = sorted_set (map clean symbols)

abbrev pub is_complete : EvidenceItem → Bool
is_complete item =
    is_written item.id
    && (is_written item.headline
        && (is_written item.body && (is_written item.url && is_written item.publisher)))

-- `EvidenceItem.__post_init__`, where `none` is a `ValueError`
unfoldable pub accept_item : (Text → ParsedUrl) → EvidenceItem → Option EvidenceItem
accept_item urlparse item =
    if (ltb item.received_at item.available_at || not (is_complete item))
      || (not (is_plain_link (urlparse item.url)) || exists is_blank (clean_symbols item.symbols))
    then none
    else some (record item { symbols = clean_symbols item.symbols })

text_lt_trans : (a b c : Text) → text_lt a b ≡ true → text_lt b c ≡ true → text_lt a c ≡ true
unfolding text_lt
text_lt_trans [] [] c h k = cc
text_lt_trans [] (y ∷ ys) [] h k = cc
text_lt_trans [] (y ∷ ys) (z ∷ zs) h k = refl
text_lt_trans (x ∷ xs) [] c h k = cc
text_lt_trans (x ∷ xs) (y ∷ ys) [] h k = cc
text_lt_trans (x ∷ xs) (y ∷ ys) (z ∷ zs) h k = ground (arith, text_lt_trans xs ys zs)

text_lt_total : (a b : Text) → text_eq a b ≡ false → text_lt a b ≡ false → text_lt b a ≡ true
unfolding text_lt text_eq
text_lt_total [] [] h k = cc
text_lt_total [] (y ∷ ys) h k = cc
text_lt_total (x ∷ xs) [] h k = refl
text_lt_total (x ∷ xs) (y ∷ ys) h k = ground (arith, text_lt_total xs ys)

-- Each symbol comes before those that follow it, so that none stands twice.
abbrev pub IsAscending : List Text → Type 0
IsAscending [] = Unit
IsAscending (x ∷ xs) = All (λ y. text_lt x y ≡ true) xs × IsAscending xs

insert_symbol-All :
    (P : Text → Type 0) (a : Text) (xs : List Text) → P a → All P xs → All P (insert_symbol a xs)
unfolding insert_symbol
insert_symbol-All P a [] h hs = (h, tt)
insert_symbol-All P a (b ∷ bs) h (hb, hbs) = elim (Bool-cases (text_eq a b)) [
  | inl same ↦ rw same (hb, hbs)
  | inr other ↦ elim (Bool-cases (text_lt a b)) [
    | inl before ↦ rw (other, before) (h, (hb, hbs))
    | inr after ↦ rw (other, after) (hb, insert_symbol-All P a bs h hbs)
  ]
]

All-after :
    (a b : Text) (xs : List Text)
    → text_lt a b ≡ true
    → All (λ y. text_lt b y ≡ true) xs
    → All (λ y. text_lt a y ≡ true) xs
All-after a b [] h hs = tt
All-after a b (x ∷ xs) h (k, ks) = (text_lt_trans a b x h k, All-after a b xs h ks)

insert_symbol-IsAscending :
    (a : Text) (xs : List Text) → IsAscending xs → IsAscending (insert_symbol a xs)
unfolding insert_symbol
insert_symbol-IsAscending a [] h = (tt, tt)
insert_symbol-IsAscending a (b ∷ bs) (first, rest) = elim (Bool-cases (text_eq a b)) [
  | inl same ↦ rw same (first, rest)
  | inr other ↦ elim (Bool-cases (text_lt a b)) [
    | inl before ↦ rw (other, before) ((before, All-after a b bs before first), (first, rest))
    | inr after ↦
        rw (other, after)
          (
            insert_symbol-All (λ y. text_lt b y ≡ true) a bs (text_lt_total a b other after) first,
            insert_symbol-IsAscending a bs rest,
          )
  ]
]

pub sorted_set-IsAscending : (xs : List Text) → IsAscending (sorted_set xs)
unfolding sorted_set
sorted_set-IsAscending [] = tt
sorted_set-IsAscending (x ∷ xs) =
    insert_symbol-IsAscending x (sorted_set xs) (sorted_set-IsAscending xs)

-- What an accepted item has.
pub record IsAcceptedItem (urlparse : Text → ParsedUrl) (given item : EvidenceItem) : Type 0 where
  pub in_time : item.available_at ≤ item.received_at
  pub complete : is_complete item ≡ true
  pub plain_link : is_plain_link (urlparse item.url) ≡ true
  pub no_blank_symbol : exists is_blank item.symbols ≡ false
  pub ascending : IsAscending item.symbols
  pub same_symbols : item.symbols ≡ clean_symbols given.symbols

if_some :
    (b : Bool) (x y : EvidenceItem) → (if b then none else some x) ≡ some y → (b ≡ false) × (x ≡ y)
if_some true x y h = cc
if_some false x y h = (refl, cc h)

no_fault :
    (p q r s : Bool)
    → ((p || not q) || (not r || s)) ≡ false
    → (p ≡ false) × (q ≡ true) × (r ≡ true) × (s ≡ false)
no_fault p q r s h = ground arith

in_time_lem : (a b : ℕ) → ltb a b ≡ false → b ≤ a
in_time_lem a b h = ground arith

-- An accepted item is received no earlier than it is available, has every field written and a plain
-- link, and has the symbols that it is given, cleaned, in ascending order, none of them blank.
pub accept_item-IsAccepted :
    (urlparse : Text → ParsedUrl) (given item : EvidenceItem)
    → accept_item urlparse given ≡ some item
    → IsAcceptedItem urlparse given item
unfolding accept_item
accept_item-IsAccepted urlparse given item h =
    let (passed, same) = if_some _ _ item h in
    let (late, complete, link, blank) =
      no_fault (ltb given.received_at given.available_at) _ _ _ passed in
    subst (IsAcceptedItem urlparse given) same (record {
      in_time = in_time_lem given.received_at given.available_at late;
      complete = complete;
      plain_link = link;
      no_blank_symbol = blank;
      ascending = sorted_set-IsAscending (map clean given.symbols);
      same_symbols = refl;
    })
