-- ===== src/Prelude/Texts.antt =====
-- Texts and byte strings as lists of code points, with Python's operations on them.
use Prim.Native.Char.{code}
use Prim.Native.Nat.{ℕ, ◌+◌, ◌-◌}
use Prim.Native.String.{String}
use mathlib.Core.Path.{◌≡◌, refl}
use mathlib.Core.Bool.{Bool, true, false, not, ◌&&◌, ◌||◌}
use mathlib.Core.List.{List, [], ◌∷◌, ◌++◌}
use native.Mathlib.Omega.{arith}
use us_stock_helper.Prelude.Tests.{ltb, leb, ◌==◌, if◌then◌else◌}
use us_stock_helper.Prelude.Lists.{every, exists}

abbrev pub Text : Type 0
Text = List ℕ

-- The code points of a literal.
abbrev pub codes : String → Text
codes String.[] = []
codes (String.◌∷◌ c s) = code c ∷ codes s

-- `a == b`; also `hmac.compare_digest`, which answers the same
unfoldable pub text_eq : Text → Text → Bool
text_eq [] [] = true
text_eq [] (b ∷ bs) = false
text_eq (a ∷ as_) [] = false
text_eq (a ∷ as_) (b ∷ bs) = a == b && text_eq as_ bs

pub text_eq_refl : (a : Text) → text_eq a a ≡ true
unfolding text_eq
text_eq_refl [] = refl
text_eq_refl (a ∷ as_) = ground (arith, text_eq_refl as_)

pub eq-text_eq : (a b : Text) → text_eq a b ≡ true → a ≡ b
unfolding text_eq
eq-text_eq [] [] h = refl
eq-text_eq [] (b ∷ bs) h = cc
eq-text_eq (a ∷ as_) [] h = cc
eq-text_eq (a ∷ as_) (b ∷ bs) h = ground (arith, eq-text_eq as_ bs)

-- `a < b` on texts: code point by code point, a proper prefix first
unfoldable pub text_lt : Text → Text → Bool
text_lt [] [] = false
text_lt [] (b ∷ bs) = true
text_lt (a ∷ as_) [] = false
text_lt (a ∷ as_) (b ∷ bs) = ltb a b || (a == b && text_lt as_ bs)

-- `str.isascii`
abbrev pub is_ascii : Text → Bool
is_ascii = every (λ c. ltb c 128)

-- Whitespace, as `str.strip` removes it.
unfoldable pub is_space : ℕ → Bool
is_space c =
    (leb 9 c && leb c 13)
    || (leb 28 c && leb c 32)
    || c == 0x85
    || c == 0xa0
    || c == 0x1680
    || (leb 0x2000 c && leb c 0x200a)
    || c == 0x2028
    || c == 0x2029
    || c == 0x202f
    || c == 0x205f
    || c == 0x3000

unfoldable pub lstrip : Text → Text
lstrip [] = []
lstrip (c ∷ cs) = let rest = lstrip cs in if is_space c then rest else c ∷ cs

unfoldable pub rstrip : Text → Text
rstrip [] = []
rstrip (c ∷ cs) = elim (rstrip cs) [ [] ↦ if is_space c then [] else c ∷ [] | x ∷ xs ↦ c ∷ x ∷ xs ]

-- `str.strip`
unfoldable pub strip : Text → Text
unfolding lstrip rstrip is_space
strip t = rstrip (lstrip t)

-- `str.partition` at one character: what stands before it, whether it is there, and what follows.
unfoldable pub partition : ℕ → Text → Text × Bool × Text
partition sep [] = ([], false, [])
partition sep (c ∷ cs) =
    let (before, found, after) = partition sep cs in
    if c == sep then ([], true, cs) else (c ∷ before, found, after)

-- `str.upper` and `str.lower`, on an ASCII character
abbrev pub to_upper : ℕ → ℕ
to_upper c = if leb b'a' c && leb c b'z' then c - 32 else c

abbrev pub to_lower : ℕ → ℕ
to_lower c = if leb b'A' c && leb c b'Z' then c + 32 else c

-- The character is one of the text's.
abbrev pub occurs_in : Text → ℕ → Bool
occurs_in t c = exists (λ x. x == c) t

strip_keeps : (t : Text) → every (λ c. not (is_space c)) t ≡ true → (lstrip t ≡ t) × (rstrip t ≡ t)
unfolding lstrip rstrip
strip_keeps [] h = (refl, refl)
strip_keeps (c ∷ cs) h = ground (arith, strip_keeps cs)

pub strip-no_space : (t : Text) → every (λ c. not (is_space c)) t ≡ true → strip t ≡ t
unfolding strip
strip-no_space t h = rw ((strip_keeps t h).0, (strip_keeps t h).1)

-- What a table of characters has in common, each character that occurs in it has.
pub every-occurs :
    (p : ℕ → Bool) (table : Text) (c : ℕ)
    → every p table ≡ true
    → occurs_in table c ≡ true
    → p c ≡ true
every-occurs p [] c h m = cc
every-occurs p (x ∷ xs) c h m = ground (arith, every-occurs p xs c)

pub partition-append :
    (sep : ℕ) (a b : Text)
    → every (λ c. not (c == sep)) a ≡ true
    → partition sep (a ++ sep ∷ b) ≡ (a, true, b)
unfolding partition
partition-append sep [] b h = ground arith
partition-append sep (c ∷ cs) b h = ground (arith, partition-append sep cs b)

pub append-partition :
    (sep : ℕ) (t : Text)
    → (partition sep t).1 ≡ true
    → (partition sep t).0 ++ sep ∷ (partition sep t).2 ≡ t
unfolding partition
append-partition sep [] h = cc
append-partition sep (c ∷ cs) h = ground (arith, append-partition sep cs)

abbrev add_front : ℕ → List Text → List Text
add_front c [] = (c ∷ []) ∷ []
add_front c (x ∷ xs) = (c ∷ x) ∷ xs

-- `str.split` at one character
unfoldable pub split_on : ℕ → Text → List Text
split_on sep [] = [] ∷ []
split_on sep (c ∷ cs) =
    let rest = split_on sep cs in if c == sep then [] ∷ rest else add_front c rest

pub split_on-append :
    (sep : ℕ) (a b : Text)
    → every (λ c. not (c == sep)) a ≡ true
    → split_on sep (a ++ sep ∷ b) ≡ a ∷ split_on sep b
unfolding split_on
split_on-append sep [] b h = ground arith
split_on-append sep (c ∷ cs) b h = ground (arith, split_on-append sep cs b)

pub split_on-one :
    (sep : ℕ) (a : Text) → every (λ c. not (c == sep)) a ≡ true → split_on sep a ≡ a ∷ []
unfolding split_on
split_on-one sep [] h = refl
split_on-one sep (c ∷ cs) h = ground (arith, split_on-one sep cs)

-- `t.startswith(prefix)`
unfoldable pub starts_with : Text → Text → Bool
starts_with t [] = true
starts_with [] (p ∷ ps) = false
starts_with (c ∷ cs) (p ∷ ps) = c == p && starts_with cs ps
