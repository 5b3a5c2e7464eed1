-- ===== src/DeviceAuth/Credentials/Codes/Normal.antt =====
-- credentials.py: the normal form of a pairing code.
use us_stock_helper.Prelude.{
  ℕ, zero, suc, ◌%◌, ◌≤◌, ◌<◌, Text, is_ascii, occurs_in, every-occurs, to_upper, to_lower, ◌≡◌,
  refl, ap, sym, ◌∙◌, Bool, true, not, ◌&&◌, some, [], ◌∷◌, ◌++◌, map, length, take, drop,
  take-append-drop, select-append, every, every-append, ltb, leb, ◌==◌, arith, Bool-cases, inl, inr,
  and_split, tests, ==_iff,
}
use mathlib.Core.List.{map-append}
use us_stock_helper.DeviceAuth.Errors.{ok}
use us_stock_helper.DeviceAuth.Credentials.Codes.{
  text, code_alphabet, code_separators, min_code_length, max_code_length, char_at, draw_code,
  generate_code, format_code, condense, check_code, normalize_code,
}

-- A pairing code: its length is allowed, and its characters are of the alphabet.
pub record IsCode (code : Text) : Type 0 where
  pub long_enough : min_code_length ≤ length code
  pub short_enough : length code ≤ max_code_length
  pub characters : every (occurs_in code_alphabet) code ≡ true

-- What the alphabet's characters have in common.
abbrev is_fixed : ℕ → Bool
is_fixed c =
    ltb c 128
    && (to_upper c == c)
    && (to_upper (to_lower c) == c)
    && ltb (to_lower c) 128
    && not (occurs_in code_separators c)

alphabet_fixed : (c : ℕ) → occurs_in code_alphabet c ≡ true → is_fixed c ≡ true
alphabet_fixed c h = every-occurs is_fixed code_alphabet c refl h

condense-append : (a b : Text) → condense (a ++ b) ≡ condense a ++ condense b
unfolding condense
condense-append a b =
    rw (map-append to_upper a b)
      (select-append (λ c. not (occurs_in code_separators c)) (map to_upper a) (map to_upper b))

-- Letters of either case and no separators: what is left is the code.
condense_code : (code : Text) → every (occurs_in code_alphabet) code ≡ true → condense code ≡ code
unfolding condense
condense_code [] h = refl
condense_code (c ∷ cs) h = ground (arith, alphabet_fixed c, condense_code cs)

upper-lower : (c : ℕ) → occurs_in code_alphabet c ≡ true → to_upper (to_lower c) ≡ c
upper-lower c h =
    (==_iff (to_upper (to_lower c)) c).0
      (every-occurs (λ x. to_upper (to_lower x) == x) code_alphabet c refl h)

no_separator : (c : ℕ) → occurs_in code_alphabet c ≡ true → not (occurs_in code_separators c) ≡ true
no_separator c h = every-occurs (λ x. not (occurs_in code_separators x)) code_alphabet c refl h

ascii_lower : (c : ℕ) → occurs_in code_alphabet c ≡ true → ltb (to_lower c) 128 ≡ true
ascii_lower c h = every-occurs (λ x. ltb (to_lower x) 128) code_alphabet c refl h

condense_lower :
    (code : Text)
    → every (occurs_in code_alphabet) code ≡ true
    → condense (map to_lower code) ≡ code
unfolding condense
condense_lower [] h = refl
condense_lower (c ∷ cs) h =
    let (first, others) =
      and_split (occurs_in code_alphabet c) (every (occurs_in code_alphabet) cs) h in
    rw (upper-lower c first)
      (rw (no_separator c first) (ap (λ r. c ∷ r) (condense_lower cs others)))

lower-ascii :
    (code : Text)
    → every (occurs_in code_alphabet) code ≡ true
    → is_ascii (map to_lower code) ≡ true
lower-ascii [] h = refl
lower-ascii (c ∷ cs) h =
    let (first, others) =
      and_split (occurs_in code_alphabet c) (every (occurs_in code_alphabet) cs) h in
    rw (ascii_lower c first) (lower-ascii cs others)

check_code-some : (code : Text) → IsCode code → check_code code ≡ some code
unfolding check_code
check_code-some code k = ground (arith, k.characters)

-- Whatever condenses to a code is read as that code.
normalize-condense :
    (raw code : Text)
    → is_ascii raw ≡ true
    → condense raw ≡ code
    → IsCode code
    → normalize_code (text raw) ≡ some code
unfolding normalize_code
normalize-condense raw code ascii e k = rw (ascii, e) (check_code-some code k)

-- The lower case of a formatted code is as the operator's phone may type it.
abbrev pub typed : Text → Text
typed code = map to_lower (format_code code)

every-part :
    (p : ℕ → Bool) (n : ℕ) (code : Text)
    → every p code ≡ true
    → (every p (take n code) ≡ true) × (every p (drop n code) ≡ true)
every-part p n code h =
    and_split (every p (take n code)) (every p (drop n code)) (
      sym (every-append p (take n code) (drop n code)) ∙ ap (every p) (take-append-drop n code) ∙ h)

condense-typed :
    (code : Text) → every (occurs_in code_alphabet) code ≡ true → condense (typed code) ≡ code
unfolding format_code
condense-typed code h = elim (Bool-cases (ltb 4 (length code))) [
  | inr short ↦ rw short (condense_lower code h)
  | inl long ↦
      let (front, back) = every-part (occurs_in code_alphabet) 4 code h in
      let dash : condense (map to_lower (b'-' ∷ drop 4 code))
          ≡ condense (map to_lower (drop 4 code)) =
        unfold condense in refl in
      rw long (
        ap condense (map-append to_lower (take 4 code) (b'-' ∷ drop 4 code))
        ∙ condense-append (map to_lower (take 4 code)) (map to_lower (b'-' ∷ drop 4 code))
        ∙ rw (condense_lower (take 4 code) front, dash, condense_lower (drop 4 code) back)
            (take-append-drop 4 code))
]

ascii-typed :
    (code : Text) → every (occurs_in code_alphabet) code ≡ true → is_ascii (typed code) ≡ true
unfolding format_code
ascii-typed code h = elim (Bool-cases (ltb 4 (length code))) [
  | inr short ↦ rw short (lower-ascii code h)
  | inl long ↦
      let (front, back) = every-part (occurs_in code_alphabet) 4 code h in
      rw long (
        rw (map-append to_lower (take 4 code) (b'-' ∷ drop 4 code)) (
          every-append (λ c. ltb c 128) (map to_lower (take 4 code))
            (map to_lower (b'-' ∷ drop 4 code))
          ∙ rw (lower-ascii (take 4 code) front, lower-ascii (drop 4 code) back) refl))
]

-- A code that is read off the terminal with its dash, and typed in lower case, is the code.
pub normalize-typed : (code : Text) → IsCode code → normalize_code (text (typed code)) ≡ some code
normalize-typed code k =
    normalize-condense (typed code) code (ascii-typed code k.characters)
      (condense-typed code k.characters) k

checked-IsCode : (t code : Text) → check_code t ≡ some code → IsCode code × (code ≡ t)
unfolding check_code
checked-IsCode t code h = ground arith

-- Whatever is accepted is a code: of the allowed length and alphabet, and what the input condenses
-- to; and the input is ASCII.
pub normalize_code-IsCode :
    (raw code : Text)
    → normalize_code (text raw) ≡ some code
    → IsCode code × (code ≡ condense raw) × (is_ascii raw ≡ true)
unfolding normalize_code
normalize_code-IsCode raw code h = elim (Bool-cases (is_ascii raw)) [
  | inl ascii ↦ let (k, e) = checked-IsCode (condense raw) code (rw ascii at h) in (k, e, ascii)
  | inr no_ascii ↦ cc (rw no_ascii at h)
]

char_at-occurs :
    (table : Text) (n : ℕ) → n < length table → occurs_in table (char_at table n) ≡ true
char_at-occurs [] n h = absurd (omega arith)
char_at-occurs (c ∷ cs) zero h = ground arith
char_at-occurs (c ∷ cs) (suc n) h = ground (arith, char_at-occurs cs n (omega arith))

draw_code-characters :
    (n : ℕ) (draw : ℕ → ℕ) → every (occurs_in code_alphabet) (draw_code n draw) ≡ true
unfolding draw_code
draw_code-characters zero draw = refl
draw_code-characters (suc n) draw =
    rw (char_at-occurs code_alphabet (draw n % 31) (omega arith)) (draw_code-characters n draw)

length-draw_code : (n : ℕ) (draw : ℕ → ℕ) → length (draw_code n draw) ≡ n
unfolding draw_code
length-draw_code zero draw = refl
length-draw_code (suc n) draw = ap suc (length-draw_code n draw)

-- A generated code is a code of the allowed alphabet and length, and of the length that was asked
-- for, whatever is drawn.
pub generate_code-IsCode :
    (n : ℕ) (draw : ℕ → ℕ) (code : Text)
    → generate_code n draw ≡ ok code
    → IsCode code × (length code ≡ n)
unfolding generate_code
generate_code-IsCode n draw code h =
    elim (Bool-cases (leb min_code_length n && leb n max_code_length)) [
      | inl allowed ↦
          let drawn : draw_code n draw ≡ code = cc (rw allowed at h) in
          let size : length code ≡ n = ap length (sym drawn) ∙ length-draw_code n draw in
          let (low, high) = and_split (leb min_code_length n) (leb n max_code_length) allowed in
          (
            record {
              long_enough = omega (tests, size);
              short_enough = omega (tests, size);
              characters =
                  ap (every (occurs_in code_alphabet)) (sym drawn) ∙ draw_code-characters n draw;
            },
            size,
          )
      | inr refused ↦ cc (rw refused at h)
    ]
