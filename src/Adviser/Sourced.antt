-- ===== src/Adviser/Sourced.antt =====
-- traceability.py: what is shown is grounded in the packet and quotes it.
use us_stock_helper.Prelude.{
  ◌<◌, Text, text_eq, eq-text_eq, ◌≡◌, refl, sym, subst, Bool, true, false, ◌||◌, Bool-cases, inl,
  inr, ◌⊎◌, Option, none, some, List, [], ◌∷◌, All, Any, arith, length, every, find, ltb,
  if◌then◌else◌,
}
use us_stock_helper.Adviser.Tokens.{Builtins, normalize, contains, numbers, uppercase_tokens}
use us_stock_helper.Adviser.Evidence.{EvidenceItem, EvidencePacket, text_of, item_of, is_in, has_id}
use us_stock_helper.Adviser.Trace.{
  Citation, ResolvedCitation, Refusal, Traced, ok, refused, ◌>>=◌, ◌>>◌, guard, each, resolve_item,
  resolve_citation, is_allowed, reject_facts, grounded_numbers, grounded_uppercase,
}

-- What is known of the parts when the whole is no refusal.
pub bind_ok :
    {A B : Type 0} (m : Traced A) (k : A → Traced B) (y : B)
    → (m >>= k) ≡ ok y
    → (x : A) × (m ≡ ok x) × (k x ≡ ok y)
bind_ok (ok x) k y h = (x, refl, h)
bind_ok (refused e) k y h = cc

pub guard_ok :
    {B : Type 0} (b : Bool) (e : Refusal) (k : Traced B) (y : B)
    → (guard b e >> k) ≡ ok y
    → (b ≡ true) × (k ≡ ok y)
guard_ok true e k y h = (refl, h)
guard_ok false e k y h = cc

pub ok_inj : {A : Type 0} {x y : A} → ok x ≡ ok y → x ≡ y
ok_inj h = cc

some_inj : {A : Type 0} {x y : A} → some x ≡ some y → x ≡ y
some_inj h = cc

guard_holds : (b : Bool) (e : Refusal) (u : Unit {0}) → guard b e ≡ ok u → b ≡ true
guard_holds true e u h = refl
guard_holds false e u h = cc

pub each-All :
    {A B : Type 0} (f : A → Traced B) (Q : B → Type 0)
    → ((x : A) (y : B) → f x ≡ ok y → Q y)
    → (xs : List A) (ys : List B) → each f xs ≡ ok ys
    → All Q ys
each-All f Q q [] [] h = tt
each-All f Q q [] (y ∷ ys) h = cc
each-All f Q q (x ∷ xs) ys h =
    let (y, first, rest) = bind_ok (f x) (λ y. each f xs >>= λ zs. ok (y ∷ zs)) ys h in
    let (zs, others, whole) = bind_ok (each f xs) (λ zs. ok (y ∷ zs)) ys rest in
    subst (All Q) (ok_inj whole) (q x y first, each-All f Q q xs zs others)

is_in-Any : (t : Text) (ts : List Text) → is_in t ts ≡ true → Any (λ u. t ≡ u) ts
is_in-Any t [] h = cc
is_in-Any t (u ∷ us) h = elim (Bool-cases (text_eq t u)) [
  | inl same ↦ inl (eq-text_eq t u same)
  | inr other ↦ inr (is_in-Any t us (subst (λ b. (b || is_in t us) ≡ true) other h))
]

every-All :
    {A : Type 0} (p : A → Bool) (Q : A → Type 0)
    → ((x : A) → p x ≡ true → Q x)
    → (xs : List A) → every p xs ≡ true
    → All Q xs
every-All p Q q [] h = tt
every-All p Q q (x ∷ xs) h = (q x (ground arith), every-All p Q q xs (ground arith))

-- Every number of two characters or more is one of the packet's, and so is every abbreviation.
pub record IsGrounded (b : Builtins) (packet : EvidencePacket) (t : Text) : Type 0 where
  pub known_numbers :
      All (λ n. (length n < 2) ⊎ Any (λ u. n ≡ u) (grounded_numbers b packet)) (numbers b t)
  pub known_uppercase :
      All (λ w. Any (λ u. w ≡ u) (grounded_uppercase b packet)) (uppercase_tokens b t)

is_allowed-known :
    (b : Builtins) (packet : EvidencePacket) (n : Text)
    → is_allowed b packet n ≡ true
    → (length n < 2) ⊎ Any (λ u. n ≡ u) (grounded_numbers b packet)
is_allowed-known b packet n h = elim (Bool-cases (ltb (length n) 2)) [
  | inl short ↦ inl (ground arith)
  | inr long ↦ inr (
      is_in-Any n (grounded_numbers b packet)
        (subst (λ s. (s || is_in n (grounded_numbers b packet)) ≡ true) long h))
]

pub reject_facts-IsGrounded :
    (b : Builtins) (packet : EvidencePacket) (t : Text) (u : Unit {0})
    → reject_facts b packet t ≡ ok u
    → IsGrounded b packet t
unfolding reject_facts
reject_facts-IsGrounded b packet t u h =
    let (nums, rest) = guard_ok _ _ _ u h in
    record {
      known_numbers = every-All _ _ (is_allowed-known b packet) (numbers b t) nums;
      known_uppercase =
          every-All _ _ (λ w. is_in-Any w (grounded_uppercase b packet)) (uppercase_tokens b t)
            (guard_holds _ _ u rest);
    }

-- The citation is of an item of the packet: its source and its times are the item's, and what it
-- quotes stands in the text of the item, up to space and case.
abbrev pub Quotes : Builtins → ResolvedCitation → EvidenceItem → Type 0
Quotes b r item =
    (r.evidence_id ≡ item.id)
    × (r.url ≡ item.url)
    × (r.publisher ≡ item.publisher)
    × (r.available_at ≡ item.available_at)
    × (r.received_at ≡ item.received_at)
    × (r.is_counter_evidence ≡ item.is_counter_evidence)
    × (contains (normalize b r.quote) (normalize b (text_of item)) ≡ true)

abbrev pub IsSourced : Builtins → EvidencePacket → ResolvedCitation → Type 0
IsSourced b packet r = Any (Quotes b r) packet.items

find-Any :
    (p : EvidenceItem → Bool) (Q : EvidenceItem → Type 0) (items : List EvidenceItem)
    (item : EvidenceItem)
    → find p items ≡ some item
    → Q item
    → Any Q items
find-Any p Q [] item h q = cc
find-Any p Q (x ∷ xs) item h q = elim (Bool-cases (p x)) [
  | inl here ↦ inl (
      subst Q (sym (some_inj (subst (λ b. (if b then some x else find p xs) ≡ some item) here h)))
        q)
  | inr there ↦
      inr (
        find-Any p Q xs item (subst (λ b. (if b then some x else find p xs) ≡ some item) there h) q)
]

resolve_item-Quotes :
    (b : Builtins) (c : Citation) (found : Option EvidenceItem) (r : ResolvedCitation)
    → resolve_item b c found ≡ ok r
    → (item : EvidenceItem) × (found ≡ some item) × Quotes b r item
unfolding resolve_item
resolve_item-Quotes b c none r h = cc
resolve_item-Quotes b c (some item) r h =
    let (quoted, same) = guard_ok _ _ _ r h in
    (
      item,
      refl,
      subst (λ s. Quotes b s item) (ok_inj same) (refl, refl, refl, refl, refl, refl, quoted),
    )

pub resolve_citation-IsSourced :
    (b : Builtins) (packet : EvidencePacket) (c : Citation) (r : ResolvedCitation)
    → resolve_citation b packet c ≡ ok r
    → IsSourced b packet r
unfolding resolve_citation item_of
resolve_citation-IsSourced b packet c r h =
    let (item, found, quotes) = resolve_item-Quotes b c _ r h in
    find-Any (has_id c.evidence_id) (Quotes b r) packet.items item found quotes
