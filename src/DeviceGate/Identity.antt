-- ===== src/DeviceGate/Identity.antt =====
-- device_gate.py, `rate_limit_identity`: the address that a pairing attempt is counted against.
use us_stock_helper.Prelude.{
  Bool-cases, inl, inr, Text, strip, split_on, split_on-one, ◌≡◌, refl, ap, ◌∙◌, Bool, true, false,
  not, Option, none, some, List, [], ◌∷◌, ◌++◌, every, ◌==◌, if◌then◌else◌,
}
use mathlib.Core.List.{reverse, reverse-append}
use us_stock_helper.DeviceAuth.Credentials.Tokens.{is_empty}

-- The loop over the entries, the last one first.
unfoldable pub last_entry : (Text → Option Text) → Text → List Text → Text
last_entry ip_address peer_ip [] = peer_ip
last_entry ip_address peer_ip (candidate ∷ candidates) =
    if is_empty (strip candidate)
    then last_entry ip_address peer_ip candidates
    else elim (ip_address (strip candidate)) [ none ↦ peer_ip | some address ↦ address ]

unfoldable pub rate_limit_identity : (Text → Option Text) → Option Text → Text → Bool → Text
rate_limit_identity ip_address none peer_ip trust_proxy = peer_ip
rate_limit_identity ip_address (some forwarded_for) peer_ip trust_proxy =
    if not trust_proxy
    then peer_ip
    else last_entry ip_address peer_ip (reverse (split_on b',' forwarded_for))

-- The last entry of a header is the last of its entries, whatever stands before it.
split_last :
    (caller entry : Text)
    → every (λ c. not (c == b',')) entry ≡ true
    → (first : Text) × (others : List Text) × (split_on b',' (caller ++ b',' ∷ entry)
        ≡ first ∷ (others ++ entry ∷ []))
unfolding split_on
split_last [] entry h = ([], [], ap (λ l. [] ∷ l) (split_on-one b',' entry h))
split_last (c ∷ cs) entry h =
    let (first, others, e) = split_last cs entry h in
    elim (Bool-cases (c == b',')) [
      | inl comma ↦ ([], first ∷ others, rw (comma, e) refl)
      | inr plain ↦ (c ∷ first, others, rw (plain, e) refl)
    ]

last_entry_is :
    (ip_address : Text → Option Text) (peer_ip entry found : Text) (rest : List Text)
    → is_empty (strip entry) ≡ false
    → ip_address (strip entry) ≡ some found
    → last_entry ip_address peer_ip (entry ∷ rest) ≡ found
unfolding last_entry
last_entry_is ip_address peer_ip entry found rest filled known = rw (filled, known, last_entry) refl

-- Behind a trusted proxy that appends the address that it observed, the caller is counted against
-- that address, whatever the caller itself wrote into the header before it, when the appended entry
-- holds no comma, is not blank and is parsed as that address.
pub identity_is_observed :
    (ip_address : Text → Option Text) (caller observed address peer_ip : Text)
    → every (λ c. not (c == b',')) observed ≡ true
    → is_empty (strip observed) ≡ false
    → ip_address (strip observed) ≡ some address
    → rate_limit_identity ip_address (some (caller ++ b',' ∷ observed)) peer_ip true ≡ address
unfolding rate_limit_identity
identity_is_observed ip_address caller observed address peer_ip no_comma some_text parsed =
    let (first, others, e) = split_last caller observed no_comma in
    ap (λ l. last_entry ip_address peer_ip (reverse l)) e
    ∙ ap (last_entry ip_address peer_ip) (reverse-append (first ∷ others) (observed ∷ []))
    ∙ last_entry_is ip_address peer_ip observed address (reverse (first ∷ others)) some_text parsed
