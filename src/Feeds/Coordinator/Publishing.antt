-- ===== src/Feeds/Coordinator/Publishing.antt =====
-- coordinator.py: what a feed publishes of what it reports, and how its revisions are linked.
use us_stock_helper.Prelude.{
  Text, text_eq, eq-text_eq, ◌≡◌, refl, ap, sym, ◌∙◌, subst, Bool, true, false, Bool-cases, inl,
  inr, Option, none, some, List, [], ◌∷◌, ◌++◌, if◌then◌else◌, Dict, get_key, set_key,
  get_key-set_key, get_key-set_other,
}
use us_stock_helper.Feeds.Events.{EvidenceEvent}
use us_stock_helper.Feeds.Coordinator.{PublishedRecord, revise, to_published, is_same, publish}

abbrev pub is_about : Text → EvidenceEvent → Bool
is_about claim e = text_eq e.claim_key claim

-- The contents that the events give a claim, in order.
unfoldable pub hashes : Text → List EvidenceEvent → List Text
hashes claim [] = []
hashes claim (e ∷ es) =
    let rest = hashes claim es in if is_about claim e then e.content_hash ∷ rest else rest

abbrev pub is_repeat : Option Text → Text → Bool
is_repeat none h = false
is_repeat (some last) h = text_eq last h

-- A sequence of contents without the repeats of the one before.
unfoldable pub changes : Option Text → List Text → List Text
changes last [] = []
changes last (h ∷ hs) =
    let same = changes last hs in
    let next = changes (some h) hs in if is_repeat last h then same else h ∷ next

-- The last content.
unfoldable pub final : Option Text → List Text → Option Text
final last [] = last
final last (h ∷ hs) = final (some h) hs

abbrev pub hash_of : Option PublishedRecord → Option Text
hash_of none = none
hash_of (some r) = some r.content_hash

pub changes-append :
    (last : Option Text) (xs ys : List Text)
    → changes last (xs ++ ys) ≡ changes last xs ++ changes (final last xs) ys
unfolding changes final
changes-append last [] ys = refl
changes-append none (x ∷ xs) ys = ap (λ r. x ∷ r) (changes-append (some x) xs ys)
changes-append (some last) (x ∷ xs) ys = elim (Bool-cases (text_eq last x)) [
  | inl e ↦ rw e (
      subst
        (λ y.
          changes (some last) (xs ++ ys) ≡ changes (some last) xs ++ changes (final (some y) xs) ys)
        (eq-text_eq last x e) (changes-append (some last) xs ys))
  | inr e ↦ rw e (ap (λ r. x ∷ r) (changes-append (some x) xs ys))
]

is_same-hash :
    (previous : Option PublishedRecord) (h : Text)
    → is_same previous h ≡ is_repeat (hash_of previous) h
is_same-hash none h = refl
is_same-hash (some r) h = refl

revise-hash :
    (previous : Option PublishedRecord) (e : EvidenceEvent)
    → (revise previous e).content_hash ≡ e.content_hash
unfolding revise
revise-hash none e = refl
revise-hash (some r) e = refl

revise-claim :
    (previous : Option PublishedRecord) (e : EvidenceEvent)
    → (revise previous e).claim_key ≡ e.claim_key
unfolding revise
revise-claim none e = refl
revise-claim (some r) e = refl

-- The record of the claim that an item is about, before it is published and after.
recorded :
    (claim : Text) (e : EvidenceEvent) (d : Dict PublishedRecord)
    → is_about claim e ≡ true
    → is_repeat (hash_of (get_key claim d)) e.content_hash
      ≡ is_same (get_key e.claim_key d) e.content_hash
recorded claim e d h =
    subst
      (λ k.
        is_repeat (hash_of (get_key k d)) e.content_hash
        ≡ is_same (get_key e.claim_key d) e.content_hash)
      (eq-text_eq e.claim_key claim h) (sym (is_same-hash (get_key e.claim_key d) e.content_hash))

-- The record once the item is published.
abbrev pub after : EvidenceEvent → Dict PublishedRecord → Dict PublishedRecord
after e d = set_key e.claim_key (to_published (revise (get_key e.claim_key d) e)) d

pub after_same :
    (claim : Text) (e : EvidenceEvent) (d : Dict PublishedRecord)
    → is_about claim e ≡ true
    → get_key claim (after e d) ≡ some (to_published (revise (get_key claim d) e))
after_same claim e d h =
    subst (λ k. get_key k (after e d) ≡ some (to_published (revise (get_key k d) e)))
      (eq-text_eq e.claim_key claim h) (get_key-set_key e.claim_key _ d)

after_hash :
    (claim : Text) (e : EvidenceEvent) (d : Dict PublishedRecord)
    → is_about claim e ≡ true
    → hash_of (get_key claim (after e d)) ≡ some e.content_hash
after_hash claim e d h =
    ap hash_of (after_same claim e d h) ∙ ap some (revise-hash (get_key claim d) e)

pub revise-about :
    (claim : Text) (p : Option PublishedRecord) (e : EvidenceEvent)
    → is_about claim (revise p e) ≡ is_about claim e
revise-about claim p e = ap (λ k. text_eq k claim) (revise-claim p e)

repeat_eq : (last : Option Text) (h : Text) → is_repeat last h ≡ true → last ≡ some h
repeat_eq none h e = cc
repeat_eq (some l) h e = ap some (eq-text_eq l h e)

-- What is published for a claim, as the contents that it is given: those that differ from the one
-- before, the recorded one at first.
pub publish-changes :
    (claim : Text) (items : List EvidenceEvent) (d : Dict PublishedRecord)
    → hashes claim (publish items d).0 ≡ changes (hash_of (get_key claim d)) (hashes claim items)
unfolding publish hashes changes
publish-changes claim [] d = refl
publish-changes claim (e ∷ es) d =
    elim (Bool-cases (is_same (get_key e.claim_key d) e.content_hash)) [
      | inl same ↦ elim (Bool-cases (is_about claim e)) [
        | inl it ↦ rw (same, it, recorded claim e d it ∙ same) (publish-changes claim es d)
        | inr other ↦ rw (same, other) (publish-changes claim es d)
      ]
      | inr new ↦ elim (Bool-cases (is_about claim e)) [
        | inl it ↦
            rw (new, revise-about claim (get_key e.claim_key d) e, it, recorded claim e d it ∙ new)
              (ap (λ h. h ∷ hashes claim (publish es (after e d)).0)
                  (revise-hash (get_key e.claim_key d) e)
                ∙ ap (λ hs. e.content_hash ∷ hs)
                    (publish-changes claim es (after e d)
                      ∙ ap (λ l. changes l (hashes claim es)) (after_hash claim e d it)))
        | inr other ↦
            rw (new, revise-about claim (get_key e.claim_key d) e, other)
              (publish-changes claim es (after e d)
                ∙ ap (λ o. changes (hash_of o) (hashes claim es))
                    (get_key-set_other claim e.claim_key _ d other))
      ]
    ]

-- The record that is left for a claim has the content that was reported last.
pub publish-final :
    (claim : Text) (items : List EvidenceEvent) (d : Dict PublishedRecord)
    → hash_of (get_key claim (publish items d).1)
      ≡ final (hash_of (get_key claim d)) (hashes claim items)
unfolding publish hashes final
publish-final claim [] d = refl
publish-final claim (e ∷ es) d =
    elim (Bool-cases (is_same (get_key e.claim_key d) e.content_hash)) [
      | inl same ↦ elim (Bool-cases (is_about claim e)) [
        | inl it ↦
            rw (same, it)
              (publish-final claim es d
                ∙ ap (λ l. final l (hashes claim es))
                    (repeat_eq (hash_of (get_key claim d)) e.content_hash
                      (recorded claim e d it ∙ same)))
        | inr other ↦ rw (same, other) (publish-final claim es d)
      ]
      | inr new ↦ elim (Bool-cases (is_about claim e)) [
        | inl it ↦
            rw (new, it)
              (publish-final claim es (after e d)
                ∙ ap (λ l. final l (hashes claim es)) (after_hash claim e d it))
        | inr other ↦
            rw (new, other)
              (publish-final claim es (after e d)
                ∙ ap (λ o. final (hash_of o) (hashes claim es))
                    (get_key-set_other claim e.claim_key _ d other))
      ]
    ]
