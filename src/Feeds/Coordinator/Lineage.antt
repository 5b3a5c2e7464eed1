-- ===== src/Feeds/Coordinator/Lineage.antt =====
-- coordinator.py: the published revisions of a claim.
use us_stock_helper.Prelude.{
  ◌+◌, Text, eq-text_eq, ◌≡◌, refl, ap, sym, ◌∙◌, subst, true, Bool-cases, inl, inr, Option, none,
  some, List, [], ◌∷◌, arith, select, every, Dict, get_key, get_key-set_other,
}
use us_stock_helper.Feeds.Events.{EvidenceEvent, is_accepted}
use us_stock_helper.Feeds.Coordinator.{PublishedRecord, revise, to_published, is_same, publish}
use us_stock_helper.Feeds.Coordinator.Publishing.{is_about, revise-about, after, after_same}

-- The event names the record as the one that it revises, and counts on from it.
abbrev pub IsNext : Option PublishedRecord → EvidenceEvent → Type 0
IsNext none e = Unit
IsNext (some r) e =
    (e.revision_of ≡ some r.event_id)
    × (e.revision_number ≡ r.revision_number + 1)
    × (e.revised_at ≡ some e.available_at)

-- Each event revises the one before it, the first one the record.
abbrev pub Chain : Option PublishedRecord → List EvidenceEvent → Type 0
Chain previous [] = Unit
Chain previous (e ∷ es) = IsNext previous e × Chain (some (to_published e)) es

revise-IsNext : (p : Option PublishedRecord) (e : EvidenceEvent) → IsNext p (revise p e)
unfolding revise
revise-IsNext none e = tt
revise-IsNext (some r) e = (refl, refl, refl)

about_same :
    (claim : Text) (e : EvidenceEvent) (d : Dict PublishedRecord)
    → is_about claim e ≡ true
    → get_key e.claim_key d ≡ get_key claim d
about_same claim e d it = ap (λ k. get_key k d) (eq-text_eq e.claim_key claim it)

-- What is published of a claim is a chain of revisions that goes on from its record.
pub publish-Chain :
    (claim : Text) (items : List EvidenceEvent) (d : Dict PublishedRecord)
    → Chain (get_key claim d) (select (is_about claim) (publish items d).0)
unfolding publish
publish-Chain claim [] d = tt
publish-Chain claim (e ∷ es) d =
    elim (Bool-cases (is_same (get_key e.claim_key d) e.content_hash)) [
      | inl same ↦ rw same (publish-Chain claim es d)
      | inr new ↦ elim (Bool-cases (is_about claim e)) [
        | inl it ↦
            rw (new, revise-about claim (get_key e.claim_key d) e, it)
              (
                subst (λ p. IsNext p (revise (get_key e.claim_key d) e)) (about_same claim e d it)
                    (revise-IsNext (get_key e.claim_key d) e),
                subst (λ p. Chain p (select (is_about claim) (publish es (after e d)).0))
                    (after_same claim e d it
                      ∙ ap (λ p. some (to_published (revise p e))) (sym (about_same claim e d it)))
                    (publish-Chain claim es (after e d)),
              )
        | inr other ↦
            rw (new, revise-about claim (get_key e.claim_key d) e, other)
              (subst (λ p. Chain p (select (is_about claim) (publish es (after e d)).0))
                (get_key-set_other claim e.claim_key _ d other)
                (publish-Chain claim es (after e d)))
      ]
    ]

revise-is_accepted :
    (p : Option PublishedRecord) (e : EvidenceEvent)
    → is_accepted e ≡ true
    → is_accepted (revise p e) ≡ true
unfolding is_accepted revise
revise-is_accepted none e h = h
revise-is_accepted (some r) e h = ground arith

-- The `replace` of a revision cannot raise: what `__post_init__` accepts, it accepts as a revision.
pub publish-is_accepted :
    (items : List EvidenceEvent) (d : Dict PublishedRecord)
    → every is_accepted items ≡ true
    → every is_accepted (publish items d).0 ≡ true
unfolding publish
publish-is_accepted [] d h = refl
publish-is_accepted (e ∷ es) d h = ground (
  arith,
  revise-is_accepted (get_key e.claim_key d) e,
  publish-is_accepted es d,
  publish-is_accepted es (after e d),
)
