-- ===== src/Council/Cited.antt =====
-- council.py: what an adviser may cite.
use us_stock_helper.Prelude.{
  ℕ, ◌≤◌, Text, ◌≡◌, refl, sym, subst, arith, Bool, true, false, not, ◌&&◌, ◌||◌, List, [], ◌∷◌,
  map, every, leb, leb→le, ltb, and_split, Dict, get_key, set_key, Any, All, inl, inr, Option-cases,
  strip, to_upper, text_eq, codes, if◌then◌else◌, ◌⊎◌,
}
use us_stock_helper.Prelude.Doubles.{Doubles}
use us_stock_helper.Prelude.Keys.{All-set_entry, All-get_entry}
use us_stock_helper.Prelude.Checked.{
  Checked, accepted, rejected, accepted_by, required_by, accepted_inj,
}
use us_stock_helper.Council.Types.{
  Instant, EvidenceFact, CouncilRequest, AdviserOpinion, CouncilError, is_in, is_none_left,
  conflicting_fact, cites_outside_packet, abstention_required, citation_required,
  abstention_not_neutral, texts_required,
}
use us_stock_helper.Council.{
  zero_of, conflicts, is_visible, see_fact, see_facts, visible_facts, is_cited, is_there, has_texts,
  reliable_count, validate_opinion_shape, validate_opinion,
}
use us_stock_helper.Council.Capped.{IsShaped, validate_opinion_shape-IsShaped}

module _ {F : Type 0} where
  -- A fact of the request, under its id, that the time and the symbol let be seen.
  abbrev pub IsSeen : Text → Instant → List (EvidenceFact F) → Text → EvidenceFact F → Type 0
  IsSeen symbol as_of facts id fact =
      (fact.id ≡ id) × (is_visible symbol as_of fact ≡ true) × Any (λ f. f ≡ fact) facts

  -- A fact that is seen leaves the dict as it was, or is visible and set in it.
  seen_or_set :
      (shown clash : Bool) (seen new out : Dict (EvidenceFact F))
      → ◌≡◌ {A = Checked CouncilError (Dict (EvidenceFact F))}
          (if not shown
            then accepted seen
            else if clash
            then rejected conflicting_fact
            else accepted new)
          (accepted out)
      → (seen ≡ out) ⊎ ((shown ≡ true) × (new ≡ out))
  seen_or_set true true seen new out h = cc
  seen_or_set true false seen new out h = inr (refl, accepted_inj new out h)
  seen_or_set false clash seen new out h = inl (accepted_inj seen out h)

  see_fact-IsSeen :
      (d : Doubles F) (symbol : Text) (as_of : Instant) (facts : List (EvidenceFact F))
      (seen : Dict (EvidenceFact F)) (item : EvidenceFact F) (out : Dict (EvidenceFact F))
      → Any (λ f. f ≡ item) facts
      → All (λ e. IsSeen symbol as_of facts e.0 e.1) seen
      → see_fact d symbol as_of seen item ≡ accepted out
      → All (λ e. IsSeen symbol as_of facts e.0 e.1) out
  unfolding see_fact
  see_fact-IsSeen d symbol as_of facts seen item out member kept h =
      let IsAll = All (λ e. IsSeen symbol as_of facts e.0 e.1) in
      elim (seen_or_set (is_visible symbol as_of item) (conflicts d (get_key item.id seen) item)
        seen (set_key item.id item seen) out h) [
          | inl same ↦ subst IsAll same kept
          | inr (shown, set) ↦ subst IsAll set (
              All-set_entry (IsSeen symbol as_of facts) item.id item seen (refl, shown, member)
                kept)
        ]

  see_facts-IsSeen :
      (d : Doubles F) (symbol : Text) (as_of : Instant) (facts : List (EvidenceFact F))
      (seen : Dict (EvidenceFact F)) (items : List (EvidenceFact F)) (out : Dict (EvidenceFact F))
      → ((v : EvidenceFact F) → Any (λ f. f ≡ v) items → Any (λ f. f ≡ v) facts)
      → All (λ e. IsSeen symbol as_of facts e.0 e.1) seen
      → see_facts d symbol as_of seen items ≡ accepted out
      → All (λ e. IsSeen symbol as_of facts e.0 e.1) out
  unfolding see_facts
  see_facts-IsSeen d symbol as_of facts seen [] out within kept h =
      subst (All (λ e. IsSeen symbol as_of facts e.0 e.1)) (accepted_inj seen out h) kept
  see_facts-IsSeen d symbol as_of facts seen (item ∷ items) out within kept h =
      let (next, one, rest) =
        accepted_by (see_fact d symbol as_of seen item) (λ s. see_facts d symbol as_of s items) out
          h in
      see_facts-IsSeen d symbol as_of facts next items out (λ v m. within v (inr m))
        (see_fact-IsSeen d symbol as_of facts seen item next (within item (inl refl)) kept one) rest

  pub visible_facts-IsSeen :
      (d : Doubles F) (r : CouncilRequest F) (visible : Dict (EvidenceFact F))
      → visible_facts d r ≡ accepted visible
      → All (λ e. IsSeen (map to_upper (strip r.symbol)) r.as_of r.facts e.0 e.1) visible
  unfolding visible_facts
  visible_facts-IsSeen d r visible h =
      see_facts-IsSeen d (map to_upper (strip r.symbol)) r.as_of r.facts [] r.facts visible
        (λ v m. m) tt h

  -- What is cited is a fact of the request, of no later time, and about the symbol or about none.
  abbrev pub IsSource : CouncilRequest F → Text → Type 0
  IsSource r id =
      (fact : EvidenceFact F) × (fact.id ≡ id)
      × (fact.available_at ≤ r.as_of)
      × ((is_none_left fact.symbols || is_in (map to_upper (strip r.symbol)) fact.symbols) ≡ true)
      × Any (λ f. f ≡ fact) r.facts

  seen-IsSource :
      (r : CouncilRequest F) (id : Text) (fact : EvidenceFact F)
      → IsSeen (map to_upper (strip r.symbol)) r.as_of r.facts id fact
      → IsSource r id
  unfolding is_visible
  seen-IsSource r id fact (same, shown, member) =
      let (early, about) = and_split (leb fact.available_at r.as_of) _ shown in
      (fact, same, leb→le _ _ early, about, member)

  citations-IsSource :
      (r : CouncilRequest F) (visible : Dict (EvidenceFact F)) (ids : List Text)
      → All (λ e. IsSeen (map to_upper (strip r.symbol)) r.as_of r.facts e.0 e.1) visible
      → every (is_cited visible) ids ≡ true
      → All (IsSource r) ids
  citations-IsSource r visible [] seen h = tt
  citations-IsSource r visible (id ∷ ids) seen h =
      let (cited, rest) = and_split (is_cited visible id) _ h in
      elim (Option-cases (get_key id visible)) [
        | inl missing ↦ absurd (subst (λ o. is_there o ≡ true → ⊥) (sym missing) (λ e. cc) cited)
        | inr (fact, found) ↦ (
          seen-IsSource r id fact (
              All-get_entry (IsSeen (map to_upper (strip r.symbol)) r.as_of r.facts) id fact visible
                seen found),
          citations-IsSource r visible ids seen rest,
        )
      ]

  pub record IsGrounded (d : Doubles F) (o : AdviserOpinion F) (r : CouncilRequest F)
      (per_adviser_cap : F) (minimum_reliable_facts : ℕ) (minimum_credibility : F)
      (answer : AdviserOpinion F) : Type 0 where
    pub opinion_kept : answer ≡ o
    pub shaped : IsShaped d per_adviser_cap o
    pub cites_sources : All (IsSource r) o.citation_ids
    pub cites_when_active :
        o.abstained ≡ false
        → (is_none_left o.citation_ids ≡ false)
          × ((visible : Dict (EvidenceFact F)) × (visible_facts d r ≡ accepted visible)
              × (minimum_reliable_facts ≤ reliable_count d minimum_credibility visible))
    pub neutral_when_abstained :
        o.abstained ≡ true
        → (text_eq o.direction (codes "neutral") ≡ true)
          × (d.equal o.score_adjustment (zero_of d) ≡ true)

  -- An opinion that is accepted is returned as it is. All that it cites are facts of the request, of
  -- no later time than the request's, and about its symbol or about none. When it does not abstain it
  -- cites something, and at least as many visible facts as are asked for are credible; when it
  -- abstains it is neutral and moves nothing. Its adviser and direction are known, and its confidence
  -- and adjustment within their bounds.
  pub validate_opinion-IsGrounded :
      (d : Doubles F) (o : AdviserOpinion F) (r : CouncilRequest F) (limit : F) (least : ℕ)
      (credible : F) (answer : AdviserOpinion F)
      → validate_opinion d o r limit least credible ≡ accepted answer
      → IsGrounded d o r limit least credible answer
  unfolding validate_opinion
  validate_opinion-IsGrounded d o r limit least credible answer h =
      let (u, shaped, h1) = accepted_by (validate_opinion_shape d limit o) _ answer h in
      let (visible, seen, h2) = accepted_by (visible_facts d r) _ answer h1 in
      let (cited, h3) =
        required_by (every (is_cited visible) o.citation_ids) cites_outside_packet _ answer h2 in
      let (enough, h4) =
        required_by (not (ltb (reliable_count d credible visible) least) || o.abstained)
          abstention_required _ answer h3 in
      let (some_cited, h5) =
        required_by (o.abstained || not (is_none_left o.citation_ids)) citation_required _ answer
          h4 in
      let (neutral, h6) =
        required_by
          (not o.abstained
            || (text_eq o.direction (codes "neutral") && d.equal o.score_adjustment (zero_of d)))
          abstention_not_neutral _ answer h5 in
      let (texts, h7) = required_by (has_texts o) texts_required _ answer h6 in
      record {
        opinion_kept = sym (accepted_inj o answer h7);
        shaped = validate_opinion_shape-IsShaped d limit o shaped;
        cites_sources =
            citations-IsSource r visible o.citation_ids (visible_facts-IsSeen d r visible seen)
              cited;
        cites_when_active =
            λ active. (ground (arith, some_cited), (visible, seen, ground (arith, enough)));
        neutral_when_abstained = λ out. (ground (arith, neutral), ground (arith, neutral));
      }
