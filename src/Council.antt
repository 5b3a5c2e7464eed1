-- ===== src/Council.antt =====
-- services/adviser_layer/adviser_layer/council.py: what an adviser may cite and how far a council may move
-- a score. Numbers are of a type with the operations of floating-point numbers; `upper` is modelled on
-- ASCII letters.
pub mod Profiles
pub mod Types
mod Facts
mod Capped
mod Cited
mod Packet
mod Shrinks
mod Fuel
mod Fits
mod Examples
use us_stock_helper.Prelude.{
  ℕ, ◌+◌, ◌-◌, Text, text_eq, text_lt, codes, strip, to_upper, Bool, true, false, not, ◌&&◌, ◌||◌,
  ◌==◌, Option, none, some, List, [], ◌∷◌, map, length, take, select, every, exists, count_where,
  ltb, leb, if◌then◌else◌, ℤ, pos, negsuc, Dict, get_key, set_key,
}
use us_stock_helper.Prelude.Doubles.{Doubles, clamp, magnitude}
use us_stock_helper.Prelude.Checked.{Checked, accepted, rejected, require, ◌>>=◌, ◌>>◌}
use us_stock_helper.Feeds.Collector.{sort_by}
use us_stock_helper.Council.Profiles.{AdviserProfile, adviser_profiles}
use us_stock_helper.Council.Types.{
  Instant, is_in, same_texts, EvidenceFact, CouncilRequest, AdviserOpinion, CouncilResult,
  CouncilError, directions, is_none_left, unknown_adviser, unknown_direction,
  confidence_out_of_range, adjustment_over_cap, texts_required, cites_outside_packet,
  abstention_required, citation_required, abstention_not_neutral, conflicting_fact,
  baseline_out_of_range, negative_cap, maximum_not_positive,
}

-- `len(requested.intersection(profile.focus))`: a profile names a focus once.
abbrev pub focus_matches : List Text → AdviserProfile → ℕ
focus_matches requested p = count_where (λ t. is_in t requested) p.focus

abbrev pub suits : Text → AdviserProfile → Bool
suits horizon p = is_in horizon p.suitable_horizons

-- The order of the tuples of `relevance`.
unfoldable pub is_more_relevant : List Text → Text → AdviserProfile → AdviserProfile → Bool
is_more_relevant requested horizon p q =
    let m = focus_matches requested p in
    let n = focus_matches requested q in
    ltb n m
    || (m == n
        && ((suits horizon p && not (suits horizon q))
            || ((not (suits horizon q) || suits horizon p)
                && ((not (suits horizon p) || suits horizon q) && text_lt p.id q.id))))

abbrev pub same_flag : Bool → Bool → Bool
same_flag true b = b
same_flag false b = not b

abbrev pub is_there : {A : Type 0} → Option A → Bool
is_there none = false
is_there (some a) = true

module _ {F : Type 0} where
  unfoldable pub select_advisers : CouncilRequest F → ℕ → Checked CouncilError (List AdviserProfile)
  select_advisers r maximum = do
    require (leb 1 maximum) maximum_not_positive
    accepted (
        take maximum (
          select (λ p. ltb 0 (focus_matches r.requested_focus p) || suits r.horizon p)
            (sort_by (is_more_relevant r.requested_focus r.horizon) adviser_profiles)))

  -- `prior == item`
  unfoldable pub same_fact : Doubles F → EvidenceFact F → EvidenceFact F → Bool
  same_fact d a b =
      text_eq a.id b.id
      && text_eq a.text b.text
      && text_eq a.citation_url b.citation_url
      && a.available_at == b.available_at
      && d.equal a.credibility b.credibility
      && same_flag a.is_counter_evidence b.is_counter_evidence
      && same_texts a.symbols b.symbols

  abbrev pub conflicts : Doubles F → Option (EvidenceFact F) → EvidenceFact F → Bool
  conflicts d none item = false
  conflicts d (some prior) item = not (same_fact d prior item)

  -- Neither of the future nor about other symbols only.
  unfoldable pub is_visible : Text → Instant → EvidenceFact F → Bool
  is_visible symbol as_of item =
      leb item.available_at as_of && (is_none_left item.symbols || is_in symbol item.symbols)

  -- One turn of the loop over the facts.
  unfoldable pub see_fact :
      Doubles F
      → Text
      → Instant
      → Dict (EvidenceFact F)
      → EvidenceFact F
      → Checked CouncilError (Dict (EvidenceFact F))
  see_fact d symbol as_of visible item =
      if not (is_visible symbol as_of item)
      then accepted visible
      else if conflicts d (get_key item.id visible) item
      then rejected conflicting_fact
      else accepted (set_key item.id item visible)

  unfoldable pub see_facts :
      Doubles F
      → Text
      → Instant
      → Dict (EvidenceFact F)
      → List (EvidenceFact F)
      → Checked CouncilError (Dict (EvidenceFact F))
  see_facts d symbol as_of visible [] = accepted visible
  see_facts d symbol as_of visible (item ∷ items) = do
    seen ← see_fact d symbol as_of visible item
    see_facts d symbol as_of seen items

  -- `_visible_facts`
  unfoldable pub visible_facts :
      Doubles F → CouncilRequest F → Checked CouncilError (Dict (EvidenceFact F))
  visible_facts d r = see_facts d (map to_upper (strip r.symbol)) r.as_of [] r.facts

  abbrev pub zero_of : Doubles F → F
  zero_of d = d.hundredths (pos 0)

  abbrev pub has_texts : AdviserOpinion F → Bool
  has_texts o = not (is_none_left (strip o.thesis)) && not (is_none_left (strip o.counterargument))

  abbrev pub is_known : AdviserOpinion F → Bool
  is_known o = exists (λ p. text_eq p.id o.adviser_id) adviser_profiles

  abbrev pub has_confidence : Doubles F → AdviserOpinion F → Bool
  has_confidence d o =
      d.is_finite o.confidence
      && d.le (zero_of d) o.confidence
      && d.le o.confidence (d.hundredths (pos 100))

  abbrev pub keeps_cap : Doubles F → F → AdviserOpinion F → Bool
  keeps_cap d per_adviser_cap o =
      d.is_finite o.score_adjustment && not (d.lt per_adviser_cap (magnitude d o.score_adjustment))

  -- `_validate_opinion_shape`
  unfoldable pub validate_opinion_shape :
      Doubles F → F → AdviserOpinion F → Checked CouncilError (Unit {0})
  validate_opinion_shape d per_adviser_cap o = do
    require (is_known o) unknown_adviser
    require (is_in o.direction directions) unknown_direction
    require (has_confidence d o) confidence_out_of_range
    require (keeps_cap d per_adviser_cap o) adjustment_over_cap
    require (has_texts o) texts_required

  abbrev pub is_cited : Dict (EvidenceFact F) → Text → Bool
  is_cited visible id = is_there (get_key id visible)

  abbrev pub reliable_count : Doubles F → F → Dict (EvidenceFact F) → ℕ
  reliable_count d minimum_credibility visible =
      count_where (λ e. d.le minimum_credibility e.1.credibility) visible

  unfoldable pub validate_opinion :
      Doubles F
      → AdviserOpinion F
      → CouncilRequest F
      → F
      → ℕ
      → F
      → Checked CouncilError (AdviserOpinion F)
  validate_opinion d o r per_adviser_cap minimum_reliable_facts minimum_credibility = do
    validate_opinion_shape d per_adviser_cap o
    visible ← visible_facts d r
    require (every (is_cited visible) o.citation_ids) cites_outside_packet
    require
        (not (ltb (reliable_count d minimum_credibility visible) minimum_reliable_facts)
          || o.abstained)
        abstention_required
    require (o.abstained || not (is_none_left o.citation_ids)) citation_required
    require
        (not o.abstained
          || (text_eq o.direction (codes "neutral") && d.equal o.score_adjustment (zero_of d)))
        abstention_not_neutral
    require (has_texts o) texts_required
    accepted o

  -- The loop that validates each opinion.
  unfoldable pub validate_shapes :
      Doubles F → F → List (AdviserOpinion F) → Checked CouncilError (Unit {0})
  validate_shapes d per_adviser_cap [] = accepted tt
  validate_shapes d per_adviser_cap (o ∷ os) = do
    validate_opinion_shape d per_adviser_cap o
    validate_shapes d per_adviser_cap os

  -- `sum(…)` over the opinions that do not abstain
  unfoldable pub sum_adjustments : Doubles F → F → List (AdviserOpinion F) → F
  sum_adjustments d total [] = total
  sum_adjustments d total (o ∷ os) =
      sum_adjustments d (d.add total (d.multiply o.score_adjustment o.confidence)) os

  abbrev pub capped_adjustment : Doubles F → F → Bool → F → F
  capped_adjustment d council_cap true raw = clamp d (d.negate council_cap) council_cap raw
  capped_adjustment d council_cap false raw = zero_of d

  unfoldable pub council_result :
      Doubles F → F → Text → List (AdviserOpinion F) → Bool → F → CouncilResult F
  council_result d score direction opinions passed adjustment = record {
    baseline_score = score;
    adjusted_score = clamp d (zero_of d) (d.hundredths (pos 10000)) (d.add score adjustment);
    adjustment = adjustment;
    objective_direction = direction;
    action_eligible = passed;
    active_opinions = length (select (λ o. not o.abstained) opinions);
    abstentions = count_where (λ o. o.abstained) opinions;
  }

  unfoldable pub aggregate_opinions :
      Doubles F
      → F
      → Text
      → List (AdviserOpinion F)
      → F
      → F
      → Bool
      → Checked CouncilError (CouncilResult F)
  aggregate_opinions d baseline_score baseline_direction opinions council_cap per_adviser_cap
        hard_gate_passed =
      do
        require (d.le (zero_of d) baseline_score && d.le baseline_score (d.hundredths (pos 10000)))
            baseline_out_of_range
        require (not (d.lt council_cap (zero_of d))) negative_cap
        require (is_in baseline_direction directions) unknown_direction
        validate_shapes d per_adviser_cap opinions
        accepted (
            council_result d baseline_score baseline_direction opinions hard_gate_passed (
              capped_adjustment d council_cap hard_gate_passed
                (sum_adjustments d (zero_of d) (select (λ o. not o.abstained) opinions))))
