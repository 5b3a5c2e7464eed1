-- ===== src/Council/Capped.antt =====
-- council.py: how far a council moves a score.
use us_stock_helper.Prelude.{◌+◌, Text, ◌≡◌, Bool, true, false, List, length, All, pos}
use us_stock_helper.Prelude.Doubles.{Doubles, IsWithin}
use us_stock_helper.Prelude.Checked.{accepted, required_by, required_last}
use us_stock_helper.Council.Types.{
  AdviserOpinion, CouncilResult, is_in, directions, unknown_direction, unknown_adviser,
  confidence_out_of_range, adjustment_over_cap, texts_required,
}
use us_stock_helper.Council.{
  zero_of, validate_opinion_shape, has_texts, is_known, has_confidence, keeps_cap,
}

module _ {F : Type 0} where
  -- An opinion of a known adviser, in a known direction, with its numbers in their bounds.
  pub record IsShaped (d : Doubles F) (per_adviser_cap : F) (o : AdviserOpinion F) : Type 0 where
    pub adviser_known : is_known o ≡ true
    pub direction_known : is_in o.direction directions ≡ true
    pub confidence_within : has_confidence d o ≡ true
    pub adjustment_within : keeps_cap d per_adviser_cap o ≡ true
    pub texts_there : has_texts o ≡ true

  pub record IsCapped (d : Doubles F) (baseline_score : F) (baseline_direction : Text)
      (opinions : List (AdviserOpinion F)) (council_cap per_adviser_cap : F) (passed : Bool)
      (r : CouncilResult F) : Type 0 where
    pub adjusted_within : IsWithin d (zero_of d) (d.hundredths (pos 10000)) r.adjusted_score
    pub adjustment_within : IsWithin d (d.negate council_cap) council_cap r.adjustment
    pub gate_vetoes : passed ≡ false → r.adjustment ≡ zero_of d
    pub eligible_when : r.action_eligible ≡ passed
    pub direction_kept : r.objective_direction ≡ baseline_direction
    pub score_kept : r.baseline_score ≡ baseline_score
    pub all_counted : r.active_opinions + r.abstentions ≡ length opinions
    pub all_shaped : All (IsShaped d per_adviser_cap) opinions

  pub validate_opinion_shape-IsShaped :
      (d : Doubles F) (limit : F) (o : AdviserOpinion F)
      → validate_opinion_shape d limit o ≡ accepted tt
      → IsShaped d limit o
  unfolding validate_opinion_shape
  validate_opinion_shape-IsShaped d limit o h =
      let (known, h1) = required_by (is_known o) unknown_adviser _ tt h in
      let (direction, h2) = required_by (is_in o.direction directions) unknown_direction _ tt h1 in
      let (confidence, h3) = required_by (has_confidence d o) confidence_out_of_range _ tt h2 in
      let (capped, h4) = required_by (keeps_cap d limit o) adjustment_over_cap _ tt h3 in
      record {
        adviser_known = known;
        direction_known = direction;
        confidence_within = confidence;
        adjustment_within = capped;
        texts_there = required_last (has_texts o) texts_required h4;
      }
