-- ===== src/Adviser/Gating.antt =====
-- services/adviser_llm/src/adviser_llm/gating.py: from a traced brief to a bounded adjustment. The
-- numbers are Python's, on a type `F` with its operations.
pub mod Bounds
use us_stock_helper.Prelude.{
  ℕ, Text, codes, Bool, true, false, not, ◌&&◌, Option, none, some, List, [], ◌∷◌, map, length,
  if◌then◌else◌, ℤ, pos, negsuc, ◌≡◌,
}
use us_stock_helper.Prelude.Doubles.{Doubles, IsOrdered, max_of, clamp}
use us_stock_helper.Prelude.Checked.{Checked, accepted, rejected, require, present, ◌>>=◌, ◌>>◌}
use us_stock_helper.Scoring.Types.{HardGate}
use us_stock_helper.Adviser.Evidence.{is_in}
use us_stock_helper.Adviser.Trace.{
  Confidence, low, medium, high, Stance, bullish, neutral, bearish, TracedConclusion, TracedOpinion,
  TracedBrief, has_any,
}

-- The `ValueError`s.
pub data GatingError : Type 0 where
  score_out_of_range unknown_direction empty_brief empty_opinion : GatingError

pub record CouncilVerdict (F : Type 0) : Type 0 where
  pub baseline_score : F
  pub adjusted_score : F
  pub score_adjustment : F
  pub objective_direction : Text
  pub actionable : Bool
  pub blocked_by : List HardGate
  pub brief : TracedBrief

abbrev pub directions : List Text
directions = codes "bullish" ∷ codes "neutral" ∷ codes "bearish" ∷ []

module _ {F : Type 0} where
  abbrev pub no_score : Doubles F → F
  no_score d = d.hundredths (pos 0)

  abbrev pub full_score : Doubles F → F
  full_score d = d.hundredths (pos 10000)

  -- `ADVISER_SCORE_CAP`, 3.0, and its negative
  abbrev pub score_cap : Doubles F → F
  score_cap d = d.hundredths (pos 300)

  abbrev pub negative_cap : Doubles F → F
  negative_cap d = d.hundredths (negsuc 299)

  abbrev pub stance_sign : Doubles F → Stance → F
  stance_sign d bullish = d.hundredths (pos 100)
  stance_sign d neutral = d.hundredths (pos 0)
  stance_sign d bearish = d.hundredths (negsuc 99)

  abbrev pub confidence_weight : Doubles F → Confidence → F
  confidence_weight d low = d.hundredths (pos 25)
  confidence_weight d medium = d.hundredths (pos 50)
  confidence_weight d high = d.hundredths (pos 100)

  unfoldable pub max_from : Doubles F → F → List F → F
  max_from d m [] = m
  max_from d m (x ∷ xs) = max_from d (max_of d m x) xs

  -- `max(…)` of a generator
  unfoldable pub max_all : Doubles F → List F → Option F
  max_all d [] = none
  max_all d (x ∷ xs) = some (max_from d x xs)

  weight_of : Doubles F → TracedConclusion → F
  weight_of d c = confidence_weight d c.confidence

  abbrev signed_weight : Doubles F → Stance → Option F → Checked GatingError F
  signed_weight d stance none = rejected empty_opinion
  signed_weight d stance (some w) = accepted (d.multiply (stance_sign d stance) w)

  -- `_opinion_weight`
  unfoldable pub opinion_weight : Doubles F → TracedOpinion → Checked GatingError F
  unfolding weight_of
  opinion_weight d o = signed_weight d o.stance (max_all d (map (weight_of d) o.conclusions))

  -- `sum(…)`
  unfoldable pub sum_weights : Doubles F → F → List TracedOpinion → Checked GatingError F
  sum_weights d total [] = accepted total
  sum_weights d total (o ∷ os) = do w ← opinion_weight d o; sum_weights d (d.add total w) os

  -- 0.0 when a gate is blocked, otherwise what the council proposes
  abbrev pub adjustment_of : Doubles F → List HardGate → F → F
  adjustment_of d [] net = clamp d (negative_cap d) (score_cap d) (d.multiply net (score_cap d))
  adjustment_of d (g ∷ gs) net = no_score d

  unfoldable pub verdict_of :
      Doubles F → TracedBrief → F → Text → List HardGate → F → CouncilVerdict F
  verdict_of d brief baseline_score baseline_direction hard_gates net =
      let adjustment = adjustment_of d hard_gates net in
      record {
        baseline_score = baseline_score;
        adjusted_score = clamp d (no_score d) (full_score d) (d.add baseline_score adjustment);
        score_adjustment = adjustment;
        objective_direction = baseline_direction;
        actionable = not (has_any hard_gates);
        blocked_by = hard_gates;
        brief = brief;
      }

  unfoldable pub apply_hard_gate :
      Doubles F → TracedBrief → F → Text → List HardGate → Checked GatingError (CouncilVerdict F)
  apply_hard_gate d brief baseline_score baseline_direction hard_gates = do
    require (d.le (no_score d) baseline_score && d.le baseline_score (full_score d))
        score_out_of_range
    require (is_in baseline_direction directions) unknown_direction
    require (has_any brief.opinions) empty_brief
    total ← sum_weights d (no_score d) brief.opinions
    accepted (
        verdict_of d brief baseline_score baseline_direction hard_gates
          (d.divide total (d.of_count (length brief.opinions))))
