-- ===== src/Scoring.antt =====
-- services/analysis_core/us_stock_helper_core/scoring.py: the bounded score of a horizon and its hard
-- gates. The features are given; the texts that explain a contribution are left out.
pub mod Types
mod Gates
mod Scored
mod Accounts
mod Examples
use us_stock_helper.Prelude.{
  ℕ, ◌+◌, ◌-◌, ◌*◌, Text, text_eq, codes, Bool, true, false, not, ◌&&◌, ◌||◌, Option, none, some,
  List, [], ◌∷◌, ◌++◌, map, select, every, exists, ltb, if◌then◌else◌, ℤ, pos, negsuc,
}
use us_stock_helper.Prelude.Doubles.{Doubles, clamp}
use us_stock_helper.Scoring.Types.{
  Instant, Duration, Horizon, Direction, HardGate, Factor, minute, day, bar_duration,
  data_freshness_budget, FeatureSet, Contributor, FactorContribution, ScoreResult, weights_of,
  factors_by_name, gate_eq, has_gate, unique_after, unique_gates, is_empty_list, is_absent,
  is_stale, short, swing, long, bullish, neutral, bearish, stale_data, insufficient_evidence,
  technical_trend, momentum, pattern_factor, market_sentiment, macro, geopolitics,
  institutional_flow, fundamentals, of_factor, adviser,
}

module _ {F : Type 0} where
  abbrev pub value_of : FeatureSet F → Factor → Option F
  value_of f technical_trend = f.technical_trend
  value_of f momentum = f.momentum
  value_of f pattern_factor = f.pattern
  value_of f market_sentiment = f.market_sentiment
  value_of f macro = f.macro
  value_of f geopolitics = f.geopolitics
  value_of f institutional_flow = f.institutional_flow
  value_of f fundamentals = f.fundamentals

  -- `require_unit_range`, of a factor that was measured
  abbrev pub is_unit : Doubles F → Option F → Bool
  is_unit d none = true
  is_unit d (some x) =
      d.is_finite x && (d.le (d.hundredths (negsuc 99)) x && d.le x (d.hundredths (pos 100)))

  -- The ranges that `FeatureSet.__post_init__` asks for.
  unfoldable pub accepts_features : Doubles F → FeatureSet F → Bool
  accepts_features d f =
      every (λ n. is_unit d (value_of f n)) factors_by_name
      && (is_unit d (some f.adviser_factor)
          && (d.le (d.hundredths (pos 0)) f.evidence_confidence
              && d.le f.evidence_confidence (d.hundredths (pos 100))))

  abbrev pub weight_value : Doubles F → ℕ → F
  weight_value d n = d.hundredths (pos n)

  -- `sum(…)` of the weights
  unfoldable pub sum_of_weights : Doubles F → F → List (Factor × ℕ) → F
  sum_of_weights d total [] = total
  sum_of_weights d total ((name, n) ∷ rest) = sum_of_weights d (d.add total (weight_value d n)) rest

  abbrev pub available_weights : FeatureSet F → List (Factor × ℕ)
  available_weights f = select (λ w. not (is_absent (value_of f w.0))) (weights_of f.horizon)

  unfoldable pub available_weight : Doubles F → FeatureSet F → F
  available_weight d f = sum_of_weights d (d.hundredths (pos 0)) (available_weights f)

  unfoldable pub total_weight : Doubles F → FeatureSet F → F
  total_weight d f = sum_of_weights d (d.hundredths (pos 0)) (weights_of f.horizon)

  -- `a / b if b else 0.0`
  abbrev pub ratio : Doubles F → F → F → F
  ratio d a b = if d.equal b (d.hundredths (pos 0)) then d.hundredths (pos 0) else d.divide a b

  abbrev pub contribution_of : Doubles F → F → Factor → ℕ → Option F → FactorContribution F
  contribution_of d scale name n none = record {
    name = of_factor name;
    raw_value = none;
    weight = d.hundredths (pos 0);
    points = d.hundredths (pos 0);
  }
  contribution_of d scale name n (some raw) = record {
    name = of_factor name;
    raw_value = some raw;
    weight = d.multiply (weight_value d n) scale;
    points =
        d.multiply (d.multiply (d.multiply raw (weight_value d n)) scale) (d.hundredths (pos 5000));
  }

  -- `_clamp(features.adviser_factor) * ADVISER_SCORE_CAP`
  abbrev pub adviser_contribution : Doubles F → F → FactorContribution F
  adviser_contribution d x = record {
    name = adviser;
    raw_value = some x;
    weight = d.hundredths (pos 0);
    points =
        d.multiply (clamp d (d.hundredths (negsuc 99)) (d.hundredths (pos 100)) x)
          (d.hundredths (pos 300));
  }

  unfoldable pub contributions_of : Doubles F → FeatureSet F → List (FactorContribution F)
  contributions_of d f =
      let scale = ratio d (total_weight d f) (available_weight d f) in
      map (λ w. contribution_of d scale w.0 w.1 (value_of f w.0)) (weights_of f.horizon)
      ++ adviser_contribution d f.adviser_factor ∷ []

  unfoldable pub sum_points : Doubles F → F → List (FactorContribution F) → F
  sum_points d total [] = total
  sum_points d total (c ∷ cs) = sum_points d (d.add total c.points) cs

  -- `_clamp_score(50.0 + sum(…))`
  unfoldable pub objective_score_of : Doubles F → List (FactorContribution F) → F
  objective_score_of d cs =
      clamp d (d.hundredths (pos 0)) (d.hundredths (pos 10000))
        (d.add (d.hundredths (pos 5000)) (sum_points d (d.hundredths (pos 0)) cs))

  unfoldable pub direction_of : Doubles F → F → Direction
  direction_of d score =
      if d.le (d.hundredths (pos 5800)) score
      then bullish
      else if d.le score (d.hundredths (pos 4200))
      then bearish
      else neutral

  -- The gates that the features close.
  unfoldable pub own_gates : Doubles F → FeatureSet F → List HardGate
  own_gates d f =
      (if d.lt f.evidence_confidence (d.hundredths (pos 35))
        then insufficient_evidence ∷ []
        else [])
      ++ (if is_stale f.latest_market_data_at f.as_of (data_freshness_budget f.data_interval)
          then stale_data ∷ []
          else [])

  unfoldable pub score_horizon : Doubles F → FeatureSet F → List HardGate → ScoreResult F
  score_horizon d f hard_gates =
      let contributions = contributions_of d f in
      let score = objective_score_of d contributions in
      let gates = unique_gates (hard_gates ++ own_gates d f) in
      record {
        as_of = f.as_of;
        horizon = f.horizon;
        objective_score = score;
        direction = direction_of d score;
        actionable = is_empty_list gates && d.lt (d.hundredths (pos 0)) (available_weight d f);
        contributions = contributions;
        blocked_by = gates;
        unavailable_factors = select (λ n. is_absent (value_of f n)) factors_by_name;
        factor_coverage = ratio d (available_weight d f) (total_weight d f);
      }
