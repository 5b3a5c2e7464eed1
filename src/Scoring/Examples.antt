-- ===== src/Scoring/Examples.antt =====
-- scoring.py: tests, and the theorems at concrete inputs.
use us_stock_helper.Prelude.{
  ℕ, ◌+◌, ◌*◌, codes, ◌≡◌, refl, true, none, some, List, [], ◌∷◌, text_eq,
}
use us_stock_helper.Prelude.Doubles.Hundredths.{toy_doubles, toy-IsOrdered}
use us_stock_helper.Scoring.Types.{
  Horizon, Factor, short, swing, long, minute, FeatureSet, weights_of, stale_data,
  insufficient_evidence, low_liquidity, is_stale, unique_after, unique_gates, data_freshness_budget,
  bar_duration,
}
use us_stock_helper.Scoring.{
  score_horizon, accepts_features, own_gates, available_weight, sum_of_weights,
}
use us_stock_helper.Scoring.Scored.{IsScored, score_horizon-IsScored}
use us_stock_helper.Scoring.Accounts.{IsAccountOf, score_horizon-IsAccountOf}

abbrev sum_of : List (Factor × ℕ) → ℕ
sum_of [] = 0
sum_of ((name, n) ∷ rest) = n + sum_of rest

weights_make_one : (h : Horizon) → sum_of (weights_of h) ≡ 100
weights_make_one short = refl
weights_make_one swing = refl
weights_make_one long = refl

-- Only a trend of 0.5 is measured, on bars of five minutes.
abbrev fresh : FeatureSet ℕ
fresh = record {
  as_of = 110 * minute;
  horizon = short;
  technical_trend = some 10050;
  momentum = none;
  pattern = none;
  market_sentiment = none;
  macro = none;
  geopolitics = none;
  institutional_flow = none;
  fundamentals = none;
  adviser_factor = 10000;
  evidence_confidence = 10035;
  latest_market_data_at = some (95 * minute);
  data_interval = some (codes "5m");
}

abbrev old : FeatureSet ℕ
old = record fresh { evidence_confidence = 10034; as_of = 110 * minute + 1 }

fresh_accepted : accepts_features toy_doubles fresh ≡ true
unfolding accepts_features
fresh_accepted = refl

may_act : (score_horizon toy_doubles fresh []).actionable ≡ true
unfolding score_horizon own_gates is_stale data_freshness_budget bar_duration text_eq unique_gates
    unique_after available_weight sum_of_weights
may_act = refl

told_once :
    (score_horizon toy_doubles old (stale_data ∷ low_liquidity ∷ [])).blocked_by
    ≡ stale_data ∷ low_liquidity ∷ insufficient_evidence ∷ []
unfolding score_horizon own_gates is_stale data_freshness_budget bar_duration text_eq unique_gates
    unique_after
told_once = refl

score_horizon-IsScored_example :
    IsScored toy_doubles old
      (stale_data ∷ low_liquidity ∷ [])
      (score_horizon toy_doubles old (stale_data ∷ low_liquidity ∷ []))
score_horizon-IsScored_example =
    score_horizon-IsScored toy_doubles old (stale_data ∷ low_liquidity ∷ []) toy-IsOrdered

score_horizon-IsAccountOf_example :
    IsAccountOf toy_doubles fresh (score_horizon toy_doubles fresh [])
score_horizon-IsAccountOf_example = score_horizon-IsAccountOf toy_doubles fresh []
