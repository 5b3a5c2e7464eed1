-- ===== src/Scoring/Types.antt =====
-- scoring.py: the features, the result, the hard gates, and how old market data may be.
use us_stock_helper.Prelude.{
  ℕ, ◌-◌, ◌*◌, Text, text_eq, codes, Bool, true, false, ◌||◌, Option, none, some, List, [], ◌∷◌,
  exists, ltb, if◌then◌else◌,
}

abbrev pub Instant : Type 0
Instant = ℕ

abbrev pub Duration : Type 0
Duration = ℕ

pub data Horizon : Type 0 where
  short swing long : Horizon

pub data Direction : Type 0 where
  bullish neutral bearish : Direction

pub data HardGate : Type 0 where
  stale_data insufficient_evidence low_liquidity borrow_unavailable borrow_data_stale : HardGate

pub data Factor : Type 0 where
  technical_trend momentum pattern_factor market_sentiment : Factor
  macro geopolitics institutional_flow fundamentals : Factor

abbrev pub minute : Duration
minute = 60000000

abbrev pub day : Duration
day = 24 * 60 * minute

-- `_INTRADAY_BAR_DURATIONS`
unfoldable pub bar_duration : Text → Option Duration
bar_duration interval =
    if text_eq interval (codes "1m")
    then some minute
    else if text_eq interval (codes "5m")
    then some (5 * minute)
    else if text_eq interval (codes "15m")
    then some (15 * minute)
    else if text_eq interval (codes "30m")
    then some (30 * minute)
    else if text_eq interval (codes "60m")
    then some (60 * minute)
    else none

abbrev budget_of_bar : Text → Option Duration → Duration
budget_of_bar interval (some duration) = duration * 3
budget_of_bar interval none =
    if text_eq interval (codes "week")
    then 9 * day
    else if text_eq interval (codes "day")
    then 5 * day
    else 20 * minute

unfoldable pub data_freshness_budget : Option Text → Duration
data_freshness_budget none = 20 * minute
data_freshness_budget (some interval) = budget_of_bar interval (bar_duration interval)

pub record FeatureSet (F : Type 0) : Type 0 where
  pub as_of : Instant
  pub horizon : Horizon
  pub technical_trend : Option F
  pub momentum : Option F
  pub pattern : Option F
  pub market_sentiment : Option F
  pub macro : Option F
  pub geopolitics : Option F
  pub institutional_flow : Option F
  pub fundamentals : Option F
  pub adviser_factor : F
  pub evidence_confidence : F
  pub latest_market_data_at : Option Instant
  pub data_interval : Option Text

-- A contribution by its factor, or of the advisers.
pub data Contributor : Type 0 where
  of_factor : Factor → Contributor
  adviser : Contributor

pub record FactorContribution (F : Type 0) : Type 0 where
  pub name : Contributor
  pub raw_value : Option F
  pub weight : F
  pub points : F

pub record ScoreResult (F : Type 0) : Type 0 where
  pub as_of : Instant
  pub horizon : Horizon
  pub objective_score : F
  pub direction : Direction
  pub actionable : Bool
  pub contributions : List (FactorContribution F)
  pub blocked_by : List HardGate
  pub unavailable_factors : List Factor
  pub factor_coverage : F

-- `_WEIGHTS`, in hundredths
abbrev pub weights_of : Horizon → List (Factor × ℕ)
weights_of short =
    (technical_trend, 25)
    ∷ (momentum, 15)
    ∷ (pattern_factor, 10)
    ∷ (market_sentiment, 20)
    ∷ (macro, 5)
    ∷ (geopolitics, 5)
    ∷ (institutional_flow, 15)
    ∷ (fundamentals, 5)
    ∷ []
weights_of swing =
    (technical_trend, 20)
    ∷ (momentum, 12)
    ∷ (pattern_factor, 12)
    ∷ (market_sentiment, 14)
    ∷ (macro, 10)
    ∷ (geopolitics, 8)
    ∷ (institutional_flow, 12)
    ∷ (fundamentals, 12)
    ∷ []
weights_of long =
    (technical_trend, 12)
    ∷ (momentum, 8)
    ∷ (pattern_factor, 8)
    ∷ (market_sentiment, 10)
    ∷ (macro, 18)
    ∷ (geopolitics, 10)
    ∷ (institutional_flow, 8)
    ∷ (fundamentals, 26)
    ∷ []

-- The factors in the order of their names.
abbrev pub factors_by_name : List Factor
factors_by_name =
    fundamentals ∷ geopolitics ∷ institutional_flow ∷ macro ∷ market_sentiment ∷ momentum
    ∷ pattern_factor ∷ technical_trend ∷ []

abbrev pub gate_eq : HardGate → HardGate → Bool
gate_eq stale_data stale_data = true
gate_eq insufficient_evidence insufficient_evidence = true
gate_eq low_liquidity low_liquidity = true
gate_eq borrow_unavailable borrow_unavailable = true
gate_eq borrow_data_stale borrow_data_stale = true
gate_eq _ _ = false

abbrev pub has_gate : List HardGate → HardGate → Bool
has_gate gates g = exists (λ h. gate_eq h g) gates

unfoldable pub unique_after : List HardGate → List HardGate → List HardGate
unique_after seen [] = []
unique_after seen (g ∷ gates) =
    let skipped = unique_after seen gates in
    let kept = unique_after (g ∷ seen) gates in if has_gate seen g then skipped else g ∷ kept

-- `tuple(dict.fromkeys(gates))`
unfoldable pub unique_gates : List HardGate → List HardGate
unique_gates gates = unique_after [] gates

abbrev pub is_empty_list : {A : Type 0} → List A → Bool
is_empty_list [] = true
is_empty_list (x ∷ xs) = false

abbrev pub is_absent : {A : Type 0} → Option A → Bool
is_absent none = true
is_absent (some a) = false

-- Whether the freshest bar is missing, of the future, or older than its budget.
unfoldable pub is_stale : Option Instant → Instant → Duration → Bool
is_stale none as_of budget = true
is_stale (some latest) as_of budget = ltb as_of latest || ltb budget (as_of - latest)
