-- ===== src/Scoring/Scored.antt =====
-- scoring.py: when a result may be acted on, and what stands in it.
use us_stock_helper.Prelude.{
  ◌-◌, ◌≤◌, ◌≡◌, refl, sym, ap, ◌∙◌, ◌↔◌, Bool, true, false, not, ◌&&◌, Option, none, some, List,
  [], ◌∷◌, ◌++◌, if◌then◌else◌, pos, arith,
}
use us_stock_helper.Prelude.Doubles.{Doubles, IsOrdered, IsWithin, clamp-IsWithin}
use us_stock_helper.Scoring.Gates.{
  IsDistinct, unique_gates-IsDistinct, unique_gates-keeps, is_empty_list-unique_gates,
}
use us_stock_helper.Scoring.Types.{
  Instant, Duration, HardGate, FeatureSet, ScoreResult, has_gate, is_empty_list, is_stale,
  data_freshness_budget,
}
use us_stock_helper.Scoring.{own_gates, score_horizon, objective_score_of, available_weight}

-- The freshest data is there, not of the future, and not older than its budget.
abbrev pub IsFresh : Option Instant → Instant → Duration → Type 0
IsFresh none as_of budget = ⊥
IsFresh (some latest) as_of budget = (latest ≤ as_of) × (as_of - latest ≤ budget)

is_stale-IsFresh :
    (latest : Option Instant) (as_of : Instant) (budget : Duration)
    → (is_stale latest as_of budget ≡ false) ↔ IsFresh latest as_of budget
unfolding is_stale
is_stale-IsFresh none as_of budget = (λ h. cc, λ h. absurd h)
is_stale-IsFresh (some latest) as_of budget = (λ h. (ground arith, ground arith), λ h. ground arith)

is_empty_list-own :
    (low stale : Bool) (g h : HardGate)
    → is_empty_list ((if low then g ∷ [] else []) ++ (if stale then h ∷ [] else []))
      ≡ (not low && not stale)
is_empty_list-own true stale g h = refl
is_empty_list-own false true g h = refl
is_empty_list-own false false g h = refl

is_empty_list-nil : (gates : List HardGate) → is_empty_list gates ≡ true → gates ≡ []
is_empty_list-nil [] h = refl
is_empty_list-nil (g ∷ gates) h = cc

four_tests :
    (none_given low stale weighed : Bool)
    → (((none_given && (not low && not stale)) && weighed) ≡ true)
      ↔ ((none_given ≡ true) × (low ≡ false) × (stale ≡ false) × (weighed ≡ true))
four_tests none_given low stale weighed =
    (λ h. (ground arith, ground arith, ground arith, ground arith), λ h. ground arith)

module _ {F : Type 0} where
  -- No gate was given, the evidence is trusted enough, its data is fresh, and something was measured.
  abbrev pub MayAct : Doubles F → FeatureSet F → List HardGate → Type 0
  MayAct d f hard_gates =
      (hard_gates ≡ [])
      × (d.lt f.evidence_confidence (d.hundredths (pos 35)) ≡ false)
      × IsFresh f.latest_market_data_at f.as_of (data_freshness_budget f.data_interval)
      × (d.lt (d.hundredths (pos 0)) (available_weight d f) ≡ true)

  pub record IsScored (d : Doubles F) (f : FeatureSet F) (hard_gates : List HardGate)
      (r : ScoreResult F) : Type 0 where
    pub score_within :
        IsWithin d (d.hundredths (pos 0)) (d.hundredths (pos 10000)) r.objective_score
    pub acts_when : (r.actionable ≡ true) ↔ MayAct d f hard_gates
    pub gates_told :
        (g : HardGate) → has_gate r.blocked_by g ≡ has_gate (hard_gates ++ own_gates d f) g
    pub gates_distinct : IsDistinct r.blocked_by

  actionable_tests :
      (d : Doubles F) (f : FeatureSet F) (hard_gates : List HardGate)
      → (score_horizon d f hard_gates).actionable ≡ (
          (is_empty_list hard_gates
            && (not (d.lt f.evidence_confidence (d.hundredths (pos 35)))
                && not (
                    is_stale f.latest_market_data_at f.as_of
                      (data_freshness_budget f.data_interval))))
          && d.lt (d.hundredths (pos 0)) (available_weight d f))
  unfolding score_horizon own_gates
  actionable_tests d f hard_gates =
      ap (λ b. b && d.lt (d.hundredths (pos 0)) (available_weight d f))
        (is_empty_list-unique_gates hard_gates (own_gates d f)
          ∙ ap (λ b. is_empty_list hard_gates && b) (is_empty_list-own _ _ _ _))

  acts :
      (d : Doubles F) (f : FeatureSet F) (hard_gates : List HardGate)
      → ((score_horizon d f hard_gates).actionable ≡ true) ↔ MayAct d f hard_gates
  acts d f hard_gates =
      let low = d.lt f.evidence_confidence (d.hundredths (pos 35)) in
      let stale =
        is_stale f.latest_market_data_at f.as_of (data_freshness_budget f.data_interval) in
      let weighed = d.lt (d.hundredths (pos 0)) (available_weight d f) in
      let fresh =
        is_stale-IsFresh f.latest_market_data_at f.as_of (data_freshness_budget f.data_interval) in
      let tests = four_tests (is_empty_list hard_gates) low stale weighed in
      (
        λ h.
            let (e, l, s, w) = tests.0 (sym (actionable_tests d f hard_gates) ∙ h) in
            (is_empty_list-nil hard_gates e, l, fresh.0 s, w),
        λ h.
            let (e, l, s, w) = h in
            actionable_tests d f hard_gates ∙ tests.1 (ap is_empty_list e, l, fresh.1 s, w),
      )

  -- A score is between 0 and 100. It may be acted on just when no gate is given, the confidence
  -- in the evidence is not below 0.35, the latest market data is there, not of the future and within its
  -- budget, and some weight is on what was measured. Its gates are the given ones and those that the
  -- features close, each once.
  pub score_horizon-IsScored :
      (d : Doubles F) (f : FeatureSet F) (hard_gates : List HardGate)
      → IsOrdered d
      → IsScored d f hard_gates (score_horizon d f hard_gates)
  unfolding score_horizon objective_score_of
  score_horizon-IsScored d f hard_gates law = record {
    score_within = clamp-IsWithin d law _ _ _ law.bounds_apart;
    acts_when = acts d f hard_gates;
    gates_told = λ g. unique_gates-keeps (hard_gates ++ own_gates d f) g;
    gates_distinct = unique_gates-IsDistinct (hard_gates ++ own_gates d f);
  }
