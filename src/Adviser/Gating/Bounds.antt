-- ===== src/Adviser/Gating/Bounds.antt =====
-- gating.py: the bounds on what a council may change, and the veto of a hard gate.
use us_stock_helper.Prelude.{Text, ◌≡◌, sym, true, false, ◌&&◌, List, length, ◌⊎◌}
use us_stock_helper.Prelude.Doubles.{Doubles, IsWithin}
use us_stock_helper.Prelude.Checked.{accepted, accepted_by, required_by, accepted_inj}
use us_stock_helper.Adviser.Evidence.{is_in}
use us_stock_helper.Adviser.Trace.{TracedBrief, has_any}
use us_stock_helper.Scoring.Types.{HardGate}
use us_stock_helper.Adviser.Gating.{
  CouncilVerdict, no_score, full_score, score_cap, negative_cap, sum_weights, verdict_of,
  apply_hard_gate, score_out_of_range, unknown_direction, empty_brief, directions,
}

module _ {F : Type 0} where
  -- What a verdict may say: the scores are within their bounds and, when a gate is blocked, nothing is
  -- added and nothing may be acted on; the direction and the gates are those that were given.
  pub record IsBounded (d : Doubles F) (baseline_score : F) (baseline_direction : Text)
      (hard_gates : List HardGate) (v : CouncilVerdict F) : Type 0 where
    pub adjusted_within : IsWithin d (no_score d) (full_score d) v.adjusted_score
    pub adjustment_capped :
        ((v.score_adjustment ≡ no_score d) × (has_any hard_gates ≡ true) × (v.actionable ≡ false))
        ⊎ (IsWithin d (negative_cap d) (score_cap d) v.score_adjustment
            × (has_any hard_gates ≡ false)
            × (v.actionable ≡ true))
    pub direction_kept : v.objective_direction ≡ baseline_direction
    pub score_kept : v.baseline_score ≡ baseline_score
    pub gates_told : v.blocked_by ≡ hard_gates

  -- What `apply_hard_gate` returns is the verdict of some net opinion.
  pub apply_hard_gate-verdict :
      (d : Doubles F) (brief : TracedBrief) (score : F) (direction : Text)
      (hard_gates : List HardGate) (v : CouncilVerdict F)
      → apply_hard_gate d brief score direction hard_gates ≡ accepted v
      → (net : F) × (v ≡ verdict_of d brief score direction hard_gates net)
  unfolding apply_hard_gate
  apply_hard_gate-verdict d brief score direction hard_gates v h =
      let (in_range, h1) =
        required_by (d.le (no_score d) score && d.le score (full_score d)) score_out_of_range _ v
          h in
      let (known, h2) = required_by (is_in direction directions) unknown_direction _ v h1 in
      let (filled, h3) = required_by (has_any brief.opinions) empty_brief _ v h2 in
      let (total, summed, h4) =
        accepted_by (sum_weights d (no_score d) brief.opinions)
          (λ t. accepted (
            verdict_of d brief score direction hard_gates
              (d.divide t (d.of_count (length brief.opinions)))))
          v h3 in
      (d.divide total (d.of_count (length brief.opinions)), sym (accepted_inj _ _ h4))
