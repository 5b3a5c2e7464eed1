-- ===== src/Council/Profiles.antt =====
-- services/adviser_layer/adviser_layer/registry.py: the profiles of the advisers. The names and the
-- disclaimer that are shown are left out.
use us_stock_helper.Prelude.{Text, codes, List, [], ◌∷◌}

pub record AdviserProfile : Type 0 where
  pub id : Text
  pub focus : List Text
  pub suitable_horizons : List Text

abbrev profile : Text → List Text → List Text → AdviserProfile
profile id focus horizons = record { id = id; focus = focus; suitable_horizons = horizons }

-- `ADVISER_PROFILES`
abbrev pub adviser_profiles : List AdviserProfile
adviser_profiles =
    profile (codes "damodaran") (codes "valuation" ∷ codes "narrative" ∷ [])
      (codes "swing" ∷ codes "long" ∷ [])
    ∷ profile (codes "graham") (codes "valuation" ∷ codes "balance-sheet" ∷ []) (codes "long" ∷ [])
    ∷ profile (codes "ackman") (codes "catalyst" ∷ codes "governance" ∷ [])
        (codes "swing" ∷ codes "long" ∷ [])
    ∷ profile (codes "wood") (codes "innovation" ∷ codes "growth" ∷ [])
        (codes "swing" ∷ codes "long" ∷ [])
    ∷ profile (codes "munger") (codes "quality" ∷ codes "moat" ∷ []) (codes "long" ∷ [])
    ∷ profile (codes "burry") (codes "contrarian" ∷ codes "valuation" ∷ codes "short" ∷ [])
        (codes "short" ∷ codes "swing" ∷ [])
    ∷ profile (codes "pabrai") (codes "asymmetry" ∷ codes "downside" ∷ [])
        (codes "swing" ∷ codes "long" ∷ [])
    ∷ profile (codes "taleb") (codes "tail-risk" ∷ codes "convexity" ∷ [])
        (codes "short" ∷ codes "swing" ∷ codes "long" ∷ [])
    ∷ profile (codes "lynch") (codes "growth" ∷ codes "business" ∷ [])
        (codes "swing" ∷ codes "long" ∷ [])
    ∷ profile (codes "fisher") (codes "growth" ∷ codes "research" ∷ []) (codes "long" ∷ [])
    ∷ profile (codes "jhunjhunwala") (codes "growth" ∷ codes "cycle" ∷ [])
        (codes "swing" ∷ codes "long" ∷ [])
    ∷ profile (codes "druckenmiller") (codes "macro" ∷ codes "momentum" ∷ codes "liquidity" ∷ [])
        (codes "short" ∷ codes "swing" ∷ [])
    ∷ profile (codes "buffett") (codes "quality" ∷ codes "valuation" ∷ codes "moat" ∷ [])
        (codes "long" ∷ [])
    ∷ []
