-- ===== src/Scoring/Accounts.antt =====
-- scoring.py: what a result says of the factors that nothing measured.
use us_stock_helper.Prelude.{
  ℕ, ◌≡◌, refl, sym, ap, subst, ◌∙◌, ◌↔◌, Bool, true, Option, none, some, List, [], ◌∷◌, ◌++◌, map,
  inl, inr, Bool-cases, if◌then◌else◌, select, Any, All, pos,
}
use us_stock_helper.Prelude.Doubles.{Doubles}
use us_stock_helper.Scoring.Types.{
  Factor, HardGate, FeatureSet, FactorContribution, Contributor, of_factor, adviser, ScoreResult,
  factors_by_name, is_absent, weights_of, technical_trend, momentum, pattern_factor,
  market_sentiment, macro, geopolitics, institutional_flow, fundamentals,
}
use us_stock_helper.Scoring.{
  value_of, score_horizon, contributions_of, contribution_of, adviser_contribution,
}

named : (n : Factor) → Any (λ m. m ≡ n) factors_by_name
named fundamentals = inl refl
named geopolitics = inr (inl refl)
named institutional_flow = inr (inr (inl refl))
named macro = inr (inr (inr (inl refl)))
named market_sentiment = inr (inr (inr (inr (inl refl))))
named momentum = inr (inr (inr (inr (inr (inl refl)))))
named pattern_factor = inr (inr (inr (inr (inr (inr (inl refl))))))
named technical_trend = inr (inr (inr (inr (inr (inr (inr (inl refl)))))))

module _ {A : Type 0} where
  Any-select :
      (p : A → Bool) (n : A) (xs : List A)
      → p n ≡ true
      → Any (λ m. m ≡ n) xs
      → Any (λ m. m ≡ n) (select p xs)
  Any-select p n [] h found = absurd found
  Any-select p n (x ∷ xs) h (inl same) = rw (ap p same ∙ h) (inl same)
  Any-select p n (x ∷ xs) h (inr later) = elim (Bool-cases (p x)) [
    | inl kept ↦ rw kept (inr (Any-select p n xs h later))
    | inr dropped ↦ rw dropped (Any-select p n xs h later)
  ]

  select_holds : (p : A → Bool) (n : A) (xs : List A) → Any (λ m. m ≡ n) (select p xs) → p n ≡ true
  select_holds p n [] found = absurd found
  select_holds p n (x ∷ xs) found = elim (Bool-cases (p x)) [
    | inl kept ↦
        elim (subst (λ b. Any (λ m. m ≡ n) (if b then x ∷ select p xs else select p xs)) kept
          found) [ inl same ↦ ap p (sym same) ∙ kept | inr later ↦ select_holds p n xs later ]
    | inr dropped ↦
        select_holds p n xs
          (subst (λ b. Any (λ m. m ≡ n) (if b then x ∷ select p xs else select p xs)) dropped found)
  ]

  is_absent-none : (o : Option A) → is_absent o ≡ true → o ≡ none
  is_absent-none none h = refl
  is_absent-none (some a) h = cc

module _ {F : Type 0} where
  -- A contribution tells the value that was measured; without one it adds no points.
  abbrev pub IsAccounted : Doubles F → FeatureSet F → FactorContribution F → Type 0
  IsAccounted d f c = elim c.name [
    | of_factor n ↦
        (c.raw_value ≡ value_of f n)
        × (value_of f n ≡ none
            → (c.points ≡ d.hundredths (pos 0)) × (c.weight ≡ d.hundredths (pos 0)))
    | adviser ↦ (c.raw_value ≡ some f.adviser_factor) × (c.weight ≡ d.hundredths (pos 0))
  ]

  abbrev pub name_in : FactorContribution F → Contributor
  name_in c = c.name

  pub record IsAccountOf (d : Doubles F) (f : FeatureSet F) (r : ScoreResult F) : Type 0 where
    pub absent_told : (n : Factor) → Any (λ m. m ≡ n) r.unavailable_factors ↔ (value_of f n ≡ none)
    pub each_accounted : All (IsAccounted d f) r.contributions
    pub names_kept :
        map name_in r.contributions
        ≡ map (λ w. of_factor w.0) (weights_of f.horizon) ++ adviser ∷ []

  contribution_of-IsAccounted :
      (d : Doubles F) (f : FeatureSet F) (scale : F) (n : Factor) (w : ℕ) (o : Option F)
      → value_of f n ≡ o
      → IsAccounted d f (contribution_of d scale n w (value_of f n))
  contribution_of-IsAccounted d f scale n w none h = rw h (sym h, λ e. (refl, refl))
  contribution_of-IsAccounted d f scale n w (some x) h = rw h (sym h, λ e. cc)

  All-IsAccounted :
      (d : Doubles F) (f : FeatureSet F) (scale : F) (ws : List (Factor × ℕ))
      → All (IsAccounted d f) (
          map (λ w. contribution_of d scale w.0 w.1 (value_of f w.0)) ws
          ++ adviser_contribution d f.adviser_factor ∷ [])
  All-IsAccounted d f scale [] = ((refl, refl), tt)
  All-IsAccounted d f scale ((n, w) ∷ ws) =
      (contribution_of-IsAccounted d f scale n w (value_of f n) refl, All-IsAccounted d f scale ws)

  name-contribution_of :
      (d : Doubles F) (scale : F) (n : Factor) (w : ℕ) (o : Option F)
      → name_in (contribution_of d scale n w o) ≡ of_factor n
  name-contribution_of d scale n w none = refl
  name-contribution_of d scale n w (some x) = refl

  names_of :
      (d : Doubles F) (f : FeatureSet F) (scale : F) (ws : List (Factor × ℕ))
      → map name_in (
          map (λ w. contribution_of d scale w.0 w.1 (value_of f w.0)) ws
          ++ adviser_contribution d f.adviser_factor ∷ [])
        ≡ map (λ w. of_factor w.0) ws ++ adviser ∷ []
  names_of d f scale [] = refl
  names_of d f scale ((n, w) ∷ ws) =
      rw (name-contribution_of d scale n w (value_of f n), names_of d f scale ws) refl

  -- A factor is told as unavailable just when nothing measured it. There is one contribution for each
  -- factor of the horizon, in order, and the one of the advisers behind them; each tells the value
  -- that was measured, and one without a value has no weight and adds no points.
  pub score_horizon-IsAccountOf :
      (d : Doubles F) (f : FeatureSet F) (hard_gates : List HardGate)
      → IsAccountOf d f (score_horizon d f hard_gates)
  unfolding score_horizon contributions_of
  score_horizon-IsAccountOf d f hard_gates = record {
    absent_told = λ n. (
      λ found.
          is_absent-none (value_of f n)
            (select_holds (λ m. is_absent (value_of f m)) n factors_by_name found),
      λ missing.
          Any-select (λ m. is_absent (value_of f m)) n factors_by_name (ap is_absent missing)
            (named n),
    );
    each_accounted = All-IsAccounted d f _ (weights_of f.horizon);
    names_kept = names_of d f _ (weights_of f.horizon);
  }
