-- ===== src/Adviser/Frameworks/Council.antt =====
-- frameworks.py: the council that is convened for a horizon.
use us_stock_helper.Prelude.{
  ℕ, zero, suc, ◌≤◌, ◌<◌, Text, text_eq, eq-text_eq, codes, ◌≡◌, refl, sym, subst, Bool, true,
  Bool-cases, inl, inr, some, List, [], ◌∷◌, ◌++◌, All, arith, le→ltb, strip, lstrip, rstrip,
  is_space, length, take, drop, take-append-drop, select, every, every-select,
}
use us_stock_helper.Adviser.Evidence.{is_in, horizons}
use us_stock_helper.Adviser.Frameworks.{
  AnalysisFramework, analysis_frameworks, suits, select_frameworks, framework_by_id, is_accepted,
}

take_le : (n : ℕ) (xs : List AnalysisFramework) → length (take n xs) ≤ n
take_le zero xs = omega arith
take_le (suc n) [] = omega arith
take_le (suc n) (x ∷ xs) = omega (arith, take_le n xs)

take_some : (n : ℕ) (xs : List AnalysisFramework) → 0 < n → 0 < length xs → 0 < length (take n xs)
take_some zero xs h k = omega (arith, h)
take_some (suc n) [] h k = omega (arith, k)
take_some (suc n) (x ∷ xs) h k = omega arith

every-take :
    (p : AnalysisFramework → Bool) (n : ℕ) (xs : List AnalysisFramework)
    → every p xs ≡ true
    → every p (take n xs) ≡ true
every-take p zero xs h = refl
every-take p (suc n) [] h = refl
every-take p (suc n) (x ∷ xs) h = ground (arith, every-take p n xs)

abbrev Suited : Text → Type 0
Suited horizon = 0 < length (select (suits horizon) analysis_frameworks)

short-Suited : Suited (codes "short")
unfolding text_eq
short-Suited = omega arith

swing-Suited : Suited (codes "swing")
unfolding text_eq
swing-Suited = omega arith

long-Suited : Suited (codes "long")
unfolding text_eq
long-Suited = omega arith

Suited-by : (horizon known : Text) → Suited known → text_eq horizon known ≡ true → Suited horizon
Suited-by horizon known h e = subst Suited (sym (eq-text_eq horizon known e)) h

-- Some framework suits each of the horizons.
some_suits : (horizon : Text) → is_in horizon horizons ≡ true → Suited horizon
some_suits horizon h = elim (Bool-cases (text_eq horizon (codes "short"))) [
  | inl short ↦ Suited-by horizon _ short-Suited short
  | inr no_short ↦ elim (Bool-cases (text_eq horizon (codes "swing"))) [
    | inl swing ↦ Suited-by horizon _ swing-Suited swing
    | inr no_swing ↦ Suited-by horizon (codes "long") long-Suited (ground arith)
  ]
]

-- What a council is, of the frameworks that suit the horizon.
pub record IsCouncil (horizon : Text) (maximum : ℕ) (fs : List AnalysisFramework) : Type 0 where
  pub some_seat : 0 < length fs
  pub few_seats : length fs ≤ maximum
  pub all_suit : every (suits horizon) fs ≡ true
  pub first_declared :
      (rest : List AnalysisFramework) × (fs ++ rest ≡ select (suits horizon) analysis_frameworks)

IsCouncil-of :
    (horizon : Text) (maximum : ℕ)
    → 0 < maximum
    → is_in horizon horizons ≡ true
    → IsCouncil horizon maximum (take maximum (select (suits horizon) analysis_frameworks))
IsCouncil-of horizon maximum positive known =
    let suited = select (suits horizon) analysis_frameworks in
    record {
      some_seat = take_some maximum suited positive (some_suits horizon known);
      few_seats = take_le maximum suited;
      all_suit =
          every-take (suits horizon) maximum suited
            (every-select (suits horizon) analysis_frameworks);
      first_declared = (drop maximum suited, take-append-drop maximum suited);
    }

-- For a positive maximum and a known horizon a council is convened: at least one framework and at
-- most the maximum, all of which suit the horizon, the first of these in the order of the table.
pub select_frameworks-IsCouncil :
    (horizon : Text) (maximum : ℕ)
    → 0 < maximum
    → is_in horizon horizons ≡ true
    → (fs : List AnalysisFramework) × (select_frameworks horizon maximum ≡ some fs)
      × IsCouncil horizon maximum fs
unfolding select_frameworks
select_frameworks-IsCouncil horizon maximum positive known = (
  take maximum (select (suits horizon) analysis_frameworks),
  rw known (rw (le→ltb maximum 1 (omega (arith, positive))) refl),
  IsCouncil-of horizon maximum positive known,
)

-- The table passes the checks of its constructor, and a framework of it is found under its id.
pub analysis_frameworks-is_accepted :
    All
      (λ f. (is_accepted f ≡ true) × (framework_by_id analysis_frameworks f.id ≡ some f))
      analysis_frameworks
unfolding is_accepted framework_by_id text_eq strip lstrip rstrip is_space
analysis_frameworks-is_accepted = (
  (refl, refl),
  (
    (refl, refl),
    (
      (refl, refl),
      (
        (refl, refl),
        (
          (refl, refl),
          (
            (refl, refl),
            (
              (refl, refl),
              (
                (refl, refl),
                ((refl, refl), ((refl, refl), ((refl, refl), ((refl, refl), ((refl, refl), tt))))),
              ),
            ),
          ),
        ),
      ),
    ),
  ),
)
