-- ===== src/Council/Facts.antt =====
-- council.py: what the constructors of a fact and of a request accept.
use us_stock_helper.Prelude.{
  Text, codes, ◌≡◌, refl, subst, Bool, true, false, not, ◌&&◌, ◌||◌, List, [], ◌∷◌, exists, map,
  strip, pos, arith,
}
use us_stock_helper.Prelude.Doubles.{Doubles}
use us_stock_helper.Prelude.Checked.{Checked, accepted, require, ◌>>◌, required_by, accepted_inj}
use us_stock_helper.Adviser.Items.{
  ParsedUrl, is_plain_link, clean, clean_symbols, IsAscending, sorted_set-IsAscending,
}
use us_stock_helper.Council.Types.{EvidenceFact, CouncilRequest, is_in, is_none_left, directions}

-- The `ValueError`s, without their messages.
pub data ConstructionError : Type 0 where
  empty_fields unsafe_link credibility_out_of_range empty_fact_symbol : ConstructionError
  empty_symbol unknown_horizon unknown_baseline score_out_of_range : ConstructionError

abbrev pub horizons : List Text
horizons = codes "short" ∷ codes "swing" ∷ codes "long" ∷ []

module _ {F : Type 0} where
  abbrev pub is_within : Doubles F → F → F → F → Bool
  is_within d least most x = d.le least x && d.le x most

  abbrev pub is_filled : EvidenceFact F → Bool
  is_filled f = not (is_none_left f.id || (is_none_left f.text || is_none_left f.citation_url))

  -- `EvidenceFact.__post_init__`
  unfoldable pub accept_fact :
      Doubles F → (Text → ParsedUrl) → EvidenceFact F → Checked ConstructionError (EvidenceFact F)
  accept_fact d urlparse f = do
    require (is_filled f) empty_fields
    require (is_plain_link (urlparse f.citation_url)) unsafe_link
    require (is_within d (d.hundredths (pos 0)) (d.hundredths (pos 100)) f.credibility)
        credibility_out_of_range
    require (not (exists is_none_left (clean_symbols f.symbols))) empty_fact_symbol
    accepted (record f { symbols = clean_symbols f.symbols })

  -- `CouncilRequest.__post_init__`
  unfoldable pub accept_request :
      Doubles F → CouncilRequest F → Checked ConstructionError (CouncilRequest F)
  accept_request d r = do
    require (not (is_none_left (strip r.symbol))) empty_symbol
    require (is_in r.horizon horizons) unknown_horizon
    require (is_in r.baseline_direction directions) unknown_baseline
    require (is_within d (d.hundredths (pos 0)) (d.hundredths (pos 10000)) r.baseline_score)
        score_out_of_range
    accepted r

  -- What an accepted fact has.
  record IsAcceptedFact (d : Doubles F) (urlparse : Text → ParsedUrl) (given fact : EvidenceFact F)
      : Type 0 where
    filled : is_filled fact ≡ true
    plain_link : is_plain_link (urlparse fact.citation_url) ≡ true
    credible : is_within d (d.hundredths (pos 0)) (d.hundredths (pos 100)) fact.credibility ≡ true
    none_blank : exists is_none_left fact.symbols ≡ false
    ascending : IsAscending fact.symbols
    same_symbols : fact.symbols ≡ clean_symbols given.symbols

  -- An accepted fact is filled, with a link that is plain and a credibility between 0 and 1; its
  -- symbols are those that were given, cleaned and in ascending order, none of them blank.
  accept_fact-IsAcceptedFact :
      (d : Doubles F) (urlparse : Text → ParsedUrl) (given fact : EvidenceFact F)
      → accept_fact d urlparse given ≡ accepted fact
      → IsAcceptedFact d urlparse given fact
  unfolding accept_fact
  accept_fact-IsAcceptedFact d urlparse given fact h =
      let (filled, h1) = required_by (is_filled given) empty_fields _ fact h in
      let (plain, h2) =
        required_by (is_plain_link (urlparse given.citation_url)) unsafe_link _ fact h1 in
      let (credible, h3) =
        required_by (is_within d (d.hundredths (pos 0)) (d.hundredths (pos 100)) given.credibility)
          credibility_out_of_range _ fact h2 in
      let (blank, h4) =
        required_by (not (exists is_none_left (clean_symbols given.symbols))) empty_fact_symbol _
          fact h3 in
      subst (IsAcceptedFact d urlparse given) (accepted_inj _ fact h4) (record {
        filled = filled;
        plain_link = plain;
        credible = credible;
        none_blank = ground (arith, blank);
        ascending = sorted_set-IsAscending (map clean given.symbols);
        same_symbols = refl;
      })
