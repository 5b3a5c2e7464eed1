-- ===== src/Council/Examples.antt =====
-- council.py: tests, and the theorems at concrete inputs.
use us_stock_helper.Prelude.{
  ℕ, Text, codes, text_eq, text_lt, strip, ◌≡◌, ◌≢◌, refl, true, false, List, [], ◌∷◌, ◌++◌, map,
  get_key, set_key,
}
use us_stock_helper.Prelude.Doubles.Hundredths.{toy_doubles}
use us_stock_helper.Prelude.Checked.{accepted, rejected, ◌>>=◌}
use us_stock_helper.Feeds.Collector.{sort_by, insert_by}
use us_stock_helper.Council.Types.{
  EvidenceFact, CouncilRequest, AdviserOpinion, CouncilResult, out_of_fuel,
}
use us_stock_helper.Council.Profiles.{AdviserProfile}
use us_stock_helper.Council.{
  select_advisers, is_more_relevant, is_visible, see_fact, see_facts, visible_facts,
  validate_opinion_shape, validate_opinion,
}
use us_stock_helper.Council.Cited.{IsGrounded, validate_opinion-IsGrounded}
use us_stock_helper.Council.Packet.{PacketFact, build_compact_packet, cut_until}
use us_stock_helper.Council.Fits.{IsFitting, build_compact_packet-Fits}

abbrev fact : Text → ℕ → EvidenceFact ℕ
fact id available_at = record {
  id = id;
  text = codes "sales grew";
  citation_url = codes "https://example.com";
  available_at = available_at;
  credibility = 10080;
  is_counter_evidence = false;
  symbols = codes "AAPL" ∷ [];
}

abbrev request : CouncilRequest ℕ
request = record {
  symbol = codes " aapl";
  horizon = codes "long";
  as_of = 5;
  baseline_score = 15000;
  baseline_direction = codes "bullish";
  requested_focus = codes "valuation" ∷ [];
  facts = fact (codes "f1") 3 ∷ fact (codes "f2") 7 ∷ [];
}

abbrev opinion : AdviserOpinion ℕ
opinion = record {
  adviser_id = codes "graham";
  direction = codes "bullish";
  confidence = 10050;
  score_adjustment = 10200;
  thesis = codes "cheap";
  counterargument = codes "cyclical";
  citation_ids = codes "f1" ∷ [];
  missing_evidence = [];
  abstained = false;
}

abbrev ids : List AdviserProfile → List Text
ids ps = map (λ p. p.id) ps

opinion_accepted : validate_opinion toy_doubles opinion request 10300 1 10050 ≡ accepted opinion
unfolding validate_opinion validate_opinion_shape visible_facts see_facts see_fact is_visible
    text_eq strip get_key set_key
opinion_accepted = refl

validate_opinion-IsGrounded_example : IsGrounded toy_doubles opinion request 10300 1 10050 opinion
validate_opinion-IsGrounded_example =
    validate_opinion-IsGrounded toy_doubles opinion request 10300 1 10050 opinion opinion_accepted

abbrev moved : CouncilResult ℕ
moved = record {
  baseline_score = 15000;
  adjusted_score = 15200;
  adjustment = 10200;
  objective_direction = codes "bullish";
  action_eligible = true;
  active_opinions = 1;
  abstentions = 0;
}

-- The texts, one after the other.
abbrev encode : CouncilRequest ℕ → List (PacketFact ℕ) → Text
encode r [] = []
encode r (f ∷ fs) = f.text ++ encode r fs

packet_made : build_compact_packet toy_doubles encode request 400 ≡ accepted (codes "sales grew")
unfolding build_compact_packet visible_facts see_facts see_fact is_visible text_eq strip get_key
    set_key cut_until sort_by insert_by
packet_made = refl

build_compact_packet-Fits_example :
    (build_compact_packet toy_doubles encode request 400 ≢ rejected out_of_fuel)
    × ((t : Text)
        → build_compact_packet toy_doubles encode request 400 ≡ accepted t
        → IsFitting encode request 400 t)
build_compact_packet-Fits_example = build_compact_packet-Fits toy_doubles encode request 400

two_chosen :
    (select_advisers request 2 >>= λ ps. accepted (ids ps))
    ≡ accepted (codes "buffett" ∷ codes "damodaran" ∷ [])
unfolding select_advisers is_more_relevant text_eq text_lt sort_by insert_by
two_chosen = refl
