-- ===== src/Adviser/Examples.antt =====
-- A packet of one item, and what a model may say of it.
use us_stock_helper.Prelude.{
  Text, text_eq, text_lt, codes, ◌≡◌, refl, ◌&&◌, ◌||◌, leb, List, [], ◌∷◌, false, to_lower, lstrip,
  rstrip, strip, is_space, starts_with,
}
use us_stock_helper.Adviser.Tokens.{
  Builtins, numbers, scan, uppercase_tokens, words_from, squeeze, casefold_all, normalize, contains,
}
use us_stock_helper.Adviser.Evidence.{
  EvidenceItem, EvidencePacket, build_packet, pack, has_repeat, sort_items, insert_item, item_of,
}
use us_stock_helper.Adviser.Trace.{
  CouncilBrief, Conclusion, NewsInterpretation, TracedBrief, TracedConclusion, TracedInterpretation,
  high, bullish, trace_brief, trace_opinion, trace_conclusion, trace_interpretation, reject_facts,
  resolve_citation, resolve_item, corpus, join_spaced, refused, fabricated_fact_error, ok,
}
use us_stock_helper.Adviser.Frameworks.{analysis_frameworks, growth_framework, framework_by_id}
use us_stock_helper.Adviser.Items.{ParsedUrl}
use us_stock_helper.Adviser.Visible.{IsFrozen, build_packet-IsFrozen}
use us_stock_helper.Adviser.Shown.{IsShownBrief, trace_brief-IsShown}

abbrev pub ascii : Builtins
ascii = record {
  is_digit = λ c. leb b'0' c && leb c b'9';
  is_word =
      λ c. (leb b'0' c && leb c b'9') || ((leb b'A' c && leb c b'Z') || (leb b'a' c && leb c b'z'));
  casefold = λ c. to_lower c ∷ [];
  isodate = λ t. codes "2026-08-17";
}

abbrev filing : EvidenceItem
filing = record {
  id = codes "f1";
  headline = codes "AAPL files 8-K";
  body = codes "Revenue rose 12.5 percent";
  url = codes "https://sec.gov/f1";
  publisher = codes "SEC";
  available_at = 10;
  received_at = 11;
  symbols = codes "AAPL" ∷ [];
  is_counter_evidence = false;
}

abbrev later_filing : EvidenceItem
later_filing = record filing { id = codes "f2"; available_at = 30; received_at = 31 }

abbrev pub packet : EvidencePacket
packet = record { symbol = codes "AAPL"; horizon = codes "swing"; as_of = 20; items = filing ∷ [] }

abbrev found_numbers : List Text
found_numbers = codes "12.5" ∷ codes "3" ∷ codes "7" ∷ []

numbers_in : numbers ascii (codes "12.5.3 x7.") ≡ found_numbers
unfolding numbers scan
numbers_in = refl

uppercase_in :
    uppercase_tokens ascii (codes "AAPL Apple A TOOLONG 8K SEC") ≡ codes "AAPL" ∷ codes "SEC" ∷ []
unfolding uppercase_tokens words_from
uppercase_in = refl

build_packet-IsFrozen_example : IsFrozen 20 (later_filing ∷ filing ∷ []) packet
unfolding build_packet pack has_repeat sort_items insert_item strip lstrip rstrip is_space text_eq
    text_lt
build_packet-IsFrozen_example =
    build_packet-IsFrozen (codes " aapl") (codes "swing") 20 (later_filing ∷ filing ∷ []) packet
      refl

abbrev conclusion : Text → Conclusion
conclusion statement = record {
  statement = statement;
  confidence = high;
  citations = record { evidence_id = codes "f1"; quote = codes "revenue  ROSE" } ∷ [];
  counter_evidence = [];
}

abbrev shown_conclusion : TracedConclusion
shown_conclusion = record {
  statement = codes "AAPL grew 12.5";
  confidence = high;
  citations =
      record {
        evidence_id = codes "f1";
        quote = codes "revenue  ROSE";
        url = codes "https://sec.gov/f1";
        publisher = codes "SEC";
        available_at = 10;
        received_at = 11;
        is_counter_evidence = false;
      }
      ∷ [];
  counter_evidence = [];
}

abbrev pub brief : Text → CouncilBrief
brief statement = record {
  summary = codes "Growth at AAPL";
  opinions =
      record {
        framework_id = codes "growth";
        stance = bullish;
        conclusions = conclusion statement ∷ [];
        blind_spot_note = codes "one quarter";
      }
      ∷ [];
}

abbrev pub shown_brief : TracedBrief
shown_brief = record {
  summary = codes "Growth at AAPL";
  opinions =
      record {
        framework_id = codes "growth";
        display_name = growth_framework.display_name;
        stance = bullish;
        conclusions = shown_conclusion ∷ [];
        blind_spot_note = codes "one quarter";
      }
      ∷ [];
}

pub brief_traces :
    trace_brief ascii analysis_frameworks packet (brief (codes "AAPL grew 12.5")) ≡ ok shown_brief
unfolding trace_brief trace_opinion trace_conclusion framework_by_id reject_facts resolve_citation
    resolve_item item_of corpus join_spaced numbers scan uppercase_tokens words_from normalize
    squeeze casefold_all contains strip lstrip rstrip is_space starts_with text_eq
brief_traces = refl

trace_brief-IsShown_example : IsShownBrief ascii analysis_frameworks packet shown_brief
trace_brief-IsShown_example =
    trace_brief-IsShown ascii analysis_frameworks packet (brief (codes "AAPL grew 12.5"))
      shown_brief brief_traces

-- A number that the packet does not hold refuses the whole brief.
invented :
    trace_brief ascii analysis_frameworks packet (brief (codes "AAPL grew 13"))
    ≡ refused fabricated_fact_error
unfolding trace_brief trace_opinion trace_conclusion framework_by_id reject_facts resolve_citation
    resolve_item item_of corpus join_spaced numbers scan uppercase_tokens words_from normalize
    squeeze casefold_all contains strip lstrip rstrip is_space starts_with text_eq
invented = refl

abbrev pub interpretation : NewsInterpretation
interpretation = record {
  headline_summary = codes "AAPL filed";
  cross_source_reading = codes "one source";
  investment_impact = conclusion (codes "AAPL grew 12.5") ∷ [];
  unknowns = codes "the next quarter" ∷ [];
}

abbrev pub shown_interpretation : TracedInterpretation
shown_interpretation = record {
  headline_summary = codes "AAPL filed";
  cross_source_reading = codes "one source";
  investment_impact = shown_conclusion ∷ [];
  unknowns = codes "the next quarter" ∷ [];
}

pub news_traces : trace_interpretation ascii packet interpretation ≡ ok shown_interpretation
unfolding trace_interpretation trace_conclusion reject_facts resolve_citation resolve_item item_of
    corpus join_spaced numbers scan uppercase_tokens words_from normalize squeeze casefold_all
    contains strip lstrip rstrip is_space starts_with text_eq
news_traces = refl

abbrev parse_link : Text → ParsedUrl
parse_link t = record {
  scheme = codes "https";
  hostname = codes "sec.gov";
  username = [];
  password = [];
}
