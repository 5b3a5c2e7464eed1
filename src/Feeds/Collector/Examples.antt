-- ===== src/Feeds/Collector/Examples.antt =====
-- collector.py: tests, and the theorems at concrete inputs.
use us_stock_helper.Prelude.{
  strip, text_lt, ℕ, ◌+◌, get_key, set_key, Text, codes, text_eq, ◌≡◌, refl, none, List, [], ◌∷◌,
}
use us_stock_helper.Prelude.Checked.{accepted, rejected}
use us_stock_helper.Feeds.Events.{EvidenceEvent}
use us_stock_helper.Feeds.Coordinator.{
  FeedAdapter, os_error, unexpected, poll, reserve_poll, reserve_state, after_reserve, after_fetch,
  state_of, answer_commit, commit_poll, commit_found, commit_state, is_retryable, publish, succeed,
  revise,
}
use us_stock_helper.Feeds.Collector.{
  insert_by, is_in_scope, order_events, selected_events, sort_by, stamp_all, stamp_next,
  EvidenceCollector, rounded_seconds, poll_each, after_answer, answer_of, failure, not_reached,
  store_events, focus_of, evidence,
}
use us_stock_helper.Feeds.Collector.Sources.{
  answers_apart, all_failures, stored_before, poll_each-apart,
}
use us_stock_helper.Feeds.Collector.Reading.{stamped, IsReadOf, evidence-IsReadOf}

abbrev event_at : Text → ℕ → EvidenceEvent
event_at id time = record {
  event_id = id;
  claim_key = id;
  headline = codes "filing";
  published_at = time;
  first_seen_at = time;
  available_at = time;
  retrieved_at = time;
  revised_at = none;
  revision_of = none;
  revision_number = 0;
  content_hash = codes "aa";
  symbol_relevance = (codes "AAPL", 1) ∷ [];
  geopolitical_tags = [];
  macro_tags = [];
  attributes = [];
}

abbrev filings : FeedAdapter
filings = record {
  adapter_id = codes "sec";
  interval = 5;
  poll = λ validators failures. accepted (record {
    events = event_at (codes "e1") 10 ∷ event_at (codes "e2") 12 ∷ [];
    metadata = record { status_code = 200; etag = none; last_modified = none };
  });
}

abbrev broken_wire : FeedAdapter
broken_wire = record {
  adapter_id = codes "wire";
  interval = 5;
  poll = λ validators failures. rejected os_error;
}

abbrev adapters : List FeedAdapter
adapters = broken_wire ∷ filings ∷ []

abbrev collector : EvidenceCollector
collector = record {
  adapters = adapters;
  stale_after = 4000000;
  retention = 9000000;
  coordinator = [];
  store = [];
}

half_to_even : (rounded_seconds 2500000 ≡ 2) × (rounded_seconds 3500000 ≡ 4)
unfolding rounded_seconds
half_to_even = (refl, refl)

abbrev strange_wire : FeedAdapter
strange_wire = record broken_wire {
  adapter_id = codes "odd";
  poll = λ validators failures. rejected unexpected;
}

-- A failure is told beside the events of the other source; an error that is not caught hides it.
one_told :
    (poll_each adapters (λ n. 20 + n) [] []).0 ≡ accepted (failure (codes "wire") not_reached ∷ [])
unfolding poll_each after_answer answer_of poll reserve_poll reserve_state after_reserve after_fetch
    state_of get_key set_key text_eq answer_commit commit_poll commit_found commit_state
    is_retryable store_events publish succeed revise
one_told = refl

one_hidden : (poll_each (broken_wire ∷ strange_wire ∷ []) (λ n. 20) [] []).0 ≡ rejected unexpected
unfolding poll_each after_answer answer_of poll reserve_poll reserve_state after_reserve after_fetch
    state_of get_key set_key text_eq
one_hidden = refl

poll_each-apart_example :
    let r = poll_each adapters (λ n. 20 + n) [] [] in
    let answers = answers_apart adapters (λ n. 20 + n) [] in
    (r.0 ≡ all_failures answers) × (r.2 ≡ stored_before answers [])
unfolding text_eq
poll_each-apart_example = poll_each-apart adapters (λ n. 20 + n) [] [] ((refl, tt), (tt, tt))

abbrev filled : EvidenceCollector
filled = record collector {
  store = (codes "e1", event_at (codes "e1") 10) ∷ (codes "e2", event_at (codes "e2") 12) ∷ [];
}

-- The newer of the two comes first.
newest_first :
    evidence (codes " aapl" ∷ []) 20 filled
    ≡ accepted (
        stamped 4000000 20 (event_at (codes "e2") 12)
        ∷ stamped 4000000 20 (event_at (codes "e1") 10)
        ∷ [])
unfolding evidence stamp_all order_events sort_by selected_events focus_of strip is_in_scope text_eq
    insert_by text_lt stamp_next
newest_first = refl

evidence-IsReadOf_example :
    (ordered : List EvidenceEvent) × IsReadOf
      (focus_of (codes " aapl" ∷ []))
      20
      filled
      (stamped 4000000 20 (event_at (codes "e2") 12)
        ∷ stamped 4000000 20 (event_at (codes "e1") 10)
        ∷ [])
      ordered
evidence-IsReadOf_example = evidence-IsReadOf (codes " aapl" ∷ []) 20 filled _ newest_first
