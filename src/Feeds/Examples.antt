-- ===== src/Feeds/Examples.antt =====
-- Runs of the polling coordinator on small feeds.
use us_stock_helper.Prelude.{
  ℕ, Text, codes, text_eq, ◌≡◌, refl, none, some, List, [], ◌∷◌, select, get_key, set_key,
}
use us_stock_helper.Prelude.Checked.{accepted}
use us_stock_helper.Feeds.Events.{EvidenceEvent}
use us_stock_helper.Feeds.Coordinator.{
  PollingCoordinator, Batch, FeedAdapter, state_of, reserve_poll, reserve_state, commit_poll,
  commit_found, commit_state, publish, revise, succeed, is_retryable, poll, is_too_soon,
}
use us_stock_helper.Feeds.Coordinator.Steps.{PollStep, reserve_step, commit_step, apply_step}
use us_stock_helper.Feeds.Coordinator.Spacing.{
  grants, step_grant, Spaced, last_polled, grants-Spaced,
}
use us_stock_helper.Feeds.Coordinator.Publishing.{hashes, changes, is_about}
use us_stock_helper.Feeds.Coordinator.Lineage.{Chain, publish-Chain}
use us_stock_helper.Feeds.Coordinator.Polls.{
  published_by, reported_by, recorded_hash, published_by-changes, step_published,
}
use us_stock_helper.Feeds.Coordinator.Outcomes.{Ends, poll-Ends}

abbrev sec : Text
sec = codes "sec"

abbrev claim : Text
claim = codes "AAPL:8-K"

abbrev first_hash : Text
first_hash = codes "aaaaaaaaaaaaaaaaaaaaaaaaaaaaaaaaaaaaaaaaaaaaaaaaaaaaaaaaaaaaaaaa"

abbrev second_hash : Text
second_hash = codes "bbbbbbbbbbbbbbbbbbbbbbbbbbbbbbbbbbbbbbbbbbbbbbbbbbbbbbbbbbbbbbbb"

abbrev item : Text → Text → EvidenceEvent
item id hash = record {
  event_id = id;
  claim_key = claim;
  headline = codes "filing";
  published_at = 1;
  first_seen_at = 2;
  available_at = 3;
  retrieved_at = 4;
  revised_at = none;
  revision_of = none;
  revision_number = 0;
  content_hash = hash;
  symbol_relevance = (codes "AAPL", 1) ∷ [];
  geopolitical_tags = [];
  macro_tags = [];
  attributes = [];
}

abbrev batch_of : ℕ → List EvidenceEvent → Batch
batch_of status events = record {
  events = events;
  metadata = record { status_code = status; etag = some (codes "v1"); last_modified = none };
}

abbrev reports : List EvidenceEvent
reports =
    item (codes "e1") first_hash ∷ item (codes "e2") first_hash ∷ item (codes "e3") second_hash ∷ []

-- A poll, a thread that comes too soon, a failure of the server, and a poll that repeats the feed.
abbrev steps : List PollStep
steps =
    reserve_step sec 60 100
    ∷ reserve_step sec 60 130
    ∷ commit_step sec (batch_of 200 reports)
    ∷ reserve_step sec 60 160
    ∷ commit_step sec (batch_of 503 [])
    ∷ reserve_step sec 60 230
    ∷ commit_step sec (batch_of 200 (item (codes "e3") second_hash ∷ []))
    ∷ []

let_through : grants sec steps [] ≡ 100 ∷ 160 ∷ 230 ∷ []
unfolding grants step_grant apply_step reserve_poll reserve_state commit_poll commit_found
    commit_state succeed publish revise state_of get_key set_key text_eq is_retryable
let_through = refl

published_hashes : hashes claim (published_by sec steps []) ≡ first_hash ∷ second_hash ∷ []
unfolding hashes published_by step_published apply_step reserve_poll reserve_state commit_poll
    commit_found commit_state succeed publish revise state_of get_key set_key text_eq is_retryable
published_hashes = refl

grants-Spaced_example : Spaced 60 (last_polled sec []) (grants sec steps [])
grants-Spaced_example =
    grants-Spaced sec 60 steps []
      (λ e. refl, (λ e. refl, (tt, (λ e. refl, (tt, (λ e. refl, (tt, tt)))))))

-- A coordinator that let the feed through at 100.
abbrev asked : PollingCoordinator
asked =
    (
      sec,
      record {
        validators = record { etag = none; last_modified = none };
        consecutive_failures = 2;
        published = [];
        last_polled_at = some 100;
      },
    )
    ∷ []

published_by-changes_example :
    hashes claim (published_by sec steps [])
    ≡ changes (recorded_hash sec claim []) (hashes claim (reported_by sec steps []))
published_by-changes_example = published_by-changes sec claim steps []

publish-Chain_example : Chain (get_key claim []) (select (is_about claim) (publish reports []).0)
publish-Chain_example = publish-Chain claim reports []

abbrev adapter : FeedAdapter
adapter = record {
  adapter_id = sec;
  interval = 60;
  poll = λ validators failures. accepted (batch_of 200 reports);
}

poll-Ends_example :
    let r = poll adapter 200 asked in
    Ends
      (is_too_soon (state_of sec asked).last_polled_at 60 200)
      adapter
      200
      (state_of sec asked)
      r.0
      (state_of sec r.1)
poll-Ends_example = poll-Ends adapter 200 asked
