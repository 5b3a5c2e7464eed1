-- ===== src/Feeds/Coordinator.antt =====
-- services/information_layer/information_layer/feeds/coordinator.py: what each feed has published,
-- and when it was asked last. `poll` is two steps under the lock with the call of the network
-- between them.
pub mod Steps
pub mod Spacing
pub mod Publishing
pub mod Lineage
pub mod Polls
pub mod Outcomes
use us_stock_helper.Prelude.{
  ℕ, ◌+◌, ◌-◌, Text, text_eq, Bool, ◌||◌, Option, none, some, List, [], ◌∷◌, ltb, leb, ◌==◌,
  if◌then◌else◌, Dict, get_key, set_key,
}
use us_stock_helper.Prelude.Checked.{Checked, accepted, rejected}
use us_stock_helper.Feeds.Events.{Instant, Duration, EvidenceEvent}

pub record PublishedRecord : Type 0 where
  pub content_hash : Text
  pub event_id : Text
  pub revision_number : ℕ

pub record CacheValidators : Type 0 where
  pub etag : Option Text
  pub last_modified : Option Text

pub record AdapterState : Type 0 where
  pub validators : CacheValidators
  pub consecutive_failures : ℕ
  pub published : Dict PublishedRecord
  pub last_polled_at : Option Instant

abbrev pub PollingCoordinator : Type 0
PollingCoordinator = Dict AdapterState

-- `_AdapterState()`
abbrev pub new_state : AdapterState
new_state = record {
  validators = record { etag = none; last_modified = none };
  consecutive_failures = 0;
  published = [];
  last_polled_at = none;
}

-- `FeedPollMetadata`, as far as the coordinator reads it.
pub record FeedPollMetadata : Type 0 where
  pub status_code : ℕ
  pub etag : Option Text
  pub last_modified : Option Text

-- What `adapter.poll` returns.
pub record Batch : Type 0 where
  pub events : List EvidenceEvent
  pub metadata : FeedPollMetadata

-- The answer of a check-and-reserve: the wait that is left, or what the adapter is asked with.
pub data Reserved : Type 0 where
  throttled : Duration → Reserved
  granted : CacheValidators → ℕ → Reserved

abbrev pub state_or_new : Option AdapterState → AdapterState
state_or_new none = new_state
state_or_new (some state) = state

-- `self._states.setdefault(adapter_id, _AdapterState())`
unfoldable pub state_of : Text → PollingCoordinator → AdapterState
state_of id c = state_or_new (get_key id c)

-- `elapsed < interval`, where a clock that went back makes `elapsed` negative
abbrev pub is_too_soon : Option Instant → Duration → Instant → Bool
is_too_soon none interval now = Bool.false
is_too_soon (some last) interval now = ltb now (last + interval)

-- `interval - elapsed`
abbrev pub time_left : Option Instant → Duration → Instant → Duration
time_left none interval now = 0
time_left (some last) interval now = last + interval - now

-- The check and the reservation, on the state of the adapter.
unfoldable pub reserve_state : Duration → Instant → AdapterState → Reserved × AdapterState
reserve_state interval now state =
    if is_too_soon state.last_polled_at interval now
    then (throttled (time_left state.last_polled_at interval now), state)
    else (
      granted state.validators state.consecutive_failures,
      record state { last_polled_at = some now },
    )

-- The first section of `poll` under the lock.
unfoldable pub reserve_poll :
    Text → Duration → Instant → PollingCoordinator → Reserved × PollingCoordinator
reserve_poll id interval now c =
    let r = reserve_state interval now (state_of id c) in (r.0, set_key id r.1 c)

unfoldable pub is_retryable : ℕ → Bool
is_retryable status = (status == 408 || (status == 425 || status == 429)) || leb 500 status

-- `a or b`, where an empty text counts as none
abbrev pub or_else : Option Text → Option Text → Option Text
or_else none b = b
or_else (some []) b = b
or_else (some (x ∷ xs)) b = some (x ∷ xs)

-- An item of a claim that was published with other content is a revision of it.
unfoldable pub revise : Option PublishedRecord → EvidenceEvent → EvidenceEvent
revise none item = item
revise (some previous) item = record item {
  revision_of = some previous.event_id;
  revision_number = previous.revision_number + 1;
  revised_at = some item.available_at;
}

abbrev pub to_published : EvidenceEvent → PublishedRecord
to_published item = record {
  content_hash = item.content_hash;
  event_id = item.event_id;
  revision_number = item.revision_number;
}

abbrev pub is_same : Option PublishedRecord → Text → Bool
is_same none hash = Bool.false
is_same (some previous) hash = text_eq previous.content_hash hash

-- The loop over the items of a batch: what is published of them, and the record that is left.
unfoldable pub publish :
    List EvidenceEvent → Dict PublishedRecord → List EvidenceEvent × Dict PublishedRecord
publish [] record_ = ([], record_)
publish (item ∷ items) record_ =
    let previous = get_key item.claim_key record_ in
    let revised = revise previous item in
    let skipped = publish items record_ in
    let kept = publish items (set_key item.claim_key (to_published revised) record_) in
    if is_same previous item.content_hash then skipped else (revised ∷ kept.0, kept.1)

abbrev pub merge_validators : FeedPollMetadata → CacheValidators → CacheValidators
merge_validators m v = record {
  etag = or_else m.etag v.etag;
  last_modified = or_else m.last_modified v.last_modified;
}

-- The state after a batch that is no failure, and after one that is to be tried again.
unfoldable pub succeed : Batch → AdapterState → AdapterState
succeed batch state = record state {
  validators = merge_validators batch.metadata state.validators;
  consecutive_failures = 0;
  published = (publish batch.events state.published).1;
}

abbrev pub fail : AdapterState → AdapterState
fail state = record state { consecutive_failures = state.consecutive_failures + 1 }

-- What is published of a batch, and the state that is left.
unfoldable pub commit_state : Batch → AdapterState → List EvidenceEvent × AdapterState
commit_state batch state =
    if is_retryable batch.metadata.status_code
    then ([], fail state)
    else ((publish batch.events state.published).0, succeed batch state)

-- `self._states[adapter_id]`: a key that is not there is a `KeyError`, `none`.
unfoldable pub commit_found :
    Text
    → Batch
    → PollingCoordinator
    → Option AdapterState
    → Option (List EvidenceEvent) × PollingCoordinator
commit_found id batch c none = (none, c)
commit_found id batch c (some state) =
    let r = commit_state batch state in (some r.0, set_key id r.1 c)

-- The second section of `poll` under the lock.
unfoldable pub commit_poll :
    Text → Batch → PollingCoordinator → Option (List EvidenceEvent) × PollingCoordinator
commit_poll id batch c = commit_found id batch c (get_key id c)

-- What a poll raises: one of the errors of feeds/http.py, an `OSError`, or any other exception.
pub data PollError : Type 0 where
  parse_failed response_too_large access_denied feed_failed os_error unexpected : PollError

-- `GenericFeedAdapter`: its name, its interval, and what its `poll` returns or raises for the span of
-- time that it is asked about.
pub record FeedAdapter : Type 0 where
  pub adapter_id : Text
  pub interval : Duration
  pub poll : CacheValidators → ℕ → Checked PollError Batch

-- `FeedPollResult`, or an exception.
pub data PollOutcome : Type 0 where
  skipped : Duration → PollOutcome
  polled : List EvidenceEvent → FeedPollMetadata → PollOutcome
  failed : PollError → PollOutcome

unfoldable pub answer_commit :
    FeedPollMetadata
    → Option (List EvidenceEvent) × PollingCoordinator
    → PollOutcome × PollingCoordinator
answer_commit metadata (none, c) = (failed unexpected, c)
answer_commit metadata (some events, c) = (polled events metadata, c)

-- The call of the network, and what follows it.
unfoldable pub after_fetch :
    Text → Checked PollError Batch → PollingCoordinator → PollOutcome × PollingCoordinator
after_fetch id (rejected e) c = (failed e, c)
after_fetch id (accepted batch) c = answer_commit batch.metadata (commit_poll id batch c)

unfoldable pub after_reserve :
    FeedAdapter → Reserved × PollingCoordinator → PollOutcome × PollingCoordinator
after_reserve adapter (throttled wait, c) = (skipped wait, c)
after_reserve adapter (granted validators failures, c) =
    after_fetch adapter.adapter_id (adapter.poll validators failures) c

-- `PollingCoordinator.poll` without another thread.
unfoldable pub poll : FeedAdapter → Instant → PollingCoordinator → PollOutcome × PollingCoordinator
poll adapter now c = after_reserve adapter (reserve_poll adapter.adapter_id adapter.interval now c)
