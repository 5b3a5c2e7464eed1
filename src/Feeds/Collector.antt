-- ===== src/Feeds/Collector.antt =====
-- services/information_layer/information_layer/feeds/collector.py: what the sources have said, and how
-- old it is. Spans of time are in microseconds; the coordinator reads the clock once
-- for each poll, and the collector once for the round. `upper` is modelled on ASCII letters.
pub mod Sorting
pub mod Sources
pub mod Reading
pub mod Kept
mod Examples
use us_stock_helper.Prelude.{
  ℕ, suc, ◌+◌, ◌-◌, ◌*◌, ◌/◌, ◌%◌, Text, text_eq, text_lt, codes, strip, to_upper, decimal, Bool,
  true, false, not, ◌&&◌, ◌||◌, Option, none, some, List, [], ◌∷◌, ◌++◌, map, select, exists, ltb,
  leb, ◌==◌, if◌then◌else◌, Dict, get_key, set_key,
}
use us_stock_helper.Prelude.Checked.{Checked, accepted, rejected}
use us_stock_helper.Feeds.Events.{Instant, Duration, EvidenceEvent}
use us_stock_helper.Feeds.Coordinator.{
  PollingCoordinator, FeedAdapter, PollOutcome, skipped, polled, failed, PollError, parse_failed,
  response_too_large, access_denied, feed_failed, os_error, unexpected, is_retryable, poll,
}

-- What `_reason` tells of an error, or the status of a reply.
pub data FailureReason : Type 0 where
  not_parsed too_large refused source_failed not_reached : FailureReason
  http_status : ℕ → FailureReason

pub record SourceFailure : Type 0 where
  pub source_id : Text
  pub reason : FailureReason

-- The settings and the state of an `EvidenceCollector`.
pub record EvidenceCollector : Type 0 where
  pub adapters : List FeedAdapter
  pub stale_after : Duration
  pub retention : Duration
  pub coordinator : PollingCoordinator
  pub store : Dict EvidenceEvent

-- What a read is told: events, the failures of `EvidenceUnavailable`, the `ValueError` of an age
-- below zero, or what a source raised that the collector does not catch.
pub data ReadError : Type 0 where
  unavailable : List SourceFailure → ReadError
  not_yet_available : ReadError
  uncaught : PollError → ReadError

abbrev pub is_none_left : {A : Type 0} → List A → Bool
is_none_left [] = true
is_none_left (x ∷ xs) = false

-- The checks of `__init__`, on the settings as they are given.
unfoldable pub is_accepted_collector : List FeedAdapter → Duration → Duration → Duration → Bool
is_accepted_collector adapters lookback stale_after retention =
    not (is_none_left adapters)
    && ((ltb 0 lookback && ltb 0 stale_after) && ltb stale_after retention)

-- The reason of an error that `except (FeedError, OSError)` catches; `none` is not caught.
abbrev pub reason_of : PollError → Option FailureReason
reason_of parse_failed = some not_parsed
reason_of response_too_large = some too_large
reason_of access_denied = some refused
reason_of feed_failed = some source_failed
reason_of os_error = some not_reached
reason_of unexpected = none

abbrev pub failure : Text → FailureReason → SourceFailure
failure id reason = record { source_id = id; reason = reason }

-- What one source comes to: its failures and its new events, or the error that ends the round.
abbrev pub Answer : Type 0
Answer = Checked PollError (List SourceFailure × List EvidenceEvent)

abbrev pub answer_error : Text → PollError → Option FailureReason → Answer
answer_error id error none = rejected error
answer_error id error (some reason) = accepted (failure id reason ∷ [], [])

unfoldable pub answer_of : Text → PollOutcome → Answer
answer_of id (skipped wait) = accepted ([], [])
answer_of id (polled events metadata) =
    if is_retryable metadata.status_code
    then accepted (failure id (http_status metadata.status_code) ∷ [], [])
    else accepted ([], events)
answer_of id (failed error) = answer_error id error (reason_of error)

unfoldable pub store_events : List EvidenceEvent → Dict EvidenceEvent → Dict EvidenceEvent
store_events [] store = store
store_events (e ∷ es) store = store_events es (set_key e.event_id e store)

-- What a round comes to so far: the failures or what was raised, and the state.
abbrev pub Round : Type 0
Round = Checked PollError (List SourceFailure) × PollingCoordinator × Dict EvidenceEvent

abbrev pub with_earlier :
    List SourceFailure
    → Checked PollError (List SourceFailure)
    → Checked PollError (List SourceFailure)
with_earlier failures (accepted later) = accepted (failures ++ later)
with_earlier failures (rejected error) = rejected error

unfoldable pub after_answer :
    Answer
    → PollingCoordinator
    → Dict EvidenceEvent
    → (PollingCoordinator → Dict EvidenceEvent → Round)
    → Round
after_answer (rejected error) c store rest = (rejected error, c, store)
after_answer (accepted (failures, events)) c store rest =
    let (later, last, kept) = rest c (store_events events store) in
    (with_earlier failures later, last, kept)

-- The loop of `_poll_sources`; `clock n` is what the coordinator reads for the n-th poll.
unfoldable pub poll_each :
    List FeedAdapter → (ℕ → Instant) → PollingCoordinator → Dict EvidenceEvent → Round
poll_each [] clock c store = (accepted [], c, store)
poll_each (a ∷ adapters) clock c store =
    let (outcome, d) = poll a (clock 0) c in
    after_answer (answer_of a.adapter_id outcome) d store (poll_each adapters (λ n. clock (suc n)))

-- `item.available_at < now - retention`
abbrev pub is_expired : Duration → Instant → Text × EvidenceEvent → Bool
is_expired retention now e = ltb ((e.1).available_at + retention) now

-- `_evict`
unfoldable pub evict : Duration → Instant → Dict EvidenceEvent → Dict EvidenceEvent
evict retention now store = select (λ e. not (is_expired retention now e)) store

-- What was raised leaves the method before `_evict`.
abbrev pub after_round :
    Instant → EvidenceCollector → Round → Checked PollError (List SourceFailure) × EvidenceCollector
after_round now k (accepted failures, c, store) =
    (accepted failures, record k { coordinator = c; store = evict k.retention now store })
after_round now k (rejected error, c, store) =
    (rejected error, record k { coordinator = c; store = store })

-- `_poll_sources`, with the collector's reading of the clock and those of the coordinator
unfoldable pub poll_sources :
    Instant
    → (ℕ → Instant)
    → EvidenceCollector
    → Checked PollError (List SourceFailure) × EvidenceCollector
poll_sources now clock k = after_round now k (poll_each k.adapters clock k.coordinator k.store)

-- `{symbol.strip().upper() for symbol in symbols if symbol.strip()}`, as a list
unfoldable pub focus_of : List Text → List Text
focus_of symbols =
    map (λ s. map to_upper (strip s)) (select (λ s. not (is_none_left (strip s))) symbols)

abbrev pub is_member : List Text → Text → Bool
is_member names t = exists (λ n. text_eq n t) names

-- `_is_in_scope`
unfoldable pub is_in_scope : List Text → EvidenceEvent → Bool
is_in_scope focus e =
    exists (λ r. is_member focus r.0 && ltb 0 r.1) e.symbol_relevance
    || (not (is_none_left e.macro_tags) || not (is_none_left e.geopolitical_tags))

abbrev pub is_selected : List Text → EvidenceEvent → Bool
is_selected [] e = true
is_selected (s ∷ ss) e = is_in_scope (s ∷ ss) e

-- A stable sort: an item goes before the first that is not strictly before it.
unfoldable pub insert_by : {A : Type 0} → (A → A → Bool) → A → List A → List A
insert_by before x [] = x ∷ []
insert_by before x (y ∷ ys) =
    let rest = insert_by before x ys in if before y x then y ∷ rest else x ∷ y ∷ ys

unfoldable pub sort_by : {A : Type 0} → (A → A → Bool) → List A → List A
sort_by before [] = []
sort_by before (x ∷ xs) = insert_by before x (sort_by before xs)

abbrev pub has_lower_id : EvidenceEvent → EvidenceEvent → Bool
has_lower_id a b = text_lt a.event_id b.event_id

-- By `(available_at, published_at)`, reversed
abbrev pub is_newer : EvidenceEvent → EvidenceEvent → Bool
is_newer a b =
    ltb b.available_at a.available_at
    || (b.available_at == a.available_at && ltb b.published_at a.published_at)

unfoldable pub order_events : List EvidenceEvent → List EvidenceEvent
order_events events = sort_by is_newer (sort_by has_lower_id events)

-- `f"{age:.0f}"` for an age in microseconds: the nearest second, a half to the even one
unfoldable pub rounded_seconds : Duration → ℕ
rounded_seconds age =
    let whole = age / 1000000 in
    let rest = age % 1000000 * 2 in
    if ltb rest 1000000 then whole else if ltb 1000000 rest then whole + 1 else whole + whole % 2

unfoldable pub stamp : Duration → Duration → EvidenceEvent → EvidenceEvent
stamp stale_after age e = record e {
  attributes =
      e.attributes
      ++ (codes "freshness_seconds", decimal (rounded_seconds age))
        ∷ (codes "stale", if ltb stale_after age then codes "true" else codes "false")
        ∷ [];
}

-- `_stamped` of an event, before what follows it: one that is not available yet raises.
unfoldable pub stamp_next :
    Duration
    → Instant
    → EvidenceEvent
    → Checked ReadError (List EvidenceEvent)
    → Checked ReadError (List EvidenceEvent)
stamp_next stale_after as_of e (rejected r) = rejected r
stamp_next stale_after as_of e (accepted rest) =
    if ltb as_of e.available_at
    then rejected not_yet_available
    else accepted (stamp stale_after (as_of - e.available_at) e ∷ rest)

unfoldable pub stamp_all :
    Duration → Instant → List EvidenceEvent → Checked ReadError (List EvidenceEvent)
stamp_all stale_after as_of [] = accepted []
stamp_all stale_after as_of (e ∷ es) =
    stamp_next stale_after as_of e (stamp_all stale_after as_of es)

-- The values of the store that a reader is about to see.
unfoldable pub selected_events : List Text → Dict EvidenceEvent → List EvidenceEvent
selected_events focus store = select (is_selected focus) (map (λ e. e.1) store)

unfoldable pub evidence :
    List Text → Instant → EvidenceCollector → Checked ReadError (List EvidenceEvent)
evidence symbols as_of k =
    stamp_all k.stale_after as_of (order_events (selected_events (focus_of symbols) k.store))

-- `refresh` and then `evidence`
abbrev pub unless_failed :
    Checked PollError (List SourceFailure)
    → Checked ReadError (List EvidenceEvent)
    → Checked ReadError (List EvidenceEvent)
unless_failed (rejected error) read = rejected (uncaught error)
unless_failed (accepted []) read = read
unless_failed (accepted (f ∷ fs)) read = rejected (unavailable (f ∷ fs))

unfoldable pub collect :
    List Text
    → Instant
    → (ℕ → Instant)
    → Instant
    → EvidenceCollector
    → Checked ReadError (List EvidenceEvent) × EvidenceCollector
collect symbols now clock as_of k =
    let (failures, l) = poll_sources now clock k in
    (unless_failed failures (evidence symbols as_of l), l)

abbrev pub with_failures :
    Checked PollError (List SourceFailure)
    → Checked ReadError (List EvidenceEvent)
    → Checked ReadError (List EvidenceEvent × List SourceFailure)
with_failures (rejected error) read = rejected (uncaught error)
with_failures (accepted failures) (rejected r) = rejected r
with_failures (accepted failures) (accepted (e ∷ es)) = accepted (e ∷ es, failures)
with_failures (accepted []) (accepted []) = accepted ([], [])
with_failures (accepted (f ∷ fs)) (accepted []) = rejected (unavailable (f ∷ fs))

unfoldable pub collect_with_failures :
    List Text
    → Instant
    → (ℕ → Instant)
    → Instant
    → EvidenceCollector
    → Checked ReadError (List EvidenceEvent × List SourceFailure) × EvidenceCollector
collect_with_failures symbols now clock as_of k =
    let (failures, l) = poll_sources now clock k in
    (with_failures failures (evidence symbols as_of l), l)
