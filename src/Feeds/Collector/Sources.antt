-- ===== src/Feeds/Collector/Sources.antt =====
-- collector.py, `_poll_sources`: what one source answers does not depend on the others.
use us_stock_helper.Prelude.{
  ℕ, suc, Text, text_eq, ◌≡◌, refl, sym, ap, subst, ◌∙◌, Bool, false, Option, none, some, List, [],
  ◌∷◌, All, Dict, set_key, inl, inr,
}
use us_stock_helper.Prelude.Checked.{Checked, accepted, rejected, accepted_inj, rejected_inj}
use us_stock_helper.Feeds.Events.{Instant, EvidenceEvent}
use us_stock_helper.Feeds.Coordinator.{
  PollingCoordinator, AdapterState, FeedAdapter, PollOutcome, PollError, failed, Reserved,
  throttled, granted, Batch, state_of, reserve_poll, reserve_state, commit_poll, answer_commit,
  after_fetch, after_reserve, poll, is_too_soon, polled, commit_state, FeedPollMetadata,
}
use us_stock_helper.Feeds.Coordinator.Steps.{
  commit_step, step_other, apply_step, state_of-set_other,
}
use us_stock_helper.Feeds.Coordinator.Outcomes.{Ends, poll-Ends, reserved_at}
use us_stock_helper.Feeds.Collector.{
  SourceFailure, Answer, Round, answer_of, after_answer, with_earlier, store_events, poll_each,
}

-- No two adapters have one name.
abbrev pub AreDistinct : List FeedAdapter → Type 0
AreDistinct [] = Unit
AreDistinct (a ∷ adapters) =
    All (λ b. text_eq a.adapter_id b.adapter_id ≡ false) adapters × AreDistinct adapters

-- What each source answers when it is asked with the coordinator as it is at first.
unfoldable pub answers_apart : List FeedAdapter → (ℕ → Instant) → PollingCoordinator → List Answer
answers_apart [] clock c = []
answers_apart (a ∷ adapters) clock c =
    answer_of a.adapter_id (poll a (clock 0) c).0 ∷ answers_apart adapters (λ n. clock (suc n)) c

-- All failures in order, or the first error that is not caught.
unfoldable pub all_failures : List Answer → Checked PollError (List SourceFailure)
all_failures [] = accepted []
all_failures (rejected error ∷ answers) = rejected error
all_failures (accepted (failures, events) ∷ answers) = with_earlier failures (all_failures answers)

-- The events of the answers before the first error that is not caught, in a store.
unfoldable pub stored_before : List Answer → Dict EvidenceEvent → Dict EvidenceEvent
stored_before [] store = store
stored_before (rejected error ∷ answers) store = store
stored_before (accepted (failures, events) ∷ answers) store =
    stored_before answers (store_events events store)

-- A state of the adapter leaves one way to end.
Ends-same :
    (soon : Bool) (a : FeedAdapter) (now : Instant) (before : AdapterState) (o u : PollOutcome)
    (l m : AdapterState)
    → Ends soon a now before o l
    → Ends soon a now before u m
    → o ≡ u
Ends-same soon a now before o u l m (inl (s, e, f)) (inl (t, g, h)) = e ∙ sym g
Ends-same soon a now before o u l m (inl (s, e, f)) (inr (inl (x, t, q, g, h))) = cc
Ends-same soon a now before o u l m (inl (s, e, f)) (inr (inr (b, t, q, g, h))) = cc
Ends-same soon a now before o u l m (inr (inl (x, s, p, e, f))) (inl (t, g, h)) = cc
Ends-same soon a now before o u l m (inr (inl (x, s, p, e, f))) (inr (inl (y, t, q, g, h))) =
    e ∙ ap failed (rejected_inj x y (sym p ∙ q)) ∙ sym g
Ends-same soon a now before o u l m (inr (inl (x, s, p, e, f))) (inr (inr (b, t, q, g, h))) = cc
Ends-same soon a now before o u l m (inr (inr (b, s, p, e, f))) (inl (t, g, h)) = cc
Ends-same soon a now before o u l m (inr (inr (b, s, p, e, f))) (inr (inl (y, t, q, g, h))) = cc
Ends-same soon a now before o u l m (inr (inr (b, s, p, e, f))) (inr (inr (d, t, q, g, h))) =
    e
    ∙ ap (λ x. polled (commit_state x (reserved_at now before)).0 x.metadata)
        (accepted_inj b d (sym p ∙ q))
    ∙ sym g

-- What a poll answers depends on the state of its adapter only.
poll_local :
    (a : FeedAdapter) (now : Instant) (c d : PollingCoordinator)
    → state_of a.adapter_id c ≡ state_of a.adapter_id d
    → (poll a now d).0 ≡ (poll a now c).0
poll_local a now c d same =
    Ends-same (is_too_soon (state_of a.adapter_id c).last_polled_at a.interval now) a now
      (state_of a.adapter_id c) (poll a now d).0 (poll a now c).0
      (state_of a.adapter_id (poll a now d).1) (state_of a.adapter_id (poll a now c).1)
      (subst
        (λ s.
          Ends (is_too_soon s.last_polled_at a.interval now) a now s (poll a now d).0
            (state_of a.adapter_id (poll a now d).1))
        (sym same) (poll-Ends a now d))
      (poll-Ends a now c)

answered_state :
    (m : FeedPollMetadata) (r : Option (List EvidenceEvent) × PollingCoordinator)
    → (answer_commit m r).1 ≡ r.1
unfolding answer_commit
answered_state m (none, c) = refl
answered_state m (some events, c) = refl

after_fetch_other :
    (id j : Text) (answer : Checked PollError Batch) (c : PollingCoordinator)
    → text_eq j id ≡ false
    → state_of id (after_fetch j answer c).1 ≡ state_of id c
unfolding after_fetch apply_step
after_fetch_other id j (rejected e) c h = refl
after_fetch_other id j (accepted batch) c h =
    ap (state_of id) (answered_state batch.metadata (commit_poll j batch c))
    ∙ step_other id (commit_step j batch) c h

after_reserve_other :
    (id : Text) (a : FeedAdapter) (r : Reserved) (c : PollingCoordinator)
    → text_eq a.adapter_id id ≡ false
    → state_of id (after_reserve a (r, c)).1 ≡ state_of id c
unfolding after_reserve
after_reserve_other id a (throttled wait) c h = refl
after_reserve_other id a (granted validators failures) c h =
    after_fetch_other id a.adapter_id (a.poll validators failures) c h

-- A poll leaves the state of another adapter as it is.
poll_other :
    (id : Text) (a : FeedAdapter) (now : Instant) (c : PollingCoordinator)
    → text_eq a.adapter_id id ≡ false
    → state_of id (poll a now c).1 ≡ state_of id c
unfolding poll reserve_poll
poll_other id a now c h =
    let r = reserve_state a.interval now (state_of a.adapter_id c) in
    after_reserve_other id a r.0 (set_key a.adapter_id r.1 c) h
    ∙ state_of-set_other id a.adapter_id r.1 c h

-- The two coordinators hold the same of each of the adapters.
abbrev Agree : List FeedAdapter → PollingCoordinator → PollingCoordinator → Type 0
Agree adapters c d = All (λ a. state_of a.adapter_id c ≡ state_of a.adapter_id d) adapters

Agree-poll :
    (a : FeedAdapter) (now : Instant) (adapters : List FeedAdapter) (c d : PollingCoordinator)
    → All (λ b. text_eq a.adapter_id b.adapter_id ≡ false) adapters
    → Agree adapters c d
    → Agree adapters c (poll a now d).1
Agree-poll a now [] c d apart h = tt
Agree-poll a now (b ∷ bs) c d (other, apart) (same, h) =
    (same ∙ sym (poll_other b.adapter_id a now d other), Agree-poll a now bs c d apart h)

-- The turn of one source, when the rest of the round comes to what the other answers say.
after_answer-apart :
    (answer : Answer) (c : PollingCoordinator) (store : Dict EvidenceEvent)
    (rest : PollingCoordinator → Dict EvidenceEvent → Round) (answers : List Answer)
    → ((kept : Dict EvidenceEvent)
        → ((rest c kept).0 ≡ all_failures answers) × ((rest c kept).2 ≡ stored_before answers kept))
    → let r = after_answer answer c store rest in
      (r.0 ≡ all_failures (answer ∷ answers)) × (r.2 ≡ stored_before (answer ∷ answers) store)
unfolding after_answer all_failures stored_before
after_answer-apart (rejected error) c store rest answers h = (refl, refl)
after_answer-apart (accepted (failures, events)) c store rest answers h =
    let (told, stored) = h (store_events events store) in (ap (with_earlier failures) told, stored)

poll_each_agreeing :
    (adapters : List FeedAdapter) (clock : ℕ → Instant) (c d : PollingCoordinator)
    (store : Dict EvidenceEvent)
    → AreDistinct adapters
    → Agree adapters c d
    → let r = poll_each adapters clock d store in
      let answers = answers_apart adapters clock c in
      (r.0 ≡ all_failures answers) × (r.2 ≡ stored_before answers store)
unfolding poll_each answers_apart all_failures stored_before
poll_each_agreeing [] clock c d store distinct h = (refl, refl)
poll_each_agreeing (a ∷ adapters) clock c d store (apart, distinct) (same, h) =
    let (outcome, left) = poll a (clock 0) d in
    let later : ℕ → Instant = λ n. clock (suc n) in
    rw (sym (poll_local a (clock 0) c d same)) (
      after_answer-apart (answer_of a.adapter_id outcome) left store (poll_each adapters later)
        (answers_apart adapters later c)
        (λ kept.
          poll_each_agreeing adapters later c left kept distinct
            (Agree-poll a (clock 0) adapters c d apart h)))

Agree-self : (adapters : List FeedAdapter) (c : PollingCoordinator) → Agree adapters c c
Agree-self [] c = tt
Agree-self (a ∷ adapters) c = (refl, Agree-self adapters c)

-- Of adapters with distinct names, each answers in a round what it would answer if it alone were asked.
-- The round tells all their failures, in order, and stores all their events; unless one raises an
-- error that is not caught: then the round raises the first such error, tells no failure of any
-- source, and keeps the events of the sources before.
pub poll_each-apart :
    (adapters : List FeedAdapter) (clock : ℕ → Instant) (c : PollingCoordinator)
    (store : Dict EvidenceEvent)
    → AreDistinct adapters
    → let r = poll_each adapters clock c store in
      let answers = answers_apart adapters clock c in
      (r.0 ≡ all_failures answers) × (r.2 ≡ stored_before answers store)
poll_each-apart adapters clock c store distinct =
    poll_each_agreeing adapters clock c c store distinct (Agree-self adapters c)
