-- ===== src/Feeds/Coordinator/Outcomes.antt =====
-- coordinator.py: how one call of `poll` ends, and the state of its adapter then.
use us_stock_helper.Prelude.{
  ◌≡◌, refl, Bool, true, false, Bool-cases, inl, inr, ◌⊎◌, some, set_key, get_key-set_key,
}
use us_stock_helper.Prelude.Checked.{Checked, accepted, rejected}
use us_stock_helper.Feeds.Events.{Instant}
use us_stock_helper.Feeds.Coordinator.{
  PollingCoordinator, AdapterState, Batch, FeedAdapter, state_of, PollOutcome, PollError, skipped,
  polled, failed, is_too_soon, time_left, commit_state, commit_found, commit_poll, reserve_poll,
  reserve_state, after_fetch, after_reserve, answer_commit, poll,
}
use us_stock_helper.Feeds.Coordinator.Steps.{state_of-set_key}

abbrev pub reserved_at : Instant → AdapterState → AdapterState
reserved_at now state = record state { last_polled_at = some now }

-- The three ways in which a poll ends, for the state of the adapter before it; `soon` says whether it
-- comes too soon.
abbrev pub Ends : Bool → FeedAdapter → Instant → AdapterState → PollOutcome → AdapterState → Type 0
Ends soon adapter now before outcome left =
    ((soon ≡ true)
      × (outcome ≡ skipped (time_left before.last_polled_at adapter.interval now))
      × (left ≡ before))
    ⊎ ((error : PollError) × (soon ≡ false)
        × (adapter.poll before.validators before.consecutive_failures ≡ rejected error)
        × (outcome ≡ failed error)
        × (left ≡ reserved_at now before))
    ⊎ ((batch : Batch) × (soon ≡ false)
        × (adapter.poll before.validators before.consecutive_failures ≡ accepted batch)
        × (outcome ≡ polled (commit_state batch (reserved_at now before)).0 batch.metadata)
        × (left ≡ (commit_state batch (reserved_at now before)).1))

fetch-Ends :
    (adapter : FeedAdapter) (now : Instant) (before : AdapterState) (c : PollingCoordinator)
    → (answer : Checked PollError Batch)
    → adapter.poll before.validators before.consecutive_failures ≡ answer
    → let r =
        after_fetch adapter.adapter_id answer
          (set_key adapter.adapter_id (reserved_at now before) c) in
      Ends false adapter now before r.0 (state_of adapter.adapter_id r.1)
unfolding after_fetch commit_poll answer_commit commit_found
fetch-Ends adapter now before c (rejected error) e =
    inr (inl (error, refl, e, refl, state_of-set_key adapter.adapter_id (reserved_at now before) c))
fetch-Ends adapter now before c (accepted batch) e =
    rw (get_key-set_key adapter.adapter_id (reserved_at now before) c)
      (inr (inr (batch, refl, e, refl, state_of-set_key adapter.adapter_id _ _)))

reserve-Ends :
    (adapter : FeedAdapter) (now : Instant) (c : PollingCoordinator) (before : AdapterState)
    → let r = reserve_state adapter.interval now before in
      let o = after_reserve adapter (r.0, set_key adapter.adapter_id r.1 c) in
      Ends
        (is_too_soon before.last_polled_at adapter.interval now)
        adapter
        now
        before
        o.0
        (state_of adapter.adapter_id o.1)
unfolding reserve_state after_reserve
reserve-Ends adapter now c before =
    elim (Bool-cases (is_too_soon before.last_polled_at adapter.interval now)) [
      | inl soon ↦ rw soon (inl (refl, refl, state_of-set_key adapter.adapter_id before c))
      | inr late ↦ rw late (fetch-Ends adapter now before c _ refl)
    ]

-- A poll ends in one of three ways, and never for want of the adapter's state. It is skipped with the
-- wait that is left, and the state of the adapter is as it was. The network call raises: then the
-- poll raises that error, and only the time of the reservation is noted. Or the batch is committed: then its events and the state are
-- those of the commit on the reserved state.
pub poll-Ends :
    (adapter : FeedAdapter) (now : Instant) (c : PollingCoordinator)
    → let r = poll adapter now c in
      Ends
        (is_too_soon (state_of adapter.adapter_id c).last_polled_at adapter.interval now)
        adapter
        now
        (state_of adapter.adapter_id c)
        r.0
        (state_of adapter.adapter_id r.1)
unfolding poll reserve_poll
poll-Ends adapter now c = reserve-Ends adapter now c (state_of adapter.adapter_id c)
