-- ===== src/Feeds/Snapshot/Restart.antt =====
-- coordinator.py: whatever the threads have done, a restart from the snapshot forgets nothing.
use us_stock_helper.Prelude.{
  Text, ◌≡◌, refl, Bool-cases, Option-cases, Option, none, some, List, [], ◌∷◌, Dict, get_key,
  set_key, inl, inr,
}
use us_stock_helper.Prelude.Checked.{accepted}
use us_stock_helper.Prelude.Keys.{IsDict, set_key-IsDict, All-set_key, All-get_key}
use us_stock_helper.Feeds.Events.{Instant, Duration, EvidenceEvent}
use us_stock_helper.Feeds.Coordinator.{
  PollingCoordinator, AdapterState, PublishedRecord, Batch, state_of, is_too_soon, reserve_state,
  reserve_poll, is_retryable, is_same, publish, succeed, commit_state, commit_found, commit_poll,
}
use us_stock_helper.Feeds.Coordinator.Steps.{
  PollStep, reserve_step, commit_step, apply_step, run_steps,
}
use us_stock_helper.Feeds.Snapshot.{PythonTexts, from_snapshot, snapshot}
use us_stock_helper.Feeds.Snapshot.RoundTrip.{IsIsoFormat, HasKeysOnce, from_snapshot-snapshot}

publish-IsDict :
    (items : List EvidenceEvent) (d : Dict PublishedRecord) → IsDict d → IsDict (publish items d).1
unfolding publish
publish-IsDict [] d h = h
publish-IsDict (i ∷ items) d h =
    elim (Bool-cases (is_same (get_key i.claim_key d) i.content_hash)) [
      | inl same ↦ rw same (publish-IsDict items d h)
      | inr other ↦ rw other (publish-IsDict items _ (set_key-IsDict i.claim_key _ d h))
    ]

abbrev Once : AdapterState → Type 0
Once s = IsDict s.published

reserve_state-Once :
    (interval : Duration) (now : Instant) (s : AdapterState)
    → Once s
    → Once (reserve_state interval now s).1
unfolding reserve_state
reserve_state-Once interval now s h =
    elim (Bool-cases (is_too_soon s.last_polled_at interval now)) [
      | inl soon ↦ rw soon h
      | inr free ↦ rw free h
    ]

commit_state-Once : (batch : Batch) (s : AdapterState) → Once s → Once (commit_state batch s).1
unfolding commit_state succeed
commit_state-Once batch s h = elim (Bool-cases (is_retryable batch.metadata.status_code)) [
  | inl again ↦ rw again h
  | inr fine ↦ rw fine (publish-IsDict batch.events s.published h)
]

state_of-Once : (id : Text) (c : PollingCoordinator) → HasKeysOnce c → Once (state_of id c)
unfolding state_of
state_of-Once id c (keys, claims) = elim (Option-cases (get_key id c)) [
  | inl missing ↦ rw missing tt
  | inr (s, e) ↦ rw e (All-get_key Once id s c claims e)
]

set_key-HasKeysOnce :
    (id : Text) (s : AdapterState) (c : PollingCoordinator)
    → Once s
    → HasKeysOnce c
    → HasKeysOnce (set_key id s c)
set_key-HasKeysOnce id s c h (keys, claims) =
    (set_key-IsDict id s c keys, All-set_key Once id s c h claims)

commit_found-HasKeysOnce :
    (id : Text) (batch : Batch) (c : PollingCoordinator) (found : Option AdapterState)
    → get_key id c ≡ found
    → HasKeysOnce c
    → HasKeysOnce (commit_found id batch c found).1
unfolding commit_found
commit_found-HasKeysOnce id batch c none e h = h
commit_found-HasKeysOnce id batch c (some s) e h =
    set_key-HasKeysOnce id (commit_state batch s).1 c
      (commit_state-Once batch s (All-get_key Once id s c h.1 e)) h

step-HasKeysOnce :
    (s : PollStep) (c : PollingCoordinator) → HasKeysOnce c → HasKeysOnce (apply_step s c)
unfolding apply_step reserve_poll commit_poll
step-HasKeysOnce (reserve_step id interval now) c h =
    set_key-HasKeysOnce id (reserve_state interval now (state_of id c)).1 c
      (reserve_state-Once interval now (state_of id c) (state_of-Once id c h)) h
step-HasKeysOnce (commit_step id batch) c h =
    commit_found-HasKeysOnce id batch c (get_key id c) refl h

-- A run keeps every key once.
pub run-HasKeysOnce :
    (steps : List PollStep) (c : PollingCoordinator)
    → HasKeysOnce c
    → HasKeysOnce (run_steps steps c)
unfolding run_steps
run-HasKeysOnce [] c h = h
run-HasKeysOnce (s ∷ ss) c h = run-HasKeysOnce ss (apply_step s c) (step-HasKeysOnce s c h)

-- Whatever order the sections of the threads take from a new coordinator, the snapshot of what they
-- leave is read back as just that; when `fromisoformat` reads what `isoformat` writes.
pub restart_keeps :
    (py : PythonTexts) (steps : List PollStep)
    → IsIsoFormat py
    → from_snapshot py (snapshot py (run_steps steps [])) ≡ accepted (run_steps steps [])
restart_keeps py steps law =
    from_snapshot-snapshot py (run_steps steps []) law (run-HasKeysOnce steps [] (tt, tt))
