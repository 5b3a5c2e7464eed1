-- ===== src/Feeds/Coordinator/Steps.antt =====
-- The steps that threads take on one `PollingCoordinator`: each holds its lock, and the calls of the
-- network lie between them. A run is one order of them.
use us_stock_helper.Prelude.{
  Text, text_eq, ◌≡◌, refl, false, Option, none, some, List, [], ◌∷◌, get_key, set_key,
  get_key-set_key, get_key-set_other,
}
use us_stock_helper.Feeds.Events.{Instant, Duration}
use us_stock_helper.Feeds.Coordinator.{
  PollingCoordinator, AdapterState, Batch, state_of, reserve_poll, commit_poll, commit_found,
}

pub data PollStep : Type 0 where
  reserve_step : Text → Duration → Instant → PollStep
  commit_step : Text → Batch → PollStep

abbrev pub step_adapter : PollStep → Text
step_adapter (reserve_step id interval now) = id
step_adapter (commit_step id batch) = id

unfoldable pub apply_step : PollStep → PollingCoordinator → PollingCoordinator
apply_step (reserve_step id interval now) c = (reserve_poll id interval now c).1
apply_step (commit_step id batch) c = (commit_poll id batch c).1

unfoldable pub run_steps : List PollStep → PollingCoordinator → PollingCoordinator
run_steps [] c = c
run_steps (s ∷ ss) c = run_steps ss (apply_step s c)

pub state_of-set_key :
    (id : Text) (s : AdapterState) (c : PollingCoordinator) → state_of id (set_key id s c) ≡ s
unfolding state_of
state_of-set_key id s c = rw (get_key-set_key id s c)

pub state_of-set_other :
    (id j : Text) (s : AdapterState) (c : PollingCoordinator)
    → text_eq j id ≡ false
    → state_of id (set_key j s c) ≡ state_of id c
unfolding state_of
state_of-set_other id j s c h = rw (get_key-set_other id j s c h)

commit_other :
    (id j : Text) (batch : Batch) (c : PollingCoordinator) (found : Option AdapterState)
    → text_eq j id ≡ false
    → state_of id (commit_found j batch c found).1 ≡ state_of id c
unfolding commit_found
commit_other id j batch c none h = refl
commit_other id j batch c (some state) h = state_of-set_other id j _ c h

-- A step of one adapter leaves the state of another as it is.
pub step_other :
    (id : Text) (s : PollStep) (c : PollingCoordinator)
    → text_eq (step_adapter s) id ≡ false
    → state_of id (apply_step s c) ≡ state_of id c
unfolding apply_step reserve_poll commit_poll
step_other id (reserve_step j interval now) c h = state_of-set_other id j _ c h
step_other id (commit_step j batch) c h = commit_other id j batch c (get_key j c) h
