-- ===== src/Feeds/Coordinator/Spacing.antt =====
-- coordinator.py: how often a feed is asked, whatever the threads do.
use us_stock_helper.Prelude.{
  ◌+◌, ◌≤◌, ◌<◌, Text, text_eq, eq-text_eq, ◌≡◌, refl, subst, Bool-cases, inl, inr, Option, none,
  some, List, [], ◌∷◌, ◌++◌, All, arith, if◌then◌else◌, get_key,
}
use us_stock_helper.Prelude.{◌⊎◌, ◌∙◌, ◌-◌, false, ap}
use us_stock_helper.Feeds.Events.{Instant, Duration}
use us_stock_helper.Feeds.Coordinator.{
  state_or_new, PollingCoordinator, AdapterState, Batch, Reserved, throttled, granted, is_too_soon,
  state_of, reserve_poll, reserve_state, commit_poll, commit_state, commit_found, succeed,
}
use us_stock_helper.Feeds.Coordinator.Steps.{
  PollStep, reserve_step, commit_step, apply_step, state_of-set_key, step_other,
}

abbrev grant_of : Instant → Reserved → List Instant
grant_of now (throttled wait) = []
grant_of now (granted validators failures) = now ∷ []

-- The time of the step, if it is a granted reservation of the adapter.
unfoldable pub step_grant : Text → PollStep → PollingCoordinator → List Instant
step_grant id (reserve_step j interval now) c =
    if text_eq j id then grant_of now (reserve_poll j interval now c).0 else []
step_grant id (commit_step j batch) c = []

-- The times at which the adapter is let through to the network.
unfoldable pub grants : Text → List PollStep → PollingCoordinator → List Instant
grants id [] c = []
grants id (s ∷ ss) c = step_grant id s c ++ grants id ss (apply_step s c)

abbrev pub Follows : Duration → Option Instant → Instant → Type 0
Follows interval none t = Unit
Follows interval (some last) t = last + interval ≤ t

-- Each time is at least an interval after the one before it, the first after `last`.
abbrev pub Spaced : Duration → Option Instant → List Instant → Type 0
Spaced interval last [] = Unit
Spaced interval last (t ∷ ts) = Follows interval last t × Spaced interval (some t) ts

-- A reservation of the adapter applies this interval.
abbrev pub Applies : Text → Duration → PollStep → Type 0
Applies id interval (reserve_step j i now) = j ≡ id → i ≡ interval
Applies id interval (commit_step j batch) = Unit

-- When the adapter was let through last.
abbrev pub last_polled : Text → PollingCoordinator → Option Instant
last_polled id c = (state_of id c).last_polled_at

commit_state-last :
    (batch : Batch) (state : AdapterState)
    → (commit_state batch state).1.last_polled_at ≡ state.last_polled_at
unfolding commit_state succeed
commit_state-last batch state = ground arith

commit_last :
    (id : Text) (batch : Batch) (c : PollingCoordinator) (found : Option AdapterState)
    → found ≡ get_key id c
    → last_polled id (commit_found id batch c found).1 ≡ last_polled id c
unfolding commit_found state_of
commit_last id batch c none e = refl
commit_last id batch c (some state) e =
    ap (λ st. st.last_polled_at) (state_of-set_key id (commit_state batch state).1 c)
    ∙ commit_state-last batch state
    ∙ ap (λ o. (state_or_new o).last_polled_at) e

follows_lem :
    (interval : Duration) (last : Option Instant) (now : Instant)
    → is_too_soon last interval now ≡ false
    → Follows interval last now
follows_lem interval none now h = tt
follows_lem interval (some last) now h = ground arith

-- A reservation of the adapter itself: let through in time, and then recorded.
reserve-Spaced :
    (interval : Duration) (now : Instant) (state : AdapterState) (ts : List Instant)
    → let r = reserve_state interval now state in
      Spaced interval r.1.last_polled_at ts
      → Spaced interval state.last_polled_at (grant_of now r.0 ++ ts)
unfolding reserve_state
reserve-Spaced interval now state ts =
    elim (Bool-cases (is_too_soon state.last_polled_at interval now)) [
      | inl soon ↦ rw soon (λ h. h)
      | inr late ↦ rw late (λ h. (follows_lem interval state.last_polled_at now late, h))
    ]

-- The same of the two sections under the lock.
reserve_poll-Spaced :
    (id : Text) (interval : Duration) (now : Instant) (c : PollingCoordinator) (ts : List Instant)
    → Spaced interval (last_polled id (reserve_poll id interval now c).1) ts
    → Spaced interval (last_polled id c) (grant_of now (reserve_poll id interval now c).0 ++ ts)
unfolding reserve_poll
reserve_poll-Spaced id interval now c ts h =
    reserve-Spaced interval now (state_of id c) ts
      (subst (λ st. Spaced interval st.last_polled_at ts) (state_of-set_key id _ c) h)

commit-last :
    (id j : Text) (batch : Batch) (c : PollingCoordinator)
    → last_polled id (commit_poll j batch c).1 ≡ last_polled id c
unfolding commit_poll apply_step
commit-last id j batch c = elim (Bool-cases (text_eq j id)) [
  | inl same ↦
      subst (λ k. last_polled k (commit_found j batch c (get_key j c)).1 ≡ last_polled k c)
        (eq-text_eq j id same) (commit_last j batch c (get_key j c) refl)
  | inr other ↦ ap (λ st. st.last_polled_at) (step_other id (commit_step j batch) c other)
]

step-Spaced :
    (id : Text) (interval : Duration) (s : PollStep) (c : PollingCoordinator) (ts : List Instant)
    → Applies id interval s
    → Spaced interval (last_polled id (apply_step s c)) ts
    → Spaced interval (last_polled id c) (step_grant id s c ++ ts)
unfolding step_grant apply_step
step-Spaced id interval (commit_step j batch) c ts applies h =
    subst (λ last. Spaced interval last ts) (commit-last id j batch c) h
step-Spaced id interval (reserve_step j i now) c ts applies h = elim (Bool-cases (text_eq j id)) [
  | inl same ↦ rw same (
      subst
        (λ k.
          Spaced interval (last_polled k (reserve_poll j i now c).1) ts
          → Spaced interval (last_polled k c) (grant_of now (reserve_poll j i now c).0 ++ ts))
        (eq-text_eq j id same)
        (subst
          (λ n.
            Spaced n (last_polled j (reserve_poll j i now c).1) ts
            → Spaced n (last_polled j c) (grant_of now (reserve_poll j i now c).0 ++ ts))
          (applies (eq-text_eq j id same)) (reserve_poll-Spaced j i now c ts))
        h)
  | inr other ↦ rw other (
      subst (λ st. Spaced interval st.last_polled_at ts)
        (step_other id (reserve_step j i now) c other) h)
]

-- The times at which an adapter is let through to the network are spaced by its interval, whatever
-- order the sections of the threads take, and whatever the clock does.
pub grants-Spaced :
    (id : Text) (interval : Duration) (steps : List PollStep) (c : PollingCoordinator)
    → All (Applies id interval) steps
    → Spaced interval (last_polled id c) (grants id steps c)
unfolding grants
grants-Spaced id interval [] c h = tt
grants-Spaced id interval (s ∷ ss) c (h, hs) =
    step-Spaced id interval s c _ h (grants-Spaced id interval ss (apply_step s c) hs)

wait_state :
    (interval : Duration) (now later : Instant) (wait : Duration) (state : AdapterState)
    → (reserve_state interval now state).0 ≡ throttled wait
    → ((now + wait ≤ later)
        × ((reserve_state interval later (reserve_state interval now state).1).0
            ≡ granted state.validators state.consecutive_failures))
      ⊎ ((later < now + wait)
          × ((reserve_state interval later (reserve_state interval now state).1).0
              ≡ throttled (now + wait - later)))
unfolding reserve_state
wait_state interval now later wait state h = ground arith

-- A throttled caller is told exactly how long: asked again from then on, the adapter is let through,
-- and before that the caller is told what is left of the wait.
pub wait_exact :
    (id : Text) (interval : Duration) (now later : Instant) (wait : Duration)
    (c : PollingCoordinator)
    → (reserve_poll id interval now c).0 ≡ throttled wait
    → let again = reserve_poll id interval later (reserve_poll id interval now c).1 in
      ((now + wait ≤ later)
        × (again.0 ≡ granted (state_of id c).validators (state_of id c).consecutive_failures))
      ⊎ ((later < now + wait) × (again.0 ≡ throttled (now + wait - later)))
unfolding reserve_poll
wait_exact id interval now later wait c h =
    rw (state_of-set_key id (reserve_state interval now (state_of id c)).1 c)
      (wait_state interval now later wait (state_of id c) h)
