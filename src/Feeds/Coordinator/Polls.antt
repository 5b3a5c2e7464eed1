-- ===== src/Feeds/Coordinator/Polls.antt =====
-- coordinator.py: a whole run of the sections of `poll`, and what one poll leaves.
use us_stock_helper.Prelude.{
  Text, text_eq, eq-text_eq, ◌≡◌, refl, ap, sym, ◌∙◌, subst, Bool-cases, inl, inr, Option, none,
  some, List, [], ◌∷◌, ◌++◌, arith, if◌then◌else◌, get_key,
}
use us_stock_helper.Feeds.Events.{EvidenceEvent, Instant, Duration}
use us_stock_helper.Feeds.Coordinator.{
  PollingCoordinator, AdapterState, Batch, state_of, is_retryable, succeed, commit_state,
  commit_found, commit_poll, reserve_poll, reserve_state, state_or_new,
}
use us_stock_helper.Feeds.Coordinator.Steps.{
  PollStep, reserve_step, commit_step, apply_step, state_of-set_key, step_other,
}
use us_stock_helper.Feeds.Coordinator.Publishing.{
  hashes, changes, final, hash_of, changes-append, publish-changes, publish-final,
}

abbrev none_is_empty : Option (List EvidenceEvent) → List EvidenceEvent
none_is_empty none = []
none_is_empty (some es) = es

-- The events that a step publishes for the adapter.
unfoldable pub step_published : Text → PollStep → PollingCoordinator → List EvidenceEvent
step_published id (reserve_step j interval now) c = []
step_published id (commit_step j batch) c =
    if text_eq j id then none_is_empty (commit_poll j batch c).0 else []

-- A batch that the coordinator takes: of an adapter that it knows, and no failure.
unfoldable pub taken : Option AdapterState → Batch → List EvidenceEvent
taken none batch = []
taken (some state) batch = if is_retryable batch.metadata.status_code then [] else batch.events

-- The events that a step brings in for the adapter.
unfoldable pub step_reported : Text → PollStep → PollingCoordinator → List EvidenceEvent
step_reported id (reserve_step j interval now) c = []
step_reported id (commit_step j batch) c = if text_eq j id then taken (get_key j c) batch else []

unfoldable pub published_by : Text → List PollStep → PollingCoordinator → List EvidenceEvent
published_by id [] c = []
published_by id (s ∷ ss) c = step_published id s c ++ published_by id ss (apply_step s c)

unfoldable pub reported_by : Text → List PollStep → PollingCoordinator → List EvidenceEvent
reported_by id [] c = []
reported_by id (s ∷ ss) c = step_reported id s c ++ reported_by id ss (apply_step s c)

-- The content that the adapter is recorded to have published for the claim.
abbrev pub recorded_hash : Text → Text → PollingCoordinator → Option Text
recorded_hash id claim c = hash_of (get_key claim (state_of id c).published)

hashes-append :
    (claim : Text) (xs ys : List EvidenceEvent)
    → hashes claim (xs ++ ys) ≡ hashes claim xs ++ hashes claim ys
unfolding hashes
hashes-append claim [] ys = refl
hashes-append claim (x ∷ xs) ys = ground (arith, hashes-append claim xs ys)

-- A step publishes the changes among what it brings in, and records the last content.
record IsFaithfulStep (id claim : Text) (s : PollStep) (c : PollingCoordinator) : Type 0 where
  publishes :
      hashes claim (step_published id s c)
      ≡ changes (recorded_hash id claim c) (hashes claim (step_reported id s c))
  records :
      recorded_hash id claim (apply_step s c)
      ≡ final (recorded_hash id claim c) (hashes claim (step_reported id s c))

reserve_state-published :
    (interval : Duration) (now : Instant) (state : AdapterState)
    → (reserve_state interval now state).1.published ≡ state.published
unfolding reserve_state
reserve_state-published interval now state = ground arith

reserve_published :
    (id j claim : Text) (interval : Duration) (now : Instant) (c : PollingCoordinator)
    → recorded_hash id claim (reserve_poll j interval now c).1 ≡ recorded_hash id claim c
unfolding reserve_poll apply_step
reserve_published id j claim interval now c = elim (Bool-cases (text_eq j id)) [
  | inl same ↦
      subst (λ k. recorded_hash k claim (reserve_poll j interval now c).1 ≡ recorded_hash k claim c)
        (eq-text_eq j id same)
        (ap (λ st. hash_of (get_key claim st.published)) (state_of-set_key j _ c)
          ∙ ap (λ d. hash_of (get_key claim d))
              (reserve_state-published interval now (state_of j c)))
  | inr other ↦
      ap (λ st. hash_of (get_key claim st.published))
        (step_other id (reserve_step j interval now) c other)
]

-- The second section, on the state that it finds.
commit_state-changes :
    (claim : Text) (batch : Batch) (state : AdapterState)
    → (hashes claim (commit_state batch state).0
        ≡ changes
            (hash_of (get_key claim state.published))
            (hashes claim (taken (some state) batch)))
      × (hash_of (get_key claim (commit_state batch state).1.published)
          ≡ final
              (hash_of (get_key claim state.published))
              (hashes claim (taken (some state) batch)))
unfolding commit_state taken succeed hashes changes final
commit_state-changes claim batch state =
    elim (Bool-cases (is_retryable batch.metadata.status_code)) [
      | inl again ↦ rw again (refl, refl)
      | inr done ↦ rw done (
        publish-changes claim batch.events state.published,
        publish-final claim batch.events state.published,
      )
    ]

-- What a commit of the adapter `j` shows of the adapter `id`, where they are the same.
abbrev CommitShows : Text → Text → Text → Batch → PollingCoordinator → Option AdapterState → Type 0
CommitShows id claim j batch c found =
    (hashes claim (none_is_empty (commit_found j batch c found).0)
      ≡ changes (recorded_hash id claim c) (hashes claim (taken found batch)))
    × (recorded_hash id claim (commit_found j batch c found).1
        ≡ final (recorded_hash id claim c) (hashes claim (taken found batch)))

commit_shows :
    (claim j : Text) (batch : Batch) (c : PollingCoordinator) (found : Option AdapterState)
    → found ≡ get_key j c
    → CommitShows j claim j batch c found
unfolding commit_found taken hashes changes final state_of
commit_shows claim j batch c none e = (refl, refl)
commit_shows claim j batch c (some state) e =
    let it = commit_state-changes claim batch state in
    let same = ap (λ o. hash_of (get_key claim (state_or_new o).published)) e in
    (
      it.0 ∙ ap (λ l. changes l (hashes claim (taken (some state) batch))) same,
      ap (λ st. hash_of (get_key claim st.published)) (state_of-set_key j _ c)
          ∙ it.1
          ∙ ap (λ l. final l (hashes claim (taken (some state) batch))) same,
    )

step_faithful :
    (id claim : Text) (s : PollStep) (c : PollingCoordinator) → IsFaithfulStep id claim s c
unfolding step_published step_reported apply_step commit_poll hashes changes final
step_faithful id claim (reserve_step j interval now) c = record {
  publishes = refl;
  records = reserve_published id j claim interval now c;
}
step_faithful id claim (commit_step j batch) c = elim (Bool-cases (text_eq j id)) [
  | inl same ↦
      let it =
        subst (λ k. CommitShows k claim j batch c (get_key j c)) (eq-text_eq j id same)
          (commit_shows claim j batch c (get_key j c) refl) in
      record { publishes = rw same it.0; records = rw same it.1 }
  | inr other ↦ record {
    publishes = rw other refl;
    records = rw other (
        ap (λ st. hash_of (get_key claim st.published))
          (step_other id (commit_step j batch) c other));
  }
]

-- Whatever order the sections of the threads take, what an adapter publishes of a claim are the
-- changes of its content: the contents that the taken batches report for it, without those that
-- repeat the one before, which for the first is the one on record.
pub published_by-changes :
    (id claim : Text) (steps : List PollStep) (c : PollingCoordinator)
    → hashes claim (published_by id steps c)
      ≡ changes (recorded_hash id claim c) (hashes claim (reported_by id steps c))
unfolding published_by reported_by hashes changes
published_by-changes id claim [] c = refl
published_by-changes id claim (s ∷ ss) c =
    let it = step_faithful id claim s c in
    let first = hashes claim (step_reported id s c) in
    let later = hashes claim (reported_by id ss (apply_step s c)) in
    hashes-append claim (step_published id s c) (published_by id ss (apply_step s c))
    ∙ ap (λ hs. hs ++ hashes claim (published_by id ss (apply_step s c))) it.publishes
    ∙ ap (λ hs. changes (recorded_hash id claim c) first ++ hs)
        (published_by-changes id claim ss (apply_step s c) ∙ ap (λ l. changes l later) it.records)
    ∙ sym (changes-append (recorded_hash id claim c) first later)
    ∙ ap (changes (recorded_hash id claim c))
        (sym (hashes-append claim (step_reported id s c) (reported_by id ss (apply_step s c))))
