-- ===== src/Feeds/Collector/Reading.antt =====
-- collector.py, `evidence` and the two reads: everything in scope, newest first, with its age.
use us_stock_helper.Prelude.{
  ℕ, ◌-◌, ◌≤◌, Text, text_lt, ◌≡◌, refl, ap, sym, ◌∙◌, arith, Bool-cases, Bool, true, false, List,
  [], ◌∷◌, map, All, count_where, ltb, inl, inr, ◌⊎◌,
}
use us_stock_helper.Prelude.Checked.{Checked, accepted, rejected, accepted_inj}
use us_stock_helper.Feeds.Events.{Instant, Duration, EvidenceEvent}
use us_stock_helper.Feeds.Coordinator.{PollError}
use us_stock_helper.Feeds.Collector.{
  EvidenceCollector, SourceFailure, ReadError, unavailable, uncaught, has_lower_id, is_newer,
  sort_by, order_events, stamp, stamp_next, stamp_all, focus_of, selected_events, evidence,
  poll_sources, with_failures, collect_with_failures,
}
use us_stock_helper.Feeds.Collector.Sorting.{Pairwise, Ordered, sort_by-count, sort_by-Pairwise}

text_lt_asym : (a b : Text) → text_lt a b ≡ true → text_lt b a ≡ false
unfolding text_lt
text_lt_asym [] [] h = refl
text_lt_asym [] (b ∷ bs) h = refl
text_lt_asym (a ∷ as_) [] h = cc
text_lt_asym (a ∷ as_) (b ∷ bs) h = ground (arith, text_lt_asym as_ bs)

text_lt_negtrans : (a b c : Text) → text_lt b a ≡ false → text_lt c b ≡ false → text_lt c a ≡ false
unfolding text_lt
text_lt_negtrans [] [] [] h k = refl
text_lt_negtrans [] [] (c ∷ cs) h k = refl
text_lt_negtrans [] (b ∷ bs) [] h k = cc
text_lt_negtrans [] (b ∷ bs) (c ∷ cs) h k = refl
text_lt_negtrans (a ∷ as_) [] c h k = cc
text_lt_negtrans (a ∷ as_) (b ∷ bs) [] h k = cc
text_lt_negtrans (a ∷ as_) (b ∷ bs) (c ∷ cs) h k = ground (arith, text_lt_negtrans as_ bs cs)

newer_asym : (a b : EvidenceEvent) → is_newer a b ≡ true → is_newer b a ≡ false
newer_asym a b h = ground arith

newer_negtrans :
    (a b c : EvidenceEvent) → is_newer b a ≡ false → is_newer c b ≡ false → is_newer c a ≡ false
newer_negtrans a b c h k = ground arith

-- `b` does not come before `a`: it is not newer, and if neither is newer its id is not lower.
abbrev pub InReadingOrder : EvidenceEvent → EvidenceEvent → Type 0
InReadingOrder a b =
    (is_newer b a ≡ false) × ((is_newer a b ≡ true) ⊎ (text_lt b.event_id a.event_id ≡ false))

Pairwise-any : (xs : List EvidenceEvent) → Pairwise (λ x y. Unit) xs
Pairwise-any [] = tt
Pairwise-any (x ∷ xs) = (all_any xs, Pairwise-any xs)
  where
    all_any : (ys : List EvidenceEvent) → All (λ y. Unit) ys
    all_any [] = tt
    all_any (y ∷ ys) = (tt, all_any ys)

Pairwise-map :
    (R S : EvidenceEvent → EvidenceEvent → Type 0)
    → ((x y : EvidenceEvent) → R x y → S x y)
    → (xs : List EvidenceEvent) → Pairwise R xs
    → Pairwise S xs
Pairwise-map R S f [] h = tt
Pairwise-map R S f (x ∷ xs) (later, h) = (all_map xs later, Pairwise-map R S f xs h)
  where
    all_map : (ys : List EvidenceEvent) → All (R x) ys → All (S x) ys
    all_map [] k = tt
    all_map (y ∷ ys) (r, k) = (f x y r, all_map ys k)

order_events-Pairwise :
    (events : List EvidenceEvent) → Pairwise InReadingOrder (order_events events)
unfolding order_events
order_events-Pairwise events =
    sort_by-Pairwise is_newer newer_asym newer_negtrans
      (λ x y. text_lt y.event_id x.event_id ≡ false) (sort_by has_lower_id events)
      (Pairwise-map (Ordered has_lower_id (λ x y. Unit)) _ (λ x y r. r.0)
        (sort_by has_lower_id events)
        (sort_by-Pairwise has_lower_id (λ x y. text_lt_asym x.event_id y.event_id)
          (λ x y z. text_lt_negtrans x.event_id y.event_id z.event_id) (λ x y. Unit) events
          (Pairwise-any events)))

order_events-count :
    (p : EvidenceEvent → Bool) (events : List EvidenceEvent)
    → count_where p (order_events events) ≡ count_where p events
unfolding order_events
order_events-count p events =
    sort_by-count is_newer p (sort_by has_lower_id events) ∙ sort_by-count has_lower_id p events

-- The event with its age at `as_of` and whether that is past the window.
abbrev pub stamped : Duration → Instant → EvidenceEvent → EvidenceEvent
stamped stale_after as_of e = stamp stale_after (as_of - e.available_at) e

stamp_next-accepted :
    (stale_after : Duration) (as_of : Instant) (e : EvidenceEvent)
    (r : Checked ReadError (List EvidenceEvent)) (out : List EvidenceEvent)
    → stamp_next stale_after as_of e r ≡ accepted out
    → (rest : List EvidenceEvent) × (r ≡ accepted rest)
      × (e.available_at ≤ as_of)
      × (out ≡ stamped stale_after as_of e ∷ rest)
unfolding stamp_next
stamp_next-accepted stale_after as_of e (rejected r) out h = cc
stamp_next-accepted stale_after as_of e (accepted rest) out h =
    elim (Bool-cases (ltb as_of e.available_at)) [
      | inl early ↦ cc (rw early at h)
      | inr there ↦ (rest, refl, ground (arith, there), sym (accepted_inj _ _ (rw there at h)))
    ]

stamp_all-accepted :
    (stale_after : Duration) (as_of : Instant) (es out : List EvidenceEvent)
    → stamp_all stale_after as_of es ≡ accepted out
    → (out ≡ map (stamped stale_after as_of) es) × All (λ e. e.available_at ≤ as_of) es
unfolding stamp_all
stamp_all-accepted stale_after as_of [] out h = (sym (accepted_inj _ _ h), tt)
stamp_all-accepted stale_after as_of (e ∷ es) out h =
    let (rest, others, there, whole) =
      stamp_next-accepted stale_after as_of e (stamp_all stale_after as_of es) out h in
    let (same, available) = stamp_all-accepted stale_after as_of es rest others in
    (whole ∙ ap (λ l. stamped stale_after as_of e ∷ l) same, (there, available))

-- What a read of the store returns: `ordered` are the events before they are stamped.
pub record IsReadOf (focus : List Text) (as_of : Instant) (k : EvidenceCollector)
    (events ordered : List EvidenceEvent) : Type 0 where
  pub all_stamped : events ≡ map (stamped k.stale_after as_of) ordered
  pub all_available : All (λ e. e.available_at ≤ as_of) ordered
  pub newest_first : Pairwise InReadingOrder ordered
  pub none_lost :
      (p : EvidenceEvent → Bool)
      → count_where p ordered ≡ count_where p (selected_events focus k.store)

-- Whatever a read returns is all that is stored and in scope, each event as often as it is there,
-- however old: the newest first, by when it became available and then when it was published, and by
-- its id among those that are as new; each is stamped with its age at that time, and none is read
-- before it became available.
pub evidence-IsReadOf :
    (symbols : List Text) (as_of : Instant) (k : EvidenceCollector) (events : List EvidenceEvent)
    → evidence symbols as_of k ≡ accepted events
    → (ordered : List EvidenceEvent) × IsReadOf (focus_of symbols) as_of k events ordered
unfolding evidence
evidence-IsReadOf symbols as_of k events h =
    let selected = selected_events (focus_of symbols) k.store in
    let (stamps, available) =
      stamp_all-accepted k.stale_after as_of (order_events selected) events h in
    (
      order_events selected,
      record {
        all_stamped = stamps;
        all_available = available;
        newest_first = order_events-Pairwise selected;
        none_lost = λ p. order_events-count p selected;
      },
    )

-- How a read that names its gaps ends: with what was read and the failures, not both of them empty
-- handed; refused with the failures when nothing was read; with the error of the read; or with an
-- error of a source that was not caught.
abbrev pub Told :
    Checked PollError (List SourceFailure)
    → Checked ReadError (List EvidenceEvent)
    → Checked ReadError (List EvidenceEvent × List SourceFailure)
    → Type 0
Told (rejected error) read told = told ≡ rejected (uncaught error)
Told (accepted failures) read told =
    ((events : List EvidenceEvent) × (read ≡ accepted events)
      × (told ≡ accepted (events, failures))
      × ((failures ≡ []) ⊎ ((e : EvidenceEvent) × (es : List EvidenceEvent) × (events ≡ e ∷ es))))
    ⊎ ((read ≡ accepted [])
        × (told ≡ rejected (unavailable failures))
        × ((f : SourceFailure) × (fs : List SourceFailure) × (failures ≡ f ∷ fs)))
    ⊎ ((r : ReadError) × (read ≡ rejected r) × (told ≡ rejected r))

told :
    (failures : Checked PollError (List SourceFailure))
    (read : Checked ReadError (List EvidenceEvent))
    → Told failures read (with_failures failures read)
told (rejected error) read = refl
told (accepted failures) (rejected r) = inr (inr (r, refl, refl))
told (accepted failures) (accepted (e ∷ es)) = inl (e ∷ es, refl, refl, inr (e, es, refl))
told (accepted []) (accepted []) = inl ([], refl, refl, inl refl)
told (accepted (f ∷ fs)) (accepted []) = inr (inl (refl, refl, (f, fs, refl)))

-- A read that names its gaps tells every failure of the round together with what is in the store
-- after it; when sources failed and there is nothing to read, it is refused with the failures; an
-- error of the read, or of a source when it is not caught, is passed on.
pub collect_with_failures-Told :
    (symbols : List Text) (now : Instant) (clock : ℕ → Instant) (as_of : Instant)
    (k : EvidenceCollector)
    → let p = poll_sources now clock k in
      Told p.0 (evidence symbols as_of p.1) (collect_with_failures symbols now clock as_of k).0
unfolding collect_with_failures
collect_with_failures-Told symbols now clock as_of k =
    told (poll_sources now clock k).0 (evidence symbols as_of (poll_sources now clock k).1)
