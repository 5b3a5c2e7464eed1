-- ===== src/UniverseCache/Flight/Single.antt =====
-- market_universe_cache.py: one computation at a time for a name.
use us_stock_helper.Prelude.{
  ℕ, ◌≤◌, Text, text_eq, text_eq_refl, eq-text_eq, ◌≡◌, refl, sym, subst, Bool, true, false, not,
  ◌&&◌, ◌||◌, every, Bool-cases, inl, inr, Option, none, some, List, [], ◌∷◌, All, ◌==◌, select,
  count_where, if◌then◌else◌, get_key, del_key, get_key-set_key, get_key-set_other, get_key-del_key,
  get_key-del_other,
}
use us_stock_helper.UniverseCache.{
  Instant, Slot, Attempt, MarketUniverseCache, is_marker, new_attempt, still_fresh, enter,
  enter_with, join_or_elect, elect, leave, store,
}
use us_stock_helper.UniverseCache.Flight.{
  Leader, Flight, FlightStep, arrive, compute_ends, outcome_stored, is_leader, is_of, join_leaders,
  apply_flight, run_flight, AsksFor,
}
use us_stock_helper.UniverseCache.Flight.Leaders.{
  Agrees, Agrees-select, Agrees-other, Agrees-new, Agrees-few, all_leave, marker_eq,
}

module _ {V : Type 0} where
  join_same :
      (name key : Text) (now : Instant) (a : Option Attempt) (c : MarketUniverseCache V)
      (ls : List Leader)
      → a ≡ get_key name c.inflight
      → Agrees name key a ls
      → let r = join_or_elect name key now a c in
        Agrees name key (get_key name r.1.inflight) (join_leaders name r.0 ls)
  unfolding join_or_elect elect join_leaders
  join_same name key now none c ls e h =
      rw (get_key-set_key name (new_attempt key now c.next_marker) c.inflight)
        (Agrees-new name key now c.next_marker ls h)
  join_same name key now (some a) c ls e h =
      rw (subst (λ k. text_eq a.key k ≡ true) h.0 (text_eq_refl a.key))
        (subst (λ o. Agrees name key o ls) e h)

  elect_other :
      (name key n k : Text) (now : Instant) (c : MarketUniverseCache V) (ls : List Leader)
      → text_eq n name ≡ false
      → Agrees name key (get_key name c.inflight) ls
      → let r = elect n k now c in
        Agrees name key (get_key name r.1.inflight) (join_leaders n r.0 ls)
  unfolding elect join_leaders
  elect_other name key n k now c ls other h =
      rw (get_key-set_other name n (new_attempt k now c.next_marker) c.inflight other)
        (Agrees-other name key n c.next_marker (get_key name c.inflight) ls other h)

  join_other :
      (name key n k : Text) (now : Instant) (a : Option Attempt) (c : MarketUniverseCache V)
      (ls : List Leader)
      → text_eq n name ≡ false
      → Agrees name key (get_key name c.inflight) ls
      → let r = join_or_elect n k now a c in
        Agrees name key (get_key name r.1.inflight) (join_leaders n r.0 ls)
  unfolding join_or_elect elect join_leaders
  join_other name key n k now none c ls other h = elect_other name key n k now c ls other h
  join_other name key n k now (some a) c ls other h = elim (Bool-cases (text_eq a.key k)) [
    | inl same ↦ rw same h
    | inr new ↦ rw new (elect_other name key n k now c ls other h)
  ]

  -- What the first section does for an attempt, it does behind the look at the slot.
  enter-Agrees :
      (name key n k : Text) (now clock : Instant) (found : Option (Slot V))
      (c : MarketUniverseCache V) (ls : List Leader)
      → Agrees name key (get_key name c.inflight) ls
      → (let r = join_or_elect n k now (get_key n c.inflight) c in
          Agrees name key (get_key name r.1.inflight) (join_leaders n r.0 ls))
      → let r = enter_with n k now clock found c in
        Agrees name key (get_key name r.1.inflight) (join_leaders n r.0 ls)
  unfolding enter_with join_leaders
  enter-Agrees name key n k now clock none c ls h joined = joined
  enter-Agrees name key n k now clock (some slot) c ls h joined =
      elim (Bool-cases (text_eq slot.key k && still_fresh clock slot)) [
        | inl fresh ↦ rw fresh h
        | inr stale ↦ rw stale joined
      ]

  arrive-Agrees :
      (name key n k : Text) (now clock : Instant) (c : MarketUniverseCache V) (ls : List Leader)
      → (n ≡ name → k ≡ key)
      → Agrees name key (get_key name c.inflight) ls
      → let r = enter n k now clock c in
        Agrees name key (get_key name r.1.inflight) (join_leaders n r.0 ls)
  unfolding enter
  arrive-Agrees name key n k now clock c ls asks h =
      enter-Agrees name key n k now clock (get_key n c.slots) c ls h
        (elim (Bool-cases (text_eq n name)) [
          | inl same ↦
              let e = eq-text_eq n name same in
              subst
                (λ m.
                  Agrees m key (get_key m c.inflight) ls
                  → let r = join_or_elect n k now (get_key n c.inflight) c in
                    Agrees m key (get_key m r.1.inflight) (join_leaders n r.0 ls))
                e
                (subst
                  (λ q.
                    Agrees n q (get_key n c.inflight) ls
                    → let r = join_or_elect n k now (get_key n c.inflight) c in
                      Agrees n q (get_key n r.1.inflight) (join_leaders n r.0 ls))
                  (asks e) (join_same n k now (get_key n c.inflight) c ls refl))
                h
          | inr other ↦ join_other name key n k now (get_key n c.inflight) c ls other h
        ])

  leave_same :
      (name key : Text) (m : ℕ) (c : MarketUniverseCache V) (ls : List Leader) (a : Option Attempt)
      → a ≡ get_key name c.inflight
      → Agrees name key a ls
      → Agrees name key
          (get_key name (if is_marker m a then del_key name c.inflight else c.inflight))
          (select (λ l. not (is_leader name m l)) ls)
  leave_same name key m c ls none e h =
      subst (λ o. Agrees name key o (select (λ l. not (is_leader name m l)) ls)) e
        (Agrees-select name key none _ ls h)
  leave_same name key m c ls (some a) e h = elim (Bool-cases (a.marker == m)) [
    | inl same ↦
        subst
          (λ b.
            Agrees name key (get_key name (if b then del_key name c.inflight else c.inflight))
              (select (λ l. not (is_leader name m l)) ls))
          (sym same)
          (rw (get_key-del_key name c.inflight) (
            all_leave name m ls (
              subst (λ k. every (λ l. not (is_of name l) || is_leader name k l) ls ≡ true)
                (marker_eq a.marker m same) h.2)))
    | inr differs ↦
        subst
          (λ b.
            Agrees name key (get_key name (if b then del_key name c.inflight else c.inflight))
              (select (λ l. not (is_leader name m l)) ls))
          (sym differs)
          (subst (λ o. Agrees name key o (select (λ l. not (is_leader name m l)) ls)) e
            (Agrees-select name key (some a) _ ls h))
  ]

  leave_other :
      (name key n : Text) (b : Bool) (c : MarketUniverseCache V)
      → text_eq n name ≡ false
      → get_key name (if b then del_key n c.inflight else c.inflight) ≡ get_key name c.inflight
  leave_other name key n true c other = get_key-del_other name n c.inflight other
  leave_other name key n false c other = refl

  leave-Agrees :
      (name key n : Text) (m : ℕ) (c : MarketUniverseCache V) (ls : List Leader)
      → Agrees name key (get_key name c.inflight) ls
      → Agrees name key
          (get_key name (leave n m c).inflight)
          (select (λ l. not (is_leader n m l)) ls)
  unfolding leave
  leave-Agrees name key n m c ls h = elim (Bool-cases (text_eq n name)) [
    | inl same ↦
        subst
          (λ k.
            Agrees k key (get_key k c.inflight) ls
            → Agrees k key (get_key k (leave n m c).inflight)
                (select (λ l. not (is_leader n m l)) ls))
          (eq-text_eq n name same) (leave_same n key m c ls (get_key n c.inflight) refl) h
    | inr other ↦
        subst (λ o. Agrees name key o (select (λ l. not (is_leader n m l)) ls))
          (sym (leave_other name key n (is_marker m (get_key n c.inflight)) c other))
          (Agrees-select name key (get_key name c.inflight) _ ls h)
  ]

  flight-Agrees :
      (name key : Text) (steps : List (FlightStep V)) (f : Flight V)
      → All (AsksFor name key) steps
      → Agrees name key (get_key name f.cache.inflight) f.leaders
      → let g = run_flight steps f in Agrees name key (get_key name g.cache.inflight) g.leaders
  unfolding run_flight apply_flight store
  flight-Agrees name key [] f asks h = h
  flight-Agrees name key (arrive n k now clock ∷ ss) f (a, asks) h =
      flight-Agrees name key ss _ asks (arrive-Agrees name key n k now clock f.cache f.leaders a h)
  flight-Agrees name key (compute_ends n m ∷ ss) f (a, asks) h =
      flight-Agrees name key ss _ asks (leave-Agrees name key n m f.cache f.leaders h)
  flight-Agrees name key (outcome_stored n k outcome clock ∷ ss) f (a, asks) h =
      flight-Agrees name key ss _ asks h

  -- When every caller of a name asks for the same key, and nobody computes at first, there is never
  -- more than one caller that computes for the name, whatever order the steps of the threads take.
  pub single_flight :
      (name key : Text) (steps : List (FlightStep V)) (c : MarketUniverseCache V)
      → get_key name c.inflight ≡ none
      → All (AsksFor name key) steps
      → count_where (is_of name) (run_flight steps (record { cache = c; leaders = [] })).leaders ≤ 1
  single_flight name key steps c idle asks =
      let start : Flight V = record { cache = c; leaders = [] } in
      Agrees-few name key _ _ (
        flight-Agrees name key steps start asks (subst (λ o. Agrees name key o []) (sym idle) refl))
