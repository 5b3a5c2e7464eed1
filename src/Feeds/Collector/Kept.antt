-- ===== src/Feeds/Collector/Kept.antt =====
-- collector.py, `_evict`: no event is forgotten before a reader would see it marked as stale.
use us_stock_helper.Prelude.{
  ◌-◌, ◌+◌, ◌<◌, Text, text_eq, ◌≡◌, refl, ap, sym, subst, arith, Bool-cases, Bool, true, some,
  List, [], ◌∷◌, ltb, select, Dict, get_key, inl, inr, ◌⊎◌, if◌then◌else◌,
}
use us_stock_helper.Prelude.Keys.{some_inj}
use us_stock_helper.Feeds.Events.{Instant, Duration, EvidenceEvent}
use us_stock_helper.Feeds.Coordinator.{FeedAdapter}
use us_stock_helper.Feeds.Collector.{is_accepted_collector, evict}

kept :
    (keep : Text × EvidenceEvent → Bool) (id : Text) (e : EvidenceEvent)
    (store : Dict EvidenceEvent)
    → ((j : Text) → keep (j, e) ≡ true)
    → get_key id store ≡ some e
    → get_key id (select keep store) ≡ some e
unfolding get_key
kept keep id e [] h found = cc
kept keep id e ((j, f) ∷ rest) h found =
    let rest_kept = kept keep id e rest h in
    elim (Bool-cases (text_eq j id)) [
      | inl same ↦
          let is_e =
            some_inj (subst (λ b. (if b then some f else get_key id rest) ≡ some e) same found) in
          let stays = subst (λ x. keep (j, x) ≡ true) {x = e} {y = f} (sym is_e) (h j) in
          rw (stays, same) (ap some is_e)
      | inr other ↦
          let later = subst (λ b. (if b then some f else get_key id rest) ≡ some e) other found in
          elim (Bool-cases (keep (j, f))) [
            | inl stays ↦ rw (stays, other) (rest_kept later)
            | inr goes ↦ rw goes (rest_kept later)
          ]
    ]

-- With accepted settings, an event of the store is still there after an eviction, or it is older than
-- the window after which it is stale.
pub evict_keeps_fresh :
    (adapters : List FeedAdapter) (lookback stale_after retention : Duration) (now : Instant)
    (id : Text) (e : EvidenceEvent) (store : Dict EvidenceEvent)
    → is_accepted_collector adapters lookback stale_after retention ≡ true
    → get_key id store ≡ some e
    → (get_key id (evict retention now store) ≡ some e) ⊎ (stale_after < now - e.available_at)
unfolding evict is_accepted_collector
evict_keeps_fresh adapters lookback stale_after retention now id e store ok found =
    elim (Bool-cases (ltb (e.available_at + retention) now)) [
      | inl expired ↦ inr (ground arith)
      | inr recent ↦ inl (kept _ id e store (λ j. rw recent refl) found)
    ]
