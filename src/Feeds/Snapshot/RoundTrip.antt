-- ===== src/Feeds/Snapshot/RoundTrip.antt =====
-- coordinator.py: a coordinator that is written to JSON and read back is the same.
use us_stock_helper.Prelude.{
  Text, text_eq, ◌≡◌, refl, sym, ap, subst, ◌∙◌, Option, none, some, [], ◌∷◌, ◌++◌, Dict, set_key,
  ◌≢◌, All,
}
use mathlib.Core.List.{append-nil}
use us_stock_helper.Prelude.Checked.{accepted}
use us_stock_helper.Prelude.Keys.{IsDict, rebuild}
use us_stock_helper.Feeds.Events.{Instant}
use us_stock_helper.Feeds.Coordinator.{PollingCoordinator, AdapterState, PublishedRecord}
use us_stock_helper.Feeds.Snapshot.{
  string, PythonTexts, field_of, str_of, int_of, read_record, read_published, validator_of,
  last_polled_of, parsed_instant, read_state, read_states, from_snapshot, text_or_null,
  instant_or_null, write_published, write_state, write_states, snapshot,
}

-- `fromisoformat` reads what `isoformat` writes, which is not empty.
abbrev pub IsIsoFormat : PythonTexts → Type 0
IsIsoFormat py =
    (t : Instant) → (py.isoformat t ≢ []) × (py.fromisoformat (py.isoformat t) ≡ some t)

-- No adapter is there twice, and in none of them a claim.
abbrev pub HasKeysOnce : PollingCoordinator → Type 0
HasKeysOnce c = IsDict c × All (λ e. IsDict (e.1).published) c

published_back :
    (py : PythonTexts) (kept d : Dict PublishedRecord)
    → IsDict (kept ++ d)
    → read_published py (write_published d) kept ≡ accepted (kept ++ d)
unfolding read_published write_published read_record field_of text_eq int_of str_of
published_back py kept [] h = ap accepted (sym (append-nil kept))
published_back py kept ((k, r) ∷ rest) h =
    published_back py (set_key k r kept) rest (subst IsDict (sym (rebuild k r kept rest h)) h)
    ∙ ap accepted (rebuild k r kept rest h)

validator_back : (o : Option Text) → validator_of (some (text_or_null o)) ≡ accepted o
validator_back none = refl
validator_back (some t) = refl

filled_text :
    (py : PythonTexts) (t : Text)
    → t ≢ []
    → last_polled_of py (string t) ≡ parsed_instant (py.fromisoformat t)
unfolding last_polled_of
filled_text py [] h = absurd (h refl)
filled_text py (c ∷ cs) h = refl

last_polled_back :
    (py : PythonTexts) (o : Option Instant)
    → IsIsoFormat py
    → last_polled_of py (instant_or_null py o) ≡ accepted o
unfolding last_polled_of
last_polled_back py none law = refl
last_polled_back py (some t) law =
    filled_text py (py.isoformat t) (law t).0 ∙ ap parsed_instant (law t).1

state_back :
    (py : PythonTexts) (s : AdapterState)
    → IsIsoFormat py
    → IsDict s.published
    → read_state py (write_state py s) ≡ accepted s
unfolding read_state write_state field_of text_eq int_of
state_back py s law h =
    rw
      (
        published_back py [] s.published h,
        validator_back s.validators.etag,
        validator_back s.validators.last_modified,
        last_polled_back py s.last_polled_at law,
      )
      refl

states_back :
    (py : PythonTexts) (kept c : PollingCoordinator)
    → IsIsoFormat py
    → IsDict (kept ++ c)
    → All (λ e. IsDict (e.1).published) c
    → read_states py (write_states py c) kept ≡ accepted (kept ++ c)
unfolding read_states write_states
states_back py kept [] law h all = ap accepted (sym (append-nil kept))
states_back py kept ((id, s) ∷ rest) law h (one, others) = rw (state_back py s law one) (
    states_back py (set_key id s kept) rest law (subst IsDict (sym (rebuild id s kept rest h)) h)
      others
    ∙ ap accepted (rebuild id s kept rest h))

-- A coordinator with no key twice that is written to JSON is read back as it was, when
-- `fromisoformat` reads what `isoformat` writes.
pub from_snapshot-snapshot :
    (py : PythonTexts) (c : PollingCoordinator)
    → IsIsoFormat py
    → HasKeysOnce c
    → from_snapshot py (snapshot py c) ≡ accepted c
unfolding from_snapshot snapshot
from_snapshot-snapshot py c law (keys, claims) = states_back py [] c law keys claims
