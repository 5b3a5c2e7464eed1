-- ===== src/Feeds/Snapshot/Examples.antt =====
-- coordinator.py and coordinator_state.py: tests, and the theorems at concrete inputs.
use us_stock_helper.Prelude.{
  Text, codes, text_eq, decimal, value, ◌≡◌, refl, ap, value-decimal, true, false, Option, none,
  some, List, [], ◌∷◌, ◌⊎◌, ℕ, if◌then◌else◌,
}
use us_stock_helper.Prelude.Checked.{accepted, rejected}
use us_stock_helper.Feeds.Coordinator.{Batch}
use us_stock_helper.Feeds.Coordinator.Steps.{PollStep, reserve_step, commit_step, run_steps}
use us_stock_helper.Feeds.Snapshot.{
  field_of, int_of, read_published, read_state, read_states, null, infinity, object, no_fields,
  field, PythonTexts, overflow_error, value_error, from_snapshot, snapshot,
}
use us_stock_helper.Feeds.Snapshot.RoundTrip.{IsIsoFormat}
use us_stock_helper.Feeds.Snapshot.Restart.{restart_keeps}
use us_stock_helper.Feeds.Snapshot.Stored.{
  JsonTexts, loaded, no_fault, read_file, load_coordinator, save, save_then_load,
}

-- An instant as its number of microseconds, with a letter before it.
abbrev after_letter : Text → Option ℕ
after_letter [] = none
after_letter (c ∷ cs) = some (value cs)

abbrev py : PythonTexts
py = record {
  str = λ j. codes "value";
  isoformat = λ t. b'T' ∷ decimal t;
  fromisoformat = after_letter;
}

py-IsIsoFormat : IsIsoFormat py
py-IsIsoFormat t = ((λ e. cc), ap some (value-decimal t))

abbrev sec : Text
sec = codes "sec"

abbrev filing_batch : Batch
filing_batch = record {
  events =
      record {
        event_id = codes "e1";
        claim_key = codes "AAPL:8-K";
        headline = codes "filing";
        published_at = 1;
        first_seen_at = 2;
        available_at = 3;
        retrieved_at = 4;
        revised_at = none;
        revision_of = none;
        revision_number = 0;
        content_hash = codes "aa";
        symbol_relevance = (codes "AAPL", 1) ∷ [];
        geopolitical_tags = [];
        macro_tags = [];
        attributes = [];
      }
      ∷ [];
  metadata = record { status_code = 200; etag = some (codes "v1"); last_modified = none };
}

abbrev steps : List PollStep
steps = reserve_step sec 5 10 ∷ commit_step sec filing_batch ∷ []

restart_keeps_example :
    from_snapshot py (snapshot py (run_steps steps [])) ≡ accepted (run_steps steps [])
restart_keeps_example = restart_keeps py steps py-IsIsoFormat

-- A published record that is no object is refused, and an infinite count raises what no caller expects.
bad_record :
    from_snapshot py
      (object (field sec (object (field (codes "published") null no_fields)) no_fields))
    ≡ rejected value_error
unfolding from_snapshot read_states read_state field_of text_eq
bad_record = refl

infinite_count :
    from_snapshot py (
      object (
        field sec
          (object (field (codes "consecutive_failures") (infinity true) no_fields))
          no_fields))
    ≡ rejected overflow_error
unfolding from_snapshot read_states read_state field_of text_eq read_published int_of
infinite_count = refl

-- A decoder that knows one document.
abbrev one_document : JsonTexts
one_document = record {
  loads = λ t. if text_eq t (codes "saved") then some (snapshot py (run_steps steps [])) else none;
  dumps = λ j. codes "saved";
}

save_then_load_example :
    let c = run_steps steps [] in
    let r =
      save py one_document c no_fault (record { target = some (codes "old"); temporary = none }) in
    ((r.0 ≡ true) × ((r.1).target ≡ some (codes "old")))
    ⊎ ((r.0 ≡ false) × (load_coordinator py one_document (read_file (r.1).target) ≡ loaded c none))
unfolding text_eq
save_then_load_example =
    save_then_load py one_document steps no_fault
      (record { target = some (codes "old"); temporary = none }) py-IsIsoFormat refl
