-- ===== src/Feeds/Snapshot/Stored.antt =====
-- services/analysis_api/src/us_stock_helper_analysis_api/coordinator_state.py: the snapshot in a file.
-- `json` is a parameter; the mode of the file and the name of the temporary one are left out.
use us_stock_helper.Prelude.{
  Text, ◌≡◌, refl, ap, ◌∙◌, Bool, true, false, Option, none, some, List, [], inl, inr, ◌⊎◌,
}
use us_stock_helper.Prelude.Checked.{accepted, rejected}
use us_stock_helper.Feeds.Coordinator.{PollingCoordinator}
use us_stock_helper.Feeds.Coordinator.Steps.{PollStep, run_steps}
use us_stock_helper.Feeds.Snapshot.{
  Json, PythonTexts, Restored, value_error, type_error, overflow_error, outside, from_snapshot,
  snapshot,
}
use us_stock_helper.Feeds.Snapshot.RoundTrip.{IsIsoFormat}
use us_stock_helper.Feeds.Snapshot.Restart.{restart_keeps}

-- `json.loads` (none is a `JSONDecodeError`) and `json.dumps`.
pub record JsonTexts : Type 0 where
  pub loads : Text → Option Json
  pub dumps : Json → Text

-- What `read_text` does: no file, an `OSError`, bytes that are no UTF-8, or a text.
pub data ReadFile : Type 0 where
  file_missing os_error undecodable : ReadFile
  contents : Text → ReadFile

pub data DroppedReason : Type 0 where
  unreadable malformed : DroppedReason

-- The coordinator and the reason for which history was dropped, or what is raised out of the method.
pub data Loaded : Type 0 where
  loaded : PollingCoordinator → Option DroppedReason → Loaded
  decode_error raised_overflow beyond : Loaded

unfoldable pub of_restored : Restored PollingCoordinator → Loaded
of_restored (accepted c) = loaded c none
of_restored (rejected value_error) = loaded [] (some malformed)
of_restored (rejected type_error) = loaded [] (some malformed)
of_restored (rejected overflow_error) = raised_overflow
of_restored (rejected outside) = beyond

unfoldable pub of_parsed : PythonTexts → Option Json → Loaded
of_parsed py none = loaded [] (some malformed)
of_parsed py (some j) = of_restored (from_snapshot py j)

unfoldable pub load_coordinator : PythonTexts → JsonTexts → ReadFile → Loaded
load_coordinator py json file_missing = loaded [] none
load_coordinator py json os_error = loaded [] (some unreadable)
load_coordinator py json undecodable = decode_error
load_coordinator py json (contents raw) = of_parsed py (json.loads raw)

-- The file and the temporary file beside it.
pub record StateFiles : Type 0 where
  pub target : Option Text
  pub temporary : Option Text

-- Where an `OSError` stops a save, if one does: before there is a temporary file, while it is written
-- (with what is written of it), or at the rename; `true` when the temporary file cannot be removed
-- either.
pub data SaveFault : Type 0 where
  no_fault : SaveFault
  at_directory : SaveFault
  at_write : Text → Bool → SaveFault
  at_rename : Bool → SaveFault

-- `os.unlink(temp_name)`, whose own error is ignored
abbrev pub unlink : Bool → Text → Option Text
unlink true text = some text
unlink false text = none

-- `save`: whether there is a reason that it failed, and the files.
unfoldable pub save :
    PythonTexts → JsonTexts → PollingCoordinator → SaveFault → StateFiles → Bool × StateFiles
save py json c no_fault files =
    (false, record { target = some (json.dumps (snapshot py c)); temporary = none })
save py json c at_directory files = (true, files)
save py json c (at_write part stays) files = (true, record files { temporary = unlink stays part })
save py json c (at_rename stays) files =
    (true, record files { temporary = unlink stays (json.dumps (snapshot py c)) })

-- `read_text` of what a save leaves
abbrev pub read_file : Option Text → ReadFile
read_file none = file_missing
read_file (some raw) = contents raw

-- `loads` reads the value that `dumps` writes.
abbrev pub ReadsBack : JsonTexts → Json → Type 0
ReadsBack json j = json.loads (json.dumps j) ≡ some j

-- A save either tells that it failed and leaves the file as it was, or the next start loads just the
-- coordinator that was saved, whatever order the sections of the threads had taken to it; when
-- `json` reads the snapshot that it writes, and the texts of instants are read as those instants.
pub save_then_load :
    (py : PythonTexts) (json : JsonTexts) (steps : List PollStep) (fault : SaveFault)
    (files : StateFiles)
    → IsIsoFormat py
    → ReadsBack json (snapshot py (run_steps steps []))
    → let c = run_steps steps [] in
      let r = save py json c fault files in
      ((r.0 ≡ true) × ((r.1).target ≡ files.target))
      ⊎ ((r.0 ≡ false) × (load_coordinator py json (read_file (r.1).target) ≡ loaded c none))
unfolding save load_coordinator of_parsed of_restored
save_then_load py json steps no_fault files iso law =
    inr (refl, ap (of_parsed py) law ∙ ap of_restored (restart_keeps py steps iso))
save_then_load py json steps at_directory files iso law = inl (refl, refl)
save_then_load py json steps (at_write part stays) files iso law = inl (refl, refl)
save_then_load py json steps (at_rename stays) files iso law = inl (refl, refl)

-- What a restored value starts with: itself and no reason, or a fresh record and the reason; only a
-- number that is infinite, or a state that is not modelled, has no such end.
abbrev pub IsStart : PythonTexts → Json → Loaded → Type 0
IsStart py j l =
    ((c : PollingCoordinator) × (from_snapshot py j ≡ accepted c) × (l ≡ loaded c none))
    ⊎ (l ≡ loaded [] (some malformed))
    ⊎ ((from_snapshot py j ≡ rejected overflow_error) × (l ≡ raised_overflow))
    ⊎ ((from_snapshot py j ≡ rejected outside) × (l ≡ beyond))

-- Loading ends in one of these ways: a file that is not there is a first start; one that cannot be
-- read, or is no JSON, is dropped whole with the reason; one that is JSON is restored, or dropped
-- whole. But bytes that are no UTF-8 raise out of the method, and so does an infinite number where a
-- count is read.
pub load_coordinator-Ends :
    (py : PythonTexts) (json : JsonTexts) (file : ReadFile)
    → ((file ≡ file_missing) × (load_coordinator py json file ≡ loaded [] none))
      ⊎ ((file ≡ os_error) × (load_coordinator py json file ≡ loaded [] (some unreadable)))
      ⊎ ((file ≡ undecodable) × (load_coordinator py json file ≡ decode_error))
      ⊎ ((raw : Text) × (file ≡ contents raw)
          × (json.loads raw ≡ none)
          × (load_coordinator py json file ≡ loaded [] (some malformed)))
      ⊎ ((raw : Text) × (j : Json) × (file ≡ contents raw)
          × (json.loads raw ≡ some j)
          × IsStart py j (load_coordinator py json file))
unfolding load_coordinator of_parsed of_restored
load_coordinator-Ends py json file_missing = inl (refl, refl)
load_coordinator-Ends py json os_error = inr (inl (refl, refl))
load_coordinator-Ends py json undecodable = inr (inr (inl (refl, refl)))
load_coordinator-Ends py json (contents raw) = by_parsed (json.loads raw) refl
  where
    started :
        (j : Json) (r : Restored PollingCoordinator)
        → from_snapshot py j ≡ r
        → IsStart py j (of_restored r)
    started j (accepted c) e = inl (c, e, refl)
    started j (rejected value_error) e = inr (inl refl)
    started j (rejected type_error) e = inr (inl refl)
    started j (rejected overflow_error) e = inr (inr (inl (e, refl)))
    started j (rejected outside) e = inr (inr (inr (e, refl)))

    by_parsed :
        (p : Option Json)
        → json.loads raw ≡ p
        → ((contents raw ≡ file_missing) × (of_parsed py p ≡ loaded [] none))
          ⊎ ((contents raw ≡ os_error) × (of_parsed py p ≡ loaded [] (some unreadable)))
          ⊎ ((contents raw ≡ undecodable) × (of_parsed py p ≡ decode_error))
          ⊎ ((raw' : Text) × (contents raw ≡ contents raw')
              × (json.loads raw' ≡ none)
              × (of_parsed py p ≡ loaded [] (some malformed)))
          ⊎ ((raw' : Text) × (j : Json) × (contents raw ≡ contents raw')
              × (json.loads raw' ≡ some j)
              × IsStart py j (of_parsed py p))
    by_parsed none e = inr (inr (inr (inl (raw, refl, e, refl))))
    by_parsed (some j) e =
        inr (inr (inr (inr (raw, j, refl, e, started j (from_snapshot py j) refl))))
