-- ===== src/Examples/Starting.antt =====
-- A start of the API process, and its pruning loop.
use vyomm.Prelude.{
  ◌*◌, ◌≤◌, ◌≡◌, refl, true, false, inl, none, some, List, [], ◌∷◌, ◌==◌, if◌then◌else◌, All,
}
use vyomm.Prelude.Sorting.{sort_by, insert_by}
use vyomm.GoMap
use vyomm.GoTime.{hour, rfc3339, before_by}
use vyomm.Float64.Fixed.{Fixed, fixed_float}
use vyomm.GoInt.{pos}
use vyomm.Persistence.{Store}
use vyomm.Config.{retention_duration, hours_duration}
use vyomm.Persistence.Restore.{
  Sql, new_store_on, restore_state, restore_rows, incidents_of_rows, decisions_of_rows,
}
use vyomm.Persistence.Tables.{select_from}
use vyomm.Incidents.Store.{new_store, restore, restore_incidents, restore_decisions}
use vyomm.Runbooks.{Document}
use vyomm.Runbooks.Loading.{
  DirEntry, load_runbooks, read_entries, document_of, stem_of, sort_by_source, title_case,
  stem_words, split_stem, join_words,
}
use vyomm.Runbooks.Loading.Ordered.{IsLoaded, load_runbooks_lem}
use vyomm.Process.Startup.{
  Outside, new_metrics, new_run_id, Started, IsReady, start as start_process, runbook_path,
  start-IsReady,
}
use vyomm.Process.Pruning.{tick, prune_loop, prune_loop_lem}
use vyomm.Examples.Samples.{start, name_codec, empty_database, blank_store}
use vyomm.Examples.Serving.{configured, environment, environment-configured, same_case, one_half}

abbrev entries : List DirEntry
entries =
    record { name = "memory_leak.md"; is_dir = false; content = some "Restart the daemon." }
    ∷ record { name = "notes.txt"; is_dir = false; content = none }
    ∷ record { name = "bgp-edge.md"; is_dir = false; content = some "Prefer the other edge." }
    ∷ []

load_runbooks_lem_example :
    IsLoaded same_case same_case entries (load_runbooks same_case same_case (some entries))
load_runbooks_lem_example = load_runbooks_lem same_case same_case entries

abbrev as_stored : Sql Fixed
as_stored = record {
  by_observed_at = λ rows. rows;
  by_occurrence = λ rows. rows;
  by_decided_at = λ rows. rows;
}

abbrev outside : Outside Fixed
outside = record {
  lookup = environment;
  to_lower = same_case;
  parse_float = one_half;
  capital = same_case;
  read_dir = λ path. if path == "./runbooks" then some entries else none;
  open_database = λ path. some empty_database;
  sql = as_stored;
  codec = name_codec;
  tracing_ok = false;
  random = none;
  time_text = λ t. "20260818-120000";
}

abbrev guides : List Document
guides =
    record {
      title = "bgp edge";
      source = "bgp-edge.md";
      content = "Prefer the other edge.";
      lower = "Prefer the other edge.";
      stem = "bgp-edge";
    }
    ∷ record {
      title = "memory leak";
      source = "memory_leak.md";
      content = "Restart the daemon.";
      lower = "Restart the daemon.";
      stem = "memory_leak";
    }
    ∷ []

guides-read :
    load_runbooks same_case same_case (outside.read_dir (runbook_path environment)) ≡ some guides
unfolding load_runbooks read_entries document_of stem_of sort_by_source sort_by insert_by title_case
    stem_words split_stem join_words runbook_path
guides-read = refl

abbrev restored_store : Store Fixed
restored_store = record blank_store { retention = pos (48 * hour) }

store-restored :
    new_store_on as_stored name_codec empty_database (retention_duration configured) start
    ≡ inl restored_store
unfolding new_store_on restore_state restore_rows incidents_of_rows decisions_of_rows restore
    restore_incidents restore_decisions select_from retention_duration hours_duration new_store
    GoMap.empty
store-restored = refl

abbrev started : Started Fixed
started = record {
  server = record { store = restored_store; metrics = some new_metrics };
  config = configured;
  runbooks = guides;
  version = "dev";
  run_id = "run-unavailable";
  otel_status = "disabled";
}

process-started : start_process outside start ≡ inl started
unfolding start_process new_run_id
process-started = rw (environment-configured, guides-read, store-restored, start_process) refl

start-IsReady_example : IsReady outside started
start-IsReady_example = start-IsReady outside start started (refl, refl) process-started

prune_loop_lem_example :
    let (after, log, ended) =
      prune_loop blank_store (tick start false false ∷ tick start true true ∷ []) in
    All (λ r. rfc3339 (before_by start blank_store.retention) ≤ r.observed_at) after.db.telemetry
    × (ended ≡ false)
prune_loop_lem_example =
    prune_loop_lem blank_store (tick start false false ∷ []) start true (tt, tt)
