-- ===== src/Process/Startup.antt =====
-- cmd/vyomm-api/main.go: what main builds before it serves, and why it exits instead.
use vyomm.Prelude.{
  ℕ, String, ◌≡◌, ◌↔◌, ◌⊎◌, refl, sym, ap, subst, ◌∙◌, Bool, true, inl, inr, Option-cases, Option,
  none, some, List, [], ◌==◌, eq_iff, arith, if◌then◌else◌,
}
use vyomm.Prelude.Text.{concat}
use vyomm.Float64.{Float64}
use vyomm.GoMap
use vyomm.GoTime.{Time, Duration}
use vyomm.Config.{Config, ConfigError, Lookup, load, retention_duration}
use vyomm.Config.Usable.{IsUsable, IsRatio, load-IsUsable}
use vyomm.Persistence.{Store, anomaly_ids}
use vyomm.Persistence.Cache.Anomalies.{IsBuffer}
use vyomm.Persistence.Tables.{Database}
use vyomm.Persistence.Ingest.{Codec, StoreError}
use vyomm.Persistence.Ingest.Accounting.{Sum-cases}
use vyomm.Persistence.Restore.{Sql, new_store_on}
use vyomm.Persistence.Restore.Restart.{restart, restart_anomalies}
use vyomm.Runbooks.{Document}
use vyomm.Runbooks.Loading.{DirEntry, load_runbooks}
use vyomm.Api.{Server, Metrics}
use vyomm.Api.Errors.{hex_text}
use vyomm.Api.Ingesting.{IsConsistent}

-- What main asks of the outside: the environment, the directory of the runbooks, the database with
-- its migrations applied, whether tracing can be set up, and what `newRunID` takes.
pub record Outside (F : Type 0) : Type 0 where
  pub lookup : Lookup
  pub to_lower : String → String
  pub parse_float : String → Option F
  pub capital : String → String
  pub read_dir : String → Option (List DirEntry)
  pub open_database : String → Option (Database F)
  pub sql : Sql F
  pub codec : Codec F
  pub tracing_ok : Bool
  pub random : Option (List ℕ)
  pub time_text : Time → String

-- `runbookPath`
unfoldable pub runbook_path : Lookup → String
runbook_path lookup = elim (lookup "VYOMM_RUNBOOK_PATH") [
  | none ↦ "./runbooks"
  | some path ↦ if path == "" then "./runbooks" else path
]

-- `newRunID`; `time_text` is the text of the time in UTC, as 20060102-150405.
unfoldable pub new_run_id : Option (List ℕ) → String → String
unfolding hex_text
new_run_id none time_text = "run-unavailable"
new_run_id (some bytes) time_text = concat "run-" (concat time_text (concat "-" (hex_text bytes)))

-- `metrics.New`, of the collectors that the handlers change.
unfoldable pub new_metrics : Metrics
new_metrics = record {
  records_received = 0;
  ingestion_errors = 0;
  incidents_active = GoMap.empty;
  incidents_resolved = GoMap.empty;
  incidents_recurred = 0;
  http_requests = [];
}

-- Why main exits with the status 1.
pub data StartError (F : Type 0) : Type 0 where
  config_failed : ConfigError → StartError F
  runbooks_failed open_failed : StartError F
  restore_failed : StoreError → StartError F

-- What main serves.
pub record Started (F : Type 0) : Type 0 where
  pub server : Server F
  pub config : Config F
  pub runbooks : List Document
  pub version : String
  pub run_id : String
  pub otel_status : String

module _ {F : Type 0} ⦃fl : Float64 F⦄ (o : Outside F) (now : Time) where
  abbrev started_with : Config F → List Document → Store F → Started F
  started_with config docs store = record {
    server = record { store = store; metrics = some new_metrics };
    config = config;
    runbooks = docs;
    version = "dev";
    run_id = new_run_id o.random (o.time_text now);
    otel_status = if o.tracing_ok then "enabled" else "disabled";
  }

  -- The part of main before it listens.
  unfoldable pub start : Started F ⊎ StartError F
  unfolding new_metrics runbook_path new_run_id
  start = elim (load o.to_lower o.parse_float o.lookup) [
    | inr e ↦ inr (config_failed e)
    | inl config ↦ elim (load_runbooks o.to_lower o.capital (o.read_dir (runbook_path o.lookup))) [
      | none ↦ inr runbooks_failed
      | some docs ↦ elim (o.open_database config.sqlite_path) [
        | none ↦ inr open_failed
        | some db ↦ elim (new_store_on o.sql o.codec db (retention_duration config) now) [
          | inr e ↦ inr (restore_failed e)
          | inl store ↦ inl (started_with config docs store)
        ]
      ]
    ]
  ]

module _ {F : Type 0} ⦃fl : Float64 F⦄ where
  open fl use {dec}

  restored-IsConsistent :
      (sql : Sql F) (codec : Codec F) (db : Database F) (retention : Duration) (now : Time)
      (s : Store F)
      → new_store_on sql codec db retention now ≡ inl s
      → IsConsistent s
  unfolding anomaly_ids
  restored-IsConsistent sql codec db retention now s e =
      let (_, _, cached, _) = restart sql codec db retention now s e in
      record {
        cached = cached;
        buffered =
            subst IsBuffer (sym (restart_anomalies sql codec db retention now s e))
              (record { bounded = omega arith; distinct = tt });
      }

  -- What a started process serves.
  pub record IsReady (o : Outside F) (p : Started F) : Type 0 where
    pub usable : IsUsable p.config
    pub consistent : IsConsistent p.server.store
    pub counting : p.server.metrics ≡ some new_metrics
    pub documents :
        load_runbooks o.to_lower o.capital (o.read_dir (runbook_path o.lookup)) ≡ some p.runbooks
    pub traced : (p.otel_status ≡ "enabled") ↔ (o.tracing_ok ≡ true)

  started_with-IsReady :
      (o : Outside F) (now : Time) (config : Config F) (docs : List Document) (store : Store F)
      → IsRatio (dec 2 1)
      → load o.to_lower o.parse_float o.lookup ≡ inl config
      → load_runbooks o.to_lower o.capital (o.read_dir (runbook_path o.lookup)) ≡ some docs
      → IsConsistent store
      → IsReady o (started_with o now config docs store)
  started_with-IsReady o now config docs store d e l v = record {
    usable = load-IsUsable o.to_lower o.parse_float o.lookup config d e;
    consistent = v;
    counting = refl;
    documents = l;
    traced = ground (arith, eq_iff "enabled" "disabled");
  }

  -- A process that starts serves a usable configuration, a store whose caches and anomaly buffer are
  -- consistent, new metrics and the documents of the runbook directory, and says that tracing is
  -- enabled exactly if it could be set up; the default ratio 0.2 has to compare as in IEEE arithmetic
  -- with 0 and 1.
  pub start-IsReady :
      (o : Outside F) (now : Time) (p : Started F)
      → IsRatio (dec 2 1)
      → start o now ≡ inl p
      → IsReady o p
  unfolding start
  start-IsReady o now p d h = elim (Sum-cases (load o.to_lower o.parse_float o.lookup)) [
    | inr (x, e) ↦ absurd (ground arith)
    | inl (config, e) ↦
        elim (Option-cases
          (load_runbooks o.to_lower o.capital (o.read_dir (runbook_path o.lookup)))) [
            | inl n ↦ absurd (ground arith)
            | inr (docs, l) ↦ elim (Option-cases (o.open_database config.sqlite_path)) [
              | inl n ↦ absurd (ground arith)
              | inr (db, q) ↦
                  elim (Sum-cases (new_store_on o.sql o.codec db (retention_duration config) now)) [
                    | inr (x, r) ↦ absurd (ground arith)
                    | inl (store, r) ↦
                        let made : start o now ≡ inl (started_with o now config docs store) =
                          rw (e, l, q, r, start) refl in
                        let same : started_with o now config docs store ≡ p =
                          ap (λ x. elim x [ inl y ↦ y | inr _ ↦ p ]) (sym made ∙ h) in
                        subst (IsReady o) same (
                          started_with-IsReady o now config docs store d e l (
                            restored-IsConsistent o.sql o.codec db (retention_duration config) now
                              store r))
                  ]
            ]
          ]
  ]
