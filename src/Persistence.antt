-- ===== src/Persistence.antt =====
-- internal/persistence/store.go: the state of the durable store, the bounded caches and pruning.
-- The tables are those of migrations/00001_init.sql, as lists of rows in insertion order.
pub mod Tables
pub mod Cache
pub mod Ingest
pub mod Incidents
pub mod Restore
use vyomm.Prelude.{
  ℕ, suc, ◌+◌, ◌-◌, String, Bool, Option, none, some, List, [], ◌∷◌, ◌++◌, ◌==◌, ◌||◌, ltb,
  if◌then◌else◌, length, take, drop,
}
use vyomm.Prelude.Text.{text_ltb}
use vyomm.NameSet.{contains}
use vyomm.Prelude.Sorting.{sort_by}
use vyomm.GoMap
use vyomm.GoMap.{GoMap}
use vyomm.GoTime.{Time, Duration}
use vyomm.Telemetry.{DeviceTelemetry}
use vyomm.Detection.{Anomaly}
use vyomm.Incidents.{Store.Store as IncidentStore}
use vyomm.Incidents.Store.{or_nil}
use vyomm.Persistence.Tables.{Database}

pub record Store (F : Type 0) : Type 0 where
  pub db : Database F
  pub retention : Duration
  pub latest : GoMap (DeviceTelemetry F)
  pub history : GoMap (List (DeviceTelemetry F))
  pub incidents : IncidentStore F
  pub anomalies : List (Anomaly F)

abbrev pub max_history_per_device : ℕ
max_history_per_device = 90

abbrev pub max_anomalies : ℕ
max_anomalies = 100

-- The first `n` elements go, where there are more than `n`.
unfoldable pub keep_last {ℓ} : {A : Type ℓ} → ℕ → List A → List A
keep_last n h = if ltb n (length h) then drop (length h - n) h else h

-- `if len(s) > n { s = s[:n] }`
unfoldable pub keep_first {ℓ} : {A : Type ℓ} → ℕ → List A → List A
keep_first n l = if ltb n (length l) then take n l else l

module _ {F : Type 0} where
  -- `s.history[hostname]`, which `History` copies.
  unfoldable pub history_of : Store F → String → List (DeviceTelemetry F)
  history_of s hostname = or_nil (GoMap.get s.history hostname)

  unfoldable pub append_history : Store F → DeviceTelemetry F → Store F
  unfolding history_of
  append_history s d = record s {
    latest = GoMap.put s.latest d.hostname d;
    history =
        GoMap.put s.history d.hostname
          (keep_last max_history_per_device (history_of s d.hostname ++ (d ∷ [])));
  }

  -- The loops over accepted or restored samples.
  unfoldable pub append_all : Store F → List (DeviceTelemetry F) → Store F
  append_all s [] = s
  append_all s (d ∷ ds) = append_all (append_history s d) ds

  -- The IDs of the buffer: the first loop of `addAnomaliesLocked`.
  unfoldable pub anomaly_ids : List (Anomaly F) → List String
  anomaly_ids [] = []
  anomaly_ids (a ∷ more) = a.id ∷ anomaly_ids more

  -- The second loop, over the new anomalies; `existing` are the known IDs.
  unfoldable pub add_new : List String → List (Anomaly F) → List (Anomaly F) → List (Anomaly F)
  add_new existing buffer [] = buffer
  add_new existing buffer (a ∷ more) =
      let skip = add_new existing buffer more in
      let add = add_new (a.id ∷ existing) (a ∷ buffer) more in
      if contains existing a.id then skip else add

  unfoldable pub add_anomalies : List (Anomaly F) → List (Anomaly F) → List (Anomaly F)
  add_anomalies buffer new = keep_first max_anomalies (add_new (anomaly_ids buffer) buffer new)

  unfoldable pub record_anomalies : Store F → List (Anomaly F) → Store F
  unfolding add_anomalies
  record_anomalies s new = record s { anomalies = add_anomalies s.anomalies new }

  -- `sort.Slice` by host name; the names of a map's values are distinct, so that the order is unique.
  -- `sort.Slice` by host name.
  unfoldable pub sort_by_host : List (DeviceTelemetry F) → List (DeviceTelemetry F)
  sort_by_host ds = sort_by (λ d. d.hostname) ds

  unfoldable pub latest_devices : Store F → List (DeviceTelemetry F)
  unfolding sort_by_host
  latest_devices s = sort_by_host (GoMap.values s.latest)
