-- ===== src/Persistence/Tables.antt =====
-- The three tables of internal/persistence/migrations/00001_init.sql and the statements that the
-- store runs on them. Timestamps are stored as RFC 3339 texts, here as their stamps.
use vyomm.Prelude.{
  ℕ, ◌+◌, String, Bool, false, ◌||◌, Option, none, some, List, [], ◌∷◌, ◌++◌, ◌==◌, ltb,
  if◌then◌else◌,
}
use vyomm.GoTime.{Stamp}

pub record TelemetryRow : Type 0 where
  pub hostname : String
  pub role : String
  pub payload : String
  pub observed_at : Stamp
  pub run_id : String
  pub created_at : Stamp

pub record IncidentRow (F : Type 0) : Type 0 where
  pub id : String
  pub occurrence_key : String
  pub occurrence_sequence : ℕ
  pub severity : String
  pub affected_devices : String
  pub root_cause : String
  pub status : String
  pub created_at : Stamp
  pub updated_at : Stamp
  pub confidence : F
  pub predicted_sla_breach_minutes : ℕ
  pub recommended_action : String

pub record DecisionRow : Type 0 where
  pub incident_id : String
  pub status : String
  pub actor : String
  pub decided_at : Stamp

pub record Database (F : Type 0) : Type 0 where
  pub telemetry : List TelemetryRow
  pub incidents : List (IncidentRow F)
  pub decisions : List DecisionRow

-- `DELETE FROM telemetry WHERE observed_at < ?`
unfoldable pub delete_before : Stamp → List TelemetryRow → List TelemetryRow
delete_before cutoff [] = []
delete_before cutoff (r ∷ rs) =
    let rest = delete_before cutoff rs in if ltb r.observed_at cutoff then rest else r ∷ rest

-- The number of rows that it deletes.
unfoldable pub count_before : Stamp → List TelemetryRow → ℕ
count_before cutoff [] = 0
count_before cutoff (r ∷ rs) = (if ltb r.observed_at cutoff then 1 else 0) + count_before cutoff rs

-- `SELECT … FROM telemetry WHERE observed_at >= ?`, before its ORDER BY.
unfoldable pub select_from : Stamp → List TelemetryRow → List TelemetryRow
select_from cutoff [] = []
select_from cutoff (r ∷ rs) =
    let rest = select_from cutoff rs in if ltb r.observed_at cutoff then rest else r ∷ rest

module _ {F : Type 0} where
  -- `id TEXT PRIMARY KEY`
  unfoldable pub has_incident : List (IncidentRow F) → String → Bool
  has_incident [] id = false
  has_incident (r ∷ rs) id = r.id == id || has_incident rs id

  -- `INSERT INTO incidents`: `none` where the primary key is taken.
  unfoldable pub insert_incident :
      List (IncidentRow F) → IncidentRow F → Option (List (IncidentRow F))
  insert_incident rs r = if has_incident rs r.id then none else some (rs ++ (r ∷ []))

  -- `UPDATE incidents SET status = ?, updated_at = ? WHERE id = ?`
  unfoldable pub update_status :
      String → Stamp → String → List (IncidentRow F) → List (IncidentRow F)
  update_status status at id [] = []
  update_status status at id (r ∷ rs) =
      (if r.id == id then record r { status = status; updated_at = at } else r)
      ∷ update_status status at id rs
