-- ===== src/Incidents.antt =====
-- internal/incidents/incidents.go: incident records, the correlation rules, and `Correlate`.
pub mod Neighbors
pub mod Rules
pub mod Store
use vyomm.Prelude.{ℕ, String, List, [], ◌∷◌}
use vyomm.GoTime.{Time}

abbrev pub severity_high : String
severity_high = "high"

abbrev pub severity_critical : String
severity_critical = "critical"

abbrev pub status_active : String
status_active = "active"

abbrev pub status_resolved : String
status_resolved = "resolved"

abbrev pub status_ignored : String
status_ignored = "ignored"

pub record Incident (F : Type 0) : Type 0 where
  pub id : String
  pub occurrence_key : String
  pub occurrence_sequence : ℕ
  pub severity : String
  pub affected_devices : List String
  pub root_cause : String
  pub status : String
  pub created_at : Time
  pub updated_at : Time
  pub confidence : F
  pub predicted_sla_breach_minutes : ℕ
  pub recommended_action : String

pub record Decision : Type 0 where
  pub incident_id : String
  pub status : String
  pub actor : String
  pub decided_at : Time

pub record Candidate (F : Type 0) : Type 0 where
  pub occurrence_key : String
  pub root_cause : String
  pub severity : String
  pub affected_devices : List String
  pub confidence : F
  pub sla_breach_minutes : ℕ
  pub recommended_action : String
