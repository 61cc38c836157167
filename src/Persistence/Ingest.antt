-- ===== src/Persistence/Ingest.antt =====
-- `Ingest` and `Prune`, with the failures of the database calls as inputs.
pub mod Accounting
pub mod Pruning
use vyomm.Prelude.{
  ℕ, suc, ◌+◌, ◌⊎◌, inl, inr, String, Bool, not, Option, none, some, List, [], ◌∷◌, ◌++◌,
  if◌then◌else◌,
}
use vyomm.Float64.{Float64}
use vyomm.GoTime.{Time, Stamp, rfc3339, before_by}
use vyomm.Telemetry.{DeviceTelemetry, ValidationError, validate}
use vyomm.Persistence.{Store, append_all}
use vyomm.Persistence.Tables.{TelemetryRow, delete_before, count_before}

-- Which database calls succeed; `exec_ok` is asked by the number of the statement in its transaction.
pub record Faults : Type 0 where
  pub begin_ok : Bool
  pub prepare_ok : Bool
  pub exec_ok : ℕ → Bool
  pub commit_ok : Bool

-- json.Marshal and json.Unmarshal at the types that the store saves.
pub record Codec (F : Type 0) : Type 0 where
  pub marshal_device : DeviceTelemetry F → Option String
  pub unmarshal_device : String → Option (DeviceTelemetry F)
  pub marshal_names : List String → Option String
  pub unmarshal_names : String → Option (List String)

pub data StoreError : Type 0 where
  begin_failed prepare_failed commit_failed : StoreError
  marshal_failed insert_failed : String → StoreError
  update_failed decision_failed delete_failed query_failed scan_failed not_found : StoreError

pub record IngestResult (F : Type 0) : Type 0 where
  pub accepted : ℕ
  pub rejected : ℕ
  pub errors : List (String × ValidationError F)
  pub valid_devices : List (DeviceTelemetry F)

module _ {F : Type 0} where
  -- The parameters of the INSERT.
  unfoldable pub row_of : String → String → Stamp → DeviceTelemetry F → TelemetryRow
  row_of payload run_id created_at d = record {
    hostname = d.hostname;
    role = d.role;
    payload = payload;
    observed_at = rfc3339 d.observed_at;
    run_id = run_id;
    created_at = created_at;
  }

  -- The loop over the valid devices inside the transaction: the rows that it inserts, or its error.
  unfoldable pub insert_rows :
      Codec F
      → Faults
      → String
      → Stamp
      → ℕ
      → List (DeviceTelemetry F)
      → List TelemetryRow ⊎ StoreError
  insert_rows codec faults run_id created_at n [] = inl []
  insert_rows codec faults run_id created_at n (d ∷ ds) = elim (codec.marshal_device d) [
    | none ↦ inr (marshal_failed d.hostname)
    | some payload ↦
        if not (faults.exec_ok n)
        then inr (insert_failed d.hostname)
        else elim (insert_rows codec faults run_id created_at (suc n) ds) [
          | inr e ↦ inr e
          | inl rows ↦ inl (row_of payload run_id created_at d ∷ rows)
        ]
  ]

  -- The transaction of `Ingest`: the rows that it commits.
  unfoldable pub ingest_rows :
      Codec F → Faults → String → Stamp → List (DeviceTelemetry F) → List TelemetryRow ⊎ StoreError
  unfolding insert_rows
  ingest_rows codec faults run_id created_at [] = inl []
  ingest_rows codec faults run_id created_at (d ∷ ds) =
      if not faults.begin_ok
      then inr begin_failed
      else if not faults.prepare_ok
      then inr prepare_failed
      else elim (insert_rows codec faults run_id created_at 0 (d ∷ ds)) [
        | inr e ↦ inr e
        | inl rows ↦ if faults.commit_ok then inl rows else inr commit_failed
      ]

  module _ ⦃fl : Float64 F⦄ where
    -- The validation loop; `valid_devices` holds the local `valid`.
    unfoldable pub validate_batch : List (DeviceTelemetry F) → IngestResult F
    validate_batch [] = record { accepted = 0; rejected = 0; errors = []; valid_devices = [] }
    validate_batch (d ∷ ds) =
        let rest = validate_batch ds in
        elim (validate d) [
          | none ↦ record rest {
            accepted = rest.accepted + 1;
            valid_devices = d ∷ rest.valid_devices;
          }
          | some e ↦ record rest {
            rejected = rest.rejected + 1;
            errors = (d.hostname, e) ∷ rest.errors;
          }
        ]

    -- With an error Go returns the counts and the errors, and no valid devices.
    unfoldable pub ingest :
        Codec F
        → Faults
        → Store F
        → List (DeviceTelemetry F)
        → String
        → Time
        → Store F × IngestResult F × Option StoreError
    unfolding validate_batch ingest_rows
    ingest codec faults s devices run_id now =
        let result = validate_batch devices in
        elim (ingest_rows codec faults run_id (rfc3339 now) result.valid_devices) [
          | inr e ↦ (s, record result { valid_devices = [] }, some e)
          | inl rows ↦ (
            append_all (record s { db = record s.db { telemetry = s.db.telemetry ++ rows } })
                result.valid_devices,
            result,
            none,
          )
        ]

  -- `exec` and `affected` say whether the statement and its count of rows succeed.
  unfoldable pub prune : Bool → Bool → Store F → Time → Store F × (ℕ ⊎ StoreError)
  prune exec affected s now =
      let cutoff = rfc3339 (before_by now s.retention) in
      if not exec then (s, inr delete_failed) else (
        record s { db = record s.db { telemetry = delete_before cutoff s.db.telemetry } },
        (if affected then inl (count_before cutoff s.db.telemetry) else inr delete_failed),
      )
