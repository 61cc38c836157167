-- ===== src/Persistence/Ingest/Accounting.antt =====
-- What `Ingest` counts, reports and stores.
use vyomm.Prelude.{
  ℕ, suc, ◌+◌, String, ◌≡◌, ◌⊎◌, refl, sym, subst, ap, inl, inr, Option-cases, none, some, List, [],
  ◌∷◌, ◌++◌, arith, length,
}
use vyomm.Float64.{Float64}
use vyomm.GoTime.{Time, Stamp, rfc3339}
use vyomm.Telemetry.{DeviceTelemetry, ValidationError, validate}
use vyomm.Persistence.{
  Store, append_history, append_all, history_of, keep_last, max_history_per_device,
}
use vyomm.Persistence.Cache.{IsCached, append_all_lem, of_host}
use vyomm.Persistence.Tables.{TelemetryRow}
use vyomm.Persistence.Ingest.{
  Faults, Codec, StoreError, row_of, insert_rows, ingest_rows, validate_batch, ingest,
}

pub Sum-cases {ℓ} : {A B : Type ℓ} (s : A ⊎ B) → ((a : A) × (s ≡ inl a)) ⊎ ((b : B) × (s ≡ inr b))
Sum-cases (inl a) = inl (a, refl)
Sum-cases (inr b) = inr (b, refl)

module _ {F : Type 0} ⦃fl : Float64 F⦄ where
  -- A batch is divided, in order, into the samples that validate and the errors of the others.
  pub data Divides
      : List (DeviceTelemetry F)
        → List (DeviceTelemetry F)
        → List (String × ValidationError F)
        → Type 0 where
    none_left : Divides [] [] []
    valid_next :
        {d : DeviceTelemetry F} {ds valid : List (DeviceTelemetry F)}
        {errors : List (String × ValidationError F)}
        → validate d ≡ none
        → Divides ds valid errors
        → Divides (d ∷ ds) (d ∷ valid) errors
    error_next :
        {d : DeviceTelemetry F} {ds valid : List (DeviceTelemetry F)}
        {errors : List (String × ValidationError F)} {e : ValidationError F}
        → validate d ≡ some e
        → Divides ds valid errors
        → Divides (d ∷ ds) valid ((d.hostname, e) ∷ errors)

  validate_batch-Divides :
      (ds : List (DeviceTelemetry F))
      → Divides ds (validate_batch ds).valid_devices (validate_batch ds).errors
  unfolding validate_batch
  validate_batch-Divides [] = none_left
  validate_batch-Divides (d ∷ ds) = elim (Option-cases (validate d)) [
    | inl e ↦ rw (e, validate_batch) (valid_next e (validate_batch-Divides ds))
    | inr (x, e) ↦ rw (e, validate_batch) (error_next e (validate_batch-Divides ds))
  ]

  validate_batch-counts :
      (ds : List (DeviceTelemetry F))
      → let r = validate_batch ds in
        (r.accepted ≡ length r.valid_devices)
        × (r.rejected ≡ length r.errors)
        × (r.accepted + r.rejected ≡ length ds)
  unfolding validate_batch
  validate_batch-counts [] = (refl, refl, omega arith)
  validate_batch-counts (d ∷ ds) = ground (arith, validate_batch-counts ds)

  -- The rows that samples are stored as: one for each, in order, with its JSON as the payload.
  abbrev pub AreRowsOf :
      Codec F → String → Time → List (DeviceTelemetry F) → List TelemetryRow → Type 0
  AreRowsOf codec run_id now [] [] = Unit
  AreRowsOf codec run_id now (d ∷ ds) (r ∷ rs) =
      (codec.marshal_device d ≡ some r.payload)
      × (r ≡ row_of r.payload run_id (rfc3339 now) d)
      × AreRowsOf codec run_id now ds rs
  AreRowsOf codec run_id now _ _ = ⊥

  insert_rows_cons :
      (codec : Codec F) (faults : Faults) (run_id : String) (at : Stamp) (n : ℕ)
      (d : DeviceTelemetry F) (ds : List (DeviceTelemetry F)) (rows : List TelemetryRow)
      → insert_rows codec faults run_id at n (d ∷ ds) ≡ inl rows
      → (payload : String) × (rest : List TelemetryRow) × (codec.marshal_device d ≡ some payload)
        × (insert_rows codec faults run_id at (suc n) ds ≡ inl rest)
        × (rows ≡ row_of payload run_id at d ∷ rest)
  unfolding insert_rows
  insert_rows_cons codec faults run_id at n d ds rows h = ground arith

  insert_rows-AreRowsOf :
      (codec : Codec F) (faults : Faults) (run_id : String) (now : Time) (n : ℕ)
      (ds : List (DeviceTelemetry F)) (rows : List TelemetryRow)
      → insert_rows codec faults run_id (rfc3339 now) n ds ≡ inl rows
      → AreRowsOf codec run_id now ds rows
  unfolding row_of
  insert_rows-AreRowsOf codec faults run_id now n [] rows h =
      subst (AreRowsOf codec run_id now []) {x = []} (unfold insert_rows in ground (arith, h)) tt
  insert_rows-AreRowsOf codec faults run_id now n (d ∷ ds) rows h =
      let (payload, rest, m, i, e) =
        insert_rows_cons codec faults run_id (rfc3339 now) n d ds rows h in
      subst (AreRowsOf codec run_id now (d ∷ ds)) (sym e)
        (m, unfold row_of in refl, insert_rows-AreRowsOf codec faults run_id now (suc n) ds rest i)

  ingest_rows-AreRowsOf :
      (codec : Codec F) (faults : Faults) (run_id : String) (now : Time)
      (ds : List (DeviceTelemetry F)) (rows : List TelemetryRow)
      → ingest_rows codec faults run_id (rfc3339 now) ds ≡ inl rows
      → AreRowsOf codec run_id now ds rows
  unfolding ingest_rows
  ingest_rows-AreRowsOf codec faults run_id now [] rows h =
      insert_rows-AreRowsOf codec faults run_id now 0 [] rows (unfold insert_rows in h)
  ingest_rows-AreRowsOf codec faults run_id now (d ∷ ds) rows h =
      insert_rows-AreRowsOf codec faults run_id now 0 (d ∷ ds) rows (ground arith)

  -- For every batch and whatever the database does, each sample is counted once, as accepted or as
  -- rejected, and each rejected one has an error; where no error is returned, the batch is divided
  -- in order into the samples that validate, which are returned, and the host names and validation
  -- errors of the others.
  pub ingest_accounts :
      (codec : Codec F) (faults : Faults) (s : Store F) (ds : List (DeviceTelemetry F))
      (run_id : String) (now : Time)
      → let (after, r, e) = ingest codec faults s ds run_id now in
        (r.accepted + r.rejected ≡ length ds)
        × (r.rejected ≡ length r.errors)
        × (e ≡ none → Divides ds r.valid_devices r.errors)
  unfolding ingest
  ingest_accounts codec faults s ds run_id now =
      let (a, b, c) = validate_batch-counts ds in
      let valid = (validate_batch ds).valid_devices in
      elim (Sum-cases (ingest_rows codec faults run_id (rfc3339 now) valid)) [
        | inl (rows, e) ↦ rw (e, ingest) (c, b, λ _. validate_batch-Divides ds)
        | inr (x, e) ↦ rw (e, ingest) (c, b, λ p. cc)
      ]

  db-append_all : (s : Store F) (ds : List (DeviceTelemetry F)) → (append_all s ds).db ≡ s.db
  unfolding append_all append_history
  db-append_all s [] = refl
  db-append_all s (d ∷ ds) = db-append_all (append_history s d) ds

  -- Where the caches are in order before: an ingest that returns an error has changed nothing, in the
  -- database or in memory; one that returns none has added to the telemetry table one row for each valid sample, in order, and the
  -- caches stay in order: each host's history is the last 90 of its former history followed by its
  -- valid samples.
  pub ingest_atomic :
      (codec : Codec F) (faults : Faults) (s : Store F) (ds : List (DeviceTelemetry F))
      (run_id : String) (now : Time)
      → IsCached s
      → let (after, r, e) = ingest codec faults s ds run_id now in
        ((x : StoreError) → e ≡ some x → after ≡ s)
        × (e ≡ none
            → ((rows : List TelemetryRow) × AreRowsOf codec run_id now r.valid_devices rows
                × (after.db.telemetry ≡ s.db.telemetry ++ rows))
              × IsCached after
              × ((h : String)
                  → history_of after h
                    ≡ keep_last max_history_per_device
                        (history_of s h ++ of_host h r.valid_devices)))
  unfolding ingest history_of
  ingest_atomic codec faults s ds run_id now v =
      let valid = (validate_batch ds).valid_devices in
      elim (Sum-cases (ingest_rows codec faults run_id (rfc3339 now) valid)) [
        | inl (rows, e) ↦
            let stored : Store F = record s {
              db = record s.db { telemetry = s.db.telemetry ++ rows };
            } in
            let (cached, histories) =
              append_all_lem stored valid (record { bounded = v.bounded; current = v.current }) in
            rw (e, ingest)
              (
                λ x p. cc,
                λ p. (
                  (
                    rows,
                    ingest_rows-AreRowsOf codec faults run_id now valid rows e,
                    ap (λ d. d.telemetry) (db-append_all stored valid),
                  ),
                  cached,
                  histories,
                ),
              )
        | inr (x, e) ↦ rw (e, ingest) (λ y p. refl, λ p. cc)
      ]
