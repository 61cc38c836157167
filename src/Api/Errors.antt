-- ===== src/Api/Errors.antt =====
-- internal/api/server.go and dto.go: the bodies of error responses.
use Prim.Native.String.{slice}
use vyomm.Prelude.{ℕ, ◌+◌, ◌/◌, ◌%◌, String, Option, none, some, List, [], ◌∷◌}
use vyomm.Prelude.Text.{concat}
use vyomm.Api.{
  Answer, ingested, decided, invalid_request, invalid_status, incident_not_found, ingest_failed,
}

-- `errorBody`, which `errorDTO` wraps.
pub record ErrorBody : Type 0 where
  pub code : String
  pub message : String
  pub trace_id : String

-- `hex.EncodeToString`
unfoldable pub hex_text : List ℕ → String
hex_text [] = ""
hex_text (b ∷ bs) =
    let digits : String = "0123456789abcdef" in
    concat (slice digits (b / 16) (b / 16 + 1))
      (concat (slice digits (b % 16) (b % 16 + 1)) (hex_text bs))

-- `newTraceID`, of the 8 bytes that rand.Read gives, or none where it fails.
unfoldable pub new_trace_id : Option (List ℕ) → String
unfolding hex_text
new_trace_id none = "unavailable"
new_trace_id (some bytes) = hex_text bytes

-- `writeError`; the status code is written beside it.
unfoldable pub write_error : Option (List ℕ) → String → String → ErrorBody
unfolding new_trace_id
write_error random code message = record {
  code = code;
  message = message;
  trace_id = new_trace_id random;
}

-- The error that a handler answers, from the decoder's message and the path value.
unfoldable pub answer_error :
    {F : Type 0} → Option (List ℕ) → String → String → Answer F → Option ErrorBody
unfolding write_error
answer_error random decode_error id (ingested _ _ _) = none
answer_error random decode_error id (decided _) = none
answer_error random decode_error id invalid_request =
    some (write_error random "invalid_request" (concat "malformed JSON body: " decode_error))
answer_error random decode_error id invalid_status =
    some (write_error random "invalid_status" "status must be 'resolved' or 'ignored'")
answer_error random decode_error id incident_not_found =
    some (write_error random "not_found" (concat "incident not found: " id))
answer_error random decode_error id ingest_failed =
    some (write_error random "ingest_failed" "failed to persist telemetry batch")
