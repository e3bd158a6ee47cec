-- ===== src/Executor/Json.antt =====
-- executor/src/json_response.cpp: the answers of the service as JSON. A time is printed by a
-- parameter, `formatTimestamp`, which uses the clock of the machine.
pub mod Escape
use dbms_project_sp.Base.{
  ℕ, ◌+◌, ◌/◌, ◌%◌, Bool, true, false, ◌&&◌, ◌||◌, List, [], ◌∷◌, ◌++◌, Option, none, some,
  if◌then◌else◌, ltb, ◌==◌, Bytes, codes,
}
use dbms_project_sp.Base.Int.{ℤ, pos}
use dbms_project_sp.Base.Number.{to_string}
use dbms_project_sp.Executor.RequestId.{hex}
use dbms_project_sp.Executor.Async.{
  RequestStatus, pending, running, completed, failed, RequestStatusInfo, RequestResultInfo,
}

unfoldable pub escape_byte : ℕ → Bytes
escape_byte c =
    if c == b'"'
    then codes "\\\""
    else if c == b'\\'
    then codes "\\\\"
    else if c == 8
    then codes "\\b"
    else if c == 12
    then codes "\\f"
    else if c == b'\n'
    then codes "\\n"
    else if c == b'\r'
    then codes "\\r"
    else if c == b'\t'
    then codes "\\t"
    else if ltb c 32
    then codes "\\u" ++ hex 4 c
    else c ∷ []

unfoldable pub escape_json_string : Bytes → Bytes
escape_json_string [] = []
escape_json_string (c ∷ s) = escape_byte c ++ escape_json_string s

abbrev quoted : Bytes → Bytes
quoted s = b'"' ∷ (escape_json_string s ++ b'"' ∷ [])

unfoldable pub looks_like_json_value : Bytes → Bool
looks_like_json_value [] = false
looks_like_json_value (c ∷ s) = c == b'[' || c == b'{'

unfoldable pub json_or_string : Bytes → Bytes
json_or_string value = if looks_like_json_value value then value else quoted value

unfoldable pub status_text : RequestStatus → Bytes
status_text pending = codes "pending"
status_text running = codes "running"
status_text completed = codes "completed"
status_text failed = codes "failed"

abbrev field : Bytes → Bytes → Bytes
field name value = b'"' ∷ (name ++ codes "\":" ++ value)

unfoldable pub build_sync_response : Bytes → ℤ → Bytes
build_sync_response result status_code =
    codes "{\"mode\":\"sync\",\"status_code\":"
    ++ to_string status_code
    ++ codes ",\"result\":"
    ++ json_or_string result
    ++ codes "}"

unfoldable pub build_async_accepted_response : Bytes → Bytes
build_async_accepted_response id =
    codes "{\"mode\":\"async\",\"request_id\":" ++ quoted id ++ codes "}"

unfoldable pub build_error_response : Bytes → ℤ → Bytes
build_error_response message code =
    codes "{\"error\":" ++ quoted message ++ codes ",\"code\":" ++ to_string code ++ codes "}"

abbrev truth : Bool → Bytes
truth b = if b then codes "true" else codes "false"

abbrev value_if : Bool → Bytes → Option Bytes → Bytes
value_if true name (some value) = b',' ∷ field name (json_or_string value)
value_if _ name value = []

unfoldable pub build_result_response : RequestResultInfo → Bytes
build_result_response info =
    codes "{\"request_id\":"
    ++ quoted info.id
    ++ codes ",\"ready\":"
    ++ truth info.ready
    ++ codes ",\"status\":\""
    ++ status_text info.status
    ++ codes "\""
    ++ value_if info.ready (codes "result") info.result
    ++ value_if info.ready (codes "error") info.error
    ++ codes "}"

module _ (format_timestamp : ℕ → Bytes) where
  unfoldable pub optional_timestamp : Bytes → Option ℕ → Bytes
  optional_timestamp name none = b',' ∷ field name (codes "null")
  optional_timestamp name (some time) = b',' ∷ field name (quoted (format_timestamp time))

  abbrev position_field : Option ℕ → Bytes
  position_field none = []
  position_field (some n) = codes ",\"queue_position\":" ++ to_string (pos n)

  unfoldable pub build_status_response : RequestStatusInfo → Bytes
  build_status_response info =
      codes "{\"request_id\":"
      ++ quoted info.id
      ++ codes ",\"status\":\""
      ++ status_text info.status
      ++ codes "\",\"submitted_at\":"
      ++ quoted (format_timestamp info.submitted_at)
      ++ optional_timestamp (codes "started_at") info.started_at
      ++ optional_timestamp (codes "finished_at") info.finished_at
      ++ position_field info.queue_position
      ++ codes "}"
