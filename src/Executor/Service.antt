-- ===== src/Executor/Service.antt =====
-- `ExecutorService` of executor/src/executor_service.cpp, over the state of the asynchronous
-- executor. The draws of the random engine and the time come with a call, the query handler is a
-- parameter, and the line for the access log is left out.
pub mod Ids
pub mod Answers
pub mod Finished
use dbms_project_sp.Base.{
  ℕ, Bool, false, [], ◌∷◌, ◌++◌, Option, none, some, if◌then◌else◌, ◌==◌, Bytes, codes, Result, ok,
  err,
}
use dbms_project_sp.Base.Int.{ℤ, pos}
use dbms_project_sp.Executor.Classifier.{ExecutionMode, sync, async, classify_execution_mode, trim}
use dbms_project_sp.Executor.RequestId.{Draws, generate_request_id, is_valid_request_id}
use dbms_project_sp.Executor.Json.{
  build_sync_response, build_async_accepted_response, build_error_response, build_status_response,
  build_result_response,
}
use dbms_project_sp.Executor.Api.{
  ApiCommand, submit_query, get_status, get_result, parse_api_command,
}
use dbms_project_sp.Executor.Async
use dbms_project_sp.Executor.Async.{Executor, RequestStatusInfo, RequestResultInfo}

abbrev pub error_code : ℤ
error_code = pos 1

abbrev pub not_found_code : ℤ
not_found_code = pos 404

abbrev is_rows : Bytes → Bool
is_rows [] = false
is_rows (c ∷ s) = c == b'['

-- The handler's text, or that of the exception it threw.
abbrev pub sync_answer : Result Bytes Bytes → Bytes
sync_answer (err message) = build_sync_response (codes "ERROR: " ++ message) error_code
sync_answer (ok body) = if is_rows (trim body) then trim body else build_sync_response body (pos 0)

abbrev pub status_answer : (ℕ → Bytes) → Option RequestStatusInfo → Bytes
status_answer format_timestamp none =
    build_error_response (codes "Request not found") not_found_code
status_answer format_timestamp (some info) = build_status_response format_timestamp info

abbrev pub result_answer : Option RequestResultInfo → Bytes
result_answer none = build_error_response (codes "Request not found") not_found_code
result_answer (some info) = build_result_response info

abbrev pub bad_id : Bytes
bad_id = build_error_response (codes "Invalid request_id format") error_code

unfoldable pub get_status_json : (ℕ → Bytes) → Bytes → Executor → Bytes
get_status_json format_timestamp id e =
    if is_valid_request_id id
    then status_answer format_timestamp (Async.get_status id e)
    else bad_id

unfoldable pub get_result_json : Bytes → Executor → Bytes
get_result_json id e =
    if is_valid_request_id id then result_answer (Async.get_result id e) else bad_id

module _ (handler : Bytes → Result Bytes Bytes) where
  unfoldable pub execute_sync : Bytes → Bytes
  execute_sync query = sync_answer (handler query)

  abbrev pub submit_as : ExecutionMode → Bytes → Bytes → Draws → ℕ → Executor → Executor × Bytes
  submit_as async query client draws now e =
      let id = generate_request_id draws in
      (Async.submit id query client now e, build_async_accepted_response id)
  submit_as sync query client draws now e = (e, execute_sync query)

  unfoldable pub submit : Bytes → Bytes → Draws → ℕ → Executor → Executor × Bytes
  submit query client draws now e =
      submit_as (classify_execution_mode query) query client draws now e

  abbrev pub answered : ApiCommand → (ℕ → Bytes) → Bytes → Draws → ℕ → Executor → Executor × Bytes
  answered (get_status id) format_timestamp client draws now e =
      (e, get_status_json format_timestamp id e)
  answered (get_result id) format_timestamp client draws now e = (e, get_result_json id e)
  answered (submit_query query) format_timestamp client draws now e =
      submit query client draws now e

  unfoldable pub handle_client_command :
      Bytes → (ℕ → Bytes) → Bytes → Draws → ℕ → Executor → Executor × Bytes
  handle_client_command command format_timestamp client draws now e =
      answered (parse_api_command command) format_timestamp client draws now e
