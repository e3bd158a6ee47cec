-- ===== src/Executor/Tests.antt =====
-- One request on its way through the asynchronous executor.
use dbms_project_sp.Base.{
  ℕ, ◌≡◌, ◌⊎◌, refl, [], ◌∷◌, none, some, Bytes, bytes_eq, map, to_upper, is_lower, is_space, ◌++◌,
  codes, true, false, ok, err, is_alpha, ◌≢◌, Result, length, List, ◌≤◌, inr, arith,
}
use dbms_project_sp.Base.Dict.{find, put}
use dbms_project_sp.Executor.Async.{
  to_status_info, Executor, Job, running, completed, waiting, taken, started, begun, handled,
  update_snapshot, finish_snapshot, RequestSnapshot, RequestResultInfo, get_result, new_snapshot,
  submitted, took, step, stopped, submit, prune_old_snapshots, oldest_finished, get_status,
}
use dbms_project_sp.Executor.Async.Requests.{IsExecutor, IsTaken}
use dbms_project_sp.Executor.Async.Progress.{Works, get_result-Works}
use dbms_project_sp.Executor.Async.Bounds.{submit-bound}
use dbms_project_sp.Executor.Async.Reach.{
  Reachable, start, next, new_executor, Reachable-IsExecutor,
}
use dbms_project_sp.Base.JsonText.{plain, read_text}
use dbms_project_sp.Executor.RequestId.{
  Draws, generate_request_id, hex, is_valid_request_id, generate_request_id-is_valid,
}
use dbms_project_sp.Executor.Json.{
  escape_json_string, build_async_accepted_response, build_status_response, build_result_response,
}
use dbms_project_sp.Executor.Json.Escape.{escape_json_string-read}
use dbms_project_sp.Executor.Api.{
  ApiCommand, parse_api_command, remove_optional_semicolon, drop_semicolon, split_by_space,
  split_from,
}
use dbms_project_sp.Executor.Api.Commands.{IsWord, parse_api_command-request}
use dbms_project_sp.Executor.Classifier.{
  async, trim, drop_spaces, drop_last_spaces, first_token, classify_execution_mode,
  classify_execution_mode-same,
}
use dbms_project_sp.Executor.Service.{handle_client_command}
use dbms_project_sp.Executor.Service.Answers.{not_ready, handle_client_command-submit}
use dbms_project_sp.Executor.Service.Finished.{handle_client_command-Works}
use dbms_project_sp.Executor.Async.Outcome.{outcome_info, Later, get_result-handled}
use dbms_project_sp.Executor.Async.Status.{Answers, Place, get_status-pending}

abbrev request : Bytes
request = codes "7c"

-- One request in the queue.
abbrev one_queued : Executor
one_queued = submit request (codes "DROP TABLE t") (codes "ann") 5 (new_executor 1)

first_new : find request (new_executor 1).snapshots ≡ none
unfolding find
first_new = refl

submitted_step :
    step (submitted request (codes "DROP TABLE t") (codes "ann") 5) (new_executor 1)
    ≡ some one_queued
unfolding step
submitted_step = refl

Reachable-one_queued : Reachable 1 one_queued
Reachable-one_queued = next (new_executor 1) one_queued _ start first_new submitted_step

Reachable-IsExecutor_example : IsExecutor one_queued
Reachable-IsExecutor_example = Reachable-IsExecutor 1 one_queued Reachable-one_queued

found_queued : find request one_queued.snapshots ≡ some (new_snapshot request 5)
unfolding submit prune_old_snapshots oldest_finished put find bytes_eq
found_queued = refl

get_status-pending_example :
    ((front : List Job) × Place request one_queued.queue front
      × (get_status request one_queued
          ≡ some (to_status_info (new_snapshot request 5) (some (length front)))))
    ⊎ IsTaken request one_queued.worker
get_status-pending_example =
    get_status-pending 1 one_queued request (new_snapshot request 5) Reachable-one_queued
      found_queued refl

abbrev drop_job : Job
drop_job = record { id = request; client_id = codes "ann"; query = codes "DROP TABLE t" }

abbrev one_taken : Executor
one_taken = record one_queued { queue = []; worker = taken drop_job }

abbrev one_started : Executor
one_started = record one_taken {
  snapshots = update_snapshot request running none none true false 6 one_taken.snapshots;
  worker = started drop_job;
}

abbrev one_finished : Executor
one_finished = record one_started {
  snapshots = finish_snapshot request (ok (codes "OK")) 7 one_started.snapshots;
  worker = waiting;
}

took_step : step took one_queued ≡ some one_taken
unfolding step submit
took_step = refl

begun_step : step (begun 6) one_taken ≡ some one_started
unfolding step submit
begun_step = refl

handled_step : step (handled (ok (codes "OK")) 7) one_started ≡ some one_finished
unfolding step submit
handled_step = refl

Reachable-one_started : Reachable 1 one_started
Reachable-one_started =
    next one_taken one_started (begun 6)
      (next one_queued one_taken took Reachable-one_queued tt took_step) tt begun_step

Reachable-one_finished : Reachable 1 one_finished
Reachable-one_finished =
    next one_started one_finished (handled (ok (codes "OK")) 7) Reachable-one_started tt
      handled_step

abbrev finished_snapshot : RequestSnapshot
finished_snapshot = record {
  id = request;
  status = completed;
  result = some (codes "OK");
  error = none;
  submitted_at = 5;
  started_at = some 6;
  finished_at = some 7;
}

found_finished : find request one_finished.snapshots ≡ some finished_snapshot
unfolding submit prune_old_snapshots oldest_finished put find bytes_eq update_snapshot
found_finished = refl

get_result-handled_example :
    (get_result request one_finished ≡ some (outcome_info request (ok (codes "OK"))))
    × ((last : Executor)
        → Later request one_finished last
        → (get_result request last ≡ some (outcome_info request (ok (codes "OK"))))
          ⊎ (get_result request last ≡ none))
get_result-handled_example =
    get_result-handled 1 one_started one_finished drop_job (ok (codes "OK")) 7 Reachable-one_started
      refl handled_step

spaces : is_space 32 ≡ true
unfolding is_space
spaces = refl

same_letters : map to_upper (codes "insert into t") ≡ map to_upper (codes "INSERT into T")
unfolding to_upper is_lower
same_letters = refl

classify_execution_mode-same_example :
    classify_execution_mode (codes "  " ++ codes "insert into t")
    ≡ classify_execution_mode (codes "INSERT into T")
classify_execution_mode-same_example =
    classify_execution_mode-same (codes "  ") (codes "insert into t") (codes "INSERT into T")
      (spaces, (spaces, tt)) same_letters

escape_json_string-read_example :
    read_text plain (escape_json_string (codes "a\"b\n") ++ b'"' ∷ codes "}")
    ≡ some (codes "a\"b\n", codes "}")
escape_json_string-read_example = escape_json_string-read (codes "a\"b\n") (codes "}")

abbrev draws : Draws
draws = record {
  low = 0xDEADBEEF;
  mid = 7;
  high = 0xFFFFFFFF;
  clock = 1;
  node_low = 2;
  node_high = 3;
}

generate_request_id-is_valid_example : is_valid_request_id (generate_request_id draws) ≡ true
generate_request_id-is_valid_example = generate_request_id-is_valid draws

request-IsWord : IsWord request
unfolding is_space
request-IsWord = ((refl, refl), ((refl, refl), ((refl, refl), tt)))

parse_api_command-request_example :
    (parse_api_command (codes "GET STATUS " ++ request) ≡ ApiCommand.get_status request)
    × (parse_api_command ((codes "GET STATUS " ++ request) ++ b';' ∷ [])
        ≡ ApiCommand.get_status request)
    × (parse_api_command (codes "GET RESULT " ++ request) ≡ ApiCommand.get_result request)
    × (parse_api_command ((codes "GET RESULT " ++ request) ++ b';' ∷ [])
        ≡ ApiCommand.get_result request)
parse_api_command-request_example = parse_api_command-request request request-IsWord

-- A handler that throws.
abbrev refusing : Bytes → Result Bytes Bytes
refusing query = err (codes "no database")

waits : one_queued.worker ≢ stopped
unfolding submit
waits h = cc h

get_result-Works_example :
    (last : Executor) × Works refusing 9 one_queued last
    × (last.queue ≡ [])
    × ((info : RequestResultInfo) × (get_result request last ≡ some info)
        × (info.ready ≡ true)
        × Answers info)
get_result-Works_example =
    get_result-Works refusing 9 1 one_queued request (new_snapshot request 5) Reachable-one_queued
      waits found_queued

abbrev insertion : Bytes
insertion = codes " insert into t (a) value (1);"

abbrev clock_text : ℕ → Bytes
clock_text now = codes "now"

abbrev next_id : Bytes
next_id = generate_request_id draws

next-new : find next_id one_queued.snapshots ≡ none
unfolding submit prune_old_snapshots oldest_finished put find bytes_eq generate_request_id hex
next-new = refl

insertion-submit : parse_api_command insertion ≡ ApiCommand.submit_query insertion
unfolding parse_api_command remove_optional_semicolon drop_semicolon split_by_space split_from
    is_space trim drop_spaces drop_last_spaces bytes_eq to_upper is_lower
insertion-submit = refl

insertion-async : classify_execution_mode insertion ≡ async
unfolding classify_execution_mode first_token is_space trim drop_spaces drop_last_spaces bytes_eq
    to_upper is_lower is_alpha
insertion-async = refl

handle_client_command-submit_example :
    (handle_client_command refusing insertion clock_text (codes "bob") draws 8 one_queued ≡ (
      submit next_id insertion (codes "bob") 8 one_queued,
      build_async_accepted_response next_id,
    ))
    × (handle_client_command refusing
          (codes "GET STATUS " ++ next_id)
          clock_text
          (codes "ann")
          draws
          9
          (submit next_id insertion (codes "bob") 8 one_queued)
        ≡ (
          submit next_id insertion (codes "bob") 8 one_queued,
          build_status_response clock_text
              (to_status_info (new_snapshot next_id 8) (some (length one_queued.queue))),
        ))
    × (handle_client_command refusing
          (codes "GET RESULT " ++ next_id)
          clock_text
          (codes "ann")
          draws
          9
          (submit next_id insertion (codes "bob") 8 one_queued)
        ≡ (
          submit next_id insertion (codes "bob") 8 one_queued,
          build_result_response (not_ready next_id),
        ))
handle_client_command-submit_example =
    handle_client_command-submit refusing clock_text 1 one_queued insertion (codes "bob")
      (codes "ann") draws draws 8 9 Reachable-one_queued next-new insertion-submit insertion-async

handle_client_command-Works_example :
    (last : Executor) × Works refusing 9
      (handle_client_command refusing insertion clock_text (codes "bob") draws 8 one_queued).0
      last
    × (last.queue ≡ [])
    × (handle_client_command refusing
          (codes "GET RESULT " ++ next_id)
          clock_text
          (codes "ann")
          draws
          10
          last
        ≡ (last, build_result_response (outcome_info next_id (refusing insertion))))
handle_client_command-Works_example =
    handle_client_command-Works refusing clock_text 1 one_queued insertion (codes "bob")
      (codes "ann") draws draws 8 9 10 Reachable-one_queued waits next-new insertion-submit
      insertion-async

one_stored : length one_finished.snapshots ≤ one_finished.max_stored_requests
unfolding submit prune_old_snapshots oldest_finished put bytes_eq update_snapshot
one_stored = omega arith

submit-bound_example :
    length (submit next_id insertion (codes "bob") 10 one_finished).snapshots
    ≤ one_finished.max_stored_requests
submit-bound_example =
    submit-bound 1 one_finished next_id insertion (codes "bob") 10 Reachable-one_finished
      (inr (one_stored, (request, finished_snapshot, found_finished, refl)))
