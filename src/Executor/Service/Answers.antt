-- ===== src/Executor/Service/Answers.antt =====
-- What the service answers to a query that it queues, and to the questions that follow.
use dbms_project_sp.Base.{
  ℕ, ◌≡◌, refl, ◌∙◌, ap, true, false, ◌++◌, none, some, length, Bytes, codes, Result,
}
use dbms_project_sp.Base.Dict.{find}
use dbms_project_sp.Executor.Classifier.{async, classify_execution_mode}
use dbms_project_sp.Executor.RequestId.{
  Draws, generate_request_id, is_valid_request_id, generate_request_id-is_valid,
}
use dbms_project_sp.Executor.Json.{
  build_async_accepted_response, build_status_response, build_result_response,
}
use dbms_project_sp.Executor.Api.{submit_query, parse_api_command}
use dbms_project_sp.Executor.Api.Commands.{parse_api_command-request}
use dbms_project_sp.Executor.Async
use dbms_project_sp.Executor.Async.{
  pending, Executor, queue_position, RequestResultInfo, prune_old_snapshots, new_snapshot,
  to_status_info, step, submitted,
}
use dbms_project_sp.Executor.Async.Requests.{find-put_self, AllPending-new, IsExecutor}
use dbms_project_sp.Executor.Async.Reach.{Reachable, Reachable-IsExecutor}
use dbms_project_sp.Executor.Service.{
  submit, submit_as, answered, get_status_json, get_result_json, handle_client_command,
}
use dbms_project_sp.Executor.Service.Ids.{is_valid_request_id-IsWord, queue_position-last}

-- What a client is told of the result of a request that waits.
abbrev pub not_ready : Bytes → RequestResultInfo
not_ready id = record { id = id; ready = false; status = pending; result = none; error = none }

get_status-found :
    (id : Bytes) (now n : ℕ) (e : Executor)
    → find id e.snapshots ≡ some (new_snapshot id now)
    → queue_position id e.queue ≡ some n
    → Async.get_status id e ≡ some (to_status_info (new_snapshot id now) (some n))
unfolding Async.get_status
get_status-found id now n e f at = rw (f, at, Async.get_status) refl

get_result-found :
    (id : Bytes) (now : ℕ) (e : Executor)
    → find id e.snapshots ≡ some (new_snapshot id now)
    → Async.get_result id e ≡ some (not_ready id)
unfolding Async.get_result
get_result-found id now e f = rw (f, Async.get_result) refl

module _ (id query client : Bytes) (now : ℕ) (e : Executor) where
  abbrev queued : Executor
  queued = Async.submit id query client now e

  pub find-submit : find id queued.snapshots ≡ some (new_snapshot id now)
  unfolding Async.submit
  find-submit =
      find-put_self id (new_snapshot id now) (prune_old_snapshots e.max_stored_requests e.snapshots)

  queue_position-submit :
      IsExecutor e
      → find id e.snapshots ≡ none
      → queue_position id queued.queue ≡ some (length e.queue)
  unfolding Async.submit
  queue_position-submit w new =
      queue_position-last e.queue (record { id = id; client_id = client; query = query })
        (AllPending-new id query client now e w new e.queue w.queued)

  get_status_json-submit :
      (format_timestamp : ℕ → Bytes)
      → is_valid_request_id id ≡ true
      → IsExecutor e
      → find id e.snapshots ≡ none
      → get_status_json format_timestamp id queued
        ≡ build_status_response format_timestamp
            (to_status_info (new_snapshot id now) (some (length e.queue)))
  unfolding get_status_json
  get_status_json-submit format_timestamp valid w new =
      rw
        (
          valid,
          get_status-found id now (length e.queue) queued find-submit (queue_position-submit w new),
          get_status_json,
        )
        refl

  get_result_json-submit :
      is_valid_request_id id ≡ true
      → get_result_json id queued ≡ build_result_response (not_ready id)
  unfolding get_result_json
  get_result_json-submit valid =
      rw (valid, get_result-found id now queued find-submit, get_result_json) refl

-- A query that classifies as asynchronous and is not one of the service's own commands, sent in a
-- reachable state in which its id is new, is answered with the id. Right behind that, whoever asks
-- with that id for the status reads that the request is pending, with as many jobs in front of it
-- as the queue had before, and who asks for the result reads that it is not ready.
pub handle_client_command-submit :
    (handler : Bytes → Result Bytes Bytes) (format_timestamp : ℕ → Bytes) (max : ℕ) (e : Executor)
    (query client other : Bytes) (draws later : Draws) (now afterwards : ℕ)
    → Reachable max e
    → find (generate_request_id draws) e.snapshots ≡ none
    → parse_api_command query ≡ submit_query query
    → classify_execution_mode query ≡ async
    → let id = generate_request_id draws in
      let queued = Async.submit id query client now e in
      (handle_client_command handler query format_timestamp client draws now e
        ≡ (queued, build_async_accepted_response id))
      × (handle_client_command handler
            (codes "GET STATUS " ++ id)
            format_timestamp
            other
            later
            afterwards
            queued
          ≡ (
            queued,
            build_status_response format_timestamp
                (to_status_info (new_snapshot id now) (some (length e.queue))),
          ))
      × (handle_client_command handler
            (codes "GET RESULT " ++ id)
            format_timestamp
            other
            later
            afterwards
            queued
          ≡ (queued, build_result_response (not_ready id)))
unfolding handle_client_command submit
handle_client_command-submit handler format_timestamp max e query client other draws later now
      afterwards r new own mode =
    let id : Bytes = generate_request_id draws in
    let valid : is_valid_request_id id ≡ true = generate_request_id-is_valid draws in
    let (status, _, result, _) =
      parse_api_command-request id (is_valid_request_id-IsWord id valid) in
    let w : IsExecutor e = Reachable-IsExecutor max e r in
    let state : Executor = Async.submit id query client now e in
    (
      ap (λ command. answered handler command format_timestamp client draws now e) own
          ∙ ap (λ m. submit_as handler m query client draws now e) mode,
      ap (λ command. answered handler command format_timestamp other later afterwards state) status
          ∙ ap (λ text. (state, text))
              (get_status_json-submit id query client now e format_timestamp valid w new),
      ap (λ command. answered handler command format_timestamp other later afterwards state) result
          ∙ ap (λ text. (state, text)) (get_result_json-submit id query client now e valid),
    )
