-- ===== src/Executor/Service/Finished.antt =====
-- What the service answers once the worker has come to the end of its queue.
use dbms_project_sp.Base.{
  ℕ, ◌≡◌, ◌≢◌, refl, sym, ap, ◌∙◌, subst, true, [], ◌++◌, none, Bytes, Result, codes,
}
use dbms_project_sp.Base.Dict.{find}
use dbms_project_sp.Executor.Classifier.{async, classify_execution_mode}
use dbms_project_sp.Executor.RequestId.{
  Draws, generate_request_id, is_valid_request_id, generate_request_id-is_valid,
}
use dbms_project_sp.Executor.Json.{build_result_response}
use dbms_project_sp.Executor.Api.{submit_query, parse_api_command}
use dbms_project_sp.Executor.Api.Commands.{parse_api_command-request}
use dbms_project_sp.Executor.Async
use dbms_project_sp.Executor.Async.{
  pending, running, completed, failed, is_finished, RequestStatus, RequestSnapshot,
  RequestResultInfo, Job, Worker, waiting, stopped, taken, started, Snapshots, Executor,
  new_snapshot, update_snapshot, finish_snapshot, prune_old_snapshots, took, begun, handled,
  submitted, step, get_result,
}
use dbms_project_sp.Executor.Async.Requests.{IsExecutor}
use dbms_project_sp.Executor.Async.Reach.{Reachable, next, Reachable-IsExecutor}
use dbms_project_sp.Executor.Async.Progress.{Works, get_result-Works}
use dbms_project_sp.Executor.Async.Outcome.{outcome_info}
use dbms_project_sp.Executor.Service.{
  submit, submit_as, answered, get_result_json, handle_client_command,
}
use dbms_project_sp.Executor.Async.Owed.{Works-Owes, submit-Owes, ready-outcome}
use dbms_project_sp.Executor.Service.Ids.{is_valid_request_id-IsWord}
use dbms_project_sp.Executor.Service.Answers.{find-submit}

-- A query that is queued as `handle_client_command-submit` says, sent while the worker has not left its
-- loop: the worker's own events lead from there to a state with an empty queue in which whoever asks
-- with the id for the result reads exactly how the handler ended on the query, its answer or the text
-- of what it threw.
pub handle_client_command-Works :
    (handler : Bytes → Result Bytes Bytes) (format_timestamp : ℕ → Bytes) (max : ℕ) (e : Executor)
    (query client other : Bytes) (draws later : Draws) (now worked afterwards : ℕ)
    → Reachable max e
    → e.worker ≢ stopped
    → find (generate_request_id draws) e.snapshots ≡ none
    → parse_api_command query ≡ submit_query query
    → classify_execution_mode query ≡ async
    → let id = generate_request_id draws in
      let queued = (handle_client_command handler query format_timestamp client draws now e).0 in
      (last : Executor) × Works handler worked queued last
      × (last.queue ≡ [])
      × (handle_client_command handler
            (codes "GET RESULT " ++ id)
            format_timestamp
            other
            later
            afterwards
            last
          ≡ (last, build_result_response (outcome_info id (handler query))))
unfolding handle_client_command submit get_result_json step Async.submit
handle_client_command-Works handler format_timestamp max e query client other draws later now worked
      afterwards r runs new own mode =
    let id : Bytes = generate_request_id draws in
    let valid : is_valid_request_id id ≡ true = generate_request_id-is_valid draws in
    let (_, _, asks, _) = parse_api_command-request id (is_valid_request_id-IsWord id valid) in
    let w : IsExecutor e = Reachable-IsExecutor max e r in
    let state : Executor = Async.submit id query client now e in
    let queues : (handle_client_command handler query format_timestamp client draws now e).0
        ≡ state =
      ap (λ c. (answered handler c format_timestamp client draws now e).0) own
      ∙ ap (λ m. (submit_as handler m query client draws now e).0) mode in
    let (last, works, empty, (info, told, ready, _)) =
      get_result-Works handler worked max state id (new_snapshot id now)
        (next e state (submitted id query client now) r new refl) runs
        (find-submit id query client now e) in
    let (_, _, done) =
      Works-Owes handler id query worked state last works
        (submit-Owes handler id query client now e w new) in
    let result = ready-outcome handler id query last info done told ready in
    (
      last,
      subst (λ s. Works handler worked s last) (sym queues) works,
      empty,
      ap (λ c. answered handler c format_timestamp other later afterwards last) asks
          ∙ ap (λ text. (last, text)) (rw (valid, result, get_result_json) refl),
    )
