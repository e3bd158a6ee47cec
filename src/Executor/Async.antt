-- ===== src/Executor/Async.antt =====
-- `AsyncExecutor` of executor/src/async_executor.cpp: the clients' calls, the worker thread and the
-- destructor as events, each of which holds the mutex while it changes the state. What the program
-- takes from outside, the ids, the times and what the handler does, comes with the event.
pub mod Pruning
pub mod Requests
pub mod Reach
pub mod Status
pub mod Progress
pub mod Outcome
pub mod Owed
pub mod Bounds
use dbms_project_sp.Base.{
  ℕ, zero, suc, ◌+◌, Bool, true, false, not, ◌&&◌, ◌||◌, List, [], ◌∷◌, ◌++◌, Option, none, some,
  length, if◌then◌else◌, ltb, Bytes, bytes_eq, Result, ok, err,
}
use dbms_project_sp.Base.Dict.{find, put, drop_key}

pub data RequestStatus : Type 0 where
  pending running completed failed : RequestStatus

abbrev pub is_finished : RequestStatus → Bool
is_finished completed = true
is_finished failed = true
is_finished _ = false

abbrev pub is_pending : RequestStatus → Bool
is_pending pending = true
is_pending _ = false

pub record RequestSnapshot : Type 0 where
  pub id : Bytes
  pub status : RequestStatus
  pub result : Option Bytes
  pub error : Option Bytes
  pub submitted_at : ℕ
  pub started_at : Option ℕ
  pub finished_at : Option ℕ

pub record Job : Type 0 where
  pub id : Bytes
  pub client_id : Bytes
  pub query : Bytes

-- Where the worker thread is: before `cv_.wait`, in `processJob` before and behind its first update
-- of the snapshot, or behind its loop.
pub data Worker : Type 0 where
  waiting stopped : Worker
  taken started : Job → Worker

abbrev pub Snapshots : Type 0
Snapshots = List (Bytes × RequestSnapshot)

pub record Executor : Type 0 where
  pub max_stored_requests : ℕ
  pub queue : List Job
  pub snapshots : Snapshots
  pub stop : Bool
  pub worker : Worker

-- A time that is not there is not earlier.
abbrev earlier : Option ℕ → Option ℕ → Bool
earlier (some a) (some b) = ltb a b
earlier _ _ = false

abbrev replaces : RequestSnapshot → Option (Bytes × RequestSnapshot) → Bool
replaces s none = true
replaces s (some (_, best)) = earlier s.finished_at best.finished_at

unfoldable pub oldest_finished :
    Snapshots → Option (Bytes × RequestSnapshot) → Option (Bytes × RequestSnapshot)
oldest_finished [] best = best
oldest_finished ((id, s) ∷ m) best =
    oldest_finished m (if is_finished s.status && replaces s best then some (id, s) else best)

unfoldable pub prune_old_snapshots : ℕ → Snapshots → Snapshots
prune_old_snapshots max m =
    if ltb (length m) max
    then m
    else elim (oldest_finished m none) [ none ↦ m | some (id, s) ↦ drop_key id m ]

abbrev pub new_snapshot : Bytes → ℕ → RequestSnapshot
new_snapshot id now = record {
  id = id;
  status = pending;
  result = none;
  error = none;
  submitted_at = now;
  started_at = none;
  finished_at = none;
}

unfoldable pub submit : Bytes → Bytes → Bytes → ℕ → Executor → Executor
submit id query client now e = record e {
  snapshots = put id (new_snapshot id now) (prune_old_snapshots e.max_stored_requests e.snapshots);
  queue = e.queue ++ record { id = id; client_id = client; query = query } ∷ [];
}

-- `snapshots_[id]`: a snapshot that is missing is created with the time 0.
abbrev at_key : Option RequestSnapshot → Bytes → RequestSnapshot
at_key (some s) id = s
at_key none id = new_snapshot id 0

abbrev time_if : Bool → ℕ → Option ℕ → Option ℕ
time_if true now old = some now
time_if false now old = old

unfoldable pub update_snapshot :
    Bytes → RequestStatus → Option Bytes → Option Bytes → Bool → Bool → ℕ → Snapshots → Snapshots
update_snapshot id status result error set_started set_finished now m =
    let old = at_key (find id m) id in
    put id
      (record {
        id = id;
        status = status;
        result = result;
        error = error;
        submitted_at = old.submitted_at;
        started_at = time_if set_started now old.started_at;
        finished_at = time_if set_finished now old.finished_at;
      })
      m

-- The snapshot behind the handler: its answer, or the text of what it threw.
abbrev pub finish_snapshot : Bytes → Result Bytes Bytes → ℕ → Snapshots → Snapshots
finish_snapshot id (ok answer) now m =
    update_snapshot id completed (some answer) none false true now m
finish_snapshot id (err text) now m = update_snapshot id failed none (some text) false true now m

pub data Event : Type 0 where
  submitted : (id query client : Bytes) → ℕ → Event
  took stops shut_down : Event
  begun : ℕ → Event
  handled : Result Bytes Bytes → ℕ → Event

abbrev take : List Job → Executor → Option Executor
take [] e = none
take (job ∷ queue) e = some (record e { queue = queue; worker = taken job })

-- The loop ends only with an empty queue.
abbrev leave : Bool → List Job → Executor → Option Executor
leave true [] e = some (record e { worker = stopped })
leave _ _ e = none

abbrev worker_step : Event → Worker → Executor → Option Executor
worker_step took waiting e = take e.queue e
worker_step stops waiting e = leave e.stop e.queue e
worker_step (begun now) (taken job) e = some (record e {
  snapshots = update_snapshot job.id running none none true false now e.snapshots;
  worker = started job;
})
worker_step (handled outcome now) (started job) e =
    some (record e { snapshots = finish_snapshot job.id outcome now e.snapshots; worker = waiting })
worker_step _ _ e = none

-- The state behind an event; `none` where the event cannot happen.
unfoldable pub step : Event → Executor → Option Executor
step (submitted id query client now) e = some (submit id query client now e)
step shut_down e = some (record e { stop = true })
step event e = worker_step event e.worker e

unfoldable pub queue_position : Bytes → List Job → Option ℕ
queue_position id [] = none
queue_position id (job ∷ queue) =
    let rest = queue_position id queue in
    if bytes_eq job.id id then some 0 else elim rest [ none ↦ none | some n ↦ some (suc n) ]

pub record RequestStatusInfo : Type 0 where
  pub id : Bytes
  pub status : RequestStatus
  pub submitted_at : ℕ
  pub started_at : Option ℕ
  pub finished_at : Option ℕ
  pub queue_position : Option ℕ

abbrev pub to_status_info : RequestSnapshot → Option ℕ → RequestStatusInfo
to_status_info s position = record {
  id = s.id;
  status = s.status;
  submitted_at = s.submitted_at;
  started_at = s.started_at;
  finished_at = s.finished_at;
  queue_position = position;
}

unfoldable pub get_status : Bytes → Executor → Option RequestStatusInfo
get_status id e = elim (find id e.snapshots) [
  | none ↦ none
  | some s ↦
      some (to_status_info s (if is_pending s.status then queue_position id e.queue else none))
]

pub record RequestResultInfo : Type 0 where
  pub id : Bytes
  pub ready : Bool
  pub status : RequestStatus
  pub result : Option Bytes
  pub error : Option Bytes

abbrev to_result_info : RequestSnapshot → RequestStatus → RequestResultInfo
to_result_info s completed = record {
  id = s.id;
  ready = true;
  status = completed;
  result = s.result;
  error = none;
}
to_result_info s failed = record {
  id = s.id;
  ready = true;
  status = failed;
  result = none;
  error = s.error;
}
to_result_info s status = record {
  id = s.id;
  ready = false;
  status = status;
  result = none;
  error = none;
}

unfoldable pub get_result : Bytes → Executor → Option RequestResultInfo
get_result id e = elim (find id e.snapshots) [
  | none ↦ none
  | some s ↦ some (to_result_info s s.status)
]
