-- ===== src/Executor/Async/Progress.antt =====
-- The worker's own events are enough to finish every request.
use dbms_project_sp.Base.{
  ℕ, ◌≡◌, ◌≢◌, refl, subst, ◌∙◌, true, false, List, [], ◌∷◌, none, some, Bytes, bytes_eq,
  Bool-cases, inl, inr, Result, ok, err,
}
use dbms_project_sp.Base.Dict.{find, put, find-put}
use dbms_project_sp.Executor.Async.{
  RequestStatus, pending, running, completed, failed, is_finished, RequestSnapshot, Job, Worker,
  waiting, stopped, taken, started, Snapshots, Executor, update_snapshot, finish_snapshot, took,
  begun, handled, step, RequestResultInfo, get_result,
}
use dbms_project_sp.Executor.Async.Requests.{Explains}
use dbms_project_sp.Executor.Async.Reach.{Reachable, next, Reachable-IsExecutor}
use dbms_project_sp.Executor.Async.Status.{Answers, get_result-is_finished}

-- What the worker does by itself: it takes a job, says that it runs, and says how the handler ended
-- on its query.
pub data Works (handler : Bytes → Result Bytes Bytes) (now : ℕ) : Executor → Executor → Type 0 where
  rests : (e : Executor) → Works handler now e e
  takes :
      (e e' last : Executor)
      → step took e ≡ some e'
      → Works handler now e' last
      → Works handler now e last
  begins :
      (e e' last : Executor)
      → step (begun now) e ≡ some e'
      → Works handler now e' last
      → Works handler now e last
  handles :
      (e e' last : Executor) (job : Job)
      → e.worker ≡ started job
      → step (handled (handler job.query) now) e ≡ some e'
      → Works handler now e' last
      → Works handler now e last

abbrev Known : Bytes → Snapshots → Type 0
Known id m = (s : RequestSnapshot) × (find id m ≡ some s)

Known-put :
    (id k : Bytes) (new : RequestSnapshot) (m : Snapshots) → Known id m → Known id (put k new m)
Known-put id k new m (s, f) = elim (Bool-cases (bytes_eq k id)) [
  | inl e ↦ (new, find-put k id new m ∙ rw e refl)
  | inr e ↦ (s, find-put k id new m ∙ rw e f)
]

Known-finish :
    (id k : Bytes) (outcome : Result Bytes Bytes) (now : ℕ) (m : Snapshots)
    → Known id m
    → Known id (finish_snapshot k outcome now m)
unfolding update_snapshot
Known-finish id k (ok answer) now m h = Known-put id k _ m h
Known-finish id k (err text) now m h = Known-put id k _ m h

module _ (handler : Bytes → Result Bytes Bytes) (now max : ℕ) (id : Bytes) where
  record At (worker : Worker) (queue : List Job) (e : Executor) : Type 0 where
    worker_is : e.worker ≡ worker
    queue_is : e.queue ≡ queue
    reached : Reachable max e
    known : Known id e.snapshots

  -- The worker comes to wait at an empty queue.
  abbrev Ends : Executor → Type 0
  Ends e = (last : Executor) × Works handler now e last × At waiting [] last

  from_started :
      (job : Job) (queue : List Job) (e : Executor)
      → At (started job) queue e
      → ((e' : Executor) → At waiting queue e' → Ends e')
      → Ends e
  unfolding step
  from_started job queue e h go =
      let e' : Executor = record e {
        snapshots = finish_snapshot job.id (handler job.query) now e.snapshots;
        worker = waiting;
      } in
      let moves : step (handled (handler job.query) now) e ≡ some e' =
        rw (h.worker_is, step) refl in
      let (last, works, at) = go e' (record {
        worker_is = refl;
        queue_is = h.queue_is;
        reached = next e e' (handled (handler job.query) now) h.reached tt moves;
        known = Known-finish id job.id (handler job.query) now e.snapshots h.known;
      }) in
      (last, handles e e' last job h.worker_is moves works, at)

  from_taken :
      (job : Job) (queue : List Job) (e : Executor)
      → At (taken job) queue e
      → ((e' : Executor) → At waiting queue e' → Ends e')
      → Ends e
  unfolding step update_snapshot
  from_taken job queue e h go =
      let e' : Executor = record e {
        snapshots = update_snapshot job.id running none none true false now e.snapshots;
        worker = started job;
      } in
      let moves : step (begun now) e ≡ some e' = rw (h.worker_is, step) refl in
      let (last, works, at) =
        from_started job queue e'
          (record {
            worker_is = refl;
            queue_is = h.queue_is;
            reached = next e e' (begun now) h.reached tt moves;
            known = Known-put id job.id _ e.snapshots h.known;
          })
          go in
      (last, begins e e' last moves works, at)

  from_waiting : (queue : List Job) (e : Executor) → At waiting queue e → Ends e
  unfolding step
  from_waiting [] e h = (e, rests e, h)
  from_waiting (job ∷ queue) e h =
      let e' : Executor = record e { queue = queue; worker = taken job } in
      let moves : step took e ≡ some e' = rw (h.worker_is, h.queue_is, step) refl in
      let (last, works, at) =
        from_taken job queue e'
          (record {
            worker_is = refl;
            queue_is = refl;
            reached = next e e' took h.reached tt moves;
            known = h.known;
          })
          (from_waiting queue) in
      (last, takes e e' last moves works, at)

  ends : (worker : Worker) (e : Executor) → worker ≢ stopped → At worker e.queue e → Ends e
  ends waiting e n h = from_waiting e.queue e h
  ends (taken job) e n h = from_taken job e.queue e h (from_waiting e.queue)
  ends (started job) e n h = from_started job e.queue e h (from_waiting e.queue)
  ends stopped e n h = absurd (n refl)

-- A request is finished where no job waits and none is worked on.
idle-finished :
    (id : Bytes) (s : RequestSnapshot) (status : RequestStatus)
    → Explains id s status [] waiting
    → is_finished status ≡ true
idle-finished id s pending (inl h) = elim h [ ]
idle-finished id s pending (inr h) = elim h [ ]
idle-finished id s running h = elim h [ ]
idle-finished id s completed h = refl
idle-finished id s failed h = refl

-- Where the worker waits at an empty queue, every request that is known has its answer.
idle-answer :
    (max : ℕ) (e : Executor) (id : Bytes) (s : RequestSnapshot)
    → Reachable max e
    → e.worker ≡ waiting
    → e.queue ≡ []
    → find id e.snapshots ≡ some s
    → (info : RequestResultInfo) × (get_result id e ≡ some info)
      × (info.ready ≡ true)
      × Answers info
idle-answer max e id s r at_worker at_queue f =
    let why : Explains id s s.status e.queue e.worker =
      (Reachable-IsExecutor max e r).explained id s f in
    get_result-is_finished max e id s r f (
      idle-finished id s s.status (
        subst (λ queue. Explains id s s.status queue waiting) at_queue
          (subst (Explains id s s.status e.queue) at_worker why)))

-- From every reachable state in which the worker has not left its loop, and for every request that
-- has a snapshot there, the worker's own events lead to a state in which the queue is empty and the
-- request has its answer, whatever the handler does with the queries.
pub get_result-Works :
    (handler : Bytes → Result Bytes Bytes) (now max : ℕ) (e : Executor) (id : Bytes)
    (s : RequestSnapshot)
    → Reachable max e
    → e.worker ≢ stopped
    → find id e.snapshots ≡ some s
    → (last : Executor) × Works handler now e last
      × (last.queue ≡ [])
      × ((info : RequestResultInfo) × (get_result id last ≡ some info)
          × (info.ready ≡ true)
          × Answers info)
get_result-Works handler now max e id s r n f =
    let (last, works, at) =
      ends handler now max id e.worker e n
        (record { worker_is = refl; queue_is = refl; reached = r; known = (s, f) }) in
    let (t, found) = at.known in
    (last, works, at.queue_is, idle-answer max last id t at.reached at.worker_is at.queue_is found)
