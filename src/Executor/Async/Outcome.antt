-- ===== src/Executor/Async/Outcome.antt =====
-- What stays of the handler's outcome, and what `getResult` makes of it.
use dbms_project_sp.Base.{
  ℕ, ◌≡◌, ◌≢◌, ◌⊎◌, inl, inr, refl, sym, ◌∙◌, subst, true, false, Bool, List, [], ◌∷◌, Option, none,
  some, Bytes, Result, ok, err,
}
use dbms_project_sp.Base.Dict.{find, put}
use dbms_project_sp.Executor.Async.{
  RequestStatus, pending, running, completed, failed, is_finished, RequestSnapshot, Job, Worker,
  waiting, taken, started, Snapshots, Executor, prune_old_snapshots, new_snapshot, submit,
  update_snapshot, finish_snapshot, Event, submitted, took, stops, shut_down, begun, handled, step,
  take, leave, worker_step, RequestResultInfo, get_result,
}
use dbms_project_sp.Executor.Async.Pruning.{Has, prune_old_snapshots-old}
use dbms_project_sp.Executor.Async.Requests.{
  WorkerHas, IsExecutor, find-put_self, find-put_other, some-injective,
}
use dbms_project_sp.Executor.Async.Reach.{Reachable, next, IsNew, Reachable-IsExecutor}

-- What a client is told of a request on whose query the handler ended so.
abbrev pub outcome_info : Bytes → Result Bytes Bytes → RequestResultInfo
outcome_info id (ok answer) = record {
  id = id;
  ready = true;
  status = completed;
  result = some answer;
  error = none;
}
outcome_info id (err text) = record {
  id = id;
  ready = true;
  status = failed;
  result = none;
  error = some text;
}

-- The snapshot holds how the handler ended.
abbrev pub Ended : Bytes → Result Bytes Bytes → RequestSnapshot → Type 0
Ended id (ok answer) s = (s.id ≡ id) × (s.status ≡ completed) × (s.result ≡ some answer)
Ended id (err text) s = (s.id ≡ id) × (s.status ≡ failed) × (s.error ≡ some text)

pub get_result-Ended :
    (id : Bytes) (outcome : Result Bytes Bytes) (e : Executor) (s : RequestSnapshot)
    → find id e.snapshots ≡ some s
    → Ended id outcome s
    → get_result id e ≡ some (outcome_info id outcome)
unfolding get_result
get_result-Ended id (ok answer) e s f (own, status, result) =
    rw (f, status, own, result, get_result) refl
get_result-Ended id (err text) e s f (own, status, error) =
    rw (f, status, own, error, get_result) refl

get_result-none : (id : Bytes) (e : Executor) → find id e.snapshots ≡ none → get_result id e ≡ none
unfolding get_result
get_result-none id e f = rw (f, get_result) refl

-- The snapshot that is written behind the handler.
pub finish_snapshot-Ended :
    (id : Bytes) (outcome : Result Bytes Bytes) (now : ℕ) (m : Snapshots)
    → (s : RequestSnapshot) × (find id (finish_snapshot id outcome now m) ≡ some s)
      × Ended id outcome s
unfolding update_snapshot
finish_snapshot-Ended id (ok answer) now m = (_, find-put_self id _ m, (refl, refl, refl))
finish_snapshot-Ended id (err text) now m = (_, find-put_self id _ m, (refl, refl, refl))

pub finish_snapshot-other :
    (id j : Bytes) (outcome : Result Bytes Bytes) (now : ℕ) (m : Snapshots)
    → j ≢ id
    → find id (finish_snapshot j outcome now m) ≡ find id m
unfolding update_snapshot
finish_snapshot-other id j (ok answer) now m n = find-put_other j _ m id n
finish_snapshot-other id j (err text) now m n = find-put_other j _ m id n

Ended-is_finished :
    (id : Bytes) (outcome : Result Bytes Bytes) (s : RequestSnapshot)
    → Ended id outcome s
    → is_finished s.status ≡ true
Ended-is_finished id (ok answer) s (own, status, result) = rw status refl
Ended-is_finished id (err text) s (own, status, error) = rw status refl

-- The request of the event is another one.
abbrev IsOther : Bytes → Event → Type 0
IsOther id (submitted j query client now) = j ≢ id
IsOther id _ = Unit

-- What happens later: calls, the worker and the destructor in any order, but no new request of this
-- id.
pub data Later (id : Bytes) : Executor → Executor → Type 0 where
  rests : (e : Executor) → Later id e e
  moves :
      (e e' last : Executor) (event : Event)
      → IsNew event e
      → IsOther id event
      → step event e ≡ some e'
      → Later id e' last
      → Later id e last

module _ (id : Bytes) (outcome : Result Bytes Bytes) where
  abbrev Settled : Snapshots → Type 0
  Settled m = (s : RequestSnapshot) → find id m ≡ some s → Ended id outcome s

  abbrev Stays : Option Executor → Type 0
  Stays none = Unit
  Stays (some e) = Settled e.snapshots

  Settled-other :
      (m : Snapshots) (j : Bytes) (status : RequestStatus)
      → Settled m
      → is_finished status ≡ false
      → Has m j status
      → j ≢ id
  Settled-other m j status h n (s, f, is) same =
      let end : is_finished s.status ≡ true =
        Ended-is_finished id outcome s (h s (subst (λ k. find k m ≡ some s) same f)) in
      cc (end, n, is)

  Settled-put :
      (m : Snapshots) (j : Bytes) (new : RequestSnapshot)
      → j ≢ id
      → Settled m
      → Settled (put j new m)
  Settled-put m j new n h s f = h s (sym (find-put_other j new m id n) ∙ f)

  module _ (e : Executor) (w : IsExecutor e) (h : Settled e.snapshots) where
    take-Stays : (jobs : List Job) → Stays (take jobs e)
    take-Stays [] = tt
    take-Stays (job ∷ jobs) = h

    leave-Stays : (stop : Bool) (jobs : List Job) → Stays (leave stop jobs e)
    leave-Stays true [] = h
    leave-Stays true (job ∷ jobs) = tt
    leave-Stays false jobs = tt

    worker_step-Stays :
        (event : Event) (worker : Worker)
        → WorkerHas e.snapshots worker
        → Stays (worker_step event worker e)
    unfolding update_snapshot
    worker_step-Stays took waiting has = take-Stays e.queue
    worker_step-Stays stops waiting has = leave-Stays e.stop e.queue
    worker_step-Stays (begun now) (taken job) has =
        Settled-put e.snapshots job.id _ (Settled-other e.snapshots job.id pending h refl has) h
    worker_step-Stays (handled r now) (started job) has = λ s f.
        let n = Settled-other e.snapshots job.id running h refl has in
        h s (sym (finish_snapshot-other id job.id r now e.snapshots n) ∙ f)
    worker_step-Stays _ _ has = tt

    step-Stays : (event : Event) → IsOther id event → Stays (step event e)
    unfolding step submit
    step-Stays (submitted j query client now) n = λ s f.
        let pruned = prune_old_snapshots e.max_stored_requests e.snapshots in
        h s (
          prune_old_snapshots-old e.max_stored_requests e.snapshots w.unique id s
            (sym (find-put_other j (new_snapshot j now) pruned id n) ∙ f))
    step-Stays shut_down n = h
    step-Stays took n = worker_step-Stays took e.worker w.working
    step-Stays stops n = worker_step-Stays stops e.worker w.working
    step-Stays (begun now) n = worker_step-Stays (begun now) e.worker w.working
    step-Stays (handled r now) n = worker_step-Stays (handled r now) e.worker w.working

  Settled-Later :
      (max : ℕ) (e last : Executor)
      → Later id e last
      → Reachable max e
      → Settled e.snapshots
      → Settled last.snapshots
  Settled-Later max e _ (rests _) r h = h
  Settled-Later max e last (moves _ e' _ event new other moved later) r h =
      Settled-Later max e' last later (next e e' event r new moved)
        (subst Stays moved (step-Stays e (Reachable-IsExecutor max e r) h event other))

-- What a client is told later of a request that is settled.
told :
    (id : Bytes) (outcome : Result Bytes Bytes) (e : Executor) (o : Option RequestSnapshot)
    → find id e.snapshots ≡ o
    → Settled id outcome e.snapshots
    → (get_result id e ≡ some (outcome_info id outcome)) ⊎ (get_result id e ≡ none)
told id outcome e none f h = inr (get_result-none id e f)
told id outcome e (some s) f h = inl (get_result-Ended id outcome e s f (h s f))

-- Once the handler has ended on the request that the worker runs, `getResult` tells exactly how it
-- ended: `COMPLETED` with its answer, or `FAILED` with the text of what it threw. Whatever happens
-- later, as long as no new request has the id, it tells the same, or does not know the request any
-- more.
pub get_result-handled :
    (max : ℕ) (e e' : Executor) (job : Job) (outcome : Result Bytes Bytes) (now : ℕ)
    → Reachable max e
    → e.worker ≡ started job
    → step (handled outcome now) e ≡ some e'
    → (get_result job.id e' ≡ some (outcome_info job.id outcome))
      × ((last : Executor)
          → Later job.id e' last
          → (get_result job.id last ≡ some (outcome_info job.id outcome))
            ⊎ (get_result job.id last ≡ none))
unfolding step
get_result-handled max e e' job outcome now r at moved =
    let m = finish_snapshot job.id outcome now e.snapshots in
    let (s, f, ended) = finish_snapshot-Ended job.id outcome now e.snapshots in
    let done : Executor = record e { snapshots = m; worker = waiting } in
    let same : e' ≡ done = some-injective (sym moved ∙ rw (at, step) refl) in
    let found_e' : find job.id e'.snapshots ≡ some s = rw same f in
    let settled : Settled job.id outcome e'.snapshots =
      λ t g. subst (Ended job.id outcome) (some-injective (sym found_e' ∙ g)) ended in
    (
      get_result-Ended job.id outcome e' s found_e' ended,
      λ last later. told job.id outcome last (find job.id last.snapshots) refl (
          Settled-Later job.id outcome max e' last later
            (next e e' (handled outcome now) r tt moved) settled),
    )
