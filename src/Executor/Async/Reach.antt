-- ===== src/Executor/Async/Reach.antt =====
-- The states that the events lead to, in any order in which they can happen.
use dbms_project_sp.Base.{
  ℕ, ◌≡◌, ◌≢◌, refl, sym, ◌∙◌, subst, Bool, true, false, List, [], ◌∷◌, ◌++◌, Option, none, some,
  Bytes, arith, inl, inr, Result, ok, err,
}
use dbms_project_sp.Base.Dict.{find, put, put-Unique}
use dbms_project_sp.Executor.Async.{
  RequestStatus, pending, running, completed, failed, RequestSnapshot, Job, Worker, waiting,
  stopped, taken, started, Snapshots, Executor, update_snapshot, finish_snapshot, Event, submitted,
  took, stops, shut_down, begun, handled, step, take, leave, worker_step,
}
use dbms_project_sp.Executor.Async.Requests.{
  jobs_of, AllPending, Apart, Explains, IsExecutor, find-put_self, find-put_other, AllPending-put,
  found, bytes-cases, submit-IsExecutor,
}

Explains-took :
    (id : Bytes) (s : RequestSnapshot) (status : RequestStatus) (job : Job) (queue : List Job)
    → Explains id s status (job ∷ queue) waiting
    → Explains id s status queue (taken job)
Explains-took id s pending job queue (inl (inl e)) = inr e
Explains-took id s pending job queue (inl (inr h)) = inl h
Explains-took id s pending job queue (inr h) = elim h [ ]
Explains-took id s running job queue h = elim h [ ]
Explains-took id s completed job queue h = h
Explains-took id s failed job queue h = h

Explains-stopped :
    (id : Bytes) (s : RequestSnapshot) (status : RequestStatus) (queue : List Job)
    → Explains id s status queue waiting
    → Explains id s status queue stopped
Explains-stopped id s pending queue h = h
Explains-stopped id s running queue h = h
Explains-stopped id s completed queue h = h
Explains-stopped id s failed queue h = h

Explains-begun :
    (id : Bytes) (s : RequestSnapshot) (status : RequestStatus) (job : Job) (queue : List Job)
    → job.id ≢ id
    → Explains id s status queue (taken job)
    → Explains id s status queue (started job)
Explains-begun id s pending job queue n (inl h) = inl h
Explains-begun id s pending job queue n (inr e) = absurd (n e)
Explains-begun id s running job queue n h = elim h [ ]
Explains-begun id s completed job queue n h = h
Explains-begun id s failed job queue n h = h

Explains-handled :
    (id : Bytes) (s : RequestSnapshot) (status : RequestStatus) (job : Job) (queue : List Job)
    → job.id ≢ id
    → Explains id s status queue (started job)
    → Explains id s status queue waiting
Explains-handled id s pending job queue n h = h
Explains-handled id s running job queue n e = absurd (n e)
Explains-handled id s completed job queue n h = h
Explains-handled id s failed job queue n h = h

-- One snapshot is written, and what it says of the other requests stays true.
explained-put :
    (id : Bytes) (new : RequestSnapshot) (m : Snapshots) (queue : List Job) (old worker : Worker)
    → ((j : Bytes) (s : RequestSnapshot) → find j m ≡ some s → Explains j s s.status queue old)
    → ((j : Bytes) (s : RequestSnapshot) (status : RequestStatus)
        → id ≢ j
        → Explains j s status queue old
        → Explains j s status queue worker)
    → Explains id new new.status queue worker
    → (j : Bytes) (s : RequestSnapshot) → find j (put id new m) ≡ some s
    → Explains j s s.status queue worker
explained-put id new m queue old worker before others self j s f = elim (bytes-cases id j) [
  | inl same ↦
      subst (λ k. Explains k s s.status queue worker) same
        (subst (λ t. Explains id t t.status queue worker)
          (found id new s m (subst (λ k. find k (put id new m) ≡ some s) (sym same) f)) self)
  | inr other ↦ others j s s.status other (before j s (sym (find-put_other id new m j other) ∙ f))
]

module _ (job : Job) (e : Executor) (w : IsExecutor e) where
  begun-IsExecutor :
      (new : RequestSnapshot)
      → e.worker ≡ taken job
      → new.status ≡ running
      → IsExecutor (record e { snapshots = put job.id new e.snapshots; worker = started job })
  begun-IsExecutor new at r =
      let apart = subst (λ x. Apart (jobs_of x ++ e.queue)) at w.apart in
      record {
        unique = put-Unique job.id new e.snapshots w.unique;
        queued = AllPending-put job.id new e.snapshots e.queue apart.0 w.queued;
        working = (new, find-put_self job.id new e.snapshots, r);
        apart = apart;
        explained =
            explained-put job.id new e.snapshots e.queue e.worker (started job) w.explained
              (λ j s status other h.
                Explains-begun j s status job e.queue other
                  (subst (Explains j s status e.queue) at h))
              (subst (λ x. Explains job.id new x e.queue (started job)) (sym r) refl);
      }

  handled-IsExecutor :
      (new : RequestSnapshot)
      → e.worker ≡ started job
      → Explains job.id new new.status e.queue waiting
      → IsExecutor (record e { snapshots = put job.id new e.snapshots; worker = waiting })
  handled-IsExecutor new at r =
      let apart = subst (λ x. Apart (jobs_of x ++ e.queue)) at w.apart in
      record {
        unique = put-Unique job.id new e.snapshots w.unique;
        queued = AllPending-put job.id new e.snapshots e.queue apart.0 w.queued;
        working = tt;
        apart = apart.1;
        explained =
            explained-put job.id new e.snapshots e.queue e.worker waiting w.explained
              (λ j s status other h.
                Explains-handled j s status job e.queue other
                  (subst (Explains j s status e.queue) at h))
              r;
      }

-- The id of a new request is not that of a snapshot.
abbrev pub IsNew : Event → Executor → Type 0
IsNew (submitted id query client now) e = find id e.snapshots ≡ none
IsNew _ e = Unit

abbrev Keeps : Option Executor → Type 0
Keeps none = Unit
Keeps (some e) = IsExecutor e

module _ (e : Executor) (w : IsExecutor e) where
  take-Keeps : (jobs : List Job) → e.queue ≡ jobs → e.worker ≡ waiting → Keeps (take jobs e)
  take-Keeps [] q at = tt
  take-Keeps (job ∷ jobs) q at =
      let queued = subst (AllPending e.snapshots) q w.queued in
      record {
        unique = w.unique;
        queued = queued.1;
        working = queued.0;
        apart = subst Apart q (subst (λ x. Apart (jobs_of x ++ e.queue)) at w.apart);
        explained = λ id s f. Explains-took id s s.status job jobs (
            subst (λ x. Explains id s s.status x waiting) q
              (subst (Explains id s s.status e.queue) at (w.explained id s f)));
      }

  leave-Keeps : (stop : Bool) (jobs : List Job) → e.worker ≡ waiting → Keeps (leave stop jobs e)
  leave-Keeps true [] at = record {
    unique = w.unique;
    queued = w.queued;
    working = tt;
    apart = subst (λ x. Apart (jobs_of x ++ e.queue)) at w.apart;
    explained = λ id s f.
        Explains-stopped id s s.status e.queue
          (subst (Explains id s s.status e.queue) at (w.explained id s f));
  }
  leave-Keeps true (job ∷ jobs) at = tt
  leave-Keeps false jobs at = tt

  handled-Keeps :
      (job : Job) (outcome : Result Bytes Bytes) (now : ℕ)
      → e.worker ≡ started job
      → IsExecutor (record e {
        snapshots = finish_snapshot job.id outcome now e.snapshots;
        worker = waiting;
      })
  unfolding update_snapshot
  handled-Keeps job (ok answer) now at = handled-IsExecutor job e w _ at ((answer, refl), refl)
  handled-Keeps job (err text) now at = handled-IsExecutor job e w _ at ((text, refl), refl)

  worker_step-Keeps :
      (event : Event) (worker : Worker) → e.worker ≡ worker → Keeps (worker_step event worker e)
  unfolding update_snapshot
  worker_step-Keeps took waiting at = take-Keeps e.queue refl at
  worker_step-Keeps stops waiting at = leave-Keeps e.stop e.queue at
  worker_step-Keeps (begun now) (taken job) at = begun-IsExecutor job e w _ at refl
  worker_step-Keeps (handled outcome now) (started job) at = handled-Keeps job outcome now at
  worker_step-Keeps _ _ at = tt

  step-Keeps : (event : Event) → IsNew event e → Keeps (step event e)
  unfolding step
  step-Keeps (submitted id query client now) new = submit-IsExecutor id query client now e w new
  step-Keeps shut_down new = record {
    unique = w.unique;
    queued = w.queued;
    working = w.working;
    apart = w.apart;
    explained = w.explained;
  }
  step-Keeps took new = worker_step-Keeps took e.worker refl
  step-Keeps stops new = worker_step-Keeps stops e.worker refl
  step-Keeps (begun now) new = worker_step-Keeps (begun now) e.worker refl
  step-Keeps (handled outcome now) new = worker_step-Keeps (handled outcome now) e.worker refl

abbrev pub new_executor : ℕ → Executor
new_executor max = record {
  max_stored_requests = max;
  queue = [];
  snapshots = [];
  stop = false;
  worker = waiting;
}

pub data Reachable (max : ℕ) : Executor → Type 0 where
  start : Reachable max (new_executor max)
  next :
      (e e' : Executor) (event : Event)
      → Reachable max e
      → IsNew event e
      → step event e ≡ some e'
      → Reachable max e'

new_executor-IsExecutor : (max : ℕ) → IsExecutor (new_executor max)
unfolding find
new_executor-IsExecutor max = record {
  unique = tt;
  queued = tt;
  working = tt;
  apart = tt;
  explained = λ id s f. absurd (ground arith);
}

-- However calls, the worker and the destructor interleave, and whatever the handler does: as long as
-- each new request gets an id without a snapshot, every request that waits or is worked on has a
-- snapshot that says so, which is never dropped for room, and its own id; and every snapshot that
-- says `pending` or `running` has its request in the queue or with the worker, while a finished one
-- holds an answer or an error, and not both.
pub Reachable-IsExecutor : (max : ℕ) (e : Executor) → Reachable max e → IsExecutor e
Reachable-IsExecutor max _ start = new_executor-IsExecutor max
Reachable-IsExecutor max e' (next e _ event r new h) =
    subst Keeps h (step-Keeps e (Reachable-IsExecutor max e r) event new)
