-- ===== src/Executor/Async/Requests.antt =====
-- Which jobs and which snapshots stand for each other.
use dbms_project_sp.Base.{
  ℕ, ◌≡◌, ◌≢◌, ◌⊎◌, refl, sym, ◌∙◌, subst, false, List, [], ◌∷◌, ◌++◌, none, some, Bytes, bytes_eq,
  bytes_eq_iff, bytes_eq_refl, arith, Bool-cases, inl, inr, All, All-append,
}
use dbms_project_sp.Base.Dict.{find, put, Unique, find-put, put-Unique}
use dbms_project_sp.Executor.Async.{
  RequestStatus, pending, running, completed, failed, is_finished, RequestSnapshot, Job, Worker,
  waiting, stopped, taken, started, Snapshots, Executor, prune_old_snapshots, new_snapshot, submit,
}
use dbms_project_sp.Executor.Async.Pruning.{
  Has, prune_old_snapshots-Unique, prune_old_snapshots-kept, prune_old_snapshots-old,
}

abbrev pub jobs_of : Worker → List Job
jobs_of (taken job) = job ∷ []
jobs_of (started job) = job ∷ []
jobs_of _ = []

abbrev pub WorkerHas : Snapshots → Worker → Type 0
WorkerHas m (taken job) = Has m job.id pending
WorkerHas m (started job) = Has m job.id running
WorkerHas m _ = Unit

abbrev pub AllPending : Snapshots → List Job → Type 0
AllPending m jobs = All (λ job. Has m job.id pending) jobs

-- No id stands twice.
abbrev pub Apart : List Job → Type 0
Apart [] = Unit
Apart (job ∷ jobs) = All (λ other. job.id ≢ other.id) jobs × Apart jobs

abbrev pub InQueue : Bytes → List Job → Type 0
InQueue id [] = ⊥
InQueue id (job ∷ jobs) = (job.id ≡ id) ⊎ InQueue id jobs

abbrev pub IsTaken : Bytes → Worker → Type 0
IsTaken id (taken job) = job.id ≡ id
IsTaken id _ = ⊥

abbrev pub IsStarted : Bytes → Worker → Type 0
IsStarted id (started job) = job.id ≡ id
IsStarted id _ = ⊥

-- Why a request has its status.
abbrev pub Explains : Bytes → RequestSnapshot → RequestStatus → List Job → Worker → Type 0
Explains id s pending queue worker = InQueue id queue ⊎ IsTaken id worker
Explains id s running queue worker = IsStarted id worker
Explains id s completed queue worker =
    ((answer : Bytes) × (s.result ≡ some answer)) × (s.error ≡ none)
Explains id s failed queue worker = ((text : Bytes) × (s.error ≡ some text)) × (s.result ≡ none)

-- Each job that waits or is worked on has its own id and a snapshot that says so, and each snapshot
-- that is not finished has its job.
pub record IsExecutor (e : Executor) : Type 0 where
  pub unique : Unique e.snapshots
  pub queued : AllPending e.snapshots e.queue
  pub working : WorkerHas e.snapshots e.worker
  pub apart : Apart (jobs_of e.worker ++ e.queue)
  pub explained :
      (id : Bytes) (s : RequestSnapshot)
      → find id e.snapshots ≡ some s
      → Explains id s s.status e.queue e.worker

pub some-injective {ℓ} : {A : Type ℓ} {a b : A} → some a ≡ some b → a ≡ b
some-injective h = ground arith

module _ (id : Bytes) (s : RequestSnapshot) (m : Snapshots) where
  pub Has-put_other :
      (j : Bytes) (status : RequestStatus) → id ≢ j → Has m j status → Has (put id s m) j status
  Has-put_other j status h (t, f, e) =
      (t, find-put id j s m ∙ ground (arith, bytes_eq_iff id j, h, f), e)

  pub find-put_self : find id (put id s m) ≡ some s
  find-put_self = find-put id id s m ∙ ground (arith, bytes_eq_refl id)

  pub find-put_other : (j : Bytes) → id ≢ j → find j (put id s m) ≡ find j m
  find-put_other j h = find-put id j s m ∙ ground (arith, bytes_eq_iff id j, h)

  pub AllPending-put :
      (jobs : List Job)
      → All (λ other. id ≢ other.id) jobs
      → AllPending m jobs
      → AllPending (put id s m) jobs
  AllPending-put [] a h = tt
  AllPending-put (job ∷ jobs) a h =
      (Has-put_other job.id pending a.0 h.0, AllPending-put jobs a.1 h.1)

-- What is found under an id that was written is what was written.
pub found :
    (id : Bytes) (s t : RequestSnapshot) (m : Snapshots) → find id (put id s m) ≡ some t → s ≡ t
found id s t m h = some-injective (sym (find-put_self id s m) ∙ h)

pub Apart-append :
    (jobs : List Job) (new : Job)
    → Apart jobs
    → All (λ job. job.id ≢ new.id) jobs
    → Apart (jobs ++ new ∷ [])
Apart-append [] new a h = (tt, tt)
Apart-append (job ∷ jobs) new a h = (
  All-append (λ other. job.id ≢ other.id) jobs (new ∷ []) a.0 (h.0, tt),
  Apart-append jobs new a.1 h.1,
)

pub InQueue-append :
    (id : Bytes) (jobs : List Job) (new : Job) → InQueue id jobs → InQueue id (jobs ++ new ∷ [])
InQueue-append id [] new h = elim h [ ]
InQueue-append id (job ∷ jobs) new (inl e) = inl e
InQueue-append id (job ∷ jobs) new (inr h) = inr (InQueue-append id jobs new h)

pub InQueue-last : (jobs : List Job) (new : Job) → InQueue new.id (jobs ++ new ∷ [])
InQueue-last [] new = inl refl
InQueue-last (job ∷ jobs) new = inr (InQueue-last jobs new)

pub bytes-cases : (a b : Bytes) → (a ≡ b) ⊎ (a ≢ b)
bytes-cases a b = elim (Bool-cases (bytes_eq a b)) [
  | inl e ↦ inl ((bytes_eq_iff a b).0 e)
  | inr e ↦ inr (λ same. cc (e, (bytes_eq_iff a b).1 same))
]

-- A request is explained as before where the jobs only grew.
pub Explains-more :
    (id : Bytes) (s : RequestSnapshot) (status : RequestStatus) (queue : List Job) (worker : Worker)
    (new : Job)
    → Explains id s status queue worker
    → Explains id s status (queue ++ new ∷ []) worker
Explains-more id s pending queue worker new (inl h) = inl (InQueue-append id queue new h)
Explains-more id s pending queue worker new (inr h) = inr h
Explains-more id s running queue worker new h = h
Explains-more id s completed queue worker new h = h
Explains-more id s failed queue worker new h = h

-- Accepting a request with a new id.
module _ (id query client : Bytes) (now : ℕ) (e : Executor) (w : IsExecutor e)
    (new : find id e.snapshots ≡ none) where
  abbrev pruned : Snapshots
  pruned = prune_old_snapshots e.max_stored_requests e.snapshots

  abbrev after : Snapshots
  after = put id (new_snapshot id now) pruned

  abbrev new_job : Job
  new_job = record { id = id; client_id = client; query = query }

  Has-new : (j : Bytes) (status : RequestStatus) → Has e.snapshots j status → id ≢ j
  Has-new j status (t, f, _) same = cc (new, same, f)

  Has-after :
      (j : Bytes) (status : RequestStatus)
      → is_finished status ≡ false
      → Has e.snapshots j status
      → Has after j status
  Has-after j status n (t, f, s) =
      Has-put_other id (new_snapshot id now) pruned j status (Has-new j status (t, f, s)) (
        t,
        prune_old_snapshots-kept e.max_stored_requests e.snapshots w.unique j t f
            (subst (λ x. is_finished x ≡ false) (sym s) n),
        s,
      )

  AllPending-after : (jobs : List Job) → AllPending e.snapshots jobs → AllPending after jobs
  AllPending-after [] h = tt
  AllPending-after (job ∷ jobs) h = (Has-after job.id pending refl h.0, AllPending-after jobs h.1)

  pub AllPending-new :
      (jobs : List Job) → AllPending e.snapshots jobs → All (λ job. job.id ≢ id) jobs
  AllPending-new [] h = tt
  AllPending-new (job ∷ jobs) h =
      (λ same. Has-new job.id pending h.0 (sym same), AllPending-new jobs h.1)

  WorkerHas-after : (worker : Worker) → WorkerHas e.snapshots worker → WorkerHas after worker
  WorkerHas-after (taken job) h = Has-after job.id pending refl h
  WorkerHas-after (started job) h = Has-after job.id running refl h
  WorkerHas-after waiting h = tt
  WorkerHas-after stopped h = tt

  Apart-after :
      (worker : Worker)
      → WorkerHas e.snapshots worker
      → Apart (jobs_of worker ++ e.queue)
      → Apart (jobs_of worker ++ (e.queue ++ new_job ∷ []))
  Apart-after waiting h a = Apart-append e.queue new_job a (AllPending-new e.queue w.queued)
  Apart-after stopped h a = Apart-append e.queue new_job a (AllPending-new e.queue w.queued)
  Apart-after (taken job) h a =
      Apart-append (job ∷ e.queue) new_job a
        (λ same. Has-new job.id pending h (sym same), AllPending-new e.queue w.queued)
  Apart-after (started job) h a =
      Apart-append (job ∷ e.queue) new_job a
        (λ same. Has-new job.id running h (sym same), AllPending-new e.queue w.queued)

  explained-after :
      (j : Bytes) (s : RequestSnapshot)
      → find j after ≡ some s
      → Explains j s s.status (e.queue ++ new_job ∷ []) e.worker
  explained-after j s f = elim (bytes-cases id j) [
    | inl same ↦
        subst (λ k. Explains k s s.status (e.queue ++ new_job ∷ []) e.worker) same
          (subst (λ t. Explains id t t.status (e.queue ++ new_job ∷ []) e.worker)
            (found id (new_snapshot id now) s pruned
              (subst (λ k. find k after ≡ some s) (sym same) f))
            (inl (InQueue-last e.queue new_job)))
    | inr other ↦ Explains-more j s s.status e.queue e.worker new_job (
        w.explained j s (
          prune_old_snapshots-old e.max_stored_requests e.snapshots w.unique j s
            (sym (find-put_other id (new_snapshot id now) pruned j other) ∙ f)))
  ]

  pub submit-IsExecutor : IsExecutor (submit id query client now e)
  unfolding submit
  submit-IsExecutor = record {
    unique =
        put-Unique id (new_snapshot id now) pruned
          (prune_old_snapshots-Unique e.max_stored_requests e.snapshots w.unique);
    queued =
        All-append (λ job. Has after job.id pending) e.queue (new_job ∷ [])
          (AllPending-after e.queue w.queued)
          ((new_snapshot id now, find-put_self id (new_snapshot id now) pruned, refl), tt);
    working = WorkerHas-after e.worker w.working;
    apart = Apart-after e.worker w.working w.apart;
    explained = explained-after;
  }
