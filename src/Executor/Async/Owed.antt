-- ===== src/Executor/Async/Owed.antt =====
-- The worker carries a query to the handler and writes down how it ended on that query.
use dbms_project_sp.Base.{
  ℕ, ◌≡◌, ◌≢◌, Option-cases, inl, inr, refl, sym, ap, ◌∙◌, subst, true, false, List, [], ◌∷◌,
  Option, none, some, Bytes, Result, All, All-append,
}
use dbms_project_sp.Base.Dict.{find, put}
use dbms_project_sp.Executor.Async
use dbms_project_sp.Executor.Async.{
  pending, running, completed, failed, is_finished, RequestStatus, RequestSnapshot,
  RequestResultInfo, Job, Worker, waiting, stopped, taken, started, Snapshots, Executor,
  new_snapshot, update_snapshot, finish_snapshot, prune_old_snapshots, took, begun, handled,
  submitted, step, take, worker_step, get_result,
}
use dbms_project_sp.Executor.Async.Requests.{
  jobs_of, WorkerHas, IsExecutor, AllPending-new, find-put_other, found, bytes-cases,
  some-injective,
}
use dbms_project_sp.Executor.Async.Progress.{Works, rests, takes, begins, handles}
use dbms_project_sp.Executor.Async.Outcome.{
  outcome_info, Ended, get_result-Ended, finish_snapshot-Ended, finish_snapshot-other,
}

-- The jobs of this id carry the query, and once the request is finished its snapshot holds how the
-- handler ended on it.
module _ (handler : Bytes → Result Bytes Bytes) (id query : Bytes) where
  abbrev pub Carries : List Job → Type 0
  Carries jobs = All (λ job. job.id ≡ id → job.query ≡ query) jobs

  abbrev pub Done : Snapshots → Type 0
  Done m =
      (s : RequestSnapshot)
      → find id m ≡ some s
      → is_finished s.status ≡ true
      → Ended id (handler query) s

  abbrev pub Owes : Worker → Executor → Type 0
  Owes worker e = Carries (jobs_of worker) × Carries e.queue × Done e.snapshots

  abbrev pub OwesNext : Option Executor → Type 0
  OwesNext none = Unit
  OwesNext (some e) = Owes e.worker e

  take-Owes :
      (e : Executor) (jobs : List Job) → Carries jobs → Done e.snapshots → OwesNext (take jobs e)
  take-Owes e [] c d = tt
  take-Owes e (job ∷ jobs) c d = ((c.0, tt), c.1, d)

  took-Owes :
      (e : Executor) (worker : Worker) → Owes worker e → OwesNext (worker_step took worker e)
  took-Owes e waiting (own, c, d) = take-Owes e e.queue c d
  took-Owes e stopped h = tt
  took-Owes e (taken job) h = tt
  took-Owes e (started job) h = tt

  put_unfinished-Done :
      (m : Snapshots) (j : Bytes) (new : RequestSnapshot)
      → is_finished new.status ≡ false
      → Done m
      → Done (put j new m)
  put_unfinished-Done m j new n d s f end = elim (bytes-cases j id) [
    | inl same ↦
        let is : new ≡ s =
          found j new s m (subst (λ k. find k (put j new m) ≡ some s) (sym same) f) in
        cc (n, end, is)
    | inr other ↦ d s (sym (find-put_other j new m id other) ∙ f) end
  ]

  begun-Owes :
      (now : ℕ) (e : Executor) (worker : Worker)
      → Owes worker e
      → OwesNext (worker_step (begun now) worker e)
  unfolding update_snapshot
  begun-Owes now e (taken job) (own, c, d) =
      (own, c, put_unfinished-Done e.snapshots job.id _ refl d)
  begun-Owes now e waiting h = tt
  begun-Owes now e stopped h = tt
  begun-Owes now e (started job) h = tt

  handled-Owes :
      (now : ℕ) (e : Executor) (job : Job)
      → Owes (started job) e
      → OwesNext (worker_step (handled (handler job.query) now) (started job) e)
  handled-Owes now e job ((own, _), c, d) = (
    tt,
    c,
    λ s f end. elim (bytes-cases job.id id) [
      | inl same ↦
          let r = handler job.query in
          let (t, g, ended) = finish_snapshot-Ended job.id r now e.snapshots in
          let is : t ≡ s = some-injective (
            sym g
            ∙ subst (λ k. find k (finish_snapshot job.id r now e.snapshots) ≡ some s) (sym same)
                f) in
          subst (λ q. Ended id (handler q) s) (own same)
            (subst (λ k. Ended k r s) same (subst (Ended job.id r) is ended))
      | inr other ↦
          d s (sym (finish_snapshot-other id job.id (handler job.query) now e.snapshots other) ∙ f)
            end
    ],
  )

  pub Works-Owes :
      (now : ℕ) (e last : Executor)
      → Works handler now e last
      → Owes e.worker e
      → Owes last.worker last
  unfolding step
  Works-Owes now e _ (rests _) h = h
  Works-Owes now e last (takes _ e' _ moved works) h =
      Works-Owes now e' last works (subst OwesNext moved (took-Owes e e.worker h))
  Works-Owes now e last (begins _ e' _ moved works) h =
      Works-Owes now e' last works (subst OwesNext moved (begun-Owes now e e.worker h))
  Works-Owes now e last (handles _ e' _ job at moved works) h = Works-Owes now e' last works (
      subst OwesNext moved (
        subst (λ w. OwesNext (worker_step (handled (handler job.query) now) w e)) (sym at)
          (handled-Owes now e job (subst (λ w. Owes w e) at h))))

  Carries-other : (jobs : List Job) → All (λ job. job.id ≢ id) jobs → Carries jobs
  Carries-other [] h = tt
  Carries-other (job ∷ jobs) (n, h) = (λ same. absurd (n same), Carries-other jobs h)

  Carries-worker :
      (m : Snapshots) (worker : Worker)
      → find id m ≡ none
      → WorkerHas m worker
      → Carries (jobs_of worker)
  Carries-worker m waiting new h = tt
  Carries-worker m stopped new h = tt
  Carries-worker m (taken job) new (s, f, is) = (λ same. absurd (cc (new, f, same)), tt)
  Carries-worker m (started job) new (s, f, is) = (λ same. absurd (cc (new, f, same)), tt)

  pub submit-Owes :
      (client : Bytes) (now : ℕ) (e : Executor)
      → IsExecutor e
      → find id e.snapshots ≡ none
      → Owes e.worker (Async.submit id query client now e)
  unfolding Async.submit
  submit-Owes client now e w new = (
    Carries-worker e.snapshots e.worker new w.working,
    All-append (λ job. job.id ≡ id → job.query ≡ query) e.queue _
        (Carries-other e.queue (AllPending-new id query client now e w new e.queue w.queued))
        ((λ same. refl), tt),
    λ s f end. cc (
      found id (new_snapshot id now) s (prune_old_snapshots e.max_stored_requests e.snapshots) f,
      end,
    ),
  )

  ready-is_finished :
      (e : Executor) (s : RequestSnapshot) (info : RequestResultInfo) (status : RequestStatus)
      → find id e.snapshots ≡ some s
      → s.status ≡ status
      → get_result id e ≡ some info
      → info.ready ≡ true
      → is_finished status ≡ true
  unfolding get_result
  ready-is_finished e s info completed f is told ready = refl
  ready-is_finished e s info failed f is told ready = refl
  ready-is_finished e s info pending f is told ready =
      absurd
        (cc (ap RequestResultInfo.ready (some-injective (rw (f, is, get_result) at told)), ready))
  ready-is_finished e s info running f is told ready =
      absurd
        (cc (ap RequestResultInfo.ready (some-injective (rw (f, is, get_result) at told)), ready))

  get_result-missing : (e : Executor) → find id e.snapshots ≡ none → get_result id e ≡ none
  unfolding get_result
  get_result-missing e f = rw (f, get_result) refl

  -- A request that is ready tells how the handler ended on its query.
  pub ready-outcome :
      (e : Executor) (info : RequestResultInfo)
      → Done e.snapshots
      → get_result id e ≡ some info
      → info.ready ≡ true
      → get_result id e ≡ some (outcome_info id (handler query))
  ready-outcome e info d told ready = elim (Option-cases (find id e.snapshots)) [
    | inl f ↦ absurd (cc (get_result-missing e f, told))
    | inr (s, f) ↦
        get_result-Ended id (handler query) e s f
          (d s f (ready-is_finished e s info s.status f refl told ready))
  ]
