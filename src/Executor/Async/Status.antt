-- ===== src/Executor/Async/Status.antt =====
-- What a client is told of a request.
use dbms_project_sp.Base.{
  ℕ, ◌≡◌, ◌≢◌, ◌⊎◌, refl, ap, subst, true, All, length, ◌++◌, List, [], ◌∷◌, none, some, Bytes,
  bytes_eq, bytes_eq_iff, inl, inr, Bool-cases,
}
use dbms_project_sp.Base.Dict.{find}
use dbms_project_sp.Executor.Async.{
  RequestStatus, pending, running, completed, failed, is_finished, RequestSnapshot, Job, Executor,
  queue_position, to_status_info, RequestResultInfo, get_status, get_result,
}
use dbms_project_sp.Executor.Async.Requests.{Explains, InQueue, IsTaken, IsExecutor}
use dbms_project_sp.Executor.Async.Reach.{Reachable, Reachable-IsExecutor}

-- A job with that id stands in the queue with these in front of it, none of which has the id.
abbrev pub Place : Bytes → List Job → List Job → Type 0
Place id queue front =
    (job : Job) × (behind : List Job) × (queue ≡ front ++ job ∷ behind)
    × (job.id ≡ id)
    × All (λ other. other.id ≢ id) front

queue_position-InQueue :
    (id : Bytes) (queue : List Job)
    → InQueue id queue
    → (front : List Job) × Place id queue front × (queue_position id queue ≡ some (length front))
unfolding queue_position
queue_position-InQueue id [] h = elim h [ ]
queue_position-InQueue id (job ∷ queue) h = elim (Bool-cases (bytes_eq job.id id)) [
  | inl e ↦ ([], (job, queue, refl, (bytes_eq_iff job.id id).0 e, tt), rw e refl)
  | inr e ↦ elim h [
    | inl same ↦ absurd (cc (e, (bytes_eq_iff job.id id).1 same))
    | inr behind ↦
        let (front, (found, rest, splits, own, none_before), at) =
          queue_position-InQueue id queue behind in
        (
          job ∷ front,
          (
            found,
            rest,
            ap (λ l. job ∷ l) splits,
            own,
            (λ same. cc (e, (bytes_eq_iff job.id id).1 same), none_before),
          ),
          rw (e, at) refl,
        )
  ]
]

explained_as :
    (e : Executor) (w : IsExecutor e) (id : Bytes) (s : RequestSnapshot) (status : RequestStatus)
    → find id e.snapshots ≡ some s
    → s.status ≡ status
    → Explains id s status e.queue e.worker
explained_as e w id s status f is =
    subst (λ x. Explains id s x e.queue e.worker) is (w.explained id s f)

-- A client that asks for the status of a request that is pending is told how many jobs stand in the
-- queue in front of it, unless the worker has just taken the request and not yet said so.
pub get_status-pending :
    (max : ℕ) (e : Executor) (id : Bytes) (s : RequestSnapshot)
    → Reachable max e
    → find id e.snapshots ≡ some s
    → s.status ≡ pending
    → ((front : List Job) × Place id e.queue front
        × (get_status id e ≡ some (to_status_info s (some (length front)))))
      ⊎ IsTaken id e.worker
unfolding get_status
get_status-pending max e id s r f is =
    elim (explained_as e (Reachable-IsExecutor max e r) id s pending f is) [
      | inl h ↦
          let (front, place, at) = queue_position-InQueue id e.queue h in
          inl (front, place, rw (f, is, at, get_status) refl)
      | inr h ↦ inr h
    ]

-- The two ways in which a finished request answers a client.
abbrev pub Answers : RequestResultInfo → Type 0
Answers info =
    ((answer : Bytes) × (info.result ≡ some answer) × (info.error ≡ none))
    ⊎ ((text : Bytes) × (info.error ≡ some text) × (info.result ≡ none))

-- What is answered, from why the request is finished.
answered :
    (e : Executor) (id : Bytes) (s : RequestSnapshot) (status : RequestStatus)
    → find id e.snapshots ≡ some s
    → s.status ≡ status
    → is_finished status ≡ true
    → Explains id s status e.queue e.worker
    → (info : RequestResultInfo) × (get_result id e ≡ some info)
      × (info.ready ≡ true)
      × Answers info
unfolding get_result
answered e id s completed f is h ((answer, result), error) = (
  record { id = s.id; ready = true; status = completed; result = s.result; error = none },
  rw (f, is, get_result) refl,
  refl,
  inl (answer, result, refl),
)
answered e id s failed f is h ((text, error), result) = (
  record { id = s.id; ready = true; status = failed; result = none; error = s.error },
  rw (f, is, get_result) refl,
  refl,
  inr (text, error, refl),
)
answered e id s pending f is h x = cc h
answered e id s running f is h x = cc h

-- A client that asks for the result of a finished request gets an answer or the text of an error, and
-- not both.
pub get_result-is_finished :
    (max : ℕ) (e : Executor) (id : Bytes) (s : RequestSnapshot)
    → Reachable max e
    → find id e.snapshots ≡ some s
    → is_finished s.status ≡ true
    → (info : RequestResultInfo) × (get_result id e ≡ some info)
      × (info.ready ≡ true)
      × Answers info
get_result-is_finished max e id s r f h =
    answered e id s s.status f refl h
      (explained_as e (Reachable-IsExecutor max e r) id s s.status f refl)
