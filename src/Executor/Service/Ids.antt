-- ===== src/Executor/Service/Ids.antt =====
-- The ids of requests can stand in a command, and the place of the newest job in the queue.
use dbms_project_sp.Base.{
  ℕ, zero, suc, ◌≡◌, ◌≢◌, refl, true, false, List, [], ◌∷◌, ◌++◌, some, length, replicate, Bytes,
  bytes_eq, bytes_eq_iff, bytes_eq_refl, is_space, arith, All,
}
use dbms_project_sp.Executor.RequestId.{
  CharClass, is_hex, is_dash, is_four, is_variant, all_match, id_pattern, mid_pattern,
  version_pattern, clock_pattern, node_pattern, is_valid_request_id,
}
use dbms_project_sp.Executor.Api.Commands.{InWord, EndsIn, IsWord}
use dbms_project_sp.Executor.Async.{Job, queue_position}

-- A class without blanks and semicolons.
abbrev Harmless : CharClass → Type 0
Harmless p = (c : ℕ) → p c ≡ true → InWord c

is_hex-Harmless : Harmless is_hex
unfolding is_space
is_hex-Harmless c h = (ground arith, ground arith)

is_dash-Harmless : Harmless is_dash
unfolding is_space
is_dash-Harmless c h = (ground arith, ground arith)

is_four-Harmless : Harmless is_four
unfolding is_space
is_four-Harmless c h = (ground arith, ground arith)

is_variant-Harmless : Harmless is_variant
unfolding is_space
is_variant-Harmless c h = (ground arith, ground arith)

-- Some digits, with the rest of a pattern behind them.
digits-Harmless :
    (n : ℕ) (qs : List CharClass) → All Harmless qs → All Harmless (replicate n is_hex ++ qs)
digits-Harmless zero qs h = h
digits-Harmless (suc n) qs h = (is_hex-Harmless, digits-Harmless n qs h)

all_match-InWord :
    (ps : List CharClass) (s : Bytes) → All Harmless ps → all_match ps s ≡ true → All InWord s
all_match-InWord [] [] h m = tt
all_match-InWord [] (c ∷ s) h m = absurd (ground arith)
all_match-InWord (p ∷ ps) [] h m = tt
all_match-InWord (p ∷ ps) (c ∷ s) h m =
    (h.0 c (ground arith), all_match-InWord ps s h.1 (ground arith))

InWord-last : (c : ℕ) (s : Bytes) → All InWord (c ∷ s) → EndsIn InWord (c ∷ s)
InWord-last c [] h = h.0
InWord-last c (d ∷ s) h = InWord-last d s h.1

node_pattern-Harmless : All Harmless node_pattern
node_pattern-Harmless = digits-Harmless 4 (replicate 8 is_hex) (digits-Harmless 8 [] tt)

clock_pattern-Harmless : All Harmless clock_pattern
clock_pattern-Harmless = (
  is_variant-Harmless,
  digits-Harmless 3 (is_dash ∷ node_pattern) (is_dash-Harmless, node_pattern-Harmless),
)

version_pattern-Harmless : All Harmless version_pattern
version_pattern-Harmless = (
  is_four-Harmless,
  digits-Harmless 3 (is_dash ∷ clock_pattern) (is_dash-Harmless, clock_pattern-Harmless),
)

id_pattern-Harmless : All Harmless id_pattern
id_pattern-Harmless = digits-Harmless 8 (is_dash ∷ mid_pattern) (
  is_dash-Harmless,
  digits-Harmless 4 (is_dash ∷ version_pattern) (is_dash-Harmless, version_pattern-Harmless),
)

pub is_valid_request_id-IsWord : (id : Bytes) → is_valid_request_id id ≡ true → IsWord id
unfolding is_valid_request_id
is_valid_request_id-IsWord [] h = absurd (ground arith)
is_valid_request_id-IsWord (c ∷ s) h =
    let each : All InWord (c ∷ s) = all_match-InWord id_pattern (c ∷ s) id_pattern-Harmless h in
    (InWord-last c s each, each)

-- A job that is new stands behind all the others.
pub queue_position-last :
    (queue : List Job) (new : Job)
    → All (λ job. job.id ≢ new.id) queue
    → queue_position new.id (queue ++ new ∷ []) ≡ some (length queue)
unfolding queue_position
queue_position-last [] new h = rw (bytes_eq_refl new.id) refl
queue_position-last (job ∷ queue) new h =
    let other : bytes_eq job.id new.id ≡ false = ground (arith, bytes_eq_iff job.id new.id, h.0) in
    rw (other, queue_position-last queue new h.1, queue_position) refl
