-- ===== src/Queue.antt =====
-- internal/queue/queue.go: a buffered channel that worker goroutines drain. The state is what the
-- goroutines share; an execution is a list of actions in the order in which they take effect, a
-- call under the mutex or a channel operation being one action.
pub mod Counted
pub mod Shutdown
use address_quality.Prelude.{
  List, ℕ, if◌then◌else◌, true, Bool, [], ltb, set, get_or, false, ◌∷◌, ◌&&◌, replicate, length,
  ◌++◌, not, ◌||◌,
}

pub data SubmitResult : Type 0 where
  accepted err_queue_closed err_queue_full : SubmitResult

-- Where a worker goroutine of `run` is: at the receive, in the handler, or returned (`wg.Done`).
pub data Worker {ℓ} (T : Type ℓ) : Type ℓ where
  waiting : Worker T
  busy : T → Worker T
  exited : Worker T

-- `accepted` and `finished` are histories, which the code does not keep: the jobs that `Submit` took
-- and those whose handler has ended, by a return or by a panic that `execute` recovers.
pub record Queue {ℓ} (T : Type ℓ) : Type ℓ where
  pub jobs : List T
  pub size : ℕ
  pub closed : Bool
  pub workers : List (Worker T)
  pub accepted : List T
  pub finished : List T

module _ {ℓ} {T : Type ℓ} where
  unfoldable pub new : ℕ → ℕ → Queue T
  new size workers = record {
    jobs = [];
    size = if ltb size 1 then 1 else size;
    closed = false;
    workers = replicate (if ltb workers 1 then 1 else workers) Worker.waiting;
    accepted = [];
    finished = [];
  }

  unfoldable pub submit : T → Queue T → Queue T × SubmitResult
  submit job q =
      if q.closed
      then (q, SubmitResult.err_queue_closed)
      else if ltb (length q.jobs) q.size
      then (
        record q { jobs = q.jobs ++ job ∷ []; accepted = q.accepted ++ job ∷ [] },
        SubmitResult.accepted,
      )
      else (q, SubmitResult.err_queue_full)

  -- The part of `Shutdown` under the mutex.
  unfoldable pub close : Queue T → Queue T
  close q = record q { closed = true }

  -- A worker at the receive: it gets the oldest job; on an empty channel it returns if the channel
  -- is closed, and waits on if not.
  unfoldable pub receive : ℕ → List T → Queue T → Queue T
  receive i [] q = if q.closed then record q { workers = set q.workers i Worker.exited } else q
  receive i (job ∷ rest) q = record q { jobs = rest; workers = set q.workers i (Worker.busy job) }

  -- The next move of worker i of `run`. `execute` ends in the same way on a panic.
  unfoldable pub run : ℕ → Queue T → Queue T
  run i q = elim (get_or q.workers i Worker.exited) [
    | Worker.waiting ↦ receive i q.jobs q
    | Worker.busy job ↦ record q {
      workers = set q.workers i Worker.waiting;
      finished = q.finished ++ job ∷ [];
    }
    | Worker.exited ↦ q
  ]

  abbrev pub has_exited : Worker T → Bool
  has_exited Worker.exited = true
  has_exited _ = false

  -- `wg.Wait` returns.
  unfoldable pub all_exited : List (Worker T) → Bool
  all_exited [] = true
  all_exited (w ∷ ws) = has_exited w && all_exited ws

pub data Action {ℓ} (T : Type ℓ) : Type ℓ where
  submits : T → Action T
  closes : Action T
  moves : ℕ → Action T

module _ {ℓ} {T : Type ℓ} where
  unfoldable pub act : Action T → Queue T → Queue T
  act (Action.submits job) q = (submit job q).0
  act Action.closes q = close q
  act (Action.moves i) q = run i q

  unfoldable pub execute_all : List (Action T) → Queue T → Queue T
  execute_all [] q = q
  execute_all (a ∷ rest) q = execute_all rest (act a q)

pub data ShutdownResult : Type 0 where
  drained cancelled still_waiting : ShutdownResult

-- The `select` of `Shutdown`: when both cases are ready, the runtime chooses.
unfoldable pub shutdown_result {ℓ} : {T : Type ℓ} → Bool → Bool → Queue T → ShutdownResult
shutdown_result ctx_done choice q =
    let waited = all_exited q.workers in
    if waited && (not ctx_done || choice)
    then ShutdownResult.drained
    else if ctx_done
    then ShutdownResult.cancelled
    else ShutdownResult.still_waiting
