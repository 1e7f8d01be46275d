-- ===== src/Queue/Shutdown.antt =====
-- The shutdown of the queue, its invariant, and what remains to be done in a closed queue.
use address_quality.Queue.{
  Queue, Worker, Action, new, submit, close, receive, run, act, execute_all, all_exited, has_exited,
  ShutdownResult, shutdown_result,
}
use address_quality.Queue.Counted.{count, in_flight, Worker-cases, execute_all-count}
use address_quality.Prelude.{
  List, Bool, ◌≤◌, ℕ, arith, ◌≡◌, length, any, if◌then◌else◌, length-append, false, true, replicate,
  ltb, ◌∷◌, set, [], length-replicate, suc, zero, refl, Bool-cases, get_or, ap, ◌+◌, ◌*◌, inl,
  length-set, inr, subst, sym,
}

any-replicate :
    (T : Type 0) (n : ℕ) → any has_exited (replicate {A = Worker T} n Worker.waiting) ≡ false
any-replicate T zero = refl
any-replicate T (suc n) = any-replicate T n

module _ {T : Type 0} where
  abbrev idle : Worker T
  idle = Worker.waiting

  any-set :
      (ws : List (Worker T)) (i : ℕ) (w : Worker T)
      → has_exited w ≡ false
      → any has_exited (set ws i w) ≡ true
      → any has_exited ws ≡ true
  any-set [] i w live h = h
  any-set (v ∷ ws) zero w live h = ground arith
  any-set (v ∷ ws) (suc i) w live h = ground (arith, any-set ws i w live)

  any-of_all :
      (ws : List (Worker T)) → 1 ≤ length ws → all_exited ws ≡ true → any has_exited ws ≡ true
  unfolding all_exited
  any-of_all [] some h = elim some [ ]
  any-of_all (w ∷ ws) some h = ground arith

  in_flight-exited :
      (p : T → Bool) (ws : List (Worker T)) → all_exited ws ≡ true → in_flight p ws ≡ 0
  unfolding all_exited
  in_flight-exited p [] h = refl
  in_flight-exited p (Worker.waiting ∷ ws) h = cc
  in_flight-exited p (Worker.busy j ∷ ws) h = cc
  in_flight-exited p (Worker.exited ∷ ws) h = omega (arith, in_flight-exited p ws h)

  -- A worker returns on a closed and empty channel only, and such a channel stays so.
  record IsSettled (q : Queue T) : Type 0 where
    has_workers : 1 ≤ length q.workers
    has_room : 1 ≤ q.size
    bounded : length q.jobs ≤ q.size
    settled : any has_exited q.workers ≡ true → (q.closed ≡ true) × (q.jobs ≡ [])

  new-IsSettled : (size workers : ℕ) → IsSettled (new size workers)
  unfolding new
  new-IsSettled size workers =
      let n = if ltb workers 1 then 1 else workers in
      record {
        has_workers = ground (arith, length-replicate n idle);
        has_room = ground arith;
        bounded = ground arith;
        settled = λ h. cc (h, any-replicate T n);
      }

  submit-IsSettled : (job : T) (q : Queue T) → IsSettled q → IsSettled (submit job q).0
  unfolding submit
  submit-IsSettled job q k = record {
    has_workers = ground arith;
    has_room = ground arith;
    bounded = ground (arith, length-append q.jobs (job ∷ []));
    settled = ground arith;
  }

  receive-IsSettled :
      (i : ℕ) (js : List T) (q : Queue T) → q.jobs ≡ js → IsSettled q → IsSettled (receive i js q)
  unfolding receive
  receive-IsSettled i [] q empty k = elim (Bool-cases q.closed) [
    | inl closed ↦ rw closed (record {
      has_workers = ground (arith, length-set q.workers i Worker.exited);
      has_room = k.has_room;
      bounded = k.bounded;
      settled = λ h. (refl, empty);
    })
    | inr opened ↦
        subst
          (λ b. IsSettled (if b then record q { workers = set q.workers i Worker.exited } else q))
          (sym opened) k
  ]
  receive-IsSettled i (j ∷ js) q at k = record {
    has_workers = ground (arith, length-set q.workers i (Worker.busy j));
    has_room = k.has_room;
    bounded = ground (arith, k.bounded);
    settled = λ h. cc (at, (k.settled (any-set q.workers i (Worker.busy j) refl h)).1);
  }

  run-IsSettled : (i : ℕ) (q : Queue T) → IsSettled q → IsSettled (run i q)
  unfolding run
  run-IsSettled i q k = elim (Worker-cases (get_or q.workers i Worker.exited)) [
    | inl at ↦ rw (at, run) (receive-IsSettled i q.jobs q refl k)
    | inr (inl (j, at)) ↦
        rw (at, run)
          (record {
            has_workers = ground (arith, length-set q.workers i Worker.waiting);
            has_room = k.has_room;
            bounded = k.bounded;
            settled = λ h. k.settled (any-set q.workers i Worker.waiting refl h);
          })
    | inr (inr at) ↦ rw (at, run) k
  ]

  execute_all-IsSettled :
      (acts : List (Action T)) (q : Queue T) → IsSettled q → IsSettled (execute_all acts q)
  unfolding execute_all act close
  execute_all-IsSettled [] q k = k
  execute_all-IsSettled (Action.submits job ∷ acts) q k =
      execute_all-IsSettled acts (submit job q).0 (submit-IsSettled job q k)
  execute_all-IsSettled (Action.closes ∷ acts) q k = execute_all-IsSettled acts (close q) (record {
    has_workers = k.has_workers;
    has_room = k.has_room;
    bounded = k.bounded;
    settled = λ h. (refl, (k.settled h).1);
  })
  execute_all-IsSettled (Action.moves i ∷ acts) q k =
      execute_all-IsSettled acts (run i q) (run-IsSettled i q k)

  -- In every execution of a new queue, the buffer holds at most `size` jobs, which is at least one.
  pub execute_all-bounded :
      (size workers : ℕ) (acts : List (Action T))
      → (length (execute_all acts (new size workers)).jobs
          ≤ (execute_all acts (new size workers)).size)
        × (1 ≤ (execute_all acts (new size workers)).size)
  execute_all-bounded size workers acts =
      let k = execute_all-IsSettled acts (new size workers) (new-IsSettled size workers) in
      (k.bounded, k.has_room)

  drained-exited :
      (ctx_done choice : Bool) (q : Queue T)
      → shutdown_result ctx_done choice q ≡ ShutdownResult.drained
      → all_exited q.workers ≡ true
  unfolding shutdown_result
  drained-exited ctx_done choice q h = ground arith

  -- When `Shutdown` returns nil after any execution of a new queue, the queue is closed, its buffer
  -- is empty, and of the jobs that pass a test as many are finished as were accepted: every accepted
  -- job has been run.
  pub shutdown-drained :
      (p : T → Bool) (size workers : ℕ) (acts : List (Action T)) (ctx_done choice : Bool)
      → shutdown_result ctx_done choice (execute_all acts (new size workers))
        ≡ ShutdownResult.drained
      → ((execute_all acts (new size workers)).closed ≡ true)
        × ((execute_all acts (new size workers)).jobs ≡ [])
        × (count p (execute_all acts (new size workers)).finished
            ≡ count p (execute_all acts (new size workers)).accepted)
  shutdown-drained p size workers acts ctx_done choice h =
      let q = execute_all acts (new size workers) in
      let k = execute_all-IsSettled acts (new size workers) (new-IsSettled size workers) in
      let gone = drained-exited ctx_done choice q h in
      let (closed, empty) = k.settled (any-of_all q.workers k.has_workers gone) in
      let none_left : count p q.jobs ≡ 0 = ap (count p) empty in
      (
        closed,
        empty,
        omega (
          arith,
          execute_all-count p size workers acts,
          in_flight-exited p q.workers gone,
          none_left,
        ),
      )

  abbrev pub weight : Worker T → ℕ
  weight Worker.waiting = 1
  weight (Worker.busy j) = 2
  weight Worker.exited = 0

  abbrev pub weights : List (Worker T) → ℕ
  weights [] = 0
  weights (w ∷ ws) = weight w + weights ws

  -- What is left to do: two moves for each buffered job, and those of the workers.
  abbrev pub remaining : Queue T → ℕ
  remaining q = 2 * length q.jobs + weights q.workers

  weights-set :
      (ws : List (Worker T)) (i : ℕ) (w : Worker T)
      → has_exited (get_or ws i Worker.exited) ≡ false
      → weights (set ws i w) + weight (get_or ws i Worker.exited) ≡ weights ws + weight w
  weights-set [] i w live = cc
  weights-set (v ∷ ws) zero w live = omega arith
  weights-set (v ∷ ws) (suc i) w live = omega (arith, weights-set ws i w live)

  receive-remaining :
      (i : ℕ) (js : List T) (q : Queue T)
      → q.jobs ≡ js
      → q.closed ≡ true
      → get_or q.workers i Worker.exited ≡ Worker.waiting
      → remaining (receive i js q) + 1 ≡ remaining q
  unfolding receive
  receive-remaining i [] q empty closed at = ground (arith, weights-set q.workers i Worker.exited)
  receive-remaining i (j ∷ js) q some closed at =
      ground (arith, weights-set q.workers i (Worker.busy j))

  -- In a closed queue, every move of a worker that has not returned takes one from what remains to
  -- be done: two for each buffered job, two for each busy worker and one for each waiting one.
  pub run-remaining :
      (i : ℕ) (q : Queue T)
      → q.closed ≡ true
      → has_exited (get_or q.workers i Worker.exited) ≡ false
      → remaining (run i q) + 1 ≡ remaining q
  unfolding run
  run-remaining i q closed live = elim (Worker-cases (get_or q.workers i Worker.exited)) [
    | inl at ↦ rw (at, run) (receive-remaining i q.jobs q refl closed at)
    | inr (inl (j, at)) ↦ ground (arith, weights-set q.workers i Worker.waiting)
    | inr (inr at) ↦ cc
  ]
