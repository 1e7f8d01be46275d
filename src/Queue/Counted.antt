-- ===== src/Queue/Counted.antt =====
-- The jobs of the queue, counted through an execution.
use address_quality.Queue.{
  Queue, Worker, Action, new, submit, close, receive, run, act, execute_all, has_exited,
}
use address_quality.Prelude.{
  Bool, List, ℕ, ◌≡◌, arith, ◌∷◌, when, ◌++◌, get_or, replicate, ◌+◌, [], suc, zero, set, refl, ◌⊎◌,
  if◌then◌else◌, inl, inr, false, ltb,
}

pub Worker-cases :
    {T : Type 0} (w : Worker T)
    → (w ≡ Worker.waiting) ⊎ ((j : T) × (w ≡ Worker.busy j)) ⊎ (w ≡ Worker.exited)
Worker-cases Worker.waiting = inl refl
Worker-cases (Worker.busy j) = inr (inl (j, refl))
Worker-cases Worker.exited = inr (inr refl)

module _ {T : Type 0} (p : T → Bool) where
  -- How many of the jobs pass a test.
  abbrev pub count : List T → ℕ
  count [] = 0
  count (j ∷ js) = when (p j) 1 + count js

  abbrev pub load : Worker T → ℕ
  load Worker.waiting = 0
  load (Worker.busy j) = when (p j) 1
  load Worker.exited = 0

  -- Of the jobs in a handler.
  abbrev pub in_flight : List (Worker T) → ℕ
  in_flight [] = 0
  in_flight (w ∷ ws) = load w + in_flight ws

  count-append : (js ks : List T) → count (js ++ ks) ≡ count js + count ks
  count-append [] ks = omega arith
  count-append (j ∷ js) ks = omega (arith, count-append js ks)

  in_flight-set :
      (ws : List (Worker T)) (i : ℕ) (w : Worker T)
      → has_exited (get_or ws i Worker.exited) ≡ false
      → in_flight (set ws i w) + load (get_or ws i Worker.exited) ≡ in_flight ws + load w
  in_flight-set [] i w live = cc
  in_flight-set (v ∷ ws) zero w live = omega arith
  in_flight-set (v ∷ ws) (suc i) w live = omega (arith, in_flight-set ws i w live)

  in_flight-replicate : (n : ℕ) → in_flight (replicate n Worker.waiting) ≡ 0
  in_flight-replicate zero = refl
  in_flight-replicate (suc n) = omega (arith, in_flight-replicate n)

  -- Every accepted job is buffered, in a handler, or finished.
  abbrev pub IsCounted : Queue T → Type 0
  IsCounted q = count q.accepted ≡ count q.finished + in_flight q.workers + count q.jobs

  submit-IsCounted : (job : T) (q : Queue T) → IsCounted q → IsCounted (submit job q).0
  unfolding submit
  submit-IsCounted job q h =
      ground (arith, count-append q.accepted (job ∷ []), count-append q.jobs (job ∷ []))

  receive-IsCounted :
      (i : ℕ) (js : List T) (q : Queue T)
      → get_or q.workers i Worker.exited ≡ Worker.waiting
      → q.jobs ≡ js
      → IsCounted q
      → IsCounted (receive i js q)
  unfolding receive
  receive-IsCounted i [] q at empty h = ground (arith, in_flight-set q.workers i Worker.exited)
  receive-IsCounted i (j ∷ js) q at some h =
      ground (arith, in_flight-set q.workers i (Worker.busy j))

  run-IsCounted : (i : ℕ) (q : Queue T) → IsCounted q → IsCounted (run i q)
  unfolding run
  run-IsCounted i q h = elim (Worker-cases (get_or q.workers i Worker.exited)) [
    | inl at ↦ rw (at, run) (receive-IsCounted i q.jobs q at refl h)
    | inr (inl (j, at)) ↦
        ground (arith, in_flight-set q.workers i Worker.waiting, count-append q.finished (j ∷ []))
    | inr (inr at) ↦ rw (at, run) h
  ]

  execute_all-IsCounted :
      (acts : List (Action T)) (q : Queue T) → IsCounted q → IsCounted (execute_all acts q)
  unfolding execute_all act close
  execute_all-IsCounted [] q h = h
  execute_all-IsCounted (Action.submits job ∷ acts) q h =
      execute_all-IsCounted acts (submit job q).0 (submit-IsCounted job q h)
  execute_all-IsCounted (Action.closes ∷ acts) q h = execute_all-IsCounted acts (close q) h
  execute_all-IsCounted (Action.moves i ∷ acts) q h =
      execute_all-IsCounted acts (run i q) (run-IsCounted i q h)

  -- In every execution of a new queue, the accepted jobs that pass a test are as many as those that
  -- are finished, in a handler, or in the buffer.
  pub execute_all-count :
      (size workers : ℕ) (acts : List (Action T))
      → count (execute_all acts (new size workers)).accepted
        ≡ count (execute_all acts (new size workers)).finished
          + in_flight (execute_all acts (new size workers)).workers
          + count (execute_all acts (new size workers)).jobs
  unfolding new
  execute_all-count size workers acts =
      execute_all-IsCounted acts _
        (omega (arith, in_flight-replicate (if ltb workers 1 then 1 else workers)))
