-- ===== src/Pool/Submit.antt =====
-- What `Acquire` hands out, and what `SubmitTask` does with it.
use cloud_agent_platform.Base.{
  ℕ, ◌+◌, ◌%◌, ◌<◌, ◌≡◌, ◌≢◌, refl, ap, ◌∙◌, inl, inr, String, Bool, true, false, Option, none,
  some, arith, length, if◌then◌else◌, Bool-cases, Option-cases,
}
use cloud_agent_platform.Base.Int64.{modulus, sle}
use cloud_agent_platform.Pool.Worker.{
  Worker, WorkerStatus, idle, busy, set_status, begin_execute, end_execute, refuses,
}
use cloud_agent_platform.Pool.Ops.{
  Pool, Outcome, get_worker, create_worker, find_available, acquire, destroy_worker, execute,
  submit_acquired, submit_task, finish_submission, add_pending, exec_failed,
}
use cloud_agent_platform.Pool.Lookup.{get_worker-put, get_worker-modify, get_worker-find_available}
use cloud_agent_platform.Pool.Size.{length-modify, length-delete}

-- The pool has the worker `id`, with this status.
abbrev pub Holds : String → WorkerStatus → Pool → Type 0
Holds id status p = (w : Worker) × (get_worker id p.workers ≡ some w) × (w.status ≡ status)

-- What a call of `Acquire` leaves: a refused call, an error and the pool as it was; a successful
-- one, no error and the worker in the pool, busy.
abbrev pub Acquired : Pool → Pool × Option String × Outcome → Type 0
Acquired p (p', none, failure) = (p' ≡ p) × (failure ≢ none)
Acquired p (p', some id, failure) =
    Holds id busy p' × (failure ≡ none) × (p'.pending_tasks ≡ p.pending_tasks)

-- `Acquire` either returns an error and leaves the pool as it is, or returns no error and a worker
-- that the pool holds as busy.
acquire_lem : (created : Option String) (now : ℕ) (p : Pool) → Acquired p (acquire created now p)
unfolding acquire
acquire_lem created now p = elim (Bool-cases p.running) [
  | inr r ↦ rw (r, acquire) (cc, λ h. ground arith)
  | inl r ↦ elim (Option-cases (find_available p.workers)) [
    | inr (id, f) ↦
        let (w, g) = get_worker-find_available p.workers id f in
        rw (r, f, acquire)
          (
            (set_status busy w, get_worker-modify id (set_status busy) p.workers w refl g, refl),
            refl,
            refl,
          )
    | inl f ↦ elim (Bool-cases (sle p.cfg.max_workers (length p.workers))) [
      | inl full ↦ rw (r, f, full, acquire) (cc, λ h. ground arith)
      | inr free ↦ elim (Option-cases (create_worker created now)) [
        | inl g ↦ rw (r, f, free, g, acquire) (cc, λ h. ground arith)
        | inr (w, g) ↦
            rw (r, f, free, g, acquire)
              ((set_status busy w, get_worker-put (set_status busy w) p.workers, refl), refl, refl)
      ]
    ]
  ]
]

abbrev started : ℕ → Worker → Worker
started now w = record w { status = busy; task_context = some false; last_used = now }

begin_execute-busy :
    (now : ℕ) (w : Worker) → w.status ≡ busy → begin_execute now w ≡ some (started now w)
unfolding begin_execute
begin_execute-busy now w s = rw (s, begin_execute, refuses) refl

-- `Execute` on a busy worker of the pool.
execute-busy :
    (id : String) (answer : Bool) (now : ℕ) (p : Pool)
    → Holds id busy p
    → Holds id idle (execute id answer now p).0
      × ((execute id answer now p).1 ≡ (if answer then none else some exec_failed))
      × ((execute id answer now p).0.pending_tasks ≡ p.pending_tasks)
      × (length (execute id answer now p).0.workers ≡ length p.workers)
unfolding execute end_execute
execute-busy id answer now p (w, g, s) =
    let v = started now w in
    rw (g, begin_execute-busy now w s, execute)
      (
        (end_execute v, get_worker-modify id (λ _. end_execute v) p.workers w refl g, refl),
        refl,
        refl,
        length-modify id (λ _. end_execute v) p.workers,
      )

-- What the task leaves, by the sandbox's answer: after a success the worker is idle, after a failure
-- one worker fewer is there.
abbrev pub Finished : Bool → String → ℕ → Pool × Outcome → Type 0
Finished true id n (p, failure) = Holds id idle p × (failure ≡ none)
Finished false id n (p, failure) = (length p.workers + 1 ≡ n) × (failure ≡ some exec_failed)

destroy_worker-Holds :
    (id : String) (status : WorkerStatus) (p : Pool)
    → Holds id status p
    → (length (destroy_worker id p).0.workers + 1 ≡ length p.workers)
      × ((destroy_worker id p).0.pending_tasks ≡ p.pending_tasks)
unfolding destroy_worker
destroy_worker-Holds id status p (w, g, s) =
    let e = length-delete id p.workers in rw (g, destroy_worker) (rw⁻¹ e (rw g refl), refl)

submit_acquired_lem :
    (id : String) (answer : Bool) (now : ℕ) (p : Pool)
    → Holds id busy p
    → Finished answer id (length p.workers) (submit_acquired id answer now p)
      × ((submit_acquired id answer now p).0.pending_tasks ≡ p.pending_tasks)
unfolding submit_acquired
submit_acquired_lem id true now p h =
    let (held, result, pending, size) = execute-busy id true now p h in
    rw (result, submit_acquired) ((held, refl), pending)
submit_acquired_lem id false now p h =
    let (held, result, pending, size) = execute-busy id false now p h in
    let (fewer, same) = destroy_worker-Holds id idle (execute id false now p).0 held in
    rw (result, submit_acquired) ((fewer ∙ size, refl), same ∙ pending)

-- What a submission leaves, by what `Acquire` did on the pool: its error, and the pool as it was;
-- or the end of the task.
abbrev pub Submitted : Bool → Pool → Pool × Option String × Outcome → Pool × Outcome → Type 0
Submitted answer p (p', none, failure) (p'', result) =
    (result ≡ failure) × (p''.workers ≡ p.workers) × (p''.running ≡ p.running)
Submitted answer p (p', some id, failure) after = Finished answer id (length p'.workers) after

add_pending-back : (n : ℕ) → n < modulus → ((n + 1) % modulus + 18446744073709551615) % modulus ≡ n
add_pending-back n h = omega arith

Finished-add_pending :
    (answer : Bool) (id : String) (n : ℕ) (r : Pool × Outcome)
    → Finished answer id n r
    → Finished answer id n (add_pending 18446744073709551615 r.0, r.1)
Finished-add_pending true id n r h = h
Finished-add_pending false id n r h = h

finish_submission_lem :
    (answer : Bool) (now : ℕ) (p : Pool) (a : Pool × Option String × Outcome)
    → p.pending_tasks < modulus
    → Acquired (add_pending 1 p) a
    → Submitted answer p a (finish_submission answer now a)
      × ((finish_submission answer now a).0.pending_tasks ≡ p.pending_tasks)
unfolding finish_submission
finish_submission_lem answer now p (p', none, failure) h (e, f) = (
  (refl, ap (λ (q : Pool). q.workers) e, ap (λ (q : Pool). q.running) e),
  ap (λ (q : Pool). (q.pending_tasks + 18446744073709551615) % modulus) e
      ∙ add_pending-back p.pending_tasks h,
)
finish_submission_lem answer now p (p', some id, failure) h (held, _, pending) =
    let (done, same) = submit_acquired_lem id answer now p' held in
    (
      Finished-add_pending answer id (length p'.workers) (submit_acquired id answer now p') done,
      ap (λ n. (n + 18446744073709551615) % modulus) (same ∙ pending)
          ∙ add_pending-back p.pending_tasks h,
    )

-- `SubmitTask` returns what `Acquire` returned and leaves the workers as they are, if that was an
-- error. Otherwise, after a success, it returns no error and the worker is idle in the pool; after a
-- failure it returns the failure and the pool has one worker fewer than after `Acquire`. In each case
-- the count of pending tasks is what it was.
pub submit_task_lem :
    (created : Option String) (answer : Bool) (now : ℕ) (p : Pool)
    → p.pending_tasks < modulus
    → Submitted answer p (acquire created now (add_pending 1 p)) (submit_task created answer now p)
      × ((submit_task created answer now p).0.pending_tasks ≡ p.pending_tasks)
unfolding submit_task
submit_task_lem created answer now p h =
    let p' = add_pending 1 p in
    finish_submission_lem answer now p (acquire created now p') h (acquire_lem created now p')
