-- ===== src/Pool/Bounds.antt =====
-- How many workers the operations leave: between `min_workers` and `max_workers`.
use mathlib.Core.Path.{subst}
use cloud_agent_platform.Base.{
  ℕ, ◌+◌, ◌%◌, ◌≤◌, ◌≡◌, refl, sym, inl, inr, String, Bool, Option, none, some, List, [], ◌∷◌,
  arith, length, Bool-cases, Option-cases,
}
use cloud_agent_platform.Base.Int64.{modulus, sle, sub}
use cloud_agent_platform.Pool.Config.{Config, IsUsable, IsTyped, validate, validate-IsUsable}
use cloud_agent_platform.Pool.Worker.{set_status, busy, idle, begin_execute, end_execute}
use cloud_agent_platform.Pool.Ops.{
  Pool, Outcome, get_worker, create_worker, find_available, acquire, release, destroy_worker,
  execute, submit_acquired, finish_submission, submit_task, add_pending, begin_submission,
  end_submission, empty_pool, new_pool,
}
use cloud_agent_platform.Pool.Loops.{
  Answers, at_most, at_least, rounds, prewarm, start, scale, cleanup,
}
use cloud_agent_platform.Pool.Size.{
  length-put, length-modify, length-delete, length-prewarm_from, length-scale_up_from,
  length-scale_down_from, length-cleanup_from,
}

-- The pool has the configuration `c` and at most `max_workers` workers.
abbrev pub Fits : Config → Pool → Type 0
Fits c p = (p.cfg ≡ c) × (length p.workers ≤ c.max_workers)

module _ (c : Config) (u : IsUsable c) where
  acquire-Fits :
      (created : Option String) (now : ℕ) (p : Pool) → Fits c p → Fits c (acquire created now p).0
  unfolding acquire
  acquire-Fits created now p (e, b) =
      let k = u.max_nonneg in
      elim (Bool-cases p.running) [
        | inr r ↦ rw r (e, b)
        | inl r ↦ elim (Option-cases (find_available p.workers)) [
          | inr (id, f) ↦ rw (r, f) (e, rw (length-modify id (set_status busy) p.workers) b)
          | inl f ↦ elim (Bool-cases (sle p.cfg.max_workers (length p.workers))) [
            | inl full ↦ rw (r, f, full) (e, b)
            | inr free ↦ elim (Option-cases (create_worker created now)) [
              | inl g ↦ rw (r, f, free, g) (e, b)
              | inr (w, g) ↦
                  rw (r, f, free, g) (e, ground (arith, length-put (set_status busy w) p.workers))
            ]
          ]
        ]
      ]

  release-Fits : (id : String) (p : Pool) → Fits c p → Fits c (release id p)
  unfolding release
  release-Fits id p (e, b) = (e, rw (length-modify id (set_status idle) p.workers) b)

  destroy_worker-Fits : (id : String) (p : Pool) → Fits c p → Fits c (destroy_worker id p).0
  unfolding destroy_worker
  destroy_worker-Fits id p (e, b) = elim (Option-cases (get_worker id p.workers)) [
    | inl f ↦ rw (f, destroy_worker) (e, b)
    | inr (w, f) ↦ rw (f, destroy_worker) (e, ground (arith, length-delete id p.workers))
  ]

  execute-Fits :
      (id : String) (answer : Bool) (now : ℕ) (p : Pool)
      → Fits c p
      → Fits c (execute id answer now p).0
  unfolding execute
  execute-Fits id answer now p (e, b) = elim (Option-cases (get_worker id p.workers)) [
    | inl f ↦ rw (f, execute) (e, b)
    | inr (w, f) ↦ elim (Option-cases (begin_execute now w)) [
      | inl g ↦ rw (f, g, execute) (e, b)
      | inr (w', g) ↦
          rw (f, g, execute) (e, rw (length-modify id (λ _. end_execute w') p.workers) b)
    ]
  ]

  submit_acquired-Fits :
      (id : String) (answer : Bool) (now : ℕ) (p : Pool)
      → Fits c p
      → Fits c (submit_acquired id answer now p).0
  unfolding submit_acquired
  submit_acquired-Fits id answer now p h =
      let k = execute-Fits id answer now p h in
      elim (Option-cases (execute id answer now p).1) [
        | inl e ↦ rw (e, submit_acquired) k
        | inr (_, e) ↦
            rw (e, submit_acquired) (destroy_worker-Fits id (execute id answer now p).0 k)
      ]

  finish_submission-Fits :
      (answer : Bool) (now : ℕ) (a : Pool × Option String × Outcome)
      → Fits c a.0
      → Fits c (finish_submission answer now a).0
  unfolding finish_submission
  finish_submission-Fits answer now (p, none, failure) h = h
  finish_submission-Fits answer now (p, some id, failure) h = submit_acquired-Fits id answer now p h

  submit_task-Fits :
      (created : Option String) (answer : Bool) (now : ℕ) (p : Pool)
      → Fits c p
      → Fits c (submit_task created answer now p).0
  unfolding submit_task
  submit_task-Fits created answer now p h =
      let p' = add_pending 1 p in
      finish_submission-Fits answer now (acquire created now p') (acquire-Fits created now p' h)

  scale-Fits :
      (pending current : ℕ) (created : Answers) (now : ℕ) (p : Pool)
      → Fits c p
      → Fits c (scale pending current created now p)
  unfolding scale
  scale-Fits pending current created now p (e, b) =
      let higher = at_most p.cfg.max_workers ((current + p.cfg.scale_up_step) % modulus) in
      let lower = at_least p.cfg.min_workers (sub current p.cfg.scale_down_step) in
      let most = u.max_nonneg in
      ground (
        arith,
        length-scale_up_from (rounds (sub higher current)) p.cfg.max_workers 0 created now
            p.workers,
        length-scale_down_from (rounds (sub current lower)) p.workers,
      )

  cleanup-Fits : (now : ℕ) (p : Pool) → Fits c p → Fits c (cleanup now p)
  unfolding cleanup
  cleanup-Fits now p (e, b) =
      ground (arith, length-cleanup_from p.cfg now (length p.workers) p.workers)

-- The steps on a running pool, with what each is given. A submission is either one step or begins,
-- acquires, executes, destroys and ends in steps of its own, with those of others in between; `scale`
-- acts on counts that it read earlier, which may be any. `Stop`, a second `Start` and the health check
-- are not among them.
pub data Op : Type 0 where
  do_acquire : (created : Option String) (now : ℕ) → Op
  do_release do_destroy : (id : String) → Op
  do_submit : (created : Option String) (answer : Bool) (now : ℕ) → Op
  do_begin do_end : Op
  do_execute : (id : String) (answer : Bool) (now : ℕ) → Op
  do_scale : (pending current : ℕ) (created : Answers) (now : ℕ) → Op
  do_cleanup : (now : ℕ) → Op

abbrev pub apply : Op → Pool → Pool
apply (do_acquire created now) p = (acquire created now p).0
apply (do_release id) p = release id p
apply (do_destroy id) p = (destroy_worker id p).0
apply (do_submit created answer now) p = (submit_task created answer now p).0
apply do_begin p = begin_submission p
apply do_end p = end_submission p
apply (do_execute id answer now) p = (execute id answer now p).0
apply (do_scale pending current created now) p = scale pending current created now p
apply (do_cleanup now) p = cleanup now p

abbrev pub run : List Op → Pool → Pool
run [] p = p
run (op ∷ ops) p = run ops (apply op p)

module _ (c : Config) (u : IsUsable c) where
  apply-Fits : (op : Op) (p : Pool) → Fits c p → Fits c (apply op p)
  apply-Fits (do_acquire created now) p h = acquire-Fits c u created now p h
  apply-Fits (do_release id) p h = release-Fits c u id p h
  apply-Fits (do_destroy id) p h = destroy_worker-Fits c u id p h
  apply-Fits (do_submit created answer now) p h = submit_task-Fits c u created answer now p h
  apply-Fits do_begin p h = h
  apply-Fits do_end p h = h
  apply-Fits (do_execute id answer now) p h = execute-Fits c u id answer now p h
  apply-Fits (do_scale pending current created now) p h =
      scale-Fits c u pending current created now p h
  apply-Fits (do_cleanup now) p h = cleanup-Fits c u now p h

  run_from-Fits : (ops : List Op) (p : Pool) → Fits c p → Fits c (run ops p)
  run_from-Fits [] p h = h
  run_from-Fits (op ∷ ops) p h = run_from-Fits ops (apply op p) (apply-Fits op p h)

  start-Fits : (created : Answers) (now : ℕ) → Fits c (start created now (empty_pool c)).0
  unfolding start prewarm
  start-Fits created now =
      let ordered = u.ordered in
      (refl, ground (arith, length-prewarm_from (rounds c.min_workers) 0 created now []))

new_pool-inr :
    (c : Config) (p : Pool) → new_pool c ≡ inr p → (validate c ≡ none) × (p ≡ empty_pool c)
unfolding new_pool
new_pool-inr c p h = elim (Option-cases (validate c)) [ inl e ↦ (e, cc) | inr (_, e) ↦ cc ]

-- A pool that `NewPool` made of a valid configuration and that was started has, after any sequence
-- of Acquire, Release, DestroyWorker, scale, cleanup and of the steps of submissions, with any answers
-- of the sandbox and with any counts that `scale` may have read, its configuration and at most
-- `MaxWorkers` workers.
pub run-Fits :
    (c : Config) (p : Pool) (created : Answers) (now : ℕ) (ops : List Op)
    → IsTyped c
    → new_pool c ≡ inr p
    → Fits c (run ops (start created now p).0)
run-Fits c p created now ops t h =
    let (v, e) = new_pool-inr c p h in
    let u = validate-IsUsable c t v in
    run_from-Fits c u ops (start created now p).0
      (subst (λ q. Fits c (start created now q).0) (sym e) (start-Fits c u created now))
