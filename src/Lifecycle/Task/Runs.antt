-- ===== src/Lifecycle/Task/Runs.antt =====
-- Sequences of transitions of a task, each refusal passed over.
use cloud_agent_platform.Base.{
  ℕ, ◌+◌, ◌%◌, ◌<◌, ◌≡◌, refl, ap, ◌∙◌, ◌⊎◌, inl, inr, String, Bool, true, false, ◌||◌, not, Option,
  none, some, List, [], ◌∷◌, arith, ◌==◌, string_comparable, Option-cases, all, all-All, contains,
}
use mathlib.Core.Path.{subst}
use cloud_agent_platform.Base.Int64.{inc, modulus}
use cloud_agent_platform.Fsm.Table.{find_transition, find_transition-All, find_transition_key}
use cloud_agent_platform.Lifecycle.{
  TaskStatus, pending, running, reviewing, confirming, completed, cancelled, status_comparable,
  is_terminal,
}
use cloud_agent_platform.Lifecycle.Entity.{Task, TaskError}
use cloud_agent_platform.Lifecycle.Machines.{TaskTransition, task_state_machine_definition}
use cloud_agent_platform.Lifecycle.Graph.{terminal_stuck}
use cloud_agent_platform.Lifecycle.Task.{transition_to}
use cloud_agent_platform.Lifecycle.Task.Laws.{move, missing, transition_to_lem}

-- The task that a call leaves, and whether it was accepted.
abbrev pub left_by : Task → Option (Task × Option TaskError) → Task
left_by t none = t
left_by t (some (t', e)) = t'

abbrev pub accepted_by : Option (Task × Option TaskError) → ℕ
accepted_by none = 0
accepted_by (some (t', none)) = 1
accepted_by (some (t', some e)) = 0

unfoldable pub run : List String → Task → Task
run [] t = t
run (e ∷ es) t = run es (left_by t (transition_to e t))

unfoldable pub accepted : List String → Task → ℕ
accepted [] t = 0
accepted (e ∷ es) t = accepted_by (transition_to e t) + accepted es (left_by t (transition_to e t))

abbrev moved : String → Task → Task
moved e t = (move t e (find_transition t.status e task_state_machine_definition)).0

step_moved : (e : String) (t : Task) → left_by t (transition_to e t) ≡ moved e t
step_moved e t = ap (left_by t) (transition_to_lem e t)

run_cons :
    (e : String) (es : List String) (t : Task) (r : Task × Option TaskError)
    → transition_to e t ≡ some r
    → (run (e ∷ es) t ≡ run es r.0) × (accepted (e ∷ es) t ≡ accepted_by (some r) + accepted es r.0)
unfolding run accepted
run_cons e es t r q =
    (ap (λ o. run es (left_by t o)) q, ap (λ o. accepted_by o + accepted es (left_by t o)) q)

stuck_move :
    (e : String) (t : Task)
    → find_transition t.status e task_state_machine_definition ≡ none
    → transition_to e t ≡ some (t, some (missing e t))
stuck_move e t f = transition_to_lem e t ∙ ap (λ o. some (move t e o)) f

row_move :
    (e : String) (t : Task) {r : TaskTransition}
    → find_transition t.status e task_state_machine_definition ≡ some r
    → transition_to e t ≡ some (record t { status = r.to; version = inc t.version }, none)
row_move e t f = transition_to_lem e t ∙ ap (λ o. some (move t e o)) f

-- A terminal task stays as it is, whatever is asked of it, and nothing is accepted.
pub run_terminal :
    (es : List String) (t : Task)
    → is_terminal t.status ≡ true
    → (run es t ≡ t) × (accepted es t ≡ 0)
run_terminal [] t h = (unfold run in refl, unfold accepted in refl)
run_terminal (e ∷ es) t h =
    let (ran, count) = run_cons e es t _ (stuck_move e t (terminal_stuck t.status e h)) in
    let (same, none_more) = run_terminal es t h in (ran ∙ same, omega (arith, count, none_more))

-- The version counts the accepted events, in 64 bits.
version-run :
    (es : List String) (t : Task)
    → t.version < modulus
    → (run es t).version ≡ (t.version + accepted es t) % modulus
version-run [] t h = unfold run accepted in omega arith
version-run (e ∷ es) t h =
    elim (Option-cases (find_transition t.status e task_state_machine_definition)) [
      | inl f ↦
          let (ran, count) = run_cons e es t _ (stuck_move e t f) in
          omega (arith, ap (λ u. u.version) ran, count, version-run es t h)
      | inr (r, f) ↦
          let t' = record t { status = r.to; version = inc t.version } in
          let (ran, count) = run_cons e es t _ (row_move e t f) in
          omega (arith, ap (λ u. u.version) ran, count, version-run es t' (omega arith))
    ]

-- `mark` is entered by the event `name` alone.
abbrev gate : (TaskStatus → Bool) → String → TaskTransition → Bool
gate mark name r = mark r.from || not (mark r.to) || r.event == name

moved_through :
    (mark : TaskStatus → Bool) (name e : String) (t : Task)
    → all (gate mark name) task_state_machine_definition ≡ true
    → mark t.status ≡ false
    → (mark (moved e t).status ≡ false) ⊎ ((e == name) ≡ true)
moved_through mark name e t gates h =
    elim (Option-cases (find_transition t.status e task_state_machine_definition)) [
      | inl f ↦ inl (rw (f, moved) h)
      | inr (r, f) ↦
          let rows = all-All (gate mark name) task_state_machine_definition gates in
          let gated = find_transition-All (λ u. gate mark name u ≡ true) t.status e _ rows f in
          let (from, event) = find_transition_key t.status e task_state_machine_definition f in
          rw (f, moved) (ground (arith, gated))
    ]

run_through :
    (mark : TaskStatus → Bool) (name : String) (es : List String) (t : Task)
    → all (gate mark name) task_state_machine_definition ≡ true
    → mark t.status ≡ false
    → mark (run es t).status ≡ true
    → contains name es ≡ true
unfolding run contains
run_through mark name [] t gates h k = cc
run_through mark name (e ∷ es) t gates h k = elim (moved_through mark name e t gates h) [
  | inl out ↦
      let k' = subst (λ u. mark (run es u).status ≡ true) (step_moved e t) k in
      ground (arith, run_through mark name es (moved e t) gates out k')
  | inr here ↦ ground arith
]

abbrev was_dispatched : TaskStatus → Bool
was_dispatched s = not (s == pending || s == cancelled)

abbrev was_started : TaskStatus → Bool
was_started s = s == running || s == reviewing || s == confirming || s == completed

-- No task is completed without having been dispatched and started.
pub completed_needs :
    (es : List String) (t : Task)
    → t.status ≡ pending
    → (run es t).status ≡ completed
    → (contains "Dispatch" es ≡ true) × (contains "StartExecution" es ≡ true)
completed_needs es t p c = (
  unfold all in run_through was_dispatched "Dispatch" es t refl (rw p) (rw c),
  unfold all in run_through was_started "StartExecution" es t refl (rw p) (rw c),
)
