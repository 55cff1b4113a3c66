-- ===== src/Lifecycle/Names.antt =====
-- The strings of internal/domain/task-types.go name the values one to one.
use cloud_agent_platform.Base.{
  ◌≡◌, refl, ◌∙◌, ap, ◌↔◌, String, Option, some, arith, ◌==◌, string_comparable, if◌then◌else◌,
}
use cloud_agent_platform.Lifecycle.{
  TaskStatus, SubtaskType, AgentRole, status_to_string, parse_status, subtask_type_to_string,
  parse_subtask_type, agent_role_to_string, parse_agent_role, pending, dispatched, running,
  reviewing, confirming, completed, failed, cancelled, analysis, coding, review, testing, research,
  observer, strategist, executor, guardian, tester, researcher,
}

module _ {A : Type 0} (name : A → String) where
  -- One test of a chain of tests.
  read_one :
      (s : String) (x y : A) (rest : Option A)
      → (rest ≡ some x → s ≡ name x)
      → (if s == name y then some y else rest) ≡ some x
      → s ≡ name x
  read_one s x y rest k h = ground (arith, string_comparable.same_iff s (name y))

parse-status_to_string : (x : TaskStatus) → parse_status (status_to_string x) ≡ some x
unfolding parse_status status_to_string
parse-status_to_string pending = refl
parse-status_to_string _ = refl

named_status : (s : String) (x : TaskStatus) → parse_status s ≡ some x → s ≡ status_to_string x
unfolding parse_status status_to_string
named_status s x =
    let one = read_one status_to_string s x in
    one pending _ (
      one dispatched _ (
        one running _ (
          one reviewing _
            (one confirming _ (one completed _ (one failed _ (one cancelled _ (λ h. cc))))))))

-- A string is read as a status exactly if it is the status's name: `IsValid` accepts the eight names
-- and nothing else, and different statuses have different names.
parse_status-iff_name :
    (s : String) (x : TaskStatus) → (parse_status s ≡ some x) ↔ (s ≡ status_to_string x)
parse_status-iff_name s x = (named_status s x, λ e. ap parse_status e ∙ parse-status_to_string x)

parse-agent_role_to_string : (x : AgentRole) → parse_agent_role (agent_role_to_string x) ≡ some x
unfolding parse_agent_role agent_role_to_string
parse-agent_role_to_string observer = refl
parse-agent_role_to_string _ = refl

named_agent_role :
    (s : String) (x : AgentRole) → parse_agent_role s ≡ some x → s ≡ agent_role_to_string x
unfolding parse_agent_role agent_role_to_string
named_agent_role s x =
    let one = read_one agent_role_to_string s x in
    one observer _ (
      one strategist _
        (one executor _ (one guardian _ (one tester _ (one researcher _ (λ h. cc))))))

parse-subtask_type_to_string :
    (x : SubtaskType) → parse_subtask_type (subtask_type_to_string x) ≡ some x
unfolding parse_subtask_type subtask_type_to_string
parse-subtask_type_to_string analysis = refl
parse-subtask_type_to_string _ = refl

named_subtask_type :
    (s : String) (x : SubtaskType) → parse_subtask_type s ≡ some x → s ≡ subtask_type_to_string x
unfolding parse_subtask_type subtask_type_to_string
named_subtask_type s x =
    let one = read_one subtask_type_to_string s x in
    one analysis _ (one coding _ (one review _ (one testing _ (one research _ (λ h. cc)))))

-- The same of the names of subtask types and of agent roles.
parse_kind-iff_name :
    (s : String) (x : SubtaskType) (r : AgentRole)
    → ((parse_subtask_type s ≡ some x) ↔ (s ≡ subtask_type_to_string x))
      × ((parse_agent_role s ≡ some r) ↔ (s ≡ agent_role_to_string r))
parse_kind-iff_name s x r = (
  (named_subtask_type s x, λ e. ap parse_subtask_type e ∙ parse-subtask_type_to_string x),
  (named_agent_role s r, λ e. ap parse_agent_role e ∙ parse-agent_role_to_string r),
)
