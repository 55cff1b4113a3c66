-- ===== src/Lib.antt =====
-- The cloud agent platform: the core of its domain and of its runtime.
--
-- A task is work that a client gave; it is carried out by subtasks, each run by an agent in a
-- sandbox. A task is taken apart into subtasks, with dependencies and an order. The status of both
-- moves through a declarative state machine. Workers, one for each sandbox, are kept in a pool.
-- Calls of a language model are retried, and go through a circuit breaker. A task that costs much
-- waits for an approval, which the guardian keeps. Events of the domain are written to a table, the
-- outbox, in the transaction that changes the entity, and a poller forwards them.
--
--   Fsm         internal/domain/statemachine.go: `StateMachine[S, E]`, its table of rules, `Trigger`,
--               the guard and action factories.
--   Lifecycle   internal/domain/task-types.go and entity.go, with the two diagrams at the end of
--               statemachine.go. A method of `Task` or `Subtask` builds a machine, puts it in the
--               status of the entity, triggers it, and copies status and version back.
--   Breaker     plugins/llmrouter/circuitbreaker.go.
--   Decompose   internal/orchestrator/decompose.go: the goal is cut into parts, each part becomes a
--               subtask; dependencies by type, priorities, order of execution, saving.
--   Router      plugins/llmrouter/router.go, with the types of types.go and config.go: the choice of
--               a model, the retried calls with `Retry` and `Breaker`, fallback and upgrade.
--   Events      internal/domain/events.go: the checks of the type and of the idempotency key, and
--               the constructors. `Events.Approvals` puts them under `Guardian`.
--   Errors      internal/domain/errors.go: `AppError`, chains of errors, the codes and the
--               constructors. The other parts keep an error as a value of a type of their own.
--   Conversation
--               internal/domain/context: context.go and compress.go. The context of a task: its
--               constraints, messages and file states, the count of tokens, and the compression.
--   Matcher     internal/orchestrator/matcher/matcher.go: the scores of the agents for a task.
--   Authz       internal/authz/authz.go: the permissions of the roles with their cache, API keys.
--   Sorting     the sort and the removals that Conversation and Matcher share, with what they take.
--   Retry       plugins/llmrouter/retry.go: the loop of calls.
--   Pool        internal/worker/pool: config.go, worker.go, pool.go.
--   Outbox      internal/infra/outbox: outbox.go, poller.go, writer.go.
--   Guardian    internal/guardian: types.go, guardian.go and the sweep of timeout.go.
--   Base        what the others share: tests, lists by native numbers, equality as an interface,
--               int64 as a bit pattern, float64 as a parameter, texts and maps.
--
-- A Go type is a record or a data type with the source's fields and constants, a function or method
-- is a definition under the source's name in lower case. A method with a pointer receiver takes the
-- record and returns it with its results; an error is a value of a type with one constructor for
-- each error of the source. `none` of an outer `Option` is a panic. Numbers are native; an int64 is
-- its bit pattern, below 2 ^ 64, with the wrap-around written out. `time.Now()`, identifiers and the
-- answers of the sandbox, of the database, of the message broker and of the model providers are
-- arguments. A map that the code goes through is a list, and since theorems hold of every list they
-- hold of every order in which Go may go through the map; a map of counters is a function.
-- Loops are structural recursions; a loop that counts up to an int is a recursion on that number.
-- Fuel is used in three places, and enough is given: the queue of `computeExecutionOrder` and the
-- walk of `assignPriorities` take each subtask once, and a request to the router is upgraded at most
-- once.
--
-- Methods hold their mutex throughout and are one step each. The exceptions are in the pool:
-- `Acquire`, whose fast path `Pool.Race` splits into the steps of two callers; `scale`, which takes
-- the counts that it read before it locked; and `SubmitTask`, which holds no lock across its steps:
-- `submit_task` has no other step in between, and the operations of `Pool.Bounds` have the steps of
-- submissions apart, in any order. A method of the guardian is one step, and what it sends on
-- a channel is a result; the sweep over expired requests lists them and then handles them one by one,
-- with no other call in between.
--
-- Not modelled: storage, gateway, services, model clients, observability and configuration, which
-- are input, output and calls of libraries; the computed delay between retries; the statistics and
-- the default settings of the router; the serialization of events; the tokens of internal/authz,
-- which a JWT library makes; the scheduler and the graphs of the orchestrator; the package
-- internal/domain/task, which is deprecated and unused.
pub mod Base
pub mod Decompose
pub mod Fsm
pub mod Lifecycle
pub mod Breaker
pub mod Pool
pub mod Outbox
pub mod Guardian
pub mod Retry
pub mod Router
pub mod Events
pub mod Errors
pub mod Conversation
pub mod Sorting
pub mod Matcher
pub mod Authz
