-- ===== src/Lib.antt =====
-- AgentHub: the control plane of a multi-agent chat platform, modelled and verified.
--
-- A gateway takes a user's message and asks the orchestrator for a run. The orchestrator plans tasks
-- for agents, checks the plan, and dispatches each task to its agent over A2A; an agent's server
-- tracks the task. A run has a budget, and its events go through an event bus to their consumers.
-- The parts that are modelled, each in a module of its own:
--
-- - Harness.Budget (pkg/runtime/harness/budget.go): the limits and the usage of a run. `Budget` holds
--   both; each method is a function to the new budget and perhaps an error. Go's `int` is a signed
--   integer whose sums wrap at 64 bits.
-- - Dispatcher (services/orchestrator/dispatcher): Retry and Breaker are resilience.go, the others
--   a2a_dispatcher.go. `dispatch` is A2ADispatcher.Dispatch: it checks the input and the breaker and
--   runs `dispatch_loop` over the attempts, each of which is `dispatch_once`. Stream is the callback
--   that DispatchStream gives to the client. What the client, the clock, the random source and the
--   decoder of JSON answer are parameters. The loop runs on the number of attempts that are left.
-- - EventBus (pkg/runtime/eventbus): Envelope has the data of eventbus.go, Memory is memory.go and the
--   queues of dispatch.go. A schedule of actions takes the place of the goroutines: publishing, the
--   start of Consume, the pump taking an envelope and offering it to its run's queue, a run's worker
--   handling one envelope, the stop of the dispatcher, the end of Consume, Close. What is in the
--   pump's hand or in a queue at a stop is dropped, as in the source. The attempts of a delivery
--   are counted down from the maximum, which the options bound by 32.
-- - TaskStore (pkg/adk/a2a/task_store.go) and RunTasks
--   (services/orchestrator/registry/run_task_registry.go): stores behind a lock, as sequences of calls
--   in the order in which they take it. A cancel function is a number, and a call of it is noted.
-- - Registry (services/orchestrator/registry): Static is static_registry.go and health_checker.go, Store the
--   interface of store.go with its laws, Store.Json the store of store_json.go that fills them, Agents
--   and Dynamic are dynamic_registry.go over any store, Resolver is dispatch_resolver.go with the
--   adapter of services/orchestrator/httpapi/server.go. The network, the clock and the probes are
--   arguments; a failed call leaves the registry as it was.
-- - Validator (services/orchestrator/validator): `validate` is PlanValidator.Validate, which gives the list of its
--   errors, Content the checks on the text of a task, on its bytes. The loop over the URLs runs on
--   one more than the length of the text; Validator.Scan shows that more would change nothing.
--   Paths is path_validator.go. Rules and Paths.Boundary say what a plan must keep, and Runs
--   joins the validator with the resolver and the executor.
-- - Dag (services/orchestrator/validator/validator.go): checkDAGCycle, from the index of the tasks to
--   Kahn's loop, which runs on as many rounds as there are tasks; the queue is then empty.
-- - Executor (services/orchestrator/executor/dag_executor.go): topologicalSort on the graph of Dag, and
--   in Run what ExecuteStream does with each task of a wave, with the agents' answers as a parameter.
-- - Pruning (pkg/runtime/pruning/pruner.go): the window pruners, the pairing of tool calls with their
--   results and the truncation of results, on the contents of a request.
-- - Diff (services/agents/diff-agent/diff.go): the table of the longest common subsequence row by
--   row, the walk through it, the numbers of the lines, the hunks and their headers. The walk is by
--   recursion on the lines that are left. Diff.Patch says what it means to apply the hunks.
-- - Confirm (services/orchestrator/httpapi): the confirmation of a plan by the user, from pending_plan.go,
--   confirm_validation.go and the handler of handler_hitl.go that runs behind one lock. Confirm.Sent
--   follows what a sequence of requests sends to the run.
-- - Gateway (services/gateway): Store is the MemoryStore of store/store.go, with its calls as a sequence in
--   Store.Once. Projection is projection/worker.go, which reads the public events of a run and stores
--   a message for each turn; Pages, Ends and Recovery follow its loop over the pages, the ends of the
--   turns and the messages. One more unit of fuel than there are events is enough, as every page but
--   the last is full. Live is httpapi/turn_projection.go, the turns of a run that streams.
-- - Prelude: Boolean tests and lists over the native numbers, Go's `int`, maps as association lists,
--   the functions on texts that the parts use, with the case tables of Unicode as an argument.
--
-- Not modelled: HTTP, gRPC and SSE transport, SQL and Redis, model providers, generated code, the
-- frontend, and the parts of the orchestrator and the gateway that wire those together. Nil receivers
-- are left out where the methods only answer nil. Text is a list of Unicode characters, as all
-- text here is compared, split and joined at characters.
pub mod Prelude
pub mod Gateway
pub mod Harness
pub mod Dispatcher
pub mod EventBus
pub mod Diff
pub mod TaskStore
pub mod Validator
pub mod Registry
pub mod RunTasks
pub mod Confirm
pub mod Dag
pub mod Executor
pub mod Pruning
