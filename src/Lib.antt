-- ===== src/Lib.antt =====
-- A model of governed-analytics-agent, an analytics agent whose model calls, tools and results are
-- governed. Paths are from the repository's root, with src/governed_analytics/ left out.
--
-- The parts and how they interact. A run is created in the run store and in the event store, is
-- executed by a bounded graph of nodes, and ends with a final answer, whose status and reason go into
-- the run's record and its terminal event. Every model and tool call goes through the budget ledger.
-- Clients read a run's events from a stream, from a cursor on.
--
-- The files.
--   Common and its children: Boolean tests, dicts, the monad of methods that may raise (state passing,
--     the state comes back after a raise), the monad of validation, decimal texts.
--   Contracts: agent/contracts.py. The enumerations, the records, and for each model validator
--     (`_validate_...`) a Boolean function that tells whether it accepts. Contracts.Every lifts a check
--     on a list to every member of an enumeration; Contracts.Reflexive is about `==`.
--   Pricing: `estimate_cost_cny` and `provider_model_has_pricing` of pricing.py.
--   Budget: `BudgetLedger` of runtime/budgets.py, one function per method; Invariant, Atomic, Calls and
--     Trace prove its properties.
--   Events: runtime/events.py. Identifiers (the regular expressions, over code points), Vocabulary (the
--     tables), Values and Freeze (`_freeze_event_data`), Record (`RunEvent`), Store
--     (`InMemoryEventStore`), Cursor (`parse_last_event_id`), Stream (`_stream_buffer`).
--   Agreement: `terminal_event_data` of runtime/runs.py against the freezing of events.
--   Agent: State (agent/state.py), Assessment and Sorting (agent/validation.py), Summary and
--     Synthesis (agent/nodes/synthesis.py), Failures (agent/nodes/behavior.py), Routing (agent/graph.py).
--   Invoker: `StructuredModelInvoker` of agent/modeling.py. Accounting (the closing of one call and its
--     trace), Types (the data of agent/ports.py and the decisions), and in the module itself `invoke`
--     and `_handle_first_model_error`; Closing, Calls, Spending, Replies and Paths follow every path,
--     Promises, Single and Unrepaired state what a caller may rely on.
--   Runs: Record (`RunRecord`) and the methods of `InMemoryRunStore` of runtime/runs.py; Changes,
--     Invariant and Trace prove its properties.
--   Runner: `AnalysisRunner` of runtime/runs.py over the two stores. Ports (a call of a store and its
--     faults), Reconcile and Terminal (`_ensure_running`, `_ensure_run_terminal`,
--     `_ensure_event_terminal`), Execution (`_execute` up to its pruning, `get`), Coordination, Rollback
--     and Submission (`submit`, what undoes it, and the pruning). Records, Replies, Endings, Told and
--     Untouched prove what holds after each reconciliation, Outcome after an execution, and Steps,
--     Started and Progress that an execution comes to its end. Careful, Withdrawal, Pruned, Submitted,
--     Cleaned and Promise are about the failures of a submission, Gone about deletions, Launched and
--     Ready about its success.
--   A module Tests (Runner.Trials for submissions) holds runs on small inputs and an instance of each
--     theorem.
--
-- Conventions. A method that holds a lock is one step. A clock's reading, a fresh id and an owner token
-- are arguments. An amount of money is a number of 10^-12 CNY, which holds every cost of a call
-- exactly. Texts are native strings, read as code points where a regular expression reads them. The
-- text of a decimal, `str(Decimal)`, is a parameter of the answer's summary, and the size of a
-- prompt, the length of its JSON text in bytes, is one of the invoker. What the provider of a model
-- replies to a call is an argument. Each call of a store by the runner has a turn, which tells the
-- clock and whether the call works, raises before or after its effect, or is cancelled with its task.
-- Whether the task of a run is created is an argument too.
--
-- Bounds and fuel. The fuel of `decimal` is n + 1, which writes the digits of n, as the reading back of
-- the text confirms; the runner's loops have the source's own bound of three attempts. The sequence
-- limit of events is the source's, 2^63 - 1.
--
-- Not modelled: what other tasks do to the stores between two calls of the runner, its wait and
-- shutdown, the pruning after an execution, the nodes around their model calls, the tools, the row
-- contracts of agent/validation.py, the SQL policy (a policy over another package's syntax tree), the
-- HTTP layer, model providers, evaluations, data generation, persistence and configuration, which are I/O, glue or
-- not part of the governed core.
pub mod Common
pub mod Contracts
pub mod Pricing
pub mod Budget
pub mod Events
pub mod Agreement
pub mod Agent
pub mod Runs
pub mod Invoker
pub mod Runner
