-- ===== src/Lib.antt =====
-- A model of the workflow of a team of agents, as the repository's orchestration engine runs it.
--
-- The program keeps a request for each piece of work. A request's workflow state names the phase,
-- the step and the owner of the step. The owner's report is normalized, checked against the
-- contract of its role, read as a transition, and turned into a decision: a route to the next role
-- with the new state, a terminal block, or the completion. Where no workflow state decides, a role
-- is selected by its score under the utilization policy.
--
-- Beside the requests, the program keeps goals of the operator, each sourcing sprints until it is
-- completed, cancelled or failed.
--
-- The parts, and the code that they are about:
--   Prelude     Booleans, options, lists, texts, orders and sorting, as the other parts use them.
--   Python      the values of JSON records, `str`, `int`, truth and the order of whole numbers.
--   Workflow    workflows/orchestration/engine.py: the state and the transition. Its children:
--               Names (the texts of the enumerations), Normalize (normalize_workflow_state),
--               Requested (workflow_transition), Legacy (infer_legacy_internal_workflow_state),
--               Events (append_request_event), Inferred (of inferred states), Request (the
--               accessors in workflows/orchestration/team_service.py,
--               workflows/state/request_store.py and workflows/sprints/lifecycle.py),
--               Routes (the workflow_*_state updates), Decisions (the workflow_*_decision
--               functions), Derive (derive_workflow_routing_decision), Derive/Diagram (the edges
--               between steps, as an independent description), WellFormed, RoundTrip, and
--               Runs (sequences of reports).
--   Contract    engine.py: the contract of a role's report. Artifacts (artifact hints), Documents
--               (the planner's documents), Quality (the checks of QA's reports), Enforce
--               (sanitize_implementation_result, enforce_workflow_role_report_contract,
--               coerce_nonterminal_workflow_role_result), Required, Routing, Verdicts, Sanitize.
--   Governed    engine.py and workflows/roles/__init__.py: Terms (match_reference_terms and its
--               uses), Scores, Phases (classify_request_state, derive_routing_phase), Candidates,
--               Select (build_governed_routing_selection), and their theorems.
--   Files       shared/persistence.py: read_json and write_json.
--   Goals       workflows/state/goal_store.py: the files of the goals, the pointer to the current
--               one and the log of events. Lifecycle (create_goal to fail_goal), Progress (milestones
--               and outcomes of sprints), Sourcing (runtime/internal/goal_sourcing.py and the
--               handling of its report), Commands (the methods of
--               workflows/orchestration/team_service.py, and runs of them); Sound, Kept, Noted,
--               Closed, Loaded, Recorded and Created have what the operations keep.
--   Backlog     workflows/state/backlog_store.py: the change of an item by a todo (Placed, Applied)
--               and the item that a sprint shows (Built); Merge has the candidates of a planner's
--               payload, with build_backlog_item of shared/formatting.py, Into their merge into a
--               stored item, Merged and Titled what these do; Order has the orders of
--               workflows/orchestration/scheduler.py and shared/formatting.py, Ahead says which of
--               two items comes first, and Selected what is selected.
--   RoleResult  runtime/role_result_contract.py: the issues of a role's payload. Accepted (what a
--               payload without issues has), Dropped (unresolved items as a text).
--   Sprint      workflows/sprints/lifecycle.py: the order of a sprint's todos and what they wait on.
--               Todos (build_todo_item), Queue (sync_manual_sprint_queue), Execute
--               (execute_sprint_todo), Tasks and Commit (enforce_task_commit_for_completed_todo),
--               Loop (continue_manual_daily_sprint and the loop of continue_sprint); InOrder,
--               Settled, Committed, Stops, Lone, Repeats, Skipped and Reversed have what they do. Recover
--               (merge_recovered_sprint_todo) and Recover/Known (recover_sprint_todos_from_recovered)
--               have the todos that are recovered from requests; Kept, Levels, Decided,
--               Merged and Identities have what that keeps. How a time is read and compared is given.
--   Tests       concrete states, reports, runs and policies.
--
-- How the code is read:
--   A text that the code lowers, strips and compares with fixed names is an enumeration; a name
--   that is none of them is `none`, `no_outcome` or `unset`, as the code treats it. An empty
--   workflow dictionary is `none`. A value of JSON is a Value; `int` and its failures are written
--   out. `lower` changes the letters A to Z only, and `repr` escapes quotes and backslashes.
--   Whether a role's payload is invalid, and which documents are missing, are given with the
--   report, since the callers compute them. A reopen category is always one of the known ones.
--   The events of a request are dictionaries. The numbers of a policy are whole numbers of either
--   sign; a role that the policy does not describe stops the selection, as KeyError does. Counters
--   of the state are at least 0 once they are normalized, and are native numbers.
--
--   The files of the goals are an association list, and each reading of the clock is given. A
--   command runs without another one in between, but for the stale goal of Goals/Commands/Stale; a
--   file is taken with its timestamps in the runtime's form; the sprint that a sourced milestone
--   starts is given by its identifier. The digest of a fingerprint and new identifiers are given,
--   and the origin of a backlog item is a dictionary.
--
--   A loop over todos is given what each of its rounds finds outside: the review of the planner, the
--   backlog, the saves, and the result of an execution, of which nothing is assumed but what a
--   theorem says. The loop of continue_sprint is that of a sprint without pending requirement
--   candidates whose saves recover nothing and ask for no wrap-up; _is_manual_sprint_cutoff_reached,
--   which is always false, is left out of the other loop. The saves within execute_sprint_todo, and
--   its last call of _synchronize_sprint_todo_backlog_state, are left out: they keep the statuses
--   that it set. Of the letters that a pattern sees as parts of a word,
--   those of ASCII and the Hangul syllables are known.
--
-- Fuel: the decimal digits of n take at most n + 1 steps. A run of complete reports takes at most
-- `reports_left` steps, 6 from any step of planning; the rounds of a manual sprint are a list, and
-- more than its open todos are enough where they are calm; the recursion of the engine itself has none.
--
-- Not modelled: the delivery of messages, files and git, the language model that writes the
-- reports, the rendering of reports, the store of sprints, the files and
-- the review of backlog items, and
-- workflow_should_close_in_planning, whose answer is the `close` of a report.

pub mod Files
pub mod Goals
pub mod Prelude
pub mod Python
pub mod Workflow
pub mod Contract
pub mod Governed
pub mod Backlog
pub mod RoleResult
pub mod Sprint
pub mod Tests
