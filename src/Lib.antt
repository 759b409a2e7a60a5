-- ===== src/Lib.antt =====
-- Verification of the Local Agent Orchestrator: a Python program that validates a plan of tasks,
-- executes it task by task with language models under human approval, and can resume the run.
--
-- The parts of the program, and the files that model them (paths from the repository's root; all
-- are under src/local_agent_orchestrator):
-- models/plan.py, and the task ids that the services generate: Plan.
-- services/plan_validation.py, `validate_plan`: TestCreation is the regular expression
--   `_TEST_CREATION`, Validation the checks and the edges, Ordering the loop over the ready tasks.
--   Prerequisite, Edges, Tasks and Counters carry the lemmas, Sound, Errors and Verifiers the
--   results.
-- models/task.py, models/trajectory.py, services/run_state.py, services/trajectory.py: Run is the
--   durable state, Session a run in memory with the files of its directory and the rest of the
--   world, Manager the methods of `RunStateManager` that change a run, with `approve_waiting_task`
--   of services/resume.py.
-- services/plan_runner.py: Runner has the execution of one task and the marking of the tasks after
--   a failure, Loop the loop over the tasks and `finalize_plan_run`, Execution the whole of
--   `_run_execution_plan`.
-- services/resume.py: the loop of a resumed run is in Loop, `_resume_execution_plan` in Execution.
-- services/tracked_executor.py: Tracked. services/checkpointed_executor.py: Checkpointed, with Security,
--   Execute and, for the reported commit, Commit.
-- services/task_scope.py: Scope. services/verification_triage.py: Triage, and TaskExecutor/Baseline
--   for `establish_baseline`.
-- services/scope_review.py, models/scope.py: ScopeReview.
-- services/task_executor.py: TaskExecutor. Prompts has its texts, Updates what a turn of the loop
--   assigns, Attempt the turn, Fallback what follows the loop, Execute the whole; the other
--   children carry the lemmas and Whole the results. Work has the world and the events that the
--   retry loop and the scope review change, and Work/Meets their conditions.
-- services/edit_operations.py, models/edit.py: EditOperations reads a response, Validate validates it
--   and Apply applies it; Matching has the exact replacement, Accepts says which batches are valid.
-- services/git_workspace.py: GitWorkspace, where Guarded follows the flag of the clean baseline through
--   the methods, and Branches has the names of the branches.
-- Safety puts the runner, the manager and the executors together, Safety/Scoped the checkpointed
-- executor and the retry loop, and Safety/Approval the run that waits and its approval.
--
-- How they interact: the runner validates the plan, adds its tasks through the manager, and calls
-- for each task in the order either the checkpointed executor or the executors of test and review
-- tasks. Every one of these changes the one state object, which the manager saves. An action takes
-- a session and gives what the call returns or raises with the session after it, so what was written
-- before an exception stays written. A write to the run's directory may raise: `disk` of a session
-- says what each coming write raises. A save replaces state.json whole or leaves the file as it
-- was, and the state object keeps its change when the save raises; a write of an event that raises
-- leaves the saved state. An event that the callback of a tracked call cannot write ends that call
-- there, with the world of that moment. The write of a candidate's file may raise as
-- well, as `refuses` of the edit tools says. Models, reviewers, Git, the test command, the finalizer
-- and the metrics file are fields of `Services` and `Agents`: each may return or raise anything and
-- change the world `W`, and no result assumes more of them.
--
-- Texts are lists of code points. Task states are found by the first task with an id, as in
-- `get_task`, and a change of the task object is a change of that entry of the list.
--
-- Bounds and fuel: `drain` has a round for each task and one more, since a task enters the queue
-- when its last open prerequisite is ordered, and so once. The search for a code prerequisite has
-- the number of all listed dependencies and one more, since it pushes the dependencies of an id when
-- it first sees that id. The security rounds recurse on `security_fix_limit`. The retry loop has a
-- turn for each fresh attempt and for each scope repair: a turn either is a fresh attempt or
-- follows a review that used up a repair.
--
-- Not modelled: times, the execution lease, the reading of a missing or damaged run file, the
-- planner, the agents, the HTTP and command-line fronts, and analytics, which are input and output
-- around what is modelled. The coding models, `prepare_verification_environment`, Git and the two regular
-- expressions of the triage are the fields of `Workbench`, the JSON parser, the files and
-- `apply_unified_diff` those of `Decoder`, `Checkout` and `EditTools`; the executors above take the retry loop
-- as a field of `Agents`, which `with_retries` of Safety/Scoped fills. Git is a field of those records too:
-- GitWorkspace stands beside them.
pub mod Base
pub mod Ordering
pub mod Plan
pub mod Validation
pub mod Work
pub mod ScopeReview
pub mod TaskExecutor
pub mod EditOperations
pub mod GitWorkspace
pub mod Run
pub mod Session
pub mod Manager
pub mod Runner
pub mod Loop
pub mod Execution
pub mod Safety
pub mod TestCreation
pub mod Tracked
pub mod Checkpointed
pub mod Scope
pub mod Triage
