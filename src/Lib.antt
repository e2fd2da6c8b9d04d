-- ===== src/Lib.antt =====
-- Verification library of the agentic test generation system.
--
-- The program takes a Git repository, finds the symbols that a change touches, decides which tests
-- to run and which to generate, lets a language model write them, validates and runs them, and
-- triages the failures. A workflow engine runs these steps as the nodes of a graph, and writes the
-- run, its events, its checkpoints and its artifacts to an SQLite database, from which a run that
-- broke off is resumed.
--
-- The parts, and the files that model them (paths of the code from src/agentic_test/):
--   Core/Models      core/models.py: the entities and enumerations, field by field
--   Core/State       core/state.py: `WorkflowState`, `_migrate_legacy_evidence`; Core/Migration is
--                    about the latter
--   Core/Effects     exceptions (`Exn`), results, and methods that change an object (`Action`);
--                    Core/Ensures, what such a method gives
--   Core/Outside     the clock, uuid4, and the JSON text of a state, as parameters
--   Core/Paths       what is used of pathlib, on POSIX texts
--   Storage          storage/database.py, repository.py, events.py: a `Database` is a record of the
--                    six tables, lists of rows in insertion order; each method of
--                    `SQLiteRepository` and `SQLiteEventStore` is a function of the same name.
--                    Integrity, History, Log, AppendOnly, Retrieval, Resumption and
--                    Frames hold the theorems
--   Analysis         analysis/git_service.py: `GitService` (Git) and its diffs (Diff), a `GitSession`
--                    being whether the repository is open, with the world outside;
--                    analysis/ast_analyzer.py, `resolve_affected_symbols` (Affected);
--                    analysis/service.py (Snapshots). Cleanness and Deletions hold the theorems
--   Planning         planning/rules.py (`evaluate_precedence_rules`, `symbol_sort_key` as a
--                    comparison) and planning/planner.py (`ExecutionPlanner.plan`); Precedence
--   Core/Syntax      the classes of `ast` that the code looks at; Core/Json, JSON values
--   Validation       validation/pipeline.py (`validate_candidate`) in Pipeline, and the three gates:
--                    syntax.py (Syntax), security.py with its visitor (Security), collection.py
--                    (Collection). Allowed says what a tree may hold without the visitor, Collected
--                    what a collection is; Gates, Forbidden, Collected and Screening hold the
--                    theorems
--   Generation       generation/context.py (Context) and generation/service.py (Synthesis);
--                    Budget, Repairs, Packaging, Calls and Success hold the theorems
--   Diagnosis        diagnosis/rules.py, llm_classifier.py (Cognitive), service.py; Triage
--   Execution        execution/service.py: a `Session` is the service's registry of coverage
--                    settings and last results, the world outside, and the local variables of
--                    `execute` that its handlers read. Execute and Service follow `execute` from
--                    its checks (`checked_job`) over the preparation (`prepare`), the container
--                    (`observe`) and the second look at the sources (`checked_after`) to the
--                    handlers (`settle`, `clean_up`), and Batches is `execute_candidates` and
--                    `execute_candidate`.
--                    Runner and Outcomes are execution/runner.py, Coverage execution/coverage.py and
--                    Staging execution/staging.py: a `StagingArea` is the two dictionaries of
--                    `CandidateStagingArea` with the world outside. Integrity, Containers, Bounds,
--                    Candidates, Commands and Confinement hold the theorems
--   Workflow         workflow/edges.py, nodes.py, engine.py and recovery.py. A `Machine` is the
--                    database, the engine's `_current_run`, the world outside, and the local
--                    variables of `run` and `resume`, which the exception handler reads.
--                    Engine/Dispatch is `_dispatch_node` and `_resolve_next_node`, Engine/Artifacts
--                    `_persist_node_artifacts`, Engine/Loop the loop, Engine/Run `run`; the other
--                    files of Engine, Nodes/SameRun, Nodes/Screened and Recovery/Agreement hold
--                    the theorems; in Nodes/Screened the modelled pipeline and execution service
--                    stand where the nodes have services
--   Prelude          lists, texts, integers and sorting as Python has them
--   Tests            concrete data, and the theorems applied to it
--
-- The engine calls the services (analysis, planning, generation, validation, execution, diagnosis)
-- through the record `Services`, a parameter of the engine; a service may raise at any call. The
-- execution service uses the sandbox, the clock, the files and the staging of candidates through the
-- record `ExecutionTools` in the same way, and the runner and the coverage reader as they are
-- modelled here; the collection gate uses the modelled staging area and runner, and the rest through
-- `CollectionTools`.
--
-- Loops. The loop of `run` and of `resume` has fuel 7, as many rounds as the graph has nodes, whose
-- steps go from 1 to 7. The repair loop of a symbol has fuel 3, for one attempt and two repairs. An
-- answer `none` of `run`, `resume` or `generate` would mean that the fuel ran out.
--
-- Parameters stand for what is not in the repository: the model service, `re`, `str.lower`,
-- `ast.parse`, SHA-256, JSON, the clock, uuid4, Git, files and containers. SQLite's refusals (a key
-- that is taken, a foreign key that is not met) are written out as `integrity_error`.
--
-- A `Path` is its POSIX text, a `datetime` the count of microseconds of its instant, a `float` the
-- count of its millionths. Every `datetime` is aware and in UTC, as the clock gives it: there the
-- order of the texts, by which SQLite sorts, is that of the instants. Only the time of an event,
-- which may be given to `emit_event` in another offset, is a `Moment`, the parts of its text. A
-- step index is a natural number, so the guard of `save_checkpoint` against negative ones is not
-- there. The identifier and the time that a method draws where its caller gives none are arguments
-- of the model, drawn before the method's own checks.
--
-- A node of a syntax tree of a class that the visitor has no method for is `other_node` with its
-- children. The numbers of a JSON text are not negative. A percentage is rounded as the fraction that
-- it is, a half to the even neighbour, where the source rounds a float. Symbolic links stay as they
-- are while a staging area is used. The message of a TypeError names no types.
--
-- Of an exception of GitPython that a method catches the model has the message (`failed`), and any
-- other passes through (`broken`). Git's paths are in their normal form, and what an analyzer makes of
-- a file is a function of its path and its text.
--
-- Not modelled: the sandboxes, the parsing of symbols and the discovery of tests, which walk
-- Python's syntax trees, the clients of the model, `get_connection`, `resume_run`, and the command
-- line. They are input and output, and wiring. A coverage that is not a number occurs only as an
-- argument of `calculate_deltas`, and a staging area that cannot be opened leaves no directory
-- behind.
pub mod Prelude
pub mod Core
pub mod Storage
pub mod Planning
pub mod Validation
pub mod Generation
pub mod Diagnosis
pub mod Tests
pub mod Analysis
pub mod Workflow
pub mod Execution
