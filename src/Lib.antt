-- ===== src/Lib.antt =====
-- A verification library for FunderMatch, which takes a borrower's documents through a graph of
-- workers to a suggestion of funders, and leaves every decision to a human reviewer.
--
-- The parts and how they interact. An upload makes an intake job, whose activity events a client
-- reads while it runs. The supervisor graph runs the workers one after the other on a compact state
-- that is checkpointed after each, and reports each status to the lifecycle store, which keeps a
-- finished thread for a retention period. The eligibility worker runs the rules engine on the
-- funders' policies, and the assembler puts its results and the precedents that were found into a
-- bundle of evidence for the reviewer, which the guardrails check. The last worker hands the
-- application to the human-review workflow, whose commands move a record through its states under
-- role and version checks and write an audit trail; a reviewer's send-back rewinds the graph. A
-- worker keeps what it has made in the encrypted workspace and moves the workflow on as it
-- finishes. A lending decision is written back as a precedent, which the retriever may find, behind
-- the rules, for later applications.
--
-- Files and sources (paths are from the repository's root):
--   Base, with its children       tests, lists, dictionaries and calls that may raise
--   Number, Json, Text            Python's integers and decimals; JSON payloads; the bounds of texts
--   Workflow/Schema               src/fundermatch/workflow/schema.py, errors.py
--   Workflow/Repository           src/fundermatch/workflow/repository.py (InMemoryWorkflowRepository)
--   Workflow/Transitions          src/fundermatch/workflow/service.py: what each command makes of a record
--   Workflow/Service              service.py: the commands of WorkflowService
--   Workflow/Trail, Moves, Requests, Commands, Memory, Finality, Decisions, Soundness
--                                 the properties of the repository and the service
--   Orchestration/Schema          src/fundermatch/orchestration/schema.py (ApplicationMemoryState)
--   Orchestration/Fields          schema.py: the bounds of its fields and validate_compact_state
--   Orchestration/Lifecycle       src/fundermatch/orchestration/lifecycle.py (InMemoryLifecycleStore)
--   Orchestration/Context         WorkerContext of src/fundermatch/orchestration/graph.py, and
--                                 WorkerExecutionPolicy of src/fundermatch/security/policy.py
--   Orchestration/Graph           graph.py: _run_worker, _success_update, _route and the loop
--   Orchestration/Supervisor      graph.py: start, resume, state, mark_terminal, rewind and the rest
--   Orchestration/Retention, Order, Progress, Loop, Budget, SendBack, Expiry
--                                 the properties of the lifecycle store and the graph
--   Intake/Jobs                   src/fundermatch/intake_jobs.py (InMemoryIntakeJobStore)
--   Intake/Sequence, Restart      the properties of the job store
--   Rules/Schema, Rules/Engine    src/fundermatch/rules/schema.py, engine.py
--   Rules/Evidence                the properties of BorrowerApplication.validate_evidence
--   Suggest/Schema                src/fundermatch/suggest/schema.py, matching/schema.py
--   Suggest/Assembler             src/fundermatch/suggest/assembler.py (SuggestionAssembler)
--   Suggest/Partition             the properties of the bundle
--   Matching/Retriever            src/fundermatch/matching/retriever.py (RuleGatedPrecedentRetriever)
--   Matching/Ranking, Safety      the order of the matches, and what a retrieval returns
--   Precedent/Case                src/fundermatch/precedent/schema.py: the validators of a decided case
--   Precedent/Store               src/fundermatch/precedent/store.py (QdrantPrecedentStore)
--   Precedent/Writeback, Outbox, Service
--                                 src/fundermatch/precedent/writeback.py: the case that is built, the
--                                 outbox, and `write`
--   Precedent/Justified, Steps, Repeat, Completion
--                                 the properties of the write-back
--   Workspace/Files, Operations, Staging, Rewrapping
--                                 src/fundermatch/orchestration/workspace.py (ApplicationWorkspace)
--   Workspace/Specification       the same calls on plain contents, without keys, folders and nonces
--   Workspace/Naming, Contents, Rotation, Storing, Removing, Refinement, Roundtrip
--                                 the properties of the workspace
--   Guardrails/Worker, Run        src/fundermatch/orchestration/guardrails.py (GuardrailWorker)
--   Guardrails/Specification      what the guardrails promise of a state that they let through
--   Guardrails/Receipts, Safety, Release, Acceptance, Conditions, Released
--                                 that they let exactly such states through
--   Agents/Advance                src/fundermatch/orchestration/workers.py: _ensure_workflow, _advance
--   Agents/Replay                 what a repeated advance does
--   Samples                       test data of several parts
-- Each part has a module Tests, where its properties are applied to a concrete run.
--
-- State and operations. A class with state is a record, and a method is a function of it that
-- returns its result, or the exception, with the state it leaves. Each method of a store runs under
-- the store's lock, so a sequence of calls is a list. A call of the workflow's service is one such
-- step, since the repository runs its transition under the lock.
--
-- Bounds and fuel. The loop of the graph runs on the number of steps that one invocation may take.
-- One step more than the graph has workers is enough, since each step moves one worker from pending
-- to done or stops the loop. Python's integers are unbounded, and so are the numbers here; a decimal
-- is a coefficient and a number of places, compared by its amount.
--
-- Parameters. What a worker answers, how it signs a receipt, the length of a state's JSON, the
-- identifiers made by uuid4 and uuid5, and the readings of the clock are arguments: nothing is
-- assumed of them. So are the vector store and its client, the embeddings, the operations on floats,
-- the reading and the printing of JSON, digests and the redaction of texts; of the comparison of
-- cases it is assumed, where it says so, that equal cases have one id. Of the cipher of the workspace
-- it is assumed that it decrypts what it encrypts, and of the JSON of an envelope that it reads back;
-- what `pathlib` says of a name or a path is a parameter, and that a name is found again from its path,
-- on which no directory is called like a file of an artifact, is assumed of the names that a property
-- speaks of.
--
-- Not modelled: the PostgreSQL stores, the HTTP interface, spans and activity messages, the document
-- service, embeddings, the language model's narrative, and the wording of texts shown to a reviewer.
-- A path of the workspace is known by its application and its part below `agent` or `documents`:
-- symbolic links, and the failure of a save where an artifact would lie below the file of another
-- one, are left out. Fields that are dates or UUIDs, and the types of JSON values, are taken to be
-- valid. A write-back runs alone: what another call does between its awaits, or an outage between its
-- two writes, is left out.
mod Base
mod Json
mod Number
mod Text
mod Samples
pub mod Workflow
pub mod Orchestration
pub mod Intake
pub mod Rules
pub mod Suggest
pub mod Agents
pub mod Precedent
pub mod Matching
pub mod Workspace
pub mod Guardrails
