-- ===== src/Lib.antt =====
-- Verification library of the MemPalace task sidecar (sidecar/src/mempalace_tasks) and of the
-- derivations and decisions of the dreaming skill (skills/dreaming/scripts).
--
-- The sidecar keeps a graph of tasks for agents. A command is decided against a state, which gives
-- an event (decide in domain.py); an event is applied to a state by deciding it again
-- (apply_event). Managed tasks are claimed by workers under supervisors: a claim makes an attempt
-- under a new generation, with leases, deadlines and fenced resources, and an attempt that stops is
-- recovered behind a barrier. Cooperative tasks (native.py) are owned by a parent session instead,
-- which another session may resume. The log (protocol.py) is a stream of records: epochs,
-- proposed commands with the events decided for them, and settlements of commands whose outcome was
-- lost; folding it decides which commands are committed. The clock (runtime_clock.py) gives the
-- times of the decisions.
--
-- The files:
--   Prelude            Booleans, lists, equality tests, Python's dict, sorted, and text
--   Model              sidecar/src/mempalace_tasks/model.py: errors as values, validators; Ensures
--                      holds the rules for what a result's value satisfies
--   Domain             sidecar/src/mempalace_tasks/domain.py
--     Types, Records, Commands         enumerations, the state, the commands' fields
--     Checks, Inputs                   _configuration, _policy, _task, _goal, _check_task_input,
--                                      _new_task
--     Attempts, Revocation             _generation, _live, _evidence, _barrier, _release_resources,
--                                      _revoke, _checkpoint
--     Readiness                        task_eligibility, ready_tasks
--     Graph                            _edge, _acyclic, _add_edge, _touch_goals
--     Completion                       _complete, _close_goal
--     Claim, Reports, Recover, Edits   the operations of _execute on one task
--     Expand                           _expand, _bootstrap, task_id_for of codec.py
--     Execute, Decide                  _execute, decide, apply_event
--     Lifecycle                        the invariant of a task, and that the operations keep it
--     Validation                       validate_state, on managed tasks, edges and resources
--   Native             sidecar/src/mempalace_tasks/native.py
--     Attempts, Actions                live_attempt, interrupt, complete_task; the actions on a task
--     Sessions                         execute: the goals and the sessions that own them
--   Protocol           sidecar/src/mempalace_tasks/protocol.py
--     Records, Payloads                LogState and the payloads; _validate_payload, _decode_raw,
--                                      make_epoch, make_proposal, make_settlement
--     Fold                             fold_record and _fold_epoch
--     Chain, Commit, Proposals         the accepted records, and what a record does to the state
--     Outcomes, Permanence, Settling   the outcomes of commands, by epoch
--   Clock              sidecar/src/mempalace_tasks/runtime_clock.py
--   Dreaming           skills/dreaming/scripts/dream_lib.py and dream_ontology.py
--     Records, Predicates, Candidates  triples and rules, normalize_predicate, _mk_candidate
--     Closure                          deductive_closure
--     Overlap, Rounds                  common intervals, and how many rounds the closure takes
--     Ontology, Induction              suggested and induced rules of dream_ontology.py
--     Suggested, Induced, Merging,     what these rules promise, the union of rules, and the filter of
--     BaseTriples, Filtering           derived triples
--     Evidence, Supports, Chains,      the observed edges, the pairs and the chains that support an
--     Distinct                         induced rule, and lists without repetition
--     Decisions, Grounded              apply_merge_decisions, apply_pattern_decisions, and their calls
--     Emission, Proofs, Derivations,   what emit keeps, the premises of an edge, and what proves a
--     Passes, Derived                  candidate
--   Samples            concrete runs
--
-- State is passed explicitly, and every operation returns a Result: an error is the code of the
-- DomainError, or key_error where Python raises a built-in exception. Python works on a deep copy
-- of the state that an error discards, so an error carries no state. A dict is a list of entries in
-- insertion order. An instant is a number of microseconds since year 1 (of nanoseconds since 1970
-- in Clock, whose timestamps are cut to microseconds). So every instant of a command is the one that
-- utc(instant(...)) prints; the order of ready tasks, which is that of these texts, is modelled as
-- such. The "mptask_" in front of an operation's name is counted, and taken off by decide and by
-- normalize_command. Integers are natural numbers, with the source's bounds as tests.
--
-- Fuel: the topological elimination of _acyclic takes one step for each task, since it visits a task
-- once at most. The transitive loop of deductive_closure has the source's own bound.
--
-- The dreaming skill reads the triples and the rules of a knowledge graph and proposes new triples,
-- with their premises, for a decision; it suggests rules from predicates and from triples, all of
-- them disabled; and it applies approved merges and lessons by calls of a writer and an archiver.
--
-- Parameters: uuid5 of Python's uuid module, and the canonical JSON text of an event, which stands
-- on the json module; for the log the Codec, which holds the texts, the digests and the parsing that
-- json and hashlib give; for the derivation the Host, which holds str.lower, the parsing of JSON
-- lists, digests and the least of some floats; the text of a number; and the
-- Tools, which answer the calls of a writer and of an archiver by the calls made before.
--
-- Not modelled: the JSON shapes of commands (they are types here), messages and details of errors,
-- the parts of validate_state on the configuration, native tasks and goal members, storage,
-- native commands in the log, transport, processes, the
-- hooks, the backup skill, and of the dreaming skill the palace, clusters, worklists, gaps and the
-- other kinds of decisions.
pub mod Prelude
pub mod Model
pub mod Domain
pub mod Clock
pub mod Native
pub mod Protocol
pub mod Dreaming
mod Samples
