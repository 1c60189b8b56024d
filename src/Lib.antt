-- ===== src/Lib.antt =====
-- The core of mem-sandbox: the in-memory workspace, a virtual file system under `/workspace` with
-- limits, the parser of the command language, the broker of secrets, the store of snapshots, the
-- session that runs operations and tells of them, and the service that owns the sessions.
--
-- Parts and files. Paths from the repository's root are given for the code.
--
-- src/mem_sandbox/workspace/paths.py, `SandboxPath`: Paths.antt. A path is its text, a list of code
-- points. `construct` is the constructor with the check of `__post_init__`, `resolve`, `join_path`,
-- `parts`, `name`, `parent` and `is_ancestor_of` are the methods of those names, `confine` is the
-- second half of `resolve`. Paths/Render and Paths/Canonical say which texts are paths, Paths/Parts,
-- Paths/Ancestors and Paths/Resolve what the methods do with them.
--
-- src/mem_sandbox/workspace/text.py: Lines.antt, its laws in Lines/Laws.
--
-- src/mem_sandbox/workspace/patching.py: Patching.antt holds `apply_file_patch`, and Patching/Edits
-- what it means for the lines of a file; the index into the source's lines is a number, as in the
-- code, `none` where the code has -1. Patching/Parse and Patching/Files hold `parse_unified_diff`: the parts that read a header or a
-- hunk, and the loops. The decimal digits that `\d` matches are Python's table, a parameter of which
-- nothing is assumed. Python's default limit of 4300 digits for `int` is written out.
--
-- src/mem_sandbox/workspace/models.py: Models.antt, the limits, preconditions, requests and results
-- of the methods that are modelled. `WorkspaceWriteRequest` stands for the requests of `write` and
-- of `append`, `TransferRequest` for those of `copy` and of `move`: the fields are the same.
--
-- src/mem_sandbox/workspace/errors.py: Errors.antt. An exception is its class.
--
-- src/mem_sandbox/workspace/hashing.py and `_node_hash`: Hashing.antt. The digest of `hashlib` is a
-- parameter: a function from bytes to bytes, of which nothing is assumed.
--
-- src/mem_sandbox/workspace/memory.py, the tree: Tree.antt holds `_FileNode`, `_DirectoryNode`, the
-- lookups and `_ensure_parent`; Measure.antt holds `_measure_node`, Clone.antt `_clone_node`;
-- Measure/Counts says what the counters count.
-- A directory's dict is a list of entries in the order of insertion. A write through a reference
-- to a directory is `modify` at the directory's place; `place` and `discard` are the two that the
-- methods make.
--
-- src/mem_sandbox/workspace/memory.py, `MemoryWorkspace`: State.antt holds `_WorkspaceState` and
-- `_state_for_root`; Workspace/Op is the monad of the methods, an action on the state that returns
-- or raises, and `_commit`; Workspace/Writes holds `mkdir`, `write`, `append` and `remove`,
-- Workspace/Transfers `copy` and `move`, Workspace/Patches `patch`, with the updates that it computes
-- and places in Workspace/Patches/Updates, and Workspace/Restores `_prepare_restore_candidate` and
-- `commit_restore`, of which `take_candidate` is the part up to the last wait and `publish_taken`
-- the rest; Workspace/Restores/Entries says what the tree of entries holds. Workspace/Reads
-- holds `stat`, `list`, `read_bytes`, `read_text` and `read_range`: functions of the state.
--
-- Each method holds the state lock from its first look at the state to its last write, so a run of
-- the workspace is a list of requests: Workspace/History. A patch, which has a result of its own, is
-- treated in Workspace/Patches/Ended, Contents and Atomic.
--
-- src/mem_sandbox/command_executor/parser.py: Command.antt holds the words and plans of models.py,
-- Command/Tokens `tokenize`, Command/Grammar `parse_execution_plan`, Command/Expansion `expand_word`
-- and `_scan_expansion`, with `get` of the environments. An index into the text or the tokens is what
-- is left of them. `str.isalpha` is Python's table of letters, a parameter of which nothing is
-- assumed. Command/Grammar/Printed says what a plan has of its tokens, Validated what was checked
-- before a plan is dispatched, Ends that the parser ends, Command/Tokens/Quoting what quotes do.
--
-- src/mem_sandbox/command_executor/output.py: Command/Output.antt, with Command/Output/Retained,
-- Appends and Bounded. Where decoding fails is `error_start` of Utf8.antt; Utf8/Cuts and Utf8/Fitting
-- are about bytes that are cut off inside a code point.
--
-- src/mem_sandbox/secrets/broker.py: Secrets.antt. The lock is not held while the source is awaited,
-- so a call of `lease` is two steps, `admit` and `settle`, and `run_events` runs these and `close` of
-- the leases in any order. Times are numbers of microseconds; what the clock and the source answer is
-- in the events. Secrets/Records is about its lists, Secrets/Capacity the accounting of the leases.
--
-- src/mem_sandbox/snapshots/store.py: Snapshots.antt, with the data of snapshots/models.py. The dict
-- is a list of entries in the order of insertion; the clock's answers are in the calls.
-- Snapshots/Calls says what every call keeps, Snapshots/Keys what the dict's operations do to a
-- lookup, Accounts and Kept draw the conclusions.
--
-- src/mem_sandbox/session/session.py: Session.antt holds the state, with the errors, kinds and events
-- of session/errors.py, core/operations.py and events/models.py; Session/Acts actions that may raise;
-- Session/Lifecycle `start`, `close` and `_emit_event`; Session/Operations `_run_operation`;
-- Session/History the runs of calls. The operation gate lets one of `start`, `_run_operation` and
-- `_close_once` go on at a time, so a run is a list of these, each placed where it gets the gate; a
-- call that is refused before the gate changes nothing and is left out. The first part of `close` is
-- not held by the gate: every wait of another call says if it came in that wait. What the gate, the
-- clock, the policy, the action and the sink of events answer is an argument, any answer at all;
-- only the wall clock and the generator of identifiers are taken to answer. Times are numbers of
-- microseconds. Session/Protocol is the machine that reads a session's events, Protocol/Steps,
-- Orderly, Operate, Work, Closing and Runs show that it reads every run; Session/Returns, Worked and
-- Success look at results.
--
-- src/mem_sandbox/service/service.py: Service.antt holds the state and what each holder of the lock does;
-- nothing in these parts waits, so each is one step. Service/Calls holds the calls from one wait to the
-- next, as `run_events` runs them in any order: `creates` and `resumes` begin a call; `loads`, `builds`,
-- `starts` and `cleans` are the ends of its waits, for the snapshot, the factory, the session's start
-- and the close of a runtime that is not published; `gets` and `deletes` look a handle up, `deleted`
-- is the end of a deletion task; `closes` and `closed` are the two parts of `_close_once`. The log of a
-- world, which the code does not have, tells which runtimes the factory returned and the close of
-- which has ended. What the
-- generator of identifiers, the clock and the collaborators answer is in the events. Totals are sums
-- over calls and records; Ownership, Kept, Steps and Waits keep the account of who holds what; Shut,
-- Stays, Closing and Phases show that a service that closes gets nothing new; Histories concludes;
-- Lookups and Answers follow the record that `get_session` reads.
--
-- Named.antt sorts entries by name as `sorted` does, Strings.antt and Utf8.antt are the operations
-- of `str` and `bytes` that the code calls.
--
-- How the proofs go. `Ends` of Workspace/Op says that an action raises and keeps the state, or returns
-- with a result and a state of which a predicate holds. WriteEnds, PathEnds and TransferEnds show it of
-- each method, with a record of what the method did; Frames says what the writes leave alone, on
-- `Tree/Places` and `Tree/Parents`; History, Contents, Stale, Moves, ReadBack and Ranges draw the
-- conclusions.
--
-- Bounds. In the workspace every function is structural recursion. In the parser of commands
-- `tokens_from` has the length of the text as fuel, `take_units` and `take_stages` the number of
-- tokens and 2, `expand_from` the length of the fragment, and Command/Tokens/Total,
-- Command/Grammar/Ends and Command/Expansion/Safe show that it is enough; `retain` has the number
-- of bytes that are cut, of which two rounds are used, see Command/Output/Retained; `parse_files`
-- and `parse_hunks` have the number of lines, and Patching/Files/Ends shows it. Runs.antt has the
-- helpers of such loops. The stacks of `_measure_node`, `_node_hash` and `_clone_node` are
-- recursion on the tree; the order in which children are met, and with it the error that is raised
-- first, is kept for `_measure_node`. The number of nodes counted by `_clone_node` is the same at
-- the end. Python's numbers are unbounded, and so are the model's.
--
-- Not modelled: tests of argument types, messages of exceptions, the lock itself, the codecs of
-- snapshots and archives with `export`, `prepare_restore` and `prepare_archive_restore`, the execution
-- of commands, what each request of a session normalises and does, the redaction of results, the
-- delivery of events, the factory of sessions with its resources, and the package for network.
pub mod Base
pub mod Errors
pub mod Strings
pub mod Lines
pub mod Utf8
pub mod Paths
pub mod Models
pub mod Tree
pub mod Named
pub mod Hashing
pub mod Measure
pub mod Clone
pub mod State
pub mod Workspace
pub mod Patching
pub mod Command
pub mod Runs
pub mod Secrets
pub mod Session
pub mod Service
pub mod Snapshots
pub mod Tests
