-- ===== src/Lib.antt =====
-- Context-OS: a daemon that watches directories, versions the files in them, and lets agents
-- work on them within a scope that config.yaml grants.
--
-- The parts and how they interact. The watcher (src/vcs/workers/local/local_watcher.py) turns
-- file-system events into event objects and publishes them on the bus (src/vcs/workers/bus.py),
-- which copies each into the mailboxes of the subscriptions that accept it. Worker threads
-- (src/vcs/workers/consumer_worker.py) drain the mailboxes. The runtime
-- (src/vcs/workers/local/local_runtime.py) subscribes the source consumer, filtered by the scope
-- of config.yaml, and the config consumer. The scope, the directories to watch and the diff
-- baseline come from src/vcs/services/configure.py; the guardrail of the MCP server
-- (src/app/mcp/guardrail.py) widens the scope on approval. Versions of the files are kept in
-- mirror repositories, whose places src/vcs/services/mirror_path.py computes.
--
-- Which file models what:
-- - Base: the shared types and lemmas. A Python set is a list without repetition and a function
--   that lists its elements in an order that is not specified.
-- - Event, Event/Wire, Event/Route: src/vcs/shared/types.py. An event class is a constructor of
--   EventClass, and isinstance a test on it; a missing key of a dict is none, an exception is a
--   value of Error.
-- - Bus/Topic, Bus/Queue, Bus/Fanout: topic_matches, LocalQueue and LocalEventBus. The table of
--   topic_matches is computed row by row. Mailboxes are a store and a subscription holds an
--   index into it, so that two subscriptions may share one. A predicate may change the state of
--   its owner, and none is a raised exception.
-- - Worker: ConsumerWorker.run over what the mailbox holds; an empty mailbox is waited for.
-- - Watcher/Jobs, Watcher/Debounce: WatchWorker. Its clock counts in whole ticks.
--   Watcher/Reconcile and Observed hold the proofs, on the jobs and on what the observer is
--   asked; Watcher/Stray has a run in which reconcile removes the wrong watch.
-- - Paths/Pure, Paths/Normalize: pathlib's pure paths and path_normalize of src/utils/helper.py.
--   Texts are lists of code points. Paths/Mirror: mirror_path.py, and _source_path_for of
--   src/vcs/services/audit.py.
-- - Configure/Sources, Configure/Targets, Configure/Snapshot, Configure/Grant: configure.py and
--   guardrail.py. Configure/Scope, Stored, Minimal, Canonical and Baseline hold the proofs.
-- - Watcher/Formatter: normalize_event of src/utils/formatter.py. Versioning/Hints:
--   src/vcs/services/actor_hints.py.
-- - Consumers/Local, Consumers/Config: the handlers of src/vcs/workers/local/local_consumer.py
--   and src/vcs/workers/config/config_consumer.py. The files do not change during a call.
--   Consumers/Retry and Uncovered hold the proofs.
-- - Runtime: the subscriptions and the scope cache of LocalRuntime.
-- - Store/Commands, Store/Operations: src/vcs/services/git_store.py, one repository. The
--   commands of git are a parameter, Git; a Session is the repository and the number of commands
--   that were run. Store/Contents says what the commands do to objects, index and HEAD;
--   Store/Walk and Store/Reset model the walk over all mirror repositories, a directory being a
--   tree of names, and their reset. Store/Calls, Head and Committed hold the proofs.
-- - Versioning/Tables, Versioning/Handlers, Versioning/Sync: src/vcs/services/versioning.py. The
--   tables are lists of rows and an SQL statement a function on them; the mirror store is an
--   interface, GitStore. An Outcome is a return or a raise, with the state that either leaves.
--   Versioning/Trees, Registered, Appended and Created hold the proofs; IsMirror joins the
--   interface with Store.
-- - Store/Logs: the readers of git_store.py and init_repo; Store/Parsed and Store/Authors hold
--   the proofs. Base/Lines has strip, splitlines and split of Python, Base/Utf8 and Base/Decimal
--   its codec and its numerals.
-- - Audit, Audit/Rollback: src/vcs/services/audit.py, over the repositories of Store and a file
--   system, Disk. Audit/Dicts, Reports and Untouched hold the proofs.
-- - Mcp: the tools of src/app/mcp/server.py, and the reading and saving of text in
--   src/utils/helper.py. A tool answers with a Reply or raises; the client's answers, the time
--   and the database of the hints are a Request. Mcp/Guarded, Tools, Contents, Written and
--   Elsewhere hold the proofs.
-- - Daemon: src/app/cli/daemon.py, over the pid file, the sentinel and an operating system, Os.
--   Daemon/Started and Daemon/Stopped hold the proofs.
-- - Api: the key check of src/app/api/deps.py and the routes of src/app/api/router/v1/vcs.py. An
--   Answer is a body, a status or an exception. Api/Guard holds the proofs.
-- - Autostart: src/app/cli/autostart.py, over the texts of the files and a System. A step is a
--   function with the rest of the call as an argument. Autostart/Undone holds the proofs.
-- - Startup: src/vcs/initialize.py and src/vcs/adapters/local_adapter.py. A Boot is the config
--   files, the tables with the mirror, and a counter of identifiers; the Setup holds what the
--   start calls in other modules and reads of the file system. Startup/Scan and Startup/Initial
--   hold the proofs.
-- - Tests: a concrete host, observer and file format, and the theorems at concrete inputs.
--
-- Parameters, for code that is not in the repository: expanduser and resolve of pathlib with the
-- laws of IsHost (only a leading tilde is expanded, a resolved path is absolute and in normal
-- form, and resolving again changes nothing); the commands of git with the laws of IsGit
-- (update-ref sets HEAD or fails and leaves it, the other commands leave it, rev-parse reads it)
-- and of IsContent (objects are never lost or changed; which object each command adds, and what
-- it does to the index and HEAD); PyYAML with the law of IsYaml (a dump loads as what was
-- dumped); watchdog's observer; which paths are directories; the answer of the MCP client; the
-- texts that git prints, with text=True; the file system of the tools, with the laws of IsDisk
-- (a written file reads as written, the others as before), and the decoding with replacement
-- marks; processes, signals and the clock of the daemon's control; the file system of the
-- versioning service, which does not change during a call, and the similarity of two contents.
-- The order in which a set is gone through is any function that lists the same elements
-- (IsOrder).
--
-- Loops and fuel: the loops are structural recursion, but for the climb of _nearest_existing_dir
-- to the parent directory, which runs on as many rounds as the path has names and one more, and
-- each round takes a name away; and the waiting of stop for the daemon, which has as many rounds
-- as the time limit has ticks and one more, and each round sleeps, which takes time (IsClock).
--
-- Not modelled: threads and signals, the making of directories and of the tables at the start,
-- logging, the locks of the mirror repositories, the HTTP server around the routes, the set-up
-- of the MCP server, the command line and the scripts.
pub mod Base
pub mod Event
pub mod Bus
pub mod Worker
pub mod Watcher
pub mod Paths
pub mod Configure
pub mod Runtime
pub mod Store
pub mod Versioning
pub mod Audit
pub mod Mcp
pub mod Daemon
pub mod Api
pub mod Autostart
pub mod Startup
pub mod Consumers
pub mod Tests
