-- ===== src/Lib.antt =====
-- Verification of the employee tracker's monitoring agent.
--
-- The agent collects facts about a machine, builds one event from them and delivers it over HTTPS.
-- What cannot be delivered waits in a spool on disk and is replayed, oldest first, before the next
-- live event. The modules of this library follow the files of the program:
--
-- - Models: src/monitor_agent/models.py, the values that the parts exchange. A float stands as its
--   bit pattern, and Floats names the operations of floats and the facts of IEEE-754 doubles that the
--   proofs use, each for the range of numbers in which it holds.
-- - Config: src/monitor_agent/config.py. `load_config` reads an environment and raises or returns an
--   `AgentConfig`. Config/Checked is the calculus in which its guards are followed.
-- - Transport: src/monitor_agent/transport.py. `send` is the retry loop of `TelemetryTransport.send`.
--   Its fuel is the number of attempts that are left. The session, the clock and the random numbers
--   are functions of the attempt.
-- - Runtime: src/monitor_agent/runtime.py. Runtime/World is what `AgentRuntime` talks to (the spool,
--   the transport, the collectors, the stop event, the clock), each answer a function of all that has
--   happened before, so errors and every order of answers are covered. Runtime/Cycle holds `replay`
--   and `run_cycle`, Runtime/Loop holds `run`. The loop runs on fuel, one unit for a heartbeat. The
--   search for the next deadline has two steps more than the clock shows seconds as its fuel: the
--   interval is a second at least, so that is enough, and `heartbeats` stops with `out_of_fuel` if not.
-- - Payload: src/monitor_agent/payload.py, `build_payload`.
-- - Orchestrator: src/monitor_agent/orchestrator.py, `collect_all`. What the thread pool made of each
--   collector, and when, is a parameter, as is what starting the threads and the wait raise.
-- - Identity: src/monitor_agent/identity.py, `resolve_machine_identity`. The 100 attempts to read
--   the file of a concurrent start are structural recursion.
-- - Processes and FileAudit: src/monitor_agent/collectors/processes.py and
--   src/monitor_agent/collectors/file_audit.py. The process table and the file system are what a
--   collector sees of them.
-- - Users: src/monitor_agent/collectors/users.py.
-- - Network, Resources, Window, Screenshot and SystemInfo: the collectors of the same names in
--   src/monitor_agent/collectors (SystemInfo is system.py). What psutil, the desktop and the platform
--   answer is a record each.
-- - Collectors: src/monitor_agent/collectors/__init__.py and base.py. `build_collectors` gives each
--   collector with what its `collect` makes of an Environment of these answers.
-- - Logging: src/monitor_agent/logging_setup.py. Logging/Scan and Logging/Redact are `SecretFilter`,
--   where what a regular expression matches in a text is a parameter and `sub` is made of the matches;
--   Logging/Setup has the formatters, the handler and `configure_logging`.
-- - Software: src/monitor_agent/collectors/software.py, with its cache.
-- - Spool: src/monitor_agent/spool.py. Spool/Store has the names and times of records, the order of the
--   backlog, retention and statistics, on the directory as a list of entries. The rest stands on
--   Spool/Disk, two directories of names for numbered files, names sorted by the prefix the program
--   gives them. Spool/Calls has the system calls and the small operations made of them: each call may
--   raise, by a function of its number, and every state of the directories after a call is kept, since
--   a process that dies leaves one of them. Spool/Guards (`_acquire_artifact_guard`, reservations,
--   clean-up), Spool/Markers (`_persist_operation_marker` and its readers), Spool/DeadLetter
--   (`_move_to_dead_letter`; its loop runs on fuel, for which the theorems hold whatever it is),
--   Spool/Recovery (`_prepare`) and Spool/Queue (`enqueue`, `pending`, `load`, `ack`, `reject`,
--   `enforce_retention`) follow the code. Spool/Keeps is the calculus in which an invariant of the
--   directories is followed through an action, with Learns for steps that rest on what was seen;
--   Spool/Still and Spool/Files say what a run that returns leaves; Spool/Evicts, Listing and Retains set the
--   retention on the directories against that on the list.
--   The locks are answers of the system, so a busy lock is covered, and other processes respect them.
-- - Cli: src/monitor_agent/cli.py, `main` for parsed arguments with its exit codes; what the other
--   parts answer is given, and the constructors are those of Transport, Spool and Runtime.
-- - Common: shared types and lemmas. Tests: concrete parameters and inputs.
--
-- Not modelled: the spool's branches for systems that are not POSIX, access modes, and what fsync
-- makes durable; the OverflowError of a retention age that reaches before the year 1, since the
-- configuration allows a year at most; and the parser of the command line and what is printed. Most of Python's texts, URLs, UUIDs, hashes and dates are
-- parameters, as are requests, psutil and, but for the spool's directories, the file system. Exceptions
-- that are no `Exception`, such as KeyboardInterrupt, have no class of their own.
pub mod Common
pub mod Models
pub mod Floats
pub mod Config
pub mod Identity
pub mod Transport
pub mod Orchestrator
pub mod Payload
pub mod Processes
pub mod FileAudit
pub mod Software
pub mod Users
pub mod Logging
pub mod Network
pub mod Resources
pub mod Window
pub mod Screenshot
pub mod SystemInfo
pub mod Collectors
pub mod Spool
pub mod Cli
pub mod Runtime
mod Tests
