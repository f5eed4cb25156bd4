-- ===== src/Lib.antt =====
-- Turbohaul: a server that runs one llama-server process at a time and queues requests for it. This
-- library models its core, in the package src/turbohaul, and states what the parts promise each
-- other.
--
-- The parts, and where they are modelled:
--   * Slot (slot.py): the record of a request and its life-cycle states; Slot.ThreadId derives a
--     thread id from a prompt's prefix. SHA-256 is the parameter `hexdigest`.
--   * Fsm (fsm.py): the transition table, `transition`, and the classes of states. Fsm.Cold is the
--     walk to COLD that `_force_cold` makes; Fsm.Graph is what the table as a graph allows.
--   * Queue (queue.py, TurbohaulQueue): the acceptance buffer and staging as two lists, the oldest
--     slot first, with every method. The children hold the case analysis of the pops (Pop), the two
--     tiers as one line (View), and the laws by subject.
--   * Timers (queue.py, GraceTimer and IdleHotTimer): both timers with every method.
--   * Db (state.py, and the sweep in manager.py): the two tables as lists of rows, the statements on
--     them, the reconciliation at boot and the background sweep.
--   * Bus (manager.py, EventBus): the subscribers' bounded queues, what is redacted and what is
--     delivered.
--   * Exec: methods that mutate an object and may raise; what was written before a raise stays.
--   * Manager (manager.py): Records holds the state of TurbohaulManager and what the host answers;
--     Effects the audit writes and transitions that the methods share; Submit is `submit`; Teardown
--     the two teardowns and `_force_cold`; Grace the grace loop; Process is `_process_slot`; Worker
--     is `worker_loop` and `shutdown`; KeepAlive the choice of the idle time.
--   * Manifest (manifest.py, api/manifests.py): Allowlist holds the tables of flags; Value the values
--     that yaml reads and the tests on them; Guard the patterns on names; Validate the checks of
--     `_flags_allowlist`; Argv is `flags_to_argv`, with a reader of command lines in Argv.Reading;
--     Tag is `validate_tag`; Store the manifest files and the If-Match rule, Store.Listing their list,
--     Store.Routes the routes that read, write and delete them, Store.Answers what a PUT answers.
--     Tables, Kinds, Lowered and Sound check the tables against each other, entry by entry.
--   * Ssrf (ssrf_guard.py): the denied networks and the checks on the URL of a pull.
--   * Recovery (api/tool_call_recovery.py): Json the values it reads, Scan the search for the end of
--     an object, Regex the two patterns, Candidates what looks like a call, Apply the calls that are
--     written into the result and what is stripped from its text.
--   * Subprocess (subprocess_mgr.py): Polling is the loop that looks at something until a deadline;
--     Sigterm is `drained_sigterm`, Health `health_check_once` and `wait_until_healthy`, Vram
--     `verify_vram_cleared`, Spawn the command of `spawn_sidecar`.
--   * Safety (safety.py): the gates before a spawn, and the estimate of the cache; Safety.Admission is
--     what manager.py passes to them for a manifest, and the drop that it expects after a teardown.
-- A request is a slot. `submit` puts it into the queue, at the head if the grace timer's window is
-- open for its thread. The worker pops it and processes it: it takes over the idle holder's process
-- or spawns one, runs the request, and holds the grace window open, in which it serves follow-ups
-- of the thread; then the process goes to the idle holder or is stopped. Every step writes to the
-- database, and the caller waits on the slot's future.
--
-- How the code is written down. Names are the source's. A method of an object is a function from
-- its state to its state. The methods of the queue hold its lock, so a history is a list of calls.
-- The clock is a number of ticks, read where the source reads it: each reading is an argument, and
-- readings need not grow. What the host and the clients answer (manifests, safety gates, processes,
-- health, completions, signals, disconnects) are arguments too, the records Inputs, Poll and
-- RoundInputs. A process is its pid; `alive` lists those that run and `resolved` logs the futures
-- that were resolved, for the theorems. Texts that name an id or a state (messages of exceptions,
-- the reason of a drift) are shortened to a constant. Statements on the database do not fail, and
-- the checks after a SIGTERM (VRAM, scans for orphans) only report. That the worker sets the ready
-- event of a streaming slot is seen by its route alone, and left out.
-- A manifest names the flags that the process is started with: they are checked when it is written
-- or read, and `flags_to_argv` makes them the command line. An answer of the process goes through
-- Recovery before the client sees it. The guard of pulls stands before every download.
-- A text is a string or, where the code goes through its characters, the list of its code points.
-- A float is NaN, an infinity or a fraction. `lower` is that of ASCII. What the code takes from
-- libraries is a parameter: `str` of a float or a container (`str_other`), `ipaddress`,
-- `urlparse`, `getaddrinfo`, `json.loads`, `json.dumps` and `uuid4`. What a manifest that was
-- written is loaded as, after yaml and pydantic have dumped and read it, is the parameter `dump`.
-- The manifests' directory is a list of entries, a write to it works or fails before or after the
-- rename, and a symbolic link in it is refused wherever it leads. The manager's model takes the
-- answers of Subprocess and Safety as inputs: whether the gates pass, how a SIGTERM ends, whether
-- the process gets healthy.
-- A loop with a deadline runs on fuel, and where the clock moves on in each round, as many rounds
-- as the window has ticks, and one, are enough. The readings of nvidia-smi, one for each query,
-- and /proc are given; sizes and limits are natural numbers there, loads and percentages exact
-- fractions, and the factors of quantisation are in 400ths. The module polite_vram, outside the
-- repository, is a parameter. The scans and searches recurse on the text.
-- worker_loop starts the idle teardown as a task and goes on: an input says whether the task is
-- only created in the round, waits for the process with the holder dropped, or has ended;
-- `idle_task_ends` is the rest of a task that waits; what such a task does in the middle of a
-- later round is left out. The submissions of other tasks come between the rounds of the grace
-- loop. The walk to COLD has the source's bound of four rounds; the grace loop runs over its list
-- of rounds, where the end of the list is the end of the window; a sweep has the source's limit
-- of a hundred rows.
--
-- Not modelled: the other HTTP routes, pulls and the blob store, configuration files, the parsing of
-- /proc and nvidia-smi, scans for orphans, the hash of the binary, the status page, the parsing of
-- yaml and pydantic's coercions. Logging, payloads of audit events and the prompt's context have no
-- effect on what is modelled and are left out.
pub mod Base
pub mod Slot
pub mod Fsm
pub mod Queue
pub mod Timers
pub mod Db
pub mod Exec
pub mod Bus
pub mod Manager
pub mod Manifest
pub mod Ssrf
pub mod Recovery
pub mod Subprocess
pub mod Safety
