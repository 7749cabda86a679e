-- ===== src/Lib.antt =====
-- The AI support agent: a process on a customer's machine that takes commands from a server over a
-- socket, runs them, and sends their results back. This library models the parts of it that decide
-- something, translated from the TypeScript of the folder src/ of the repository, and proves what makes
-- them correct.
--
-- The parts, and the files that model them:
--
--   Transport (src/agent-transport.ts, src/api-client.ts): a notification of the server leads to
--     `processCommand`, which waits for the command, for its execution and for the submission of its
--     result. What it does between two waits is one function (`begin_command`, `on_fetched`,
--     `on_executed`, `on_submitted`, with the `catch` and the `finally` block as `on_error` and
--     `finish`), on a state that has the set of commands in flight, the generations of assignments of
--     the client, the folder of pending results and the runs that wait. An event says which wait ends
--     and with what, so a list of events is one interleaving of the runs of all commands. Moves.antt
--     has the step relation. The answers of the server and of `executeCommand` stand in the events.
--   Agent (src/project-agent.ts): one agent, which registers for a slot, waits in standby, is evicted, gets
--     a new token, and shuts down. The register loop is a state that waits; an event ends a wait. Its
--     commands are those of Transport. Moves.antt has the step relation.
--   Progress (src/server-setup/progress-tailer.ts): the events that a running playbook appends to a file.
--     Each read sees the file as it is then; `JSON.parse` is a parameter. Utf8.antt has the decoder of
--     the runtime, Tailer.antt the polling.
--   Pending (src/pending-result-store.ts, src/utils.ts, src/types/command.ts): `processCommand` writes
--     a result to disk before it submits it, and a loop sends what is left there again. The folder is
--     an association list from file names to contents. Flush.antt has the interval of the loop. The
--     server is a function from submissions to answers; the disk answers reads and writes, and
--     removals succeed.
--   Cancel (src/commands/process-manager.ts): the handles of running commands, and cancelling them.
--   Children (src/child-process-manager.ts): one child process per project, restarted when it exits.
--     The objects that the maps and the closures of timers and handlers share stand in a store. An
--     event is an exit, a timer, a message or a call.
--   Terminal (src/terminal/terminal-session-manager.ts): the terminal sessions, which survive a lost
--     connection for a grace period. A session is an object in a store, the exit of its process an event.
--   Tokens (src/utils/token-utils.ts): the parts of a token and the target of a direct start, on texts
--     as lists of code points.
--   Updates (src/auto-update-gate.ts, src/auto-update-enablement.ts): whether an update may run now.
--   Guard (src/server-setup/ansible-task-guard.ts): the validator of the Ansible tasks that a model
--     writes. Yaml.antt has the values of a document and their JSON; the YAML parser and the texts of
--     its errors are parameters. Names.antt has the lists, Scan.antt the two regular expressions,
--     Role.antt the checks of a role, Validate.antt the validator. Permitted.antt describes a permitted task
--     without the validator.
--   Diff (src/utils/unified-diff.ts): the edit script, over a test of which old line equals which new
--     one, and its hunks. The trace is a list of copies of `v`; Int.antt has the integers of the indices.
--   Retry (src/retry-strategy.ts): the back-off and the retry loop of every request of the client.
--     `Math.random()` is a fraction of 2 ^ 53 and rounding is done over the rationals; the loop runs on
--     the number of attempts that are left, so it needs no fuel.
--   Socket (src/base-websocket.ts, src/ws-reconnect.ts): the reconnection, which uses the back-off, on
--     a list of rounds, one per attempt; the heartbeat; the handler of the close event.
--   Rotation (src/log-rotator.ts): the writer of a log file that is rotated by its size. Files are lists
--     of bytes; which removals and renames fail is a parameter.
--   Supervisor (src/docker/docker-supervisor.ts): the process on the host that runs one container per
--     project. State.antt has the marker files, Starting.antt `spawnProject` and `rebuildAndRestart`,
--     Stopping.antt the close handler, the shutdown and the updates. An event is an exit, a built image, a
--     signal, the end of `docker stop` or a write of a marker file. The two functions that call each other
--     run on a number of rounds, two: a forced rebuild either waits for an image or calls back with the
--     same hashes, so that a second call that finds them different would be followed by a third one.
--   Common: association lists for maps, lists for sets, Boolean tests, code points of texts.
--   In each folder Tests.antt has runs at concrete inputs.
--
-- Numbers are natural numbers without a bound: the code's are counters, times in milliseconds and HTTP
-- statuses, far below the bound of exact integers. Recursion is structural everywhere.
--
-- Not modelled: log messages and translations; the bodies of the command executors, which run other
-- programs; the browser, MCP, ECS and plugin bindings; the self-update and
-- the config sync of the project agent, the sockets of the terminal and of the editor,
-- and the images, mounts and logs of the containers.
pub mod Common
pub mod Agent
pub mod Progress
pub mod Transport
pub mod Pending
pub mod Cancel
pub mod Children
pub mod Terminal
pub mod Tokens
pub mod Updates
pub mod Guard
pub mod Diff
pub mod Retry
pub mod Rotation
pub mod Socket
pub mod Supervisor
