-- ===== src/Lib.antt =====
-- ATMcp coordinates a team of coding agents: they join over MCP or REST, claim tasks from a shared
-- board under leases, share a key-value memory, and send each other directives. Every write goes
-- through one SQLite connection behind one lock (atmcp/db.py); the events of a transaction are
-- published after its COMMIT (atmcp/hub.py), and Redis mirrors leases, heartbeats and sessions
-- (atmcp/redis_bus.py).
--
-- The state and its operations:
--   Schema      the rows of atmcp/schema.sql as records, the caller, the settings, the clock
--   Wire        the answers of the services, one constructor for each dict
--   Db          the database, `Tx` (a transaction body that reads, writes, queues events and may raise)
--               and `transaction`: COMMIT and publish, or ROLLBACK and raise
--   Events      `append` of atmcp/events.py
--   Hub         generation counters, `dispatch`, `tick` and `wait_for_change` of atmcp/hub.py
--   Idempotency the keyed calls of atmcp/idempotency.py, and the blocks of the services around them
--   Redis       the mirror of atmcp/redis_bus.py and atmcp/lua/extend_lease.lua
--   Server      the whole process (database, counters, mirror, bound sessions), and `serve`: a
--               transaction, then what the function does after it
-- The services, each operation under the name of its function:
--   Tasks       atmcp/services/tasks.py; Tasks.Create, Claim, Work and Board hold the operations
--   Presence    atmcp/services/presence.py
--   Identity    atmcp/services/identity.py, with `bind`, `unbind` and `resolve` (Resolve) of atmcp/session.py
--   Reaper      atmcp/reaper.py: `sweep_once`, and `reap_one` for its transaction on one candidate
--   Memory      atmcp/services/memory.py and atmcp/services/clock.py
--   Directives  atmcp/services/directives.py; Finish and Inbox hold the later operations and the reads
--   Output      atmcp/services/output.py
--   Sessions    atmcp/services/sessions.py; Messages holds the stored conversation and the transcript
--   Status      atmcp/services/status.py: `get_team_status`, `sync` and the other reads of the event log
--   Console     atmcp/services/console.py: `run_command`
--   Knowledge   atmcp/services/knowledge.py and atmcp/canonical.py; Knowledge.Search is its search
--   Usage       atmcp/services/usage.py; Usage.Meters holds `team_usage`
--   Guard       atmcp/services/guard.py; Guard.Builtin is the deny-list, Guard.Rules the decision
--   Operations  every call that may write tasks, as the steps of one server
--   Web         atmcp/web.py: the calls that want the join token; Web.Handlers holds what the functions
--               do once a team is let in, Web.Gate the gate of each, on the token that it reads, and
--               Web.Views the views of the dashboard; a handler that has the name of its service is
--               called post_… here
--   Compat      atmcp/mcp_compat.py: the headers of a request behind a proxy
-- The clients, which run on the agents' machines:
--   Host        scripts/atmcp_workbench_host.py: Host.Gate asks the guard before a command runs,
--               Host.Lanes is the loop over the threads, Host.Stream the structured driver, Host.Agent
--               the loop over a model server, with its stream (Sse), its tools (Tools) and their paths (Paths)
--   Poller      scripts/atmcp_worker_poller.py: the attempts at a directive and their budget
-- The proofs: Tasks.Invariant (well-formed tasks), Tasks.Tokens (fencing tokens),
-- Tasks.Claim.Outcome, Tasks.Eligible, Settle and Views, Identity.Names and Sticky, Reaper.Reaps,
-- Idempotency.Once, Memory.Versions, Hub.Wakeups, Directives.Life, Moves, Claims and Runs,
-- Output.Tails, Status.Cursor, Events.Log, Redis.Leases, Sessions.Changes, Guard.Decides and
-- Requests, Knowledge.Posts and Hidden, Usage.Reads, Totals and Adds, Web.Access, Delivery and
-- Outsiders, Compat.Repaired, Host.Lanes.Serial, Host.Stream.Shown, Host.Sse.Slots and Assembled,
-- Host.Paths.Inside, Host.Agent.Unread, Loop, Effects and Talks, Poller.Retries, and
-- Operations.Invariant, Fencing and Zombies.
-- The modules named Isolation are about the rows of one team under the calls of another. Examples
-- holds a small board and the properties at concrete inputs. Base holds what they share: tables as
-- lists of rows with the statements of SQL and their laws, tests, lists and signed integers.
--
-- How the code corresponds. A table is the list of its rows in the order of insertion, so that SQL's
-- ties are broken by that order; a WHERE clause is a Boolean test. A body is a function from the
-- database and the queue of events; the lock makes a run of the server a sequence of whole
-- operations, and the reaper, which takes the lock for each candidate, is a sequence of `reap_one`
-- steps. A `return` inside a transaction (`returned`) skips what follows the block; a value that
-- leaves it (`result`) does not. Identifiers and texts are strings, times natural milliseconds,
-- priorities and percentages signed. What an operation reads from its surroundings is an argument:
-- the readings of the clock, the ids that `new_id` drew, the hash of a token, and for a long poll
-- the counters that it sees. A recursion is on a list or on the steps that are left, but for three
-- that run on fuel: the polls for a human's word (`await_human`, on ask_timeout + 1, one for each
-- second), the attempts at a directive (`try_again`, on max_retries + 1) and the digits of a number
-- (`digits`, on the number + 1, each digit taking at least one away); for the first two it is a
-- theorem that the fuel is enough. `normpath` and `join` of os.path are written out for POSIX. Code
-- outside the repository is a parameter: regular expressions and lower case (`Regex`),
-- floating-point amounts (`Money`, `Floats`), sha256, the full-text index and LIKE (`Outside`), the
-- model server, the machine on which tools run, and json.loads (`Setting`, `World`). Python's
-- `round` is exact here (half to even), and the JOIN of `eligible_unblocked`, unique by the key of
-- task_deps, is an EXISTS.
--
-- Not modelled: negative fencing tokens and lease lengths; SQLite's and Redis's own failures, but
-- for a constraint that is violated and a mirror that is down; the frames for WebSocket clients,
-- which are output only; sums of usage beyond 64 bits; the texts of the console's answers; the pages of web.py, its creation of
-- teams, health checks and WebSocket, the MCP tools, the command line; of the host the driver of
-- other command lines, the files and the HTTP client, of the poller the running of a model and the
-- waits; the heartbeat and hook scripts, and the dashboard.
pub mod Base
pub mod Schema
pub mod Usage
pub mod Compat
pub mod Console
pub mod Web
pub mod Wire
pub mod Hub
pub mod Guard
pub mod Db
pub mod Events
pub mod Idempotency
pub mod Redis
pub mod Server
pub mod Tasks
pub mod Presence
pub mod Identity
pub mod Memory
pub mod Knowledge
pub mod Directives
pub mod Output
pub mod Sessions
pub mod Status
pub mod Reaper
pub mod Operations
pub mod Host
pub mod Poller
pub mod Examples
