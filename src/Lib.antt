-- ===== src/Lib.antt =====
-- tend: heartbeats, scheduled jobs and their alerts.
--
-- tend is a dead-man's switch and a job runner. A heartbeat is pinged by a job that runs elsewhere,
-- and a watcher marks it down when a ping is late. A job is run by tend itself: the scheduler
-- enqueues runs, workers claim and finish them, a reaper fails the ones that were lost. Every change
-- that matters is recorded as an event, in the transaction that makes the change, together with the
-- deliveries to the channels that its rules match; failures of jobs are paced per channel.
--
-- The parts, and where they come from:
-- - Clock: Go's times and durations. A time is the number of nanoseconds since the zero time, a
--   duration an int64 with its wrap-around.
-- - Core/Tail: internal/core/tail.go. A text is the list of its bytes.
-- - Event, Event/Details: internal/core/event.go, with the payloads and details that
--   internal/jobs and internal/heartbeat put into it.
-- - Heartbeat: internal/heartbeat/heartbeat.go and detail.go. `deadline` is Deadline, `run_grace` is
--   RunGrace; Heartbeat/Deadline holds their theorems. Heartbeat/Ping: ping.go.
-- - Notify/Pacing: internal/notify/pacing.go. Laws is about one decision, Trace about one channel and
--   one job over time, Trace/Invariant holds what follows; Recoveries is about who hears of a
--   recovery while rules come and go.
-- - Jobs: internal/jobs/job.go and unreadable.go; Jobs/Unreadable: UnreadableFailureDetail of
--   failure.go; Jobs/Failure: the rest of its details; Jobs/Limits: maxRunDuration of executor.go and
--   the window of ReapOnce of runner.go; Jobs/Schedule: schedule.go; Jobs/Capture: capture.go, with
--   the buffer and the output of a shell job from executor.go.
-- - Store/Schema: the tables of internal/store/migrations, as lists of rows. Store/Table: SQL's
--   statements on them.
-- - Store/Streak, Store/Pacing, Store/Emit: streak.go, pacing.go and emit.go of internal/store.
--   `emit_event` is emitEvent, with streakOf, the insert and enqueueDeliveries as it calls them.
-- - Store/Deliveries, Store/Prune, Store/Channels, Store/JobRows: the queue of deliveries, the
--   retention, channels with their rules, and the rows of jobs, of internal/store/sqlite.go.
-- - Store/PingState, Store/PingLog, Store/Pings: internal/store/pings.go, and the heartbeats of
--   sqlite.go. `record_heartbeat_ping` is recordHeartbeatPing, `mark_heartbeat_down` is
--   markHeartbeatDown, `check` is Watcher.Check of internal/heartbeat/heartbeat.go.
-- - Store/Runs: the queue of runs of internal/store/sqlite.go, from EnqueueRun to
--   RequeueOrphanedRuns, with DueJobs, FailUnreadableJob and DeleteJob. Store/Runs/Lifecycle is the
--   life of one run as a state machine of its own, with a move for each of those operations.
-- - Notify/Worker: the queue of internal/notify/worker.go. Steps is what happens to it, in any order
--   and by any process; Reach, Order and GiveUp hold what follows.
-- - Runner: internal/jobs/runner.go. Runner/Tick is Tick, Runner/Finish is finish, Runner/Reap is
--   ReapOnce with inFlight, Runner/Redact is redact.
-- - Tests: the theorems applied to concrete stores.
--
-- What the model takes for granted. A call of the store is a function of the store: transactions are
-- atomic, one at a time, and what the database driver may fail with is left out. The backend is
-- SQLite's; Postgres runs the same statements in its dialect. Ids are natural numbers that grow with
-- each row. The wall clock of a statement is an argument. JSON is represented by the value that it
-- encodes, and a heartbeat's name is taken not to be a JSON object. A store stands for what is read
-- back from it; times keep their nanoseconds.
--
-- Parameters stand for what is not this repository's code or not modelled: the next time of a cron
-- expression (robfig/cron; `Later` says that it comes after the time given), which rows of jobs
-- cannot be read (their columns do not decode) and the text about them, the executor's backoff, the text of a reap, and for finish
-- a `World` that says of each attempt whether the call of the store answers, fails, or fails after it
-- committed, when the context is cancelled, and what other processes do in between.
--
-- Fuel: finish has four attempts, one up front and one after each of its three pauses; the search for
-- the matches of a secret has one step more than the bytes of the text, and moves on by a byte at
-- least; the search of a capture for a secret across its end has as many steps as there are bytes
-- up to it. Every other loop of the code that is modelled runs over a list or counts attempts.
--
-- Not modelled: the command line, the HTTP server, the executor with its probes and drills, the loop
-- of the delivery worker (the kit's) and its sending, the rendering of messages, configuration files,
-- imports, users, tokens and secrets, which are input and output, third-party libraries, or plain
-- reads and writes of a table.
pub mod Prelude
pub mod Clock
pub mod Core
pub mod Event
pub mod Heartbeat
pub mod Notify
pub mod Jobs
pub mod Store
pub mod Runner
pub mod Tests
