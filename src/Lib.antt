-- ===== src/Lib.antt =====
-- A lightweight task scheduler: a server keeps tasks in SQLite, spawns children of cron definitions,
-- and hands tasks to workers that poll it over HTTP, run them in a shell and report the outcome.
--
-- Parts and files:
--   Model         internal/model/task.go: the data that server and worker exchange, and the JSON of a task
--     as an object (Json).
--   Store         internal/store/store.go. Db is the table: rows in the order of insertion,
--     and the last id given out. A method of Store is a computation that reads a list of faults,
--     one for each statement, BeginTx and Commit, and ends in a result or an error. Tasks has
--     Create, Get and Delete; Control has SetEnabled, ListCron, StopAllCron, StopTask,
--     ResumeTask, GetStopList and ClearWorker; Claim has ClaimPending; Report has ReportResult;
--     Query has buildWhere, List and Count. Rules has the proof rules for every list of faults,
--     and each Effects the theorem about an operation; Control/Intents says what its operations
--     are to do to a row, Report/Outcomes what a report means for the row. Life says what may
--     happen to one row, relates whole runs to it (one operation by Moves of Evolution, a run by
--     Reach), and counts retries and claims (Retries, Requeues, Attempts, Exhaustion). Schema
--     has migrate, on the columns and indexes (Upgrades), and New with secureDB (Opening).
--   Lock          internal/lock/memory.go: Acquire and Release (Leases), and the steps of two
--     goroutines inside Acquire (Race).
--   Scheduler     internal/server/scheduler.go: spawn (Spawns), resync (Entries), ResyncNow and the
--     rounds of the loop of Start (Pauses), over Store and Lock.
--   Server        internal/server/server.go: workerRegistry (Registry), authentication (Auth),
--     the handlers (Handlers, Pulls), the routes with the limiter's answer as an input (Routes,
--     and Actions for the requests about one task), and the whole middleware that register
--     mounts (Gate), with rateLimiter (Limiter) and auditMiddleware (Audit). Refusals is about
--     clients without the token. Lifecycle has New, Start and Close. Runs relates sequences of
--     requests to runs of the store.
--   Server.Dashboard  internal/server/ui.go: itoa and truncate (Texts), buildPageItems (Bar), and what
--     renderUI and renderTaskDetail give to their templates (Views).
--   Server.Page   internal/server/ui_template.go: the list's page in the browser. Script has
--     what it takes of the browser, Headers the Authorization header of its requests. Html has
--     escapeHtml, Rows the rows and buttons of the template and of the script, Bar and Board
--     what the script renders of an answer, Browse its controls and requests. Query, Origins and
--     Refresh are about the list that it asks for, Paths and Offers about the buttons, and Lost
--     about pages that were loaded empty. Form has the checks and the payload of the form of a
--     new task, and Submission what createTask makes of it.
--   Worker        internal/worker/pool.go: the map of tasks in flight and the stop list (Active), the
--     command filter, exec, the timeout and the report (Outcomes). Pool has NewPool and the
--     goroutines of Start as a step relation; Client has the requests of fetch, report and heartbeat.
--   Exchange      a worker and a server together: what a worker's requests do at the server (Arrivals),
--     and the way of a task from a poll to its outcome in the table (Cycle).
--   Command       main.go and internal/logger/logger.go: the modes, isPublicAddr, and runServer and
--     runWorker as lists of their actions (Starts).
--   Tests         a choice of the oldest row, tables, requests and runs at which the theorems are
--     applied.
--
-- How the code is modelled. A time is the number of nanoseconds since Go's zero time, and each call of
-- time.Now() is an argument. The connection pool holds one connection, so operations of the store
-- follow each other; a transaction that fails restores the table. An int or a Duration wraps at 64
-- bits. The request that a handler sees has its query, header and bodies already decoded. Parameters
-- stand for code outside the repository: `oldest` is SQLite's choice for `ORDER BY next_run_at ASC
-- LIMIT 1` (IsOldest says what SQL promises of it), `like` is LIKE, `cron_parses` says which
-- expressions the cron library accepts, `format` is time.Format, `shell` is what /bin/sh makes of
-- a command, `compile` is regexp.Compile, and Float is what the rate limiter does with a float64: its
-- laws are monotone rounding (IsRounding) and exact arithmetic on integers up to 2 ^ 53 (IsExact), for
-- values that are not NaN. All recursion is structural; `fill`, the loop of itoa, is bounded by the 20
-- places of the code's own buffer, and running out of them is the code's panic.
--
-- In Exchange the network is a parameter too: IsHttp says what net/http and encoding/json do with the
-- requests, for texts that need no escapes. In Json, `format` and `parse` are package time's, as IsRfc3339
-- says. In Command, the parsers of package net and the outcomes of the calls are inputs.
--
-- In Page, `single_line` is what a text input makes of its value, and the browser and net/http are taken to
-- hand over each pair of a query as it is. JavaScript's numbers, how encoding/json stores them in an int,
-- and what fetch makes of a header are the parameter Browser; IsBrowser says that integers up to 2 ^ 53
-- are exact and that a header of visible ASCII arrives as it is. The loop over the page buttons has fuel
-- for six tests, which the theorem on it shows to be enough. The id that the template hands to
-- taskAction is the field ID of taskRow, a Go string: html/template writes a string into an attribute
-- of JavaScript as a quoted string, so this id is never a number there. The ids that renderRow writes are.
--
-- Not modelled: the execution of the templates by html/template, their styles, the detail page, and of
-- the list's page the table of workers, how the form of a new task opens and marks its errors, the toasts and the
-- automatic refresh; the
-- text of JSON and of log lines; the timers that call fetch, heartbeat and cleanup; the flags' own
-- parser; and the shell scripts. These lay out fields, start a function at intervals, or belong to a
-- library.
pub mod Base
pub mod Model
pub mod Store
pub mod Lock
pub mod Scheduler
pub mod Server
pub mod Worker
pub mod Exchange
pub mod Command
pub mod Tests
