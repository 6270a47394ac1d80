-- ===== src/Lib.antt =====
-- cloglog: a board of projects, epics, features and tasks for coding agents in git worktrees, with
-- the review turns of their pull requests. The development models the services and the repositories
-- of its backend, and shows what the callers rely on.
--
-- The program's parts and how they interact. The board (src/board) keeps the projects, their epics,
-- features and tasks, and the dependencies between them. The agents' service (src/agent) registers
-- worktrees, keeps their sessions alive, and moves tasks through the board: it asks the board for
-- what blocks a task, and writes tasks and roll-ups through the board's repository. The review
-- context (src/review) keeps one row for each turn of an automatic review, and the gateway shows on
-- the board the status that is derived from them. The gateway (src/gateway) takes the webhooks of
-- GitHub: it tells the agents of what happens to their pull requests, and starts the reviews, each
-- in a source of the pull request's repository. It also checks the credentials of every request.
-- The services publish events on one bus.
--
-- Where what is modelled:
-- Base: tests on numbers and texts, lists, tables (the rows that a query selects, the row that a
-- statement changes), sorting by a number (`ORDER BY`), and `str.split` with `str.join` (Base.Split).
-- Models: the rows of the tables (src/board/models.py, src/agent/models.py, src/review/models.py,
-- src/document/models.py), the events (src/shared/events.py), and the `World` of a service call:
-- the tables, the events and inbox lines so far, and what the environment supplies.
-- Action: the monad of state and exceptions in which the services are written. A statement commits
-- when it runs, so the state after a raise is what was written before it.
-- Graph: `has_cycle` and `has_task_cycle` (src/board/services.py) as one search over the rows of a
-- dependency table, with walks as its specification. The search runs on fuel: one round for each row
-- and one for the start are enough, since each row is pushed at most once (Graph.Ends).
-- Board.Repository, Board.Service, Board.Templates: src/board/repository.py, src/board/services.py,
-- src/board/templates.py; Board.Service.Projects has the API keys of projects, and Attaching the document
-- of a review. Board.Acyclic, Attached, Rollup, Blockers, Import and Reorder have theorems.
-- Agent.Repository, Agent.Service: src/agent/repository.py and src/agent/services.py, the service
-- in the modules Connecting (registration, shutdown, heartbeat), Pipeline, TaskLife, Leaving and
-- Queries. Agent.Start, Status, Sessions, Calls, TaskCalls, Renewal, Register, History, Timeouts, Leave, Pipeline and
-- Scope have the theorems; Agent.History is the relation of calls in any order.
-- Review.Repository: src/review/repository.py. Review.History is the relation of its statements in
-- any order; Claims, Posts, Outcomes, Codex and Sessions have the theorems.
-- Document: src/document/repository.py and src/document/routes.py, with the theorem in Document.Listing.
-- Gateway: Outcome is what a handler of a request does (it answers, raises an exception of HTTP or of a
-- service, and changes the tables); Auth has the dependencies of src/gateway/auth.py, Access the
-- middleware of src/gateway/app.py, and Credentials what a dependency that lets a request pass has
-- seen. SHA-256, `hmac.compare_digest` and the reading of a UUID are parameters. Agent.Routes has the
-- handlers of src/agent/routes.py, and Agent.RouteAccess their theorem.
-- Events.Bus: the event bus of src/shared/events.py, with the JSON codec as a parameter;
-- Events.Delivery has its theorems. The services of the model only hand events over, in order.
-- ReviewLoop: src/gateway/review_loop.py. Findings has the results and the consensus, Prompt the
-- preamble with the earlier turns, Setting, Run.Turn, Run.Stage and Run the run of a stage. What
-- the reviewer answers or that it raises, whether GitHub takes a review, and the statements that
-- other handlers make while the reviewer runs are in the record `Outside`. The loop is a recursion
-- on the turns that are left. Turns, Statements, Bounds, Returns, Resume, Sessions, Reposts and
-- Learnings have the theorems.
-- ReviewEngine: src/gateway/review_engine.py. RateLimiter, Filter (the sections of a diff that are
-- reviewed), Diff (the lines that a comment can stand at), Comments (what is posted, and read back),
-- SourceRoot (the source that a pull request is reviewed against), ReviewPr (the review of one pull
-- request, around the loop), and Retries (the handler of an event and its retries, each up to its next
-- `await`); SkipComments is src/gateway/review_skip_comments.py. What git and the file system answer is
-- in the record `Host`, and what GitHub and the reviewers do in `Elsewhere`. Window, Posting, Counting,
-- Reservations, Filtered, Sources, Guarded, Cleanup and Suppression have the theorems.
-- Models.JsonValues: JSON and `strip_nul` (src/shared/text.py), with its theorem in Models.NulFree.
-- Board.RepoUrl: src/board/repo_url.py. The loop runs on the length of the text as fuel, since a round
-- takes a character at least.
-- Webhook.Requests: src/gateway/webhook.py; the hash by which a request is signed and the decoding of
-- its body are parameters. Webhook.Authentic has the theorem.
-- Webhook.Messages, Webhook.Consumers: src/gateway/webhook_consumers.py, with the messages and the
-- routing of events; Webhook.Writes and Webhook.Routing have the theorems.
-- Webhook.Dispatcher: src/gateway/webhook_dispatcher.py; the order in which Python lists a set, on
-- which the eviction depends, is a parameter. Webhook.Deliveries has its theorem.
-- Tests: a sample board and table, and the theorems at them.
--
-- How state and operations correspond. A method of a repository or a service is a definition of the
-- same name; leading underscores go, and where two classes share a name the repository's ends in
-- `_row`. A table is a list of rows in the order of insertion. UUIDs are only compared, so they are
-- numbers; times are numbers. Keyword arguments that set columns are a function on the row. Python
-- exceptions are values of `Error`, with the reason of a ValueError but not its text.
--
-- What is not modelled, and why: log lines; the routes of the board and of the review,
-- which translate the answers of their services; the command line and the streams, which are glue; what
-- FastAPI and pydantic do with the bodies of requests and answers; the parts of the review engine that run
-- subprocesses, check out the code and parse a reviewer's output; the hash of API keys and tokens, which
-- is a parameter. Two requests at once are not interleaved inside a call: each call runs by itself.
pub mod Base
pub mod Models
pub mod Action
pub mod Graph
pub mod Board
pub mod Document
pub mod Agent
pub mod Review
pub mod Events
pub mod ReviewEngine
pub mod ReviewLoop
pub mod Webhook
pub mod Gateway
pub mod Tests
