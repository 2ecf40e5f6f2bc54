-- ===== src/Lib.antt =====
-- The relay of appunvs (Go, relay/): a hub that fans messages out to the connections of a user, a
-- store of boxes, bundles, turns, plans and subscriptions in SQLite, the service that builds and
-- publishes boxes, and the gates of billing and usage. Paths are from the repository's root.
--
-- Prelude        Boolean tests, lists as tables of rows (select, find, update_where, upsert), texts
--                as lists of character codes, integers where a cap may be -1
-- Pb             relay/internal/pb: the enums with their names, Message and its JSON shape
-- Store          relay/internal/store: Tables are the rows; Action is the language of the DAOs, a
--                run over an environment and a world with a result; then a module for each DAO:
--                Boxes (boxes.go), Turns (turns.go), Billing (billing.go), Schema (schema.go),
--                Devices (devices.go), Users (users.go), ApiKeys (apikeys.go); Transaction has what
--                BeginTx, Commit and Rollback do
-- Calendar       what the code uses of Go's package time in UTC, from 1970 on
-- Usage          relay/internal/usage: Plans (plans.go) and Quota (quota.go)
-- Box            relay/internal/box: Gates (quota.go) and Service (service.go)
-- Hub            relay/internal/hub: the hub and its connections (hub.go, conn.go); Race has the
--                interleavings, CatchUp the replay of relay/internal/handler/ws.go
-- Billing        relay/internal/billing: Gate (ws_gate.go), Service (billing.go); and Webhook, the
--                handler of relay/internal/handler/billing.go
-- Ws             relay/internal/handler/ws.go behind the upgrade: makeRead over the hub, the schema, the
--                gate, and Next and Append of relay/internal/sequencer and relay/internal/stream;
--                Validate has validateAgainstSchema
-- Pairing        relay/internal/pairing/pairing.go: Issue and Claim over a Redis of its own
-- Auth           relay/internal/auth: Jwt (jwt.go) and Accounts, the handlers of account.go; and
--                Bearer, the middleware of relay/internal/apikey/apikey.go
-- Workspace      relay/internal/workspace/workspace.go: Path has normalizePath, Tree has
--                writeTreeRecursive, Repo the operations of a repository
-- Sandbox        the checks of paths of relay/internal/sandbox/docker.go
-- Agent          relay/internal/ai: Stream and Run are runOne and Run of openai_engine.go, Tools is
--                RunTool of tools.go
-- Api            Schema, the handlers of relay/internal/handler/schema.go over the schema store, the
--                hub and Redis; Keys, those of relay/internal/handler/apikey.go
-- Tests          the theorems at concrete inputs
--
-- How they interact: a handler's call of a DAO is an Action. Each statement and each reading of the
-- clock takes a place in the run, and the environment says for each place what the clock shows and
-- whether the driver refuses the statement there, so every theorem is about every such driver. A
-- write is atomic, as a statement of SQLite is. The box service takes the builder, the artifact
-- store, the workspace, the events and the random source as a record of actions (Deps); a theorem
-- that needs them not to touch the tables says so (IsCalm). The webhook takes the check of the
-- signature as a function. In the hub a connection is a number, its channel a queue of at
-- most 64 messages with a flag for closed, and a panic is a value. Ws puts the hub, the tables and
-- the state of Redis side by side; INCR and XADD are a record of functions (Redis), and what their
-- documentation says of them is another (Counts).
--
-- bcrypt, SHA-256, base64, the random ids and the JWT library are parameters of Users, ApiKeys and
-- Jwt (Accounts, Keys, Jwt), and go-git is one of Repo (Git), a record of functions over a state of
-- the repository. What their documentation promises is a record of its own that a theorem takes
-- (Lawful, KeepsTrees, Documented): a signed token parses to its claims while it is current, a
-- password matches its hash, a git object reads back under its hash and is never changed, and go-git
-- refuses to write a tree whose entries are out of git's order. Git finds an entry of a tree by its
-- name alone (git_at).
-- Names that the code looks into (paths, emails, secrets, tokens) are lists of characters; letters
-- outside ASCII have no case.
--
-- The provider's answers, the JSON of messages and the tools' results are parameters of Run (Engine,
-- ToolDeps). Whether the context is done when the n-th frame is offered is a function of n, so a
-- theorem about a turn is about every reader of its frames. The loop of Run is recursion on the
-- iterations that are left, at most the engine's cap.
--
-- Numbers are natural numbers: times are unix milliseconds (nanoseconds in Pairing), counts and sizes
-- are not negative; the
-- int64 counters are taken not to overflow. The caps of a plan are integers. The one fuel is that
-- of the calendar, which takes a year off a day at each round: a day has fewer years than days.
--
-- Not modelled: sockets and the loops that read and write them, SQLite's files and migrations, the
-- engines of Anthropic and Gemini, Docker, object storage, the directories of the repositories and
-- the files of the RSA keys, the box events, and, so far, the HTTP handlers other than those of the
-- accounts, the keys, the schema, the billing webhook and the websocket.
pub mod Prelude
pub mod Pb
pub mod Store
pub mod Calendar
pub mod Usage
pub mod Billing
pub mod Hub
pub mod Pairing
pub mod Ws
pub mod Sandbox
pub mod Workspace
pub mod Auth
pub mod Agent
pub mod Api
pub mod Tests
pub mod Box
