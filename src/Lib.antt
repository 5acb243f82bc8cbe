-- ===== src/Lib.antt =====
-- Arena, a judge for programming contests: a verification library of its Go code.
--
-- A participant's source goes through the API (internal/api), which stores it, inserts a row into
-- Postgres (internal/adapters/postgres) and publishes a job to a Redis stream
-- (internal/adapters/redisq). A runner (cmd/runner) takes the job, judges it (internal/judge) in a
-- sandbox (internal/adapters/sandbox, with cmd/boxrun inside), with the manifest of its language
-- (internal/langs), a checker (internal/checker) and the types and rules of internal/core, and
-- reports a result to the API, which saves it, fills the verdict cache and moves the leaderboard in
-- Redis. A reconciler in the API looks for submissions whose message was lost.
--
-- Parts and files:
--   Common: names of the libraries, ordered and filtered lists, and the signed 64-bit integers
--     (`wrap64` is Go's wrap-around).
--   Core: internal/core. Verdict (verdict.go), Limits (limits.go), Job, Classify and Aggregate
--     (job.go), Scoring (scoring.go).
--   Checker: internal/checker/token.go and float.go. Scanner is bufio.Scanner with ScanWords and
--     its buffer of 16 MiB, Compare the loop over the tokens of two files, Token, Exact and Float
--     the checkers.
--   Langs: internal/langs. Manifest (manifest.go), Registry (registry.go).
--   Redis: internal/adapters/redisq. Leaderboard (leaderboard.go) and RateLimit (ratelimit.go),
--     with their Lua scripts.
--   Queue: internal/adapters/redisq/queue.go. Streams is what it asks of Redis, Once is about every
--     sequence of calls by any runners, Reclaimed about messages whose runner is gone.
--   Store: internal/adapters/postgres/store.go, the statements on submissions, test rows and the
--     verdict cache. Rows has the lemmas on rows, Final the steps of the tables. Standings is
--     ContestStats, with handleRebuild of internal/api/handlers_auth.go, which feeds the leaderboard.
--   Blob: internal/adapters/blob/local.go. Paths is where a key leads, Files what is read back.
--   Config: internal/config/config.go.
--   Sandbox: internal/adapters/sandbox/docker.go and process.go (Docker), and cmd/boxrun/main.go,
--     which runs inside the container, once as the parent and once as its child (Boxrun, Meta).
--     Numbers is what both print and parse, Envelope carries the limits from one to the other, in
--     arguments and in the environment, Verdicts a death to its verdict.
--   Judge: internal/judge/judge.go. Box is the workspace, Sanitize the text that is let out, Test
--     one test (runOne), Run the loop and the whole job.
--   Runner: cmd/runner/main.go. The module itself handles a delivery, Report tells the server,
--     Slots is the loop; Once and Finishes follow a delivery through the server of Api and Queue.
--   Api: internal/api. World is what the handlers share, Result is handlers_internal.go, Submit is
--     handleSubmit of handlers_submissions.go, Pages its two handlers that read, Auth is auth.go with
--     the registration and the login of handlers_auth.go, Reconciler is reconciler.go.
-- A definition has the name of its function or type in snake case; a longer function is split at
-- its early returns and loops, and the parts stand above it. `Examples` modules hold tests.
--
-- State is passed explicitly: a `Db` is the lists of the rows of three tables, a `Board` the hashes
-- and the sorted set of one contest, a `World` all that the handlers read and write, and a handler
-- returns the new world and its answer. An error is a value. Postgres checks the texts of a report
-- where it updates a row. Two statements at once are two steps, one behind the other, as Postgres
-- and Redis run them. A runner's request reaches the server or not, and its answer comes back or
-- not: a link says so, try by try, and whether the context lasts until the message is acknowledged.
--
-- Parameters stand for what the repository does not contain: the float64 of a multiplier
-- (`Multiplier`), SHA-256, the order of ZREVRANGE, the generated ids and times, the JSON codec and
-- time.ParseDuration, and whether a service answers. Redis streams are a record of commands with
-- the documented laws (`IsRedis`), JSON web tokens and bcrypt another (`IsCrypto`), and the tests
-- give both an instance. The kernel under the box runner is the limits that it accepts and the wait
-- status and usage that it reports; the judge takes the sandbox, the blob store and the choice of a
-- checker as functions. A time is a number of nanoseconds, in a web token of seconds.
--
-- Loops are structural recursion, but for three. The loop over tokens runs on fuel: one more than
-- the bytes of both files, which is enough because every round takes at least one byte of each.
-- Decimal digits are written with fuel 20, enough below 10 ^ 20 and so for 64 bits. The bits of two
-- bytes are compared with fuel 8. The loop of reports has the four tries of the source.
--
-- Not modelled: the in-flight lock, which nothing acquires; the map of checkers by name; the queries
-- of the catalogue, which only read; and the parts that are input and output or glue: the start-up of the
-- programs, routing and middleware, server-sent events and the event bus, metrics, migrations, the
-- seeder, the instruction counter, the system calls of the box runner, and the calls of Docker that
-- prepare, run and sweep containers. The pauses and the interleaving of the goroutines inside one
-- runner are left out too: its calls are taken one at a time.
pub mod Common
pub mod Core
pub mod Checker
pub mod Redis
pub mod Store
pub mod Langs
pub mod Queue
pub mod Judge
pub mod Api
pub mod Runner
pub mod Sandbox
pub mod Config
pub mod Blob
