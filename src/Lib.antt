-- ===== src/Lib.antt =====
-- A calculator of arithmetic expressions as three services. The Agent (HTTP) registers users and
-- passes their expressions on; the Orchestrator (gRPC) stores an expression as a task, compiles it
-- and evaluates its tree, each operation by a call of a Worker (gRPC); the tasks and the users are in
-- PostgreSQL. A submission is answered with the id of a task at once, the evaluation runs in a
-- goroutine of its own, and its end is read by asking for the task.
--
-- Which file models what, by the paths of the repository:
--   Prelude, Prelude/...            the names, tests and lemmas that all share; `%d` in Prelude/Decimal,
--                                   what is used of packages regexp and strings in Prelude/Texts
--   Errors                          Go's error values: errors.New, fmt.Errorf with %w, errors.Is
--   Grpc                            package status, as a record of operations and one law
--   Float64                         float64, as a record of operations with no laws
--   Worker/Calculator               internal/worker/service/calculator.go (Calculate)
--   Worker/Server                   internal/worker/grpc_handler/worker_server.go (CalculateOperation)
--   Worker/Operators, Worker/Calculations, Worker/Answers   the operators as an enumeration, and what
--                                   is shown of the two
--   Database, Database/Tables       the tables of migrations/000001_init.sql and the SQL statements
--   Orchestrator/Ast                the nodes of expr-lang, as far as Evaluate tells them apart
--   Orchestrator/Evaluator          internal/orchestrator/service/evaluator.go (Evaluate, callWorker);
--                                   Join: the goroutines and channels of a binary node; Meaning,
--                                   Complete, Failures, Order: what is shown of it
--   Orchestrator/Repository         internal/orchestrator/repository/task_postgres.go; Rows, Keys and
--                                   Listing: what is shown of it
--   Orchestrator/Messages           the messages of proto/gen/orchestrator/orchestrator.pb.go
--   Orchestrator/Server             internal/orchestrator/grpc_handler/orchestrator_server.go; Submit,
--                                   Rejections, Growth, Endings, Details: what is shown of it
--   Agent/Hasher                    internal/pkg/hasher/bcrypt.go
--   Agent/Tokens                    internal/pkg/jwtauth/jwtauth.go
--   Agent/Users                     internal/agent/repository/user_postgres.go; Rows: what is shown of it
--   Agent/Auth                      internal/agent/service/auth.go; Form, Laws, Refusals: what is
--                                   shown of it
--   Agent/Auth/Handlers             internal/agent/handler/auth.go; Statuses: what is shown of it
--   Agent/Tasks                     internal/agent/service/task.go
--   Agent/Tasks/Handlers            internal/agent/handler/task.go; Agent/Tasks/Laws, Rejections: what is shown
--   Agent/Middleware                internal/agent/middleware/auth.go; Laws: what is shown of it
--   Agent/App                       internal/agent/app/app.go: the providers that test the configuration,
--                                   the group of routes behind the middleware; Laws, Listing and Secrets:
--                                   what is shown of them
--   Agent/Json                      the JSON of the bodies, by the tags of internal/agent/service/task.go and
--                                   internal/agent/handler
--   Agent/Docs                      docs/agent_api/docs.go; Matching, Responses: when an answer is as documented
--   Agent/Api                       RegisterRoutes of internal/agent/handler and their groups; Answers,
--                                   Documented: what is shown of all routes
--   Start                           the constructors that internal/*/app/app.go give to fx, with those of
--                                   internal/agent/client and internal/orchestrator/client; Order, Assembly:
--                                   what is shown of the start; Run: how the three processes end, with
--                                   internal/pkg/logger/logger.go
--   Pool                            internal/pkg/postgres/postgres.go
--   Config, Config/...              the Loads of internal/agent/config, internal/orchestrator/config and
--                                   internal/worker/config
--   Shutdown                        internal/pkg/shutdown/shutdown.go; Laws, Termination: what is shown of it
--   System                          the Orchestrator with all its goroutines and the Agent's registrations, as
--                                   steps; Running, Sound, Steps, Invariant: what always holds; Phases, Lifecycle:
--                                   the life of a task; Tasks, Settled, Endings: where tasks end;
--                                   Undisturbed, Arrival, Kept, Completion: tasks that nothing disturbs
--   .../Tests, .../Sample           runs at concrete inputs, and the values they use
--
-- How state and operations correspond to the code. The database is a record of two lists of rows; a
-- statement takes it and gives the database after it with Go's result. `Call` says what the database
-- decides on its own for a statement: an error (a fault may come after the statement has taken
-- effect), the new id and the time. A constraint that an insertion violates is an error as well. What
-- a goroutine is started with is part of the answer of the function that starts it (`Submitted`), and
-- `start_evaluation` takes as `meanwhile` whatever the rest of the system does to the database while
-- the tree is evaluated. `Surroundings` gives, for each node, what a run of Evaluate does not decide:
-- whether the context is done there, which operand's error is sent first, the id of the operation and
-- the answer of the client; so a statement for all surroundings is one for all schedules, timeouts and
-- failures of the network. Join derives the one choice that is left to a binary node from the steps of
-- its two goroutines. `Sleep` gives for each delay the error that cuts the wait short, if one does.
--
-- System puts the operations together. A state is the database and the goroutines of startEvaluation
-- that have not ended, each with where it stands (`Stage`); a step is one statement to the database
-- with the code up to the next one: a submission, a registration, the first write of an evaluation
-- (with or without an error), its last write after a success of the first one or after a failure, or
-- the end of the process, which drops the goroutines. Any order of the steps is a run, and the
-- surroundings of an evaluation are given by the id of its task. Handlers that only read the tables
-- are no steps: they are functions of the database of a state. Shutdown has the same form, with the
-- signal, the return of the HTTP server's stop and the passing of the timeout as steps. So has Start: a
-- step is the call of a constructor, which gives its value or an error, or that of the invoked function,
-- in any order that has the values each of them takes.
--
-- Parameters, which stand for code that is not in the repository: `Rpc` (package status, with the
-- law that FromError reads what Error made), `Arith` (float64), `Libraries` (google/uuid, expr-lang,
-- the formatting of times; with the law that a printed id is parsed back), `Bcrypt` (a password
-- matches the hash made from it), `Jwt` (a signed token is read back as valid between its two
-- times), `Client` (the Agent's client of the Orchestrator, with the reading of times), `Pgxpool`
-- (the pool, its pings and the waits), the JSON text of a time, `Zap` (the levels of logging and the
-- building of a logger) and `Viper` (the environment and what viper reads, given the defaults and
-- whether the file .env is read). What a theorem assumes of the network or of another service is
-- among its hypotheses by name: `IsHonest` (a response without an error was given by the worker's
-- CalculateOperation), `IsReliable` (nothing fails), `IsRelaying` (a refusal of the worker arrives),
-- `IsForwarding` (a task was given by the Orchestrator's GetTaskDetails).
--
-- Ids and times are natural numbers. Loops are structural recursion, that of NewPool on its five
-- attempts; the one fuel is that of the digits in Prelude/Decimal, one more than the number, which
-- has fewer digits than that.
--
-- Not modelled: the lines that are logged, and so the logging of requests in internal/*/app; the serving
-- of the ports and the recovery from panics in internal/*/app and cmd; the connections of the gRPC clients, which are those
-- of the gRPC library; the generated code but for the fields of the messages; the texts of the
-- documentation; the frontend, the tests and the mocks.
pub mod Agent
pub mod Config
pub mod Database
pub mod Errors
pub mod Float64
pub mod Grpc
pub mod Orchestrator
pub mod Pool
pub mod Prelude
pub mod Shutdown
pub mod Start
pub mod System
pub mod Worker
