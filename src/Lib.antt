-- ===== src/Lib.antt =====
-- Verification of the backend: the routines of actions, their scheduling and their execution, and the
-- users and their tokens.
--
-- A routine is a row with a schedule and an ordered list of actions. Requests edit routines and
-- actions in a database session; the scheduler keeps one job for each active routine with a
-- schedule; a job, or a request, queues an execution; one worker claims the executions that are due
-- and runs the actions of their routines. Users sign in with Google and hold an access token, which
-- every request shows, and a refresh token, which is exchanged for new tokens; Redis keeps the
-- refresh tokens, the states of sign-ins under way, and the access tokens that are revoked.
--
-- Domain            backend/domain_types.py: the literal types, and JSON objects as association lists
-- Models            backend/models.py: a record for each row of the schema
-- Env               what comes from outside: the server, the clock, the crontab parser, conversions
-- Session           backend/database.py: committed and working tables, jobs and effects in a `World`;
--                   an operation is a function `World → Result A × World`
-- Session.Commits   rules for what an operation leaves committed, and for what holds if it returns
-- Schemas           backend/schemas.py: the payloads and their validators
-- Scheduler         backend/scheduler.py: `register_routine` and `unregister_routine`
-- Routines          backend/routine_services.py: the operations on routines; the children show how
--                   they keep the table and the scheduler's jobs in step
-- Actions           backend/routine_services.py: the operations on actions; the children show how
--                   they keep the positions 1 to n, and what they do to a routine's sequence
-- Executor          backend/execution_engine.py: `RoutineExecutor`
-- Queue             backend/execution_engine.py: `ExecutionQueue`, and the operations that queue
-- Queries           backend/routine_services.py: the queries of executions
-- Routes            backend/routine_routes.py: the requests, with the users and rows that they depend on
-- Startup           backend/main.py: `lifespan`, which registers the active routines
-- Identity          backend/config.py, and what authentication takes from outside: the fate of each
--                   Redis command, random draws, signatures, bcrypt, Google's endpoints
-- Redis             the commands of backend/redis_client.py's client that the program calls
-- Redis.Gone        rules for what keeps a key out of the store
-- Security          backend/security.py and backend/auth_routes.py: access tokens
-- GoogleOauth       backend/google_oauth.py: states, verifiers and Google's answers
-- UserRoutes        backend/user_routes.py: sign-in, refresh, and the current user
-- Logout            backend/user_routes.py: `logout`, and the list of users
-- Authentication    the requests of users as steps, and the worlds that they reach
-- Samples           small tables, and the theorems at them
--
-- The names of the definitions are those of the functions and types of the source. A statement of
-- the server may fail at any point (`Env.fails`), and may return rows with equal sort keys in any
-- order; keys that the server draws are fresh. A commit checks the foreign keys, the ids and emails
-- of the users, and the deferred uniqueness of positions; when a routine is deleted, they are checked
-- once more when its actions are gone and their action executions are not, since SQLAlchemy deletes
-- in that order. Objects that a session holds are written through to the working tables.
-- Loops over lists are structural; the worker's endless loop is its first turns, for any number of
-- them, and the decimal text of a number has its value as fuel, plus one, which its digits never
-- exceed. A timestamp is a number of microseconds, a float is its bits.
--
-- A Redis command takes effect and answers, is refused, or takes effect and its answer is lost; an
-- entry is there until its time. A token is a text that the outside encodes and decodes: it carries
-- its subject, its `jti` and its expiry in seconds, and is accepted before it. Random draws are
-- numbered, and a theorem says which draws must differ.
--
-- Not modelled: logging, metrics, rate limits and the rest of the wiring of the application
-- (backend/main.py, backend/rate_limiter.py), the URL of Google's consent screen, the frontend, and
-- requests that interleave with each other inside of one transaction.
mod Prelude
pub mod Domain
pub mod Models
pub mod Schemas
pub mod Env
pub mod Session
pub mod Identity
pub mod Redis
pub mod Security
pub mod GoogleOauth
pub mod UserRoutes
pub mod Logout
pub mod Authentication
pub mod Scheduler
pub mod Routines
pub mod Actions
pub mod Executor
pub mod Queue
pub mod Queries
pub mod Routes
pub mod Startup
mod Samples
