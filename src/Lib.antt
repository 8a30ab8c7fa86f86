-- ===== src/Lib.antt =====
-- Verification of fastapi-starter: users with registration, login, rotating refresh tokens, logout
-- and change of the password, behind an HTTP interface.
--
-- A request enters through the middleware and an endpoint, which calls one use case; the use case
-- works on repositories over one database session, asks the clock, `uuid4`, the password hasher and
-- the token service, and ends in a commit or an error; the session is closed at the end.
--
-- How the code is modelled. A handler is a function in the monad of Exec.antt: it takes a state and
-- gives a result or an error beside the state, so what was written before a raise stays written.
-- The state is `World` of Ports.antt: the session, the number of calls of the outside, the runs of
-- the password hash and the log of the delivered events. The outside (clock, `uuid4`, hasher, JWT
-- library, Redis, `str.lower`, `repr`, base64, the text of a UUID) is a parameter, often a function
-- of the number of the call, so no two answers are assumed to be equal or different. A UUID is a
-- natural number without an upper bound; where a theorem needs new draws, that is its hypothesis.
--
--   Prelude, Text/Regex   shared names; the fragment of `re` that the patterns of the code use
--   Domain/*              app/domain: errors, value objects, the user aggregate, token records
--   Exec, Ports           the monad; app/application/shared/interfaces.py
--   Database/*            app/infrastructure/database: Session.antt is the interface of SQLAlchemy's
--                         AsyncSession with its documented laws and the constraints of
--                         migrations/versions; mappers, repositories and the unit of work use it;
--                         Memory.antt is a session that keeps the laws, for the tests;
--                         Shared.antt is one that records the statements that a commit sends, to be
--                         applied to rows that other requests have changed; Migrations.antt is
--                         migrations/versions over the statements of Schema.antt, its
--                         Environment.antt the URL in migrations/env.py, its Runs.antt the runs
--                         there, and Declared.antt the tables of the mapped classes; Engine.antt is
--                         session.py; Faults.antt is about what the repositories raise, and
--                         TokenRepository/Contract.antt is the port in app/domain/auth/repositories.py
--   Messaging             app/infrastructure/messaging/in_process.py, app/ioc/providers/events.py
--   Security              app/infrastructure/security/jwt_service.py over PyJWT
--   RateLimit             app/infrastructure/cache/rate_limiter.py over Redis, and
--                         app/api/dependencies/rate_limit.py
--   Auth/*                app/application/auth/commands: Login, Refresh, Logout;
--                         app/api/dependencies/auth.py: CurrentUser; Kinds is about both
--   Users/*               app/application/users/commands: CreateUser, ChangePassword
--   Queries               app/application/users/queries and the query service
--   Requests              one session per request (app/ioc/providers/database.py), histories, and in
--                         Interleaved.antt requests that overlap
--   Accounts, Families    the abstract view: how users and token families may change in one request;
--                         Families/Refines.antt says what it means that a handler refines a step
--   Seed                  scripts/seed.py
--   Ioc                   app/ioc: the bindings of the providers and the container of them
--   Config                app/core/config.py and the documentation paths of app/main.py
--   Logging, Telemetry    app/core/logging.py, app/core/telemetry
--   Api/*                 app/api: Problems (exception_handlers.py), Middleware (the parts of
--                         middleware.py), Layers (its classes as ASGI applications around another
--                         one), Routes (v1/router.py and what the schema documents), Endpoints
--                         (v1/auth and v1/users), Health (v1/health)
--   Main                  the factory of app/main.py
--   Tests/*               concrete inputs
--
-- Recursion is on lists, texts and the actions of an application. Some functions have fuel: `walk` in
-- Queries/Paging.antt, the number of pages that a client asks for, for which one more than the number
-- of rows is enough for every page size; `hex_digits` of Telemetry.antt, whose caller gives one
-- more than the number that it writes, which is enough since a sixteenth of a number is smaller; and
-- the scans of Database/Migrations/Environment.antt, which are given the length of the text.
--
-- Not modelled: SQLAlchemy, Redis, PyJWT, argon2, pydantic, structlog, OpenTelemetry, dishka and
-- FastAPI themselves; the reading of the environment into settings, whose outcome is an argument;
-- the CORS, gzip and trusted-host layers, which are library code and parameters of the stack. Of
-- dishka only the choice of the binding in force for a type is used, as a parameter; how it builds
-- what a request asks for is not modelled.
-- Requests that overlap are modelled by their statements: each reads the rows that were committed
-- when it began; its inserts and its updates by key are applied at its commit to the tables of that
-- time, which refuse them if a constraint would fail or a row is gone, and its bulk updates reach
-- the rows that were committed when it sent them. The token rows of a history of such commits are
-- followed; the users are given at each commit.
pub mod Prelude
pub mod Text
pub mod Domain
pub mod Exec
pub mod Ports
pub mod Database
pub mod Messaging
pub mod Security
pub mod RateLimit
pub mod Accounts
pub mod Families
pub mod Auth
pub mod Users
pub mod Requests
pub mod Seed
pub mod Queries
pub mod Config
pub mod Logging
pub mod Telemetry
pub mod Api
pub mod Ioc
pub mod Main
pub mod Tests
