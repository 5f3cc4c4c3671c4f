-- ===== src/Lib.antt =====
-- Verification of the Go project starter: a modular application of use cases over SQL tables, a
-- cache and a job queue, driven by HTTP handlers and workers.
--
-- The parts, and the files that model them:
--   * `Base` and its children: Boolean tests, lists, texts, decimal numbers (strconv), maps, and
--     `Base/Exec`, methods that change a state and may fail with what was written kept.
--   * `Apierr`: internal/application/apierr/apierr.go, the sentinel errors and their HTTP kinds.
--   * `Audit`: internal/application/audit/audit.go, the entries of the audit trail.
--   * `Cache`: internal/platform/cache/memory.go, one function for each method of the driver;
--     `Cache/Database`: internal/platform/cache/database.go, the driver over a table.
--   * `Auth/Domain`: internal/modules/auth/domain, the entities and the normalization of phones.
--   * `Auth/World`: what a use case works on, the tables, the cache and the trail (`World`), and
--     what it is given by the rest of the program and by packages (`Env`).
--   * `Auth/Repository`: internal/modules/auth/infrastructure, the SQL statements over the rows.
--   * `Auth/Command`: internal/modules/auth/application/command, the use cases: the issuing of
--     tokens (issuer.go), their rotation (refresh.go), the ends of a session (logout.go,
--     session_revoke.go), the denylist (denylist.go), the login in one step or two (login.go,
--     mfa_challenge.go, verify_mfa.go), codes (verify.go), magic links
--     (magic_link_verify.go), passwords (change_password.go, reset_password.go), the life of a TOTP
--     secret (setup_totp.go, confirm_totp.go, disable_totp.go) and the deliveries of codes and links
--     (forgot_password.go, magic_link.go, process_forgot_password.go, process_magic_link.go,
--     issue_verify_code.go), over the queued tasks (`Desk`); and `Authenticate` of
--     internal/modules/auth/module.go.
--   * `Auth/Session` and `Auth/Login`: the theorems about sessions, and about signing in.
--   * `Rbac`: internal/modules/rbac. `Rbac/Tables` has the five tables and what the statements do
--     to their rows, `Rbac/Repository` the calls of infrastructure/repository.go, `Rbac/Cache` the
--     versioned cache of permissions, `Rbac/Query` the queries, the service (api.go) and the
--     authorizer, `Rbac/Command` the use cases, `Rbac/Readers` any interleaving of runs of GetUser
--     and of changes that are bumped, and `Rbac/Guards` who gives and takes the role super_admin.
--   * `Schedule`: internal/platform/schedule/cron.go, the parser of cron expressions and their match,
--     and the registration of jobs of schedule.go.
--   * `Queue`: internal/platform/queue/database.go, the job queue in a table, one turn of a worker,
--     (`Queue/Workers`) any interleaving of several workers, and (`Queue/Drain`) turns until it is
--     empty.
--
-- How the parts interact: a use case is an action on the `World` (`Auth/World`), composed of
-- the methods of the repositories, of the cache and of the audit recorder in the order of the
-- source. A call of a driver is named by `Call`; `fails` says which of them fail, and a call that
-- fails has no effect. Whatever is not in this repository is a field of `Env` or an argument:
-- the random identifiers and tokens, SHA-256 and bcrypt, the signing and parsing of JWTs, the
-- roles of a user, TOTP, the random digits, and the parser of email addresses; so are the
-- handlers of the queue.
--
-- Bounds and fuel: decimal numbers are written with as much fuel as the number plus one, which is
-- enough, as a number has no more digits than that; the loop of a cron field has two turns more than
-- its upper bound, which is enough, as every turn adds at least one; every other loop is structural.
-- Counters of the cache wrap as an int64, and the loop of a cron field panics where it would wrap;
-- other numbers are unbounded.
--
-- What is left out of these parts: a string is a list of code points, so strings that are not
-- valid UTF-8 are left out, and letters outside ASCII are not folded; the clock stands still within
-- one use case, and counts whole units; the two durations of tokens are not negative; the read pool
-- is the write pool, without lag; rows that tie in an ORDER BY keep their order; a use case is not
-- interleaved with another, while the workers of the queue are, and the readers of permissions with
-- the changes of roles; logging, tracing and contexts. Each module has its own `World`: the tables of
-- roles have no rows in common with those of accounts but the identifiers of users.
--
-- Not modelled: the registration and the changes of a profile of internal/modules/auth,
-- the waiting and running of the scheduler, the HTTP middleware and the configuration of
-- internal/platform, which these files do not cover;
-- the clients of Redis, asynq, brokers, mail, SMS and object storage, which are calls of services;
-- and the wiring in cmd.
pub mod Base
pub mod Apierr
pub mod Audit
pub mod Cache
pub mod Auth
pub mod Queue
pub mod Rbac
pub mod Schedule
