-- ===== src/Lib.antt =====
-- TeamFlow: organizations, invitations, sessions and their tokens, as models of
-- internal/organizations, internal/invitations, internal/apikeys, internal/auth, internal/httpx,
-- internal/validation, internal/tasks, internal/permissions, internal/database, the statements of
-- internal/db, and the background jobs of internal/jobs.
--
-- Parts. A request reaches a service method; the method sends statements to PostgreSQL, single ones or
-- in transactions, and answers with a DTO or an error that internal/httpx turns into a response. The
-- organization service authorizes every caller by rows that it reads first; the authentication service
-- issues an access token and a refresh token, and exchanges a refresh token once. The invitation service
-- hands a link to the job queue or the mail transport, and turns a link that is accepted into an
-- account, a membership and a session. An API key is a credential of the member who made it. The queue
-- holds jobs in Redis, sealed, until a worker has handled them.
--
-- Files.
--   Prelude: shared names, Boolean tests, lists over native numbers, text, laws of tables.
--   Httpx/Errors: internal/httpx/errors.go and the error chains of Go (wrap, is_no_rows, as_pg).
--   Httpx/Pagination, Httpx/Pages: internal/httpx/pagination.go and what holds of it.
--   Database/Tables: internal/db/models.go. Database/Roles, Memberships, Organizations, Users,
--     RefreshTokens, Invitations, ApiKeys: one function for each statement of the file of that name in
--     internal/db, with the checks, unique keys and foreign keys of the migrations. Database/Runs: how a
--     run is followed through its statements.
--   Exec: actions. Exec/Monad is Go's early return on an error, Exec/Statements the world and the
--     transactions (internal/database/database.go, WithTenantTx), Exec/Rules, Grows and Keeps their laws,
--     and Exec/Calm the runs in which no round trip fails.
--   Permissions: internal/permissions/permissions.go. Slug: slugify of internal/auth/slug.go and of
--     internal/organizations/service.go.
--   Organizations/Tenant (ResolveTenant, requirePermission, Authorize, GetOrganization,
--     UpdateOrganization), Roles (CreateRole, UpdateRole, DeleteRole, setPermissions), Members
--     (AssignMemberRole), Create (CreateOrganization, uniqueSlug), Requests (a server for these and for
--     Register).
--     Access, Guards, Grants, Hidden and Owners hold the theorems; Owners/Strangers counts the members
--     whose role is another organization's.
--   Auth/Tokens (dto.go, GenerateAccessToken, createRefreshToken, issueSession), Sessions (Login,
--     Refresh, Logout, LogoutAll, CurrentUser, IssueSession), Register, Requests (a server for the
--     sessions). Families, Issued, Rotation, Reuse, Exchange, Issue, OneLive, Frame, Registration and
--     Registered hold the theorems.
--   Validation: internal/validation/validation.go.
--   Invitations/Model (model.go and the errors of service.go), Delivery (dispatchEmail, deliverInline,
--     sendInvitationEmail, and EmailJobHandler and RedeliverJobHandler of job.go), Manage (Create,
--     Resend, Revoke, Preview), Accept (Accept, resolveUser), Requests (a server for these and for the
--     two jobs). Ledger, Statements, Dispatched, Kept, Joining, Acceptance, Served, Accepted, Refused,
--     Resent, Sent and Mailed hold the theorems.
--   ApiKeys/Service (service.go, model.go and job.go of internal/apikeys); Credentials holds the theorems.
--   Tasks/Model (the fields of a task, from model.go of internal/tasks and from internal/fieldtypes);
--     Changes holds the theorems.
--   Jobs/Redis (the interface of the client of Redis), Job (Job, Permanent, IsPermanent), Queue (jobs.go),
--     Worker (worker.go), Server (producers and workers as a sequence of events). Views, Kept, Handled,
--     Served, Lossless, Failure and Backoff hold the theorems.
--   Tests: the theorems at concrete inputs.
--
-- The world. A World has the rows, the next identifier, the clock and a schedule of faults: each round
-- trip takes one entry, and fails where it is true. A transaction restores the rows on every path but a
-- commit, so a failed commit leaves the rows unchanged. An identifier is a number that was not used
-- before, 0 standing for uuid.Nil. A World also has what the mail transport and the job queue have taken;
-- handing a message to either is a round trip that may fail. The clock stands still within an operation,
-- and is the time of both time.Now and now(). Transactions run one after the other; row locks and
-- races of transactions that overlap are not modelled.
--
-- The jobs run in a Bench: the state of Redis, a clock in nanoseconds, and a schedule of calls, each of
-- which succeeds or is cut short after a number of its commands. A worker holds a delivery between its
-- read and its end, so that workers that hold the same entry, and crashes, are sequences of events.
--
-- Fuel. No definition needs any: loops are over lists or over the five rounds of uniqueSlug.
--
-- Parameters. The lower-casing by which the server compares CITEXT, strings.ToLower, the eight
-- characters of a UUID that a slug ends in, bcrypt, SHA-256, the HMAC signature, random bytes,
-- mail.ParseAddress, unicode.IsLetter and unicode.IsDigit are functions that the definitions take; no
-- theorem assumes anything of them, but for two on invitations: the one on resent links takes it that
-- random tokens still to come do not have the hash of the old one, and those on refused invitations that
-- the password of a caller without an account could be hashed. The queue takes the client of Redis,
-- whose commands have their documented effect on what is stored, the trimming of the dead-letter stream
-- to at least its latest 10,000 entries included; the sealing of a job by AES-GCM, which opens what it
-- sealed; the conversion to float64, exact up to 2^53, and back, also of one that is out of range, and a
-- random number below a bound; handlers are any functions of the run and the job.
--
-- Not modelled: message texts; the audit log, whose writes go to a table of its own and whose errors
-- are dropped; row policies, which repeat the WHERE clauses; the lists for pages, which are only read
-- and sorted; EnsureGroup, Stats and PendingFor of the queue; the contexts of requests and workers,
-- whose end is a call that fails; the services of projects, tasks and teams; rate limits, configuration
-- and I/O.
pub mod Prelude
pub mod Httpx
pub mod Database
pub mod Exec
pub mod Permissions
pub mod Slug
pub mod Validation
pub mod Invitations
pub mod ApiKeys
pub mod Tasks
pub mod Jobs
pub mod Organizations
pub mod Auth
pub mod Tests
