-- ===== src/Lib.antt =====
-- Egypt Supply Chain Visibility: the core of the NestJS server under server/src.
--
-- Shippers create shipments, carriers claim them and move them through a state machine, and the
-- server answers each request by reading rows through Prisma, checking the caller, writing rows
-- and publishing messages. The model takes the calls one at a time: a handler is a function of the
-- state, of what comes from outside (the clock and generated identifiers), of the caller and of the
-- validated request, into a result. On an exception the state is as before, since the modelled
-- handlers throw before their first write; those of sessions, passwords and invitations may not.
--
-- Files:
-- - Base: tests, lists, results and exceptions that all modules share.
-- - Domain: rows of the database (server/prisma/schema.prisma), roles, statuses.
-- - Store: the interface of a table (Table), which stands for Prisma and PostgreSQL with their
--   documented behaviour; Indexed meets it in memory with Slots, Saves,
--   Unique and Amends read it after a write; Database and Messages hold the state of the
--   shipment service, what it publishes on the exchange escv.events and its audit rows.
-- - Alerts.Delay: server/src/alerts/delay-evaluator.ts. Alerts.Inbox: createAlert and resolve of
--   server/src/alerts/alerts.service.ts; Open is about alerts that are open. Alerts.Scanner:
--   server/src/alerts/eta-scanner.service.ts with its consumer alerts.consumer.ts. Alerts.Marks: the
--   read marks of alerts.service.ts.
-- - Shipments: server/src/shipments/shipments.service.ts and its DTOs. Status is
--   shipments.constants.ts (Graph is about chains of transitions), Access the access checks, Checks
--   what create and update share, and Create, Update, AssignRoute, UpdateStatus, Accept and Remove
--   are the operations of those names, each split into its guards (check_...), the row that it
--   builds, its writes (save_..., insert_..., delete_...) and the handler that composes them.
--   Listing is the where clause of findAll (QueryShipmentDto), Reached the times of formatShipment
--   at which checkpoints were reached. Runs inverts a successful call, Timeline holds the invariant,
--   History the sequences of calls, Next which status may follow which, Causes which call moves one.
-- - Pagination: server/src/common/pagination/pagination.helper.ts.
-- - Store.Cache: the interface of Redis (KeyValue, Sets), keys with an expiry and sets; Timed meets
--   it in memory, Inversion reads it.
-- - Sessions: server/src/auth/auth.service.ts and the guard that relies on it. Tokens is
--   createTokenPair, rotateToken, handleReuse and refreshToken, Revocation is logout, revokeSession
--   and revokeAllSessions, Guard is auth/guards/jwt-auth.guard.ts and Roles
--   auth/guards/roles.guard.ts after it. A handler here may throw after it
--   has written, so it gives the state with the result. Links holds the invariant, History the
--   sequences of calls, Closed what it means that a session has ended (Refresh: its
--   refresh tokens).
--   Cookies is the text of the refresh cookie, Passwords is login, updatePassword, forgotPassword
--   and resetPassword, with bcrypt as a parameter (Bcrypt); Changed and Reset are about what they
--   leave behind. Devices is the loop of getSessions.
-- - Registry: server/src/organizations/organizations.service.ts, with register, getInvitation and
--   acceptInvitation of auth.service.ts. Invitations and Members are the operations, Runs inverts a
--   call, Fit and Finality are about roles and about the life of an invitation. toLowerCase is a
--   parameter (lower), for addresses, and for roles and types of organizations (role_fits).
-- - Network: server/src/routes/routes.service.ts (Routes, Stops) and
--   server/src/checkpoints/checkpoints.service.ts (Checkpoints). Chart holds the invariant, Closing
--   compares the two ways to take a route or a checkpoint out of use.
-- - Admin: server/src/admin/admin.service.ts. Users, Organizations, Shipments and Bulk are the
--   operations, Redaction is redactAuditValue; Guards, Staff, Closing and Access are about the last
--   admin of an organization, about roles, about organizations closed in bulk, and about access
--   tokens that are out.
-- - Client: the response interceptor of client/src/api/client.ts, which refreshes the access token;
--   Accounts counts what becomes of requests. The server's token is never empty.
-- - Gateway: server/src/websocket/websocket.gateway.ts and the handler of revoked sessions of
--   websocket.consumer.ts. Sight compares who is told of a shipment with who may open it, Logout is
--   about sockets of a session that has ended.
-- - Examples: a database and a Redis in memory, a life of a shipment and a sign-in, the theorems at
--   points of them.
--
-- Identifiers are numbers, a Date is its milliseconds since 1970, decimals are scaled integers; a
-- role or a type of an organization is one of those that the code names, or any other text. Loops
-- are over lists that are read before them, so there is no fuel. Not modelled: dates before 1970,
-- which IsDateString accepts (patch_date and the other dates of the model leave them out), what
-- class-validator checks before a handler runs, a broker, Redis or database that fails, requests
-- that interleave, how a JWT is signed and verified, log lines; of this repository the lists and
-- views that only read, the sort of getSessions, updateProfile, reports, dashboard and map, mail and
-- queue, and the pages of the client.
pub mod Base
pub mod Domain
pub mod Store
pub mod Pagination
pub mod Alerts
pub mod Shipments
pub mod Sessions
pub mod Registry
pub mod Network
pub mod Admin
pub mod Gateway
pub mod Client
pub mod Examples
