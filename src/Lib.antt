-- ===== src/Lib.antt =====
-- A verification library for the EduLanka API (apps/api), the NestJS service of a multi-tenant
-- school platform. It models the rules of the service that decide about money and access.
--
-- The program. The API keeps its data in PostgreSQL tables that it reaches over the Supabase client,
-- and per-process caches in memory. A service method reads rows, decides, writes rows, and returns a
-- value or throws an HTTP exception. Here a method is an `Action`: a function from the state to a
-- result and the next state, run also when it throws.
--
-- The files.
--   Prelude, Prelude/*: Boolean tests, lists over native numbers, predicates on lists.
--   Http, Http/Pure: results, HTTP errors and actions; Http/Cases: what holds of all their outcomes.
--   Postgrest: the interface of a table behind the Supabase client, which the repository only calls.
--     Its laws are the documented behaviour of the requests. PostgrestMemory: an instance of it.
--   JsMap: the JavaScript `Map`, as an association list.
--   Pagination: fetchAllRows of apps/api/src/modules/billing/billing.service.ts.
--   Billing/Fees: calculateActiveStudentFee of apps/api/src/modules/billing/billing.types.ts.
--   Billing/Invoice, Billing/LockCache, Billing/Evolution: the rows of billing_snapshots, the cache
--     of lock statuses, and how rows may change.
--   Billing/Lifecycle: issueInvoice, markInvoicePaid, processOverdueInvoices (billing.service.ts);
--     Steps, Overdue and Outcomes hold their theorems.
--   Billing/LockStatus: checkTenantInvoiceStatus; Grace and AfterCalls hold its theorems.
--   Billing/Snapshots: generateBillingSnapshots; Amounts and Writes hold its theorems.
--   Billing/Run: sequences of calls.
--   Text: texts as character codes. User: the roles and claims of packages/shared-types/src/auth.types.ts.
--   Access/Semver, Access/AccountLock, Access/AppVersion, Access/RoutePolicy: the guards of
--     apps/api/src/common/guards; AccountLock/Refusals and AppVersion/Versions hold theorems.
--   Marks: StudentMarksService of apps/api/src/modules/student-marks/student-marks.service.ts;
--     Entering, Terms, Writes and Locking hold its theorems.
--   Sms: calculateSmsSegments (apps/api/src/common/utils/sms-segments.ts), sendBatchSms
--     (apps/api/src/modules/sms/sms.service.ts) and releaseQuotaReservation (sms.processor.ts);
--     Reservation and Outcomes hold its theorems.
--   Sponsorship: SponsorshipService of apps/api/src/modules/billing/sponsorship.service.ts; Pools holds
--     its theorems.
--   Nightly: process of apps/api/src/modules/billing/billing.processor.ts.
--   Redis, Redis/Keys: the interface of Redis behind its client, with the documented effects of the
--     commands, and the keys that the API uses. RedisMemory: an instance of it.
--   Sessions: refresh tokens and the marks of users in apps/api/src/modules/redis/redis.service.ts, with
--     ResetTokens for nonces and used-up tokens. Keyspaces, Listing, Spared and Revoking: what the commands
--     leave under each key, and that a user's set is complete. Steps: what else Redis executes. Owners: the table of owners that they
--     implement, and Refinement: that they do. Races: an interleaving.
--   Auth: the token pairs of apps/api/src/modules/auth/auth.service.ts, with Duration, Passwords
--     (resetPassword, changePassword) and Strategy (apps/api/src/modules/auth/strategies/jwt.strategy.ts);
--     Rotation, SingleUse and Passwords/Sessions hold the theorems.
--   Uuid: assertUuid of apps/api/src/modules/supabase/supabase.service.ts.
--   Attendance: AttendanceService of apps/api/src/modules/attendance/attendance.service.ts, with Student
--     (a student's own record) and Recording (recordAttendance, and an interface of its table); Days,
--     Roster, Recording/Mapping and Recording/Stored hold its theorems.
--   MobileSync: the attendance of appendSyncEvent of apps/api/src/modules/mobile/mobile-sync.service.ts;
--     Merging, Order and Events hold its theorems.
--   Accounts: the accounts of Supabase Auth, which the repository only calls, and the rows of `users` that
--     registrations add with them. Undone: what a refused registration leaves. Memory: an instance.
--   Auth/Registration: signup and selfRegister of apps/api/src/modules/auth/auth.service.ts; Settled and
--     Profiles hold the theorems.
--   Auth/Login: login and resolveTenantUser (auth.service.ts). Attempts and Limit: the limit on failed
--     sign-ins. Tenantless: accounts without a tenant.
--   Users: setActivationStatus of apps/api/src/modules/users/users.service.ts; Inactive, Requests and Deactivation
--     hold the theorems. Users/Roles: resolveRole. Users/Creation: create and bulkImportUsers, with
--     Imported and SigningIn for the theorems.
--   Plans: PlanFeaturesService of apps/api/src/modules/tenant/plan-features.service.ts; Questions (the
--     daily quota) and Tiers hold its theorems.
--   Homework: HomeworkService of apps/api/src/modules/homework/homework.service.ts; Submitted and Graded hold
--     its theorems.
--   Homework/Tests, Auth/Registration/Tests, Auth/Login/Tests, Users/Tests, Users/Creation/Tests, Plans/Tests, MobileSync/Tests, Sessions/Tests, Auth/Tests, Attendance/Tests, Billing/Tests, Access/Tests, Marks/Tests, Sms/Tests, Sponsorship/Tests, Nightly/Tests: each
--     result at a concrete input.
--
-- How the parts interact. The account lock asks the billing service for a tenant's status before it
-- lets a write pass; the nightly job runs the passes of billing and of sponsorship in a row; the
-- snapshots bill the segments that the message service has logged. Authentication keeps its refresh
-- tokens in Redis, where a password reset and the deactivation of a user revoke them; the deactivation
-- also answers the check of access tokens, through the cache and then through the table. Registrations
-- and the users that administrators create share the accounts that login signs in. Attendance is written
-- by the roll call of a class and by the events of devices that were offline.
--
-- Bounds. Money, counts and times in milliseconds are natural numbers; the program's fees are
-- doubles, read here as exact fractions before they are rounded. A negotiated discount is at most
-- 100 percent. Differences of times are written as sums. Paginated loops run on one round more than
-- the table has rows, which is enough by `fetch_pages_whole`; the pages are taken as slices of one list,
-- although the queries name no order. The reservation of segments expires as in Redis, and its counter
-- is that of one month. Amounts of a sponsorship pool are in
-- tenths of a rupee, points of a mark are natural numbers, and texts are lists of code points.
--
-- Not modelled. What a query or a call to Redis, the queue, Twilio or a token library answers is an
-- argument. Listings, and the reading operations of marks, are left out. Requests interleave only
-- where a method is split in two (the overdue pass, the revocation of a user's tokens); the texts of exceptions, log output and the
-- wording of statuses are dropped, and one reading of the clock serves a whole call, in seconds where
-- Redis expires keys. A command that Redis refuses is taken to change nothing. Sessions
-- that a sign-in opens at Supabase Auth are not state here. Ids that the database gives are taken as
-- UUIDs, which the client of a tenant asserts. Chat, notices, uploads, forgotten passwords
-- and the user interfaces are outside this library so far.
mod Prelude
pub mod Http
pub mod Postgrest
mod PostgrestMemory
pub mod Redis
mod RedisMemory
pub mod Pagination
pub mod JsMap
pub mod Text
pub mod User
pub mod Billing
pub mod Access
pub mod Marks
pub mod Sms
pub mod Sponsorship
pub mod Nightly
pub mod Sessions
pub mod Auth
pub mod Uuid
pub mod Attendance
pub mod MobileSync
pub mod Users
pub mod Accounts
pub mod Plans
pub mod Homework
