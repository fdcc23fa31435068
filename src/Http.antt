-- ===== src/Http.antt =====
-- server/src/common/auth/jwt-auth.guard.ts, server/src/common/auth/current-user.decorator.ts and
-- server/src/jobs/jobs.controller.ts: a request on the jobs, from its headers to its answer. The
-- verification of a signature is that of another package, and so are the pipes: a body that does not
-- fit its class never gets here, and an id in the path must be a UUID.
pub mod Guard
pub mod Jobs
pub mod Isolation
pub mod Sessions
