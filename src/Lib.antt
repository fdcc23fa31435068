-- ===== src/Lib.antt =====
-- FieldNote, the server of an inspection-report app (server/src). A signed-in user creates a job,
-- uploads a recording, and starts its processing; a worker transcribes the recording, compiles the
-- transcript to a report and renders the report to a PDF; the user reads, edits and deletes the job.
--
-- How the parts map to files:
--   Severity       server/src/jobs/severity.ts
--   Database       the tables of server/prisma/schema.prisma, and jobs/report.types.ts
--   Repository     server/src/jobs/jobs.repository.ts: each query and update is a function of the
--                  tables; children prove what they keep
--   Result, World  a method is a function from the state to a result or an error, and the state; the
--                  state is the database and one outside, behind the interface `Services` of calls
--                  to R2, BullMQ, the AI providers, the browser and the clock
--   Media          server/src/media/media.service.ts; Media/Bucket the creation of a bucket
--   Transcription  server/src/processing/transcription: the service, and in Providers the three
--                  providers
--   Compiler       server/src/processing/compiler: the schema, the prompts, and the retry policy;
--                  DeepSeek and Mock are the two providers
--   Pdf            server/src/processing/pdf/report-html.ts; of pdf-renderer.service.ts, Pages is the page
--                  of one render, and Browser the launches and browsers that renders share, as a
--                  step relation
--   Pipeline       server/src/processing/pipeline/pipeline.service.ts, method by method
--   Queue          server/src/queue/processing-queue.service.ts; Queue/Board is bull-board.ts and
--                  redis.connection.ts
--   Processor      server/src/processing/worker/processing.processor.ts; Processor/Retry puts the
--                  attempts of a job in a row
--   Jobs           server/src/jobs/jobs.service.ts and job.mapper.ts, method by method; Pages is
--                  `list`, over `listScoped` in Repository/Pages, and Walk a client that follows it
--   Users          server/src/users/users.service.ts
--   Tokens, Auth   server/src/auth/token.service.ts and auth.service.ts: refresh tokens and sign-in;
--                  Auth/Apple is server/src/auth/apple
--   Http           server/src/common/auth/jwt-auth.guard.ts and server/src/jobs/jobs.controller.ts: the
--                  guard, the routes, and a request from its header to its answer
--   History        the writes of all services as one step relation, whoever makes them
--   Environment    server/src/config/env.ts: the checks across fields, and the configuration
--   Filter         server/src/common/filters/all-exceptions.filter.ts
--   Health         server/src/health: the probes of the database and of Redis
--   Tests          concrete services, tests and witnesses
--
-- Conventions. A text is the list of its UTF-16 code units. Times are milliseconds. An error keeps
-- what the code reads of it: its class, its `permanent` flag and its message. What was written before
-- a throw stays written; a transaction that throws leaves the tables as they were. Every call to the
-- outside may throw and may change the outside, never the database. `Promise.race` in `withTimeout`
-- is a choice, made by the outside, of when the timer fires; what a stage that has lost the race writes
-- later is not part of a run, but it is one of the steps of a history. Prisma's answer to a cursor that
-- is no row of the list is a parameter.
--
-- Fuel. The code's recursion is on lists. `Jobs.Walk.walk`, a client that follows the pages, is given
-- one request more than there are jobs, which is enough as every full page is at least one job long.
-- `Processor.Retry.deliver` is given the `jobMaxAttempts` of the queue's options, since the last of
-- them is terminal.
--
-- Not modelled: failures of the database but for missing rows and unique constraints, so that the
-- user of a new job is taken to exist; services that run at once and read each other's writes, of
-- which only the writes are there, in a history, but for two refreshes of one token (Auth/Race); the
-- parsing of single fields of requests and of the environment; the routes of the sign-in, which pass
-- their body on; the SDKs of the providers and of the database; the routes of health, logging and the
-- start of the two processes; and the iOS client.
pub mod Common
pub mod Severity
pub mod Result
pub mod Database
pub mod Repository
pub mod World
pub mod Media
pub mod Transcription
pub mod Compiler
pub mod Pdf
pub mod Pipeline
pub mod Queue
pub mod Jobs
pub mod Processor
pub mod Users
pub mod Tokens
pub mod Auth
pub mod Http
pub mod History
pub mod Environment
pub mod Filter
pub mod Health
pub mod Tests
