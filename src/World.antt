-- ===== src/World.antt =====
-- What the services share: the database, and everything that this repository does not implement,
-- as one outside state `C` behind an interface of calls. Each call may change the outside in any
-- way and may throw; the clock is read from it.
pub mod Keeps
pub mod Returns
use field_note.Common.{ℕ, Text, List, Option, Bool}
use field_note.Result.{Result, pure, throw, lift, gets, or_throw, try_catch, ◌>>=◌, ok, M}
use field_note.Database.{Db, Job, Stage}

pub record World (C : Type 0) : Type 0 where
  pub db : Db
  pub cloud : C

abbrev pub Action : Type 0 → Type 0 → Type 0
Action C A = M (World C) A

-- A database call.
unfoldable pub query : {C A : Type 0} → M Db A → Action C A
query m w = let (r, db) = m w.db in (r, record w { db = db })

-- A read of the database.
unfoldable pub select : {C A : Type 0} → (Db → A) → Action C A
select f w = (ok (f w.db), w)

-- A write that cannot fail.
unfoldable pub write : {C : Type 0} → (Db → Db) → Action C (Unit {0})
write f w = (ok tt, record w { db = f w.db })

-- A call to the outside.
unfoldable pub call : {C A : Type 0} → M C A → Action C A
call m w = let (r, c) = m w.cloud in (r, record w { cloud = c })

-- Bytes of an object, an audio stream or a document.
abbrev pub Bytes : Type 0
Bytes = List ℕ

-- The state of a BullMQ job.
pub data BullState : Type 0 where
  waiting active delayed completed failed unknown : BullState

-- The payload of server/src/queue/queue.constants.ts.
pub record ProcessJobData : Type 0 where
  pub job_id : Text
  pub user_id : Text

-- The options of `enqueueProcessing` that this development reads.
pub record JobsOptions : Type 0 where
  pub job_id : Text
  pub attempts : ℕ
  pub delay : ℕ
  pub remove_on_fail : Bool

pub record FailedJob : Type 0 where
  pub job_id : Text
  pub user_id : Text
  pub error : Text
  pub attempts_made : ℕ

-- What the AI providers are given.
pub record CompileInput : Type 0 where
  pub label : Text
  pub transcript : Text

-- A value that `JSON.parse` returns. `scalar` stands for null, Booleans and numbers, which the
-- report schema rejects alike.
mutual
  pub data Json : Type 0 where
    scalar : Json
    string : Text → Json
    array : Items → Json
    object : Fields → Json

  pub data Items : Type 0 where
    nil : Items
    cons : Json → Items → Items

  pub data Fields : Type 0 where
    end : Fields
    field : Text → Json → Fields → Fields

-- One issue of a ZodError.
pub record Issue : Type 0 where
  pub path : List Text
  pub message : Text

-- How the timer of `withTimeout` stands to the two parts of a stage: it does not fire, or it
-- fires before the first part is done, between the two, or when both are done.
pub data Timing : Type 0 where
  settles before_first before_second after_second : Timing

pub record Services (C : Type 0) : Type 0 where
  pub now : C → ℕ
  pub random_uuid : C → Text × C
  -- Cloudflare R2
  pub head_object : Text → M C (Unit {0})
  pub get_object : Text → M C (Option Bytes)
  pub put_object : Text → Bytes → Text → M C (Unit {0})
  pub delete_objects : List Text → M C (Unit {0})
  pub signed_put_url : Text → Text → ℕ → M C Text
  pub signed_get_url : Text → ℕ → M C Text
  -- BullMQ
  pub queue_state : Text → M C (Option BullState)
  pub queue_remove : Text → M C (Unit {0})
  pub queue_add : ProcessJobData → JobsOptions → M C (Unit {0})
  pub dlq_add : FailedJob → M C (Unit {0})
  -- speech to text, report compiler, headless browser
  pub transcription_provider : Bytes → Text → M C Text
  pub compiler_provider : CompileInput → Option Text → M C Json
  pub zod_issues : Json → List Issue
  pub print_pdf : Text → M C Bytes
  -- the answer of Prisma to a cursor that is no row of the list
  pub stray_cursor : Text → List Job → Result (List Job)
  -- the race of `withTimeout`
  pub timing : Stage → C → Timing

-- The values of server/src/config/env.ts that the modelled services read.
pub record Config : Type 0 where
  pub presign_put_ttl : ℕ
  pub presign_get_ttl : ℕ
  pub stage_timeout_ms : ℕ
  pub job_max_attempts : ℕ

module _ {C : Type 0} (S : Services C) where
  -- A database call that is given the time.
  unfoldable pub at_now : {A : Type 0} → (ℕ → M Db A) → Action C A
  unfolding query
  at_now q w = query (q (S.now w.cloud)) w

  unfoldable pub write_now : (ℕ → Db → Db) → Action C (Unit {0})
  unfolding write
  write_now f w = write (f (S.now w.cloud)) w

-- Runs an action; naming it on an `unfolding` line opens every way to build one.
unfoldable pub run : {C A : Type 0} → Action C A → World C → Result A × World C
unfolding ◌>>=◌ pure throw lift gets or_throw try_catch query select write call at_now write_now
run m w = m w
