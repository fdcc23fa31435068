-- ===== src/Transcription.antt =====
-- server/src/processing/transcription/transcription.service.ts over a `TranscriptionProvider`.
pub mod Keeps
pub mod Providers
use field_note.Common.{true, Text, codes, trim, is_empty, if◌then◌else◌}
use field_note.Result.{ErrorKind, Error, pure, throw, ◌>>=◌}
use field_note.World.{Action, call, Bytes, Services}

-- EmptyTranscriptError: its `permanent` flag stops retries.
unfoldable pub empty_transcript_error : Error
empty_transcript_error = record {
  kind = ErrorKind.plain;
  permanent = true;
  message = codes "Transcription produced no text — the recording appears to be silent or empty.";
}

module _ {C : Type 0} (S : Services C) where
  unfoldable pub transcribe : Bytes → Text → Action C Text
  transcribe audio filename = do
    text ← call (S.transcription_provider audio filename)
    let trimmed = trim text
    if is_empty trimmed then throw empty_transcript_error else pure trimmed
