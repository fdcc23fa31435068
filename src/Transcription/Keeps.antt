-- ===== src/Transcription/Keeps.antt =====
-- The database through a transcription.
use field_note.Common.{Text}
use field_note.Database.{Db}
use field_note.World.{Bytes, Services}
use field_note.World.Keeps.{Keeps, Keeps-pure, Keeps-throw, Keeps-call, Keeps-bind, Keeps-if}
use field_note.Transcription.{transcribe}

pub transcribe-Keeps :
    {C : Type 0} (S : Services C) {P : Db → Type 0} (audio : Bytes) (name : Text)
    → Keeps P (transcribe S audio name)
unfolding transcribe
transcribe-Keeps S audio name =
    Keeps-bind _ _ (Keeps-call _) (λ t. Keeps-if _ _ _ (Keeps-throw _) (Keeps-pure _))
