-- ===== src/Transcription/Providers.antt =====
-- server/src/processing/transcription: deepgram.provider.ts, openai.provider.ts, mock.provider.ts and
-- the choice between them in transcription.module.ts. The clients of the two services are parameters.
use field_note.Common.{
  ◌≡◌, refl, Bool, true, false, Option, none, some, [], ◌∷◌, ◌++◌, Text, codes, trim, trim_idem,
  is_empty, text_eq, or_else, if◌then◌else◌,
}
use field_note.Result.{ErrorKind, Error, error, Result, ok, err, M, pure, throw, ◌>>=◌, ◌>>◌}
use field_note.World.{World, call, run, Bytes, Services}
use field_note.Compiler.Prompts.{join}
use field_note.Transcription.{transcribe, empty_transcript_error}

-- TranscriptionOptions
pub record TranscriptionOptions : Type 0 where
  pub language : Option Text
  pub filename : Option Text

-- ── deepgram.provider.ts ──

pub record DeepgramRequest : Type 0 where
  pub model : Text
  pub smart_format : Bool
  pub punctuate : Bool
  pub diarize : Bool
  pub language : Text

-- { result, error }: the message of the error, and the transcript of the first alternative of the
-- first channel, where there is one.
pub record DeepgramResponse : Type 0 where
  pub error_message : Option Text
  pub transcript : Option Text

unfoldable pub deepgram_request : Text → TranscriptionOptions → DeepgramRequest
deepgram_request model opts = record {
  model = model;
  smart_format = true;
  punctuate = true;
  diarize = false;
  language = or_else opts.language (codes "en");
}

unfoldable pub deepgram_failed : Text → Error
deepgram_failed message = error ErrorKind.plain (codes "Deepgram transcription failed: " ++ message)

module _ {C : Type 0} where
  deepgram_text : DeepgramResponse → Option Text → M C Text
  unfolding deepgram_failed
  deepgram_text r (some message) = throw (deepgram_failed message)
  deepgram_text r none = pure (trim (or_else r.transcript []))

module _ {C : Type 0} (model : Text)
    (transcribe_file : Bytes → DeepgramRequest → M C DeepgramResponse) where
  -- DeepgramTranscriptionProvider.transcribe
  unfoldable pub deepgram_transcribe : Bytes → TranscriptionOptions → M C Text
  unfolding deepgram_text deepgram_request
  deepgram_transcribe audio opts = do
    response ← transcribe_file audio (deepgram_request model opts)
    deepgram_text response response.error_message

-- ── openai.provider.ts ──

-- `F` is the file that the client makes of a stream.
pub record OpenAiRequest (F : Type 0) : Type 0 where
  pub file : F
  pub model : Text
  pub language : Option Text
  pub response_format : Text

module _ {C F : Type 0} (model : Text) (to_file : Bytes → Text → Text → M C F)
    (create_transcription : OpenAiRequest F → M C (Option Text)) where
  -- OpenAiTranscriptionProvider.transcribe; an answer that is no string counts as an empty one
  unfoldable pub openai_transcribe : Bytes → TranscriptionOptions → M C Text
  openai_transcribe audio opts = do
    file ← to_file audio (or_else opts.filename (codes "audio.m4a")) (codes "audio/m4a")
    response ← create_transcription (record {
      file = file;
      model = model;
      language = opts.language;
      response_format = codes "text";
    })
    pure (trim (or_else response []))

-- ── mock.provider.ts ──

-- SAMPLE_TRANSCRIPT
unfoldable pub sample_transcript : Text
unfolding join
sample_transcript = join (codes " ") (
    codes "Alright, starting the inspection at the front of the property."
    ∷ codes
        "The roof is asphalt shingle, looks to be about fifteen years old. I see some granule loss on the south-facing slope and two shingles are lifted near the ridge. That's going to need repair before the next winter."
    ∷ codes
        "Gutters are full of debris and the downspout on the northeast corner is disconnected, so water is draining right against the foundation. Recommend cleaning the gutters and reattaching the downspout — maintenance item."
    ∷ codes
        "Moving to the exterior siding. Vinyl siding is in good condition overall, just some minor fading on the west wall, nothing structural."
    ∷ codes
        "At the electrical panel in the garage. It's a 200 amp panel, looks modern. However there's a double-tapped breaker on circuit twelve, that's a safety concern and should be corrected by a licensed electrician."
    ∷ codes
        "The water heater is a forty gallon gas unit, manufactured 2016. No TPR discharge pipe installed on the relief valve — that's a safety issue, needs a proper discharge line."
    ∷ codes
        "In the kitchen, the GFCI outlets near the sink are working and tripping correctly. Dishwasher runs fine. Under the sink there's a small active leak at the P-trap, minor but should be repaired."
    ∷ codes
        "Upstairs bathroom, the exhaust fan vents into the attic instead of outside, which can cause moisture problems. Recommend rerouting to an exterior vent."
    ∷ codes
        "Attic insulation is adequate, blown-in fiberglass, no signs of pest activity. Some daylight visible at the roof penetration around the plumbing vent, minor air sealing recommended."
    ∷ codes
        "Basement is dry, no efflorescence on the walls. The sump pump tested fine. Furnace is a high-efficiency unit serviced this year per the tag."
    ∷ codes
        "Overall the home is in serviceable condition with a few safety items to address. That concludes the walkthrough."
    ∷ [])

module _ {C : Type 0} (drain : Bytes → M C (Unit {0})) where
  -- MockTranscriptionProvider.transcribe
  unfoldable pub mock_transcribe : Bytes → TranscriptionOptions → M C Text
  unfolding sample_transcript
  mock_transcribe audio opts = do drain audio; pure sample_transcript

-- ── transcription.module.ts ──

-- The provider that is bound at boot.
unfoldable pub choose_provider : {P : Type 0} → Bool → Text → P → P → P → P
choose_provider use_mock name mock openai deepgram =
    if use_mock then mock else if text_eq name (codes "openai") then openai else deepgram

module _ {C : Type 0} (S : Services C) (model : Text)
    (transcribe_file : Bytes → DeepgramRequest → M C DeepgramResponse) where
  -- The pipeline calls with the object's key as the file name.
  abbrev over_deepgram : Services C
  over_deepgram = record S {
    transcription_provider = λ audio key.
        deepgram_transcribe model transcribe_file audio
          (record { language = none; filename = some key });
  }

  -- What a transcription comes to, by the error that Deepgram reports and the trimmed transcript.
  unfoldable pub outcome : Option Text → Text → Result Text
  outcome (some message) t = err (deepgram_failed message)
  outcome none t = if is_empty t then err empty_transcript_error else ok t

  if_pair :
      (t : Text) (w : World C)
      → (if is_empty t then throw empty_transcript_error else pure t) w
        ≡ (if is_empty t then err empty_transcript_error else ok t, w)
  unfolding throw pure
  if_pair [] w = refl
  if_pair (x ∷ t) w = refl

  by_error :
      (o : Option Text) (r : DeepgramResponse) (w : World C)
      → run
          (do
            text ← call (deepgram_text r o)
            let trimmed = trim text
            if is_empty trimmed then throw empty_transcript_error else pure trimmed)
          w
        ≡ (outcome o (trim (or_else r.transcript [])), w)
  unfolding run outcome deepgram_text
  by_error (some m) r w = refl
  by_error none r w = rw (trim_idem (or_else r.transcript [])) (if_pair _ w)

  -- A transcription over Deepgram, on every answer: a reported error is thrown as an error that may be
  -- retried; a transcript that is missing or blank is thrown as the permanent error; any other one is
  -- returned, trimmed.
  pub transcribe_deepgram :
      (audio : Bytes) (key : Text) (w : World C) (r : DeepgramResponse) (c : C)
      → transcribe_file audio
          (deepgram_request model (record { language = none; filename = some key }))
          w.cloud
        ≡ (ok r, c)
      → transcribe over_deepgram audio key w
        ≡ (outcome r.error_message (trim (or_else r.transcript [])), record w { cloud = c })
  unfolding transcribe deepgram_transcribe run
  transcribe_deepgram audio key w r c asked =
      rw asked (by_error r.error_message r (record w { cloud = c }))
