-- ===== src/Tests/Providers.antt =====
-- The mock report, and answers of the two AI services.
use field_note.Common.{false, arith, ℕ, ◌≡◌, refl, true, none, some, [], ◌∷◌, codes, map, length}
use field_note.Result.{ErrorKind, Error, ok, err}
use field_note.Database.{JobStatus, ReportSectionInput}
use field_note.World.{World, Services, CompileInput}
use field_note.Compiler.{compile, normalize}
use field_note.Compiler.Fit.{report_fits, compile_fitting}
use field_note.Compiler.Mock.{mock_report, mock_compile}
use field_note.Compiler.DeepSeek.{DeepSeekConfig, ChatResponse, deepseek_compile}
use field_note.Compiler.Answers.{Calls, Unreadable, compile-Unreadable}
use field_note.Transcription.Providers.{DeepgramResponse}
use field_note.Tests.{computed, done, services, world_of}

w0 : World ℕ
w0 = world_of JobStatus.created

abbrev input : CompileInput
input = record { label = codes "House"; transcript = codes "The roof leaks." }

abbrev mocked : Services ℕ
mocked = record services { compiler_provider = mock_compile }

-- The mock's report is within the limits.
mock_report-fits : report_fits mock_report ≡ true
unfolding computed mock_report report_fits
mock_report-fits = refl

compile_fitting_example : compile mocked input w0 ≡ (ok (normalize mock_report), w0)
unfolding computed mock_compile w0
compile_fitting_example = compile_fitting mocked input w0 w0 mock_report mock_report-fits refl

-- No section and no finding of it is lost.
mock_sections :
    map (λ (s : ReportSectionInput). length s.findings) (normalize mock_report)
    ≡ 2 ∷ 2 ∷ 1 ∷ 2 ∷ 3 ∷ 1 ∷ 1 ∷ 2 ∷ 2 ∷ []
unfolding computed mock_report
mock_sections = refl

abbrev deepseek : DeepSeekConfig
deepseek = record { model = codes "m"; max_tokens = 4096 }

-- A model that calls another tool, and then the tool with arguments that are no JSON.
abbrev garbled : ChatResponse
garbled = record {
  choices =
      some (
        record { name = codes "search"; arguments = codes "{}" }
        ∷ record { name = codes "emit_inspection_report"; arguments = codes "{sections" }
        ∷ [])
      ∷ [];
}

garbled-Calls : Calls garbled (codes "{sections")
garbled-Calls = record {
  before = record { name = codes "search"; arguments = codes "{}" } ∷ [];
  call = record { name = codes "emit_inspection_report"; arguments = codes "{sections" };
  after = [];
  rest = [];
  answered = refl;
  others = (λ e. ground (arith, e), tt);
  named = refl;
  carries = refl;
}

compile-Unreadable_example :
    (e : Error) × (compile
        (record services {
          compiler_provider = deepseek_compile deepseek (λ request. done garbled) (λ t. none);
        })
        input
        w0
      ≡ (err e, record w0 { cloud = 7 }))
    × (e.kind ≡ ErrorKind.plain)
    × (e.permanent ≡ false)
    × (e.message ≡ codes "Report compiler returned non-JSON tool arguments")
unfolding w0
compile-Unreadable_example =
    compile-Unreadable services deepseek (λ request. done garbled) (λ t. none) input w0 garbled 7
      (codes "Report compiler returned non-JSON tool arguments") refl
      (Unreadable.no_json (codes "{sections") garbled-Calls refl refl)

-- A silent recording.
abbrev silence : DeepgramResponse
silence = record { error_message = none; transcript = some (codes "  ") }
