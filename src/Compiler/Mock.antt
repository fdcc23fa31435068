-- ===== src/Compiler/Mock.antt =====
-- server/src/processing/compiler/mock.provider.ts: the report of the mock compiler.
use field_note.Common.{Option, List, [], ◌∷◌, Text, codes}
use field_note.Severity.{ApiSeverity}
use field_note.Result.{M, ok}
use field_note.World.{CompileInput, Json}
use field_note.Compiler.Schema.{CompiledFinding, CompiledSection}
use field_note.Compiler.Fit.{report_json}

abbrev finding : ApiSeverity → Text → CompiledFinding
finding severity text = record { text = text; severity = severity }

abbrev section : Text → List CompiledFinding → CompiledSection
section title findings = record { title = title; findings = findings }

unfoldable pub mock_report : List CompiledSection
mock_report =
    section (codes "Roof") (
      finding ApiSeverity.repair
        (codes "Two shingles are lifted near the ridge; recommend repair before next winter.")
      ∷ finding ApiSeverity.maintenance (
          codes
            "Asphalt shingle roof is approximately 15 years old with granule loss on the south-facing slope.")
      ∷ [])
    ∷ section (codes "Gutters & Drainage") (
        finding ApiSeverity.repair (
          codes
            "Downspout at the northeast corner is disconnected, draining water against the foundation. Reattach the downspout.")
        ∷ finding ApiSeverity.maintenance
            (codes "Gutters are full of debris and should be cleaned.")
        ∷ [])
    ∷ section (codes "Exterior") (
        finding ApiSeverity.info (
          codes
            "Vinyl siding is in good condition overall, with minor fading on the west wall. No structural concerns.")
        ∷ [])
    ∷ section (codes "Electrical") (
        finding ApiSeverity.safety (
          codes
            "Double-tapped breaker on circuit twelve. Should be corrected by a licensed electrician.")
        ∷ finding ApiSeverity.info (codes "200 amp panel in the garage appears modern.")
        ∷ [])
    ∷ section (codes "Plumbing") (
        finding ApiSeverity.safety (
          codes
            "Water heater relief valve has no TPR discharge pipe installed. A proper discharge line is required.")
        ∷ finding ApiSeverity.repair
            (codes "Active leak at the P-trap under the kitchen sink should be repaired.")
        ∷ finding ApiSeverity.info (codes "Forty gallon gas water heater manufactured in 2016.")
        ∷ [])
    ∷ section (codes "Kitchen") (
        finding ApiSeverity.info (
          codes
            "GFCI outlets near the sink test and trip correctly; dishwasher runs without issue.")
        ∷ [])
    ∷ section (codes "Bathrooms") (
        finding ApiSeverity.repair (
          codes
            "Upstairs bathroom exhaust fan vents into the attic instead of outside; reroute to an exterior vent to prevent moisture problems.")
        ∷ [])
    ∷ section (codes "Attic") (
        finding ApiSeverity.maintenance (
          codes
            "Daylight visible at the plumbing vent roof penetration; minor air sealing recommended.")
        ∷ finding ApiSeverity.info
            (codes "Blown-in fiberglass insulation is adequate with no signs of pest activity.")
        ∷ [])
    ∷ section (codes "Basement & HVAC") (
        finding ApiSeverity.info
          (codes "Basement is dry with no efflorescence; sump pump tested functional.")
        ∷ finding ApiSeverity.info
            (codes "High-efficiency furnace was serviced this year per the service tag.")
        ∷ [])
    ∷ []

-- MockReportCompiler.compile
unfoldable pub mock_compile : {C : Type 0} → CompileInput → Option Text → M C Json
unfolding report_json mock_report
mock_compile input hint c = (ok (report_json mock_report), c)
