-- ===== src/Pdf.antt =====
-- server/src/processing/pdf/report-html.ts and pdf-renderer.service.ts: the HTML document of a
-- report, and its rendering by a headless browser.
mod Style
pub mod Dates
pub mod Safety
pub mod Browser
pub mod Single
pub mod Pages
use field_note.Common.{
  ℕ, ◌+◌, Bool, List, [], ◌∷◌, ◌++◌, map, Text, codes, ltb, ◌==◌, is_empty, length, filter, count,
  show_nat, if◌then◌else◌,
}
use field_note.Severity.{ApiSeverity}
use field_note.World.{World, Action, call, Bytes, Services}
use field_note.Compiler.Prompts.{join}
use Style.{style_lines}
use Dates.{format_date}

pub record ReportFindingView : Type 0 where
  pub text : Text
  pub severity : ApiSeverity

pub record ReportSectionView : Type 0 where
  pub title : Text
  pub findings : List ReportFindingView

pub record ReportView : Type 0 where
  pub job_id : Text
  pub label : Text
  pub generated_at : ℕ
  pub sections : List ReportSectionView

record SeverityStyle : Type 0 where
  label : Text
  fg : Text
  bg : Text
  border : Text

-- SEVERITY_STYLES
severity_styles : ApiSeverity → SeverityStyle
severity_styles ApiSeverity.safety = record {
  label = codes "Safety";
  fg = codes "#7f1d1d";
  bg = codes "#fee2e2";
  border = codes "#fca5a5";
}
severity_styles ApiSeverity.repair = record {
  label = codes "Repair";
  fg = codes "#7c2d12";
  bg = codes "#ffedd5";
  border = codes "#fdba74";
}
severity_styles ApiSeverity.maintenance = record {
  label = codes "Maintenance";
  fg = codes "#713f12";
  bg = codes "#fef9c3";
  border = codes "#fde047";
}
severity_styles ApiSeverity.info = record {
  label = codes "Info";
  fg = codes "#1e3a8a";
  bg = codes "#dbeafe";
  border = codes "#93c5fd";
}

-- SEVERITY_ORDER
severity_order : List ApiSeverity
severity_order =
    ApiSeverity.safety ∷ ApiSeverity.repair ∷ ApiSeverity.maintenance ∷ ApiSeverity.info ∷ []

-- HTML_ESCAPES, over every character of the text
escape_char : ℕ → Text
escape_char c =
    if c == b'&'
    then codes "&amp;"
    else if c == b'<'
    then codes "&lt;"
    else if c == b'>'
    then codes "&gt;"
    else if c == b'"'
    then codes "&quot;"
    else if c == b'\''
    then codes "&#39;"
    else c ∷ []

unfoldable pub escape_html : Text → Text
unfolding escape_char
escape_html [] = []
escape_html (c ∷ s) = escape_char c ++ escape_html s

-- The colours of a chip or a badge.
style_attribute : SeverityStyle → Text
style_attribute s =
    codes "color:"
    ++ (s.fg ++ (codes ";background:" ++ (s.bg ++ (codes ";border-color:" ++ s.border))))

-- One case of the table of counts for each severity.
same_severity : ApiSeverity → ApiSeverity → Bool
same_severity ApiSeverity.safety ApiSeverity.safety = Bool.true
same_severity ApiSeverity.repair ApiSeverity.repair = Bool.true
same_severity ApiSeverity.maintenance ApiSeverity.maintenance = Bool.true
same_severity ApiSeverity.info ApiSeverity.info = Bool.true
same_severity _ _ = Bool.false

-- countBySeverity, at one severity
unfoldable pub count_by_severity : List ReportSectionView → ApiSeverity → ℕ
unfolding same_severity count
count_by_severity [] sev = 0
count_by_severity (section ∷ sections) sev =
    count (λ f. same_severity f.severity sev) section.findings + count_by_severity sections sev

-- The `reduce` of `totalFindings`.
unfoldable pub total_findings : List ReportSectionView → ℕ
total_findings [] = 0
total_findings (section ∷ sections) = length section.findings + total_findings sections

finding_item : ReportFindingView → Text
unfolding severity_styles style_attribute escape_html
finding_item f =
    let s = severity_styles f.severity in
    codes "      <li class=\"finding\">\n        <span class=\"sev\" style=\""
    ++ (style_attribute s
        ++ (codes "\">"
            ++ (s.label
                ++ (codes "</span>\n        <span class=\"finding-text\">"
                    ++ (escape_html f.text ++ codes "</span>\n      </li>")))))

render_section : ReportSectionView → Text
unfolding finding_item escape_html join
render_section section =
    codes "    <section class=\"report-section\">\n      <h2>"
    ++ (escape_html section.title
        ++ (codes "</h2>\n      <ul class=\"findings\">\n"
            ++ (join (codes "\n") (map finding_item section.findings)
                ++ codes "\n      </ul>\n    </section>")))

chip : List ReportSectionView → ApiSeverity → Text
unfolding severity_styles style_attribute count_by_severity show_nat
chip sections sev =
    let s = severity_styles sev in
    codes "<span class=\"chip\" style=\""
    ++ (style_attribute s
        ++ (codes "\">"
            ++ (s.label
                ++ (codes ": " ++ (show_nat (count_by_severity sections sev) ++ codes "</span>")))))

summary_chips : List ReportSectionView → Text
unfolding severity_order chip count_by_severity filter join
summary_chips sections =
    let chips = join [] (
      map (chip sections)
        (filter (λ sev. ltb 0 (count_by_severity sections sev)) severity_order)) in
    if is_empty chips
    then codes
        "<span class=\"chip\" style=\"color:#1e3a8a;background:#dbeafe;border-color:#93c5fd\">No findings</span>"
    else chips

sections_html : List ReportSectionView → Text
unfolding render_section join
sections_html [] = codes "<p class=\"empty\">No findings were recorded for this inspection.</p>"
sections_html (s ∷ ss) = join (codes "\n") (map render_section (s ∷ ss))

-- The document, line by line.
document_lines : ReportView → List Text
unfolding escape_html format_date show_nat total_findings summary_chips sections_html
document_lines view =
    let total = total_findings view.sections in
    codes "<!doctype html>"
    ∷ codes "<html lang=\"en\">"
    ∷ codes "<head>"
    ∷ codes "<meta charset=\"utf-8\" />"
    ∷ codes "<meta name=\"viewport\" content=\"width=device-width, initial-scale=1\" />"
    ∷ (codes "<title>" ++ (escape_html view.label ++ codes " — Inspection Report</title>"))
    ∷ codes "<style>"
    ∷ (style_lines
        ++ (codes "</style>"
            ∷ codes "</head>"
            ∷ codes "<body>"
            ∷ codes "  <div class=\"page\">"
            ∷ codes "    <header class=\"report-head\">"
            ∷ codes "      <div class=\"brand\">FieldNote</div>"
            ∷ (codes "      <h1>" ++ (escape_html view.label ++ codes "</h1>"))
            ∷ (codes "      <div class=\"meta\">Inspection Report &middot; Generated <strong>"
                ++ (escape_html (format_date view.generated_at)
                    ++ (codes "</strong> &middot; "
                        ++ (show_nat total
                            ++ (codes " finding"
                                ++ ((if total == 1 then [] else codes "s") ++ codes "</div>"))))))
            ∷ codes "    </header>"
            ∷ []
            ∷ codes "    <div class=\"summary\">"
            ∷ codes "      <div class=\"summary-title\">Summary</div>"
            ∷ (codes "      <div class=\"chips\">"
                ++ (summary_chips view.sections ++ codes "</div>"))
            ∷ codes "    </div>"
            ∷ []
            ∷ (codes "    " ++ sections_html view.sections)
            ∷ []
            ∷ codes "    <footer class=\"report-foot\">"
            ∷ codes "      <span>Generated by FieldNote</span>"
            ∷ (codes "      <span>Report " ++ (escape_html view.job_id ++ codes "</span>"))
            ∷ codes "    </footer>"
            ∷ codes "  </div>"
            ∷ codes "</body>"
            ∷ codes "</html>"
            ∷ []))

unfoldable pub build_report_html : ReportView → Text
unfolding document_lines join
build_report_html view = join (codes "\n") (document_lines view)

-- PdfRendererService.render: that the document is printed is a call to the outside here; what it does
-- there is in Browser and Pages.
unfoldable pub render : {C : Type 0} → Services C → ReportView → Action C Bytes
render S view = call (S.print_pdf (build_report_html view))
