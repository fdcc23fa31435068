-- ===== src/Pdf/Style.antt =====
-- The constant part of the document of server/src/processing/pdf/report-html.ts.
use field_note.Common.{List, [], ◌∷◌, Text, codes}

-- The lines between `<style>` and `</style>`.
pub style_lines : List Text
style_lines =
    codes "  :root { color-scheme: light; }"
    ∷ codes "  * { box-sizing: border-box; }"
    ∷ codes "  html, body { margin: 0; padding: 0; }"
    ∷ codes "  body {"
    ∷ codes
        "    font-family: -apple-system, BlinkMacSystemFont, \"Segoe UI\", Roboto, Helvetica, Arial, sans-serif;"
    ∷ codes "    color: #0f172a;"
    ∷ codes "    font-size: 12px;"
    ∷ codes "    line-height: 1.5;"
    ∷ codes "    -webkit-print-color-adjust: exact;"
    ∷ codes "    print-color-adjust: exact;"
    ∷ codes "  }"
    ∷ codes "  .page { padding: 40px 44px; }"
    ∷ codes "  header.report-head {"
    ∷ codes "    border-bottom: 3px solid #0f172a;"
    ∷ codes "    padding-bottom: 16px;"
    ∷ codes "    margin-bottom: 24px;"
    ∷ codes "  }"
    ∷ codes
        "  .brand { font-size: 13px; font-weight: 700; letter-spacing: 0.14em; text-transform: uppercase; color: #2563eb; }"
    ∷ codes "  h1 { font-size: 24px; margin: 6px 0 2px; line-height: 1.2; }"
    ∷ codes "  .meta { color: #475569; font-size: 11px; margin-top: 4px; }"
    ∷ codes "  .meta strong { color: #0f172a; }"
    ∷ codes "  .summary { margin: 18px 0 28px; }"
    ∷ codes
        "  .summary-title { font-size: 11px; text-transform: uppercase; letter-spacing: 0.08em; color: #64748b; margin-bottom: 8px; }"
    ∷ codes "  .chips { display: flex; flex-wrap: wrap; gap: 8px; }"
    ∷ codes "  .chip {"
    ∷ codes "    display: inline-block;"
    ∷ codes "    font-size: 11px;"
    ∷ codes "    font-weight: 600;"
    ∷ codes "    padding: 3px 10px;"
    ∷ codes "    border-radius: 999px;"
    ∷ codes "    border: 1px solid transparent;"
    ∷ codes "  }"
    ∷ codes "  section.report-section { margin-bottom: 22px; page-break-inside: avoid; }"
    ∷ codes "  section.report-section > h2 {"
    ∷ codes "    font-size: 15px;"
    ∷ codes "    margin: 0 0 10px;"
    ∷ codes "    padding-bottom: 6px;"
    ∷ codes "    border-bottom: 1px solid #e2e8f0;"
    ∷ codes "  }"
    ∷ codes "  ul.findings { list-style: none; margin: 0; padding: 0; }"
    ∷ codes "  li.finding {"
    ∷ codes "    display: flex;"
    ∷ codes "    gap: 12px;"
    ∷ codes "    align-items: flex-start;"
    ∷ codes "    padding: 9px 0;"
    ∷ codes "    border-bottom: 1px solid #f1f5f9;"
    ∷ codes "    page-break-inside: avoid;"
    ∷ codes "  }"
    ∷ codes "  li.finding:last-child { border-bottom: none; }"
    ∷ codes "  .sev {"
    ∷ codes "    flex: 0 0 auto;"
    ∷ codes "    font-size: 10px;"
    ∷ codes "    font-weight: 700;"
    ∷ codes "    text-transform: uppercase;"
    ∷ codes "    letter-spacing: 0.04em;"
    ∷ codes "    padding: 2px 8px;"
    ∷ codes "    border-radius: 4px;"
    ∷ codes "    border: 1px solid transparent;"
    ∷ codes "    min-width: 74px;"
    ∷ codes "    text-align: center;"
    ∷ codes "  }"
    ∷ codes "  .finding-text { flex: 1 1 auto; }"
    ∷ codes "  .empty { color: #64748b; font-style: italic; }"
    ∷ codes "  footer.report-foot {"
    ∷ codes "    margin-top: 32px;"
    ∷ codes "    padding-top: 12px;"
    ∷ codes "    border-top: 1px solid #e2e8f0;"
    ∷ codes "    color: #94a3b8;"
    ∷ codes "    font-size: 10px;"
    ∷ codes "    display: flex;"
    ∷ codes "    justify-content: space-between;"
    ∷ codes "  }"
    ∷ []
