-- ===== src/HtmlReport.antt =====
-- ui/web/src/lib/html-report-spec.ts: the report spec of an HTML answer. `none` is an exception.
mod Entities
mod Markup
mod Tables
mod Generic
mod Fields
mod Timeline
mod Loan
pub mod Closed
pub mod Plain
pub mod Returns
pub mod Milestones
unfoldable pub use Entities.*
unfoldable pub use Markup.*
unfoldable pub use Tables.*
unfoldable pub use Generic.*
unfoldable pub use Fields.*
unfoldable pub use Timeline.*
unfoldable pub use Loan.*
use temporal_loom.Prelude.{
  ℕ, Bool, true, false, not, List, [], ◌∷◌, ◌++◌, map, Option, none, some, Text, text, eqb, Dict,
  lookup, or_text, is_empty, String, if◌then◌else◌,
}
use temporal_loom.Prelude.Options
use temporal_loom.Json.{Json, str, array, object}
use temporal_loom.Report.Spec.{ReportElement, ReportSpec}
use temporal_loom.Pattern.{
  Pattern, ◌>>=◌, ◌>>◌, found, plus, literal, first_match, star, occurs, fold,
}

abbrev value_or_empty : Option Text → Text
value_or_empty none = []
value_or_empty (some t) = t

abbrev field : String → Dict Text → Text
field label fields = value_or_empty (lookup (text label) fields)

abbrev text_or : Text → Option Text → Text
text_or t none = t
text_or t (some s) = s

-- `/\(([^)]+)\)/`
unfoldable pub in_brackets : Pattern Text
unfolding star
in_brackets = literal "(" >> (plus (λ c. not (eqb c b')')) >>= λ t. literal ")" >> found t)

unfoldable pub status_name_of : Text → Text
unfolding in_brackets first_match
status_name_of status = text_or status (first_match in_brackets status)

abbrev summary_tone : Text → Text → Text
summary_tone summary status =
    if has_any_i ("error" ∷ "failed" ∷ "rejected" ∷ []) summary
    then text "error"
    else if has_any_i ("waiting" ∷ "query" ∷ "pending" ∷ []) (summary ++ status)
    then text "warning"
    else text "success"

abbrev status_label : Text → Text → Text
status_label status_name status =
    if is_empty status_name
    then status
    else text "IN PROGRESS (Chờ giải ngân: " ++ (status_name ++ text ")")

abbrev step_json : Milestone → Json
step_json m = object (
    (text "title", str m.title)
    ∷ (text "detail", str m.detail)
    ∷ (text "status", str m.status)
    ∷ [])

-- `loanStatusHtmlToReportSpec(html) ?? genericHtmlToReportSpec(html)`
abbrev pub or_generic : Text → Option ReportSpec → Option ReportSpec
or_generic html none = generic_html_to_report_spec html
or_generic html (some spec) = some spec

module _ (without_marks : Text → Text) where
  unfoldable pub loan_props : LoanStatusReport → Dict Json
  unfolding status_name_of split_amount_term timeline_items lookup occurs fold
  loan_props report =
      let status = field "Status" report.fields in
      let status_name = status_name_of status in
      let (amount, term) = split_amount_term (lookup (text "Amount/Term") report.fields) in
      let final_amount = or_text amount (field "Amount" report.fields) in
      let final_term = or_text term (field "Term" report.fields) in
      (text "title", str (text "Chi tiết Hồ sơ Vay"))
      ∷ (text "description", str (or_text report.summary report.title))
      ∷ (text "statusLabel", str (status_label status_name status))
      ∷ (text "statusTone", str (summary_tone report.summary status))
      ∷ (text "partner", str (field "Partner" report.fields))
      ∷ (text "amount", str final_amount)
      ∷ (text "term", str final_term)
      ∷ (text "loanId", str (field "Loan ID" report.fields))
      ∷ (text "zalopayId", str (field "Zalopay ID" report.fields))
      ∷ (text "contractId", str (field "Contract ID" report.fields))
      ∷ (text "score", str (field "Score/ZLP Score" report.fields))
      ∷ (
        text "steps",
        array (
            map step_json (
              timeline_items without_marks report.timeline status_name report.summary
                final_amount)),
      )
      ∷ []

  unfoldable pub loan_spec : LoanStatusReport → ReportSpec
  unfolding loan_props
  loan_spec report = record {
    root = text "root";
    elements =
        (
          text "root",
          record { type = text "LoanStatusCard"; fields = loan_props report; children = [] },
        )
        ∷ [];
    state = none;
  }

  unfoldable pub loan_status_html_to_report_spec : Text → Option (Option ReportSpec)
  unfolding loan_spec parse_loan_status_report
  loan_status_html_to_report_spec html =
      Options.map_some (λ report. Options.map_some loan_spec report)
        (parse_loan_status_report without_marks html)

  unfoldable pub html_to_report_spec : Text → Option ReportSpec
  unfolding loan_status_html_to_report_spec generic_html_to_report_spec
  html_to_report_spec html =
      Options.◌>>=◌ (loan_status_html_to_report_spec html) (λ spec. or_generic html spec)
