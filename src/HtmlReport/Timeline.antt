-- ===== src/HtmlReport/Timeline.antt =====
-- The steps of a loan in ui/web/src/lib/html-report-spec.ts.
use temporal_loom.Prelude.{
  Bool, true, false, not, ◌&&◌, List, [], ◌∷◌, ◌++◌, Option, none, some, Text, text, ◌==◌, contains,
  is_empty, or_text, any, if◌then◌else◌,
}
use temporal_loom.Pattern.{
  Pattern, ◌>>=◌, ◌>>◌, found, literal, maybe, word_end, is_digit, is_word, match_start, occurs,
  fold,
}
use temporal_loom.HtmlReport.Fields.{digits, has_any, has_any_i, normalize_label}

pub record TimelineEntry : Type 0 where
  pub time : Text
  pub title : Text
  pub status : Option Text

pub record Milestone : Type 0 where
  pub title : Text
  pub detail : Text
  pub status : Text

-- `\d{2}:\d{2}(?::\d{2})?\b`
abbrev seconds_of : Option Text → Text
seconds_of none = []
seconds_of (some t) = t

abbrev clock : Pattern Text
clock = digits 2 >>= λ h.
    literal ":"
    >> (digits 2 >>= λ m. maybe (literal ":" >> (digits 2 >>= λ s. found (b':' ∷ s))) >>= λ s.
        word_end >> found (h ++ (b':' ∷ (m ++ seconds_of s))))

-- The first such time that no unit of a word stands before.
unfoldable pub time_from : (after_word : Bool) → Text → Option Text
unfolding is_digit is_word
time_from after_word [] = none
time_from after_word (c ∷ s) =
    let later = time_from (is_word c) s in
    elim (match_start clock (c ∷ s)) [
      | none ↦ later
      | some t ↦ if after_word then later else some t
    ]

abbrev text_or : Text → Option Text → Text
text_or value none = value
text_or value (some t) = t

unfoldable pub time_only : Text → Text
unfolding time_from
time_only value = text_or value (time_from false value)

abbrev pub waiting_title : Text
waiting_title = text "Chờ Giải ngân"

abbrev pub waiting_detail : Text
waiting_detail = text "Hệ thống đang truy vấn trạng thái giải ngân từ partner."

-- `time ? `${label}${time}` : item.title`
abbrev at_time : Text → Text → Text → Text
at_time label time title = if is_empty time then title else label ++ time

module _ (without_marks : Text → Text) where
  -- By the normalised title, with the status and the time of day.
  abbrev milestone_of : Text → Text → Text → TimelineEntry → Text → Option Milestone
  milestone_of title status time item amount =
      if has_any ("created" ∷ "pass" ∷ "kyc" ∷ "nfc" ∷ "income" ∷ "tao ho so" ∷ []) title
      then some (record {
        title = text "Tạo hồ sơ & Pass Rules";
        detail = at_time (text "Hoàn tất lúc ") time item.title;
        status = status;
      })
      else if has_any ("submit" ∷ "partner submission" ∷ "handle submit" ∷ "gui du lieu" ∷ []) title
      then some (record {
        title = text "Gửi dữ liệu qua TNEX";
        detail = at_time (text "Submit thành công lúc ") time item.title;
        status = status;
      })
      else if has_any ("approved" ∷ "phe duyet" ∷ []) title
      then some (record {
        title = text "TNEX Phê duyệt";
        detail =
            at_time (text "Duyệt hạn mức " ++ (or_text amount (text "khoản vay") ++ text " lúc "))
              time item.title;
        status = status;
      })
      else if has_any ("contract signed" ∷ "signed" ∷ "ky hop dong" ∷ []) title
      then some (record {
        title = text "Ký Hợp đồng";
        detail =
            at_time (text "Khách hàng xác nhận và ký hợp đồng thành công lúc ") time item.title;
        status = status;
      })
      else if has_any ("cho giai ngan" ∷ "query_disbursement" ∷ []) title
      then some (record {
        title = waiting_title;
        detail = or_text item.time waiting_detail;
        status = text "active";
      })
      else none

  unfoldable pub normalize_timeline_item : TimelineEntry → Text → Option Milestone
  unfolding normalize_label time_only
  normalize_timeline_item item amount =
      milestone_of (normalize_label without_marks item.title) (text_or (text "done") item.status)
        (time_only item.time) item amount

  -- The loop of `milestoneItems`: the titles that were seen.
  unfoldable pub milestones_from : List Text → List TimelineEntry → Text → List Milestone
  unfolding normalize_timeline_item
  milestones_from seen [] amount = []
  milestones_from seen (item ∷ timeline) amount = elim (normalize_timeline_item item amount) [
    | none ↦ milestones_from seen timeline amount
    | some m ↦ elim (contains seen m.title) [
      | true ↦ milestones_from seen timeline amount
      | false ↦ m ∷ milestones_from (m.title ∷ seen) timeline amount
    ]
  ]

  unfoldable pub milestone_items : List TimelineEntry → Text → List Milestone
  unfolding milestones_from
  milestone_items timeline amount = milestones_from [] timeline amount

  abbrev is_waiting : List Milestone → Bool
  is_waiting items = any (λ item. item.title == waiting_title) items

  unfoldable pub timeline_items :
      List TimelineEntry → (status_name summary amount : Text) → List Milestone
  unfolding milestone_items occurs fold
  timeline_items timeline status_name summary amount =
      let items = milestone_items timeline amount in
      if not (is_empty status_name) && not (is_waiting items)
      then items
        ++ (record {
          title = if status_name == text "QUERY_DISBURSEMENT" then waiting_title else status_name;
          detail = or_text summary waiting_detail;
          status =
              if has_any_i ("error" ∷ "failed" ∷ "rejected" ∷ []) summary
              then text "error"
              else text "active";
        })
          ∷ []
      else items
