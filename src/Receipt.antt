-- ===== src/Receipt.antt =====
-- internal/smsc/delivery_report.go: the text of a delivery receipt. A time is a number of
-- nanoseconds since 1970, as time.Time's UnixNano.
pub mod Dates
pub mod Contents
mod Tests
use smpp_smsc.Base.{
  ℕ, ◌+◌, ◌-◌, ◌*◌, ◌/◌, ◌%◌, Bool, true, false, List, [], ◌∷◌, ◌++◌, Bytes, ltb, leb, nat_eq, ◌==◌,
  not, ◌||◌, if◌then◌else◌,
}
use smpp_smsc.Base.Decimal.{padded}
use smpp_smsc.Text.{codes}
use smpp_smsc.Types.{PendingRequest}

abbrev pub delivery_stat_delivered : Bytes
delivery_stat_delivered = codes "DELIVRD"

abbrev pub delivery_stat_undelivered : Bytes
delivery_stat_undelivered = codes "UNDELIV"

abbrev pub delivery_err_ok : Bytes
delivery_err_ok = codes "000"

abbrev pub delivery_err_undelivered : Bytes
delivery_err_undelivered = codes "069"

pub record DeliveryReceiptFields : Type 0 where
  pub id : Bytes
  pub sub : Bytes
  pub dlvrd : Bytes
  pub submit_date : Bytes
  pub done_date : Bytes
  pub stat : Bytes
  pub err : Bytes
  pub text : Bytes

unfoldable pub format_delivery_receipt_string : DeliveryReceiptFields → Bytes
format_delivery_receipt_string r =
    codes "id:"
    ++ (r.id
        ++ (codes " sub:"
            ++ (r.sub
                ++ (codes " dlvrd:"
                    ++ (r.dlvrd
                        ++ (codes " submit date:"
                            ++ (r.submit_date
                                ++ (codes " done date:"
                                    ++ (r.done_date
                                        ++ (codes " stat:"
                                            ++ (r.stat
                                                ++ (codes " err:"
                                                    ++ (r.err
                                                        ++ (codes " text:" ++ r.text))))))))))))))

-- A date of the Gregorian calendar.
pub record Date : Type 0 where
  pub year : ℕ
  pub month : ℕ
  pub day : ℕ

-- The date of a day counted from 1970-01-01, by years that begin in March, as in time.Time.
unfoldable pub date_of : ℕ → Date
date_of days =
    let shifted = days + 719468 in
    let era = shifted / 146097 in
    let of_era = shifted % 146097 in
    let year_of_era = (of_era - of_era / 1460 + of_era / 36524 - of_era / 146096) / 365 in
    let of_year = of_era - (365 * year_of_era + year_of_era / 4 - year_of_era / 100) in
    let from_march = (5 * of_year + 2) / 153 in
    let month = if ltb from_march 10 then from_march + 3 else from_march - 9 in
    record {
      year = year_of_era + era * 400 + (if leb month 2 then 1 else 0);
      month = month;
      day = of_year - (153 * from_march + 2) / 5 + 1;
    }

-- The layout "0601021504".
unfoldable pub format_receipt_date_time : ℕ → Bytes
format_receipt_date_time t =
    let seconds = t / 1_000_000_000 in
    let date = date_of (seconds / 86400) in
    let of_day = seconds % 86400 in
    padded 2 (date.year % 100)
    ++ (padded 2 date.month
        ++ (padded 2 date.day ++ (padded 2 (of_day / 3600) ++ padded 2 (of_day % 3600 / 60))))

unfoldable pub segment_count_for_receipt : ℕ → ℕ
segment_count_for_receipt segments = if segments == 0 then 1 else segments

-- The argument is a count, so the test for a negative number never holds.
unfoldable pub format_sub_dlvrd3 : ℕ → Bytes
format_sub_dlvrd3 n = padded 3 (if ltb 999 n then 999 else n)

unfoldable pub build_delivery_receipt_from_pending :
    Bytes → PendingRequest → Bool → ℕ → DeliveryReceiptFields
build_delivery_receipt_from_pending message_id pr success now =
    let sub = format_sub_dlvrd3 (segment_count_for_receipt pr.segments_count) in
    record {
      id = message_id;
      sub = sub;
      dlvrd = if success then sub else codes "000";
      submit_date = format_receipt_date_time pr.created_at;
      done_date = format_receipt_date_time now;
      stat = if success then delivery_stat_delivered else delivery_stat_undelivered;
      err = if success then delivery_err_ok else delivery_err_undelivered;
      text = [];
    }

-- strings.TrimSpace is an input: it trims every space of Unicode.
unfoldable pub build_delivery_receipt_from_pending_with_text :
    (Bytes → Bytes) → Bytes → PendingRequest → Bool → ℕ → Bytes → DeliveryReceiptFields
build_delivery_receipt_from_pending_with_text trim_space message_id pr success now text =
    record (build_delivery_receipt_from_pending message_id pr success now) {
      text = trim_space text;
    }
