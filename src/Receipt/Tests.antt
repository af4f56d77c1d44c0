-- ===== src/Receipt/Tests.antt =====
-- Runs of delivery_report.go.
use smpp_smsc.Base.{ℕ, ◌+◌, ◌≡◌, ◌/◌, ◌≢◌, refl, true, some, All, arith}
use smpp_smsc.Text.{codes}
use smpp_smsc.Types.{PendingRequest}
use smpp_smsc.Receipt.{
  format_receipt_date_time, format_delivery_receipt_string, build_delivery_receipt_from_pending,
  segment_count_for_receipt,
}
use smpp_smsc.Receipt.Dates.{read_receipt_date_time, read_receipt_date_time-format}
use smpp_smsc.Receipt.Contents.{IsUsual, receipt_tells}

-- 2024-02-29, 12:34.
abbrev leap_day : ℕ
leap_day = 1_709_210_040_000_000_000

read_receipt_date_time-format_example :
    read_receipt_date_time (format_receipt_date_time leap_day) ≡ some (leap_day / 60_000_000_000)
read_receipt_date_time-format_example =
    read_receipt_date_time-format leap_day (omega arith) (omega arith)

-- One part either way, and submitted within one minute.
abbrev unsplit : PendingRequest
unsplit = record { segments_count = 0; registered_delivery = 1; created_at = leap_day }

abbrev one_part : PendingRequest
one_part = record {
  segments_count = 1;
  registered_delivery = 3;
  created_at = leap_day + 30_000_000_000;
}

no_space : All (λ c. c ≢ 32) (codes "42")
no_space = (λ e. absurd (omega (arith, e)), (λ e. absurd (omega (arith, e)), tt))

unsplit-IsUsual : IsUsual (codes "42") unsplit true leap_day
unsplit-IsUsual = record {
  no_space = no_space;
  one_octet = omega arith;
  submitted = (omega arith, omega arith);
  finished = (omega arith, omega arith);
}

one_part-IsUsual : IsUsual (codes "42") one_part true leap_day
one_part-IsUsual = record {
  no_space = no_space;
  one_octet = omega arith;
  submitted = (omega arith, omega arith);
  finished = (omega arith, omega arith);
}

same_text :
    format_delivery_receipt_string
      (build_delivery_receipt_from_pending (codes "42") unsplit true leap_day)
    ≡ format_delivery_receipt_string
        (build_delivery_receipt_from_pending (codes "42") one_part true leap_day)
unfolding build_delivery_receipt_from_pending segment_count_for_receipt format_receipt_date_time
same_text = refl

receipt_tells_example :
    (codes "42" ≡ codes "42")
    × (segment_count_for_receipt 0 ≡ segment_count_for_receipt 1)
    × (true ≡ true)
    × (leap_day / 60_000_000_000 ≡ (leap_day + 30_000_000_000) / 60_000_000_000)
    × (leap_day / 60_000_000_000 ≡ leap_day / 60_000_000_000)
receipt_tells_example =
    receipt_tells (codes "42") (codes "42") unsplit one_part true true leap_day leap_day
      unsplit-IsUsual one_part-IsUsual same_text
