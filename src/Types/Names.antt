-- ===== src/Types/Names.antt =====
-- The String methods of internal/smsc/types.go, and the errors of errors.go.
use smpp_smsc.Base.{Bytes, ◌++◌}
use smpp_smsc.Text.{codes}
use smpp_smsc.Types.{
  BindingType, none_bound, transceiver, transmitter, receiver, DeliveryReportResult, unspecified,
  sent, skipped_no_receipt, skipped_success_only, skipped_failure_only, skipped_session_closed,
  skipped_queue_full,
}

unfoldable pub binding_type_string : BindingType → Bytes
binding_type_string none_bound = codes "none"
binding_type_string transceiver = codes "transceiver"
binding_type_string transmitter = codes "transmitter"
binding_type_string receiver = codes "receiver"

unfoldable pub report_result_string : DeliveryReportResult → Bytes
report_result_string unspecified = codes "UNSPECIFIED"
report_result_string sent = codes "SENT"
report_result_string skipped_no_receipt = codes "SKIPPED_NO_RECEIPT"
report_result_string skipped_success_only = codes "SKIPPED_SUCCESS_ONLY"
report_result_string skipped_failure_only = codes "SKIPPED_FAILURE_ONLY"
report_result_string skipped_session_closed = codes "SKIPPED_SESSION_CLOSED"
report_result_string skipped_queue_full = codes "SKIPPED_QUEUE_FULL"

-- The SmppError of internal/smsc/errors.go, and its text.
pub record SmppError : Type 0 where
  pub code : Bytes
  pub message : Bytes

unfoldable pub smpp_error_text : SmppError → Bytes
smpp_error_text e = codes "SMPP error [" ++ e.code ++ codes "]: " ++ e.message

unfoldable pub new_smpp_error : Bytes → Bytes → SmppError
new_smpp_error code message = record { code = code; message = message }

abbrev pub err_invalid_pdu : SmppError
err_invalid_pdu = new_smpp_error (codes "invalid_pdu") (codes "invalid PDU format")

abbrev pub err_invalid_system_id : SmppError
err_invalid_system_id = new_smpp_error (codes "invalid_system_id") (codes "invalid system ID")

abbrev pub err_invalid_password : SmppError
err_invalid_password = new_smpp_error (codes "invalid_password") (codes "invalid password")

abbrev pub err_session_closed : SmppError
err_session_closed = new_smpp_error (codes "session_closed") (codes "session is closed")

abbrev pub err_timeout : SmppError
err_timeout = new_smpp_error (codes "timeout") (codes "operation timed out")
