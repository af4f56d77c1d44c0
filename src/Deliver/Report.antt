-- ===== src/Deliver/Report.antt =====
-- SendDeliveryReport of internal/smsc/server.go, once the session is found.
use smpp_smsc.Base.{ℕ, Bool, not, Option, none, some, Bytes, nat_eq, ◌==◌, if◌then◌else◌, length}
use smpp_smsc.Wire.{GoSmpp}
use smpp_smsc.Wire.Constants.{esm_class_delivery_receipt}
use smpp_smsc.Types.{
  is_receiver, PendingRequest, requires_delivery_receipt, should_send_delivery_receipt,
  get_receipt_type, success_only_receipt, failure_only_receipt, DeliveryReportResult, unspecified,
  sent, skipped_no_receipt, skipped_success_only, skipped_failure_only, skipped_session_closed,
  skipped_queue_full,
}
use smpp_smsc.Session.{Session, message, load_pending, remove_pending_request_by_message_id}
use smpp_smsc.Receipt.{
  format_delivery_receipt_string, build_delivery_receipt_from_pending,
  build_delivery_receipt_from_pending_with_text,
}
use smpp_smsc.Deliver.{
  DeliverSmParams, new_deliver_sm_params, deliver, DeliverResult, refused, delivered, ServerError,
  session_not_found, session_not_bound, invalid_binding_type, context_error, session_was_closed,
  queue_timed_out, pending_not_found, empty_text, no_session_id, no_addresses, encoding_failed,
  application_mismatch,
}

-- The result, the error beside it, and the session after.
abbrev pub Report : Type 0
Report = DeliveryReportResult × Option ServerError × Session

-- The arguments of the call. `expired` says that the caller's context is done.
pub record Request : Type 0 where
  pub source : Bytes
  pub dest : Bytes
  pub message_id : Bytes
  pub internal_id : ℕ
  pub success : Bool
  pub receipt_text : Bytes
  pub expired : Bool

unfoldable pub policy_result : ℕ → DeliveryReportResult
policy_result kind =
    if kind == success_only_receipt
    then skipped_success_only
    else if kind == failure_only_receipt
    then skipped_failure_only
    else skipped_no_receipt

-- Only the queue's error has the word "timeout"; the first value of the enumeration is 0.
unfoldable pub refusal_result : ServerError → DeliveryReportResult
refusal_result session_was_closed = skipped_session_closed
refusal_result queue_timed_out = skipped_queue_full
refusal_result session_not_found = unspecified
refusal_result session_not_bound = unspecified
refusal_result invalid_binding_type = unspecified
refusal_result context_error = unspecified
refusal_result pending_not_found = unspecified
refusal_result empty_text = unspecified
refusal_result no_session_id = unspecified
refusal_result no_addresses = unspecified
refusal_result encoding_failed = unspecified
refusal_result application_mismatch = unspecified

-- `now` is the receipt's clock, `later` that of the deliver_sm.
module _ (lib : GoSmpp) (trim_space : Bytes → Bytes) (now later : ℕ) where
  unfoldable pub receipt_params : Request → PendingRequest → DeliverSmParams
  unfolding new_deliver_sm_params
  receipt_params q pr =
      let fields =
        if length q.receipt_text == 0
        then build_delivery_receipt_from_pending q.message_id pr q.success now
        else build_delivery_receipt_from_pending_with_text trim_space q.message_id pr q.success now
            q.receipt_text in
      record (new_deliver_sm_params lib q.source q.dest (format_delivery_receipt_string fields)) {
        data_coding = lib.default_type;
        esm_class = esm_class_delivery_receipt;
      }

  unfoldable pub after_deliver : ℕ → DeliverResult → Session → Report
  unfolding refusal_result
  after_deliver id (refused e) s = (refusal_result e, some e, s)
  after_deliver id (delivered seq) s = (sent, none, remove_pending_request_by_message_id s id)

  unfoldable pub report_pending : Request → Option PendingRequest → Session → Report
  unfolding receipt_params after_deliver policy_result deliver
  report_pending q none s = (skipped_no_receipt, some pending_not_found, s)
  report_pending q (some pr) s =
      if not (requires_delivery_receipt pr.registered_delivery)
      then (skipped_no_receipt, none, remove_pending_request_by_message_id s q.internal_id)
      else if not (should_send_delivery_receipt pr.registered_delivery q.success)
      then (
        policy_result (get_receipt_type pr.registered_delivery),
        none,
        remove_pending_request_by_message_id s q.internal_id,
      )
      else let (result, s1) = deliver lib q.expired later (receipt_params q pr) s in
        after_deliver q.internal_id result s1

  -- The send finds the same session again, so that the second search is left out.
  unfoldable pub report_on : Request → Session → Report
  unfolding report_pending load_pending
  report_on q s =
      if not s.bound
      then (skipped_session_closed, some session_not_bound, s)
      else if not (is_receiver s.binding_type)
      then (skipped_session_closed, some invalid_binding_type, s)
      else report_pending q (load_pending s (message q.internal_id)) s
