-- ===== src/Session/Submit.antt =====
-- internal/smsc/session.go: `handleSubmitSM` with the bookkeeping of replace_if_present and of the
-- pending delivery receipts.
pub mod Replace
pub mod Outcome
pub mod Output
use smpp_smsc.Base.{
  ℕ, zero, suc, ◌+◌, Bool, true, false, not, ◌&&◌, Option, none, some, List, [], ◌∷◌, ◌++◌, Bytes,
  nat_eq, bytes_eq, ltb, ◌==◌, if◌then◌else◌, length,
}
use smpp_smsc.Base.Decimal.{decimal}
use smpp_smsc.Base.Maps.{lookup, insert, delete}
use smpp_smsc.Wire.{GoSmpp}
use smpp_smsc.Wire.Constants.{status_ok, status_sys_err, status_inv_data_coding}
use smpp_smsc.Types.{
  SubmitSmParams, SmppResponse, PendingRequest, requires_delivery_receipt, get_message,
}
use smpp_smsc.Message.{decode_message}
use smpp_smsc.Charset.{calc_segments}
use smpp_smsc.Segments.{MessageSegment, AddResult, add_segment}
use smpp_smsc.Session.{
  Session, message, store_pending, register_message_id, remove_pending_request_by_message_id,
}
use smpp_smsc.Session.Handler.{Handler}

-- The key of the last accepted submit_sm on one route; the parts are joined by zero bytes.
unfoldable pub make_replace_submit_key : SubmitSmParams → Bytes
make_replace_submit_key p =
    p.service_type
    ++ (0 ∷ (p.source_addr ++ (0 ∷ (p.dest_addr ++ (0 ∷ decimal p.sm_default_msg_id)))))

unfoldable pub replace_found : Session → Bytes → Option ℕ → Session
replace_found s key none = s
replace_found s key (some old_id) =
    let s1 = remove_pending_request_by_message_id s old_id in
    record s1 { replace_submit_last = delete key s1.replace_submit_last }

unfoldable pub try_replace_previous_submit : SubmitSmParams → Session → Session
unfolding replace_found
try_replace_previous_submit p s =
    if p.replace_if_present_flag == 0
    then s
    else replace_found s (make_replace_submit_key p)
        (lookup (make_replace_submit_key p) s.replace_submit_last)

unfoldable pub record_replaceable_submit : SubmitSmParams → ℕ → Session → Session
record_replaceable_submit p message_id s = if message_id == 0 then s else record s {
  replace_submit_last = insert (make_replace_submit_key p) message_id s.replace_submit_last;
}

-- What `handleSubmitSM` returns: message ID, response, err != nil.
pub record SubmitResult : Type 0 where
  pub message_id : ℕ
  pub response : SmppResponse
  pub failed : Bool

abbrev pub answer : ℕ → ℕ → Bool → SubmitResult
answer message_id status failed = record {
  message_id = message_id;
  response = record { msg = []; status = status };
  failed = failed;
}

unfoldable pub response_or_error : Option SmppResponse → SmppResponse
response_or_error none = record { msg = []; status = status_sys_err }
response_or_error (some r) = r

-- The pending entry for the receipt, and the route from the message ID to the session.
unfoldable pub remember_receipt : SubmitSmParams → ℕ → ℕ → Session → Session
remember_receipt p message_id now s =
    register_message_id
      (store_pending s (message message_id) (record {
        segments_count = calc_segments p.data_coding p.text;
        registered_delivery = p.registered_delivery;
        created_at = now;
      }))
      message_id

module _ (lib : GoSmpp) (handler : Handler) where
  -- The common end of both branches, on the complete message.
  unfoldable pub accept : SubmitSmParams → ℕ → Bool → ℕ → Session → SubmitResult × Session
  unfolding response_or_error
  accept p message_id receipt now s =
      let (r, s1) = handler.handle_submit_sm p (try_replace_previous_submit p s) in
      let response = response_or_error r in
      let s2 = if receipt then remember_receipt p message_id now s1 else s1 in
      if response.status == status_ok
      then (
        record { message_id = message_id; response = response; failed = false },
        record_replaceable_submit p message_id s2,
      )
      else (record { message_id = message_id; response = response; failed = true }, s2)

  unfoldable pub after_segment :
      SubmitSmParams → MessageSegment → ℕ → AddResult → Session → SubmitResult × Session
  unfolding accept
  after_segment p seg now r s =
      if r.failed
      then (answer r.message_id r.status true, s)
      else if not r.complete
      then (answer r.message_id status_ok false, s)
      else accept
          (record p {
            message_id = r.message_id;
            text = r.text;
            segment = some (record seg { message_id = r.message_id });
          })
          r.message_id r.receipt_requested now s

  unfoldable pub submit_segment :
      SubmitSmParams → MessageSegment → Option ℕ → ℕ → Session → SubmitResult × Session
  unfolding after_segment
  submit_segment p seg generated now s =
      let seg1 = record seg {
        delivery_receipt_requested = requires_delivery_receipt p.registered_delivery;
      } in
      let (r, m) = add_segment lib s.segments_mgr seg1 generated now in
      after_segment p seg1 now r (record s { segments_mgr = m })

  -- The text of a single message, decoded where the parser has left it empty.
  unfoldable pub text_of_single : SubmitSmParams → Option Bytes
  text_of_single p =
      if length p.text == 0 then decode_message lib (get_message p) p.data_coding else some p.text

  unfoldable pub submit_single : SubmitSmParams → Option ℕ → ℕ → Session → SubmitResult × Session
  unfolding accept text_of_single
  submit_single p none now s = (answer 0 status_sys_err true, s)
  submit_single p (some message_id) now s = elim (text_of_single p) [
    | none ↦ (answer message_id status_inv_data_coding true, s)
    | some t ↦
        accept (record p { message_id = message_id; text = t }) message_id
          (requires_delivery_receipt p.registered_delivery) now s
  ]

  unfoldable pub submit_by :
      Option MessageSegment → SubmitSmParams → Option ℕ → ℕ → Session → SubmitResult × Session
  unfolding submit_segment submit_single
  submit_by none p generated now s = submit_single p generated now s
  submit_by (some seg) p generated now s =
      if ltb 1 seg.segments_count
      then submit_segment p seg generated now s
      else submit_single p generated now s

  unfoldable pub handle_submit_sm : SubmitSmParams → Option ℕ → ℕ → Session → SubmitResult × Session
  unfolding submit_by
  handle_submit_sm p generated now s = submit_by p.segment p generated now s
