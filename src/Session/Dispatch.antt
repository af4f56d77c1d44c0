-- ===== src/Session/Dispatch.antt =====
-- internal/smsc/session.go: `processPDU` and the handlers of the requests. One call handles one PDU
-- to its end. The rate limiter's `Wait`, the clock and the ID generator are inputs of the call.
pub mod Responses
pub mod Binding
pub mod Answers
pub mod Replies
use smpp_smsc.Base.{
  ℕ, zero, suc, ◌+◌, ◌/◌, ◌%◌, ◌^◌, Bool, true, false, not, ◌&&◌, Option, none, some, List, [], ◌∷◌,
  ◌++◌, Bytes, nat_eq, ltb, ◌==◌, if◌then◌else◌, length,
}
use smpp_smsc.Base.Decimal.{decimal}
use smpp_smsc.Base.Octets.{put_be32}
use smpp_smsc.Wire.{GoSmpp, Packet, Pdu, FieldName, Value, text, byte}
use smpp_smsc.Wire.Constants.{
  status_ok, status_inv_msg_len, status_inv_cmd_id, status_aly_bnd, status_bind_fail,
  status_query_sm_failed, status_replace_sm_failed, replace_sm_resp,
}
use smpp_smsc.Types.{BindingType, transceiver, transmitter, receiver, SmppResponse, QuerySmResponse}
use smpp_smsc.Session.{
  Session, is_limited, sequence, enqueue_pdu, delete_pending, reset_enquire_retry, stop,
}
use smpp_smsc.Session.Handler.{Handler, Answer}
use smpp_smsc.Session.Parse.{
  BindParams, ParseResult, panicked, rejected, parsed, parse_bind_params, parse_submit_sm,
  parse_query_sm, parse_replace_sm,
}
use smpp_smsc.Session.Submit.{SubmitResult, handle_submit_sm}

-- A PDU with no field set.
abbrev pub bare : ℕ → ℕ → ℕ → Pdu
bare command seq status = record {
  command = command;
  seq = seq;
  status = status;
  sets = [];
  tlv_sets = [];
}

-- `_ = s.enqueuePDU(resp)`: the error is dropped.
unfoldable pub reply : Session → Pdu → Session
reply s body = (enqueue_pdu s body).1

-- What the environment gives to the handling of one PDU; `permitted` is false where Wait of the rate
-- limiter, if there is one, returns an error.
pub record Moment : Type 0 where
  pub now : ℕ
  pub generated : Option ℕ
  pub permitted : Bool

module _ (lib : GoSmpp) where
  unfoldable pub send_generic_nack : ℕ → ℕ → Session → Session
  unfolding reply
  send_generic_nack seq status s = reply s (bare lib.generic_nack_id seq status)

  unfoldable pub send_bind_response : ℕ → ℕ → ℕ → Bytes → Session → Session
  unfolding reply
  send_bind_response command seq status system_id s = reply s (record {
    command = command;
    seq = seq;
    status = status;
    sets = (FieldName.system_id, text system_id) ∷ [];
    tlv_sets = [];
  })

  unfoldable pub send_unbind_response : ℕ → ℕ → Session → Session
  unfolding reply
  send_unbind_response seq status s = reply s (bare lib.unbind_resp_id seq status)

  unfoldable pub send_submit_sm_response : ℕ → ℕ → Bytes → Session → Session
  unfolding reply
  send_submit_sm_response seq status message_id s = reply s (record {
    command = lib.submit_sm_resp_id;
    seq = seq;
    status = status;
    sets = (FieldName.message_id, text message_id) ∷ [];
    tlv_sets = [];
  })

  -- The error code is set only where the message state was accepted.
  pub query_sets : QuerySmResponse → List (FieldName × Value)
  query_sets r =
      (FieldName.message_id, text r.message_id)
      ∷ (FieldName.final_date, text r.final_date)
      ∷ (FieldName.message_state, byte r.message_state)
      ∷ (if lib.set_accepts lib.query_sm_resp_id FieldName.message_state (byte r.message_state)
          then (FieldName.error_code, byte r.error_code) ∷ []
          else [])

  unfoldable pub send_query_sm_response : ℕ → Option QuerySmResponse → ℕ → Session → Session
  unfolding query_sets reply
  send_query_sm_response seq none status s = reply s (bare lib.query_sm_resp_id seq status)
  send_query_sm_response seq (some r) status s = reply s (record {
    command = lib.query_sm_resp_id;
    seq = seq;
    status = status;
    sets = if status == status_ok then query_sets r else [];
    tlv_sets = [];
  })

  -- Sixteen bytes written straight to the connection.
  unfoldable pub send_replace_sm_response : ℕ → ℕ → Session → Session
  send_replace_sm_response seq status s = record s {
    raw_writes =
        s.raw_writes
        ++ (put_be32 replace_sm_resp ++ put_be32 16 ++ put_be32 status ++ put_be32 seq) ∷ [];
  }

-- The state after the handler's answer to a bind.
unfoldable pub after_bind : BindingType → BindParams → ℕ → Session → Session
after_bind bind_type params status s =
    let s1 = record s {
      system_id = params.system_id;
      password = params.password;
      binding_type = bind_type;
    } in
    if status == status_ok then record s1 { bound = true; authenticated = true } else s1

unfoldable pub or_default : ℕ → ℕ → ℕ
or_default status fallback = if status == 0 then fallback else status

module _ (lib : GoSmpp) where
  unfoldable pub bind_answer : ℕ → BindingType → BindParams → ℕ → Bytes → Answer → Session
  unfolding after_bind or_default send_bind_response
  bind_answer seq bind_type params resp_id own_id (status, err, s) =
      if err
      then send_bind_response lib resp_id seq (or_default status status_bind_fail) own_id s
      else send_bind_response lib resp_id seq status
          (if length own_id == 0 then params.system_id else own_id)
          (after_bind bind_type params status s)

  unfoldable pub handle_bind_request :
      Packet → BindingType → (BindParams → Session → Answer) → ℕ → Session → Session
  unfolding bind_answer send_generic_nack
  handle_bind_request pkt bind_type handle resp_id s = elim (parse_bind_params lib pkt) [
    | none ↦ send_generic_nack lib pkt.seq status_inv_msg_len s
    | some params ↦
        if s.bound
        then send_bind_response lib resp_id pkt.seq status_aly_bnd s.cfg.system_id s
        else bind_answer pkt.seq bind_type params resp_id s.cfg.system_id (handle params s)
  ]

  unfoldable pub unbind_answer : ℕ → Answer → Session
  unfolding send_generic_nack send_unbind_response
  unbind_answer seq (status, err, s) =
      if err
      then send_generic_nack lib seq status s
      else stop (send_unbind_response lib seq status s)

  unfoldable pub handle_unbind_pdu : Handler → Packet → Session → Session
  unfolding unbind_answer
  handle_unbind_pdu handler pkt s = unbind_answer pkt.seq (handler.handle_unbind s)

  unfoldable pub enquire_answer : ℕ → Answer → Session
  enquire_answer seq (status, err, s) =
      reply s (bare lib.enquire_link_resp_id seq (if err then status else status_ok))

  unfoldable pub handle_enquire_link : Handler → Packet → Session → Session
  unfolding enquire_answer
  handle_enquire_link handler pkt s = enquire_answer pkt.seq (handler.handle_enquire_link s)

  unfoldable pub query_answer : ℕ → Option QuerySmResponse × Answer → Session
  unfolding send_query_sm_response or_default
  query_answer seq (r, (status, err, s)) =
      if err
      then send_query_sm_response lib seq none (or_default status status_query_sm_failed) s
      else send_query_sm_response lib seq r status_ok s

  unfoldable pub handle_query_sm_pdu : Handler → Packet → Session → Session
  unfolding query_answer
  handle_query_sm_pdu handler pkt s = elim (parse_query_sm lib pkt) [
    | none ↦ send_query_sm_response lib pkt.seq none status_inv_msg_len s
    | some p ↦ query_answer pkt.seq (handler.handle_query_sm p s)
  ]

  unfoldable pub replace_answer : ℕ → Answer → Session
  unfolding send_replace_sm_response or_default
  replace_answer seq (status, err, s) =
      send_replace_sm_response lib seq
        (if err then or_default status status_replace_sm_failed else status) s

  unfoldable pub handle_replace_sm_pdu : Handler → Packet → Session → Session
  unfolding replace_answer
  handle_replace_sm_pdu handler pkt s = elim (parse_replace_sm lib pkt) [
    | none ↦ send_replace_sm_response lib pkt.seq status_inv_msg_len s
    | some p ↦ replace_answer pkt.seq (handler.handle_replace_sm p s)
  ]

  unfoldable pub submit_answer : ℕ → SubmitResult × Session → Session
  unfolding send_submit_sm_response
  submit_answer seq (r, s) =
      send_submit_sm_response lib seq r.response.status
        (if r.failed then [] else decimal r.message_id) s

  module _ (handler : Handler) (digest : Bytes → Bytes) where
    -- `none` is a panic of the parser.
    unfoldable pub handle_submit_sm_pdu : Moment → Packet → Session → Option Session
    unfolding submit_answer
    handle_submit_sm_pdu at pkt s = elim (parse_submit_sm lib digest at.now pkt) [
      | panicked ↦ none
      | rejected status ↦ some (send_submit_sm_response lib pkt.seq status [] s)
      | parsed p ↦
          if ltb 0 s.cfg.max_message_payload_len
            && ltb s.cfg.max_message_payload_len (length p.message_payload)
          then some (send_submit_sm_response lib pkt.seq status_inv_msg_len [] s)
          else some (
              submit_answer pkt.seq (
                handle_submit_sm lib handler p at.generated at.now
                  (record s { registered_delivery = p.registered_delivery })))
    ]

    -- A PDU whose top bit is set.
    unfoldable pub process_response : Packet → Session → Session
    process_response pkt s =
        if pkt.id == lib.enquire_link_resp_id
        then reset_enquire_retry (delete_pending s (sequence pkt.seq))
        else if pkt.id == lib.deliver_sm_resp_id
        then delete_pending (handler.handle_deliver_sm_resp pkt.seq pkt.status s) (sequence pkt.seq)
        else delete_pending s (sequence pkt.seq)

    unfoldable pub process_request : Moment → Packet → Session → Option Session
    process_request at pkt s =
        if pkt.id == lib.bind_transmitter_id
        then some (
            handle_bind_request pkt transmitter handler.handle_bind_transmitter
              lib.bind_transmitter_resp_id s)
        else if pkt.id == lib.bind_receiver_id
        then some (
            handle_bind_request pkt receiver handler.handle_bind_receiver lib.bind_receiver_resp_id
              s)
        else if pkt.id == lib.bind_transceiver_id
        then some (
            handle_bind_request pkt transceiver handler.handle_bind_transceiver
              lib.bind_transceiver_resp_id s)
        else if pkt.id == lib.unbind_id
        then some (handle_unbind_pdu handler pkt s)
        else if pkt.id == lib.submit_sm_id
        then handle_submit_sm_pdu at pkt s
        else if pkt.id == lib.query_sm_id
        then some (handle_query_sm_pdu handler pkt s)
        else if pkt.id == lib.replace_sm_id
        then some (handle_replace_sm_pdu handler pkt s)
        else if pkt.id == lib.enquire_link_id
        then some (handle_enquire_link handler pkt s)
        else some (send_generic_nack lib pkt.seq status_inv_cmd_id s)

    unfoldable pub process_pdu : Moment → Packet → Session → Option Session
    unfolding process_response process_request is_limited
    process_pdu at pkt s =
        if is_limited s.rate_limiter && not at.permitted
        then some s
        else let s1 = record s { messages_received = s.messages_received + 1 } in
          if pkt.id / 2 ^ 31 % 2 == 0
          then process_request at pkt s1
          else some (process_response pkt s1)
