-- ===== src/Session/Sound/Answers.antt =====
-- processPDU and the request handlers of internal/smsc/session.go keep a session's invariant.
use smpp_smsc.Base.{
  ℕ, ◌+◌, ◌/◌, ◌%◌, ◌^◌, inl, inr, Bool, true, false, not, Option, none, some, [], Bytes, ◌&&◌,
  nat_eq, ltb, ◌==◌, if◌then◌else◌, length, arith, Option-cases,
}
use smpp_smsc.Wire.{GoSmpp, Packet}
use smpp_smsc.Wire.Constants.{status_ok, status_inv_msg_len}
use smpp_smsc.Types.{BindingType, transmitter, receiver, transceiver, QuerySmResponse}
use smpp_smsc.Session.{Session, is_limited, reset_enquire_retry, sequence}
use smpp_smsc.Session.Handler.{Handler, Answer}
use smpp_smsc.Session.Parse.{
  BindParams, parse_submit_sm, parse_bind_params, parse_query_sm, parse_replace_sm,
}
use smpp_smsc.Session.Submit.{SubmitResult, handle_submit_sm}
use smpp_smsc.Session.Dispatch.{
  Moment, after_bind, bind_answer, handle_bind_request, unbind_answer, handle_unbind_pdu,
  enquire_answer, handle_enquire_link, query_answer, handle_query_sm_pdu, replace_answer,
  handle_replace_sm_pdu, submit_answer, handle_submit_sm_pdu, process_request, process_response,
  process_pdu, send_generic_nack, send_bind_response, send_submit_sm_response,
  send_query_sm_response, send_replace_sm_response, send_unbind_response,
}
use smpp_smsc.Session.Dispatch.Replies.{ParseResult-cases}
use smpp_smsc.Session.Sound.{
  SessionOk, IsLive, IsSound, if-IsLive, rest-IsLive, ok_if, reply-IsLive, stop-SessionOk,
  delete_pending-IsLive,
}
use smpp_smsc.Session.Sound.Submits.{handle_submit_sm-IsLive}

-- A state, where there is one, is good.
unfoldable pub OkAfter : Option Session → Type 0
OkAfter none = Unit
OkAfter (some t) = SessionOk t

pub OkAfter-if :
    (b : Bool) (x y : Option Session) → OkAfter x → OkAfter y → OkAfter (if b then x else y)
OkAfter-if true x y p q = p
OkAfter-if false x y p q = q

pub OkAfter-some : (s : Session) → SessionOk s → OkAfter (some s)
unfolding OkAfter
OkAfter-some s v = v

-- Fields that the invariant does not speak of.
marks-IsLive :
    (s : Session) (received delivery : ℕ)
    → IsLive s
    → IsLive (record s { messages_received = received; registered_delivery = delivery })
marks-IsLive s received delivery v =
    rest-IsLive s (record s { messages_received = received; registered_delivery = delivery }) v

bound-IsLive : (s : Session) → IsLive s → IsLive (record s { bound = true; authenticated = true })
bound-IsLive s (v, o) = (
  record {
    segments = v.segments;
    queued = v.queued;
    numbered = v.numbered;
    retried = v.retried;
    cancelled = v.cancelled;
    unbound = λ h. absurd (cc);
    unauthenticated = λ h. absurd (cc);
  },
  o,
)

after_bind-IsLive :
    (kind : BindingType) (p : BindParams) (status : ℕ) (s : Session)
    → IsLive s
    → IsLive (after_bind kind p status s)
unfolding after_bind
after_bind-IsLive kind p status s v =
    let w =
      rest-IsLive s
        (record s { system_id = p.system_id; password = p.password; binding_type = kind }) v in
    if-IsLive (status == status_ok) _ _ (bound-IsLive _ w) w

written-IsLive :
    (lib : GoSmpp) (seq status : ℕ) (s : Session)
    → IsLive s
    → IsLive (send_replace_sm_response lib seq status s)
unfolding send_replace_sm_response
written-IsLive lib seq status s v = rest-IsLive s (send_replace_sm_response lib seq status s) v

reset-IsLive : (s : Session) → IsLive s → IsLive (reset_enquire_retry s)
unfolding reset_enquire_retry
reset-IsLive s (v, o) = (
  record {
    segments = v.segments;
    queued = v.queued;
    numbered = v.numbered;
    retried = ground arith;
    cancelled = v.cancelled;
    unbound = v.unbound;
    unauthenticated = v.unauthenticated;
  },
  o,
)

module _ (lib : GoSmpp) (seq : ℕ) where
  bind_answer-IsLive :
      (kind : BindingType) (p : BindParams) (resp : ℕ) (own : Bytes) (a : Answer)
      → IsLive a.2
      → IsLive (bind_answer lib seq kind p resp own a)
  unfolding bind_answer send_bind_response
  bind_answer-IsLive kind p resp own (status, err, s) v =
      if-IsLive err _ _ (reply-IsLive s _ v)
        (reply-IsLive (after_bind kind p status s) _ (after_bind-IsLive kind p status s v))

  unbind_answer-SessionOk : (a : Answer) → IsLive a.2 → SessionOk (unbind_answer lib seq a)
  unfolding unbind_answer send_generic_nack send_unbind_response
  unbind_answer-SessionOk (status, err, s) v =
      ok_if err _ _ (reply-IsLive s _ v).0 (stop-SessionOk _ (reply-IsLive s _ v).0)

  query_answer-IsLive :
      (r : Option QuerySmResponse) (a : Answer) → IsLive a.2 → IsLive (query_answer lib seq (r, a))
  unfolding query_answer send_query_sm_response
  query_answer-IsLive none (status, err, s) v =
      if-IsLive err _ _ (reply-IsLive s _ v) (reply-IsLive s _ v)
  query_answer-IsLive (some r) (status, err, s) v =
      if-IsLive err _ _ (reply-IsLive s _ v) (reply-IsLive s _ v)

module _ (lib : GoSmpp) (handler : Handler) (digest : Bytes → Bytes) (sound : IsSound handler)
    (s : Session) (v : IsLive s) (pkt : Packet) where
  bind-IsLive :
      (kind : BindingType) (handle : BindParams → Session → Answer) (resp : ℕ)
      → ((p : BindParams) → IsLive (handle p s).2)
      → IsLive (handle_bind_request lib pkt kind handle resp s)
  unfolding handle_bind_request send_generic_nack send_bind_response
  bind-IsLive kind handle resp w = elim (Option-cases (parse_bind_params lib pkt)) [
    | inl e ↦ rw (e, handle_bind_request) (reply-IsLive s _ v)
    | inr (p, e) ↦
        rw (e, handle_bind_request)
          (if-IsLive s.bound _ _ (reply-IsLive s _ v)
            (bind_answer-IsLive lib pkt.seq kind p resp s.cfg.system_id (handle p s) (w p)))
  ]

  query-IsLive : IsLive (handle_query_sm_pdu lib handler pkt s)
  unfolding handle_query_sm_pdu send_query_sm_response
  query-IsLive = elim (Option-cases (parse_query_sm lib pkt)) [
    | inl e ↦ rw (e, handle_query_sm_pdu) (reply-IsLive s _ v)
    | inr (p, e) ↦
        rw (e, handle_query_sm_pdu)
          (query_answer-IsLive lib pkt.seq (handler.handle_query_sm p s).0
            (handler.handle_query_sm p s).1 (sound.sound_query p s v))
  ]

  replace-IsLive : IsLive (handle_replace_sm_pdu lib handler pkt s)
  unfolding handle_replace_sm_pdu replace_answer
  replace-IsLive = elim (Option-cases (parse_replace_sm lib pkt)) [
    | inl e ↦ rw (e, handle_replace_sm_pdu) (written-IsLive lib pkt.seq status_inv_msg_len s v)
    | inr (p, e) ↦
        rw (e, handle_replace_sm_pdu)
          (written-IsLive lib pkt.seq _ (handler.handle_replace_sm p s).2
            (sound.sound_replace p s v))
  ]

  submit_answer-IsLive :
      (a : SubmitResult × Session) → IsLive a.1 → IsLive (submit_answer lib pkt.seq a)
  unfolding submit_answer send_submit_sm_response
  submit_answer-IsLive (r, t) w = reply-IsLive t _ w

  submit-OkAfter : (at : Moment) → OkAfter (handle_submit_sm_pdu lib handler digest at pkt s)
  unfolding handle_submit_sm_pdu send_submit_sm_response OkAfter
  submit-OkAfter at = elim (ParseResult-cases (parse_submit_sm lib digest at.now pkt)) [
    | inl e ↦ rw (e, handle_submit_sm_pdu) tt
    | inr (inl (status, e)) ↦ rw (e, handle_submit_sm_pdu) (reply-IsLive s _ v).0
    | inr (inr (p, e)) ↦
        let s1 = record s { registered_delivery = p.registered_delivery } in
        let done = handle_submit_sm lib handler p at.generated at.now s1 in
        let kept : IsLive done.1 =
          handle_submit_sm-IsLive lib handler sound p at.generated at.now s1
            (marks-IsLive s s.messages_received p.registered_delivery v) in
        rw (e, handle_submit_sm_pdu)
          (OkAfter-if
            (ltb 0 s.cfg.max_message_payload_len
              && ltb s.cfg.max_message_payload_len (length p.message_payload))
            (some (send_submit_sm_response lib pkt.seq status_inv_msg_len [] s))
            (some (submit_answer lib pkt.seq done)) (reply-IsLive s _ v).0
            (submit_answer-IsLive done kept).0)
  ]

  request-OkAfter : (at : Moment) → OkAfter (process_request lib handler digest at pkt s)
  unfolding process_request handle_unbind_pdu handle_enquire_link enquire_answer send_generic_nack
      OkAfter
  request-OkAfter at =
      OkAfter-if (pkt.id == lib.bind_transmitter_id) (some _) _
        (bind-IsLive transmitter handler.handle_bind_transmitter lib.bind_transmitter_resp_id
          (λ p. sound.sound_transmitter p s v)).0
        (OkAfter-if (pkt.id == lib.bind_receiver_id) (some _) _
          (bind-IsLive receiver handler.handle_bind_receiver lib.bind_receiver_resp_id
            (λ p. sound.sound_receiver p s v)).0
          (OkAfter-if (pkt.id == lib.bind_transceiver_id) (some _) _
            (bind-IsLive transceiver handler.handle_bind_transceiver lib.bind_transceiver_resp_id
              (λ p. sound.sound_transceiver p s v)).0
            (OkAfter-if (pkt.id == lib.unbind_id) (some _) _
              (unbind_answer-SessionOk lib pkt.seq (handler.handle_unbind s)
                (sound.sound_unbind s v))
              (OkAfter-if (pkt.id == lib.submit_sm_id) _ _ (submit-OkAfter at) (
                OkAfter-if (pkt.id == lib.query_sm_id) (some _) _ query-IsLive.0 (
                  OkAfter-if (pkt.id == lib.replace_sm_id) (some _) _ replace-IsLive.0 (
                    OkAfter-if (pkt.id == lib.enquire_link_id) (some _) (some _)
                      (reply-IsLive _ _ (sound.sound_enquire s v)).0 (reply-IsLive s _ v).0)))))))

  response-IsLive : IsLive (process_response lib handler digest pkt s)
  unfolding process_response
  response-IsLive =
      if-IsLive (pkt.id == lib.enquire_link_resp_id) _ _
        (reset-IsLive _ (delete_pending-IsLive s (sequence pkt.seq) v))
        (if-IsLive (pkt.id == lib.deliver_sm_resp_id) _ _
          (delete_pending-IsLive _ (sequence pkt.seq) (sound.sound_response pkt.seq pkt.status s v))
          (delete_pending-IsLive s (sequence pkt.seq) v))

-- Handling a PDU of any kind in a good session that is not stopped leaves a good session, where the
-- parser does not panic.
pub process_pdu-OkAfter :
    (lib : GoSmpp) (handler : Handler) (digest : Bytes → Bytes) (at : Moment) (pkt : Packet)
    (s : Session)
    → IsSound handler
    → IsLive s
    → OkAfter (process_pdu lib handler digest at pkt s)
unfolding process_pdu OkAfter
process_pdu-OkAfter lib handler digest at pkt s sound v =
    let w = marks-IsLive s (s.messages_received + 1) s.registered_delivery v in
    OkAfter-if (is_limited s.rate_limiter && not at.permitted) (some s) _ v.0 (
      OkAfter-if (pkt.id / 2 ^ 31 % 2 == 0) _ (some _)
        (request-OkAfter lib handler digest sound _ w pkt at)
        (response-IsLive lib handler digest sound _ w pkt).0)
