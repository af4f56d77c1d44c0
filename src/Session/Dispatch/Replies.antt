-- ===== src/Session/Dispatch/Replies.antt =====
-- Every request that is read is answered once, under its own sequence number.
use smpp_smsc.Base.{
  ℕ, ◌+◌, ◌/◌, ◌%◌, ◌^◌, ◌≡◌, ◌≢◌, ◌⊎◌, inl, inr, refl, ◌∙◌, Bool, true, false, not, Option, some,
  [], Bytes, ◌&&◌, nat_eq, bytes_eq, ltb, ◌==◌, if◌then◌else◌, length, arith, Option-cases,
}
use smpp_smsc.Wire.{GoSmpp, Packet}
use smpp_smsc.Wire.Constants.{status_inv_msg_len, status_inv_cmd_id}
use smpp_smsc.Types.{BindingType, transmitter, receiver, transceiver, SubmitSmParams}
use smpp_smsc.Session.{Session, is_limited}
use smpp_smsc.Session.Handler.{Handler, Answer}
use smpp_smsc.Session.Parse.{
  BindParams, ParseResult, panicked, rejected, parsed, parse_submit_sm, parse_bind_params,
  parse_query_sm, parse_replace_sm,
}
use smpp_smsc.Session.Submit.{SubmitResult, handle_submit_sm}
use smpp_smsc.Session.Submit.Output.{SameOutput, IsQuiet, same_refl, same_trans, submit-SameOutput}
use smpp_smsc.Session.Dispatch.Answers.{
  HasRoom, Answered, reply-Answered, bind_answer-Answered, unbind_answer-Answered,
  enquire_answer-Answered, query_answer-Answered, send_replace-Answered, replace_answer-Answered,
  queued, written,
}
use smpp_smsc.Session.Dispatch.{
  Moment, bare, handle_bind_request, handle_unbind_pdu, handle_enquire_link, handle_query_sm_pdu,
  handle_replace_sm_pdu, submit_answer, handle_submit_sm_pdu, process_request, process_pdu,
  send_generic_nack, send_bind_response, send_submit_sm_response, send_query_sm_response,
}

-- There is a state afterwards, and the request is answered in it.
abbrev pub AnsweredBy : Bool → ℕ → Session → Option Session → Type 0
AnsweredBy raw seq s o = (t : Session) × (o ≡ some t) × Answered raw seq s t

answered_if :
    {raw : Bool} {seq : ℕ} {s : Session} (b : Bool) (x y : Option Session)
    → ((b ≡ true) → AnsweredBy raw seq s x)
    → AnsweredBy raw seq s y
    → AnsweredBy raw seq s (if b then x else y)
answered_if true x y p q = p refl
answered_if false x y p q = q

Answered-choice :
    {raw : Bool} {seq : ℕ} {s : Session} (b : Bool) (x y : Session)
    → Answered raw seq s x
    → Answered raw seq s y
    → Answered raw seq s (if b then x else y)
Answered-choice true x y p q = p
Answered-choice false x y p q = q

registered-SameOutput : (s : Session) (n : ℕ) → SameOutput s (record s { registered_delivery = n })
registered-SameOutput s n = record {
  same_queue = refl;
  same_writes = refl;
  same_ctx = refl;
  same_cfg = refl;
}

received-Answered :
    (raw : Bool) (seq : ℕ) (s t : Session)
    → Answered raw seq (record s { messages_received = s.messages_received + 1 }) t
    → Answered raw seq s t
received-Answered raw seq s t (queued body e q w) = queued body e q w
received-Answered raw seq s t (written head r e q w) = written head r e q w

pub ParseResult-cases :
    (r : ParseResult)
    → (r ≡ panicked)
      ⊎ (((status : ℕ) × (r ≡ rejected status)) ⊎ ((p : SubmitSmParams) × (r ≡ parsed p)))
ParseResult-cases panicked = inl refl
ParseResult-cases (rejected status) = inr (inl (status, refl))
ParseResult-cases (parsed p) = inr (inr (p, refl))

module _ (lib : GoSmpp) (handler : Handler) (digest : Bytes → Bytes) (quiet : IsQuiet handler)
    (s : Session) (h : HasRoom s) (raw : Bool) (pkt : Packet) where
  bind-Answered :
      (kind : BindingType) (handle : BindParams → Session → Answer) (resp : ℕ)
      → ((p : BindParams) → SameOutput s (handle p s).2)
      → Answered raw pkt.seq s (handle_bind_request lib pkt kind handle resp s)
  unfolding handle_bind_request send_generic_nack send_bind_response
  bind-Answered kind handle resp m = elim (Option-cases (parse_bind_params lib pkt)) [
    | inl e ↦ rw (e, handle_bind_request) (reply-Answered _ h (same_refl s))
    | inr (p, e) ↦
        rw (e, handle_bind_request)
          (Answered-choice s.bound _ _ (reply-Answered _ h (same_refl s)) (
            bind_answer-Answered raw lib pkt.seq s h kind p resp s.cfg.system_id (handle p s)
              (m p)))
  ]

  query-Answered : Answered raw pkt.seq s (handle_query_sm_pdu lib handler pkt s)
  unfolding handle_query_sm_pdu send_query_sm_response
  query-Answered = elim (Option-cases (parse_query_sm lib pkt)) [
    | inl e ↦ rw (e, handle_query_sm_pdu) (reply-Answered _ h (same_refl s))
    | inr (p, e) ↦
        rw (e, handle_query_sm_pdu)
          (query_answer-Answered raw lib pkt.seq s h (handler.handle_query_sm p s)
            (quiet.quiet_query p s))
  ]

  replace-Answered : raw ≡ true → Answered raw pkt.seq s (handle_replace_sm_pdu lib handler pkt s)
  unfolding handle_replace_sm_pdu
  replace-Answered r = elim (Option-cases (parse_replace_sm lib pkt)) [
    | inl e ↦
        rw (e, handle_replace_sm_pdu)
          (send_replace-Answered raw lib pkt.seq s h status_inv_msg_len s r (same_refl s))
    | inr (p, e) ↦
        rw (e, handle_replace_sm_pdu)
          (replace_answer-Answered raw lib pkt.seq s h (handler.handle_replace_sm p s) r
            (quiet.quiet_replace p s))
  ]

  submit_answer-Answered :
      (a : SubmitResult × Session)
      → SameOutput s a.1
      → Answered raw pkt.seq s (submit_answer lib pkt.seq a)
  unfolding submit_answer send_submit_sm_response
  submit_answer-Answered (r, t) m = reply-Answered _ h m

  submit-Answered :
      (at : Moment)
      → parse_submit_sm lib digest at.now pkt ≢ panicked
      → AnsweredBy raw pkt.seq s (handle_submit_sm_pdu lib handler digest at pkt s)
  unfolding handle_submit_sm_pdu send_submit_sm_response submit_answer
  submit-Answered at parses = elim (ParseResult-cases (parse_submit_sm lib digest at.now pkt)) [
    | inl e ↦ absurd (parses e)
    | inr (inl (status, e)) ↦ (
      send_submit_sm_response lib pkt.seq status [] s,
      rw (e, handle_submit_sm_pdu) refl,
      reply-Answered _ h (same_refl s),
    )
    | inr (inr (p, e)) ↦
        let s1 = record s { registered_delivery = p.registered_delivery } in
        let done = handle_submit_sm lib handler p at.generated at.now s1 in
        let kept =
          same_trans (registered-SameOutput s p.registered_delivery)
            (submit-SameOutput lib handler quiet p at.generated at.now s1) in
        let refused = send_submit_sm_response lib pkt.seq status_inv_msg_len [] s in
        let refused-Answered : Answered raw pkt.seq s refused = reply-Answered _ h (same_refl s) in
        rw (e, handle_submit_sm_pdu)
          (answered_if
            (ltb 0 s.cfg.max_message_payload_len
              && ltb s.cfg.max_message_payload_len (length p.message_payload))
            (some refused) (some (submit_answer lib pkt.seq done))
            (λ b. (refused, refl, refused-Answered))
            (submit_answer lib pkt.seq done, refl, submit_answer-Answered done kept))
  ]

  request-AnsweredBy :
      (at : Moment)
      → (pkt.id ≡ lib.submit_sm_id → parse_submit_sm lib digest at.now pkt ≢ panicked)
      → raw ≡ (pkt.id == lib.replace_sm_id)
      → AnsweredBy raw pkt.seq s (process_request lib handler digest at pkt s)
  unfolding process_request handle_unbind_pdu handle_enquire_link send_generic_nack
  request-AnsweredBy at parses form =
      answered_if (pkt.id == lib.bind_transmitter_id) _ _
        (λ b. (
          _,
          refl,
          bind-Answered transmitter handler.handle_bind_transmitter lib.bind_transmitter_resp_id
              (λ p. quiet.quiet_transmitter p s),
        ))
        (answered_if (pkt.id == lib.bind_receiver_id) _ _
          (λ b. (
            _,
            refl,
            bind-Answered receiver handler.handle_bind_receiver lib.bind_receiver_resp_id
                (λ p. quiet.quiet_receiver p s),
          ))
          (answered_if (pkt.id == lib.bind_transceiver_id) _ _
            (λ b. (
              _,
              refl,
              bind-Answered transceiver handler.handle_bind_transceiver lib.bind_transceiver_resp_id
                  (λ p. quiet.quiet_transceiver p s),
            ))
            (answered_if (pkt.id == lib.unbind_id) _ _
              (λ b. (
                _,
                refl,
                unbind_answer-Answered raw lib pkt.seq s h (handler.handle_unbind s)
                    (quiet.quiet_unbind s),
              ))
              (answered_if (pkt.id == lib.submit_sm_id) _ _
                (λ b. submit-Answered at (parses (ground (arith, b))))
                (answered_if (pkt.id == lib.query_sm_id) _ _ (λ b. (_, refl, query-Answered))
                  (answered_if (pkt.id == lib.replace_sm_id) _ _
                    (λ b. (_, refl, replace-Answered (form ∙ b)))
                    (answered_if (pkt.id == lib.enquire_link_id) _
                      (some (send_generic_nack lib pkt.seq status_inv_cmd_id s))
                      (λ b. (
                        _,
                        refl,
                        enquire_answer-Answered raw lib pkt.seq s h (handler.handle_enquire_link s)
                            (quiet.quiet_enquire s),
                      ))
                      (
                        _,
                        refl,
                        reply-Answered (bare lib.generic_nack_id pkt.seq status_inv_cmd_id) h
                            (same_refl s),
                      ))))))))

open_guards :
    (limited allowed request : Bool) (ignored handled other : Option Session)
    → allowed ≡ true
    → request ≡ true
    → (if limited && not allowed then ignored else if request then handled else other) ≡ handled
open_guards limited allowed request ignored handled other a r = ground arith

process_pdu_request :
    (lib : GoSmpp) (handler : Handler) (digest : Bytes → Bytes) (at : Moment) (pkt : Packet)
    (s : Session)
    → at.permitted ≡ true
    → pkt.id / 2 ^ 31 % 2 ≡ 0
    → process_pdu lib handler digest at pkt s
      ≡ process_request lib handler digest at pkt
          (record s { messages_received = s.messages_received + 1 })
unfolding process_pdu
process_pdu_request lib handler digest at pkt s allowed request =
    open_guards (is_limited s.rate_limiter) at.permitted (pkt.id / 2 ^ 31 % 2 == 0) (some s) _ _
      allowed (ground (arith, request))

-- A permitted request is answered. In an open session whose queue has room, with an application
-- handler that neither sends nor stops, and unless the PDU is a submit_sm whose parsing panics (one in
-- which the third-party parser has left out a text field, as of a truncated PDU), handling a PDU of a
-- command without the response bit ends in a state in which exactly one PDU with the request's sequence
-- number has been queued and nothing written past the queue, or, and only for a replace_sm, nothing
-- queued and sixteen bytes ending in that number written.
pub process_pdu-AnsweredBy :
    (lib : GoSmpp) (handler : Handler) (digest : Bytes → Bytes) (at : Moment) (pkt : Packet)
    (s : Session)
    → IsQuiet handler
    → HasRoom s
    → at.permitted ≡ true
    → pkt.id / 2 ^ 31 % 2 ≡ 0
    → (pkt.id ≡ lib.submit_sm_id → parse_submit_sm lib digest at.now pkt ≢ panicked)
    → AnsweredBy (pkt.id == lib.replace_sm_id) pkt.seq s (process_pdu lib handler digest at pkt s)
unfolding process_pdu
process_pdu-AnsweredBy lib handler digest at pkt s quiet h allowed request parses =
    let s1 = record s { messages_received = s.messages_received + 1 } in
    let h1 : HasRoom s1 = record { still_open = h.still_open; room = h.room } in
    let raw = pkt.id == lib.replace_sm_id in
    let (t, e, a) = request-AnsweredBy lib handler digest quiet s1 h1 raw pkt at parses refl in
    (
      t,
      process_pdu_request lib handler digest at pkt s allowed request ∙ e,
      received-Answered raw pkt.seq s t a,
    )
