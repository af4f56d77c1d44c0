-- ===== src/Deliver/Queues.antt =====
-- Which reports of a message queue a receipt.
use smpp_smsc.Base.{
  ℕ, ◌≡◌, ◌≢◌, ◌↔◌, inl, inr, refl, sym, ap, ◌∙◌, Bool, true, false, none, some, [], ◌∷◌, ◌++◌,
  Bytes, nat_eq, if◌then◌else◌, ltb, length, Bool-cases, arith,
}
use smpp_smsc.Wire.{GoSmpp}
use smpp_smsc.Types.{
  is_receiver, PendingRequest, requires_delivery_receipt, should_send_delivery_receipt, sent,
}
use smpp_smsc.Session.{
  Session, message, pending_key_eq, load_pending, remove_pending_request_by_message_id,
  get_next_sequence, store_pending, enqueue_pdu, max_int,
}
use smpp_smsc.Deliver.{DeliverSmParams, create_deliver_sm_pdu, deliver, delivered}
use smpp_smsc.Deliver.Report.{
  Request, report_on, report_pending, after_deliver, receipt_params, policy_result,
}

-- A receipt that some outcome wants is required.
wanted_required :
    (r : ℕ) (success : Bool)
    → should_send_delivery_receipt r success ≡ true
    → requires_delivery_receipt r ≡ true
unfolding should_send_delivery_receipt requires_delivery_receipt
wanted_required r success h = ground arith

remove_queue :
    (s : Session) (id : ℕ) → (remove_pending_request_by_message_id s id).pdu_queue ≡ s.pdu_queue
unfolding remove_pending_request_by_message_id
remove_queue s id = ground arith

pub deliver_room :
    (lib : GoSmpp) (now : ℕ) (p : DeliverSmParams) (s : Session)
    → s.bound ≡ true
    → is_receiver s.binding_type ≡ true
    → s.ctx_done ≡ false
    → ltb (length s.pdu_queue) (max_int 64 s.cfg.window_size) ≡ true
    → let seq = (get_next_sequence s).0 in
      ((deliver lib false now p s).0 ≡ delivered seq)
      × ((deliver lib false now p s).1.pdu_queue
          ≡ s.pdu_queue ++ create_deliver_sm_pdu lib p seq ∷ [])
unfolding deliver enqueue_pdu get_next_sequence store_pending
deliver_room lib now p s b v o room = ground arith

module _ (lib : GoSmpp) (trim_space : Bytes → Bytes) (now later : ℕ) where
  report_unwanted :
      (q : Request) (pr : PendingRequest) (s : Session)
      → s.bound ≡ true
      → is_receiver s.binding_type ≡ true
      → load_pending s (message q.internal_id) ≡ some pr
      → should_send_delivery_receipt pr.registered_delivery q.success ≡ false
      → ((report_on lib trim_space now later q s).0 ≢ sent)
        × ((report_on lib trim_space now later q s).1 ≡ none)
        × ((report_on lib trim_space now later q s).2
            ≡ remove_pending_request_by_message_id s q.internal_id)
  unfolding report_on report_pending policy_result
  report_unwanted q pr s b v e w = ground (arith, b, v, e, w)

  report_wanted :
      (q : Request) (pr : PendingRequest) (s : Session)
      → s.bound ≡ true
      → is_receiver s.binding_type ≡ true
      → load_pending s (message q.internal_id) ≡ some pr
      → should_send_delivery_receipt pr.registered_delivery q.success ≡ true
      → let (result, t) =
          deliver lib q.expired later (receipt_params lib trim_space now later q pr) s in
        report_on lib trim_space now later q s
        ≡ after_deliver lib trim_space now later q.internal_id result t
  unfolding report_on report_pending
  report_wanted q pr s b v e w =
      ground (arith, b, v, e, w, wanted_required pr.registered_delivery q.success w)

  report_sent :
      (q : Request) (pr : PendingRequest) (s : Session)
      → q.expired ≡ false
      → (deliver lib false later (receipt_params lib trim_space now later q pr) s).0
        ≡ delivered (get_next_sequence s).0
      → let (result, t) =
          deliver lib q.expired later (receipt_params lib trim_space now later q pr) s in
        let t1 = (deliver lib false later (receipt_params lib trim_space now later q pr) s).1 in
        after_deliver lib trim_space now later q.internal_id result t
        ≡ (sent, none, remove_pending_request_by_message_id t1 q.internal_id)
  unfolding after_deliver
  report_sent q pr s x d =
      let p = receipt_params lib trim_space now later q pr in
      ap
        (λ c.
          after_deliver lib trim_space now later q.internal_id (deliver lib c later p s).0
            (deliver lib c later p s).1)
        x
      ∙ ap
          (λ r.
            after_deliver lib trim_space now later q.internal_id r (deliver lib false later p s).1)
          d

  -- In an open session that is bound as a receiver or transceiver and has room in its queue, a report of
  -- a pending message whose caller's context has not expired has no error. It queues the receipt, as one PDU under the next
  -- sequence number, exactly if the message's registered_delivery asks for one on this outcome, and
  -- only then it answers Sent.
  pub report_queues :
      (q : Request) (pr : PendingRequest) (s : Session)
      → s.bound ≡ true
      → is_receiver s.binding_type ≡ true
      → load_pending s (message q.internal_id) ≡ some pr
      → q.expired ≡ false
      → s.ctx_done ≡ false
      → ltb (length s.pdu_queue) (max_int 64 s.cfg.window_size) ≡ true
      → let wanted = should_send_delivery_receipt pr.registered_delivery q.success in
        let receipt =
          create_deliver_sm_pdu lib
            (receipt_params lib trim_space now later q pr)
            (get_next_sequence s).0 in
        let r = report_on lib trim_space now later q s in
        (r.1 ≡ none)
        × (r.2.pdu_queue ≡ (if wanted then s.pdu_queue ++ receipt ∷ [] else s.pdu_queue))
        × ((r.0 ≡ sent) ↔ (wanted ≡ true))
  report_queues q pr s b v e x o room =
      elim (Bool-cases (should_send_delivery_receipt pr.registered_delivery q.success)) [
        | inr w ↦
            let (other, fine, after) = report_unwanted q pr s b v e w in
            (
              fine,
              ap (λ t. t.pdu_queue) after ∙ remove_queue s q.internal_id ∙ sym (rw (w) refl),
              (λ h. absurd (other h), λ h. absurd (ground (arith, w, h))),
            )
        | inl w ↦
            let p = receipt_params lib trim_space now later q pr in
            let (d, queued) = deliver_room lib later p s b v o room in
            let same = report_wanted q pr s b v e w ∙ report_sent q pr s x d in
            (
              ap (λ r. r.1) same,
              ap (λ r. r.2.pdu_queue) same
                  ∙ remove_queue (deliver lib false later p s).1 q.internal_id
                  ∙ queued
                  ∙ sym (rw (w) refl),
              (λ h. w, λ h. ap (λ r. r.0) same),
            )
      ]
