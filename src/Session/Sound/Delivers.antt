-- ===== src/Session/Sound/Delivers.antt =====
-- The calls of internal/smsc/server.go that send to a session, and an inactivity check's
-- enquire_link, keep its invariant.
use smpp_smsc.Base.{ℕ, Bool, true, false, not, Option, none, some, Bytes, nat_eq, if◌then◌else◌}
use smpp_smsc.Wire.{GoSmpp}
use smpp_smsc.Types.{
  PendingRequest, is_receiver, requires_delivery_receipt, should_send_delivery_receipt,
}
use smpp_smsc.Session.{Session, get_next_sequence, store_pending}
use smpp_smsc.Deliver.{DeliverSmParams, deliver, DeliverResult, refused, delivered}
use smpp_smsc.Deliver.Report.{
  Request, Report, after_deliver, report_pending, report_on, receipt_params,
}
use smpp_smsc.Session.Sound.{
  SessionOk, get_next_sequence-SessionOk, enqueue_pdu-SessionOk, pending-SessionOk,
}
use smpp_smsc.Session.Sound.Submits.{remove_pending-SessionOk}

pair_if :
    {A : Type 0} (b : Bool) (t u : A × Session)
    → SessionOk t.1
    → SessionOk u.1
    → SessionOk (if b then t else u).1
pair_if true t u v w = v
pair_if false t u v w = w

report_if :
    (b : Bool) (t u : Report) → SessionOk t.2 → SessionOk u.2 → SessionOk (if b then t else u).2
report_if true t u v w = v
report_if false t u v w = w

module _ (lib : GoSmpp) where
  pub deliver-SessionOk :
      (expired : Bool) (now : ℕ) (p : DeliverSmParams) (s : Session)
      → SessionOk s
      → SessionOk (deliver lib expired now p s).1
  unfolding deliver store_pending
  deliver-SessionOk expired now p s v =
      let s1 = (get_next_sequence s).1 in
      pair_if (not s.bound) _ _ v (
        pair_if (not (is_receiver s.binding_type)) _ _ v (
          pair_if expired _ _ v (
            enqueue_pdu-SessionOk _ _ (
              pending-SessionOk s1 _ s1.routes s1.replace_submit_last
                (get_next_sequence-SessionOk s v)))))

  module _ (trim_space : Bytes → Bytes) (now later : ℕ) where
    after_deliver-SessionOk :
        (id : ℕ) (r : DeliverResult) (s : Session)
        → SessionOk s
        → SessionOk (after_deliver lib trim_space now later id r s).2
    unfolding after_deliver
    after_deliver-SessionOk id (refused e) s v = v
    after_deliver-SessionOk id (delivered seq) s v = remove_pending-SessionOk s id v

    report_pending-SessionOk :
        (q : Request) (o : Option PendingRequest) (s : Session)
        → SessionOk s
        → SessionOk (report_pending lib trim_space now later q o s).2
    unfolding report_pending
    report_pending-SessionOk q none s v = v
    report_pending-SessionOk q (some pr) s v =
        report_if (not (requires_delivery_receipt pr.registered_delivery)) _ _
          (remove_pending-SessionOk s q.internal_id v)
          (report_if (not (should_send_delivery_receipt pr.registered_delivery q.success)) _ _
            (remove_pending-SessionOk s q.internal_id v)
            (after_deliver-SessionOk q.internal_id _ _ (
              deliver-SessionOk q.expired later (receipt_params lib trim_space now later q pr) s
                v)))

    pub report_on-SessionOk :
        (q : Request) (s : Session)
        → SessionOk s
        → SessionOk (report_on lib trim_space now later q s).2
    unfolding report_on
    report_on-SessionOk q s v =
        report_if (not s.bound) _ _ v
          (report_if (not (is_receiver s.binding_type)) _ _ v (report_pending-SessionOk q _ s v))
