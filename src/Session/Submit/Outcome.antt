-- ===== src/Session/Submit/Outcome.antt =====
-- What a complete submit_sm leaves in the session.
use smpp_smsc.Base.{
  ℕ, ◌≡◌, ◌≢◌, Bool, not, ◌&&◌, some, bytes_eq, bytes_beq_iff, nat_eq, ◌==◌, if◌then◌else◌, arith,
  [], ◌∷◌, ◌++◌,
}
use smpp_smsc.Base.Maps.{lookup, lookup-insert}
use smpp_smsc.Wire.{GoSmpp}
use smpp_smsc.Wire.Constants.{status_ok}
use smpp_smsc.Types.{SubmitSmParams, SmppResponse, PendingRequest}
use smpp_smsc.Charset.{calc_segments}
use smpp_smsc.Session.{
  Session, message, pending_key_eq, load_pending, store_pending, register_message_id, register,
}
use smpp_smsc.Session.Handler.{Handler}
use smpp_smsc.Session.Submit.{
  accept, try_replace_previous_submit, remember_receipt, record_replaceable_submit,
  make_replace_submit_key, response_or_error,
}

-- The handler's response decides the result and the replace key, and not the receipt entry. After
-- the application's handler has left the state t with a response: the call fails exactly when the
-- status is not OK; the replace key of the submit is recorded exactly when it is OK (and the ID is
-- not 0), under the message ID; and where a receipt was asked for, the pending entry of the message
-- ID stands and its route is registered WHATEVER the status is.
pub accept_lem :
    (lib : GoSmpp) (handler : Handler) (p : SubmitSmParams) (id : ℕ) (receipt : Bool) (now : ℕ)
    (s t : Session) (r : SmppResponse)
    → handler.handle_submit_sm p (try_replace_previous_submit p s) ≡ (some r, t)
    → id ≢ 0
    → let a = accept lib handler p id receipt now s in
      let entry : PendingRequest = record {
        segments_count = calc_segments p.data_coding p.text;
        registered_delivery = p.registered_delivery;
        created_at = now;
      } in
      ((a.0).failed ≡ not (r.status == status_ok))
      × ((a.0).message_id ≡ id)
      × (lookup (make_replace_submit_key p) (a.1).replace_submit_last ≡ (
          if r.status == status_ok
          then some id
          else lookup (make_replace_submit_key p) t.replace_submit_last))
      × (load_pending a.1 (message id)
          ≡ (if receipt then some entry else load_pending t (message id)))
      × ((a.1).routes
          ≡ (if receipt && t.has_routes then t.routes ++ register id ∷ [] else t.routes))
unfolding accept remember_receipt record_replaceable_submit store_pending register_message_id
    load_pending response_or_error
accept_lem lib handler p id receipt now s t r e nz =
    let key = make_replace_submit_key p in
    let entry : PendingRequest = record {
      segments_count = calc_segments p.data_coding p.text;
      registered_delivery = p.registered_delivery;
      created_at = now;
    } in
    let kept = lookup-insert key key id t.replace_submit_last in
    let stored = lookup-insert (message id) (message id) entry t.pending_requests in
    let same_key = bytes_beq_iff key key in ground (arith, e, nz, kept, stored, same_key)
