-- ===== src/Session/Sound.antt =====
-- What stays true of a session of internal/smsc/session.go between calls, and that the basic
-- operations keep it.
pub mod Submits
pub mod Answers
pub mod Rounds
pub mod Reads
pub mod Delivers
pub mod Handlers
pub mod Samples
mod Tests
use smpp_smsc.Base.{
  ℕ, ◌≤◌, ◌≡◌, ◌∙◌, refl, List, Bytes, Bool, true, false, [], ◌∷◌, ltb, length, length-append,
  if◌then◌else◌, arith, ◌+◌,
}
use smpp_smsc.Wire.{Pdu}
use smpp_smsc.Types.{PendingRequest, SubmitSmParams, QuerySmParams, ReplaceSmParams}
use smpp_smsc.Segments.WellFormed.{ManagerOk}
use smpp_smsc.Segments.Invariant.{stop-ManagerOk}
use smpp_smsc.Session.{
  Session, max_int, max_sequence, get_next_sequence, enqueue_pdu, store_pending, delete_pending,
  PendingKey, remove_pending_request_by_message_id, stop, send_enquire_link_req,
  reset_enquire_retry, RouteCall,
}
use smpp_smsc.Session.Handler.{Handler}
use smpp_smsc.Session.Parse.{BindParams}
use smpp_smsc.Session.Dispatch.{reply}

-- The segments manager has its invariant, the queue is within the channel's capacity, the sequence
-- number is in the protocol's range, the retries are within their limit, and a stopped session is
-- cancelled, unbound and no longer authenticated.
pub record SessionOk (s : Session) : Type 0 where
  pub segments : ManagerOk s.segments_mgr
  pub queued : length s.pdu_queue ≤ max_int 64 s.cfg.window_size
  pub numbered : s.sequence_number ≤ max_sequence
  pub retried : s.enquire_retry_count ≤ s.cfg.max_enquire_link_retry
  pub cancelled : s.stopped ≡ true → s.ctx_done ≡ true
  pub unbound : s.stopped ≡ true → s.bound ≡ false
  pub unauthenticated : s.stopped ≡ true → s.authenticated ≡ false

-- A good session that is not stopped.
abbrev pub IsLive : Session → Type 0
IsLive s = SessionOk s × (s.stopped ≡ false)

-- The fields that the invariant speaks of from `s`, all others from `t`.
abbrev with_rest : Session → Session → Session
with_rest s t = record t {
  segments_mgr = s.segments_mgr;
  pdu_queue = s.pdu_queue;
  sequence_number = s.sequence_number;
  enquire_retry_count = s.enquire_retry_count;
  stopped = s.stopped;
  ctx_done = s.ctx_done;
  bound = s.bound;
  authenticated = s.authenticated;
  cfg = s.cfg;
}

pub rest-SessionOk : (s t : Session) → SessionOk s → SessionOk (with_rest s t)
rest-SessionOk s t v = record {
  segments = v.segments;
  queued = v.queued;
  numbered = v.numbered;
  retried = v.retried;
  cancelled = v.cancelled;
  unbound = v.unbound;
  unauthenticated = v.unauthenticated;
}

pub rest-IsLive : (s t : Session) → IsLive s → IsLive (with_rest s t)
rest-IsLive s t (v, o) = (rest-SessionOk s t v, o)

-- A handler of the application that keeps a live session live.
pub record IsSound (handler : Handler) : Type 0 where
  pub sound_transceiver :
      (p : BindParams) (s : Session) → IsLive s → IsLive (handler.handle_bind_transceiver p s).2
  pub sound_receiver :
      (p : BindParams) (s : Session) → IsLive s → IsLive (handler.handle_bind_receiver p s).2
  pub sound_transmitter :
      (p : BindParams) (s : Session) → IsLive s → IsLive (handler.handle_bind_transmitter p s).2
  pub sound_submit :
      (p : SubmitSmParams) (s : Session) → IsLive s → IsLive (handler.handle_submit_sm p s).1
  pub sound_query :
      (p : QuerySmParams) (s : Session) → IsLive s → IsLive (handler.handle_query_sm p s).1.2
  pub sound_replace :
      (p : ReplaceSmParams) (s : Session) → IsLive s → IsLive (handler.handle_replace_sm p s).2
  pub sound_unbind : (s : Session) → IsLive s → IsLive (handler.handle_unbind s).2
  pub sound_enquire : (s : Session) → IsLive s → IsLive (handler.handle_enquire_link s).2
  pub sound_response :
      (seq status : ℕ) (s : Session)
      → IsLive s
      → IsLive (handler.handle_deliver_sm_resp seq status s)

pub if-IsLive : (b : Bool) (s t : Session) → IsLive s → IsLive t → IsLive (if b then s else t)
if-IsLive true s t v w = v
if-IsLive false s t v w = w

pub ok_if : (b : Bool) (s t : Session) → SessionOk s → SessionOk t → SessionOk (if b then s else t)
ok_if true s t v w = v
ok_if false s t v w = w

pub enqueue_pdu-SessionOk :
    (s : Session) (body : Pdu) → SessionOk s → SessionOk (enqueue_pdu s body).1
unfolding enqueue_pdu
enqueue_pdu-SessionOk s body v = record {
  segments = ground (arith, v.segments);
  queued = ground (arith, v.queued, length-append s.pdu_queue (body ∷ []));
  numbered = ground (arith, v.numbered);
  retried = ground (arith, v.retried);
  cancelled = λ h. ground (arith, v.cancelled, h);
  unbound = λ h. ground (arith, v.unbound, h);
  unauthenticated = λ h. ground (arith, v.unauthenticated, h);
}

pub enqueue_pdu-stopped : (s : Session) (body : Pdu) → ((enqueue_pdu s body).1).stopped ≡ s.stopped
unfolding enqueue_pdu
enqueue_pdu-stopped s body = ground arith

pub reply-IsLive : (s : Session) (body : Pdu) → IsLive s → IsLive (reply s body)
unfolding reply
reply-IsLive s body (v, o) = (enqueue_pdu-SessionOk s body v, enqueue_pdu-stopped s body ∙ o)

pub get_next_sequence-SessionOk : (s : Session) → SessionOk s → SessionOk (get_next_sequence s).1
unfolding get_next_sequence
get_next_sequence-SessionOk s v = record {
  segments = v.segments;
  queued = v.queued;
  numbered = ground arith;
  retried = v.retried;
  cancelled = v.cancelled;
  unbound = v.unbound;
  unauthenticated = v.unauthenticated;
}

pub stop-SessionOk : (s : Session) → SessionOk s → SessionOk (stop s)
unfolding stop
stop-SessionOk s v = ok_if s.stopped s _ v (record {
  segments = stop-ManagerOk s.segments_mgr v.segments;
  queued = v.queued;
  numbered = v.numbered;
  retried = v.retried;
  cancelled = λ h. refl;
  unbound = λ h. refl;
  unauthenticated = λ h. refl;
})

-- Pending requests, routes and marks that the invariant does not speak of.
pub pending-SessionOk :
    (s : Session) (m : List (PendingKey × PendingRequest)) (calls : List RouteCall)
    (last : List (Bytes × ℕ))
    → SessionOk s
    → SessionOk (record s { pending_requests = m; routes = calls; replace_submit_last = last })
pending-SessionOk s m calls last v =
    rest-SessionOk s (record s { pending_requests = m; routes = calls; replace_submit_last = last })
      v

pub pending-IsLive :
    (s : Session) (m : List (PendingKey × PendingRequest)) (calls : List RouteCall)
    (last : List (Bytes × ℕ))
    → IsLive s
    → IsLive (record s { pending_requests = m; routes = calls; replace_submit_last = last })
pending-IsLive s m calls last (v, o) = (pending-SessionOk s m calls last v, o)

pub delete_pending-IsLive :
    (s : Session) (key : PendingKey) → IsLive s → IsLive (delete_pending s key)
unfolding delete_pending
delete_pending-IsLive s key v = pending-IsLive s _ s.routes s.replace_submit_last v

-- What sendEnquireLinkReq leaves is good, whether or not the queue takes the PDU.
pub send_enquire_link_req-SessionOk :
    (command now : ℕ) (s : Session)
    → SessionOk s
    → SessionOk (send_enquire_link_req command now s).1
unfolding send_enquire_link_req get_next_sequence store_pending enqueue_pdu
send_enquire_link_req-SessionOk command now s v = record {
  segments = ground (arith, v.segments);
  queued =
      let body : Pdu = record {
        command = command;
        seq = (get_next_sequence s).0;
        status = 0;
        sets = [];
        tlv_sets = [];
      } in
      ground (arith, v.queued, length-append s.pdu_queue (body ∷ []));
  numbered = ground (arith, v.numbered);
  retried = ground (arith, v.retried);
  cancelled = λ h. ground (arith, v.cancelled, h);
  unbound = λ h. ground (arith, v.unbound, h);
  unauthenticated = λ h. ground (arith, v.unauthenticated, h);
}
