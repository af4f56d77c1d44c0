-- ===== src/Session/Sound/Rounds.antt =====
-- The loops of a session in internal/smsc/session.go and the calls of internal/smsc/server.go on it
-- keep its invariant.
use smpp_smsc.Base.{
  ℕ, zero, suc, ◌≤◌, Bool, true, false, Option, none, some, List, [], ◌∷◌, ◌++◌, Bytes, nat_eq,
  if◌then◌else◌, length, arith,
}
use smpp_smsc.Wire.{Pdu}
use smpp_smsc.Segments.Routine.{
  RoutineEvent, start_cleanup_routine, start_cleanup_routine-ManagerOk,
}
use smpp_smsc.Session.{
  Limiter, set_rate_limiter, Session, update_last_activity, set_application_id, set_session_meta,
}
use smpp_smsc.Session.Outgoing.{
  drain_loop, drain_outgoing_pdu_batch, Link, unconnected, no_deadline, working, cut,
  send_serialized, send_pdu_batch, send_round, outgoing_step,
}
use smpp_smsc.Session.Cleanup.{visit_all, cleanup_pending_requests}
use smpp_smsc.Session.Sound.{SessionOk, rest-SessionOk, ok_if}

-- A queue that is no longer.
shorter-SessionOk :
    (s : Session) (queue : List Pdu)
    → SessionOk s
    → length queue ≤ length s.pdu_queue
    → SessionOk (record s { pdu_queue = queue })
shorter-SessionOk s queue v l = record {
  segments = v.segments;
  queued = let q = v.queued in omega arith;
  numbered = v.numbered;
  retried = v.retried;
  cancelled = v.cancelled;
  unbound = v.unbound;
  unauthenticated = v.unauthenticated;
}

pub activity-SessionOk :
    (s : Session) (now : ℕ) → SessionOk s → SessionOk (update_last_activity s now)
unfolding update_last_activity
activity-SessionOk s now v = rest-SessionOk s (update_last_activity s now) v

pub set_application_id-SessionOk :
    (s : Session) (id : Bytes) → SessionOk s → SessionOk (set_application_id s id)
unfolding set_application_id
set_application_id-SessionOk s id v = rest-SessionOk s (set_application_id s id) v

pub set_rate_limiter-SessionOk :
    (limiter : Limiter) (s : Session) → SessionOk s → SessionOk (set_rate_limiter limiter s)
unfolding set_rate_limiter
set_rate_limiter-SessionOk limiter s v = rest-SessionOk s (set_rate_limiter limiter s) v

pub set_session_meta-SessionOk :
    (s : Session) (key value : Bytes) → SessionOk s → SessionOk (set_session_meta s key value)
unfolding set_session_meta
set_session_meta-SessionOk s key value v = rest-SessionOk s (set_session_meta s key value) v

pub cleanup_pending-SessionOk :
    (now : ℕ) (s : Session) → SessionOk s → SessionOk (cleanup_pending_requests now s)
unfolding cleanup_pending_requests
cleanup_pending-SessionOk now s v =
    let m = visit_all now s.cfg.pending_request_ttl s.pending_requests s.pending_requests in
    ok_if s.bound _ _ (rest-SessionOk s (record s { pending_requests = m }) v) v

-- The rounds of the segments manager's cleanup.
pub segments-SessionOk :
    (events : List RoutineEvent) (s : Session)
    → SessionOk s
    → SessionOk (record s { segments_mgr = start_cleanup_routine events s.segments_mgr })
segments-SessionOk events s v = record {
  segments = start_cleanup_routine-ManagerOk events s.segments_mgr v.segments;
  queued = v.queued;
  numbered = v.numbered;
  retried = v.retried;
  cancelled = v.cancelled;
  unbound = v.unbound;
  unauthenticated = v.unauthenticated;
}

drain_loop-length :
    (room : ℕ) (batch queue : List Pdu) → length (drain_loop room batch queue).1 ≤ length queue
unfolding drain_loop
drain_loop-length zero batch queue = omega arith
drain_loop-length (suc room) batch [] = omega arith
drain_loop-length (suc room) batch (b ∷ queue) =
    let l = drain_loop-length room (batch ++ b ∷ []) queue in omega arith

module _ (serialize : Pdu → Option Bytes) where
  send_serialized-SessionOk :
      (link : Link) (payload : Option Bytes) (n : ℕ) (s : Session)
      → SessionOk s
      → SessionOk (send_serialized serialize link payload n s).1
  unfolding send_serialized
  send_serialized-SessionOk unconnected payload n s v = v
  send_serialized-SessionOk no_deadline payload n s v = v
  send_serialized-SessionOk (cut k) none n s v = v
  send_serialized-SessionOk (cut k) (some payload) n s v =
      rest-SessionOk s (send_serialized serialize (cut k) (some payload) n s).1 v
  send_serialized-SessionOk working none n s v = v
  send_serialized-SessionOk working (some payload) n s v =
      rest-SessionOk s (send_serialized serialize working (some payload) n s).1 v

  ok_if_pair :
      {A : Type 0} (b : Bool) (t u : A × Session)
      → SessionOk t.1
      → SessionOk u.1
      → SessionOk (if b then t else u).1
  ok_if_pair true t u v w = v
  ok_if_pair false t u v w = w

  send_pdu_batch-SessionOk :
      (link : Link) (batch : List Pdu) (s : Session)
      → SessionOk s
      → SessionOk (send_pdu_batch serialize link batch s).1
  unfolding send_pdu_batch
  send_pdu_batch-SessionOk link [] s v = v
  send_pdu_batch-SessionOk link (b ∷ batch) s v =
      ok_if_pair s.ctx_done _ _ v (send_serialized-SessionOk link _ _ s v)

  send_round-SessionOk :
      (link : Link) (queue : List Pdu) (s : Session)
      → SessionOk s
      → length queue ≤ length s.pdu_queue
      → SessionOk (send_round serialize link queue s)
  unfolding send_round drain_outgoing_pdu_batch
  send_round-SessionOk link [] s v l = v
  send_round-SessionOk link (first ∷ queue) s v l =
      let shorter = drain_loop-length 31 (first ∷ []) queue in
      let (batch, rest) = drain_outgoing_pdu_batch first queue in
      send_pdu_batch-SessionOk link batch (record s { pdu_queue = rest })
        (shorter-SessionOk s rest v (omega arith))

  pub outgoing_step-SessionOk :
      (link : Link) (s : Session) → SessionOk s → SessionOk (outgoing_step serialize link s)
  unfolding outgoing_step
  outgoing_step-SessionOk link s v = send_round-SessionOk link s.pdu_queue s v (omega arith)
